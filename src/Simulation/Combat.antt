-- ===== src/Simulation/Combat.antt =====
-- combat_rules.go, timed_dash.go and simulation.go: who can damage whom, what damage does, the
-- elimination of players, and the tombstones of destroyed projectiles.
use server_crawl_stars.Base.{
  ℕ, ◌+◌, ◌-◌, u64, String, str_eq, str_lt, Bool, true, false, not, ◌&&◌, ◌||◌, Option, none, some,
  List, [], ◌∷◌, leb, if◌then◌else◌,
}
use server_crawl_stars.Base.Dict.{Dict, lookup, insert, delete}
use server_crawl_stars.Simulation.Types.{Float64, PlayerData, ProjectileData, GameModeConfig}
use server_crawl_stars.Simulation.Floats.{Floats, zero_float, circles_overlap}
use server_crawl_stars.Simulation.State.{State, TimedDashState, find_player}

-- `CanPlayerDamage`
unfoldable pub can_player_damage : PlayerData → PlayerData → GameModeConfig → Bool
can_player_damage owner target mode =
    if str_eq owner.id target.id || target.is_dead
    then false
    else if str_eq mode.rules.team_behavior "free_for_all"
    then true
    else str_eq mode.rules.team_behavior "two_teams"
      && (mode.rules.friendly_fire || not (str_eq owner.team target.team))

-- `canOwnerHit`
unfoldable pub can_owner_hit : String → PlayerData → State → Bool
unfolding find_player can_player_damage
can_owner_hit owner_id target s = elim (find_player owner_id s.players) [
  | none ↦ false
  | some owner ↦ can_player_damage owner target s.game_config.selected_mode
]

-- `clearPlayerDash` on the player; the map's entry goes too.
abbrev pub stop_dash : PlayerData → PlayerData
stop_dash p = record p { is_dashing = false; attack_ready_tick = 0 }

abbrev pub is_listed : String → List String → Bool
is_listed id [] = false
is_listed id (j ∷ ids) = str_eq j id || is_listed id ids

module _ (fl : Floats) where
  -- The loop of `EliminatePlayers` over the players and the dashes.
  unfoldable pub eliminate_each :
      List String → List PlayerData → Dict TimedDashState → List PlayerData × Dict TimedDashState
  unfolding delete
  eliminate_each ids [] dashes = ([], dashes)
  eliminate_each ids (p ∷ ps) dashes =
      let dead = record (stop_dash p) { hp = zero_float fl; is_dead = true } in
      let hit = eliminate_each ids ps (delete p.id dashes) in
      let missed = eliminate_each ids ps dashes in
      if is_listed p.id ids then (dead ∷ hit.0, hit.1) else (p ∷ missed.0, missed.1)

  -- `EliminatePlayers`
  unfoldable pub eliminate_players : List String → State → State
  unfolding eliminate_each
  eliminate_players [] s = s
  eliminate_players (id ∷ ids) s =
      let (players, dashes) = eliminate_each (id ∷ ids) s.players s.dash_states in
      record s { players = players; dash_states = dashes }

  -- What a hit does to its target in `applyProjectileHit` and `applyMeleeIntents`.
  unfoldable pub take_damage : Float64 → PlayerData → PlayerData
  take_damage amount p =
      let left = fl.sub p.hp amount in
      if fl.less_or_equal left (zero_float fl)
      then record p { hp = zero_float fl; is_dead = true }
      else record p { hp = left }

  -- The target that the loop of `applyProjectileHit` finds: of those hit, the one with the least id,
  -- the first of equal ones. `best` is the target so far.
  unfoldable pub hit_target :
      ProjectileData → State → List PlayerData → Option PlayerData → Option PlayerData
  unfolding can_owner_hit circles_overlap
  hit_target projectile s [] best = best
  hit_target projectile s (p ∷ ps) best =
      let hit =
        can_owner_hit projectile.owner_id p s
        && circles_overlap fl projectile.pos projectile.radius p.pos p.radius in
      let better : Bool = elim best [ none ↦ true | some b ↦ str_lt p.id b.id ] in
      hit_target projectile s ps (if hit && better then some p else best)

-- `projectileTombstoneRetentionTicks`
abbrev pub projectile_tombstone_retention_ticks : ℕ
projectile_tombstone_retention_ticks = 30

-- `markProjectileDestroyed`: the projectile, and the tick that its tombstone appears at.
unfoldable pub mark_projectile_destroyed : ℕ → ProjectileData → Dict ℕ → ProjectileData × Dict ℕ
unfolding insert
mark_projectile_destroyed tick projectile destroyed_at =
    if projectile.is_destroyed then (projectile, destroyed_at) else (
      record projectile { is_destroyed = true },
      insert projectile.id (u64 (tick + 1)) destroyed_at,
    )

-- One projectile in `pruneExpiredProjectileTombstones`: whether it is kept.
unfoldable pub prune_one : ℕ → ProjectileData → Dict ℕ → Bool × Dict ℕ
unfolding lookup insert delete
prune_one tick projectile destroyed_at =
    let seen : Option ℕ = lookup projectile.id destroyed_at in
    let at : ℕ = elim seen [ none ↦ tick | some t ↦ t ] in
    let noted : Dict ℕ = elim seen [
      | none ↦ insert projectile.id tick destroyed_at
      | some t ↦ destroyed_at
    ] in
    if not projectile.is_destroyed
    then (true, destroyed_at)
    else if leb at tick && leb projectile_tombstone_retention_ticks (tick - at)
    then (false, delete projectile.id noted)
    else (true, noted)

unfoldable pub prune_each : ℕ → List ProjectileData → Dict ℕ → List ProjectileData × Dict ℕ
unfolding prune_one
prune_each tick [] destroyed_at = ([], destroyed_at)
prune_each tick (p ∷ ps) destroyed_at =
    let (kept, noted) = prune_one tick p destroyed_at in
    let (rest, at) = prune_each tick ps noted in (if kept then p ∷ rest else rest, at)

-- `pruneExpiredProjectileTombstones`
unfoldable pub prune_expired_projectile_tombstones : State → State
unfolding prune_each
prune_expired_projectile_tombstones s =
    let (kept, at) = prune_each s.tick s.projectiles s.projectile_destroyed_at in
    record s { projectiles = kept; projectile_destroyed_at = at }
