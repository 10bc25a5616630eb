-- ===== src/Simulation/Attacks.antt =====
-- normal_attack.go and skill.go: the approval of attacks and skills, and the bursts.
use server_crawl_stars.Base.{
  ℕ, ◌+◌, ◌*◌, u64, String, str_eq, str_lt, Bool, true, false, not, ◌&&◌, Option, none, some, List,
  [], ◌∷◌, ◌++◌, leb, ◌==◌, if◌then◌else◌, get_elem?, is_some,
}
use server_crawl_stars.Base.Dict.{Dict, lookup, insert, delete}
use server_crawl_stars.Simulation.Types.{
  Float64, Vector2, NormalAttackConfig, NormalAttackKind, spread_projectile, burst_projectile,
  melee, ProjectileTypeConfig,
}
use server_crawl_stars.Simulation.Floats.{Floats, zero_float, rotate_direction}
use server_crawl_stars.Simulation.State.{
  State, BurstState, ProjectileAttackSpec, EmissionPhase, scheduled, activation, ProjectileEmission,
  AttackIntent, MeleeIntent, find_player, update_at,
}
use server_crawl_stars.Simulation.Charges.{consume_attack_charge}

-- `GameConfig.ProjectileType`
unfoldable pub find_projectile_type :
    String → List ProjectileTypeConfig → Option ProjectileTypeConfig
find_projectile_type id [] = none
find_projectile_type id (t ∷ ts) = if str_eq t.id id then some t else find_projectile_type id ts

-- `newProjectileEmission`
unfoldable pub new_projectile_emission :
    String
    → Vector2
    → ProjectileAttackSpec
    → EmissionPhase
    → ℕ
    → ℕ
    → State
    → Option ProjectileEmission
unfolding find_projectile_type
new_projectile_emission owner_id direction attack phase ordinal snapshot_tick s =
    elim (find_projectile_type attack.projectile.projectile_type s.game_config.projectile_types) [
      | none ↦ none
      | some kind ↦ some (record {
        owner_id = owner_id;
        direction = direction;
        attack = attack;
        projectile = kind;
        projectile_type = attack.projectile.projectile_type;
        phase = phase;
        ordinal = ordinal;
        snapshot_tick = snapshot_tick;
      })
    ]

abbrev pub to_list {ℓ} : {A : Type ℓ} → Option A → List A
to_list none = []
to_list (some a) = a ∷ []

-- `s.players[index].PressedAttack = true`
abbrev pub press_attack : ℕ → State → State
press_attack index s = record s {
  players = update_at (λ p. record p { pressed_attack = true }) index s.players;
}

-- `approveMeleeAttack`, by the kind of the attack.
unfoldable pub approve_melee_of :
    NormalAttackKind → AttackIntent → State → Option MeleeIntent × State
unfolding consume_attack_charge
approve_melee_of melee intent s =
    let (spent, s') = consume_attack_charge intent.owner.id s in
    let approved : MeleeIntent = record {
      owner_index = intent.player_index;
      origin = intent.owner.pos;
      direction = intent.direction;
      attack = intent.attack;
    } in
    if spent then (some approved, press_attack intent.player_index s') else (none, s')
approve_melee_of _ intent s = (none, s)

unfoldable pub approve_melee_attack : AttackIntent → State → Option MeleeIntent × State
unfolding approve_melee_of
approve_melee_attack intent s = approve_melee_of intent.attack.kind intent s

module _ (fl : Floats) where
  -- `normalProjectileAttackSpec`
  abbrev pub normal_projectile_attack_spec : NormalAttackConfig → Option ProjectileAttackSpec
  normal_projectile_attack_spec attack = elim attack.projectile [
    | none ↦ none
    | some projectile ↦ some (record {
      damage_per_hit = attack.damage_per_hit;
      range_tiles = attack.range_tiles;
      projectile = projectile;
      teleport_behind_distance_tiles = zero_float fl;
    })
  ]

  -- The loop of a spread over its directions, from an ordinal on.
  unfoldable pub spread :
      AttackIntent → ProjectileAttackSpec → ℕ → ℕ → List Float64 → State → List ProjectileEmission
  unfolding new_projectile_emission rotate_direction
  spread intent attack tick ordinal [] s = []
  spread intent attack tick ordinal (offset ∷ offsets) s =
      to_list (
        new_projectile_emission intent.owner.id (rotate_direction fl intent.direction offset) attack
          activation ordinal tick s)
      ++ spread intent attack tick (ordinal + 1) offsets s

  abbrev pub start_burst : Vector2 → ProjectileAttackSpec → ℕ → BurstState
  start_burst direction attack tick = record {
    direction = direction;
    attack = attack;
    activation_tick = tick;
    next_ordinal = 1;
  }

  -- The `switch` of `approveProjectileAttack`.
  unfoldable pub launch :
      AttackIntent → ProjectileAttackSpec → ℕ → State → List ProjectileEmission × State
  unfolding spread new_projectile_emission insert
  launch intent attack tick s = elim intent.attack.kind [
    | spread_projectile ↦
        (spread intent attack tick 0 attack.projectile.direction_offsets_degrees s, s)
    | burst_projectile ↦ (
      to_list (new_projectile_emission intent.owner.id intent.direction attack activation 0 tick s),
      record s {
        burst_states =
            insert intent.owner.id (start_burst intent.direction attack tick) s.burst_states;
      },
    )
    | melee ↦ ([], s)
  ]

  abbrev pub is_burst : NormalAttackKind → Bool
  is_burst burst_projectile = true
  is_burst _ = false

  -- `approveProjectileAttack`
  unfoldable pub approve_projectile_attack :
      AttackIntent → ℕ → State → List ProjectileEmission × State
  unfolding consume_attack_charge launch lookup
  approve_projectile_attack intent tick s =
      let (spent, s') = consume_attack_charge intent.owner.id s in
      let pressed = press_attack intent.player_index s' in
      if is_burst intent.attack.kind && is_some (lookup intent.owner.id s.burst_states)
      then ([], s)
      else if spent
      then elim (normal_projectile_attack_spec intent.attack) [
        | none ↦ ([], pressed)
        | some attack ↦ launch intent attack tick pressed
      ]
      else ([], s')

-- The offset of a burst's next emission in `collectDueBurstEmissions`: the one configured for it, or
-- so many intervals.
abbrev pub offset_or : Option ℕ → ℕ → ℕ
offset_or none otherwise = otherwise
offset_or (some offset) otherwise = offset

unfoldable pub burst_offset : BurstState → ℕ
burst_offset b =
    let projectile = b.attack.projectile in
    offset_or (get_elem? projectile.emission_offsets_ticks b.next_ordinal)
      (b.next_ordinal * projectile.interval_ticks)

-- Whether a burst emits at a tick.
unfoldable pub is_due : ℕ → BurstState → Bool
unfolding burst_offset
is_due tick b =
    not (leb b.attack.projectile.count b.next_ordinal)
    && (tick == u64 (b.activation_tick + burst_offset b))

-- One turn of the loop of `collectDueBurstEmissions`.
unfoldable pub collect_one : ℕ → String → BurstState → State → List ProjectileEmission × State
unfolding is_due new_projectile_emission find_player insert delete
collect_one tick id b s =
    let dropped = record s { burst_states = delete id s.burst_states } in
    let next = record b { next_ordinal = b.next_ordinal + 1 } in
    let emission =
      new_projectile_emission id b.direction b.attack scheduled b.next_ordinal tick s in
    elim (find_player id s.players) [
      | none ↦ ([], dropped)
      | some owner ↦
          if owner.is_dead
          then ([], dropped)
          else if is_due tick b
          then (to_list emission, record s { burst_states = insert id next s.burst_states })
          else ([], s)
    ]

-- `orderedBurstOwnerIDs`, with the bursts: sorted by the owner.
unfoldable pub insert_burst : String × BurstState → Dict BurstState → Dict BurstState
insert_burst b [] = b ∷ []
insert_burst b (c ∷ cs) =
    let later = insert_burst b cs in if str_lt c.0 b.0 then c ∷ later else b ∷ c ∷ cs

unfoldable pub ordered_bursts : Dict BurstState → Dict BurstState
unfolding insert_burst
ordered_bursts [] = []
ordered_bursts (b ∷ bs) = insert_burst b (ordered_bursts bs)

unfoldable pub collect_each : ℕ → Dict BurstState → State → List ProjectileEmission × State
unfolding collect_one
collect_each tick [] s = ([], s)
collect_each tick ((id, b) ∷ bs) s =
    let (now, s') = collect_one tick id b s in
    let (later, s'') = collect_each tick bs s' in (now ++ later, s'')

-- `collectDueBurstEmissions`
unfoldable pub collect_due_burst_emissions : ℕ → State → List ProjectileEmission × State
unfolding collect_each ordered_bursts
collect_due_burst_emissions tick s = collect_each tick (ordered_bursts s.burst_states) s

-- `finishCompletedBursts`
unfoldable pub finish_bursts : Dict BurstState → Dict BurstState
finish_bursts [] = []
finish_bursts ((id, b) ∷ bs) =
    let rest = finish_bursts bs in
    if leb b.attack.projectile.count b.next_ordinal then rest else (id, b) ∷ rest

unfoldable pub finish_completed_bursts : State → State
unfolding finish_bursts
finish_completed_bursts s = record s { burst_states = finish_bursts s.burst_states }
