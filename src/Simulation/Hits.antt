-- ===== src/Simulation/Hits.antt =====
-- Who is hit, who may be damaged, and who is eliminated (combat_rules.go, simulation.go).
use server_crawl_stars.Base.{
  ◌≡◌, ◌≢◌, ◌↔◌, ◌⊎◌, refl, ap, sym, ◌∙◌, inl, inr, String, str_eq, str_lt, Bool, true, false, ◌&&◌,
  ◌||◌, Option, none, some, List, [], ◌∷◌, if◌then◌else◌, arith, Any, All, map, Bool-cases, eq_iff,
}
use server_crawl_stars.Base.Dict.{Dict, lookup, delete, lookup-delete}
use server_crawl_stars.Simulation.Types.{PlayerData, ProjectileData, GameModeConfig}
use server_crawl_stars.Simulation.Floats.{Floats, zero_float, circles_overlap}
use server_crawl_stars.Simulation.State.{State, TimedDashState}
use server_crawl_stars.Simulation.Combat.{
  can_player_damage, can_owner_hit, is_listed, eliminate_each, eliminate_players, hit_target,
}

-- The rule of who may damage whom: another player that lives; in a free for all anyone, with two
-- teams the other team, and one's own with friendly fire.
abbrev pub MayDamage : PlayerData → PlayerData → GameModeConfig → Type 0
MayDamage owner target mode =
    (owner.id ≢ target.id)
    × (target.is_dead ≡ false)
    × ((mode.rules.team_behavior ≡ "free_for_all")
        ⊎ ((mode.rules.team_behavior ≡ "two_teams")
            × ((mode.rules.friendly_fire ≡ true) ⊎ (owner.team ≢ target.team))))

-- The code's test is this rule: never oneself, never the dead, and where two teams play without
-- friendly fire only the other team; in a free for all, everybody else that lives.
pub can_player_damage-MayDamage :
    (owner target : PlayerData) (mode : GameModeConfig)
    → (can_player_damage owner target mode ≡ true) ↔ MayDamage owner target mode
unfolding can_player_damage
can_player_damage-MayDamage owner target mode = ground (
  arith,
  eq_iff mode.rules.team_behavior "free_for_all",
  eq_iff mode.rules.team_behavior "two_teams",
  eq_iff owner.id target.id,
  eq_iff owner.team target.team,
)

module _ (fl : Floats) where
  abbrev pub is_hit : ProjectileData → State → PlayerData → Bool
  is_hit projectile s p =
      can_owner_hit projectile.owner_id p s
      && circles_overlap fl projectile.pos projectile.radius p.pos p.radius

  -- The target is one of the players and is hit.
  abbrev pub Target : ProjectileData → State → List PlayerData → PlayerData → Type 0
  Target projectile s ps t = Any (λ p. (p ≡ t) × (is_hit projectile s p ≡ true)) ps

  -- Where the search ends: with a player that is hit, or with the one it started from and nobody hit.
  abbrev pub Found :
      ProjectileData → State → List PlayerData → Option PlayerData → Option PlayerData → Type 0
  Found projectile s ps best none = (best ≡ none) × All (λ p. is_hit projectile s p ≡ false) ps
  Found projectile s ps best (some t) = (best ≡ some t) ⊎ Target projectile s ps t

  -- What one player changes of the search.
  abbrev After :
      ProjectileData → State → PlayerData → Option PlayerData → Option PlayerData → Type 0
  After projectile s p none best = (best ≡ none) × (is_hit projectile s p ≡ false)
  After projectile s p (some t) best = (best ≡ some t) ⊎ ((p ≡ t) × (is_hit projectile s p ≡ true))

  -- The best target so far once a player was looked at.
  abbrev best_after : ProjectileData → State → PlayerData → Option PlayerData → Option PlayerData
  best_after projectile s p none = if is_hit projectile s p && true then some p else none
  best_after projectile s p (some b) =
      if is_hit projectile s p && str_lt p.id b.id then some p else some b

  best_after-After :
      (projectile : ProjectileData) (s : State) (p : PlayerData) (best : Option PlayerData)
      → After projectile s p (best_after projectile s p best) best
  best_after-After projectile s p none = elim (Bool-cases (is_hit projectile s p)) [
    | inl h ↦ simp h (inr (refl, refl))
    | inr h ↦ simp h (refl, refl)
  ]
  best_after-After projectile s p (some b) =
      elim (Bool-cases (is_hit projectile s p && str_lt p.id b.id)) [
        | inl h ↦ simp h (inr (refl, ground (arith, h)))
        | inr h ↦ simp h (inl refl)
      ]

  After-Found :
      (projectile : ProjectileData) (s : State) (p : PlayerData) (ps : List PlayerData)
      (best next r : Option PlayerData)
      → After projectile s p next best
      → Found projectile s ps next r
      → Found projectile s (p ∷ ps) best r
  After-Found projectile s p ps best none none a (e, all) = (a.0, (a.1, all))
  After-Found projectile s p ps best (some t) none a (e, all) = absurd (ground (arith, e))
  After-Found projectile s p ps best none (some t) a (inl e) = absurd (ground (arith, e))
  After-Found projectile s p ps best none (some t) a (inr found) = inr (inr found)
  After-Found projectile s p ps best (some u) (some t) (inl a) (inl e) = inl (a ∙ e)
  After-Found projectile s p ps best (some u) (some t) (inr a) (inl e) =
      inr (inl (a.0 ∙ ground (arith, e), a.1))
  After-Found projectile s p ps best (some u) (some t) a (inr found) = inr (inr found)

  hit_target-Found :
      (projectile : ProjectileData) (s : State) (ps : List PlayerData) (best : Option PlayerData)
      → Found projectile s ps best (hit_target fl projectile s ps best)
  unfolding hit_target
  hit_target-Found projectile s [] none = (refl, tt)
  hit_target-Found projectile s [] (some b) = inl refl
  hit_target-Found projectile s (p ∷ ps) none =
      After-Found projectile s p ps none (best_after projectile s p none) _
        (best_after-After projectile s p none)
        (hit_target-Found projectile s ps (best_after projectile s p none))
  hit_target-Found projectile s (p ∷ ps) (some b) =
      After-Found projectile s p ps (some b) (best_after projectile s p (some b)) _
        (best_after-After projectile s p (some b))
        (hit_target-Found projectile s ps (best_after projectile s p (some b)))

  -- A projectile hits a player that its owner may damage and that it overlaps; it hits nobody only if
  -- there is no such player.
  pub hit_target_lem :
      (projectile : ProjectileData) (s : State)
      → Found projectile s s.players none (hit_target fl projectile s s.players none)
  hit_target_lem projectile s = hit_target-Found projectile s s.players none

  -- The player after an elimination of those listed.
  abbrev pub eliminated : List String → PlayerData → PlayerData
  eliminated ids p =
      if is_listed p.id ids
      then record p {
        hp = zero_float fl;
        is_dead = true;
        is_dashing = false;
        attack_ready_tick = 0;
      }
      else p

  abbrev pub has_id : String → List PlayerData → Bool
  has_id id [] = false
  has_id id (p ∷ ps) = str_eq p.id id || has_id id ps

  eliminate_each_players :
      (ids : List String) (ps : List PlayerData) (dashes : Dict TimedDashState)
      → (eliminate_each fl ids ps dashes).0 ≡ map (eliminated ids) ps
  unfolding eliminate_each
  eliminate_each_players ids [] dashes = refl
  eliminate_each_players ids (p ∷ ps) dashes = ground (
    arith,
    eliminate_each_players ids ps dashes,
    eliminate_each_players ids ps (delete p.id dashes),
  )

  eliminate_each_dashes :
      (ids : List String) (ps : List PlayerData) (dashes : Dict TimedDashState) (id : String)
      → lookup id ((eliminate_each fl ids ps dashes).1)
        ≡ (if is_listed id ids && has_id id ps then none else lookup id dashes)
  unfolding eliminate_each
  eliminate_each_dashes ids [] dashes id = ground arith
  eliminate_each_dashes ids (p ∷ ps) dashes id = ground (
    arith,
    eliminate_each_dashes ids ps dashes id,
    eliminate_each_dashes ids ps (delete p.id dashes) id,
    lookup-delete p.id id dashes,
    eq_iff p.id id,
  )

  no_ids : (ps : List PlayerData) → map (eliminated []) ps ≡ ps
  no_ids [] = refl
  no_ids (p ∷ ps) = ap (◌∷◌ p) (no_ids ps)

  -- An elimination gives exactly the listed players no health, makes them dead, no longer dashing and
  -- with no tick to wait for, and removes the dashes of the listed players that are there; every other
  -- player and every other dash stays.
  pub eliminate_players_lem :
      (ids : List String) (s : State) (id : String)
      → ((eliminate_players fl ids s).players ≡ map (eliminated ids) s.players)
        × (lookup id ((eliminate_players fl ids s).dash_states)
            ≡ (if is_listed id ids && has_id id s.players then none else lookup id s.dash_states))
  unfolding eliminate_players
  eliminate_players_lem [] s id = (sym (no_ids s.players), refl)
  eliminate_players_lem (i ∷ ids) s id = (
    eliminate_each_players (i ∷ ids) s.players s.dash_states,
    eliminate_each_dashes (i ∷ ids) s.players s.dash_states id,
  )
