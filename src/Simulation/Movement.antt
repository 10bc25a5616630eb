-- ===== src/Simulation/Movement.antt =====
-- simulation.go: the movement of the players of a tick, one axis after the other, and what a snapshot
-- tells of a player's attack.
use server_crawl_stars.Base.{
  ℕ, zero, suc, ◌+◌, ◌-◌, ◌*◌, u64, String, Bool, true, false, not, ◌&&◌, ◌||◌, Option, none, some,
  List, [], ◌∷◌, leb, ◌==◌, if◌then◌else◌, get_elem?, length,
}
use server_crawl_stars.Base.Dict.{Dict, lookup, delete}
use server_crawl_stars.Simulation.Types.{Float64, Vector2, MapData, PlayerData}
use server_crawl_stars.Simulation.Floats.{Floats, zero_float, one_float, clamp}
use server_crawl_stars.Simulation.State.{State, TimedDashState, BurstState}
use server_crawl_stars.Simulation.Charges.{normal_attack_config}
use server_crawl_stars.Simulation.Inputs.{PreparedInput}
use server_crawl_stars.Simulation.Maps.{tile_blocks_player, collides_with_map}

-- The type `playerMovementCandidate`, of the player at the same place, with whether it is dead.
pub record Candidate : Type 0 where
  pub origin : Vector2
  pub target : Vector2
  pub radius : Float64
  pub is_dead : Bool

pub data MovementAxis : Type 0 where
  axis_x axis_y : MovementAxis

abbrev pub along : MovementAxis → Vector2 → Float64
along axis_x v = v.x
along axis_y v = v.y

-- The coordinate on the other axis: of the origin in the first pass, of the target in the second.
abbrev pub across : MovementAxis → Candidate → Float64
across axis_x c = c.origin.y
across axis_y c = c.target.x

abbrev pub stand : PlayerData → Candidate
stand p = record { origin = p.pos; target = p.pos; radius = p.radius; is_dead = p.is_dead }

-- A blocked candidate stays where it was on the axis.
abbrev pub hold : MovementAxis → Candidate → Candidate
hold axis_x c = record c { target = record (c.target) { x = c.origin.x } }
hold axis_y c = record c { target = record (c.target) { y = c.origin.y } }

-- `preparedInputForPlayer`
unfoldable pub prepared_input_for_player : List PreparedInput → ℕ → Option PreparedInput
prepared_input_for_player [] index = none
prepared_input_for_player (i ∷ is) index =
    if i.player_index == index then some i else prepared_input_for_player is index

module _ (fl : Floats) where
  abbrev epsilon : Float64
  epsilon = fl.decimal 1 12

  -- `axisMovementCollides`
  unfoldable pub axis_movement_collides : Candidate → Candidate → MovementAxis → Bool
  unfolding clamp
  axis_movement_collides a b axis =
      let a_start = along axis a.origin in
      let b_start = along axis b.origin in
      let radius_sum =
        fl.add (fl.max_float a.radius (zero_float fl)) (fl.max_float b.radius (zero_float fl)) in
      let other_distance = fl.abs (fl.sub (across axis a) (across axis b)) in
      let squared = fl.sub (fl.mul radius_sum radius_sum) (fl.mul other_distance other_distance) in
      let contact = fl.sqrt squared in
      let relative_start = fl.sub a_start b_start in
      let relative_delta =
        fl.sub (fl.sub (along axis a.target) a_start) (fl.sub (along axis b.target) b_start) in
      let initial = fl.abs relative_start in
      let final = fl.abs (fl.add relative_start relative_delta) in
      let ends = fl.min_float initial final in
      let closest_t =
        clamp fl (fl.div (fl.neg relative_start) relative_delta) (zero_float fl) (one_float fl) in
      let between = fl.abs (fl.add relative_start (fl.mul relative_delta closest_t)) in
      let minimum =
        if fl.equal relative_delta (zero_float fl) then ends else fl.min_float ends between in
      let separates = fl.less (fl.add initial epsilon) final in
      let never_deepens = fl.less_or_equal (fl.sub initial epsilon) minimum in
      if fl.less (fl.add radius_sum epsilon) other_distance || fl.less squared (zero_float fl)
      then false
      else if fl.less_or_equal initial (fl.add contact epsilon)
      then not separates || not never_deepens
      else fl.less_or_equal minimum (fl.add contact epsilon)

  -- Whether a candidate that lives collides with another that does: `earlier` ones stand before it.
  unfoldable pub is_blocked : MovementAxis → Candidate → List Candidate → List Candidate → Bool
  unfolding axis_movement_collides
  is_blocked axis c [] [] = false
  is_blocked axis c [] (d ∷ later) =
      (not d.is_dead && axis_movement_collides c d axis) || is_blocked axis c [] later
  is_blocked axis c (d ∷ earlier) later =
      (not d.is_dead && axis_movement_collides d c axis) || is_blocked axis c earlier later

  -- `resolvePlayerMovementAxis`: every collision is found before any candidate is held back.
  unfoldable pub resolve_from : MovementAxis → List Candidate → List Candidate → List Candidate
  unfolding is_blocked
  resolve_from axis earlier [] = []
  resolve_from axis earlier (c ∷ later) =
      (if not c.is_dead && is_blocked axis c earlier later then hold axis c else c)
      ∷ resolve_from axis (c ∷ earlier) later

  unfoldable pub resolve_player_movement_axis : MovementAxis → List Candidate → List Candidate
  unfolding resolve_from
  resolve_player_movement_axis axis candidates = resolve_from axis [] candidates

  -- A candidate's first step, along x, and its second, along y: the map may stop each.
  unfoldable pub step_x : MapData → Candidate → Vector2 → Candidate
  unfolding collides_with_map
  step_x m c movement =
      let next : Vector2 = record { x = fl.add c.origin.x movement.x; y = c.origin.y } in
      if collides_with_map fl m next c.radius tile_blocks_player
      then c
      else record c { target = record (c.target) { x = next.x } }

  unfoldable pub step_y : MapData → Candidate → Vector2 → Candidate
  unfolding collides_with_map
  step_y m c movement =
      let next : Vector2 = record { x = c.target.x; y = fl.add c.origin.y movement.y } in
      if collides_with_map fl m next c.radius tile_blocks_player
      then c
      else record c { target = record (c.target) { y = next.y } }

  -- The inputs along x, in their order; an index with no player moves nobody.
  unfoldable pub move_at : MapData → ℕ → Vector2 → List Candidate → List Candidate
  unfolding step_x
  move_at m index movement [] = []
  move_at m zero movement (c ∷ cs) = step_x m c movement ∷ cs
  move_at m (suc index) movement (c ∷ cs) = c ∷ move_at m index movement cs

  unfoldable pub move_all_x : MapData → List PreparedInput → List Candidate → List Candidate
  unfolding move_at
  move_all_x m [] cs = cs
  move_all_x m (i ∷ is) cs = move_all_x m is (move_at m i.player_index i.movement cs)

  -- The candidates along y, each with the first input of its player.
  unfoldable pub move_all_y : MapData → List PreparedInput → ℕ → List Candidate → List Candidate
  unfolding prepared_input_for_player step_y
  move_all_y m inputs index [] = []
  move_all_y m inputs index (c ∷ cs) =
      let moved : Candidate = elim (prepared_input_for_player inputs index) [
        | none ↦ c
        | some i ↦ step_y m c i.movement
      ] in
      moved ∷ move_all_y m inputs (index + 1) cs

  unfoldable pub candidates_of : List PlayerData → List Candidate
  candidates_of [] = []
  candidates_of (p ∷ ps) = stand p ∷ candidates_of ps

  unfoldable pub place : List Candidate → List PlayerData → List PlayerData
  place (c ∷ cs) (p ∷ ps) = record p { pos = c.target } ∷ place cs ps
  place _ ps = ps

  -- `applyPlayerMovement`
  unfoldable pub apply_player_movement : List PreparedInput → State → State
  unfolding candidates_of move_all_x move_all_y resolve_player_movement_axis place
  apply_player_movement inputs s =
      let along_x =
        resolve_player_movement_axis axis_x
          (move_all_x s.game_map inputs (candidates_of s.players)) in
      let moved = resolve_player_movement_axis axis_y (move_all_y s.game_map inputs 0 along_x) in
      record s { players = place moved s.players }

-- The offset of a burst's last emission in `projectAttackStateToPlayers`.
unfoldable pub last_offset : BurstState → ℕ
last_offset b =
    let projectile = b.attack.projectile in
    let intervals = (projectile.count - 1) * projectile.interval_ticks in
    if length projectile.emission_offsets_ticks == projectile.count
    then elim (get_elem? projectile.emission_offsets_ticks (projectile.count - 1)) [
      | none ↦ intervals
      | some offset ↦ offset
    ]
    else intervals

-- What the dashes and bursts make of the tick at which a player can attack again.
unfoldable pub project_ready : Option TimedDashState → Option BurstState → PlayerData → PlayerData
unfolding last_offset
project_ready dash burst p =
    let dashing : PlayerData = elim dash [
      | none ↦ record p { is_dashing = false; attack_ready_tick = 0 }
      | some d ↦ record p { is_dashing = true; attack_ready_tick = d.ready_tick }
    ] in
    let cleared : PlayerData = record p { is_dashing = false; attack_ready_tick = 0 } in
    if p.is_dead then cleared else elim burst [
      | none ↦ dashing
      | some b ↦ record dashing {
        attack_ready_tick = u64 (u64 (b.activation_tick + last_offset b) + 1);
      }
    ]

-- What the charges make of it. Less than a whole recharge time has been waited.
unfoldable pub project_charges : ℕ → String → State → PlayerData → PlayerData
unfolding normal_attack_config lookup
project_charges tick id s p = elim (lookup id s.attack_states) [
  | none ↦ p
  | some a ↦ elim (normal_attack_config id s) [
    | none ↦ p
    | some attack ↦
        let charged = record p { attack_charges = a.charges } in
        if leb attack.max_charges a.charges
        then record charged { next_attack_charge_tick = 0 }
        else record charged {
          next_attack_charge_tick = u64 (tick + (attack.recharge_ticks - a.recharge_ticks));
        }
  ]
]

-- The loop of `projectAttackStateToPlayers`, with the dashes that are left.
unfoldable pub project_each :
    ℕ → State → Dict TimedDashState → List PlayerData → List PlayerData × Dict TimedDashState
unfolding project_ready project_charges lookup delete
project_each tick s dashes [] = ([], dashes)
project_each tick s dashes (p ∷ ps) =
    let left = if p.is_dead then delete p.id dashes else dashes in
    let ready = project_ready (lookup p.id left) (lookup p.id s.burst_states) p in
    let (rest, after) = project_each tick s left ps in
    (project_charges tick p.id s ready ∷ rest, after)

-- `projectAttackStateToPlayers`
unfoldable pub project_attack_state_to_players : ℕ → State → State
unfolding project_each
project_attack_state_to_players tick s =
    let (players, dashes) = project_each tick s s.dash_states s.players in
    record s { players = players; dash_states = dashes }
