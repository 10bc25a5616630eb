-- ===== src/Simulation/Inputs.antt =====
-- simulation.go: the inputs of a tick, in their order, and what each does to its player.
use server_crawl_stars.Base.{
  ℕ, ◌+◌, str_eq, str_lt, Bool, true, false, not, ◌&&◌, ◌||◌, Option, none, some, List, [], ◌∷◌,
  ◌++◌, ◌==◌, if◌then◌else◌,
}
use server_crawl_stars.Simulation.Types.{
  ℤ, is_positive, leb_ℤ, pos, negsuc, Float64, Vector2, InputCommand, PlayerData, GameConfig,
}
use server_crawl_stars.Simulation.Floats.{
  Floats, one_float, is_finite, clamp_direction, normalize_direction,
}
use server_crawl_stars.Simulation.State.{State}

pub record PreparedInput : Type 0 where
  pub input : InputCommand
  pub player_index : ℕ
  pub attack_dir : Vector2
  pub movement : Vector2

-- `orderedInputsByPlayerID`: a stable sort by the player's id.
unfoldable pub insert_input : InputCommand → List InputCommand → List InputCommand
insert_input i [] = i ∷ []
insert_input i (j ∷ js) =
    let later = insert_input i js in
    if str_lt j.player_id i.player_id then j ∷ later else i ∷ j ∷ js

unfoldable pub ordered_inputs_by_player_id : List InputCommand → List InputCommand
unfolding insert_input
ordered_inputs_by_player_id [] = []
ordered_inputs_by_player_id (i ∷ is) = insert_input i (ordered_inputs_by_player_id is)

abbrev pub is_negative : ℤ → Bool
is_negative (pos n) = false
is_negative (negsuc n) = true

module _ (fl : Floats) where
  -- `tickDuration`; the constant `TickDuration` is one divided by `TickRate`.
  unfoldable pub tick_duration : GameConfig → Float64
  tick_duration config =
      fl.div (one_float fl)
        (if config.tick_rate == 0 then fl.decimal 30 0 else fl.of_int (pos config.tick_rate))

  -- What `prepareInput` refuses of the player that it found.
  unfoldable pub is_refused : InputCommand → PlayerData → Bool
  unfolding is_finite
  is_refused input p =
      p.is_dead
      || not (is_finite fl input.move_dir)
      || not (is_finite fl input.attack_dir)
      || is_negative input.client_tick
      || (is_positive input.client_tick && leb_ℤ input.client_tick p.last_processed_client_tick)

  -- What it writes to a player that it does not refuse.
  unfoldable pub prepare_player : InputCommand → PlayerData → PlayerData
  unfolding clamp_direction normalize_direction
  prepare_player input p =
      let directed = record p {
        move_dir = clamp_direction fl input.move_dir;
        attack_dir = normalize_direction fl input.attack_dir;
      } in
      if is_positive input.client_tick
      then record directed { last_processed_client_tick = input.client_tick }
      else directed

  abbrev pub prepared_input : GameConfig → InputCommand → ℕ → PlayerData → PreparedInput
  prepared_input config input index p =
      let move_dir = clamp_direction fl input.move_dir in
      let speed = fl.mul p.speed (tick_duration config) in
      record {
        input = input;
        player_index = index;
        attack_dir = normalize_direction fl input.attack_dir;
        movement = record { x = fl.mul speed move_dir.x; y = fl.mul speed move_dir.y };
      }

  -- The loop of `prepareInput` from an index on: none when the input is refused or unknown.
  unfoldable pub prepare_from :
      GameConfig → InputCommand → ℕ → List PlayerData → Option (PreparedInput × List PlayerData)
  unfolding is_refused prepare_player clamp_direction normalize_direction tick_duration
  prepare_from config input index [] = none
  prepare_from config input index (p ∷ ps) =
      let later : Option (PreparedInput × List PlayerData) =
        elim (prepare_from config input (index + 1) ps) [
          | none ↦ none
          | some (prepared, rest) ↦ some (prepared, p ∷ rest)
        ] in
      if str_eq p.id input.player_id
      then if is_refused input p
        then none
        else some (prepared_input config input index p, prepare_player input p ∷ ps)
      else later

  -- `prepareInput`
  unfoldable pub prepare_input : InputCommand → State → Option (PreparedInput × State)
  unfolding prepare_from
  prepare_input input s = elim (prepare_from s.game_config input 0 s.players) [
    | none ↦ none
    | some (prepared, players) ↦ some (prepared, record s { players = players })
  ]

  -- One turn of the loop of `Step` over the ordered inputs.
  unfoldable pub prepare_turn :
      InputCommand → List PreparedInput × State → List PreparedInput × State
  unfolding prepare_input
  prepare_turn input (prepared, s) = elim (prepare_input input s) [
    | none ↦ (prepared, s)
    | some (next, s') ↦ (prepared ++ next ∷ [], s')
  ]

  unfoldable pub prepare_inputs :
      List InputCommand → List PreparedInput × State → List PreparedInput × State
  unfolding prepare_turn
  prepare_inputs [] r = r
  prepare_inputs (i ∷ is) r = prepare_inputs is (prepare_turn i r)
