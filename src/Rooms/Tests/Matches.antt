-- ===== src/Rooms/Tests/Matches.antt =====
-- Inputs, countdowns and results in the duel of the tests.
use server_crawl_stars.Base.{
  ℕ, ◌≡◌, ◌≢◌, refl, inl, inr, String, Bool, true, false, List, [], ◌∷◌, none, some, arith, is_some,
  ◌⊎◌, length, eq_iff, ◌<◌,
}
use server_crawl_stars.Base.Dict.{Dict, lookup, insert, has_key}
use server_crawl_stars.Simulation.Types.{pos, InputCommand, PlayerData, GameConfig}
use server_crawl_stars.Simulation.Modes.{default_game_mode_config, team_red, team_blue, deal}
use server_crawl_stars.Simulation.Modes.Deal.{deal_enough}
use server_crawl_stars.Rooms.Types.{MatchStatus, RoomStatus, win, lose, draw, ok, Room}
use server_crawl_stars.Rooms.Participants.{new_room, has_player}
use server_crawl_stars.Rooms.Identity.{unique_value, random_value}
use server_crawl_stars.Rooms.Phases.Countdown.{ticked, countdown_starts}
use server_crawl_stars.Rooms.Inputs.{
  InputMessage, input_stored, set_room_input, last_processed_client_tick,
}
use server_crawl_stars.Rooms.Inputs.Order.{
  StillWaits, set_room_inputs, set_room_inputs-StillWaits, set_room_input-frame,
}
use server_crawl_stars.Rooms.GameEnd.{
  EndRule, live_player_count, dead_player_count, player_survival_game_end_results,
  solo_game_end_results, team_game_end_results, calculate_game_end_results, should_end_game,
  claim_finalized, assign, end_rule, results_by_rule, ends_by_rule, configured_team_eliminations,
  eliminated_count, live_by_team,
}
use server_crawl_stars.Rooms.GameEnd.Verdicts.{Named, survival_results, solo_winner_unique}
use server_crawl_stars.Rooms.GameEnd.Teams.{TeamResult, team_results}
use server_crawl_stars.Rooms.GameEnd.Results.{claim_finalized_lem}
use server_crawl_stars.Rooms.GameEnd.Ending.{should_end_game_complete, should_end_game_open}
use server_crawl_stars.Rooms.Invariant.Outcomes.{unique_value_fresh}
use server_crawl_stars.Rooms.Tests.{duel, nowhere, waiting_room, one_room, spawn}
use server_crawl_stars.Rooms.Inputs.{merge_pending, command_of}

abbrev tap : ℕ → Bool → InputMessage
tap tick attack = record {
  client_tick = pos tick;
  move_dir = nowhere;
  attack_dir = nowhere;
  pressed_attack = attack;
  pressed_skill = false;
}

abbrev attack_waits : InputCommand
attack_waits = command_of "player_c" (tap 3 true)

abbrev busy_room : Room
busy_room = record waiting_room { pending_inputs = ("player_c", attack_waits) ∷ [] }

tap_stored : (set_room_input 9 "player_c" (tap 4 false) 7 busy_room).0 ≡ input_stored
unfolding set_room_input merge_pending last_processed_client_tick new_room lookup has_player
tap_stored = refl

waits : lookup "player_c" busy_room.pending_inputs ≡ some attack_waits
unfolding lookup
waits = refl

abbrev first_player : String
first_player = "player_b"

abbrev second_player : String
second_player = "player_c"

other : second_player ≢ first_player
other = λ e. absurd (ground (arith, eq_iff second_player first_player))

abbrev moves : List (ℕ × ℕ × InputMessage)
moves = (9, 7, tap 4 false) ∷ (10, 7, tap 6 false) ∷ (11, 7, tap 5 false) ∷ []

set_room_inputs-StillWaits_example :
    StillWaits "player_c" attack_waits (set_room_inputs "player_c" moves busy_room)
set_room_inputs-StillWaits_example =
    set_room_inputs-StillWaits "player_c" moves busy_room attack_waits refl
      ((refl, refl, refl), ((refl, refl, refl), ((refl, refl, refl), tt)))
      (attack_waits, (waits, (refl, refl, refl, refl, refl)))

set_room_input-frame_example :
    lookup "player_c" (set_room_input 9 "player_b" (tap 4 false) 7 busy_room).1.pending_inputs
    ≡ lookup "player_c" busy_room.pending_inputs
set_room_input-frame_example =
    set_room_input-frame 9 "player_b" "player_c" (tap 4 false) 7 busy_room other

abbrev counting_room : Room
counting_room = record waiting_room {
  match_status = MatchStatus.starting;
  countdown = 5;
  countdown_ticker = some 8;
}

still_there : counting_room.removed ≡ false
unfolding new_room
still_there = refl

countdown_starts_example :
    ((ticked spawn 9 0 8 4 counting_room one_room.runtime).0.match_status ≡ MatchStatus.starting)
    × ((ticked spawn 9 0 8 5 counting_room one_room.runtime).0.status ≡ RoomStatus.started)
    × ((ticked spawn 9 0 8 5 counting_room one_room.runtime).0.match_status ≡ MatchStatus.started)
countdown_starts_example =
    countdown_starts spawn 9 0 8 4 counting_room one_room.runtime still_there refl refl refl

abbrev fighter : String → String → Bool → PlayerData
fighter id team is_dead = record {
  id = id;
  team = team;
  slot = 0;
  is_bot = false;
  character_type = 0;
  pos = nowhere;
  move_dir = nowhere;
  attack_dir = nowhere;
  speed = 0;
  radius = 0;
  hp = 0;
  pressed_attack = false;
  pressed_skill = false;
  attack_charges = 0;
  next_attack_charge_tick = 0;
  attack_ready_tick = 0;
  is_dashing = false;
  is_dead = is_dead;
  skill_ready_tick = 0;
  last_processed_client_tick = pos 0;
}

abbrev fighters : List PlayerData
fighters = fighter "a" team_red false ∷ fighter "b" team_blue true ∷ []

abbrev unhurt : List PlayerData
unhurt = fighter "a" team_red false ∷ fighter "b" team_blue false ∷ []

a_won : lookup "a" (player_survival_game_end_results fighters) ≡ some win
unfolding player_survival_game_end_results assign dead_player_count lookup insert
a_won = refl

survival_results_example :
    ((win ≡ win)
      × Named "a" (λ p. p.is_dead ≡ false) fighters
      × (live_player_count fighters < length fighters))
    ⊎ ((win ≡ lose) × Named "a" (λ p. p.is_dead ≡ true) fighters × (0 < live_player_count fighters))
    ⊎ ((win ≡ draw) × (live_player_count fighters ≡ 0))
survival_results_example = survival_results fighters "a" win a_won

a_alone : lookup "a" (solo_game_end_results fighters) ≡ some win
unfolding solo_game_end_results assign live_player_count lookup insert
a_alone = refl

abbrev champion : String
champion = "a"

solo_winner_unique_example : champion ≡ champion
solo_winner_unique_example = solo_winner_unique fighters "a" "a" a_alone a_alone

red_won : lookup "a" (team_game_end_results default_game_mode_config fighters) ≡ some win
unfolding team_game_end_results configured_team_eliminations eliminated_count live_by_team assign
    lookup insert
red_won = refl

team_results_example : TeamResult default_game_mode_config fighters "a" win
team_results_example = team_results default_game_mode_config fighters "a" win red_won

claim_finalized_lem_example :
    (lookup "a" (claim_finalized (("a", win) ∷ []) [] (("a", lose) ∷ [])).1 ≡ some lose)
    × (lookup "a" (claim_finalized (("a", win) ∷ []) [] (("a", lose) ∷ [])).0 ≡ none)
unfolding lookup
claim_finalized_lem_example =
    claim_finalized_lem (("a", win) ∷ []) [] (("a", lose) ∷ []) "a" (refl, tt)

is_over : should_end_game duel fighters ≡ true
unfolding should_end_game ends_by_rule end_rule player_survival_game_end_results dead_player_count
    assign insert
is_over = refl

rule_lem : end_rule "duel_1v1" ≡ EndRule.survival_rule
unfolding end_rule
rule_lem = refl

should_end_game_complete_example : lookup "b" (calculate_game_end_results duel fighters) ≢ none
unfolding end_rule
should_end_game_complete_example =
    should_end_game_complete duel fighters "b" is_over (inr (inl (refl, tt)))

abbrev trio : GameConfig
trio = record duel { selected_mode = record default_game_mode_config { id = "solo" } }

abbrev three : List PlayerData
three = fighter "c" team_red true ∷ unhurt

is_open : should_end_game trio three ≡ false
unfolding should_end_game ends_by_rule end_rule live_player_count
is_open = refl

c_lost : lookup "c" (calculate_game_end_results trio three) ≡ some lose
unfolding calculate_game_end_results results_by_rule end_rule solo_game_end_results
    live_player_count assign lookup insert
c_lost = refl

should_end_game_open_example : lose ≡ lose
should_end_game_open_example = should_end_game_open trio three "c" lose is_open c_lost

deal_enough_example : is_some (deal 5 3 0 default_game_mode_config.teams 0) ≡ true
deal_enough_example = deal_enough 5 3 0 default_game_mode_config.teams 0 (omega arith) (omega arith)

abbrev taken : Dict (Unit {0})
taken = ("player_a", tt) ∷ []

drawn_b : (unique_value 8 "player_" taken (some "a" ∷ some "b" ∷ [])).0 ≡ ok "player_b"
unfolding unique_value random_value lookup
drawn_b = refl

unique_value_fresh_example : has_key "player_b" taken ≡ false
unique_value_fresh_example =
    unique_value_fresh 8 "player_" taken (some "a" ∷ some "b" ∷ []) "player_b" drawn_b
