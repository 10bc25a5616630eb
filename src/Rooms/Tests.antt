-- ===== src/Rooms/Tests.antt =====
-- A Store with one room and two players, on which the theorems are applied.
mod Matches
mod Reports
mod Sessions
use server_crawl_stars.Base.{
  ℕ, ◌≡◌, ◌≢◌, ◌≤◌, refl, inl, inr, String, Bool, true, false, List, [], ◌∷◌, Option, none, some,
  arith, is_some, leb, ◌⊎◌, length, ◌++◌, ◌||◌, ltb, ◌<◌,
}
use server_crawl_stars.Base.Dict.{Dict, lookup, insert, has_key}
use server_crawl_stars.Simulation.Types.{
  pos, negsuc, Vector2, InputCommand, PlayerData, TeamConfig, GameConfig,
}
use server_crawl_stars.Simulation.Modes.{default_game_mode_config, team_red, team_blue, deal}
use server_crawl_stars.Simulation.Modes.Deal.{deal_enough}
use server_crawl_stars.Rooms.Types.{
  MatchStatus, RoomStatus, win, lose, draw, game_end, Result, ok, err, PlayerResponse, Room, Store,
}
use server_crawl_stars.Rooms.Participants.{new_room, has_player}
use server_crawl_stars.Rooms.Setup.{new_store, unallocated, no_session}
use server_crawl_stars.Rooms.Registry.{retire_room}
use server_crawl_stars.Rooms.Identity.{
  unique_value, random_value, reserve_bot_ids, authenticate_player,
}
use server_crawl_stars.Rooms.Phases.{tick_match_countdown_room}
use server_crawl_stars.Rooms.Phases.Countdown.{ticked, countdown_starts}
use server_crawl_stars.Rooms.Clients.{
  ClientReservation, reserve_client, reserve_error, is_authorized, rollback_client_reservation,
}
use server_crawl_stars.Rooms.Clients.Reservations.{
  Reserved, reserve_client-Reserved, rollback-reserve,
}
use server_crawl_stars.Rooms.Inputs.{
  InputMessage, input_stored, set_room_input, last_processed_client_tick, is_positive, leb_ℤ,
}
use server_crawl_stars.Rooms.GameEnd.{
  EndRule, live_player_count, dead_player_count, player_survival_game_end_results,
  solo_game_end_results, team_game_end_results, calculate_game_end_results, should_end_game,
  claim_finalized, assign, end_rule, results_by_rule, ends_by_rule, configured_team_eliminations,
  eliminated_count, live_by_team,
}
use server_crawl_stars.Rooms.GameEnd.Verdicts.{Named, survival_results, solo_winner_unique}
use server_crawl_stars.Rooms.GameEnd.Teams.{TeamResult, team_results}
use server_crawl_stars.Rooms.GameEnd.Results.{claim_finalized_lem}
use server_crawl_stars.Rooms.GameEnd.Ending.{should_end_game_complete, should_end_game_open}
use server_crawl_stars.Rooms.Invariant.{occupied, view, IsGood, IsValid}
use server_crawl_stars.Rooms.Invariant.BotIds.{Adds, SameIds, reserve_bot_ids-Adds}
use server_crawl_stars.Rooms.Invariant.Outcomes.{
  Outcome, Left, SameRooms, unique_value_fresh, reserve_bot_ids-Outcome,
}
use server_crawl_stars.Rooms.Invariant.Timers.{held_tickers, held_stops, retire_room_timers}
use server_crawl_stars.Rooms.Invariant.History.{
  Operation, creates, adds_player, adds_bots, joins, reserves, cleans, run, new_store-IsValid,
  run-IsValid,
}

abbrev pub duel : GameConfig
duel = record {
  version = 1;
  tick_rate = 30;
  tile_size = 0;
  player_types = [];
  projectile_types = [];
  mode_catalog = record { default_mode = "duel_1v1"; catalog = default_game_mode_config ∷ [] };
  selected_mode = default_game_mode_config;
  game_map = record {
    width = 2;
    height = 1;
    index = 0;
    max_players = 2;
    tile_size = 0;
    tiles = [];
  };
}

abbrev pub nowhere : Vector2
nowhere = record { x = 0; y = 0 }

abbrev pub digest : String → String
digest token = token

abbrev pub spawn : GameConfig → ℕ → Vector2
spawn config index = nowhere

abbrev random : List (Option String)
random = some "a" ∷ some "b" ∷ some "c" ∷ some "d" ∷ some "e" ∷ []

abbrev empty_store : Store
empty_store = new_store 5 duel random (some 0 ∷ []) digest spawn

abbrev history : List (ℕ × Operation)
history = (1, creates) ∷ (2, adds_player "room_a") ∷ (3, adds_bots "room_a" 1) ∷ (4, cleans) ∷ []

run-IsValid_example : IsValid (run history empty_store)
run-IsValid_example =
    run-IsValid history empty_store (new_store-IsValid 5 duel random (some 0 ∷ []) digest spawn)

abbrev pub human : String → ℕ → PlayerResponse
human id slot = record { id = id; team = team_red; slot = slot; is_bot = false; character_type = 0 }

abbrev pub waiting_room : Room
waiting_room = record (new_room 0 "room_a" duel) {
  players = human "player_b" 0 ∷ human "player_c" 1 ∷ [];
  sessions = ("player_b", "token") ∷ [];
  clients = ("player_c", 7) ∷ [];
  ticker = some 3;
  stop = some 4;
  bot_fill_ticker = some 5;
  bot_fill_stop = some 6;
}

abbrev pub one_room : Store
one_room = record empty_store {
  rooms = ("room_a", 0) ∷ [];
  heap = λ ref. waiting_room;
  next_room = 1;
}

there : (one_room.heap 0).removed ≡ false
unfolding new_room
there = refl

retire_room_timers_example :
    ((retire_room game_end 0 one_room).runtime.stopped_tickers
      ≡ one_room.runtime.stopped_tickers ++ held_tickers waiting_room)
    × ((retire_room game_end 0 one_room).runtime.closed_stops
        ≡ one_room.runtime.closed_stops ++ held_stops waiting_room)
retire_room_timers_example = retire_room_timers game_end 0 one_room there

reserve_client-Reserved_example :
    Reserved 9 "room_a" "player_b"
      ("token" ∷ [])
      one_room
      (reserve_client 9 "room_a" "player_b" ("token" ∷ []) one_room)
reserve_client-Reserved_example =
    reserve_client-Reserved 9 "room_a" "player_b" ("token" ∷ []) one_room

abbrev granted : ClientReservation
granted = record { handle = 0; room = 0; player_id = "player_b" }

abbrev reserved_store : Store
reserved_store = (reserve_client 9 "room_a" "player_b" ("token" ∷ []) one_room).1

granted_lem :
    reserve_client 9 "room_a" "player_b" ("token" ∷ []) one_room ≡ (ok granted, reserved_store)
unfolding reserve_client new_store new_room lookup reserve_error is_authorized has_player
    authenticate_player
granted_lem = refl

rollback-reserve_example :
    lookup "player_b" ((rollback_client_reservation granted reserved_store).heap 0).reservations
    ≡ lookup "player_b" waiting_room.reservations
rollback-reserve_example =
    rollback-reserve 9 "room_a" "player_b" ("token" ∷ []) one_room granted reserved_store
      granted_lem "player_b"

reserve_bot_ids-Adds_example :
    Outcome
      (λ js t.
        ((length js ≡ 2) × SameRooms empty_store t × IsGood (js ++ []) (view t))
        × Adds js empty_store t)
      (λ t. Left [] t × SameIds empty_store t)
      (reserve_bot_ids 2 empty_store)
reserve_bot_ids-Adds_example =
    reserve_bot_ids-Adds 2 [] empty_store
      (new_store-IsValid 5 duel random (some 0 ∷ []) digest spawn)
