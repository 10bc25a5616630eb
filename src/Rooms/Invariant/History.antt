-- ===== src/Rooms/Invariant/History.antt =====
-- Any sequence of the Store's operations, from a new Store on: store.go (`NewStore`), and what the
-- handlers, the workers and the janitor call.
use server_crawl_stars.Base.{ℕ, refl, String, List, [], ◌∷◌, Option, arith}
use server_crawl_stars.Simulation.Types.{GameConfig, Vector2}
use server_crawl_stars.Rooms.Types.{Store}
use server_crawl_stars.Rooms.Registry.{
  create_room, delete_room, clear_rooms, cleanup_expired, finish_game_end,
  expire_matched_attach_deadline, expire_ready_deadline, start_room,
}
use server_crawl_stars.Rooms.Matchmaking.{
  add_player, add_bots, fill_matchmaking_bots, join_matchmaking_request,
}
use server_crawl_stars.Rooms.Clients.{
  ClientReservation, reserve_client, rollback_client_reservation, attach_client_session,
  release_client, mark_client_ready, tick_match_countdown,
}
use server_crawl_stars.Rooms.Inputs.{InputMessage, set_input}
use server_crawl_stars.Base.Dict.{lookup}
use server_crawl_stars.Rooms.Setup.{new_store}
use server_crawl_stars.Rooms.Invariant.{occupied, IsValid}
use server_crawl_stars.Rooms.Invariant.Retirement.{
  delete_room-IsValid, clear_rooms-IsValid, cleanup_expired-IsValid, finish_game_end-IsValid,
  expire_matched_attach_deadline-IsValid, expire_ready_deadline-IsValid,
}
use server_crawl_stars.Rooms.Invariant.Creation.{create_room-IsValid}
use server_crawl_stars.Rooms.Invariant.Joins.{join_matchmaking_request-IsValid}
use server_crawl_stars.Rooms.Invariant.Seats.{add_player-IsValid}
use server_crawl_stars.Rooms.Invariant.Bots.{add_bots-IsValid, fill_matchmaking_bots-IsValid}
use server_crawl_stars.Rooms.Invariant.Members.{
  start_room-IsValid, reserve_client-IsValid, rollback_client_reservation-IsValid,
  attach_client_session-IsValid, release_client-IsValid, mark_client_ready-IsValid,
  tick_match_countdown-IsValid, set_input-IsValid,
}

-- What a caller can do to the Store, with what it gives.
pub data Operation : Type 0 where
  creates : Operation
  deletes : String → Operation
  clears cleans : Operation
  adds_player : String → Operation
  adds_bots : String → ℕ → Operation
  joins : String → Option ℕ → Operation
  starts : String → Operation
  fills : ℕ → ℕ → Operation
  ends : ℕ → Operation
  misses_attach misses_ready counts_down : ℕ → ℕ → Operation
  reserves : String → String → List String → Operation
  rolls_back attaches : ClientReservation → Operation
  releases : ClientReservation → ℕ → Operation
  gets_ready : String → String → ℕ → Operation
  sends : String → String → InputMessage → ℕ → Operation

-- The Store after an operation at an instant.
unfoldable pub step : ℕ → Operation → Store → Store
step now creates s = (create_room now s).1
step now (deletes id) s = (delete_room id s).1
step now clears s = (clear_rooms s).1
step now cleans s = (cleanup_expired now s).1
step now (adds_player id) s = (add_player now id s).1
step now (adds_bots id count) s = (add_bots now id count s).1
step now (joins mode character) s = (join_matchmaking_request now mode character s).1
step now (starts id) s = (start_room now id s).1
step now (fills ref ticker) s = fill_matchmaking_bots now ref ticker s
step now (ends ref) s = finish_game_end ref s
step now (misses_attach ref ticker) s = expire_matched_attach_deadline now ref ticker s
step now (misses_ready ref ticker) s = expire_ready_deadline now ref ticker s
step now (counts_down ref ticker) s = (tick_match_countdown now ref ticker s).1
step now (reserves id player tokens) s = (reserve_client now id player tokens s).1
step now (rolls_back reservation) s = rollback_client_reservation reservation s
step now (attaches reservation) s = (attach_client_session now reservation s).1
step now (releases reservation session) s = release_client now reservation session s
step now (gets_ready id player session) s = mark_client_ready now id player session s
step now (sends id player input session) s = (set_input now id player input session s).1

unfoldable pub run : List (ℕ × Operation) → Store → Store
unfolding step
run [] s = s
run ((now, operation) ∷ rest) s = run rest (step now operation s)

-- Every operation keeps the registry valid, whatever its arguments and its result.
pub step-IsValid :
    (now : ℕ) (operation : Operation) (s : Store) → IsValid s → IsValid (step now operation s)
unfolding step
step-IsValid now creates s g = create_room-IsValid now s g
step-IsValid now (deletes id) s g = delete_room-IsValid id s g
step-IsValid now clears s g = clear_rooms-IsValid s g
step-IsValid now cleans s g = cleanup_expired-IsValid now s g
step-IsValid now (adds_player id) s g = add_player-IsValid now id s g
step-IsValid now (adds_bots id count) s g = add_bots-IsValid now id count s g
step-IsValid now (joins mode character) s g =
    join_matchmaking_request-IsValid now mode character s g
step-IsValid now (starts id) s g = start_room-IsValid now id s g
step-IsValid now (fills ref ticker) s g = fill_matchmaking_bots-IsValid now ref ticker s g
step-IsValid now (ends ref) s g = finish_game_end-IsValid ref s g
step-IsValid now (misses_attach ref ticker) s g =
    expire_matched_attach_deadline-IsValid now ref ticker s g
step-IsValid now (misses_ready ref ticker) s g = expire_ready_deadline-IsValid now ref ticker s g
step-IsValid now (counts_down ref ticker) s g = tick_match_countdown-IsValid now ref ticker s g
step-IsValid now (reserves id player tokens) s g = reserve_client-IsValid now id player tokens s g
step-IsValid now (rolls_back reservation) s g = rollback_client_reservation-IsValid reservation s g
step-IsValid now (attaches reservation) s g = attach_client_session-IsValid now reservation s g
step-IsValid now (releases reservation session) s g =
    release_client-IsValid now reservation session s g
step-IsValid now (gets_ready id player session) s g =
    mark_client_ready-IsValid now id player session s g
step-IsValid now (sends id player input session) s g =
    set_input-IsValid now id player input session s g

-- A new Store is valid, whatever it is configured with.
pub new_store-IsValid :
    (max_active_rooms : ℕ) (config : GameConfig) (random : List (Option String))
    (bot_choices : List (Option ℕ)) (sha256 : String → String) (spawn : GameConfig → ℕ → Vector2)
    → IsValid (new_store max_active_rooms config random bot_choices sha256 spawn)
unfolding new_store lookup occupied
new_store-IsValid max_active_rooms config random bot_choices sha256 spawn = record {
  unique = tt;
  within = omega arith;
  counted = refl;
  named = λ k r e. ground arith;
  alive = λ k r e. ground arith;
  registered = λ r e. ground arith;
  allocated = λ k r e. ground arith;
  held = λ id. omega arith;
}

-- Any sequence of operations keeps a valid Store valid: the rooms that are not removed are the
-- registered ones, each once under its own identifier; they are as many as the gauge says and no more
-- than allowed; every player's identifier is reserved, for one player.
pub run-IsValid : (history : List (ℕ × Operation)) (s : Store) → IsValid s → IsValid (run history s)
unfolding run
run-IsValid [] s g = g
run-IsValid ((now, operation) ∷ rest) s g =
    run-IsValid rest (step now operation s) (step-IsValid now operation s g)
