-- ===== src/Rooms/Clients.antt =====
-- websocket.go: the clients of a room. A connection is reserved, then attached or rolled back, and
-- released when its session closes; clients report that they are ready and send inputs, and the
-- countdown's worker ticks. What is sent to clients is left out.
pub mod Reservations
use server_crawl_stars.Base.{
  ℕ, ◌+◌, ◌*◌, String, Bool, true, false, not, ◌&&◌, ◌||◌, List, [], ◌∷◌, Option, none, some,
  str_eq, ◌==◌, if◌then◌else◌, is_ref, length, u64,
}
use server_crawl_stars.Base.Dict.{lookup, insert, delete, has_key}
use server_crawl_stars.Simulation.Types.{pos}
use server_crawl_stars.Rooms.Observer.{connected_clients_observation}
use server_crawl_stars.Rooms.Types.{
  RoomError, room_not_found, player_not_found, player_already_connected, unauthorized, Result, ok,
  err, CloseCause, peer_close, read_failure, write_timeout, write_error, ping_timeout, ping_error,
  control_overflow, prestart_cancel, ReconnectGrace, ClientSession, Room, Store,
}
use server_crawl_stars.Rooms.Resources.{
  no_resources, is_started, match_phase_for_room, write, stop_resources,
}
use server_crawl_stars.Rooms.Monad.{M, put_room, put_runtime}
use server_crawl_stars.Rooms.Identity.{authenticate_player, release_player_ids}
use server_crawl_stars.Rooms.Participants.{has_player}
use server_crawl_stars.Rooms.Phases.{
  second, is_matched, is_loading, reached, has_pre_start_match, all_match_players_ready,
  start_match_countdown, advance_match_loading, ready_deadline_expired, tick_match_countdown_room,
}
use server_crawl_stars.Rooms.Registry.{
  observe, publish_disconnected_clients, detach_room, delete_room_if_same, close_resources,
  retire_room,
}

abbrev reconnect_grace : ℕ
reconnect_grace = 10 * second

-- A reservation's pointer with the room's pointer and the player that it names.
pub record ClientReservation : Type 0 where
  pub handle : ℕ
  pub room : ℕ
  pub player_id : String

-- The attach deadline of a matched room has passed.
abbrev attach_closed : ℕ → Room → Bool
attach_closed now room = is_matched room.match_status && reached now room.match_attach_deadline_at

-- The checks on `tokens` of `reserveClient`: one token, not empty, that authenticates the player.
unfoldable pub is_authorized : (String → String) → Room → String → List String → Bool
is_authorized sha256 room player_id [] = false
is_authorized sha256 room player_id (token ∷ []) =
    not (str_eq token "") && authenticate_player sha256 room player_id token
is_authorized sha256 room player_id (token ∷ _ ∷ _) = false

-- The checks of `reserveClient` on the room, in order.
unfoldable pub reserve_error :
    ℕ → (String → String) → Room → String → List String → Option RoomError
unfolding is_authorized
reserve_error now sha256 room player_id tokens =
    if room.removed || room.ending || attach_closed now room
    then some room_not_found
    else if not (has_player player_id room.players)
    then some player_not_found
    else if not (is_authorized sha256 room player_id tokens)
    then some unauthorized
    else if has_key player_id room.finalized_game_end_results
    then some player_not_found
    else if has_key player_id room.clients || has_key player_id room.reservations
    then some player_already_connected
    else none

-- `reserveClient`
unfoldable pub reserve_client : ℕ → String → String → List String → M ClientReservation
unfolding reserve_error
reserve_client now room_id player_id tokens s = elim (lookup room_id s.rooms) [
  | none ↦ (err room_not_found, s)
  | some ref ↦
      let room = s.heap ref in
      let handle = s.next_reservation in
      let reserved = record room { reservations = insert player_id handle room.reservations } in
      let granted : Result ClientReservation × Store = (
        ok (record { handle = handle; room = ref; player_id = player_id }),
        record (put_room ref reserved s) { next_reservation = handle + 1 },
      ) in
      if s.closed
      then (err room_not_found, s)
      else elim (reserve_error now s.sha256 room player_id tokens) [
        | none ↦ granted
        | some e ↦ (err e, s)
      ]
]

-- `rollbackClientReservation`
unfoldable pub rollback_client_reservation : ClientReservation → Store → Store
rollback_client_reservation reservation s =
    let room = s.heap reservation.room in
    let id = reservation.player_id in
    if room.removed || not (is_ref (lookup id room.reservations) reservation.handle)
    then s
    else put_room reservation.room (record room { reservations = delete id room.reservations }) s

abbrev pub generation_of : String → Room → ℕ
generation_of id room = elim (lookup id room.connection_generations) [ none ↦ 0 | some g ↦ g ]

-- The room of `attachClientSession` with the new client in it.
unfoldable pub attach_to_room : ℕ → String → ℕ → ℕ → Room → Room
attach_to_room now id session generation room = record room {
  reconnect_graces = delete id room.reconnect_graces;
  connection_generations = insert id generation room.connection_generations;
  reservations = delete id room.reservations;
  clients = insert id session room.clients;
  last_activity_at = now;
  disconnected_at = none;
}

-- `attachClientSession`: the new session, if the reservation still stands.
unfoldable pub attach_client_session : ℕ → ClientReservation → Store → Option ℕ × Store
unfolding attach_to_room
attach_client_session now reservation s =
    let ref = reservation.room in
    let room = s.heap ref in
    let id = reservation.player_id in
    let generation = u64 (generation_of id room + 1) in
    let session = s.next_session in
    let fresh : ClientSession = record {
      close_cause = none;
      connection_generation = generation;
      match_phase = match_phase_for_room room;
      closed = false;
    } in
    let room1 = attach_to_room now id session generation room in
    let s1 = observe connected_clients_observation (pos 1) s in
    let (_, r, room2, rt) = advance_match_loading now ref no_resources room1 s1.runtime in
    if s.closed
      || room.removed
      || room.ending
      || has_key id room.finalized_game_end_results
      || attach_closed now room
      || not (is_ref (lookup id room.reservations) reservation.handle)
    then (none, s)
    else (
      some session,
      record (put_runtime (stop_resources r rt) (put_room ref room2 s1)) {
        client_sessions = write s1.client_sessions session fresh;
        next_session = session + 1;
      },
    )

-- `isReconnectableCloseCause`
unfoldable pub is_reconnectable : CloseCause → Bool
is_reconnectable peer_close = true
is_reconnectable read_failure = true
is_reconnectable write_timeout = true
is_reconnectable write_error = true
is_reconnectable ping_timeout = true
is_reconnectable ping_error = true
is_reconnectable control_overflow = true
is_reconnectable _ = false

-- The cause of `closeObservation`; none yet is a close by the peer.
abbrev observed_cause : ClientSession → CloseCause
observed_cause session = elim session.close_cause [ none ↦ peer_close | some cause ↦ cause ]

-- The grace that `releaseClient` gives to a client that a started match may take back.
unfoldable pub grace_after : ℕ → String → ClientSession → Room → Room
grace_after now id session room =
    let grace : ReconnectGrace = record {
      generation = session.connection_generation;
      expires_at = now + reconnect_grace;
    } in
    let graced = record room { reconnect_graces = insert id grace room.reconnect_graces } in
    if is_started room.status
      && not room.ending
      && is_reconnectable (observed_cause session)
      && session.connection_generation == generation_of id room
    then graced
    else room

-- The room of `releaseClient` without the client.
unfoldable pub release_from_room : ℕ → String → ClientSession → Room → Room
unfolding grace_after
release_from_room now id session room = grace_after now id session (record room {
  clients = delete id room.clients;
  pending_inputs = delete id room.pending_inputs;
  ready_players = delete id room.ready_players;
})

abbrev pub mark_disconnected : ℕ → Room → Room
mark_disconnected now room =
    if is_started room.status && length room.clients == 0
    then record room { disconnected_at = some now }
    else room

-- The end of `releaseClient` for a match that has not started: it is cancelled.
unfoldable pub cancel_match : ℕ → Store → Store
cancel_match ref s =
    let (detached, s1) = detach_room prestart_cancel ref s in
    elim detached [
      | none ↦ s
      | some (player_ids, r) ↦
          let (_, s2) = delete_room_if_same (s.heap ref).id ref s1 in
          close_resources prestart_cancel r (release_player_ids player_ids s2)
    ]

-- `releaseClient`, called when the session closes. Of a cancelled match, the gauge of clients is
-- published before that of rooms here.
unfoldable pub release_client : ℕ → ClientReservation → ℕ → Store → Store
unfolding release_from_room cancel_match
release_client now reservation expected_session s =
    let ref = reservation.room in
    let room = s.heap ref in
    let id = reservation.player_id in
    let session = s.client_sessions expected_session in
    let phased = record session { match_phase = match_phase_for_room room } in
    let room1 = release_from_room now id session room in
    let s1 =
      publish_disconnected_clients 1
        (record s { client_sessions = write s.client_sessions expected_session phased }) in
    if room.removed || not (is_ref (lookup id room.clients) expected_session)
    then s
    else if has_pre_start_match room1
    then cancel_match ref (put_room ref room1 s1)
    else put_room ref (mark_disconnected now room1) s1

abbrev pub is_late : ℕ → Room → Option ℕ → Bool
is_late now room none = false
is_late now room (some t) = ready_deadline_expired now t room

-- `markClientReady` past its checks: the deadline comes first, then the ready mark.
unfoldable pub ready_room : ℕ → ℕ → String → Store → Store
ready_room now ref id s =
    let room = s.heap ref in
    let room1 = record room {
      ready_players = insert id true room.ready_players;
      last_activity_at = now;
    } in
    let (r, room2, rt) = start_match_countdown ref no_resources room1 s.runtime in
    if is_late now room room.ready_deadline_ticker
    then retire_room prestart_cancel ref s
    else if is_loading room.match_status && all_match_players_ready room1
    then put_runtime (stop_resources r rt) (put_room ref room2 s)
    else put_room ref room1 s

-- `markClientReady`
unfoldable pub mark_client_ready : ℕ → String → String → ℕ → Store → Store
unfolding ready_room
mark_client_ready now room_id player_id expected_session s = elim (lookup room_id s.rooms) [
  | none ↦ s
  | some ref ↦
      let room = s.heap ref in
      if s.closed
        || room.removed
        || not (has_player player_id room.players)
        || not (has_pre_start_match room)
        || not (is_ref (lookup player_id room.clients) expected_session)
      then s
      else ready_room now ref player_id s
]

-- `tickMatchCountdownRoom`: whether the countdown's worker is done.
unfoldable pub tick_match_countdown : ℕ → ℕ → ℕ → Store → Bool × Store
tick_match_countdown now ref countdown_ticker s =
    let (done, room, rt) =
      tick_match_countdown_room s.spawn_position now ref countdown_ticker (s.heap ref) s.runtime in
    (done, put_runtime rt (put_room ref room s))
