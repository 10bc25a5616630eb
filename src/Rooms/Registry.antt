-- ===== src/Rooms/Registry.antt =====
-- store.go, cleanup.go and ready_deadline.go: the registry of rooms. A room enters it under a fresh
-- identifier while there is space, and leaves it when it is deleted, expires, misses a deadline or has
-- ended. An operation runs as one step: the model takes no other operation between its locks. `now` is
-- what the clock gives to it.
use server_crawl_stars.Base.{
  ℕ, zero, suc, ◌+◌, String, Bool, true, false, not, ◌&&◌, ◌||◌, List, [], ◌∷◌, Option, none, some,
  leb, ◌==◌, if◌then◌else◌, is_ref, length,
}
use server_crawl_stars.Base.Dict.{Dict, lookup, insert, delete}
use server_crawl_stars.Simulation.Types.{ℤ, pos, negsuc}
use server_crawl_stars.Rooms.Observer.{
  ObservationKind, active_rooms_observation, connected_clients_observation, transition, publish,
}
use server_crawl_stars.Rooms.Types.{
  room_not_found, room_has_no_players, active_room_cap_reached, internal, Result, ok, err,
  CloseCause, expiry, debug_delete, game_end, prestart_cancel, RoomResources, Room, Store,
}
use server_crawl_stars.Rooms.Resources.{
  no_resources, merge, remove_room, stop_resources, close_with_cause, detach_bot_fill,
  detach_matched_attach_deadline, detach_ready_deadline,
}
use server_crawl_stars.Rooms.Monad.{
  M, ◌>>=◌, ◌>>◌, return, gets, modify, refuse_if, put_room, put_runtime,
}
use server_crawl_stars.Rooms.Identity.{unique_room_id, release_player_ids}
use server_crawl_stars.Rooms.Participants.{new_room, to_response, RoomResponse}
use server_crawl_stars.Rooms.Phases.{
  is_expired, is_matched, before, ready_deadline_expired, start_room_locked,
}

-- `s.rooms[roomID] == room`
abbrev pub owns : String → ℕ → Store → Bool
owns id ref s = is_ref (lookup id s.rooms) ref

-- The change of a gauge, and its publication.
unfoldable pub observe : ObservationKind → ℤ → Store → Store
observe kind delta s =
    let (t, o) = transition kind delta s.observation in record s { observation = publish t o }

-- `clientObservationTransitionsLocked(…, -1)` and `publishDisconnectedClients`, for so many clients.
unfoldable pub publish_disconnected_clients : ℕ → Store → Store
unfolding observe
publish_disconnected_clients zero s = s
publish_disconnected_clients (suc n) s =
    publish_disconnected_clients n (observe connected_clients_observation (negsuc 0) s)

-- `delete(s.rooms, roomID)` with the gauge of active rooms
unfoldable pub unregister : String → Store → Store
unregister id s =
    observe active_rooms_observation (negsuc 0) (record s { rooms = delete id s.rooms })

-- `removeRegisteredRoomIfSame` and `deleteRoomIfSame`
unfoldable pub delete_room_if_same : String → ℕ → Store → Bool × Store
delete_room_if_same id ref s = if owns id ref s then (true, unregister id s) else (false, s)

-- `removeRoomLockedWithCause` through the room's pointer, and the gauge of its clients.
unfoldable pub detach_room : CloseCause → ℕ → Store → Option (List String × RoomResources) × Store
detach_room cause ref s = elim (remove_room cause s.client_sessions no_resources (s.heap ref)) [
  | none ↦ (none, s)
  | some removal ↦ (
    some (removal.player_ids, removal.resources),
    publish_disconnected_clients (length removal.resources.client_observations)
        (record (put_room ref removal.room s) { client_sessions = removal.client_sessions }),
  )
]

-- `roomResources.closeWithCause`
unfoldable pub close_resources : CloseCause → RoomResources → Store → Store
close_resources cause r s = record s {
  runtime = stop_resources r s.runtime;
  client_sessions = close_with_cause cause r s.client_sessions;
}

-- One room of `detachExpiredRooms`, `clearRooms` and `deleteRoom`: it is detached, and if it was still
-- registered, its players' identifiers are given back.
unfoldable pub discard_room : CloseCause → String → ℕ → Store → Bool × RoomResources × Store
discard_room cause id ref s =
    let (detached, s1) = detach_room cause ref s in
    let (deleted, s2) = delete_room_if_same id ref s1 in
    elim detached [
      | none ↦ (false, no_resources, s1)
      | some (player_ids, r) ↦
          (deleted, r, if deleted then release_player_ids player_ids s2 else s2)
    ]

abbrev count_if : Bool → ℕ → ℕ
count_if true n = suc n
count_if false n = n

-- The loop of `detachExpiredRooms` over the registered rooms
unfoldable pub expire_each : ℕ → Dict ℕ → RoomResources → Store → ℕ × RoomResources × Store
expire_each now [] resources s = (0, resources, s)
expire_each now ((id, ref) ∷ rooms) resources s =
    let room = s.heap ref in
    let keep = room.removed || not (is_expired now room) in
    let discarded = discard_room expiry id ref s in
    let rest =
      expire_each now rooms (if keep then resources else merge resources discarded.1)
        (if keep then s else discarded.2) in
    (count_if (not keep && discarded.0) rest.0, rest.1, rest.2)

-- `detachExpiredRooms`
unfoldable pub detach_expired_rooms : ℕ → RoomResources → Store → ℕ × RoomResources × Store
detach_expired_rooms now resources s = expire_each now s.rooms resources s

-- `cleanupExpired`, the janitor's step
unfoldable pub cleanup_expired : ℕ → Store → ℕ × Store
cleanup_expired now s =
    let (deleted, r, s') = detach_expired_rooms now no_resources s in
    (deleted, close_resources expiry r s')

-- A new room's entry into the registry.
unfoldable pub register : Room → Store → Store
register room s = observe active_rooms_observation (pos 1) (record (put_room s.next_room room s) {
  rooms = insert room.id s.next_room s.rooms;
  next_room = s.next_room + 1;
})

-- `createRoomOnce`
unfoldable pub create_room_once : ℕ → M RoomResponse
create_room_once now = do
  closed ← gets (λ s. s.closed)
  refuse_if closed internal
  is_full ← gets (λ s. leb s.max_active_rooms (length s.rooms))
  refuse_if is_full active_room_cap_reached
  id ← unique_room_id
  config ← gets (λ s. s.game_config)
  modify (register (new_room now id config))
  return (to_response config.game_map (new_room now id config))

abbrev pub is_cap_reached : {A : Type 0} → Result A → Bool
is_cap_reached (err active_room_cap_reached) = true
is_cap_reached (err _) = false
is_cap_reached (ok _) = false

-- `createRoom`: a full registry is cleaned of expired rooms once, and the creation tried again.
unfoldable pub create_room : ℕ → M RoomResponse
create_room now s =
    let (r, s1) = create_room_once now s in
    let (_, resources, s2) = detach_expired_rooms now no_resources s1 in
    let (r', s3) = create_room_once now s2 in
    if s.closed
    then (err internal, s)
    else if is_cap_reached r
    then (r', close_resources expiry resources s3)
    else (r, s1)

-- `deleteRoom`
unfoldable pub delete_room : String → Store → Bool × Store
delete_room id s = elim (lookup id s.rooms) [
  | none ↦ (false, s)
  | some ref ↦
      let (deleted, r, s') = discard_room debug_delete id ref s in
      if s.closed || (s.heap ref).ending
      then (false, s)
      else (deleted, close_resources debug_delete r s')
]

-- The loop of `clearRooms`
unfoldable pub clear_each : Dict ℕ → RoomResources → Store → ℕ × RoomResources × Store
clear_each [] resources s = (0, resources, s)
clear_each ((id, ref) ∷ rooms) resources s =
    let keep = (s.heap ref).ending in
    let discarded = discard_room debug_delete id ref s in
    let rest =
      clear_each rooms (if keep then resources else merge resources discarded.1)
        (if keep then s else discarded.2) in
    (count_if (not keep && discarded.0) rest.0, rest.1, rest.2)

-- `clearRooms`
unfoldable pub clear_rooms : Store → ℕ × Store
clear_rooms s =
    let (deleted, r, s') = clear_each s.rooms no_resources s in
    if s.closed then (0, s) else (deleted, close_resources debug_delete r s')

-- The common end of `finishGameEnd` and of the deadlines, which hold the Store's lock and the room's.
unfoldable pub retire_room : CloseCause → ℕ → Store → Store
retire_room cause ref s =
    let (detached, s1) = detach_room cause ref s in
    elim detached [
      | none ↦ s
      | some (player_ids, r) ↦
          close_resources cause r (release_player_ids player_ids (unregister (s.heap ref).id s1))
    ]

-- `finishGameEnd`
unfoldable pub finish_game_end : ℕ → Store → Store
finish_game_end ref s =
    let room = s.heap ref in
    if s.closed || not (owns room.id ref s) || room.removed || not room.ending
    then s
    else retire_room game_end ref s

-- `expireMatchedAttachDeadline`
unfoldable pub expire_matched_attach_deadline : ℕ → ℕ → ℕ → Store → Store
expire_matched_attach_deadline now ref expected_ticker s =
    let room = s.heap ref in
    if s.closed
      || not (owns room.id ref s)
      || room.removed
      || room.ending
      || not (is_matched room.match_status)
      || not (is_ref room.match_attach_ticker expected_ticker)
      || before now room.match_attach_deadline_at
    then s
    else retire_room prestart_cancel ref s

-- `expireReadyDeadline` and `detachExpiredReadyDeadlineLocked`
unfoldable pub expire_ready_deadline : ℕ → ℕ → ℕ → Store → Store
expire_ready_deadline now ref expected_ticker s =
    let room = s.heap ref in
    if s.closed || not (owns room.id ref s) || not (ready_deadline_expired now expected_ticker room)
    then s
    else retire_room prestart_cancel ref s

-- `startRoom`
unfoldable pub start_room : ℕ → String → Store → Result RoomResponse × Store
start_room now id s = elim (lookup id s.rooms) [
  | none ↦ (err (if s.closed then internal else room_not_found), s)
  | some ref ↦
      let room = s.heap ref in
      let (r1, room1) = detach_bot_fill no_resources room in
      let (r2, room2) = detach_matched_attach_deadline r1 room1 in
      let (r3, room3) = detach_ready_deadline r2 room2 in
      let (_, room4, rt) = start_room_locked s.spawn_position now ref room3 s.runtime in
      if s.closed
      then (err internal, s)
      else if room.removed || room.ending
      then (err room_not_found, s)
      else if length room.players == 0
      then (err room_has_no_players, s)
      else (
        ok (to_response s.game_config.game_map room4),
        put_runtime (stop_resources r3 rt) (put_room ref room4 s),
      )
]
