-- ===== src/Rooms/Invariant/Members.antt =====
-- The invariant across the operations of clients and of the countdown (store.go, websocket.go).
use server_crawl_stars.Base.{
  ℕ, ◌+◌, ◌≡◌, refl, sym, inl, inr, ◌==◌, String, u64, true, false, not, ◌&&◌, ◌||◌, List, [],
  Option, some, arith, Option-cases, if_keep, is_ref, length,
}
use mathlib.Core.Path.{subst}
use server_crawl_stars.Base.Dict.{lookup, insert}
use server_crawl_stars.Simulation.Types.{pos}
use server_crawl_stars.Rooms.Observer.{connected_clients_observation}
use server_crawl_stars.Rooms.Types.{Result, prestart_cancel, ClientSession, Room, Store}
use server_crawl_stars.Rooms.Resources.{
  no_resources, write, match_phase_for_room, detach_bot_fill, detach_matched_attach_deadline,
  detach_ready_deadline,
}
use server_crawl_stars.Rooms.Monad.{put_room}
use server_crawl_stars.Rooms.Participants.{RoomResponse}
use server_crawl_stars.Rooms.Registry.{
  start_room, observe, publish_disconnected_clients, delete_room_if_same, close_resources,
}
use server_crawl_stars.Rooms.Clients.{
  ClientReservation, reserve_client, reserve_error, rollback_client_reservation,
  attach_client_session, attach_to_room, generation_of, is_late, mark_disconnected, release_client,
  release_from_room, grace_after, cancel_match, mark_client_ready, ready_room, tick_match_countdown,
}
use server_crawl_stars.Rooms.Phases.{is_loading, all_match_players_ready, has_pre_start_match}
use server_crawl_stars.Rooms.Inputs.{InputMessage, InputDisposition, set_input, set_room_input}
use server_crawl_stars.Rooms.Invariant.{view, IsGood, IsValid}
use server_crawl_stars.Rooms.Invariant.Views.{view-publish_disconnected, view-observe_clients}
use server_crawl_stars.Rooms.Invariant.Keeps.{Framed, Framed-trans, put-Framed}
use server_crawl_stars.Rooms.Invariant.Removal.{
  owns-detached, gone_store, gone-IsGood, detach_room_lem,
}
use server_crawl_stars.Rooms.Invariant.Retirement.{retire_room-IsValid}
use server_crawl_stars.Rooms.Invariant.Frames.{
  detach_bot_fill-Framed, detach_matched_attach_deadline-Framed, detach_ready_deadline-Framed,
  start_match_countdown-Framed, advance_match_loading-Framed, start_room_locked-Framed,
  tick_match_countdown_room-Framed,
}

-- A framed room is written back to a valid Store.
pub put_room-IsValid :
    (ref : ℕ) (room : Room) (s : Store)
    → Framed (s.heap ref) room
    → IsValid s
    → IsValid (put_room ref room s)
put_room-IsValid ref room s f g = put-Framed [] (view s) ref room f g

pub start_room-IsValid :
    (now : ℕ) (id : String) (s : Store) → IsValid s → IsValid (start_room now id s).1
unfolding start_room
start_room-IsValid now id s g = elim (Option-cases (lookup id s.rooms)) [
  | inl e ↦ rw (e, start_room) g
  | inr (ref, e) ↦
      let room = s.heap ref in
      let (r1, room1) = detach_bot_fill no_resources room in
      let (r2, room2) = detach_matched_attach_deadline r1 room1 in
      let (r3, room3) = detach_ready_deadline r2 room2 in
      let framed = Framed-trans (detach_bot_fill-Framed no_resources room) (
        Framed-trans (detach_matched_attach_deadline-Framed r1 room1) (
          Framed-trans (detach_ready_deadline-Framed r2 room2)
            (start_room_locked-Framed s.spawn_position now ref room3 s.runtime))) in
      rw (e, start_room)
        (if_keep (λ (o : Result RoomResponse × Store). IsValid o.1) s.closed (λ h. g)
          (λ h.
            if_keep (λ (o : Result RoomResponse × Store). IsValid o.1) (room.removed || room.ending)
              (λ h. g)
              (λ h.
                if_keep (λ (o : Result RoomResponse × Store). IsValid o.1)
                  (length room.players == 0) (λ h. g) (λ h. put_room-IsValid ref _ s framed g))))
]

pub reserve_client-IsValid :
    (now : ℕ) (room_id player_id : String) (tokens : List String) (s : Store)
    → IsValid s
    → IsValid (reserve_client now room_id player_id tokens s).1
unfolding reserve_client
reserve_client-IsValid now room_id player_id tokens s g =
    elim (Option-cases (lookup room_id s.rooms)) [
      | inl e ↦ rw (e, reserve_client) g
      | inr (ref, e) ↦
          elim (Option-cases (reserve_error now s.sha256 (s.heap ref) player_id tokens)) [
            | inl fine ↦
                rw (e, fine, reserve_client)
                  (if_keep (λ (o : Result ClientReservation × Store). IsValid o.1) s.closed (λ h. g)
                    (λ h.
                      put_room-IsValid ref _ s
                        (record { same_id = refl; same_removed = refl; same_players = refl }) g))
            | inr (problem, h) ↦
                rw (e, h, reserve_client)
                  (if_keep (λ (o : Result ClientReservation × Store). IsValid o.1) s.closed (λ h. g)
                    (λ h. g))
          ]
    ]

pub rollback_client_reservation-IsValid :
    (reservation : ClientReservation) (s : Store)
    → IsValid s
    → IsValid (rollback_client_reservation reservation s)
unfolding rollback_client_reservation
rollback_client_reservation-IsValid reservation s g =
    if_keep IsValid _ (λ e. g)
      (λ e.
        put_room-IsValid reservation.room _ s
          (record { same_id = refl; same_removed = refl; same_players = refl }) g)

pub attach_client_session-IsValid :
    (now : ℕ) (reservation : ClientReservation) (s : Store)
    → IsValid s
    → IsValid (attach_client_session now reservation s).1
unfolding attach_client_session attach_to_room observe
attach_client_session-IsValid now reservation s g =
    let s1 = observe connected_clients_observation (pos 1) s in
    let good : IsValid s1 = subst (IsGood []) (sym (view-observe_clients (pos 1) s)) g in
    let f =
      advance_match_loading-Framed now reservation.room no_resources
        (attach_to_room now reservation.player_id s.next_session
          (u64 (generation_of reservation.player_id (s.heap reservation.room) + 1))
          (s.heap reservation.room))
        s1.runtime in
    if_keep (λ (o : Option ℕ × Store). IsValid o.1) _ (λ e. g)
      (λ e.
        put_room-IsValid reservation.room _ s1
          (record {
            same_id = f.same_id;
            same_removed = f.same_removed;
            same_players = f.same_players;
          })
          good)

cancel_match_lem :
    (ref : ℕ) (s : Store)
    → (s.heap ref).removed ≡ false
    → IsValid s
    → view (cancel_match ref s) ≡ view (gone_store prestart_cancel (s.heap ref).id ref s)
unfolding cancel_match close_resources delete_room_if_same
cancel_match_lem ref s e g = simp (
  cancel_match,
  detach_room_lem prestart_cancel ref s e,
  delete_room_if_same,
  owns-detached prestart_cancel (s.heap ref).id ref s (g.registered ref e),
)

cancel_match-IsValid :
    (ref : ℕ) (s : Store) → (s.heap ref).removed ≡ false → IsValid s → IsValid (cancel_match ref s)
cancel_match-IsValid ref s e g =
    subst (IsGood []) (sym (cancel_match_lem ref s e g))
      (gone-IsGood [] prestart_cancel (s.heap ref).id ref s (g.registered ref e) g)

release_from_room-Framed :
    (now : ℕ) (id : String) (session : ClientSession) (room : Room)
    → Framed room (release_from_room now id session room)
unfolding release_from_room grace_after
release_from_room-Framed now id session room = record {
  same_id = ground arith;
  same_removed = ground arith;
  same_players = ground arith;
}

mark_disconnected-Framed : (now : ℕ) (room : Room) → Framed room (mark_disconnected now room)
mark_disconnected-Framed now room = record {
  same_id = ground arith;
  same_removed = ground arith;
  same_players = ground arith;
}

pub release_client-IsValid :
    (now : ℕ) (reservation : ClientReservation) (session : ℕ) (s : Store)
    → IsValid s
    → IsValid (release_client now reservation session s)
unfolding release_client observe publish_disconnected_clients
release_client-IsValid now reservation session s g =
    let ref = reservation.room in
    let room = s.heap ref in
    let phased = record s {
      client_sessions =
          write s.client_sessions session
            (record (s.client_sessions session) { match_phase = match_phase_for_room room });
    } in
    let s1 = publish_disconnected_clients 1 phased in
    let good : IsValid s1 = subst (IsGood []) (sym (view-publish_disconnected 1 phased)) g in
    let f = release_from_room-Framed now reservation.player_id (s.client_sessions session) room in
    if_keep IsValid
      (room.removed || not (is_ref (lookup reservation.player_id room.clients) session)) (λ e. g)
      (λ e.
        if_keep IsValid
          (has_pre_start_match
            (release_from_room now reservation.player_id (s.client_sessions session) room))
          (λ h.
            cancel_match-IsValid ref _ (ground (arith, f.same_removed))
              (put_room-IsValid ref _ s1 f good))
          (λ h. put_room-IsValid ref _ s1 (Framed-trans f (mark_disconnected-Framed now _)) good))

ready_room-IsValid :
    (now ref : ℕ) (id : String) (s : Store)
    → lookup (s.heap ref).id s.rooms ≡ some ref
    → IsValid s
    → IsValid (ready_room now ref id s)
unfolding ready_room
ready_room-IsValid now ref id s e g =
    let room1 = record (s.heap ref) {
      ready_players = insert id true (s.heap ref).ready_players;
      last_activity_at = now;
    } in
    let marked : Framed (s.heap ref) room1 = record {
      same_id = refl;
      same_removed = refl;
      same_players = refl;
    } in
    if_keep IsValid (is_late now (s.heap ref) (s.heap ref).ready_deadline_ticker)
      (λ h. retire_room-IsValid prestart_cancel ref s e g)
      (λ h.
        if_keep IsValid (is_loading (s.heap ref).match_status && all_match_players_ready room1)
          (λ k.
            put_room-IsValid ref _ s
              (Framed-trans marked (start_match_countdown-Framed ref no_resources room1 s.runtime))
              g)
          (λ k. put_room-IsValid ref room1 s marked g))

pub mark_client_ready-IsValid :
    (now : ℕ) (room_id player_id : String) (session : ℕ) (s : Store)
    → IsValid s
    → IsValid (mark_client_ready now room_id player_id session s)
unfolding mark_client_ready
mark_client_ready-IsValid now room_id player_id session s g =
    elim (Option-cases (lookup room_id s.rooms)) [
      | inl e ↦ rw (e, mark_client_ready) g
      | inr (ref, e) ↦
          rw (e, mark_client_ready)
            (if_keep IsValid _ (λ h. g)
              (λ h.
                ready_room-IsValid now ref player_id s (g.registered ref (g.alive room_id ref e))
                  g))
    ]

pub tick_match_countdown-IsValid :
    (now ref ticker : ℕ) (s : Store) → IsValid s → IsValid (tick_match_countdown now ref ticker s).1
unfolding tick_match_countdown
tick_match_countdown-IsValid now ref ticker s g =
    put_room-IsValid ref _ s
      (tick_match_countdown_room-Framed s.spawn_position now ref ticker (s.heap ref) s.runtime) g

set_room_input-Framed :
    (now : ℕ) (id : String) (input : InputMessage) (session : ℕ) (room : Room)
    → Framed room (set_room_input now id input session room).1
unfolding set_room_input
set_room_input-Framed now id input session room = record {
  same_id = ground arith;
  same_removed = ground arith;
  same_players = ground arith;
}

pub set_input-IsValid :
    (now : ℕ) (room_id player_id : String) (input : InputMessage) (session : ℕ) (s : Store)
    → IsValid s
    → IsValid (set_input now room_id player_id input session s).1
unfolding set_input
set_input-IsValid now room_id player_id input session s g =
    elim (Option-cases (lookup room_id s.rooms)) [
      | inl e ↦ rw (e, set_input) g
      | inr (ref, e) ↦
          rw (e, set_input)
            (if_keep (λ (o : InputDisposition × Store). IsValid o.1) s.closed (λ h. g)
              (λ h.
                put_room-IsValid ref _ s
                  (set_room_input-Framed now player_id input session (s.heap ref)) g))
    ]
