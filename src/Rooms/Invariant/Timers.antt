-- ===== src/Rooms/Invariant/Timers.antt =====
-- The timers of a room that is retired (cleanup.go, store.go, ready_deadline.go).
use server_crawl_stars.Base.{
  ℕ, zero, suc, String, ◌≡◌, refl, ap, ◌∙◌, false, List, [], ◌++◌, Option, length,
}
use server_crawl_stars.Simulation.Types.{negsuc}
use server_crawl_stars.Rooms.Observer.{connected_clients_observation}
use server_crawl_stars.Rooms.Types.{CloseCause, ClientSession, RoomResources, Room, Runtime, Store}
use server_crawl_stars.Rooms.Resources.{
  no_resources, push, removal, detach_all, detach_gameplay, detach_bot_fill,
  detach_matched_attach_deadline, detach_ready_deadline, detach_countdown, stop_resources,
}
use server_crawl_stars.Rooms.Monad.{put_room}
use server_crawl_stars.Rooms.Identity.{release_player_ids}
use server_crawl_stars.Rooms.Invariant.Removal.{detach_room_lem}
use server_crawl_stars.Rooms.Registry.{
  retire_room, unregister, observe, publish_disconnected_clients, close_resources,
}

-- The tickers of a room, by the order in which they are detached.
abbrev pub held_tickers : Room → List ℕ
held_tickers room = push room.ticker (
    push room.ready_deadline_ticker
      (push room.match_attach_ticker (push room.bot_fill_ticker (push room.countdown_ticker []))))

-- The stop channels of a room, by the same order.
abbrev pub held_stops : Room → List ℕ
held_stops room = push room.stop (
    push room.ready_deadline_stop
      (push room.match_attach_stop (push room.bot_fill_stop (push room.countdown_stop []))))

-- A removal takes every ticker and stop channel of the room, once each, and leaves the room none, with
-- no client and no reservation.
removal_timers :
    (cause : CloseCause) (heap : ℕ → ClientSession) (room : Room)
    → let out = removal cause heap no_resources room in
      (out.resources.tickers ≡ held_tickers room)
      × (out.resources.stops ≡ held_stops room)
      × (held_tickers out.room ≡ [])
      × (held_stops out.room ≡ [])
      × (out.room.clients ≡ [])
      × (out.room.reservations ≡ [])
unfolding removal detach_all detach_gameplay detach_bot_fill detach_matched_attach_deadline
    detach_ready_deadline detach_countdown
removal_timers cause heap room = (refl, refl, refl, refl, refl, refl)

publish_runtime : (n : ℕ) (s : Store) → (publish_disconnected_clients n s).runtime ≡ s.runtime
unfolding publish_disconnected_clients observe
publish_runtime zero s = refl
publish_runtime (suc n) s = publish_runtime n (observe connected_clients_observation (negsuc 0) s)

-- The retirement of a room that was not removed stops its tickers and closes its channels, each once,
-- and no others.
pub retire_room_timers :
    (cause : CloseCause) (ref : ℕ) (s : Store)
    → (s.heap ref).removed ≡ false
    → ((retire_room cause ref s).runtime.stopped_tickers
        ≡ s.runtime.stopped_tickers ++ held_tickers (s.heap ref))
      × ((retire_room cause ref s).runtime.closed_stops
          ≡ s.runtime.closed_stops ++ held_stops (s.heap ref))
unfolding retire_room unregister observe close_resources release_player_ids stop_resources
retire_room_timers cause ref s e =
    let out = removal cause s.client_sessions no_resources (s.heap ref) in
    let same =
      ap (λ (o : Option (List String × RoomResources) × Store). o.1.runtime)
        (detach_room_lem cause ref s e)
      ∙ publish_runtime (length out.resources.client_observations)
          (record (put_room ref out.room s) { client_sessions = out.client_sessions }) in
    let timers = removal_timers cause s.client_sessions (s.heap ref) in
    simp (retire_room, detach_room_lem cause ref s e)
      (
        ap (λ (rt : Runtime). rt.stopped_tickers ++ out.resources.tickers) same
            ∙ ap (λ ts. s.runtime.stopped_tickers ++ ts) timers.0,
        ap (λ (rt : Runtime). rt.closed_stops ++ out.resources.stops) same
            ∙ ap (λ ts. s.runtime.closed_stops ++ ts) timers.1,
      )
