-- ===== src/Rooms/Invariant/Views.antt =====
-- What the invariant sees of the Store's helpers.
use server_crawl_stars.Base.{
  ℕ, zero, suc, ◌+◌, ◌-◌, ◌*◌, if_keep, get_elem?, Option, none, some, ◌≡◌, refl, ◌∙◌, String, List,
  [], ◌∷◌, length, arith,
}
use server_crawl_stars.Base.Dict.{insert, delete}
use server_crawl_stars.Simulation.Types.{ℤ, pos, negsuc}
use server_crawl_stars.Rooms.Observer.{
  active_rooms_observation, connected_clients_observation, ObservationTransition, ObservationState,
  add_delta, transition, publish, enqueue, drain, take_up, turn_of, drainer_turn,
}
use server_crawl_stars.Rooms.Types.{Room, Store}
use server_crawl_stars.Rooms.Registry.{observe, publish_disconnected_clients, unregister, register}
use server_crawl_stars.Rooms.Resources.{write}
use server_crawl_stars.Rooms.Invariant.{view}

take_up_gauges :
    (i : ℕ) (t : ObservationTransition) (o : ObservationState)
    → (take_up i t o).active_rooms ≡ o.active_rooms
unfolding take_up
take_up_gauges i t o = ground arith

turn_of_gauges :
    (d : Option (Option ObservationTransition)) (ts : List ObservationTransition) (i : ℕ)
    (o : ObservationState)
    → (turn_of d ts i o).active_rooms ≡ o.active_rooms
unfolding turn_of
turn_of_gauges none ts i o = refl
turn_of_gauges (some none) [] i o = refl
turn_of_gauges (some none) (t ∷ ts) i o = take_up_gauges i t (record o { pending = ts })
turn_of_gauges (some (some t)) ts i o = refl

drain_gauges : (n i : ℕ) (o : ObservationState) → (drain n i o).active_rooms ≡ o.active_rooms
unfolding drain drainer_turn
drain_gauges zero i o = refl
drain_gauges (suc n) i o =
    drain_gauges n i (drainer_turn i o) ∙ turn_of_gauges (get_elem? o.drainers i) o.pending i o

enqueue_gauges :
    (t : ObservationTransition) (o : ObservationState) → (enqueue t o).active_rooms ≡ o.active_rooms
unfolding enqueue
enqueue_gauges t o = ground arith

publish_gauges :
    (t : ObservationTransition) (o : ObservationState) → (publish t o).active_rooms ≡ o.active_rooms
unfolding publish
publish_gauges t o =
    let queued = enqueue t o in
    if_keep (λ (p : ObservationState). p.active_rooms ≡ o.active_rooms) o.draining
      (λ e. enqueue_gauges t o)
      (λ e. drain_gauges (length queued.pending * 2 + 2) 0 queued ∙ enqueue_gauges t o)

pub view-observe_clients :
    (d : ℤ) (s : Store) → view (observe connected_clients_observation d s) ≡ view s
unfolding observe transition
view-observe_clients d s =
    let p = transition connected_clients_observation d s.observation in
    λ i. record (view s) { active_rooms = publish_gauges p.0 p.1 i }

pub view-observe_rooms :
    (d : ℤ) (s : Store)
    → view (observe active_rooms_observation d s)
      ≡ record (view s) { active_rooms = add_delta s.observation.active_rooms d }
unfolding observe transition
view-observe_rooms d s =
    let p = transition active_rooms_observation d s.observation in
    λ i. record (view s) { active_rooms = publish_gauges p.0 p.1 i }

pub view-publish_disconnected :
    (n : ℕ) (s : Store) → view (publish_disconnected_clients n s) ≡ view s
unfolding publish_disconnected_clients
view-publish_disconnected zero s = refl
view-publish_disconnected (suc n) s =
    view-publish_disconnected n (observe connected_clients_observation (negsuc 0) s)
    ∙ view-observe_clients (negsuc 0) s

pub view-unregister :
    (k : String) (s : Store)
    → view (unregister k s)
      ≡ record (view s) { rooms = delete k s.rooms; active_rooms = s.observation.active_rooms - 1 }
unfolding unregister
view-unregister k s = view-observe_rooms (negsuc 0) (record s { rooms = delete k s.rooms })

pub view-register :
    (room : Room) (s : Store)
    → view (register room s) ≡ record (view s) {
      rooms = insert room.id s.next_room s.rooms;
      heap = write s.heap s.next_room room;
      next_room = s.next_room + 1;
      active_rooms = s.observation.active_rooms + 1;
    }
unfolding register
view-register room s = view-observe_rooms (pos 1) (record s {
  heap = write s.heap s.next_room room;
  rooms = insert room.id s.next_room s.rooms;
  next_room = s.next_room + 1;
})
