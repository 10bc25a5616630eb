-- ===== src/Rooms/Observer.antt =====
-- observer.go: the counters that the Store reports and the queue that publishes them.
-- A callback's panic, which `publish` lets the queue finish before it goes on, is not modelled.
pub mod Order
use server_crawl_stars.Base.{
  ℕ, u64, zero, suc, ◌+◌, ◌-◌, ◌*◌, Option, none, some, set, remove_at, get_elem?, Bool, true,
  false, List, [], ◌∷◌, ◌++◌, leb, if◌then◌else◌, length,
}
use server_crawl_stars.Simulation.Types.{ℤ, pos, negsuc}

pub data ObservationKind : Type 0 where
  active_rooms_observation connected_clients_observation : ObservationKind

pub record ObservationTransition : Type 0 where
  pub kind : ObservationKind
  pub value : ℕ
  pub sequence : ℕ

-- `publishedSequence` is the pair of `published_rooms` and `published_clients`. `told` holds the
-- transitions for which the observer was called, the newest first. `drainers` are the goroutines in
-- the loop of `publish`: `none` for one before its section under `publishMu`, and `some t` for one that
-- has left the section and is to call the observer with `t`.
pub record ObservationState : Type 0 where
  pub sequence : ℕ
  pub active_rooms : ℕ
  pub connected_clients : ℕ
  pub published_rooms : ℕ
  pub published_clients : ℕ
  pub pending : List ObservationTransition
  pub draining : Bool
  pub drainers : List (Option ObservationTransition)
  pub told : List ObservationTransition

-- `newObservationState`
abbrev pub new_observation_state : ObservationState
new_observation_state = record {
  sequence = 0;
  active_rooms = 0;
  connected_clients = 0;
  published_rooms = 0;
  published_clients = 0;
  pending = [];
  draining = false;
  drainers = [];
  told = [];
}

-- A counter after `*value += delta` and the cut at zero.
abbrev pub add_delta : ℕ → ℤ → ℕ
add_delta n (pos d) = n + d
add_delta n (negsuc d) = n - suc d

-- `transition`
unfoldable pub transition :
    ObservationKind → ℤ → ObservationState → ObservationTransition × ObservationState
transition active_rooms_observation delta s =
    let value : ℕ = add_delta s.active_rooms delta in
    let next : ℕ = u64 (s.sequence + 1) in
    (
      record { kind = active_rooms_observation; value = value; sequence = next },
      record s { active_rooms = value; sequence = next },
    )
transition connected_clients_observation delta s =
    let value : ℕ = add_delta s.connected_clients delta in
    let next : ℕ = u64 (s.sequence + 1) in
    (
      record { kind = connected_clients_observation; value = value; sequence = next },
      record s { connected_clients = value; sequence = next },
    )

abbrev pub published : ObservationKind → ObservationState → ℕ
published active_rooms_observation s = s.published_rooms
published connected_clients_observation s = s.published_clients

abbrev pub set_published : ObservationKind → ℕ → ObservationState → ObservationState
set_published active_rooms_observation n s = record s { published_rooms = n }
set_published connected_clients_observation n s = record s { published_clients = n }

-- The section takes a publication up: a stale one is dropped, any other is to be told.
unfoldable pub take_up : ℕ → ObservationTransition → ObservationState → ObservationState
take_up i t s =
    let fresh =
      set_published t.kind t.sequence (record s { drainers = set s.drainers i (some t) }) in
    if leb t.sequence (published t.kind s) then s else fresh

-- What the goroutine at a place of `drainers` does next, by what it is about to do and by what is
-- pending: its section under `publishMu`, with which it leaves if nothing is pending, or the call.
unfoldable pub turn_of :
    Option (Option ObservationTransition)
    → List ObservationTransition
    → ℕ
    → ObservationState
    → ObservationState
unfolding take_up
turn_of none ps i s = s
turn_of (some none) [] i s = record s { draining = false; drainers = remove_at i s.drainers }
turn_of (some none) (t ∷ rest) i s = take_up i t (record s { pending = rest })
turn_of (some (some t)) ps i s = record s { told = t ∷ s.told; drainers = set s.drainers i none }

unfoldable pub drainer_turn : ℕ → ObservationState → ObservationState
unfolding turn_of
drainer_turn i s = turn_of (get_elem? s.drainers i) s.pending i s

-- The entry of `publish`: the transition is queued; its caller waits for another goroutine that drains,
-- or begins to drain itself.
unfoldable pub enqueue : ObservationTransition → ObservationState → ObservationState
enqueue t s =
    let queued = record s { pending = s.pending ++ t ∷ [] } in
    if s.draining
    then queued
    else record queued { draining = true; drainers = s.drainers ++ none ∷ [] }

-- The turns of one drainer with no other goroutine between them.
unfoldable pub drain : ℕ → ℕ → ObservationState → ObservationState
unfolding drainer_turn
drain zero i s = s
drain (suc turns) i s = drain turns i (drainer_turn i s)

-- What goroutines do to the queue, in any order: enter `publish` with a transition, or go on draining.
pub data ObservationEvent : Type 0 where
  publishes : ObservationTransition → ObservationEvent
  drains : ℕ → ObservationEvent

unfoldable pub observation_step : ObservationEvent → ObservationState → ObservationState
unfolding enqueue drainer_turn
observation_step (publishes t) s = enqueue t s
observation_step (drains i) s = drainer_turn i s

-- The events stand from the last to the first.
unfoldable pub observation_run : List ObservationEvent → ObservationState
unfolding observation_step
observation_run [] = new_observation_state
observation_run (e ∷ before) = observation_step e (observation_run before)

-- `publish` with no other goroutine from its entry on: two turns for each transition, and two more. A
-- caller that finds another one draining has only queued its transition.
unfoldable pub publish : ObservationTransition → ObservationState → ObservationState
unfolding enqueue drain
publish t s =
    let queued = enqueue t s in
    let drained = drain (length queued.pending * 2 + 2) 0 queued in
    if s.draining then queued else drained
