-- ===== src/Rooms/Session/Publications.antt =====
-- websocket.go: the queue of a session's lifecycle publications, and the goroutines that drain it.
-- A publication's pointer is a number. A callback's panic, which the loop keeps until its end, and the
-- channel `done`, which is closed right after the callback, are not modelled: a caller that waits for
-- it changes nothing.
use server_crawl_stars.Base.{
  ℕ, zero, suc, Bool, true, false, not, ◌||◌, List, [], ◌∷◌, ◌++◌, Option, none, some, set,
  remove_at, get_elem?, ◌==◌, if◌then◌else◌,
}

-- The type `clientLifecyclePublication`.
pub record Publication : Type 0 where
  pub pointer : ℕ
  pub ready : Bool

-- `published` holds the publications whose callback has run, the oldest first. `drainers` are the
-- goroutines in `drainLifecyclePublications`: `none` for one before its section under `publicationMu`,
-- and `some p` for one that has taken `p` from the queue, left the section, and is to run its callback.
pub record PublicationQueue : Type 0 where
  pub publications : List Publication
  pub draining : Bool
  pub drainers : List (Option ℕ)
  pub published : List ℕ

-- Nothing can be published now: the queue is empty, or its first entry is not ready.
unfoldable pub is_held : List Publication → Bool
is_held [] = true
is_held (p ∷ rest) = not p.ready

-- `startPublicationDrainLocked`
unfoldable pub start_publication_drain_locked : PublicationQueue → Bool × PublicationQueue
unfolding is_held
start_publication_drain_locked q =
    if q.draining || is_held q.publications
    then (false, q)
    else (true, record q { draining = true })

-- `enqueueLifecyclePublication` up to its unlock, and whether the caller drains.
unfoldable pub enqueue_lifecycle_publication : Bool → ℕ → PublicationQueue → Bool × PublicationQueue
unfolding start_publication_drain_locked
enqueue_lifecycle_publication ready pointer q =
    let added = record q {
      publications = q.publications ++ (record { pointer = pointer; ready = ready }) ∷ [];
    } in
    if ready then start_publication_drain_locked added else (false, added)

unfoldable pub mark_ready : ℕ → List Publication → List Publication
mark_ready pointer [] = []
mark_ready pointer (p ∷ rest) =
    (if p.pointer == pointer then record p { ready = true } else p) ∷ mark_ready pointer rest

-- `readyLifecyclePublication` up to its unlock, and whether the caller drains.
unfoldable pub ready_lifecycle_publication : ℕ → PublicationQueue → Bool × PublicationQueue
unfolding mark_ready start_publication_drain_locked
ready_lifecycle_publication pointer q =
    start_publication_drain_locked (record q { publications = mark_ready pointer q.publications })

-- What the goroutine at a place of `drainers` does next, by what it is about to do and by the queue:
-- its section under `publicationMu`, or the callback.
unfoldable pub drain_turn_at :
    Option (Option ℕ) → List Publication → ℕ → PublicationQueue → PublicationQueue
drain_turn_at none ps i q = q
drain_turn_at (some none) [] i q = record q { draining = false; drainers = remove_at i q.drainers }
drain_turn_at (some none) (p ∷ rest) i q =
    if p.ready
    then record q { publications = rest; drainers = set q.drainers i (some p.pointer) }
    else record q { draining = false; drainers = remove_at i q.drainers }
drain_turn_at (some (some pointer)) ps i q = record q {
  published = q.published ++ pointer ∷ [];
  drainers = set q.drainers i none;
}

unfoldable pub drain_turn : ℕ → PublicationQueue → PublicationQueue
unfolding drain_turn_at
drain_turn i q = drain_turn_at (get_elem? q.drainers i) q.publications i q

-- `drainLifecyclePublications` of one goroutine, with no other one between its turns.
unfoldable pub drain_lifecycle_publications : ℕ → ℕ → PublicationQueue → PublicationQueue
unfolding drain_turn
drain_lifecycle_publications zero i q = q
drain_lifecycle_publications (suc turns) i q = drain_lifecycle_publications turns i (drain_turn i q)

-- `if shouldDrain { s.drainLifecyclePublications() }`: the caller enters the loop.
unfoldable pub enter_drain : Bool × PublicationQueue → PublicationQueue
enter_drain (should_drain, q) =
    if should_drain then record q { drainers = q.drainers ++ none ∷ [] } else q

pub data PublicationEvent : Type 0 where
  enqueue_event : Bool → ℕ → PublicationEvent
  ready_event : ℕ → PublicationEvent
  turn_event : ℕ → PublicationEvent

unfoldable pub publication_step : PublicationEvent → PublicationQueue → PublicationQueue
unfolding enqueue_lifecycle_publication ready_lifecycle_publication drain_turn enter_drain
publication_step (enqueue_event ready pointer) q =
    enter_drain (enqueue_lifecycle_publication ready pointer q)
publication_step (ready_event pointer) q = enter_drain (ready_lifecycle_publication pointer q)
publication_step (turn_event i) q = drain_turn i q

abbrev pub no_publications : PublicationQueue
no_publications = record { publications = []; draining = false; drainers = []; published = [] }

-- The events stand from the last to the first.
unfoldable pub publication_run : List PublicationEvent → PublicationQueue
unfolding publication_step
publication_run [] = no_publications
publication_run (e ∷ before) = publication_step e (publication_run before)
