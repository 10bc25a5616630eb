-- ===== src/Rooms/Tests/Sessions.antt =====
-- A session's queues in the tests.
use server_crawl_stars.Base.{
  length, ◌≤◌, ℕ, ◌≡◌, refl, true, false, Option, none, some, List, [], ◌∷◌,
}
use server_crawl_stars.Base.Sublists.{Sublistᴰ}
use server_crawl_stars.Rooms.Session.{Bytes, enqueue_terminal}
use server_crawl_stars.Rooms.Session.WriteLoop.{snapshot_case, written_all}
use server_crawl_stars.Rooms.Session.Run.{
  Event, snapshot_event, approval_event, control_event, terminal_event, writer_event, select_event,
  write_event, run, offered, queued,
}
use server_crawl_stars.Rooms.Session.Pipeline.{Valid, snapshots_of}
use server_crawl_stars.Rooms.Session.Bounds.{run-Valid, terminal_returns, waiting_idle}
use server_crawl_stars.Rooms.Session.Delivery.{written-Sublist}
use server_crawl_stars.Rooms.Session.ControlQueue.{Fifo}
use server_crawl_stars.Rooms.Session.Control.{run-Fifo}
use server_crawl_stars.Rooms.Session.Publications.{
  PublicationQueue, PublicationEvent, enqueue_event, ready_event, turn_event, publication_run,
  drain_lifecycle_publications,
}
use server_crawl_stars.Rooms.Session.PublicationOrder.{
  everything, enqueued, publication_run_order, Drained, drain_lifecycle_publications_lem,
}

-- A decoder that reads the first byte as the tick.
abbrev first_byte : Bytes → Option ℕ
first_byte [] = none
first_byte (b ∷ rest) = some b

abbrev write_one : List Event → List Event
write_one before = writer_event ∷ write_event written_all ∷ writer_event ∷ before

-- From the last to the first: a snapshot that waits, an approval that drops it, a snapshot that the
-- approval defers, a control message, and the end.
abbrev some_events : List Event
some_events =
    terminal_event (9 ∷ []) (8 ∷ []) "over"
    ∷ write_one (
        select_event snapshot_case
        ∷ writer_event
        ∷ writer_event
        ∷ writer_event
        ∷ write_one (
            writer_event
            ∷ writer_event
            ∷ writer_event
            ∷ write_one (
                writer_event
                ∷ writer_event
                ∷ control_event (7 ∷ [])
                ∷ snapshot_event (3 ∷ [])
                ∷ approval_event (2 ∷ [])
                ∷ snapshot_event (1 ∷ [])
                ∷ [])))

delivered_here : snapshots_of ((run first_byte some_events).written) ≡ (2 ∷ []) ∷ (3 ∷ []) ∷ []
unfolding run
delivered_here = refl

run-Valid_example : Valid (run first_byte some_events)
run-Valid_example = run-Valid first_byte some_events

written-Sublist_example :
    Sublistᴰ (snapshots_of ((run first_byte some_events).written)) (offered some_events)
written-Sublist_example = written-Sublist first_byte some_events

terminal_returns_example :
    ¬ (enqueue_terminal (9 ∷ []) (8 ∷ []) "over" (run first_byte some_events) ≡ none)
terminal_returns_example = terminal_returns first_byte some_events (9 ∷ []) (8 ∷ []) "over"

-- The writer has written an approval's snapshot and waits.
abbrev waiting_events : List Event
waiting_events =
    writer_event
    ∷ writer_event
    ∷ writer_event
    ∷ writer_event
    ∷ write_one (writer_event ∷ writer_event ∷ writer_event ∷ approval_event (2 ∷ []) ∷ [])

waiting_idle_example :
    ((run first_byte waiting_events).reliable_pending ≡ 0)
    × ((run first_byte waiting_events).deferred_latest ≡ [])
unfolding run
waiting_idle_example = waiting_idle first_byte waiting_events refl refl

run-Fifo_example : Fifo (run first_byte some_events) (queued first_byte some_events)
run-Fifo_example = run-Fifo first_byte some_events

abbrev publication_events : List PublicationEvent
publication_events =
    turn_event 0
    ∷ turn_event 0
    ∷ turn_event 0
    ∷ ready_event 1
    ∷ enqueue_event true 2
    ∷ enqueue_event false 1
    ∷ []

published_here : (publication_run publication_events).published ≡ 1 ∷ []
unfolding publication_run
published_here = refl

publication_run_order_example :
    (length (publication_run publication_events).drainers ≤ 1)
    × (everything (publication_run publication_events) ≡ enqueued publication_events)
publication_run_order_example = publication_run_order publication_events

abbrev some_publications : PublicationQueue
some_publications = record {
  publications =
      (record { pointer = 1; ready = true }) ∷ (record { pointer = 2; ready = false }) ∷ [];
  draining = true;
  drainers = none ∷ [];
  published = [];
}

drain_lifecycle_publications_lem_example :
    Drained some_publications
      (some_publications.publications)
      (drain_lifecycle_publications 5 0 some_publications)
drain_lifecycle_publications_lem_example = drain_lifecycle_publications_lem some_publications refl
