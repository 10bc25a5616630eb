-- ===== src/Rooms/Session/Bounds.antt =====
-- The invariant of the queues of a session, over its runs (websocket.go, `clientSession`).
use server_crawl_stars.Base.{ℕ, ◌≡◌, refl, String, Option, none, List, [], ◌∷◌, arith}
use server_crawl_stars.Rooms.Session.{
  Bytes, new_client_session, Session, enqueue_terminal, select_any,
}
use server_crawl_stars.Rooms.Session.WriteLoop.{writer_step, select, write_returns}
use server_crawl_stars.Rooms.Session.Run.{
  Event, snapshot_event, approval_event, control_event, terminal_event, close_event, writer_event,
  select_event, write_event, step, run,
}
use server_crawl_stars.Rooms.Session.Pipeline.{Valid}
use server_crawl_stars.Rooms.Session.Sections.{
  enqueue_snapshot-Valid, approval_section-Valid, try_enqueue_control-Valid, terminal-Valid,
  close-Valid, enqueue_terminal_returns,
}
use server_crawl_stars.Rooms.Session.Steps.{
  writer_step_at-Valid, select_at-Valid, write_returns_at-Valid,
}

pub step-Valid :
    (tick_of : Bytes → Option ℕ) (e : Event) (s : Session) → Valid s → Valid (step tick_of e s)
unfolding step writer_step select write_returns
step-Valid tick_of (snapshot_event p) s v = enqueue_snapshot-Valid p s v
step-Valid tick_of (approval_event p) s v = approval_section-Valid p s v
step-Valid tick_of (control_event p) s v = try_enqueue_control-Valid p s v
step-Valid tick_of (terminal_event p q reason) s v = terminal-Valid tick_of p q reason s v
step-Valid tick_of (close_event code reason cause category status) s v =
    close-Valid code reason cause category status s v
step-Valid tick_of writer_event s v = writer_step_at-Valid tick_of s.writer s refl v
step-Valid tick_of (select_event case) s v = select_at-Valid s.writer case s refl v
step-Valid tick_of (write_event result) s v = write_returns_at-Valid s.writer result s refl v

-- Whatever the room, the connection and the writer do, in any order: the channels keep to their
-- capacities of 1, 8 and 1, the slot is empty while a reliable snapshot is pending, a deferred
-- snapshot has a pending one to wait for, and, unless
-- the writer has stopped, the pending count is what the queue and the writer hold.
pub run-Valid : (tick_of : Bytes → Option ℕ) (events : List Event) → Valid (run tick_of events)
unfolding run new_client_session
run-Valid tick_of [] = ground arith
run-Valid tick_of (e ∷ before) =
    step-Valid tick_of e (run tick_of before) (run-Valid tick_of before)

-- However the goroutines interleave, `enqueueTerminal` never waits for ever at its send.
pub terminal_returns :
    (tick_of : Bytes → Option ℕ) (events : List Event) (p q : Bytes) (reason : String)
    → ¬ (enqueue_terminal p q reason (run tick_of events) ≡ none)
terminal_returns tick_of events p q reason =
    enqueue_terminal_returns p q reason (run tick_of events) (run-Valid tick_of events)

waiting-Valid :
    (s : Session)
    → s.writer ≡ select_any
    → s.control ≡ []
    → Valid s
    → (s.reliable_pending ≡ 0) × (s.deferred_latest ≡ [])
waiting-Valid s w c v = ground arith

-- However the goroutines interleave, a writer that waits at its select with no control command left
-- has no reliable snapshot pending, and no snapshot is deferred.
pub waiting_idle :
    (tick_of : Bytes → Option ℕ) (events : List Event)
    → (run tick_of events).writer ≡ select_any
    → (run tick_of events).control ≡ []
    → ((run tick_of events).reliable_pending ≡ 0) × ((run tick_of events).deferred_latest ≡ [])
waiting_idle tick_of events w c = waiting-Valid (run tick_of events) w c (run-Valid tick_of events)
