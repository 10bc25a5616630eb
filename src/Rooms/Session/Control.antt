-- ===== src/Rooms/Session/Control.antt =====
-- The order in which the connection gets the control commands of a session (websocket.go,
-- `clientSession`).
use server_crawl_stars.Base.{
  ℕ, ◌≡◌, refl, sym, inl, inr, Option, true, List, [], ◌∷◌, ◌++◌, arith, Bool-cases,
}
use server_crawl_stars.Rooms.Session.{
  Bytes, WriterCommand, Writer, Session, enqueue_snapshot, approval_section, try_enqueue_control,
  new_client_session, session_close_with_cause,
}
use server_crawl_stars.Rooms.Session.WriteLoop.{
  writer_step_at, writer_step, select, write_returns, Case, select_at, WriteResult,
  write_returns_at,
}
use server_crawl_stars.Rooms.Session.Run.{
  Event, snapshot_event, approval_event, control_event, terminal_event, close_event, writer_event,
  select_event, write_event, step, run, queued_by, queued,
}
use server_crawl_stars.Rooms.Session.Pipeline.{Valid, is_stopped}
use server_crawl_stars.Rooms.Session.Bounds.{run-Valid}
use mathlib.Core.List.{append-nil}
use mathlib.Core.Path.{subst}
use server_crawl_stars.Rooms.Session.ControlQueue.{
  Fifo, Grows-Fifo, enqueue_snapshot-Grows, approval_section-Grows, try_enqueue_control-Grows,
  terminal-Grows, close-Grows,
}
use server_crawl_stars.Rooms.Session.ControlWriter.{
  Moved, Moved-Fifo, writer_step_at-Moved, select_at-Moved, write_returns_at-Moved,
}

-- A writer's event adds nothing to what was queued.
writer-Fifo :
    (s s' : Session) (q : List WriterCommand)
    → Moved s s'
    → (is_stopped s.writer ≡ true → s' ≡ s)
    → Fifo s q
    → Fifo s' (q ++ [])
writer-Fifo s s' q m still h = elim (Bool-cases (is_stopped s.writer)) [
  | inl stop ↦ rw append-nil (subst (λ t. Fifo t q) (sym (still stop)) h)
  | inr runs ↦ rw append-nil (Moved-Fifo s s' q runs m h)
]

stopped_step :
    (tick_of : Bytes → Option ℕ) (w : Writer) (s : Session)
    → is_stopped w ≡ true
    → writer_step_at tick_of w s ≡ s
unfolding writer_step_at
stopped_step tick_of w s h = ground arith

stopped_select :
    (w : Writer) (case : Case) (s : Session) → is_stopped w ≡ true → select_at w case s ≡ s
unfolding select_at
stopped_select w case s h = ground arith

stopped_write :
    (w : Writer) (r : WriteResult) (s : Session) → is_stopped w ≡ true → write_returns_at w r s ≡ s
unfolding write_returns_at
stopped_write w r s h = ground arith

step-Fifo :
    (tick_of : Bytes → Option ℕ) (e : Event) (s : Session) (q : List WriterCommand)
    → Valid s
    → Fifo s q
    → Fifo (step tick_of e s) (q ++ queued_by e s)
unfolding step writer_step select write_returns queued_by
step-Fifo tick_of (snapshot_event p) s q v h =
    Grows-Fifo (snapshot_event p) s (enqueue_snapshot p s) q (enqueue_snapshot-Grows p s) h
step-Fifo tick_of (approval_event p) s q v h =
    Grows-Fifo (approval_event p) s ((approval_section p s).2) q (approval_section-Grows p s) h
step-Fifo tick_of (control_event p) s q v h =
    Grows-Fifo (control_event p) s ((try_enqueue_control p s).2) q (try_enqueue_control-Grows p s) h
step-Fifo tick_of (terminal_event p end reason) s q v h =
    Grows-Fifo (terminal_event p end reason) s (step tick_of (terminal_event p end reason) s) q
      (terminal-Grows tick_of p end reason s) h
step-Fifo tick_of (close_event code reason cause category status) s q v h =
    Grows-Fifo (close_event code reason cause category status) s
      (session_close_with_cause code reason cause category status s) q
      (close-Grows code reason cause category status s) h
step-Fifo tick_of writer_event s q v h =
    writer-Fifo s _ q (writer_step_at-Moved tick_of s.writer s refl v)
      (stopped_step tick_of s.writer s) h
step-Fifo tick_of (select_event case) s q v h =
    writer-Fifo s _ q (select_at-Moved s.writer case s refl) (stopped_select s.writer case s) h
step-Fifo tick_of (write_event result) s q v h =
    writer-Fifo s _ q (write_returns_at-Moved s.writer result s refl)
      (stopped_write s.writer result s) h

-- However the goroutines interleave: the control commands that the room was told were queued are, in
-- this order, those that the connection has written, the one that the writer has in hand and those
-- that still wait; or the writer has stopped, and then at most the one that it had in hand is lost
-- between the written and the waiting ones.
pub run-Fifo :
    (tick_of : Bytes → Option ℕ) (events : List Event)
    → Fifo (run tick_of events) (queued tick_of events)
unfolding run queued new_client_session
run-Fifo tick_of [] = inl refl
run-Fifo tick_of (e ∷ before) =
    step-Fifo tick_of e (run tick_of before) (queued tick_of before) (run-Valid tick_of before)
      (run-Fifo tick_of before)
