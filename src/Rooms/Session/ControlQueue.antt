-- ===== src/Rooms/Session/ControlQueue.antt =====
-- What the room's and the connection's events do to the control queue (websocket.go,
-- `clientSession`).
use server_crawl_stars.Base.{
  ℕ, ◌≡◌, ◌⊎◌, refl, ap, sym, ◌∙◌, inl, inr, Option, true, String, List, [], ◌∷◌, ◌++◌, arith,
}
use server_crawl_stars.Rooms.Types.{CloseCause}
use server_crawl_stars.Rooms.Session.{
  Bytes, StatusCode, WriterCommand, Taken, Session, enqueue_latest_snapshot_locked,
  enqueue_snapshot, approval_section, try_enqueue_control, enqueue_terminal,
  session_close_with_cause, close_once,
}
use server_crawl_stars.Rooms.Session.Run.{
  Event, snapshot_event, approval_event, control_event, terminal_event, close_event, step,
  queued_by,
}
use server_crawl_stars.Rooms.Session.Pipeline.{in_flight, is_stopped, controls_of}
use mathlib.Core.List.{append_assoc, append-nil}

-- Those written, the one in hand and those that wait.
abbrev pub chain : Session → List WriterCommand
chain s = controls_of s.written ++ (controls_of (in_flight s.writer) ++ s.control)

-- Those written, at most one more, and those that wait: one is lost where the writer stopped with it.
abbrev pub Fifo : Session → List WriterCommand → Type 0
Fifo s q =
    (chain s ≡ q)
    ⊎ ((is_stopped s.writer ≡ true)
        × ((lost : WriterCommand) × (controls_of s.written ++ (lost ∷ s.control) ≡ q)))

pub controls_of-append :
    (xs ys : List Taken) → controls_of (xs ++ ys) ≡ controls_of xs ++ controls_of ys
controls_of-append [] ys = refl
controls_of-append (x ∷ xs) ys = simp (controls_of-append xs ys, append_assoc)

-- An event of the room or the connection leaves the writer, and may add to the queue.
abbrev pub Grows : Event → Session → Session → Type 0
Grows e s s' =
    (s'.writer ≡ s.writer) × (s'.written ≡ s.written) × (s'.control ≡ s.control ++ queued_by e s)

pub Grows-Fifo :
    (e : Event) (s s' : Session) (q : List WriterCommand)
    → Grows e s s'
    → Fifo s q
    → Fifo s' (q ++ queued_by e s)
Grows-Fifo e s s' q g (inl h) = inl (simp (g.0, g.1, g.2, sym h, append_assoc))
Grows-Fifo e s s' q g (inr h) =
    inr (ap is_stopped g.0 ∙ h.0, (h.1.0, simp (g.1, g.2, sym h.1.1, append_assoc)))

pub enqueue_snapshot-Grows :
    (p : Bytes) (s : Session) → Grows (snapshot_event p) s (enqueue_snapshot p s)
unfolding enqueue_snapshot enqueue_latest_snapshot_locked queued_by
enqueue_snapshot-Grows p s = ground (arith, append-nil s.control)

pub approval_section-Grows :
    (p : Bytes) (s : Session) → Grows (approval_event p) s ((approval_section p s).2)
unfolding approval_section queued_by
approval_section-Grows p s = ground (arith, append-nil s.control)

pub try_enqueue_control-Grows :
    (p : Bytes) (s : Session) → Grows (control_event p) s ((try_enqueue_control p s).2)
unfolding try_enqueue_control queued_by
try_enqueue_control-Grows p s = ground (arith, append-nil s.control)

pub terminal-Grows :
    (tick_of : Bytes → Option ℕ) (p q : Bytes) (reason : String) (s : Session)
    → Grows (terminal_event p q reason) s (step tick_of (terminal_event p q reason) s)
unfolding step enqueue_terminal queued_by
terminal-Grows tick_of p q reason s = ground (arith, append-nil s.control)

pub close-Grows :
    (code : StatusCode) (reason : String) (cause : CloseCause) (category status : String)
    (s : Session)
    → Grows
        (close_event code reason cause category status)
        s
        (session_close_with_cause code reason cause category status s)
unfolding session_close_with_cause close_once queued_by
close-Grows code reason cause category status s = ground (arith, append-nil s.control)
