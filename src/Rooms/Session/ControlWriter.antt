-- ===== src/Rooms/Session/ControlWriter.antt =====
-- What the writer's steps do to the control commands (websocket.go, `writeLoop`).
use server_crawl_stars.Base.{ℕ, ◌≡◌, ◌⊎◌, refl, ap, inl, inr, Option, false, List, [], ◌∷◌, arith}
use server_crawl_stars.Rooms.Session.{
  Bytes, WriterCommand, TerminalWriterCommand, from_control, from_snapshots, final_snapshot,
  final_game_end, final_close, Taken, Origin, Next, to_loop, to_terminal, Writer, loop_top,
  control_poll, handoff_poll, select_any, stopped, terminal_poll, last, entering, sending,
  recording, completing, Session, enqueue_latest_snapshot_locked, complete_reliable_snapshot,
  session_close_with_cause, close_once,
}
use server_crawl_stars.Rooms.Session.WriteLoop.{
  final_commands, resume, poll_control, poll_handoff, poll_snapshots, enter_command, record_command,
  record_sent_tick, writer_step_at, Case, control_case, handoff_case, snapshot_case, done_case,
  select_at, WriteResult, written_all, failed, timed_out, write_returns_at,
}
use server_crawl_stars.Rooms.Session.Pipeline.{Valid, in_flight, is_stopped}
use mathlib.Core.List.{append_assoc, append-nil}
use mathlib.Core.Path.{subst}
use server_crawl_stars.Rooms.Session.ControlQueue.{chain, Fifo, controls_of-append}

-- A step of the writer moves commands along, or stops with one.
chain-poll_control :
    (queue : List WriterCommand) (next : Next) (default : Writer) (s : Session)
    → s.control ≡ queue
    → in_flight s.writer ≡ []
    → in_flight default ≡ []
    → chain (poll_control queue next default s) ≡ chain s
unfolding poll_control
chain-poll_control [] next default s e a b = ground arith
chain-poll_control (x ∷ queue) next default s e a b = simp (e, a, append_assoc)

-- A step of a writer that runs.
abbrev pub Moved : Session → Session → Type 0
Moved s s' = Fifo s' (chain s)

pub Moved-Fifo :
    (s s' : Session) (q : List WriterCommand)
    → is_stopped s.writer ≡ false
    → Moved s s'
    → Fifo s q
    → Fifo s' q
Moved-Fifo s s' q runs m (inl h) = subst (Fifo s') h m
Moved-Fifo s s' q runs m (inr h) = absurd (ground (arith, h.0))

-- What the next state has of the old one.
abbrev Kept : Session → Session → Type 0
Kept s s' = (s'.written ≡ s.written) × (s'.control ≡ s.control)

halt-Moved :
    (origin : Origin) (c : WriterCommand) (s s' : Session)
    → in_flight s.writer ≡ (origin, c) ∷ []
    → s'.writer ≡ stopped
    → Kept s s'
    → Moved s s'
halt-Moved from_control c s s' f w k = inr (ap is_stopped w, (c, simp (k.0, k.1, f)))
halt-Moved from_snapshots c s s' f w k = inl (simp (w, k.0, k.1, f))
halt-Moved final_snapshot c s s' f w k = inl (simp (w, k.0, k.1, f))
halt-Moved final_game_end c s s' f w k = inl (simp (w, k.0, k.1, f))
halt-Moved final_close c s s' f w k = inl (simp (w, k.0, k.1, f))

enter_command_fate :
    (taken : Taken) (next : Next) (s : Session)
    → (((enter_command taken next s).writer ≡ stopped)
        ⊎ ((enter_command taken next s).writer ≡ sending taken next))
      × Kept s (enter_command taken next s)
unfolding enter_command session_close_with_cause close_once
enter_command_fate taken next s = ground arith

enter_command-Moved :
    (taken : Taken) (next : Next) (s : Session)
    → s.writer ≡ entering taken next
    → Moved s (enter_command taken next s)
enter_command-Moved taken next s e =
    let (fate, kept) = enter_command_fate taken next s in
    elim fate [
      | inl stop ↦
          halt-Moved taken.0 taken.1 s (enter_command taken next s) (ap in_flight e) stop kept
      | inr go ↦ inl (simp (go, e, kept.0, kept.1))
    ]

in_flight-resume : (next : Next) → in_flight (resume next) ≡ []
in_flight-resume next = ground arith

chain-poll_handoff :
    (queue : List TerminalWriterCommand) (s : Session)
    → in_flight s.writer ≡ []
    → chain (poll_handoff queue s) ≡ chain s
unfolding poll_handoff
chain-poll_handoff [] s e = ground arith
chain-poll_handoff (t ∷ queue) s e = ground arith

chain-poll_snapshots :
    (queue : List Bytes) (s : Session)
    → in_flight s.writer ≡ []
    → chain (poll_snapshots queue s) ≡ chain s
unfolding poll_snapshots
chain-poll_snapshots [] s e = ground arith
chain-poll_snapshots (p ∷ queue) s e = ground arith

chain-record_command :
    (tick_of : Bytes → Option ℕ) (taken : Taken) (next : Next) (s : Session)
    → s.writer ≡ recording taken next
    → chain (record_command tick_of taken next s) ≡ chain s
unfolding record_command record_sent_tick
chain-record_command tick_of taken next s e = ground (arith, in_flight-resume next)

complete_chain :
    (next : Next) (s : Session)
    → s.writer ≡ completing next
    → chain (record (complete_reliable_snapshot s) { writer = resume next }) ≡ chain s
unfolding complete_reliable_snapshot enqueue_latest_snapshot_locked
complete_chain next s e = ground (arith, in_flight-resume next)

pub write_returns_at-Moved :
    (w : Writer) (r : WriteResult) (s : Session) → s.writer ≡ w → Moved s (write_returns_at w r s)
unfolding write_returns_at session_close_with_cause close_once
write_returns_at-Moved (sending taken next) written_all s e =
    inl (simp (e, controls_of-append s.written (taken ∷ []), append_assoc, append-nil))
write_returns_at-Moved (sending taken next) failed s e =
    halt-Moved taken.0 taken.1 s (write_returns_at (sending taken next) failed s) (ap in_flight e)
      (ground arith) (ground arith)
write_returns_at-Moved (sending taken next) timed_out s e =
    halt-Moved taken.0 taken.1 s (write_returns_at (sending taken next) timed_out s)
      (ap in_flight e) (ground arith) (ground arith)
write_returns_at-Moved _ r s e = inl refl

pub writer_step_at-Moved :
    (tick_of : Bytes → Option ℕ) (w : Writer) (s : Session)
    → s.writer ≡ w
    → Valid s
    → Moved s (writer_step_at tick_of w s)
unfolding writer_step_at
writer_step_at-Moved tick_of loop_top s e v = ground arith
writer_step_at-Moved tick_of control_poll s e v =
    inl (chain-poll_control s.control to_loop handoff_poll s refl (ap in_flight e) refl)
writer_step_at-Moved tick_of handoff_poll s e v =
    inl (chain-poll_handoff s.terminal_handoff s (ap in_flight e))
writer_step_at-Moved tick_of select_any s e v = inl refl
writer_step_at-Moved tick_of stopped s e v = inl refl
writer_step_at-Moved tick_of (terminal_poll t) s e v = inl (
    chain-poll_control s.control (to_terminal t) (last (final_commands t)) s refl (ap in_flight e)
      refl)
writer_step_at-Moved tick_of (last []) s e v = ground arith
writer_step_at-Moved tick_of (last (c ∷ rest)) s e v = ground arith
writer_step_at-Moved tick_of (entering taken next) s e v = enter_command-Moved taken next s e
writer_step_at-Moved tick_of (sending taken next) s e v = inl refl
writer_step_at-Moved tick_of (recording taken next) s e v =
    inl (chain-record_command tick_of taken next s e)
writer_step_at-Moved tick_of (completing next) s e v = inl (complete_chain next s e)

pub select_at-Moved :
    (w : Writer) (case : Case) (s : Session) → s.writer ≡ w → Moved s (select_at w case s)
unfolding select_at
select_at-Moved select_any control_case s e =
    inl (chain-poll_control s.control to_loop select_any s refl (ap in_flight e) refl)
select_at-Moved select_any handoff_case s e =
    inl (chain-poll_handoff s.terminal_handoff s (ap in_flight e))
select_at-Moved select_any snapshot_case s e =
    inl (chain-poll_snapshots s.snapshots s (ap in_flight e))
select_at-Moved select_any done_case s e = ground arith
select_at-Moved _ _ s e = inl refl
