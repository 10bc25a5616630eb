-- ===== src/Rooms/Session/Steps.antt =====
-- The session's invariant across the writer's steps (websocket.go, `writeLoop`).
use server_crawl_stars.Base.{ℕ, ◌≡◌, refl, Option, false, List, [], ◌∷◌, arith, length-append}
use server_crawl_stars.Rooms.Session.{
  Bytes, WriterCommand, session_close_with_cause, close_once, TerminalWriterCommand, Taken, Next,
  to_loop, to_terminal, to_rest, Writer, loop_top, control_poll, handoff_poll, select_any, stopped,
  terminal_poll, last, entering, sending, recording, completing, Session,
}
use server_crawl_stars.Rooms.Session.WriteLoop.{
  final_commands, poll_control, poll_handoff, poll_snapshots, enter_command, record_command,
  record_sent_tick, writer_step_at, Case, control_case, handoff_case, snapshot_case, done_case,
  select_at, WriteResult, write_returns_at,
}
use server_crawl_stars.Rooms.Session.Pipeline.{
  controls_of, left, left_of, Valid, in_hand, is_stopped, is_ending, ends_match, ends_array, later,
  reliables, reliable_of,
}
use server_crawl_stars.Rooms.Session.Sections.{complete_reliable_snapshot-Valid}

poll_control-Valid :
    (queue : List WriterCommand) (next : Next) (default : Writer) (s : Session)
    → s.control ≡ queue
    → in_hand s.writer ≡ 0
    → is_stopped s.writer ≡ false
    → in_hand default ≡ 0
    → is_ending default ≡ is_ending s.writer
    → ends_match next ≡ is_ending s.writer
    → ends_array next ≡ false
    → later next ≡ 0
    → controls_of (left_of next) ≡ []
    → controls_of (left default) ≡ []
    → Valid s
    → Valid (poll_control queue next default s)
unfolding poll_control
poll_control-Valid [] next default s e a b c d f g i j k v = ground arith
poll_control-Valid (x ∷ queue) next default s e a b c d f g i j k v =
    ground (arith, length-append (reliable_of x.kind x.payload) (reliables queue))

poll_handoff-Valid :
    (queue : List TerminalWriterCommand) (s : Session)
    → s.terminal_handoff ≡ queue
    → in_hand s.writer ≡ 0
    → is_stopped s.writer ≡ false
    → Valid s
    → Valid (poll_handoff queue s)
unfolding poll_handoff
poll_handoff-Valid [] s e a b v = ground arith
poll_handoff-Valid (x ∷ queue) s e a b v = ground arith

poll_snapshots-Valid :
    (queue : List Bytes) (s : Session)
    → s.snapshots ≡ queue
    → s.writer ≡ select_any
    → Valid s
    → Valid (poll_snapshots queue s)
unfolding poll_snapshots
poll_snapshots-Valid [] s e h v = ground arith
poll_snapshots-Valid (p ∷ queue) s e h v = ground arith

enter_command-Valid :
    (taken : Taken) (next : Next) (s : Session)
    → s.writer ≡ entering taken next
    → Valid s
    → Valid (enter_command taken next s)
unfolding enter_command session_close_with_cause close_once
enter_command-Valid taken next s e v = ground arith

record_command-Valid :
    (tick_of : Bytes → Option ℕ) (taken : Taken) (next : Next) (s : Session)
    → s.writer ≡ recording taken next
    → Valid s
    → Valid (record_command tick_of taken next s)
unfolding record_command record_sent_tick
record_command-Valid tick_of taken to_loop s e v = ground arith
record_command-Valid tick_of taken (to_terminal t) s e v = ground arith
record_command-Valid tick_of taken (to_rest rest) s e v = ground arith

pub write_returns_at-Valid :
    (w : Writer) (r : WriteResult) (s : Session)
    → s.writer ≡ w
    → Valid s
    → Valid (write_returns_at w r s)
unfolding write_returns_at session_close_with_cause close_once
write_returns_at-Valid w r s e v = ground arith

pub select_at-Valid :
    (w : Writer) (case : Case) (s : Session) → s.writer ≡ w → Valid s → Valid (select_at w case s)
unfolding select_at
select_at-Valid select_any control_case s e v =
    poll_control-Valid s.control to_loop select_any s refl (ground arith) (ground arith) refl
      (ground arith) (ground arith) refl refl refl refl v
select_at-Valid select_any handoff_case s e v =
    poll_handoff-Valid s.terminal_handoff s refl (ground arith) (ground arith) v
select_at-Valid select_any snapshot_case s e v = poll_snapshots-Valid s.snapshots s refl e v
select_at-Valid select_any done_case s e v = ground arith
select_at-Valid _ _ s e v = v

pub writer_step_at-Valid :
    (tick_of : Bytes → Option ℕ) (w : Writer) (s : Session)
    → s.writer ≡ w
    → Valid s
    → Valid (writer_step_at tick_of w s)
unfolding writer_step_at
writer_step_at-Valid tick_of loop_top s e v = ground arith
writer_step_at-Valid tick_of control_poll s e v =
    poll_control-Valid s.control to_loop handoff_poll s refl (ground arith) (ground arith) refl
      (ground arith) (ground arith) refl refl refl refl v
writer_step_at-Valid tick_of handoff_poll s e v =
    poll_handoff-Valid s.terminal_handoff s refl (ground arith) (ground arith) v
writer_step_at-Valid tick_of select_any s e v = v
writer_step_at-Valid tick_of stopped s e v = v
writer_step_at-Valid tick_of (terminal_poll t) s e v =
    poll_control-Valid s.control (to_terminal t) (last (final_commands t)) s refl (ground arith)
      (ground arith) refl (ground arith) (ground arith) refl refl refl refl v
writer_step_at-Valid tick_of (last []) s e v = ground arith
writer_step_at-Valid tick_of (last (c ∷ rest)) s e v = ground arith
writer_step_at-Valid tick_of (entering taken next) s e v = enter_command-Valid taken next s e v
writer_step_at-Valid tick_of (sending taken next) s e v = v
writer_step_at-Valid tick_of (recording taken next) s e v =
    record_command-Valid tick_of taken next s e v
writer_step_at-Valid tick_of (completing next) s e v = complete_reliable_snapshot-Valid next s e v
