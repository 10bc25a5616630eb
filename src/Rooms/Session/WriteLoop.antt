-- ===== src/Rooms/Session/WriteLoop.antt =====
-- websocket.go, the goroutine `writeLoop` with `writeTerminal` and `writeCommand`, cut into the steps
-- that other goroutines can run between.
use server_crawl_stars.Base.{ℕ, Option, none, some, List, [], ◌∷◌, ◌++◌, ltb, if◌then◌else◌}
use server_crawl_stars.Rooms.Types.{write_error, write_timeout, peer_close}
use server_crawl_stars.Rooms.Session.{
  Bytes, status_normal_closure, status_going_away, payload_command, reliable_snapshot,
  close_command, WriterCommand, command, TerminalWriterCommand, from_control, from_snapshots,
  final_snapshot, final_game_end, final_close, Taken, Next, to_loop, to_terminal, to_rest, Writer,
  loop_top, control_poll, handoff_poll, select_any, stopped, terminal_poll, last, entering, sending,
  recording, completing, Session, is_done, session_close_with_cause, complete_reliable_snapshot,
}
use server_crawl_stars.Rooms.Types.{CloseCause}

-- The array that `writeTerminal` runs through once the control queue is empty.
abbrev pub final_commands : TerminalWriterCommand → List Taken
final_commands t =
    let closing : WriterCommand = record {
      kind = close_command;
      payload = [];
      reason = t.reason;
      cause = some t.cause;
    } in
    (final_snapshot, command payload_command t.snapshot)
    ∷ (final_game_end, command payload_command t.game_end)
    ∷ (final_close, closing)
    ∷ []

abbrev pub resume : Next → Writer
resume to_loop = loop_top
resume (to_terminal t) = terminal_poll t
resume (to_rest taken) = last taken

-- The two receives of the loops that have a default case, and the receive of the slot.
unfoldable pub poll_control : List WriterCommand → Next → Writer → Session → Session
poll_control [] next default s = record s { writer = default }
poll_control (c ∷ queue) next default s = record s {
  control = queue;
  writer = entering (from_control, c) next;
}

unfoldable pub poll_handoff : List TerminalWriterCommand → Session → Session
poll_handoff [] s = record s { writer = select_any }
poll_handoff (t ∷ queue) s = record s { terminal_handoff = queue; writer = terminal_poll t }

unfoldable pub poll_snapshots : List Bytes → Session → Session
poll_snapshots [] s = record s { writer = select_any }
poll_snapshots (p ∷ queue) s = record s {
  snapshots = queue;
  writer = entering (from_snapshots, command payload_command p) to_loop;
}

-- The start of `writeCommand`: a session that is done ends the writer, and a command to close closes
-- the session and ends it.
unfoldable pub enter_command : Taken → Next → Session → Session
unfolding session_close_with_cause
enter_command taken next s =
    let ended = record s { writer = stopped } in
    let cause : CloseCause = elim taken.1.cause [ none ↦ peer_close | some cause ↦ cause ] in
    if is_done s then ended else elim taken.1.kind [
      | close_command ↦
          session_close_with_cause status_normal_closure taken.1.reason cause "" "" ended
      | _ ↦ record s { writer = sending taken next }
    ]

-- `recordSentTick`: `tick` is what the JSON decoder finds in the payload, none on an error.
unfoldable pub record_sent_tick : Option ℕ → Session → Session
record_sent_tick none s = s
record_sent_tick (some tick) s =
    if ltb s.last_sent_tick tick then record s { last_sent_tick = tick } else s

module _ (snapshot_tick : Bytes → Option ℕ) where
  -- The end of `writeCommand` after a write that succeeded, up to `completeReliableSnapshot`.
  unfoldable pub record_command : Taken → Next → Session → Session
  unfolding record_sent_tick
  record_command taken next s =
      let recorded = record_sent_tick (snapshot_tick taken.1.payload) s in
      elim taken.1.kind [
        | reliable_snapshot ↦ record recorded { writer = completing next }
        | _ ↦ record recorded { writer = resume next }
      ]

  -- One step of the writer that waits for nobody. Where it waits, for its select or for the
  -- connection, nothing changes.
  unfoldable pub writer_step_at : Writer → Session → Session
  unfolding poll_control poll_handoff enter_command record_command complete_reliable_snapshot
  writer_step_at loop_top s = record s { writer = if is_done s then stopped else control_poll }
  writer_step_at control_poll s = poll_control s.control to_loop handoff_poll s
  writer_step_at handoff_poll s = poll_handoff s.terminal_handoff s
  writer_step_at select_any s = s
  writer_step_at stopped s = s
  writer_step_at (terminal_poll t) s =
      poll_control s.control (to_terminal t) (last (final_commands t)) s
  writer_step_at (last []) s = record s { writer = stopped }
  writer_step_at (last (c ∷ rest)) s = record s { writer = entering c (to_rest rest) }
  writer_step_at (entering taken next) s = enter_command taken next s
  writer_step_at (sending taken next) s = s
  writer_step_at (recording taken next) s = record_command taken next s
  writer_step_at (completing next) s = record (complete_reliable_snapshot s) {
    writer = resume next;
  }

  unfoldable pub writer_step : Session → Session
  unfolding writer_step_at
  writer_step s = writer_step_at s.writer s

-- The cases of the select that the writer waits at; one that is not ready is not taken.
pub data Case : Type 0 where
  control_case handoff_case snapshot_case done_case : Case

unfoldable pub select_at : Writer → Case → Session → Session
unfolding poll_control poll_handoff poll_snapshots
select_at select_any control_case s = poll_control s.control to_loop select_any s
select_at select_any handoff_case s = poll_handoff s.terminal_handoff s
select_at select_any snapshot_case s = poll_snapshots s.snapshots s
select_at select_any done_case s = record s { writer = if is_done s then stopped else select_any }
select_at _ _ s = s

unfoldable pub select : Case → Session → Session
unfolding select_at
select case s = select_at s.writer case s

-- What `conn.Write` returns: success, an error, or an error after the deadline.
pub data WriteResult : Type 0 where
  written_all failed timed_out : WriteResult

abbrev pub write_cause : WriteResult → CloseCause
write_cause timed_out = write_timeout
write_cause _ = write_error

unfoldable pub write_returns_at : Writer → WriteResult → Session → Session
unfolding session_close_with_cause
write_returns_at (sending taken next) written_all s = record s {
  written = s.written ++ taken ∷ [];
  writer = recording taken next;
}
write_returns_at (sending taken next) result s =
    session_close_with_cause status_going_away "write failed" (write_cause result) "write_failed" ""
      (record s { writer = stopped })
write_returns_at _ _ s = s

unfoldable pub write_returns : WriteResult → Session → Session
unfolding write_returns_at
write_returns result s = write_returns_at s.writer result s
