-- ===== src/Rooms/Session/Line.antt =====
-- What the writer's steps do to the line of snapshots that a session holds (websocket.go,
-- `writeLoop`).
use server_crawl_stars.Base.{
  ℕ, ◌-◌, ◌≡◌, ◌⊎◌, refl, ap, sym, inl, Option, String, List, [], ◌∷◌, ◌++◌, length, arith,
}
use server_crawl_stars.Rooms.Types.{CloseCause}
use server_crawl_stars.Rooms.Session.{
  Bytes, WriterCommand, session_close_with_cause, close_once, StatusCode, TerminalWriterCommand,
  Taken, Next, to_loop, to_terminal, to_rest, Writer, loop_top, control_poll, handoff_poll,
  select_any, stopped, terminal_poll, last, entering, sending, recording, completing, Session,
  complete_reliable_snapshot,
}
use server_crawl_stars.Rooms.Session.Pipeline.{
  Valid, reliables, front, line, deferred, snapshots_of, in_flight, handed, rest, rest_of,
}
use server_crawl_stars.Rooms.Session.Sections.{latest_at}
use server_crawl_stars.Rooms.Session.WriteLoop.{
  final_commands, resume, poll_control, poll_handoff, poll_snapshots, enter_command, record_command,
  record_sent_tick, writer_step_at, Case, control_case, handoff_case, snapshot_case, done_case,
  select_at, WriteResult, written_all, failed, timed_out, write_returns_at,
}
use mathlib.Core.List.{append_assoc, append-nil}
use server_crawl_stars.Rooms.Session.Offers.{no_elements}

line-poll_control :
    (queue : List WriterCommand) (next : Next) (default : Writer) (s : Session)
    → s.control ≡ queue
    → in_flight s.writer ≡ []
    → in_flight default ≡ []
    → rest default ≡ rest s.writer
    → rest_of next ≡ rest s.writer
    → line (poll_control queue next default s) ≡ line s
unfolding poll_control
line-poll_control [] next default s e a b c d = ground arith
line-poll_control (x ∷ queue) next default s e a b c d = simp (e, a, d, append_assoc, append-nil)

line-poll_handoff :
    (queue : List TerminalWriterCommand) (s : Session)
    → s.terminal_handoff ≡ queue
    → in_flight s.writer ≡ []
    → rest s.writer ≡ []
    → line (poll_handoff queue s) ≡ line s
unfolding poll_handoff
line-poll_handoff [] s e a b = ground arith
line-poll_handoff (x ∷ queue) s e a b = ground arith

line-poll_snapshots :
    (queue : List Bytes) (s : Session)
    → s.snapshots ≡ queue
    → s.writer ≡ select_any
    → Valid s
    → line (poll_snapshots queue s) ≡ line s
unfolding poll_snapshots
line-poll_snapshots [] s e a v = ground arith
line-poll_snapshots (x ∷ queue) s e a v =
    let none_pending : reliables s.control ≡ [] =
      ground (arith, no_elements (reliables s.control)) in
    simp (e, a, none_pending, append_assoc, append-nil)

rest-resume : (next : Next) → rest (resume next) ≡ rest_of next
rest-resume next = ground arith

in_flight-resume : (next : Next) → in_flight (resume next) ≡ []
in_flight-resume next = ground arith

-- What is left of the line when the command in hand, the end of a match or a deferred snapshot is lost.
abbrev pub Kept : Session → List Bytes → Type 0
Kept s after =
    (after ≡ line s)
    ⊎ ((after
          ≡ (snapshots_of s.written ++ reliables s.control)
            ++ (s.snapshots ++ (deferred s.deferred_latest ++ handed s.terminal_handoff)))
        ⊎ (after ≡ front s ++ (s.snapshots ++ (rest s.writer ++ handed s.terminal_handoff))))

enter_command-Kept :
    (taken : Taken) (next : Next) (s : Session)
    → s.writer ≡ entering taken next
    → Kept s (line (enter_command taken next s))
unfolding enter_command session_close_with_cause close_once
enter_command-Kept taken next s e = ground arith

record_command-Kept :
    (tick_of : Bytes → Option ℕ) (taken : Taken) (next : Next) (s : Session)
    → s.writer ≡ recording taken next
    → Kept s (line (record_command tick_of taken next s))
unfolding record_command record_sent_tick
record_command-Kept tick_of taken next s e = ground (arith, rest-resume next, in_flight-resume next)

no_bytes : (p : Bytes) → length p ≡ 0 → deferred p ≡ []
no_bytes p h = ground arith

some_bytes : (p : Bytes) → ¬ (length p ≡ 0) → deferred p ≡ p ∷ []
some_bytes p h = ground arith

complete-Kept :
    (next : Next) (s : Session)
    → s.writer ≡ completing next
    → Valid s
    → Kept s (line (record (complete_reliable_snapshot s) { writer = resume next }))
unfolding complete_reliable_snapshot
complete-Kept next s e v = ground (
  arith,
  rest-resume next,
  in_flight-resume next,
  no_bytes s.deferred_latest,
  some_bytes s.deferred_latest,
  latest_at s.snapshots s.deferred_latest
      (record s { reliable_pending = s.reliable_pending - 1; deferred_latest = [] }) v.0 refl,
)

-- The last array: nothing else waits.
last_line :
    (c : Taken) (rest : List Taken) (s : Session)
    → s.writer ≡ last (c ∷ rest)
    → Valid s
    → line (record s { writer = entering c (to_rest rest) }) ≡ line s
last_line c rest s e v =
    let no_control : s.control ≡ [] = ground arith in
    let no_slot : s.snapshots ≡ [] = ground arith in
    let no_deferred : s.deferred_latest ≡ [] = ground arith in
    simp (e, no_control, no_slot, no_deferred, append_assoc, append-nil)

snapshots_of-append :
    (xs ys : List Taken) → snapshots_of (xs ++ ys) ≡ snapshots_of xs ++ snapshots_of ys
snapshots_of-append [] ys = refl
snapshots_of-append (x ∷ xs) ys = simp (snapshots_of-append xs ys, append_assoc)

written_line :
    (taken : Taken) (next : Next) (s : Session)
    → s.writer ≡ sending taken next
    → line (record s { written = s.written ++ taken ∷ []; writer = recording taken next }) ≡ line s
written_line taken next s e =
    simp (e, snapshots_of-append s.written (taken ∷ []), append_assoc, append-nil)

pub write_returns_at-Kept :
    (w : Writer) (r : WriteResult) (s : Session)
    → s.writer ≡ w
    → Kept s (line (write_returns_at w r s))
unfolding write_returns_at session_close_with_cause close_once
write_returns_at-Kept (sending taken next) written_all s e = inl (written_line taken next s e)
write_returns_at-Kept (sending taken next) failed s e = ground arith
write_returns_at-Kept (sending taken next) timed_out s e = ground arith
write_returns_at-Kept _ _ s e = inl refl

pub close_line :
    (code : StatusCode) (reason : String) (cause : CloseCause) (category status : String)
    (s : Session)
    → line (session_close_with_cause code reason cause category status s) ≡ line s
unfolding session_close_with_cause close_once
close_line code reason cause category status s = ground arith

pub writer_step_at-Kept :
    (tick_of : Bytes → Option ℕ) (w : Writer) (s : Session)
    → s.writer ≡ w
    → Valid s
    → Kept s (line (writer_step_at tick_of w s))
unfolding writer_step_at
writer_step_at-Kept tick_of loop_top s e v = ground arith
writer_step_at-Kept tick_of control_poll s e v = inl (
    line-poll_control s.control to_loop handoff_poll s refl (ap in_flight e) refl (sym (ap rest e))
      (sym (ap rest e)))
writer_step_at-Kept tick_of handoff_poll s e v =
    inl (line-poll_handoff s.terminal_handoff s refl (ap in_flight e) (ap rest e))
writer_step_at-Kept tick_of select_any s e v = inl refl
writer_step_at-Kept tick_of stopped s e v = inl refl
writer_step_at-Kept tick_of (terminal_poll t) s e v = inl (
    line-poll_control s.control (to_terminal t) (last (final_commands t)) s refl (ap in_flight e)
      refl (sym (ap rest e)) (sym (ap rest e)))
writer_step_at-Kept tick_of (last []) s e v = ground arith
writer_step_at-Kept tick_of (last (c ∷ rest)) s e v = inl (last_line c rest s e v)
writer_step_at-Kept tick_of (entering taken next) s e v = enter_command-Kept taken next s e
writer_step_at-Kept tick_of (sending taken next) s e v = inl refl
writer_step_at-Kept tick_of (recording taken next) s e v =
    record_command-Kept tick_of taken next s e
writer_step_at-Kept tick_of (completing next) s e v = complete-Kept next s e v

pub select_at-Kept :
    (w : Writer) (case : Case) (s : Session)
    → s.writer ≡ w
    → Valid s
    → Kept s (line (select_at w case s))
unfolding select_at
select_at-Kept select_any control_case s e v = inl (
    line-poll_control s.control to_loop select_any s refl (ap in_flight e) refl (sym (ap rest e))
      (sym (ap rest e)))
select_at-Kept select_any handoff_case s e v =
    inl (line-poll_handoff s.terminal_handoff s refl (ap in_flight e) (ap rest e))
select_at-Kept select_any snapshot_case s e v = inl (line-poll_snapshots s.snapshots s refl e v)
select_at-Kept select_any done_case s e v = ground arith
select_at-Kept _ _ s e v = inl refl
