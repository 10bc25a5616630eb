-- ===== src/Rooms/Session.antt =====
-- websocket.go, `clientSession`: the queues between a room and one connection. Each function is one
-- section under `enqueueMu`, or one call that no other goroutine can cut; Rooms/Session/WriteLoop has
-- the writer's goroutine, and Rooms/Session/Run interleaves them.
-- A channel is the list of what it holds, the oldest first. The heartbeat, the callback `onClose` and
-- the contexts are left out; `transport` holds what `conn.Close` was called with.
pub mod WriteLoop
pub mod Publications
pub mod PublicationOrder
pub mod Run
pub mod Pipeline
pub mod Sections
pub mod Steps
pub mod Bounds
pub mod Offers
pub mod Line
pub mod Delivery
pub mod ControlQueue
pub mod ControlWriter
pub mod Control
use server_crawl_stars.Base.{
  ℕ, suc, ◌-◌, String, str_eq, Bool, true, false, ◌||◌, Option, none, some, List, [], ◌∷◌, ◌++◌,
  ltb, ◌==◌, if◌then◌else◌, length,
}
use server_crawl_stars.Rooms.Types.{
  CloseCause, ClientSession, peer_close, read_failure, write_error, ping_timeout, ping_error,
  control_overflow, game_end, unknown,
}
use server_crawl_stars.Rooms.Resources.{claim_close_cause}

abbrev pub Bytes : Type 0
Bytes = List ℕ

-- The codes of the package websocket that this part of the code closes with, and any other.
pub data StatusCode : Type 0 where
  status_normal_closure status_going_away : StatusCode
  other_status : ℕ → StatusCode

pub data WriterCommandKind : Type 0 where
  payload_command reliable_snapshot close_command : WriterCommandKind

-- A command that closes nothing has no cause.
pub record WriterCommand : Type 0 where
  pub kind : WriterCommandKind
  pub payload : Bytes
  pub reason : String
  pub cause : Option CloseCause

-- A command that writes a payload.
abbrev pub command : WriterCommandKind → Bytes → WriterCommand
command kind payload = record { kind = kind; payload = payload; reason = ""; cause = none }

pub record TerminalWriterCommand : Type 0 where
  pub snapshot : Bytes
  pub game_end : Bytes
  pub reason : String
  pub cause : CloseCause

-- The case of a `select`, or the entry of the last array, that a command was taken from.
pub data Origin : Type 0 where
  from_control from_snapshots final_snapshot final_game_end final_close : Origin

abbrev pub Taken : Type 0
Taken = Origin × WriterCommand

-- What the writer does after a command: its loop, the loop of `writeTerminal`, or the rest of the
-- array that `writeTerminal` ends with.
pub data Next : Type 0 where
  to_loop : Next
  to_terminal : TerminalWriterCommand → Next
  to_rest : List Taken → Next

-- Where the writer's goroutine stands: in `writeLoop`, in `writeTerminal`, in `writeCommand` or gone.
pub data Writer : Type 0 where
  loop_top control_poll handoff_poll select_any stopped : Writer
  terminal_poll : TerminalWriterCommand → Writer
  last : List Taken → Writer
  entering sending recording : Taken → Next → Writer
  completing : Next → Writer

-- `lifecycle.closed` is the closed channel `done`. `written` holds what `conn.Write` took, oldest first.
pub record Session : Type 0 where
  pub lifecycle : ClientSession
  pub snapshots : List Bytes
  pub control : List WriterCommand
  pub terminal_handoff : List TerminalWriterCommand
  pub terminal : Bool
  pub reliable_pending : ℕ
  pub deferred_latest : Bytes
  pub last_sent_tick : ℕ
  pub io_error_category : String
  pub io_error_status : String
  pub transport : Option (StatusCode × String)
  pub writer : Writer
  pub written : List Taken

-- The capacities of the channels that `newClientSession` makes.
abbrev pub snapshots_cap : ℕ
snapshots_cap = 1

abbrev pub control_cap : ℕ
control_cap = 8

abbrev pub terminal_handoff_cap : ℕ
terminal_handoff_cap = 1

-- `newClientSession`
unfoldable pub new_client_session : Session
new_client_session = record {
  lifecycle = record {
    close_cause = none;
    connection_generation = 0;
    match_phase = unknown;
    closed = false;
  };
  snapshots = [];
  control = [];
  terminal_handoff = [];
  terminal = false;
  reliable_pending = 0;
  deferred_latest = [];
  last_sent_tick = 0;
  io_error_category = "";
  io_error_status = "";
  transport = none;
  writer = loop_top;
  written = [];
}

-- `isDone`
abbrev pub is_done : Session → Bool
is_done s = s.lifecycle.closed

-- A send that has a default case: none when the channel is full.
abbrev pub try_send {ℓ} : {A : Type ℓ} → ℕ → A → List A → Option (List A)
try_send cap x queue = if ltb (length queue) cap then some (queue ++ x ∷ []) else none

-- A receive that has a default case, its value dropped.
abbrev pub drop_first {ℓ} : {A : Type ℓ} → List A → List A
drop_first [] = []
drop_first (x ∷ queue) = queue

-- `enqueueLatestSnapshotLocked`. The last send waits while the channel is full; it then gives up only
-- when the session is done, and the value is lost.
unfoldable pub enqueue_latest_snapshot_locked : Bytes → Session → Session
enqueue_latest_snapshot_locked payload s =
    let room = drop_first s.snapshots in
    elim (try_send snapshots_cap payload s.snapshots) [
      | some queue ↦ record s { snapshots = queue }
      | none ↦ elim (try_send snapshots_cap payload room) [
        | some queue ↦ record s { snapshots = queue }
        | none ↦ record s { snapshots = room }
      ]
    ]

-- `enqueueSnapshot`
unfoldable pub enqueue_snapshot : Bytes → Session → Session
unfolding enqueue_latest_snapshot_locked
enqueue_snapshot payload s =
    if s.terminal || is_done s
    then s
    else if ltb 0 s.reliable_pending
    then record s { deferred_latest = payload }
    else enqueue_latest_snapshot_locked payload s

-- `enqueueSkillApprovalSnapshot` up to its unlock: whether it queued, and whether it must close.
unfoldable pub approval_section : Bytes → Session → Bool × Bool × Session
approval_section payload s =
    let drained = record s { snapshots = drop_first s.snapshots; deferred_latest = [] } in
    if s.terminal || is_done s
    then (false, false, s)
    else elim (try_send control_cap (command reliable_snapshot payload) s.control) [
      | none ↦ (false, true, drained)
      | some queue ↦ (
        true,
        false,
        record drained { control = queue; reliable_pending = suc s.reliable_pending },
      )
    ]

-- `tryEnqueueControl`: whether it queued, and whether its caller must close.
unfoldable pub try_enqueue_control : Bytes → Session → Bool × Bool × Session
try_enqueue_control payload s =
    if s.terminal || is_done s
    then (false, false, s)
    else elim (try_send control_cap (command payload_command payload) s.control) [
      | none ↦ (false, true, s)
      | some queue ↦ (true, false, record s { control = queue })
    ]

-- `enqueueTerminal`. Its send has no default case: on a full channel it would wait for ever, `none`.
unfoldable pub enqueue_terminal : Bytes → Bytes → String → Session → Option (Bool × Session)
enqueue_terminal snapshot end_payload reason s =
    let handed : TerminalWriterCommand = record {
      snapshot = snapshot;
      game_end = end_payload;
      reason = reason;
      cause = game_end;
    } in
    let ended = record s {
      terminal = true;
      snapshots = drop_first s.snapshots;
      deferred_latest = [];
    } in
    if s.terminal || is_done s
    then some (false, s)
    else elim (try_send terminal_handoff_cap handed s.terminal_handoff) [
      | none ↦ none
      | some queue ↦ some (true, record ended { terminal_handoff = queue })
    ]

-- `isTerminalOrDone`
unfoldable pub is_terminal_or_done : Session → Bool
is_terminal_or_done s = s.terminal || is_done s

-- `completeReliableSnapshot`
unfoldable pub complete_reliable_snapshot : Session → Session
unfolding enqueue_latest_snapshot_locked
complete_reliable_snapshot s =
    let fewer = record s { reliable_pending = s.reliable_pending - 1 } in
    let cleared = record fewer { deferred_latest = [] } in
    if s.reliable_pending == 0
    then s
    else if ltb 0 (s.reliable_pending - 1) || (length s.deferred_latest == 0)
    then fewer
    else if s.terminal || is_done s
    then cleared
    else enqueue_latest_snapshot_locked s.deferred_latest cleared

-- The part of `closeWithCause` that `closeOnce` runs once.
unfoldable pub close_once : StatusCode → String → String → String → Session → Session
close_once code reason category status s =
    let closed = record s {
      lifecycle = record (s.lifecycle) { closed = true };
      transport = some (code, reason);
    } in
    if is_done s
    then s
    else if str_eq category ""
    then closed
    else record closed { io_error_category = category; io_error_status = status }

-- `closeWithCause`: the cause is claimed once, and the rest runs once.
unfoldable pub session_close_with_cause :
    StatusCode → String → CloseCause → String → String → Session → Session
unfolding claim_close_cause close_once
session_close_with_cause code reason cause category status s =
    close_once code reason category status
      (record s { lifecycle = claim_close_cause cause s.lifecycle })

-- The close that a full control queue asks for.
unfoldable pub close_overflow : Bool → Session → Session
unfolding session_close_with_cause
close_overflow should_close s =
    if should_close
    then session_close_with_cause status_going_away "control queue overflow" control_overflow "" ""
        s
    else s

-- `enqueueSkillApprovalSnapshot`, with no other goroutine between its section and its close.
unfoldable pub enqueue_skill_approval_snapshot : Bytes → Session → Bool × Session
unfolding approval_section close_overflow
enqueue_skill_approval_snapshot payload s =
    let (queued, should_close, s') = approval_section payload s in
    (queued, close_overflow should_close s')

-- `enqueueControl`, with no other goroutine between its section and its close.
unfoldable pub enqueue_control : Bytes → Session → Bool × Session
unfolding try_enqueue_control close_overflow
enqueue_control payload s =
    let (queued, should_close, s') = try_enqueue_control payload s in
    (queued, close_overflow should_close s')

-- The cause that `closeWithIOError` finds for a category.
unfoldable pub io_error_cause : String → CloseCause
io_error_cause category =
    if str_eq category "write_failed"
    then write_error
    else if str_eq category "ping_failed"
    then ping_error
    else if str_eq category "ping_timeout"
    then ping_timeout
    else if str_eq category "read_close"
    then peer_close
    else read_failure

-- `closeWithIOError`
unfoldable pub close_with_io_error : StatusCode → String → String → String → Session → Session
unfolding io_error_cause session_close_with_cause
close_with_io_error code reason category status s =
    session_close_with_cause code reason (io_error_cause category) category status s
