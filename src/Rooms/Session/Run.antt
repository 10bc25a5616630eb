-- ===== src/Rooms/Session/Run.antt =====
-- websocket.go, `clientSession`: the room's goroutines, the connection's and the writer, run one
-- section or step at a time in any order.
use server_crawl_stars.Base.{ℕ, String, true, false, Option, none, some, List, [], ◌∷◌, ◌++◌}
use server_crawl_stars.Rooms.Types.{CloseCause}
use server_crawl_stars.Rooms.Session.{
  Bytes, StatusCode, WriterCommand, command, payload_command, reliable_snapshot, Session,
  new_client_session, enqueue_snapshot, approval_section, try_enqueue_control, enqueue_terminal,
  session_close_with_cause,
}
use server_crawl_stars.Rooms.Session.WriteLoop.{
  writer_step, Case, select, WriteResult, write_returns,
}

pub data Event : Type 0 where
  snapshot_event approval_event control_event : Bytes → Event
  terminal_event : Bytes → Bytes → String → Event
  close_event : StatusCode → String → CloseCause → String → String → Event
  writer_event : Event
  select_event : Case → Event
  write_event : WriteResult → Event

-- The queues' part of what an event does; a blocked `enqueueTerminal` changes nothing.
unfoldable pub step : (Bytes → Option ℕ) → Event → Session → Session
unfolding enqueue_snapshot approval_section try_enqueue_control enqueue_terminal
    session_close_with_cause writer_step select write_returns
step tick_of (snapshot_event p) s = enqueue_snapshot p s
step tick_of (approval_event p) s = (approval_section p s).2
step tick_of (control_event p) s = (try_enqueue_control p s).2
step tick_of (terminal_event p q reason) s = elim (enqueue_terminal p q reason s) [
  | none ↦ s
  | some (_, s') ↦ s'
]
step tick_of (close_event code reason cause category status) s =
    session_close_with_cause code reason cause category status s
step tick_of writer_event s = writer_step tick_of s
step tick_of (select_event case) s = select case s
step tick_of (write_event result) s = write_returns result s

-- The events stand from the last to the first.
unfoldable pub run : (Bytes → Option ℕ) → List Event → Session
unfolding step new_client_session
run tick_of [] = new_client_session
run tick_of (e ∷ before) = step tick_of e (run tick_of before)

-- The snapshots that the room offered to the session, the oldest first.
abbrev pub offered_by : Event → List Bytes
offered_by (snapshot_event p) = p ∷ []
offered_by (approval_event p) = p ∷ []
offered_by (terminal_event p q reason) = p ∷ []
offered_by _ = []

abbrev pub offered : List Event → List Bytes
offered [] = []
offered (e ∷ before) = offered before ++ offered_by e

-- The commands that the room was told were queued.
unfoldable pub queued_by : Event → Session → List WriterCommand
unfolding approval_section try_enqueue_control
queued_by (approval_event p) s = elim ((approval_section p s).0) [
  | true ↦ command reliable_snapshot p ∷ []
  | false ↦ []
]
queued_by (control_event p) s = elim ((try_enqueue_control p s).0) [
  | true ↦ command payload_command p ∷ []
  | false ↦ []
]
queued_by _ s = []

unfoldable pub queued : (Bytes → Option ℕ) → List Event → List WriterCommand
unfolding queued_by run
queued tick_of [] = []
queued tick_of (e ∷ before) = queued tick_of before ++ queued_by e (run tick_of before)
