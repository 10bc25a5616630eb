-- ===== src/Rooms/Session/Pipeline.antt =====
-- What the queues of a session hold (websocket.go, `clientSession`), in the order in which the
-- connection is to get it, and the invariant.
use server_crawl_stars.Base.{ℕ, ◌+◌, ◌≤◌, ◌≡◌, ◌⊎◌, Bool, true, false, List, [], ◌∷◌, ◌++◌, length}
use server_crawl_stars.Rooms.Session.{
  Bytes, reliable_snapshot, WriterCommandKind, WriterCommand, TerminalWriterCommand, from_control,
  from_snapshots, final_snapshot, final_game_end, final_close, Taken, Next, to_loop, to_terminal,
  to_rest, Writer, stopped, terminal_poll, last, entering, sending, recording, completing, Session,
}

-- The snapshots among a writer's commands.
abbrev pub reliable_of : WriterCommandKind → Bytes → List Bytes
reliable_of reliable_snapshot p = p ∷ []
reliable_of _ p = []

abbrev pub snapshot_of : Taken → List Bytes
snapshot_of (from_control, c) = reliable_of c.kind c.payload
snapshot_of (from_snapshots, c) = c.payload ∷ []
snapshot_of (final_snapshot, c) = c.payload ∷ []
snapshot_of (final_game_end, c) = []
snapshot_of (final_close, c) = []

abbrev pub snapshots_of : List Taken → List Bytes
snapshots_of [] = []
snapshots_of (t ∷ ts) = snapshot_of t ++ snapshots_of ts

abbrev pub reliables : List WriterCommand → List Bytes
reliables [] = []
reliables (c ∷ cs) = reliable_of c.kind c.payload ++ reliables cs

abbrev pub handed : List TerminalWriterCommand → List Bytes
handed [] = []
handed (t ∷ ts) = t.snapshot ∷ handed ts

abbrev pub deferred : Bytes → List Bytes
deferred [] = []
deferred (b ∷ p) = (b ∷ p) ∷ []

-- The command that the writer has taken and not written yet.
abbrev pub in_flight : Writer → List Taken
in_flight (entering taken next) = taken ∷ []
in_flight (sending taken next) = taken ∷ []
in_flight _ = []

-- What the writer does after it: the end of a match.
abbrev pub rest_of : Next → List Bytes
rest_of to_loop = []
rest_of (to_terminal t) = t.snapshot ∷ []
rest_of (to_rest taken) = snapshots_of taken

abbrev pub rest : Writer → List Bytes
rest (terminal_poll t) = t.snapshot ∷ []
rest (last taken) = snapshots_of taken
rest (entering taken next) = rest_of next
rest (sending taken next) = rest_of next
rest (recording taken next) = rest_of next
rest (completing next) = rest_of next
rest _ = []

-- The snapshots that were written, then those that wait, in the writer's order.
abbrev pub front : Session → List Bytes
front s = snapshots_of s.written ++ (snapshots_of (in_flight s.writer) ++ reliables s.control)

abbrev pub back : Session → List Bytes
back s = s.snapshots ++ (deferred s.deferred_latest ++ (rest s.writer ++ handed s.terminal_handoff))

abbrev pub line : Session → List Bytes
line s = front s ++ back s

-- How many reliable snapshots the writer has in hand; those of the last array, which has none, count.
abbrev pub reliables_among : List Taken → ℕ
reliables_among [] = 0
reliables_among ((origin, c) ∷ taken) =
    length (reliable_of c.kind c.payload) + reliables_among taken

abbrev pub later : Next → ℕ
later (to_rest taken) = reliables_among taken
later _ = 0

abbrev pub in_hand : Writer → ℕ
in_hand (last taken) = reliables_among taken
in_hand (entering taken next) = length (reliable_of taken.1.kind taken.1.payload) + later next
in_hand (sending taken next) = length (reliable_of taken.1.kind taken.1.payload) + later next
in_hand (recording taken next) = length (reliable_of taken.1.kind taken.1.payload) + later next
in_hand (completing next) = 1 + later next
in_hand _ = 0

abbrev pub is_stopped : Writer → Bool
is_stopped stopped = true
is_stopped _ = false

abbrev pub ends_match : Next → Bool
ends_match to_loop = false
ends_match _ = true

-- The writer is in `writeTerminal`.
abbrev pub is_ending : Writer → Bool
is_ending (terminal_poll t) = true
is_ending (last taken) = true
is_ending (entering taken next) = ends_match next
is_ending (sending taken next) = ends_match next
is_ending (recording taken next) = ends_match next
is_ending (completing next) = ends_match next
is_ending _ = false

abbrev pub ends_array : Next → Bool
ends_array (to_rest taken) = true
ends_array _ = false

-- The writer is in the array that `writeTerminal` ends with.
abbrev pub is_last : Writer → Bool
is_last (last taken) = true
is_last (entering taken next) = ends_array next
is_last (sending taken next) = ends_array next
is_last (recording taken next) = ends_array next
is_last (completing next) = ends_array next
is_last _ = false

-- The commands that came from the control queue.
abbrev pub control_of : Taken → List WriterCommand
control_of (from_control, c) = c ∷ []
control_of (from_snapshots, c) = []
control_of (final_snapshot, c) = []
control_of (final_game_end, c) = []
control_of (final_close, c) = []

abbrev pub controls_of : List Taken → List WriterCommand
controls_of [] = []
controls_of (t ∷ ts) = control_of t ++ controls_of ts

-- What is left of the last array.
abbrev pub left_of : Next → List Taken
left_of (to_rest taken) = taken
left_of _ = []

abbrev pub left : Writer → List Taken
left (last taken) = taken
left (entering taken next) = left_of next
left (sending taken next) = left_of next
left (recording taken next) = left_of next
left (completing next) = left_of next
left _ = []

-- The channels keep their capacities; nothing waits in the slots of a session that ends; the slot is
-- empty while a reliable snapshot is pending; a deferred snapshot waits for one; until the writer
-- stops, the pending count is what the queue and the writer hold; and the last array, which has no control command, is reached
-- with none left.
abbrev pub Valid : Session → Type 0
Valid s =
    (length s.snapshots ≤ 1)
    × (length s.control ≤ 8)
    × (length s.terminal_handoff ≤ 1)
    × ((s.terminal ≡ false) ⊎ ((s.snapshots ≡ []) × (s.deferred_latest ≡ [])))
    × ((s.terminal ≡ true) ⊎ ((s.terminal_handoff ≡ []) × (is_ending s.writer ≡ false)))
    × ((s.reliable_pending ≡ 0) ⊎ (s.snapshots ≡ []))
    × ((s.deferred_latest ≡ []) ⊎ (1 ≤ s.reliable_pending))
    × ((is_stopped s.writer ≡ true)
        ⊎ (s.reliable_pending ≡ length (reliables s.control) + in_hand s.writer))
    × ((is_last s.writer ≡ false) ⊎ (s.control ≡ []))
    × (controls_of (left s.writer) ≡ [])
