-- ===== src/Rooms/Session/Sections.antt =====
-- The session's invariant across the sections under its lock (websocket.go, `clientSession`).
use server_crawl_stars.Base.{
  ℕ, ◌+◌, ◌-◌, String, ◌≤◌, ◌≡◌, refl, Option, none, List, [], ◌∷◌, ◌++◌, length, arith,
  length-append,
}
use server_crawl_stars.Rooms.Session.{
  Bytes, reliable_snapshot, payload_command, WriterCommand, command, session_close_with_cause,
  close_once, StatusCode, drop_first, Next, to_loop, to_terminal, to_rest, completing, Session,
  enqueue_latest_snapshot_locked, enqueue_snapshot, approval_section, try_enqueue_control,
  enqueue_terminal, complete_reliable_snapshot,
}
use server_crawl_stars.Rooms.Types.{CloseCause}
use server_crawl_stars.Rooms.Session.WriteLoop.{resume}
use server_crawl_stars.Rooms.Session.Run.{terminal_event, step}
use server_crawl_stars.Rooms.Session.Pipeline.{Valid, reliables, reliable_of}

-- With a slot of one the value that comes is the value that waits.
pub latest_at :
    (queue : List Bytes) (p : Bytes) (s : Session)
    → length queue ≤ 1
    → s.snapshots ≡ queue
    → enqueue_latest_snapshot_locked p s ≡ record s { snapshots = p ∷ [] }
unfolding enqueue_latest_snapshot_locked
latest_at [] p s h e = ground (arith, h, e)
latest_at (q ∷ []) p s h e = ground (arith, h, e)
latest_at (q ∷ r ∷ queue) p s h e = absurd (omega (arith, h))

pub enqueue_snapshot-Valid : (p : Bytes) (s : Session) → Valid s → Valid (enqueue_snapshot p s)
unfolding enqueue_snapshot
enqueue_snapshot-Valid p s v = ground (arith, latest_at s.snapshots p s v.0 refl)

pub no_first : (queue : List Bytes) → length queue ≤ 1 → drop_first queue ≡ []
no_first [] h = refl
no_first (p ∷ []) h = refl
no_first (p ∷ q ∷ queue) h = absurd (omega (arith, h))

reliables-append :
    (cs ds : List WriterCommand)
    → length (reliables (cs ++ ds)) ≡ length (reliables cs) + length (reliables ds)
reliables-append [] ds = omega arith
reliables-append (c ∷ cs) ds = ground (
  arith,
  reliables-append cs ds,
  length-append (reliable_of c.kind c.payload) (reliables (cs ++ ds)),
  length-append (reliable_of c.kind c.payload) (reliables cs),
)

pub approval_section-Valid : (p : Bytes) (s : Session) → Valid s → Valid ((approval_section p s).2)
unfolding approval_section
approval_section-Valid p s v = ground (
  arith,
  reliables-append s.control (command reliable_snapshot p ∷ []),
  length-append s.control (command reliable_snapshot p ∷ []),
)

pub try_enqueue_control-Valid :
    (p : Bytes) (s : Session) → Valid s → Valid ((try_enqueue_control p s).2)
unfolding try_enqueue_control
try_enqueue_control-Valid p s v = ground (
  arith,
  reliables-append s.control (command payload_command p ∷ []),
  length-append s.control (command payload_command p ∷ []),
)

pub complete_reliable_snapshot-Valid :
    (next : Next) (s : Session)
    → s.writer ≡ completing next
    → Valid s
    → Valid (record (complete_reliable_snapshot s) { writer = resume next })
unfolding complete_reliable_snapshot
complete_reliable_snapshot-Valid to_loop s e v = ground (
  arith,
  latest_at s.snapshots s.deferred_latest
      (record s { reliable_pending = s.reliable_pending - 1; deferred_latest = [] }) v.0 refl,
)
complete_reliable_snapshot-Valid (to_terminal t) s e v = ground (
  arith,
  latest_at s.snapshots s.deferred_latest
      (record s { reliable_pending = s.reliable_pending - 1; deferred_latest = [] }) v.0 refl,
)
complete_reliable_snapshot-Valid (to_rest taken) s e v = ground (
  arith,
  latest_at s.snapshots s.deferred_latest
      (record s { reliable_pending = s.reliable_pending - 1; deferred_latest = [] }) v.0 refl,
)

-- The handoff of the end has room: only an ended session has used it.
pub enqueue_terminal_returns :
    (p q : Bytes) (reason : String) (s : Session)
    → Valid s
    → ¬ (enqueue_terminal p q reason s ≡ none)
unfolding enqueue_terminal
enqueue_terminal_returns p q reason s v = ground arith

pub terminal-Valid :
    (tick_of : Bytes → Option ℕ) (p q : Bytes) (reason : String) (s : Session)
    → Valid s
    → Valid (step tick_of (terminal_event p q reason) s)
unfolding step enqueue_terminal
terminal-Valid tick_of p q reason s v = ground (arith, no_first s.snapshots v.0)

pub close-Valid :
    (code : StatusCode) (reason : String) (cause : CloseCause) (category status : String)
    (s : Session)
    → Valid s
    → Valid (session_close_with_cause code reason cause category status s)
unfolding session_close_with_cause close_once
close-Valid code reason cause category status s v = ground arith
