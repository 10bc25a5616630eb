-- ===== src/Rooms/Session/Offers.antt =====
-- What the room's events do to the line of snapshots that a session holds (websocket.go,
-- `clientSession`).
use server_crawl_stars.Base.{
  ℕ, ◌≡◌, ◌⊎◌, refl, Option, false, String, List, [], ◌∷◌, ◌++◌, length, arith,
}
use server_crawl_stars.Rooms.Session.{
  Bytes, reliable_snapshot, payload_command, WriterCommand, command, Writer, Session,
  enqueue_snapshot, approval_section, try_enqueue_control, enqueue_terminal,
}
use server_crawl_stars.Rooms.Session.Pipeline.{Valid, reliables, front, line, rest, is_ending}
use server_crawl_stars.Rooms.Session.Sections.{latest_at, no_first}
use server_crawl_stars.Rooms.Session.Run.{terminal_event, step}
use mathlib.Core.List.{append_assoc, append-nil}

-- What a session may hold once it was offered a snapshot.
abbrev pub Offered : Bytes → Session → Session → Type 0
Offered p s s' = (line s' ≡ line s) ⊎ ((line s' ≡ front s) ⊎ (line s' ≡ front s ++ p ∷ []))

-- Before the end of a match, the writer has nothing of it in hand.
rest_none : (w : Writer) → is_ending w ≡ false → rest w ≡ []
rest_none w h = ground arith

pub enqueue_snapshot-Offered :
    (p : Bytes) (s : Session) → Valid s → Offered p s (enqueue_snapshot p s)
unfolding enqueue_snapshot
enqueue_snapshot-Offered [] s v =
    ground (arith, latest_at s.snapshots [] s v.0 refl, append-nil (front s), rest_none s.writer)
enqueue_snapshot-Offered (b ∷ p) s v =
    ground
      (arith, latest_at s.snapshots (b ∷ p) s v.0 refl, append-nil (front s), rest_none s.writer)

pub reliables-append :
    (cs ds : List WriterCommand) → reliables (cs ++ ds) ≡ reliables cs ++ reliables ds
reliables-append [] ds = refl
reliables-append (c ∷ cs) ds = simp (reliables-append cs ds, append_assoc)

-- A reliable snapshot that joins the control queue joins the front.
front_longer :
    (p : Bytes) (s : Session)
    → front (record s { control = s.control ++ command reliable_snapshot p ∷ [] })
      ≡ front s ++ p ∷ []
front_longer p s =
    simp (reliables-append s.control (command reliable_snapshot p ∷ []), append_assoc)

front_same :
    (p : Bytes) (s : Session)
    → front (record s { control = s.control ++ command payload_command p ∷ [] }) ≡ front s
front_same p s = simp (reliables-append s.control (command payload_command p ∷ []), append-nil)

pub no_elements : (xs : List Bytes) → length xs ≡ 0 → xs ≡ []
no_elements [] h = refl
no_elements (x ∷ xs) h = absurd (omega (arith, h))

pub approval_section-Offered :
    (p : Bytes) (s : Session) → Valid s → Offered p s ((approval_section p s).2)
unfolding approval_section
approval_section-Offered p s v = ground (
  arith,
  front_longer p s,
  no_first s.snapshots v.0,
  append-nil (front s),
  append-nil (front s ++ p ∷ []),
  rest_none s.writer,
)

pub terminal-Offered :
    (tick_of : Bytes → Option ℕ) (p q : Bytes) (reason : String) (s : Session)
    → Valid s
    → Offered p s (step tick_of (terminal_event p q reason) s)
unfolding step enqueue_terminal
terminal-Offered tick_of p q reason s v =
    ground (arith, no_first s.snapshots v.0, append-nil (front s), rest_none s.writer)

pub line-try_enqueue_control :
    (p : Bytes) (s : Session) → line ((try_enqueue_control p s).2) ≡ line s
unfolding try_enqueue_control
line-try_enqueue_control p s = ground (arith, front_same p s)
