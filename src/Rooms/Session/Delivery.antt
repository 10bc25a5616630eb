-- ===== src/Rooms/Session/Delivery.antt =====
-- In which order the connection gets the snapshots (websocket.go, `clientSession`).
use server_crawl_stars.Base.{ℕ, ◌≡◌, refl, sym, inl, inr, Option, List, [], ◌∷◌, ◌++◌}
use server_crawl_stars.Base.Sublists.{
  Sublistᴰ, Sublist-append, Sublist-wider, Sublist-start, Sublist-cut, empty_Sublist,
}
use server_crawl_stars.Rooms.Session.{
  Bytes, Session, enqueue_snapshot, approval_section, new_client_session,
}
use server_crawl_stars.Rooms.Session.Pipeline.{
  Valid, reliables, front, back, line, deferred, snapshots_of, in_flight, handed, rest,
}
use server_crawl_stars.Rooms.Session.Bounds.{run-Valid}
use server_crawl_stars.Rooms.Session.Offers.{
  Offered, enqueue_snapshot-Offered, approval_section-Offered, terminal-Offered,
  line-try_enqueue_control,
}
use server_crawl_stars.Rooms.Session.Line.{
  Kept, close_line, writer_step_at-Kept, select_at-Kept, write_returns_at-Kept,
}
use server_crawl_stars.Rooms.Session.WriteLoop.{writer_step, select, write_returns}
use server_crawl_stars.Rooms.Session.Run.{
  Event, snapshot_event, approval_event, control_event, terminal_event, close_event, writer_event,
  select_event, write_event, step, run, offered, offered_by,
}
use mathlib.Core.List.{append_assoc}
use mathlib.Core.Path.{subst}

-- What comes next goes to the end of the line.
arrive :
    {l : List Bytes} (p : Bytes) (xs ys : List Bytes)
    → Sublistᴰ (xs ++ ys) l
    → Sublistᴰ (xs ++ p ∷ []) (l ++ p ∷ [])
arrive p xs ys h = Sublist-append (p ∷ []) (Sublist-start xs ys h)

-- Whatever is lost, the order stays.
Kept-Sublist :
    {l : List Bytes} (s : Session) (after : List Bytes)
    → Kept s after
    → Sublistᴰ (line s) l
    → Sublistᴰ after l
Kept-Sublist {l} s after (inl e) h = subst (λ xs. Sublistᴰ xs l) (sym e) h
Kept-Sublist {l} s after (inr (inl e)) h =
    let w = snapshots_of s.written in
    let f = snapshots_of (in_flight s.writer) in
    let c = reliables s.control in
    let d = s.snapshots ++ deferred s.deferred_latest in
    let g = handed s.terminal_handoff in
    let flat : line s ≡ w ++ (f ++ (c ++ (d ++ (rest s.writer ++ g)))) = simp append_assoc in
    let to : (w ++ (c ++ d)) ++ g ≡ after = rw e (simp append_assoc) in
    let no_flight : Sublistᴰ ((w ++ (c ++ d)) ++ (rest s.writer ++ g)) l =
      subst (λ xs. Sublistᴰ xs l) (simp append_assoc)
        (Sublist-cut w f (c ++ (d ++ (rest s.writer ++ g))) (subst (λ xs. Sublistᴰ xs l) flat h)) in
    subst (λ xs. Sublistᴰ xs l) to (Sublist-cut (w ++ (c ++ d)) (rest s.writer) g no_flight)
Kept-Sublist {l} s after (inr (inr e)) h =
    let g = rest s.writer ++ handed s.terminal_handoff in
    let apart : line s ≡ (front s ++ s.snapshots) ++ (deferred s.deferred_latest ++ g) =
      simp append_assoc in
    let to : (front s ++ s.snapshots) ++ g ≡ after = rw e (simp append_assoc) in
    subst (λ xs. Sublistᴰ xs l) to
      (Sublist-cut (front s ++ s.snapshots) (deferred s.deferred_latest) g
        (subst (λ xs. Sublistᴰ xs l) apart h))

Offered-Sublist :
    {l : List Bytes} (p : Bytes) (s s' : Session)
    → Offered p s s'
    → Sublistᴰ (line s) l
    → Sublistᴰ (line s') (l ++ p ∷ [])
Offered-Sublist {l} p s s' (inl e) h =
    subst (λ xs. Sublistᴰ xs (l ++ p ∷ [])) (sym e) (Sublist-wider (p ∷ []) h)
Offered-Sublist {l} p s s' (inr (inl e)) h =
    subst (λ xs. Sublistᴰ xs (l ++ p ∷ [])) (sym e)
      (Sublist-wider (p ∷ []) (Sublist-start (front s) (back s) h))
Offered-Sublist {l} p s s' (inr (inr e)) h =
    subst (λ xs. Sublistᴰ xs (l ++ p ∷ [])) (sym e) (arrive p (front s) (back s) h)

unchanged :
    {l : List Bytes} (s : Session) (xs : List Bytes)
    → Kept s xs
    → Sublistᴰ (line s) l
    → Sublistᴰ xs (l ++ [])
unchanged s xs k h = Sublist-wider [] (Kept-Sublist s xs k h)

step-Sublist :
    {l : List Bytes} (tick_of : Bytes → Option ℕ) (e : Event) (s : Session)
    → Valid s
    → Sublistᴰ (line s) l
    → Sublistᴰ (line (step tick_of e s)) (l ++ offered_by e)
unfolding step writer_step select write_returns
step-Sublist tick_of (snapshot_event p) s v h =
    Offered-Sublist p s (enqueue_snapshot p s) (enqueue_snapshot-Offered p s v) h
step-Sublist tick_of (approval_event p) s v h =
    Offered-Sublist p s ((approval_section p s).2) (approval_section-Offered p s v) h
step-Sublist tick_of (control_event p) s v h = unchanged s _ (inl (line-try_enqueue_control p s)) h
step-Sublist tick_of (terminal_event p q reason) s v h =
    Offered-Sublist p s (step tick_of (terminal_event p q reason) s)
      (terminal-Offered tick_of p q reason s v) h
step-Sublist tick_of (close_event code reason cause category status) s v h =
    unchanged s _ (inl (close_line code reason cause category status s)) h
step-Sublist tick_of writer_event s v h =
    unchanged s _ (writer_step_at-Kept tick_of s.writer s refl v) h
step-Sublist tick_of (select_event case) s v h =
    unchanged s _ (select_at-Kept s.writer case s refl v) h
step-Sublist tick_of (write_event result) s v h =
    unchanged s _ (write_returns_at-Kept s.writer result s refl) h

line-Sublist :
    (tick_of : Bytes → Option ℕ) (events : List Event)
    → Sublistᴰ (line (run tick_of events)) (offered events)
unfolding run new_client_session
line-Sublist tick_of [] = empty_Sublist []
line-Sublist tick_of (e ∷ before) =
    step-Sublist tick_of e (run tick_of before) (run-Valid tick_of before)
      (line-Sublist tick_of before)

-- However the room, the connection and the writer interleave, the snapshots that the connection has
-- written stand in the order in which the room offered them, each for an offer of its own: ordinary
-- ones, those that approve a skill and that of the match's end do not overtake each other.
pub written-Sublist :
    (tick_of : Bytes → Option ℕ) (events : List Event)
    → Sublistᴰ (snapshots_of ((run tick_of events).written)) (offered events)
written-Sublist tick_of events =
    let s : Session = run tick_of events in
    Sublist-start (snapshots_of s.written)
      (snapshots_of (in_flight s.writer) ++ (reliables s.control ++ back s))
      (subst (λ xs. Sublistᴰ xs (offered events)) (simp append_assoc) (line-Sublist tick_of events))
