-- ===== src/Rooms/Session/PublicationOrder.antt =====
-- The order of a session's lifecycle publications, and the turns of their drainer (websocket.go,
-- `drainLifecyclePublications`).
use server_crawl_stars.Base.{
  ℕ, zero, suc, ◌≤◌, ◌*◌, ◌≡◌, ◌⊎◌, refl, ap, sym, ◌∙◌, Option, none, some, set, remove_at,
  get_elem?, Bool, true, false, List, [], ◌∷◌, ◌++◌, if◌then◌else◌, length, arith, if_keep,
  Bool-cases, inl, inr,
}
use mathlib.Core.Path.{subst}
use mathlib.Core.List.{append_assoc, append-nil}
use server_crawl_stars.Rooms.Session.Publications.{
  Publication, is_held, PublicationQueue, start_publication_drain_locked,
  enqueue_lifecycle_publication, mark_ready, ready_lifecycle_publication, drain_turn_at, drain_turn,
  drain_lifecycle_publications, PublicationEvent, enqueue_event, ready_event, turn_event,
  publication_step, publication_run, enter_drain,
}

abbrev pub enqueued_by : PublicationEvent → List ℕ
enqueued_by (enqueue_event ready pointer) = pointer ∷ []
enqueued_by _ = []

abbrev pub enqueued : List PublicationEvent → List ℕ
enqueued [] = []
enqueued (e ∷ before) = enqueued before ++ enqueued_by e

abbrev pub pointers : List Publication → List ℕ
pointers [] = []
pointers (p ∷ rest) = p.pointer ∷ pointers rest

pointers-append : (ps qs : List Publication) → pointers (ps ++ qs) ≡ pointers ps ++ pointers qs
pointers-append [] qs = refl
pointers-append (p ∷ ps) qs = ap (◌∷◌ p.pointer) (pointers-append ps qs)

pointers-mark_ready :
    (pointer : ℕ) (ps : List Publication) → pointers (mark_ready pointer ps) ≡ pointers ps
unfolding mark_ready
pointers-mark_ready pointer [] = refl
pointers-mark_ready pointer (p ∷ ps) = ground (arith, pointers-mark_ready pointer ps)

-- What the drainers are about to publish.
abbrev pub in_hand : List (Option ℕ) → List ℕ
in_hand [] = []
in_hand (none ∷ ds) = in_hand ds
in_hand (some pointer ∷ ds) = pointer ∷ in_hand ds

-- What was published, what the drainers have taken, and what waits.
abbrev pub everything : PublicationQueue → List ℕ
everything q = q.published ++ in_hand q.drainers ++ pointers q.publications

-- Nobody drains, or one goroutine does.
abbrev Single : PublicationQueue → Type 0
Single q =
    ((q.draining ≡ false) × (q.drainers ≡ []))
    ⊎ ((held : Option ℕ) × ((q.draining ≡ true) × (q.drainers ≡ held ∷ [])))

-- A step that keeps one drainer at most, and what there is of publications and `more` at its end.
abbrev Keeps : PublicationQueue → List ℕ → PublicationQueue → Type 0
Keeps q more r = Single r × (everything r ≡ everything q ++ more)

starts :
    (q : PublicationQueue) → Single q → Keeps q [] (enter_drain (start_publication_drain_locked q))
unfolding start_publication_drain_locked enter_drain
starts q (inr (held, (d, e))) = simp d (inr (held, (refl, e)), simp append-nil)
starts q (inl (d, e)) = elim (Bool-cases (is_held q.publications)) [
  | inl held ↦ simp (d, held) (inl (refl, e), simp append-nil)
  | inr free ↦
      simp (d, free)
        (
          inr (none, (refl, ap (λ ds. ds ++ none ∷ []) e)),
          ap (λ ds. q.published ++ in_hand (ds ++ none ∷ []) ++ pointers q.publications) e
              ∙ sym (ap (λ ds. q.published ++ in_hand ds ++ pointers q.publications) e)
              ∙ sym (append-nil (everything q)),
        )
]

-- A publication at the end of the queue is at the end of everything.
append_assoc_of :
    (q : PublicationQueue) (pointer : ℕ)
    → everything q ++ pointer ∷ []
      ≡ q.published ++ in_hand q.drainers ++ (pointers q.publications ++ pointer ∷ [])
append_assoc_of q pointer = simp append_assoc

not_started :
    (added : PublicationQueue) (pointer : ℕ) (q : PublicationQueue)
    → Single added
    → everything added ≡ everything q ++ pointer ∷ []
    → Keeps q (pointer ∷ []) (enter_drain (false, added))
unfolding enter_drain
not_started added pointer q h e = (h, e)

-- The drainer leaves.
leaves :
    (q : PublicationQueue)
    → q.drainers ≡ none ∷ []
    → Keeps q [] (record q { draining = false; drainers = remove_at 0 q.drainers })
leaves q e = (
  inl (refl, ap (remove_at 0) e),
  ap (λ ds. q.published ++ in_hand (remove_at 0 ds) ++ pointers q.publications) e
      ∙ sym (ap (λ ds. q.published ++ in_hand ds ++ pointers q.publications) e)
      ∙ sym (append-nil (everything q)),
)

enqueue-Keeps :
    (ready : Bool) (pointer : ℕ) (q : PublicationQueue)
    → Single q
    → Keeps q (pointer ∷ []) (enter_drain (enqueue_lifecycle_publication ready pointer q))
unfolding enqueue_lifecycle_publication
enqueue-Keeps ready pointer q h =
    let p : Publication = record { pointer = pointer; ready = ready } in
    let added : PublicationQueue = record q { publications = q.publications ++ p ∷ [] } in
    let longer : everything added ≡ everything q ++ pointer ∷ [] =
      ap (λ ps. q.published ++ in_hand q.drainers ++ ps) (pointers-append q.publications (p ∷ []))
      ∙ sym (append_assoc_of q pointer) in
    let started = starts added h in
    if_keep (λ (r : Bool × PublicationQueue). Keeps q (pointer ∷ []) (enter_drain r)) ready
      (λ now. (started.0, started.1 ∙ append-nil (everything added) ∙ longer))
      (λ later. not_started added pointer q h longer)

ready-Keeps :
    (pointer : ℕ) (q : PublicationQueue)
    → Single q
    → Keeps q [] (enter_drain (ready_lifecycle_publication pointer q))
unfolding ready_lifecycle_publication
ready-Keeps pointer q h =
    let marked : PublicationQueue = record q { publications = mark_ready pointer q.publications } in
    let started = starts marked h in
    (
      started.0,
      started.1
          ∙ ap (λ ps. (q.published ++ in_hand q.drainers ++ ps) ++ [])
              (pointers-mark_ready pointer q.publications),
    )

turn-Keeps :
    (held : Option ℕ) (i : ℕ) (ps : List Publication) (q : PublicationQueue)
    → q.publications ≡ ps
    → q.draining ≡ true
    → q.drainers ≡ held ∷ []
    → Keeps q [] (drain_turn_at (get_elem? (held ∷ []) i) ps i q)
unfolding drain_turn_at
turn-Keeps held (suc i) ps q p d e = (inr (held, (d, e)), sym (append-nil (everything q)))
turn-Keeps (some pointer) zero ps q p d e =
    let waiting = pointers q.publications in
    let run = q.published ++ pointer ∷ [] in
    let after : (run ++ in_hand (set q.drainers 0 none)) ++ waiting ≡ run ++ waiting =
      ap (λ ds. (run ++ in_hand (set ds 0 none)) ++ waiting) e
      ∙ ap (λ ps. ps ++ waiting) (append-nil run) in
    let before : everything q ≡ run ++ waiting =
      ap (λ ds. (q.published ++ in_hand ds) ++ waiting) e in
    (
      inr (none, (d, ap (λ ds. set ds 0 none) e)),
      after ∙ sym before ∙ sym (append-nil (everything q)),
    )
turn-Keeps none zero [] q p d e = leaves q e
turn-Keeps none zero (x ∷ rest) q p d e = elim (Bool-cases x.ready) [
  | inl ready ↦
      let later : List ℕ = (q.published ++ x.pointer ∷ []) ++ pointers rest in
      let next : List ℕ =
        q.published ++ in_hand (set q.drainers 0 (some x.pointer)) ++ pointers rest in
      let after : next ≡ later =
        ap (λ ds. q.published ++ in_hand (set ds 0 (some x.pointer)) ++ pointers rest) e in
      let before : everything q ≡ later =
        ap (λ ds. q.published ++ in_hand ds ++ pointers q.publications) e
        ∙ ap (λ ps. (q.published ++ []) ++ pointers ps) p
        ∙ simp (append-nil, append_assoc) in
      simp ready (
        inr (some x.pointer, (d, ap (λ ds. set ds 0 (some x.pointer)) e)),
        after ∙ sym before ∙ sym (append-nil (everything q)),
      )
  | inr waits ↦ simp waits (leaves q e)
]

step-Keeps :
    (e : PublicationEvent) (q : PublicationQueue)
    → Single q
    → Keeps q (enqueued_by e) (publication_step e q)
unfolding publication_step drain_turn drain_turn_at
step-Keeps (enqueue_event ready pointer) q h = enqueue-Keeps ready pointer q h
step-Keeps (ready_event pointer) q h = ready-Keeps pointer q h
step-Keeps (turn_event i) q (inl (d, e)) =
    subst (λ ds. Keeps q [] (drain_turn_at (get_elem? ds i) q.publications i q)) (sym e)
      (inl (d, e), sym (append-nil (everything q)))
step-Keeps (turn_event i) q (inr (held, (d, e))) =
    subst (λ ds. Keeps q [] (drain_turn_at (get_elem? ds i) q.publications i q)) (sym e)
      (turn-Keeps held i q.publications q refl d e)

run-Keeps :
    (events : List PublicationEvent)
    → Single (publication_run events) × (everything (publication_run events) ≡ enqueued events)
unfolding publication_run
run-Keeps [] = (inl (refl, refl), refl)
run-Keeps (e ∷ before) =
    let h = run-Keeps before in
    let k = step-Keeps e (publication_run before) h.0 in
    (k.0, k.1 ∙ ap (λ xs. xs ++ enqueued_by e) h.1)

one_at_most : (q : PublicationQueue) → Single q → length q.drainers ≤ 1
one_at_most q (inl (d, e)) = omega (arith, ap length e)
one_at_most q (inr (held, (d, e))) = omega (arith, ap length e)

-- However the mutators, the sections of the drainers and their callbacks interleave: at most one
-- goroutine drains, and the callbacks run in the order of the enqueues, each once: those that ran, the
-- one that a drainer is about to run and those that wait are, in order, all that were enqueued. One
-- that is ready early waits for those before it.
pub publication_run_order :
    (events : List PublicationEvent)
    → (length (publication_run events).drainers ≤ 1)
      × (everything (publication_run events) ≡ enqueued events)
publication_run_order events =
    let h = run-Keeps events in (one_at_most (publication_run events) h.0, h.1)

-- The entries that a drainer publishes, and those that it leaves.
abbrev pub ready_prefix : List Publication → List ℕ
ready_prefix [] = []
ready_prefix (p ∷ rest) = let later = ready_prefix rest in if p.ready then p.pointer ∷ later else []

abbrev pub after_prefix : List Publication → List Publication
after_prefix [] = []
after_prefix (p ∷ rest) = let later = after_prefix rest in if p.ready then later else p ∷ rest

-- What a drainer leaves behind.
abbrev pub Drained : PublicationQueue → List Publication → PublicationQueue → Type 0
Drained q ps after =
    (after.published ≡ q.published ++ ready_prefix ps)
    × (after.publications ≡ after_prefix ps)
    × (after.draining ≡ false)
    × (after.drainers ≡ [])

-- With nobody draining nothing happens.
idle_drain :
    (n : ℕ) (q : PublicationQueue) → q.drainers ≡ [] → drain_lifecycle_publications n 0 q ≡ q
unfolding drain_lifecycle_publications drain_turn drain_turn_at
idle_drain zero q e = refl
idle_drain (suc n) q e =
    let still : drain_turn 0 q ≡ q =
      ap (λ ds. drain_turn_at (get_elem? ds 0) q.publications 0 q) e in
    ap (drain_lifecycle_publications n 0) still ∙ idle_drain n q e

turn_at :
    (held : Option ℕ) (ps : List Publication) (q : PublicationQueue)
    → q.publications ≡ ps
    → q.drainers ≡ held ∷ []
    → drain_turn 0 q ≡ drain_turn_at (some held) ps 0 q
unfolding drain_turn
turn_at held ps q p e =
    ap (λ ds. drain_turn_at (get_elem? ds 0) q.publications 0 q) e
    ∙ ap (λ xs. drain_turn_at (some held) xs 0 q) p

abbrev gone : PublicationQueue → PublicationQueue
gone q = record q { draining = false; drainers = remove_at 0 q.drainers }

-- A first entry that is not ready, or none, ends the drainer.
held_turn :
    (ps : List Publication) (q : PublicationQueue)
    → is_held ps ≡ true
    → (drain_turn_at (some none) ps 0 q ≡ gone q) × (ready_prefix ps ≡ []) × (after_prefix ps ≡ ps)
unfolding drain_turn_at is_held
held_turn [] q h = (refl, refl, refl)
held_turn (p ∷ rest) q h = (ground (arith, h), ground (arith, h), ground (arith, h))

held-Drained :
    (ps : List Publication) (n : ℕ) (q : PublicationQueue)
    → q.publications ≡ ps
    → q.drainers ≡ none ∷ []
    → is_held ps ≡ true
    → Drained q ps (drain_lifecycle_publications (suc n) 0 q)
unfolding drain_lifecycle_publications
held-Drained ps n q e d h =
    let (turn, before, after) = held_turn ps q h in
    let stops : drain_lifecycle_publications n 0 (drain_turn 0 q) ≡ gone q =
      ap (drain_lifecycle_publications n 0) (turn_at none ps q e d ∙ turn)
      ∙ idle_drain n (gone q) (ap (remove_at 0) d) in
    (
      ap (λ t. t.published) stops ∙ simp (before, append-nil),
      ap (λ t. t.publications) stops ∙ simp (after, e),
      ap (λ t. t.draining) stops,
      ap (λ t. t.drainers) stops ∙ ap (remove_at 0) d,
    )

-- The section that takes a ready entry, and its callback.
two_turns :
    (p : Publication) (ps : List Publication) (q : PublicationQueue)
    → q.publications ≡ p ∷ ps
    → q.drainers ≡ none ∷ []
    → p.ready ≡ true
    → drain_turn 0 (drain_turn 0 q) ≡ record q {
      publications = ps;
      published = q.published ++ p.pointer ∷ [];
      drainers = set (set q.drainers 0 (some p.pointer)) 0 none;
    }
unfolding drain_turn_at
two_turns p ps q e d ready =
    let taken : PublicationQueue = record q {
      publications = ps;
      drainers = set q.drainers 0 (some p.pointer);
    } in
    let first : drain_turn 0 q ≡ taken = turn_at none (p ∷ ps) q e d ∙ simp ready in
    ap (drain_turn 0) first
    ∙ turn_at (some p.pointer) ps taken refl (ap (λ ds. set ds 0 (some p.pointer)) d)

drain-Drained :
    (ps : List Publication) (n : ℕ) (q : PublicationQueue)
    → length ps * 2 ≤ n
    → q.publications ≡ ps
    → q.drainers ≡ none ∷ []
    → Drained q ps (drain_lifecycle_publications (suc n) 0 q)
unfolding drain_lifecycle_publications is_held
drain-Drained [] n q h e d = held-Drained [] n q e d refl
drain-Drained (p ∷ ps) zero q h e d = absurd (omega (arith, h))
drain-Drained (p ∷ ps) (suc zero) q h e d = absurd (omega (arith, h))
drain-Drained (p ∷ ps) (suc (suc n)) q h e d = elim (Bool-cases p.ready) [
  | inl ready ↦
      let next : PublicationQueue = record q {
        publications = ps;
        published = q.published ++ p.pointer ∷ [];
        drainers = set (set q.drainers 0 (some p.pointer)) 0 none;
      } in
      let rest : Drained next ps (drain_lifecycle_publications (suc n) 0 next) =
        drain-Drained ps n next (omega (arith, h)) refl
          (ap (λ ds. set (set ds 0 (some p.pointer)) 0 none) d) in
      let moves : drain_lifecycle_publications (suc n) 0 (drain_turn 0 (drain_turn 0 q))
          ≡ drain_lifecycle_publications (suc n) 0 next =
        ap (drain_lifecycle_publications (suc n) 0) (two_turns p ps q e d ready) in
      (
        ap (λ t. t.published) moves ∙ rest.0 ∙ simp (ready, append_assoc),
        ap (λ t. t.publications) moves ∙ rest.1 ∙ simp ready,
        ap (λ t. t.draining) moves ∙ rest.2,
        ap (λ t. t.drainers) moves ∙ rest.3,
      )
  | inr waits ↦ held-Drained (p ∷ ps) (suc (suc n)) q e d (simp waits)
]

-- With two turns for each entry and one to leave, a drainer that is alone has published the entries up
-- to the first that is not ready, in their order, has left that one and those after it, and is gone.
pub drain_lifecycle_publications_lem :
    (q : PublicationQueue)
    → q.drainers ≡ none ∷ []
    → Drained q q.publications (drain_lifecycle_publications (suc (length q.publications * 2)) 0 q)
drain_lifecycle_publications_lem q d =
    drain-Drained q.publications (length q.publications * 2) q (omega arith) refl d
