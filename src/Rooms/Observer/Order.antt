-- ===== src/Rooms/Observer/Order.antt =====
-- In which order the observer is told of the counters (observer.go, `publish`).
use server_crawl_stars.Base.{
  ℕ, zero, suc, ◌+◌, ◌*◌, ◌≤◌, ◌≡◌, ◌⊎◌, inl, inr, refl, ap, ◌∙◌, sym, Bool, true, false, ◌&&◌,
  List, [], ◌∷◌, ◌++◌, arith, ltb, leb, if◌then◌else◌, length, Option, none, some, get_elem?, set,
  remove_at, Bool-cases,
}
use mathlib.Core.Path.{subst}
use server_crawl_stars.Rooms.Observer.{
  ObservationKind, active_rooms_observation, connected_clients_observation, ObservationTransition,
  ObservationState, published, set_published, take_up, turn_of, drainer_turn, enqueue, drain,
  ObservationEvent, publishes, drains, observation_step, observation_run,
}

abbrev pub same_kind : ObservationKind → ObservationKind → Bool
same_kind active_rooms_observation active_rooms_observation = true
same_kind connected_clients_observation connected_clients_observation = true
same_kind _ _ = false

-- The sequence of the last report of a kind; the reports stand from the last to the first.
abbrev pub latest : ObservationKind → List ObservationTransition → ℕ
latest kind [] = 0
latest kind (t ∷ told) =
    let before = latest kind told in if same_kind t.kind kind then t.sequence else before

-- Each report of a kind has a higher sequence than the one before it.
abbrev pub is_increasing : ObservationKind → List ObservationTransition → Bool
is_increasing kind [] = true
is_increasing kind (t ∷ told) =
    let rest = is_increasing kind told in
    if same_kind t.kind kind then ltb (latest kind told) t.sequence && rest else rest

-- The reports with the one that a drainer is about to make.
abbrev with_held :
    Option ObservationTransition → List ObservationTransition → List ObservationTransition
with_held none told = told
with_held (some t) told = t ∷ told

-- The reports of a kind go upwards, and the state knows the last sequence.
abbrev InOrder : ObservationKind → List ObservationTransition → ObservationState → Type 0
InOrder kind told s = (is_increasing kind told ≡ true) × (latest kind told ≡ published kind s)

-- Nobody drains, and nothing is pending.
abbrev pub Quiet : ObservationState → Type 0
Quiet s = (s.draining ≡ false) × (s.drainers ≡ []) × (s.pending ≡ [])

-- One goroutine drains.
abbrev Working : Option ObservationTransition → ObservationState → Type 0
Working held s = (s.draining ≡ true) × (s.drainers ≡ held ∷ [])

-- Nobody drains, or one goroutine does; in order either way.
abbrev Orderly : ObservationKind → ObservationState → Type 0
Orderly kind s =
    (Quiet s × InOrder kind s.told s)
    ⊎ ((held : Option ObservationTransition) × (Working held s
          × InOrder kind (with_held held s.told) s))

enqueue-Orderly :
    (kind : ObservationKind) (t : ObservationTransition) (s : ObservationState)
    → Orderly kind s
    → Orderly kind (enqueue t s)
unfolding enqueue
enqueue-Orderly active_rooms_observation t s (inl (q, o)) =
    simp q.0 (inr (none, ((refl, ap (λ ds. ds ++ none ∷ []) q.1), o)))
enqueue-Orderly connected_clients_observation t s (inl (q, o)) =
    simp q.0 (inr (none, ((refl, ap (λ ds. ds ++ none ∷ []) q.1), o)))
enqueue-Orderly active_rooms_observation t s (inr (held, (w, o))) =
    simp w.0 (inr (held, ((refl, w.1), o)))
enqueue-Orderly connected_clients_observation t s (inr (held, (w, o))) =
    simp w.0 (inr (held, ((refl, w.1), o)))

-- A turn by what it finds.
turn_at :
    (i : ℕ) (ds : List (Option ObservationTransition)) (ps : List ObservationTransition)
    (s : ObservationState)
    → s.drainers ≡ ds
    → s.pending ≡ ps
    → drainer_turn i s ≡ turn_of (get_elem? ds i) ps i s
unfolding drainer_turn
turn_at i ds ps s e p =
    ap (λ d. turn_of (get_elem? d i) s.pending i s) e ∙ ap (λ q. turn_of (get_elem? ds i) q i s) p

set_published_frame :
    (kind : ObservationKind) (n : ℕ) (s : ObservationState)
    → ((set_published kind n s).draining ≡ s.draining)
      × ((set_published kind n s).drainers ≡ s.drainers)
      × ((set_published kind n s).pending ≡ s.pending)
set_published_frame active_rooms_observation n s = (refl, refl, refl)
set_published_frame connected_clients_observation n s = (refl, refl, refl)

-- A transition that is not stale goes on top of the reports of its kind.
newer-InOrder :
    (kind own : ObservationKind) (t : ObservationTransition) (s : ObservationState)
    (ds : List (Option ObservationTransition))
    → t.kind ≡ own
    → leb t.sequence (published own s) ≡ false
    → InOrder kind s.told s
    → let after = set_published own t.sequence (record s { drainers = ds }) in
      InOrder kind (t ∷ after.told) after
newer-InOrder active_rooms_observation active_rooms_observation t s ds k h o =
    (ground (arith, k, h, o), ground (arith, k))
newer-InOrder active_rooms_observation connected_clients_observation t s ds k h o =
    (ground (arith, k, o), ground (arith, k, o))
newer-InOrder connected_clients_observation active_rooms_observation t s ds k h o =
    (ground (arith, k, o), ground (arith, k, o))
newer-InOrder connected_clients_observation connected_clients_observation t s ds k h o =
    (ground (arith, k, h, o), ground (arith, k))

take_up-Orderly :
    (kind : ObservationKind) (t : ObservationTransition) (s : ObservationState)
    → Working none s
    → InOrder kind s.told s
    → Orderly kind (take_up 0 t s)
unfolding take_up
take_up-Orderly kind t s w o = elim (Bool-cases (leb t.sequence (published t.kind s))) [
  | inl stale ↦ simp stale (inr (none, (w, o)))
  | inr new ↦ simp new (
      inr (
        some t,
        (
          (
            (set_published_frame t.kind t.sequence
                  (record s { drainers = set s.drainers 0 (some t) })).0
                ∙ w.0,
            (set_published_frame t.kind t.sequence
                  (record s { drainers = set s.drainers 0 (some t) })).1
                ∙ ap (λ ds. set ds 0 (some t)) w.1,
          ),
          newer-InOrder kind t.kind t s (set s.drainers 0 (some t)) refl new o,
        ),
      ))
]

-- Only `set_published` changes the published sequences.
published_frame :
    (kind : ObservationKind) (s : ObservationState) (ps : List ObservationTransition) (b : Bool)
    (ds : List (Option ObservationTransition)) (told : List ObservationTransition)
    → published kind s
      ≡ published kind (record s { pending = ps; draining = b; drainers = ds; told = told })
published_frame active_rooms_observation s ps b ds told = refl
published_frame connected_clients_observation s ps b ds told = refl

turn_of-Orderly :
    (kind : ObservationKind) (held : Option ObservationTransition) (i : ℕ)
    (ps : List ObservationTransition) (s : ObservationState)
    → s.pending ≡ ps
    → Working held s
    → InOrder kind (with_held held s.told) s
    → Orderly kind (turn_of (get_elem? (held ∷ []) i) ps i s)
unfolding turn_of
turn_of-Orderly kind none zero [] s p w o = inl (
  (refl, ap (remove_at 0) w.1, p),
  (o.0, o.1 ∙ published_frame kind s s.pending false (remove_at 0 s.drainers) s.told),
)
turn_of-Orderly kind none zero (t ∷ rest) s p w o =
    take_up-Orderly kind t (record s { pending = rest }) w
      (o.0, o.1 ∙ published_frame kind s rest s.draining s.drainers s.told)
turn_of-Orderly kind (some t) zero ps s p w o = inr (
  none,
  (
    (w.0, ap (λ ds. set ds 0 none) w.1),
    (o.0, o.1 ∙ published_frame kind s s.pending s.draining (set s.drainers 0 none) (t ∷ s.told)),
  ),
)
turn_of-Orderly kind held (suc i) ps s p w o = inr (held, (w, o))

drainer_turn-Orderly :
    (kind : ObservationKind) (i : ℕ) (s : ObservationState)
    → Orderly kind s
    → Orderly kind (drainer_turn i s)
unfolding turn_of
drainer_turn-Orderly kind i s (inl (q, o)) =
    subst (Orderly kind) (sym (turn_at i [] s.pending s q.1 refl)) (inl (q, o))
drainer_turn-Orderly kind i s (inr (held, (w, o))) =
    subst (Orderly kind) (sym (turn_at i (held ∷ []) s.pending s w.1 refl))
      (turn_of-Orderly kind held i s.pending s refl w o)

observation_run-Orderly :
    (kind : ObservationKind) (events : List ObservationEvent)
    → Orderly kind (observation_run events)
unfolding observation_run observation_step
observation_run-Orderly active_rooms_observation [] = inl ((refl, refl, refl), (refl, refl))
observation_run-Orderly connected_clients_observation [] = inl ((refl, refl, refl), (refl, refl))
observation_run-Orderly kind (publishes t ∷ before) =
    enqueue-Orderly kind t (observation_run before) (observation_run-Orderly kind before)
observation_run-Orderly kind (drains i ∷ before) =
    drainer_turn-Orderly kind i (observation_run before) (observation_run-Orderly kind before)

told_in_order :
    (kind : ObservationKind) (held : Option ObservationTransition)
    (told : List ObservationTransition)
    → is_increasing kind (with_held held told) ≡ true
    → is_increasing kind told ≡ true
told_in_order kind none told h = h
told_in_order kind (some t) told h = ground (arith, h)

reported_upwards :
    (kind : ObservationKind) (s : ObservationState)
    → Orderly kind s
    → (is_increasing kind s.told ≡ true) × (length s.drainers ≤ 1)
reported_upwards kind s (inl (q, o)) = (o.0, omega (arith, ap length q.1))
reported_upwards kind s (inr (held, (w, o))) =
    (told_in_order kind held s.told o.0, omega (arith, ap length w.1))

-- However goroutines enter `publish`, with any transitions in any order, and however their sections and
-- their calls of the observer interleave: at most one of them drains, and the reports of each kind have
-- increasing sequences, so that no stale value is told after a newer one.
pub observation_run_order :
    (kind : ObservationKind) (events : List ObservationEvent)
    → (is_increasing kind (observation_run events).told ≡ true)
      × (length (observation_run events).drainers ≤ 1)
observation_run_order kind events =
    reported_upwards kind (observation_run events) (observation_run-Orderly kind events)

-- A section that takes a transition up leaves one goroutine draining and the rest of the queue.
take_up-Working :
    (t : ObservationTransition) (s : ObservationState)
    → Working none s
    → (held : Option ObservationTransition) × (Working held (take_up 0 t s)
        × ((take_up 0 t s).pending ≡ s.pending))
unfolding take_up
take_up-Working t s w = elim (Bool-cases (leb t.sequence (published t.kind s))) [
  | inl stale ↦ simp stale (none, (w, refl))
  | inr new ↦
      let frame =
        set_published_frame t.kind t.sequence (record s { drainers = set s.drainers 0 (some t) }) in
      simp new (some t, ((frame.0 ∙ w.0, frame.1 ∙ ap (λ ds. set ds 0 (some t)) w.1), frame.2))
]

Quiet-drain : (n : ℕ) (s : ObservationState) → Quiet s → Quiet (drain n 0 s)
unfolding drain
Quiet-drain zero s q = q
Quiet-drain (suc n) s q =
    Quiet-drain n (drainer_turn 0 s) (subst Quiet (sym (turn_at 0 [] s.pending s q.1 refl)) q)

-- The turns that a drainer needs from where it is.
abbrev cost : Option ObservationTransition → ℕ
cost none = 0
cost (some t) = 1

cost_bound : (held : Option ObservationTransition) → cost held ≤ 1
cost_bound none = omega arith
cost_bound (some t) = omega arith

drain-Quiet :
    (n : ℕ) (held : Option ObservationTransition) (ps : List ObservationTransition)
    (s : ObservationState)
    → s.pending ≡ ps
    → Working held s
    → length ps * 2 + cost held + 1 ≤ n
    → Quiet (drain n 0 s)
unfolding drain turn_of
drain-Quiet zero held ps s p w h = absurd (omega (arith, h))
drain-Quiet (suc n) none [] s p w h =
    Quiet-drain n (drainer_turn 0 s)
      (subst Quiet (sym (turn_at 0 (none ∷ []) [] s w.1 p)) (refl, ap (remove_at 0) w.1, p))
drain-Quiet (suc n) none (t ∷ rest) s p w h =
    let (held, (w', q)) = take_up-Working t (record s { pending = rest }) w in
    let bound : cost held ≤ 1 = cost_bound held in
    subst (λ u. Quiet (drain n 0 u)) (sym (turn_at 0 (none ∷ []) (t ∷ rest) s w.1 p))
      (drain-Quiet n held rest (take_up 0 t (record s { pending = rest })) q w'
        (omega (arith, h, bound)))
drain-Quiet (suc n) (some t) ps s p w h =
    subst (λ u. Quiet (drain n 0 u)) (sym (turn_at 0 (some t ∷ []) ps s w.1 p))
      (drain-Quiet n none ps (record s { told = t ∷ s.told; drainers = set s.drainers 0 none }) p
        (w.0, ap (λ ds. set ds 0 none) w.1) (omega (arith, h)))

drained :
    (s : ObservationState)
    → Orderly active_rooms_observation s
    → Quiet (drain (length s.pending * 2 + 2) 0 s)
drained s (inl (q, o)) = Quiet-drain (length s.pending * 2 + 2) s q
drained s (inr (held, (w, o))) =
    drain-Quiet (length s.pending * 2 + 2) held s.pending s refl w (omega (arith, cost_bound held))

-- Whatever was published and however the goroutines have interleaved: two turns of the drainer for each
-- transition that is pending, and two more, leave nothing pending and nobody draining.
pub observation_run_drained :
    (events : List ObservationEvent)
    → let s = observation_run events in Quiet (drain (length s.pending * 2 + 2) 0 s)
observation_run_drained events =
    drained (observation_run events) (observation_run-Orderly active_rooms_observation events)
