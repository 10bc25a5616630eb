-- ===== src/Rooms/GameEnd/Verdicts.antt =====
-- What the results say of the players, and how they go with the end of the match (game_end.go).
use server_crawl_stars.Base.{
  ℕ, ◌+◌, ◌<◌, ◌≤◌, ◌≡◌, refl, sym, ◌∙◌, ◌⊎◌, inl, inr, String, true, false, List, [], ◌∷◌, Option,
  some, arith, ◌==◌, length, Bool-cases, Any,
}
use server_crawl_stars.Base.Dict.{lookup}
use server_crawl_stars.Simulation.Types.{PlayerData}
use server_crawl_stars.Rooms.Types.{GameEndResult, win, lose, draw}
use server_crawl_stars.Rooms.GameEnd.{
  live_player_count, dead_player_count, assign, drawn, survived, stood_alone,
  player_survival_game_end_results, solo_game_end_results,
}
use server_crawl_stars.Rooms.GameEnd.Results.{assign_sound}

-- Some player of that name has the property.
abbrev pub Named : String → (PlayerData → Type 0) → List PlayerData → Type 0
Named id P = Any (λ p. (p.id ≡ id) × P p)

pub Named-map :
    (id : String) (P Q : PlayerData → Type 0) (ps : List PlayerData)
    → ((p : PlayerData) → P p → Q p)
    → Named id P ps
    → Named id Q ps
Named-map id P Q [] f h = absurd h
Named-map id P Q (p ∷ ps) f (inl h) = inl (h.0, f p h.1)
Named-map id P Q (p ∷ ps) f (inr h) = inr (Named-map id P Q ps f h)

-- From an empty map, a result is a player's verdict.
pub assigned :
    (verdict : PlayerData → Option GameEndResult) (ps : List PlayerData) (id : String)
    (r : GameEndResult)
    → lookup id (assign verdict ps []) ≡ some r
    → Named id (λ p. verdict p ≡ some r) ps
unfolding lookup
assigned verdict ps id r h = ground (arith, assign_sound verdict ps [] id r h)

pub lookup-nil : (id : String) (r : GameEndResult) → lookup id [] ≡ some r → ⊥
unfolding lookup
lookup-nil id r h = cc

pub dead-live : (ps : List PlayerData) → dead_player_count ps + live_player_count ps ≡ length ps
unfolding dead_player_count live_player_count
dead-live [] = omega arith
dead-live (p ∷ ps) = ground (arith, dead-live ps)

pub Named-draw :
    (id : String) (r : GameEndResult) (ps : List PlayerData)
    → Named id (λ p. drawn p ≡ some r) ps
    → r ≡ draw
Named-draw id r [] h = absurd h
Named-draw id r (p ∷ ps) (inl h) = ground arith
Named-draw id r (p ∷ ps) (inr h) = Named-draw id r ps h

pub Named-absurd : (id : String) (ps : List PlayerData) → Named id (λ p. ⊥) ps → ⊥
Named-absurd id (p ∷ ps) (inl h) = h.1
Named-absurd id (p ∷ ps) (inr h) = Named-absurd id ps h
Named-absurd id [] h = h

survivor :
    (ps : List PlayerData) (id : String) (r : GameEndResult)
    → Named id (λ p. survived p ≡ some r) ps
    → live_player_count ps < length ps
    → 0 < live_player_count ps
    → ((r ≡ win) × Named id (λ p. p.is_dead ≡ false) ps × (live_player_count ps < length ps))
      ⊎ ((r ≡ lose) × Named id (λ p. p.is_dead ≡ true) ps × (0 < live_player_count ps))
      ⊎ ((r ≡ draw) × (live_player_count ps ≡ 0))
survivor ps id win h l k = inl (refl, Named-map id _ _ ps (λ p e. ground arith) h, l)
survivor ps id lose h l k = inr (inl (refl, Named-map id _ _ ps (λ p e. ground arith) h, k))
survivor ps id draw h l k =
    absurd (Named-absurd id ps (Named-map id _ (λ p. ⊥) ps (λ p e. ground arith) h))

-- What a result of a survival match says: a winner lives and somebody died, a loser is dead and
-- somebody lives, and a draw leaves nobody alive.
pub survival_results :
    (ps : List PlayerData) (id : String) (r : GameEndResult)
    → lookup id (player_survival_game_end_results ps) ≡ some r
    → ((r ≡ win) × Named id (λ p. p.is_dead ≡ false) ps × (live_player_count ps < length ps))
      ⊎ ((r ≡ lose) × Named id (λ p. p.is_dead ≡ true) ps × (0 < live_player_count ps))
      ⊎ ((r ≡ draw) × (live_player_count ps ≡ 0))
unfolding player_survival_game_end_results
survival_results ps id r h = elim (Bool-cases (dead_player_count ps == 0)) [
  | inl none_dead ↦ absurd (lookup-nil id r (ground (arith, h)))
  | inr some_dead ↦ elim (Bool-cases (dead_player_count ps == length ps)) [
    | inl all_dead ↦
        let v = Named-draw id r ps (assigned drawn ps id r (ground (arith, h))) in
        inr (inr (v, ground (arith, dead-live ps)))
    | inr some_live ↦
        survivor ps id r (assigned survived ps id r (ground (arith, h)))
          (ground (arith, dead-live ps)) (ground (arith, dead-live ps))
  ]
]

live-le-length : (ps : List PlayerData) → live_player_count ps ≤ length ps
live-le-length ps = omega (arith, dead-live ps)

-- Someone alive is counted.
live_named :
    (id : String) (ps : List PlayerData)
    → Named id (λ p. p.is_dead ≡ false) ps
    → 0 < live_player_count ps
unfolding live_player_count
live_named id [] h = absurd h
live_named id (p ∷ ps) (inl h) = ground arith
live_named id (p ∷ ps) (inr h) = ground (arith, live_named id ps h)

-- With one player alive, all who are alive have one name.
only_one_alive :
    (i j : String) (ps : List PlayerData)
    → live_player_count ps ≤ 1
    → Named i (λ p. p.is_dead ≡ false) ps
    → Named j (λ p. p.is_dead ≡ false) ps
    → i ≡ j
unfolding live_player_count
only_one_alive i j [] l h k = absurd h
only_one_alive i j (p ∷ ps) l (inl h) (inl k) = sym h.0 ∙ k.0
only_one_alive i j (p ∷ ps) l (inl h) (inr k) = absurd (ground (arith, live_named j ps k))
only_one_alive i j (p ∷ ps) l (inr h) (inl k) = absurd (ground (arith, live_named i ps h))
only_one_alive i j (p ∷ ps) l (inr h) (inr k) = only_one_alive i j ps (ground arith) h k

pub win≢draw : win ≡ draw → ⊥
win≢draw h = cc

alone :
    (n : ℕ) (id : String) (ps : List PlayerData)
    → Named id (λ p. stood_alone n p ≡ some win) ps
    → n ≡ 1
alone n id [] h = absurd h
alone n id (p ∷ ps) (inl h) = ground arith
alone n id (p ∷ ps) (inr h) = alone n id ps h

-- A solo winner is the last one alive.
solo_winner :
    (ps : List PlayerData) (id : String)
    → lookup id (solo_game_end_results ps) ≡ some win
    → (live_player_count ps ≡ 1) × Named id (λ p. p.is_dead ≡ false) ps
unfolding solo_game_end_results
solo_winner ps id h = elim (Bool-cases (live_player_count ps == length ps)) [
  | inl all_live ↦ absurd (lookup-nil id win (ground (arith, h)))
  | inr some_dead ↦ elim (Bool-cases (live_player_count ps == 0)) [
    | inl none_live ↦
        absurd (win≢draw (Named-draw id win ps (assigned drawn ps id win (ground (arith, h)))))
    | inr some_live ↦
        let v = assigned (stood_alone (live_player_count ps)) ps id win (ground (arith, h)) in
        (alone (live_player_count ps) id ps v, Named-map id _ _ ps (λ p e. ground arith) v)
  ]
]

-- A solo match has one winner at most.
pub solo_winner_unique :
    (ps : List PlayerData) (i j : String)
    → lookup i (solo_game_end_results ps) ≡ some win
    → lookup j (solo_game_end_results ps) ≡ some win
    → i ≡ j
solo_winner_unique ps i j h k =
    let a = solo_winner ps i h in
    only_one_alive i j ps (omega (arith, a.0)) a.1 (solo_winner ps j k).1
