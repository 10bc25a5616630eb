-- ===== src/Rooms/GameEnd/Results.antt =====
-- The results that a loop over the players writes, and those that were final before (game_end.go).
use server_crawl_stars.Base.{
  ◌≡◌, ◌⊎◌, inl, inr, ◌≢◌, String, not, ◌&&◌, List, [], ◌∷◌, Option, none, some, arith, eq_iff,
  if◌then◌else◌, Option-cases, Any,
}
use server_crawl_stars.Base.Dict.{Dict, lookup, insert, has_key, Unique, lookup-insert}
use server_crawl_stars.Simulation.Types.{PlayerData}
use server_crawl_stars.Rooms.Types.{GameEndResult}
use server_crawl_stars.Rooms.GameEnd.{assign, claim_finalized}

-- A result that the loop leaves comes from before or from a player of that name.
pub assign_sound :
    (verdict : PlayerData → Option GameEndResult) (ps : List PlayerData) (m : Dict GameEndResult)
    (id : String) (r : GameEndResult)
    → lookup id (assign verdict ps m) ≡ some r
    → (lookup id m ≡ some r) ⊎ Any (λ p. (p.id ≡ id) × (verdict p ≡ some r)) ps
unfolding assign
assign_sound verdict [] m id r h = inl h
assign_sound verdict (p ∷ ps) m id r h = elim (Option-cases (verdict p)) [
  | inl e ↦ ground (arith, assign_sound verdict ps m id r)
  | inr (v, e) ↦ ground (
    arith,
    assign_sound verdict ps (insert p.id v m) id r,
    lookup-insert p.id id v m,
    eq_iff p.id id,
  )
]

-- A result that stands before the loop is replaced at most.
pub assign_keeps :
    (verdict : PlayerData → Option GameEndResult) (ps : List PlayerData) (m : Dict GameEndResult)
    (id : String)
    → lookup id m ≢ none
    → lookup id (assign verdict ps m) ≢ none
unfolding assign
assign_keeps verdict [] m id h = h
assign_keeps verdict (p ∷ ps) m id h = elim (Option-cases (verdict p)) [
  | inl e ↦ ground (arith, assign_keeps verdict ps m id h)
  | inr (v, e) ↦
      ground (arith, assign_keeps verdict ps (insert p.id v m) id, lookup-insert p.id id v m)
]

-- A player with a verdict gets a result.
pub assign_complete :
    (verdict : PlayerData → Option GameEndResult) (ps : List PlayerData) (m : Dict GameEndResult)
    (id : String)
    → Any (λ p. (p.id ≡ id) × (verdict p ≢ none)) ps
    → lookup id (assign verdict ps m) ≢ none
unfolding assign
assign_complete verdict [] m id h = absurd h
assign_complete verdict (p ∷ ps) m id (inr h) = assign_complete verdict ps _ id h
assign_complete verdict (p ∷ ps) m id (inl h) = elim (Option-cases (verdict p)) [
  | inl e ↦ absurd (h.1 e)
  | inr (v, e) ↦ ground (
    arith,
    assign_keeps verdict ps (insert p.id v m) id,
    lookup-insert p.id id v m,
    eq_iff p.id id,
  )
]

-- One claim keeps every result that was final and adds the new ones; what it returns are those added.
pub claim_finalized_lem :
    (results claimed finalized : Dict GameEndResult) (id : String)
    → Unique results
    → (lookup id (claim_finalized results claimed finalized).1
        ≡ (if has_key id finalized then lookup id finalized else lookup id results))
      × (lookup id (claim_finalized results claimed finalized).0 ≡ (
          if has_key id results && not (has_key id finalized)
          then lookup id results
          else lookup id claimed))
unfolding claim_finalized lookup
claim_finalized_lem [] claimed finalized id u = ground arith
claim_finalized_lem ((j, r) ∷ results) claimed finalized id u =
    elim (Option-cases (lookup j finalized)) [
      | inl e ↦ ground (
        arith,
        claim_finalized_lem results (insert j r claimed) (insert j r finalized) id u.1,
        lookup-insert j id r claimed,
        lookup-insert j id r finalized,
        eq_iff j id,
      )
      | inr (v, e) ↦
          ground (arith, claim_finalized_lem results claimed finalized id u.1, eq_iff j id)
    ]
