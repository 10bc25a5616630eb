-- ===== src/Simulation/Modes/Deal.antt =====
-- The rounds of the dealing of participants to teams (game_config.go, `matchTeamForPlayerIndex`).
use server_crawl_stars.Base.{
  ℕ, zero, suc, ◌+◌, ◌≤◌, ◌<◌, ◌≡◌, ◌⊎◌, inl, inr, String, Bool, true, false, List, [], ◌∷◌, arith,
  leb, ◌==◌, is_some, refl, Bool-cases,
}
use server_crawl_stars.Simulation.Types.{TeamConfig}
use server_crawl_stars.Simulation.Modes.{Round, found, passed, deal_round, deal}

Round-cases :
    (r : Round)
    → ((name : String) × (r ≡ found name)) ⊎ ((after : ℕ) × (q : Bool) × (r ≡ passed after q))
Round-cases (found name) = inl (name, refl)
Round-cases (passed after q) = inr (after, q, refl)

-- A round that passes the participant by has dealt to no one past it, and has moved on if it took one.
round_bounds :
    (index slot : ℕ) (teams : List TeamConfig) (assigned : ℕ) (p : Bool) (after : ℕ) (q : Bool)
    → assigned ≤ index
    → deal_round index slot teams assigned p ≡ passed after q
    → (assigned ≤ after) × (after ≤ index) × ((q ≡ true) → (p ≡ true) ⊎ (assigned < after))
unfolding deal_round
round_bounds index slot [] assigned p after q h e = ground arith
round_bounds index slot (team ∷ rest) assigned p after q h e =
    elim (Bool-cases (leb team.size slot)) [
      | inl full ↦
          let ih = round_bounds index slot rest assigned p after q h (ground arith) in
          ground (arith, ih)
      | inr open_place ↦
          let here : (assigned == index) ≡ false = ground arith in
          let ih =
            round_bounds index slot rest (assigned + 1) true after q (ground arith)
              (ground arith) in
          ground (arith, ih)
    ]

-- With fuel for every participant up to this one and one more round, the dealing gives an answer.
pub deal_enough :
    (fuel index slot : ℕ) (teams : List TeamConfig) (assigned : ℕ)
    → assigned ≤ index
    → index + 1 < fuel + assigned
    → is_some (deal fuel index slot teams assigned) ≡ true
unfolding deal
deal_enough zero index slot teams assigned h f = absurd (omega (arith, h, f))
deal_enough (suc fuel) index slot teams assigned h f =
    elim (Round-cases (deal_round index slot teams assigned false)) [
      | inl (name, e) ↦ ground (arith, e)
      | inr (after, q, e) ↦
          let b = round_bounds index slot teams assigned false after q h e in
          ground (arith, e, b, deal_enough fuel index (suc slot) teams after b.1)
    ]
