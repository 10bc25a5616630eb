-- ===== src/Simulation/Recharge.antt =====
-- The bounds of the charges and the rate at which they come back (simulation.go,
-- `rechargeAttackCharges`, `consumeAttackCharge`).
use server_crawl_stars.Base.{
  ℕ, zero, suc, ◌+◌, ◌-◌, ◌/◌, ◌%◌, ◌≤◌, ◌<◌, ◌≡◌, refl, ap, ◌∙◌, String, str_eq, eq_iff,
  Bool-cases, Bool, true, false, Option, none, some, [], ◌∷◌, leb, if◌then◌else◌, arith, if_keep,
  inl, inr, ◌⊎◌, All,
}
use server_crawl_stars.Base.Dict.{Dict, lookup, lookup-insert, All-lookup, All-insert}
use server_crawl_stars.Simulation.Types.{NormalAttackConfig}
use server_crawl_stars.Simulation.State.{AttackState, State}
use server_crawl_stars.Simulation.Charges.{
  normal_attack_config, recharge, recharge_each, recharge_attack_charges, consume_attack_charge,
  spend,
}
use native.Mathlib.Nat.{div-eq_of_lt, div_self, mod_self, add-div_left}
use mathlib.Core.Path.{subst}

-- A player's charges: at most all of them, and less than a whole charge is coming.
abbrev pub Charged : NormalAttackConfig → AttackState → Type 0
Charged attack a = (a.charges ≤ attack.max_charges) × (a.recharge_ticks < attack.recharge_ticks)

-- One tick with room for a charge: one more tick, or one more charge.
recharge_tick :
    (attack : NormalAttackConfig) (a : AttackState)
    → a.charges < attack.max_charges
    → suc a.recharge_ticks < attack.recharge_ticks
    → recharge attack a ≡ record a { recharge_ticks = a.recharge_ticks + 1 }
unfolding recharge
recharge_tick attack a m h =
    let none_yet : (a.recharge_ticks + 1) / attack.recharge_ticks ≡ 0 =
      div-eq_of_lt (omega (arith, h)) in
    ground (arith, none_yet)

recharge_whole :
    (attack : NormalAttackConfig) (a : AttackState)
    → a.charges < attack.max_charges
    → suc a.recharge_ticks ≡ attack.recharge_ticks
    → recharge attack a ≡ record { charges = a.charges + 1; recharge_ticks = 0 }
unfolding recharge
recharge_whole attack a m h =
    let all : a.recharge_ticks + 1 ≡ attack.recharge_ticks = omega (arith, h) in
    let one : (a.recharge_ticks + 1) / attack.recharge_ticks ≡ 1 =
      ap (λ k. k / attack.recharge_ticks) all ∙ div_self (omega (arith, h)) in
    let none_left : (a.recharge_ticks + 1) % attack.recharge_ticks ≡ 0 =
      ap (λ k. k % attack.recharge_ticks) all ∙ mod_self attack.recharge_ticks in
    ground (arith, one, none_left)

recharge_full :
    (attack : NormalAttackConfig) (a : AttackState)
    → attack.max_charges ≤ a.charges
    → recharge attack a ≡ record { charges = attack.max_charges; recharge_ticks = 0 }
unfolding recharge
recharge_full attack a h = ground arith

-- The three cases of a tick.
recharge_cases :
    (attack : NormalAttackConfig) (a : AttackState)
    → Charged attack a
    → ((attack.max_charges ≤ a.charges)
        × (recharge attack a ≡ record { charges = attack.max_charges; recharge_ticks = 0 }))
      ⊎ (((a.charges < attack.max_charges)
            × (suc a.recharge_ticks < attack.recharge_ticks)
            × (recharge attack a ≡ record a { recharge_ticks = a.recharge_ticks + 1 }))
          ⊎ ((a.charges < attack.max_charges)
              × (suc a.recharge_ticks ≡ attack.recharge_ticks)
              × (recharge attack a ≡ record { charges = a.charges + 1; recharge_ticks = 0 })))
recharge_cases attack a c =
    ground (arith, recharge_full attack a, recharge_tick attack a, recharge_whole attack a)

pub recharge-Charged :
    (attack : NormalAttackConfig) (a : AttackState)
    → Charged attack a
    → Charged attack (recharge attack a)
recharge-Charged attack a c = ground (arith, recharge_cases attack a c)

-- `n` ticks of the recharge.
abbrev pub recharges : ℕ → NormalAttackConfig → AttackState → AttackState
recharges zero attack a = a
recharges (suc n) attack a = recharges n attack (recharge attack a)

abbrev pub at_most : ℕ → ℕ → ℕ
at_most limit n = if leb limit n then limit else n

-- After n ticks a player has, up to the most it can hold, the charges it had and one for each whole
-- recharge time in the ticks that it had waited and these n.
pub recharges-at_most :
    (n : ℕ) (attack : NormalAttackConfig) (a : AttackState)
    → Charged attack a
    → (recharges n attack a).charges
      ≡ at_most attack.max_charges (a.charges + (a.recharge_ticks + n) / attack.recharge_ticks)
recharges-at_most zero attack a c =
    let none_yet : (a.recharge_ticks + 0) / attack.recharge_ticks ≡ 0 =
      div-eq_of_lt (omega (arith, c.1)) in
    ground (arith, none_yet)
recharges-at_most (suc n) attack a c =
    let r = attack.recharge_ticks in
    let from : (b : AttackState)
        → recharge attack a ≡ b
        → (recharges n attack (recharge attack a)).charges
          ≡ at_most attack.max_charges (b.charges + (b.recharge_ticks + n) / r) =
      λ b e.
        subst
          (λ b'.
            (recharges n attack (recharge attack a)).charges
            ≡ at_most attack.max_charges (b'.charges + (b'.recharge_ticks + n) / r))
          e (recharges-at_most n attack (recharge attack a) (recharge-Charged attack a c)) in
    elim (recharge_cases attack a c) [
      | inl full ↦ ground (arith, from _ full.1)
      | inr (inl tick) ↦
          let same : (a.recharge_ticks + 1 + n) / r ≡ (a.recharge_ticks + suc n) / r =
            ap (λ k. k / r) (omega arith) in
          ground (arith, from _ tick.2, same)
      | inr (inr whole) ↦
          let one_more : (a.recharge_ticks + suc n) / r ≡ n / r + 1 =
            ap (λ k. k / r) (omega (arith, whole.1)) ∙ add-div_left n (omega (arith, c.1)) in
          let none : (0 + n) / r ≡ n / r = ap (λ k. k / r) (omega arith) in
          ground (arith, from _ whole.2, one_more, none)
    ]

-- The charges of a player whose attack is known.
abbrev pub ChargedEntry : State → String × AttackState → Type 0
ChargedEntry s (id, a) =
    (normal_attack_config id s ≡ none)
    ⊎ ((attack : NormalAttackConfig) × ((normal_attack_config id s ≡ some attack)
          × Charged attack a))

-- Over every player.
abbrev pub AllCharged : State → Type 0
AllCharged s = All (ChargedEntry s) s.attack_states

recharge_each-ChargedEntry :
    (s : State) (states : Dict AttackState)
    → All (ChargedEntry s) states
    → All (ChargedEntry s) (recharge_each s states)
unfolding recharge_each
recharge_each-ChargedEntry s [] h = tt
recharge_each-ChargedEntry s ((id, a) ∷ rest) (inl e, h) =
    (inl e, recharge_each-ChargedEntry s rest h)
recharge_each-ChargedEntry s ((id, a) ∷ rest) (inr (attack, known), h) = (
  inr (attack, (known.0, simp (known.0) (recharge-Charged attack a known.1))),
  recharge_each-ChargedEntry s rest h,
)

-- A tick's recharge keeps every known player's charges within what its attack allows, and less than
-- one recharge time waited.
pub recharge_attack_charges-AllCharged :
    (s : State) → AllCharged s → AllCharged (recharge_attack_charges s)
unfolding recharge_attack_charges normal_attack_config
recharge_attack_charges-AllCharged s h = recharge_each-ChargedEntry s s.attack_states h

spend-ChargedEntry :
    (s : State) (id : String) (a : AttackState)
    → ChargedEntry s (id, a)
    → ChargedEntry s (id, record a { charges = a.charges - 1 })
spend-ChargedEntry s id a (inl e) = inl e
spend-ChargedEntry s id a (inr (attack, known)) =
    inr (attack, (known.0, (omega (arith, known.1.0), known.1.1)))

-- What became of the charges: none to spend and the same state, or one less of this player, and of no
-- other player and of nothing else.
abbrev pub Spent : String → State → Option AttackState → Bool × State → Type 0
Spent id s none after = after ≡ (false, s)
Spent id s (some a) after =
    ((a.charges ≡ 0) × (after ≡ (false, s)))
    ⊎ ((1 ≤ a.charges)
        × (after.0 ≡ true)
        × (after.1 ≡ record s { attack_states = after.1.attack_states })
        × ((other : String)
            → lookup other after.1.attack_states ≡ (
                if str_eq other id
                then some (record a { charges = a.charges - 1 })
                else lookup other s.attack_states)))

spend-Spent :
    (id : String) (found : Option AttackState) (s : State) → Spent id s found (spend id found s)
unfolding spend
spend-Spent id none s = refl
spend-Spent id (some a) s =
    let left : AttackState = record a { charges = a.charges - 1 } in
    elim (Bool-cases (leb a.charges 0)) [
      | inl none_left ↦ simp none_left (inl (ground arith, refl))
      | inr some_left ↦ simp some_left (
          inr (
            ground arith,
            refl,
            refl,
            λ other. ground (
              arith,
              lookup-insert id other left s.attack_states,
              eq_iff id other,
              eq_iff other id,
            ),
          ))
    ]

-- An approved attack spends exactly one charge of its player and changes nothing else, the charges of
-- the other players included; a player that the map does not know or that has no charge left is
-- refused, and the state stays.
pub consume_attack_charge-Spent :
    (id : String) (s : State) → Spent id s (lookup id s.attack_states) (consume_attack_charge id s)
unfolding consume_attack_charge
consume_attack_charge-Spent id s = spend-Spent id (lookup id s.attack_states) s

spend-AllCharged :
    (id : String) (found : Option AttackState) (s : State)
    → lookup id s.attack_states ≡ found
    → AllCharged s
    → AllCharged ((spend id found s).1)
unfolding spend normal_attack_config
spend-AllCharged id none s e h = h
spend-AllCharged id (some a) s e h =
    if_keep (λ (r : Bool × State). AllCharged r.1) (leb a.charges 0) (λ b. h)
      (λ b.
        All-insert (ChargedEntry s) id (record a { charges = a.charges - 1 }) s.attack_states
          (spend-ChargedEntry s id a (All-lookup (ChargedEntry s) id a s.attack_states h e)) h)

-- Spending a charge keeps every player's charges within their bounds.
pub consume_attack_charge-AllCharged :
    (id : String) (s : State) → AllCharged s → AllCharged ((consume_attack_charge id s).1)
unfolding consume_attack_charge
consume_attack_charge-AllCharged id s h = spend-AllCharged id (lookup id s.attack_states) s refl h
