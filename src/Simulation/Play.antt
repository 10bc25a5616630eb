-- ===== src/Simulation/Play.antt =====
-- The operations of a tick in any order and number (simulation.go, `Step` and `EliminatePlayers`), as
-- far as they are modelled, and the charges that they keep within their bounds.
use server_crawl_stars.Base.{
  ℕ, ◌≡◌, refl, sym, inl, inr, String, List, [], ◌∷◌, arith, Option-cases,
}
use server_crawl_stars.Base.Dict.{lookup}
use mathlib.Core.Path.{subst}
use server_crawl_stars.Simulation.Types.{InputCommand, NormalAttackKind}
use server_crawl_stars.Simulation.Floats.{Floats}
use server_crawl_stars.Simulation.State.{State, AttackIntent, MeleeIntent}
use server_crawl_stars.Simulation.Charges.{recharge_attack_charges, consume_attack_charge, spend}
use server_crawl_stars.Simulation.Recharge.{AllCharged, recharge_attack_charges-AllCharged}
use server_crawl_stars.Simulation.Inputs.{PreparedInput, prepare_turn}
use server_crawl_stars.Simulation.Attacks.{approve_melee_attack, approve_melee_of}
use server_crawl_stars.Simulation.Combat.{eliminate_players}
use server_crawl_stars.Simulation.Melee.{apply_melee_intents}
use server_crawl_stars.Simulation.Movement.{apply_player_movement}
use server_crawl_stars.Simulation.Skills.{apply_prepared_input}
use server_crawl_stars.Simulation.Kept.{
  Steady, Steady-AllCharged, Validated, prepare_turn-Steady, move-Steady, hits-Steady,
  eliminate-Steady, approve_melee_of-AllCharged, apply_prepared_input-AllCharged,
  apply_prepared_input_config,
}

pub data Act : Type 0 where
  recharges_charges : Act
  prepares : InputCommand → Act
  moves : List PreparedInput → Act
  applies : PreparedInput → ℕ → Act
  approves_melee : AttackIntent → Act
  hits : List MeleeIntent → Act
  eliminates : List String → Act

-- Configurations stay, and so do the bounds of the charges.
abbrev pub Sound : State → Type 0
Sound s = Validated s.game_config × AllCharged s

module _ (fl : Floats) where
  unfoldable pub act : Act → State → State
  unfolding recharge_attack_charges prepare_turn apply_player_movement apply_prepared_input
      approve_melee_attack apply_melee_intents eliminate_players
  act recharges_charges s = recharge_attack_charges s
  act (prepares input) s = (prepare_turn fl input ([], s)).1
  act (moves inputs) s = apply_player_movement fl inputs s
  act (applies prepared tick) s = (apply_prepared_input fl prepared tick s).2
  act (approves_melee intent) s = (approve_melee_attack intent s).1
  act (hits intents) s = apply_melee_intents fl intents s
  act (eliminates ids) s = eliminate_players fl ids s

  -- The acts stand from the first to the last.
  unfoldable pub play : List Act → State → State
  unfolding act
  play [] s = s
  play (a ∷ acts) s = play acts (act a s)

  Steady-Sound : (s s' : State) → Steady s s' → Sound s → Sound s'
  Steady-Sound s s' t h = (subst Validated (sym t.1) h.0, Steady-AllCharged s s' t h.1)

  melee_config :
      (intent : AttackIntent) (s : State) (kind : NormalAttackKind)
      → (approve_melee_of kind intent s).1.game_config ≡ s.game_config
  unfolding approve_melee_of consume_attack_charge spend
  melee_config intent s kind = elim (Option-cases (lookup intent.owner.id s.attack_states)) [
    | inl n ↦ ground arith
    | inr (a, e) ↦ ground arith
  ]

  recharge_config : (s : State) → s.game_config ≡ (recharge_attack_charges s).game_config
  unfolding recharge_attack_charges
  recharge_config s = refl

  recharge-Sound : (s : State) → Sound s → Sound (recharge_attack_charges s)
  recharge-Sound s h =
      (subst Validated (recharge_config s) h.0, recharge_attack_charges-AllCharged s h.1)

  approve-Sound :
      (intent : AttackIntent) (s : State) → Sound s → Sound ((approve_melee_attack intent s).1)
  unfolding approve_melee_attack
  approve-Sound intent s h = (
    subst Validated (sym (melee_config intent s intent.attack.kind)) h.0,
    approve_melee_of-AllCharged fl intent.attack.kind intent s h.1,
  )

  act-Sound : (a : Act) (s : State) → Sound s → Sound (act a s)
  unfolding act
  act-Sound recharges_charges s h = recharge-Sound s h
  act-Sound (prepares input) s h =
      Steady-Sound s ((prepare_turn fl input ([], s)).1) (prepare_turn-Steady fl input [] s) h
  act-Sound (moves inputs) s h =
      Steady-Sound s (apply_player_movement fl inputs s) (move-Steady fl inputs s) h
  act-Sound (applies prepared tick) s h = (
    subst Validated (sym (apply_prepared_input_config fl prepared tick s)) h.0,
    apply_prepared_input-AllCharged fl prepared tick s h.0 h.1,
  )
  act-Sound (approves_melee intent) s h = approve-Sound intent s h
  act-Sound (hits intents) s h =
      Steady-Sound s (apply_melee_intents fl intents s) (hits-Steady fl intents s) h
  act-Sound (eliminates ids) s h =
      Steady-Sound s (eliminate_players fl ids s) (eliminate-Steady fl ids s) h

  -- However often and in whatever order charges come back and inputs are prepared, moved and applied,
  -- skills and melee attacks are approved, hits land and players are eliminated: from a state in which
  -- every configured attack takes at least a tick to come back, and in which each entry of the attack
  -- states whose attack is known holds no more charges than the attack allows and has waited less than
  -- its recharge time, every state that is reached is such a state.
  pub play-Sound : (acts : List Act) (s : State) → Sound s → Sound (play acts s)
  unfolding play
  play-Sound [] s h = h
  play-Sound (a ∷ acts) s h = play-Sound acts (act a s) (act-Sound a s h)
