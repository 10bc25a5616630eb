-- ===== src/Simulation/Charges.antt =====
-- simulation.go and normal_attack.go: the charges of the normal attack.
-- `RechargeTicks` is at least one in a configuration that was validated; at zero the code panics.
use server_crawl_stars.Base.{
  ◌+◌, ◌-◌, ◌/◌, ◌%◌, String, Bool, true, false, Option, none, some, [], ◌∷◌, ltb, leb,
  if◌then◌else◌,
}
use server_crawl_stars.Base.Dict.{Dict, lookup, insert}
use server_crawl_stars.Simulation.Types.{NormalAttackConfig}
use server_crawl_stars.Simulation.Modes.{player_type}
use server_crawl_stars.Simulation.State.{AttackState, State, find_player}

-- `normalAttackConfig`
unfoldable pub normal_attack_config : String → State → Option NormalAttackConfig
unfolding find_player player_type
normal_attack_config id s = elim (find_player id s.players) [
  | none ↦ none
  | some player ↦ elim (player_type s.game_config player.character_type) [
    | none ↦ none
    | some kind ↦ some kind.normal_attack
  ]
]

-- The body of the loop of `rechargeAttackCharges` for one player.
unfoldable pub recharge : NormalAttackConfig → AttackState → AttackState
recharge attack a =
    let full : AttackState = record { charges = attack.max_charges; recharge_ticks = 0 } in
    let ticks = a.recharge_ticks + 1 in
    let restored = ticks / attack.recharge_ticks in
    let charges = if ltb 0 restored then a.charges + restored else a.charges in
    let left = if ltb 0 restored then ticks % attack.recharge_ticks else ticks in
    if leb attack.max_charges a.charges
    then full
    else if leb attack.max_charges charges
    then full
    else record { charges = charges; recharge_ticks = left }

unfoldable pub recharge_each : State → Dict AttackState → Dict AttackState
unfolding normal_attack_config recharge
recharge_each s [] = []
recharge_each s ((id, a) ∷ rest) =
    let next : AttackState = elim (normal_attack_config id s) [
      | none ↦ a
      | some attack ↦ recharge attack a
    ] in
    (id, next) ∷ recharge_each s rest

-- `rechargeAttackCharges`
unfoldable pub recharge_attack_charges : State → State
unfolding recharge_each
recharge_attack_charges s = record s { attack_states = recharge_each s s.attack_states }

-- `consumeAttackCharge`, by what the map holds.
unfoldable pub spend : String → Option AttackState → State → Bool × State
unfolding insert
spend id none s = (false, s)
spend id (some a) s =
    let spent : AttackState = record a { charges = a.charges - 1 } in
    if leb a.charges 0
    then (false, s)
    else (true, record s { attack_states = insert id spent s.attack_states })

unfoldable pub consume_attack_charge : String → State → Bool × State
unfolding lookup spend
consume_attack_charge id s = spend id (lookup id s.attack_states) s
