-- ===== src/Simulation/Kept.antt =====
-- The bounds of the charges across the operations of a tick (simulation.go, skill.go,
-- normal_attack.go, melee.go).
use server_crawl_stars.Base.{
  ℕ, ◌≤◌, ◌≡◌, ◌⊎◌, refl, ap, sym, ◌∙◌, inl, inr, String, Option, none, some, List, [], ◌∷◌, arith,
  get_elem?, Option-cases, All, if_keep,
}
use server_crawl_stars.Base.Dict.{Dict, All-insert}
use mathlib.Core.Path.{subst}
use server_crawl_stars.Simulation.Types.{
  GameConfig, InputCommand, PlayerData, PlayerTypeConfig, NormalAttackConfig, SkillConfig, Vector2,
  burst_projectile, ReloadDashSkillConfig, melee, spread_projectile, NormalAttackKind,
}
use server_crawl_stars.Simulation.Modes.{player_type, find_player_type}
use server_crawl_stars.Simulation.Floats.{Floats}
use server_crawl_stars.Simulation.State.{
  State, AttackState, AttackIntent, MeleeIntent, ProjectileEmission,
}
use server_crawl_stars.Simulation.Charges.{normal_attack_config, consume_attack_charge}
use server_crawl_stars.Simulation.Recharge.{
  ChargedEntry, AllCharged, consume_attack_charge-AllCharged,
}
use server_crawl_stars.Simulation.Inputs.{PreparedInput, prepare_from, prepare_input, prepare_turn}
use server_crawl_stars.Simulation.Attacks.{press_attack, approve_melee_of}
use server_crawl_stars.Simulation.Combat.{eliminate_players}
use server_crawl_stars.Simulation.Hits.{eliminate_players_lem}
use server_crawl_stars.Simulation.Melee.{apply_melee_intents}
use server_crawl_stars.Simulation.Movement.{apply_player_movement}
use server_crawl_stars.Simulation.Skills.{
  try_approve_player, try_approve_skill, start_dash, dispatch_dash, dispatch_burst, dispatch_for,
  dispatch_approved_skill, apply_prepared_input,
}
use server_crawl_stars.Simulation.Kinds.{
  kinds, attack_by, normal_attack_config-kinds, kinds-update_at, kinds-replace, kinds-prepare_from,
  kinds-place, kinds-apply_damage, kinds-eliminated, try_approve_player-kinds,
}

-- Nothing that the bounds of the charges depend on has changed.
abbrev pub Steady : State → State → Type 0
Steady s s' =
    (kinds s'.players ≡ kinds s.players)
    × (s'.game_config ≡ s.game_config)
    × (s'.attack_states ≡ s.attack_states)

same_attack :
    (id : String) (s s' : State)
    → kinds s'.players ≡ kinds s.players
    → s'.game_config ≡ s.game_config
    → normal_attack_config id s' ≡ normal_attack_config id s
same_attack id s s' k c =
    normal_attack_config-kinds id s'
    ∙ ap (λ config. attack_by config id (kinds s'.players)) c
    ∙ ap (attack_by s.game_config id) k
    ∙ sym (normal_attack_config-kinds id s)

entries_same :
    (s s' : State) (entries : Dict AttackState)
    → kinds s'.players ≡ kinds s.players
    → s'.game_config ≡ s.game_config
    → All (ChargedEntry s) entries
    → All (ChargedEntry s') entries
entries_same s s' [] k c h = tt
entries_same s s' ((id, a) ∷ rest) k c (inl e, h) =
    (inl (same_attack id s s' k c ∙ e), entries_same s s' rest k c h)
entries_same s s' ((id, a) ∷ rest) k c (inr (attack, known), h) =
    (inr (attack, (same_attack id s s' k c ∙ known.0, known.1)), entries_same s s' rest k c h)

pub Steady-AllCharged : (s s' : State) → Steady s s' → AllCharged s → AllCharged s'
Steady-AllCharged s s' t h =
    subst (All (ChargedEntry s')) (sym t.2) (entries_same s s' s.attack_states t.0 t.1 h)

-- A configuration in which every attack takes at least a tick to come back, as the validation wants.
abbrev pub Validated : GameConfig → Type 0
Validated config = All (λ t. 1 ≤ t.normal_attack.recharge_ticks) config.player_types

module _ (fl : Floats) where
  pub prepare_turn-Steady :
      (input : InputCommand) (prepared : List PreparedInput) (s : State)
      → Steady s ((prepare_turn fl input (prepared, s)).1)
  unfolding prepare_turn prepare_input
  prepare_turn-Steady input prepared s =
      elim (Option-cases (prepare_from fl s.game_config input 0 s.players)) [
        | inl n ↦ ground arith
        | inr (r, e) ↦ ground (arith, kinds-prepare_from fl s.game_config input 0 s.players r e)
      ]

  pub move-Steady :
      (inputs : List PreparedInput) (s : State) → Steady s (apply_player_movement fl inputs s)
  unfolding apply_player_movement
  move-Steady inputs s = (kinds-place fl _ s.players, refl, refl)

  pub hits-Steady :
      (intents : List MeleeIntent) (s : State) → Steady s (apply_melee_intents fl intents s)
  unfolding apply_melee_intents
  hits-Steady [] s = (refl, refl, refl)
  hits-Steady (i ∷ is) s = (kinds-apply_damage fl _ s.players, refl, refl)

  pub eliminate-Steady : (ids : List String) (s : State) → Steady s (eliminate_players fl ids s)
  unfolding eliminate_players
  eliminate-Steady [] s = (refl, refl, refl)
  eliminate-Steady (i ∷ ids) s = (
    ap kinds ((eliminate_players_lem fl (i ∷ ids) s i).0) ∙ kinds-eliminated fl (i ∷ ids) s.players,
    refl,
    refl,
  )

  pub press-Steady : (i : ℕ) (s : State) → Steady s (press_attack i s)
  press-Steady i s = (kinds-update_at _ i s.players (λ p. refl) (λ p. refl), refl, refl)

  pub approve_melee_of-AllCharged :
      (kind : NormalAttackKind) (intent : AttackIntent) (s : State)
      → AllCharged s
      → AllCharged ((approve_melee_of kind intent s).1)
  unfolding approve_melee_of
  approve_melee_of-AllCharged melee intent s h =
      let after : State = (consume_attack_charge intent.owner.id s).1 in
      let spent : AllCharged after = consume_attack_charge-AllCharged intent.owner.id s h in
      if_keep (λ (r : Option MeleeIntent × State). AllCharged r.1)
        ((consume_attack_charge intent.owner.id s).0)
        (λ e.
          Steady-AllCharged after (press_attack intent.player_index after)
            (press-Steady intent.player_index after) spent)
        (λ e. spent)
  approve_melee_of-AllCharged spread_projectile intent s h = h
  approve_melee_of-AllCharged burst_projectile intent s h = h

  positive_type :
      (c : ℕ) (ts : List PlayerTypeConfig) (t : PlayerTypeConfig)
      → All (λ u. 1 ≤ u.normal_attack.recharge_ticks) ts
      → find_player_type c ts ≡ some t
      → 1 ≤ t.normal_attack.recharge_ticks
  unfolding find_player_type
  positive_type c [] t v e = absurd (ground arith)
  positive_type c (u ∷ ts) t (v, vs) e = ground (arith, positive_type c ts t vs)

  positive_attack :
      (config : GameConfig) (id : String) (ks : List (String × ℕ)) (attack : NormalAttackConfig)
      → Validated config
      → attack_by config id ks ≡ some attack
      → 1 ≤ attack.recharge_ticks
  unfolding player_type
  positive_attack config id [] attack v e = absurd (ground arith)
  positive_attack config id ((i, c) ∷ ks) attack v e =
      elim (Option-cases (find_player_type c config.player_types)) [
        | inl n ↦ ground (arith, positive_attack config id ks attack v)
        | inr (t, f) ↦ ground (
          arith,
          positive_attack config id ks attack v,
          positive_type c config.player_types t v f,
        )
      ]

  start_dash-AllCharged :
      (found : Option NormalAttackConfig) (id : String) (direction : Vector2)
      (dash : ReloadDashSkillConfig) (tick : ℕ) (s : State)
      → normal_attack_config id s ≡ found
      → Validated s.game_config
      → AllCharged s
      → AllCharged (start_dash fl found id direction dash tick s)
  unfolding start_dash normal_attack_config
  start_dash-AllCharged none id direction dash tick s e v h = h
  start_dash-AllCharged (some attack) id direction dash tick s e v h =
      let full : AttackState = record { charges = attack.max_charges; recharge_ticks = 0 } in
      let positive : 1 ≤ attack.recharge_ticks =
        positive_attack s.game_config id (kinds s.players) attack v
          (sym (normal_attack_config-kinds id s) ∙ e) in
      All-insert (ChargedEntry s) id full s.attack_states
        (inr (attack, (e, (omega arith, omega (arith, positive))))) h

  -- A skill that starts no dash leaves the charges.
  dispatch_for_cases :
      (p : PlayerData) (direction : Vector2) (skill : SkillConfig) (tick : ℕ) (s : State)
      → ((dash : ReloadDashSkillConfig) × ((dispatch_for fl p direction skill tick s).1
            ≡ (dispatch_dash fl p.id direction dash tick s).1))
        ⊎ Steady s ((dispatch_for fl p direction skill tick s).1)
  unfolding dispatch_for dispatch_burst
  dispatch_for_cases p direction skill tick s = elim (Option-cases skill.reload_dash_config) [
    | inl n ↦ inr (ground arith)
    | inr (dash, e) ↦
        let either : ((dispatch_for fl p direction skill tick s).1
              ≡ (dispatch_dash fl p.id direction dash tick s).1)
            ⊎ Steady s ((dispatch_for fl p direction skill tick s).1) =
          ground arith in
        elim either [ inl same ↦ inl (dash, same) | inr steady ↦ inr steady ]
  ]

  dispatch_for-AllCharged :
      (p : PlayerData) (direction : Vector2) (skill : SkillConfig) (tick : ℕ) (s : State)
      → Validated s.game_config
      → AllCharged s
      → AllCharged ((dispatch_for fl p direction skill tick s).1)
  unfolding dispatch_dash
  dispatch_for-AllCharged p direction skill tick s v h =
      elim (dispatch_for_cases p direction skill tick s) [
        | inl (dash, same) ↦ subst AllCharged (sym same) (
            start_dash-AllCharged (normal_attack_config p.id s) p.id direction dash tick s refl v h)
        | inr steady ↦ Steady-AllCharged s ((dispatch_for fl p direction skill tick s).1) steady h
      ]

  dispatch_approved_skill-AllCharged :
      (index : ℕ) (direction : Vector2) (skill : SkillConfig) (tick : ℕ) (s : State)
      → Validated s.game_config
      → AllCharged s
      → AllCharged ((dispatch_approved_skill fl index direction skill tick s).1)
  unfolding dispatch_approved_skill
  dispatch_approved_skill-AllCharged index direction skill tick s v h =
      elim (get_elem? s.players index)
        as (λ (o : Option PlayerData). AllCharged (
          (elim o as (λ x. List ProjectileEmission × State) [
            | none ↦ ([], s)
            | some p ↦ dispatch_for fl p direction skill tick s
          ]).1)) [ none ↦ h | some p ↦ dispatch_for-AllCharged p direction skill tick s v h ]

  try_approve_skill-Steady :
      (index tick : ℕ) (s s' : State) (skill : SkillConfig)
      → try_approve_skill index tick s ≡ some (skill, s')
      → Steady s s'
  unfolding try_approve_skill
  try_approve_skill-Steady index tick s s' skill e =
      elim (Option-cases (get_elem? s.players index)) [
        | inl n ↦ absurd (ground arith)
        | inr (p, g) ↦ elim (Option-cases (try_approve_player s.game_config tick p)) [
          | inl n ↦ absurd (ground arith)
          | inr (r, f) ↦
              let (same_id, same_type) = try_approve_player-kinds s.game_config tick p r.1 r.0 f in
              ground (arith, kinds-replace r.1 p index s.players g same_id same_type)
        ]
      ]

  apply_prepared_input_cases :
      (prepared : PreparedInput) (tick : ℕ) (s : State) (skill : SkillConfig) (approved : State)
      → try_approve_skill prepared.player_index tick s ≡ some (skill, approved)
      → ((apply_prepared_input fl prepared tick s).2 ≡ s)
        ⊎ ((apply_prepared_input fl prepared tick s).2
            ≡ (dispatch_approved_skill fl prepared.player_index prepared.attack_dir skill tick
                approved).1)
  unfolding apply_prepared_input
  apply_prepared_input_cases prepared tick s skill approved e = ground arith

  apply_prepared_input_plain :
      (prepared : PreparedInput) (tick : ℕ) (s : State)
      → try_approve_skill prepared.player_index tick s ≡ none
      → (apply_prepared_input fl prepared tick s).2 ≡ s
  unfolding apply_prepared_input
  apply_prepared_input_plain prepared tick s e = ground arith

  pub apply_prepared_input-AllCharged :
      (prepared : PreparedInput) (tick : ℕ) (s : State)
      → Validated s.game_config
      → AllCharged s
      → AllCharged ((apply_prepared_input fl prepared tick s).2)
  apply_prepared_input-AllCharged prepared tick s v h =
      elim (Option-cases (try_approve_skill prepared.player_index tick s)) [
        | inl n ↦ subst AllCharged (sym (apply_prepared_input_plain prepared tick s n)) h
        | inr (r, e) ↦
            let steady : Steady s r.1 =
              try_approve_skill-Steady prepared.player_index tick s r.1 r.0 e in
            elim (apply_prepared_input_cases prepared tick s r.0 r.1 e) [
              | inl same ↦ subst AllCharged (sym same) h
              | inr after ↦ subst AllCharged (sym after) (
                  dispatch_approved_skill-AllCharged prepared.player_index prepared.attack_dir r.0
                    tick r.1 (subst Validated (sym steady.1) v) (Steady-AllCharged s r.1 steady h))
            ]
      ]

  dispatch_config :
      (p : PlayerData) (direction : Vector2) (skill : SkillConfig) (tick : ℕ) (s : State)
      → (dispatch_for fl p direction skill tick s).1.game_config ≡ s.game_config
  unfolding dispatch_for dispatch_burst dispatch_dash start_dash
  dispatch_config p direction skill tick s = ground arith

  dispatch_approved_config :
      (index : ℕ) (direction : Vector2) (skill : SkillConfig) (tick : ℕ) (s : State)
      → (dispatch_approved_skill fl index direction skill tick s).1.game_config ≡ s.game_config
  unfolding dispatch_approved_skill
  dispatch_approved_config index direction skill tick s =
      elim (Option-cases (get_elem? s.players index)) [
        | inl n ↦ ground arith
        | inr (p, e) ↦ ground (arith, dispatch_config p direction skill tick s)
      ]

  pub apply_prepared_input_config :
      (prepared : PreparedInput) (tick : ℕ) (s : State)
      → (apply_prepared_input fl prepared tick s).2.game_config ≡ s.game_config
  apply_prepared_input_config prepared tick s =
      elim (Option-cases (try_approve_skill prepared.player_index tick s)) [
        | inl n ↦ ap (λ t. t.game_config) (apply_prepared_input_plain prepared tick s n)
        | inr (r, e) ↦ elim (apply_prepared_input_cases prepared tick s r.0 r.1 e) [
          | inl same ↦ ap (λ t. t.game_config) same
          | inr after ↦
              ap (λ t. t.game_config) after
              ∙ dispatch_approved_config prepared.player_index prepared.attack_dir r.0 tick r.1
              ∙ (try_approve_skill-Steady prepared.player_index tick s r.1 r.0 e).1
        ]
      ]
