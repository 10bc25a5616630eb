-- ===== src/Simulation/Skills.antt =====
-- skill.go and simulation.go: the approval of a skill, its effects, and what an input comes to.
use server_crawl_stars.Base.{
  ℕ, ◌+◌, u64, String, true, not, ◌&&◌, ◌||◌, Option, none, some, List, [], ◌∷◌, ltb, ◌==◌,
  if◌then◌else◌, get_elem?, is_some,
}
use server_crawl_stars.Base.Dict.{lookup, insert, delete}
use server_crawl_stars.Simulation.Types.{
  NormalAttackConfig, pos, Float64, Vector2, PlayerData, GameConfig, SkillConfig, reload_dash,
  burst_projectile, teleport_projectile, ReloadDashSkillConfig, BurstProjectileSkillConfig,
  TeleportProjectileSkillConfig,
}
use server_crawl_stars.Simulation.Modes.{player_type}
use server_crawl_stars.Simulation.Floats.{Floats, zero_float, is_origin}
use server_crawl_stars.Simulation.State.{
  State, TimedDashState, ProjectileAttackSpec, activation, ProjectileEmission, AttackIntent,
  update_at,
}
use server_crawl_stars.Simulation.Charges.{normal_attack_config}
use server_crawl_stars.Simulation.Inputs.{PreparedInput}
use server_crawl_stars.Simulation.Attacks.{new_projectile_emission, start_burst, to_list}

-- The cooldown of a player's skill, none for an unknown character or a cooldown of zero.
unfoldable pub usable_skill : GameConfig → PlayerData → Option SkillConfig
unfolding player_type
usable_skill config p = elim (player_type config p.character_type) [
  | none ↦ none
  | some kind ↦ if kind.skill.cooldown_ticks == 0 then none else some kind.skill
]

-- `tryApproveSkill` on its player.
unfoldable pub try_approve_player : GameConfig → ℕ → PlayerData → Option (SkillConfig × PlayerData)
unfolding usable_skill
try_approve_player config tick p =
    if ltb tick p.skill_ready_tick then none else elim (usable_skill config p) [
      | none ↦ none
      | some skill ↦ some (
        skill,
        record p { pressed_skill = true; skill_ready_tick = u64 (tick + skill.cooldown_ticks) },
      )
    ]

-- `tryApproveSkill`; an index with no player, at which the code panics, approves nothing.
unfoldable pub try_approve_skill : ℕ → ℕ → State → Option (SkillConfig × State)
unfolding try_approve_player
try_approve_skill index tick s = elim (get_elem? s.players index) [
  | none ↦ none
  | some p ↦ elim (try_approve_player s.game_config tick p) [
    | none ↦ none
    | some (skill, approved) ↦
        some (skill, record s { players = update_at (λ q. approved) index s.players })
  ]
]

module _ (fl : Floats) where
  -- `resolvedTileSize`; the constant `TileSize` is 1.2.
  unfoldable pub resolved_tile_size : State → Float64
  resolved_tile_size s =
      if fl.less (zero_float fl) s.game_map.tile_size
      then s.game_map.tile_size
      else if fl.less (zero_float fl) s.game_config.tile_size
      then s.game_config.tile_size
      else fl.decimal 12 1

  -- The dash that an approved reload dash starts.
  abbrev pub timed_dash : Vector2 → ReloadDashSkillConfig → ℕ → State → TimedDashState
  timed_dash direction dash tick s =
      let distance = fl.mul dash.dash_distance_tiles (resolved_tile_size s) in
      record {
        direction = direction;
        step_distance = fl.div distance (fl.of_int (pos dash.dash_duration_ticks));
        remaining_ticks = dash.dash_duration_ticks;
        ready_tick = u64 (tick + dash.dash_duration_ticks);
      }

  -- The case of a reload dash: the player's charges come back, and the dash starts.
  unfoldable pub start_dash :
      Option NormalAttackConfig → String → Vector2 → ReloadDashSkillConfig → ℕ → State → State
  unfolding resolved_tile_size insert
  start_dash none id direction dash tick s = s
  start_dash (some attack) id direction dash tick s = record s {
    attack_states =
        insert id (record { charges = attack.max_charges; recharge_ticks = 0 }) s.attack_states;
    dash_states = insert id (timed_dash direction dash tick s) s.dash_states;
  }

  unfoldable pub dispatch_dash :
      String → Vector2 → ReloadDashSkillConfig → ℕ → State → List ProjectileEmission × State
  unfolding normal_attack_config start_dash
  dispatch_dash id direction dash tick s =
      ([], start_dash (normal_attack_config id s) id direction dash tick s)

  -- `skillProjectileAttackSpec`
  abbrev pub skill_projectile_attack_spec : BurstProjectileSkillConfig → ProjectileAttackSpec
  skill_projectile_attack_spec skill = record {
    damage_per_hit = skill.damage_per_hit;
    range_tiles = skill.range_tiles;
    projectile = skill.projectile;
    teleport_behind_distance_tiles = zero_float fl;
  }

  -- The case of a burst: with an unknown projectile there is no burst.
  unfoldable pub dispatch_burst :
      String → Vector2 → BurstProjectileSkillConfig → ℕ → State → List ProjectileEmission × State
  unfolding new_projectile_emission insert delete
  dispatch_burst id direction skill tick s =
      let attack = skill_projectile_attack_spec skill in
      let started = record s {
        burst_states = insert id (start_burst fl direction attack tick) s.burst_states;
      } in
      elim (new_projectile_emission id direction attack activation 0 tick started) [
        | none ↦ ([], record s { burst_states = delete id started.burst_states })
        | some emission ↦ (emission ∷ [], started)
      ]

  -- `skillTeleportProjectileAttackSpec`
  abbrev pub skill_teleport_projectile_attack_spec :
      TeleportProjectileSkillConfig → ProjectileAttackSpec
  skill_teleport_projectile_attack_spec skill = record {
    damage_per_hit = skill.damage_per_hit;
    range_tiles = skill.range_tiles;
    projectile = skill.projectile;
    teleport_behind_distance_tiles = skill.behind_distance_tiles;
  }

  -- `dispatchApprovedSkill` for the player that the index names.
  unfoldable pub dispatch_for :
      PlayerData → Vector2 → SkillConfig → ℕ → State → List ProjectileEmission × State
  unfolding dispatch_dash dispatch_burst new_projectile_emission
  dispatch_for p direction skill tick s = elim skill.kind [
    | reload_dash ↦ elim skill.reload_dash_config [
      | none ↦ ([], s)
      | some dash ↦ dispatch_dash p.id direction dash tick s
    ]
    | burst_projectile ↦ elim skill.burst_projectile_config [
      | none ↦ ([], s)
      | some burst ↦ dispatch_burst p.id direction burst tick s
    ]
    | teleport_projectile ↦ elim skill.teleport_projectile_config [
      | none ↦ ([], s)
      | some teleport ↦ (
        to_list (
            new_projectile_emission p.id direction (skill_teleport_projectile_attack_spec teleport)
              activation 0 tick s),
        s,
      )
    ]
  ]

  -- `dispatchApprovedSkill`
  unfoldable pub dispatch_approved_skill :
      ℕ → Vector2 → SkillConfig → ℕ → State → List ProjectileEmission × State
  unfolding dispatch_for
  dispatch_approved_skill index direction skill tick s = elim (get_elem? s.players index) [
    | none ↦ ([], s)
    | some p ↦ dispatch_for p direction skill tick s
  ]

  -- The attack that an input comes to, when no skill was approved.
  unfoldable pub attack_of : PreparedInput → State → Option AttackIntent
  unfolding normal_attack_config
  attack_of prepared s =
      let attack : Option AttackIntent = elim (normal_attack_config prepared.input.player_id s) [
        | none ↦ none
        | some config ↦ elim (get_elem? s.players prepared.player_index) [
          | none ↦ none
          | some owner ↦ some (record {
            player_index = prepared.player_index;
            owner = owner;
            direction = prepared.attack_dir;
            attack = config;
          })
        ]
      ] in
      if not prepared.input.pressed_attack || is_origin fl prepared.attack_dir then none else attack

  -- `applyPreparedInput`: the attack, the skill's emissions and the state.
  unfoldable pub apply_prepared_input :
      PreparedInput → ℕ → State → Option AttackIntent × List ProjectileEmission × State
  unfolding try_approve_skill dispatch_approved_skill attack_of lookup
  apply_prepared_input prepared tick s =
      let attack : Option AttackIntent × List ProjectileEmission × State =
        (attack_of prepared s, [], s) in
      if is_some (lookup prepared.input.player_id s.dash_states)
      then (none, [], s)
      else if prepared.input.pressed_skill && not (is_origin fl prepared.attack_dir)
      then elim (try_approve_skill prepared.player_index tick s) [
        | none ↦ attack
        | some (skill, approved) ↦
            let (emissions, after) =
              dispatch_approved_skill prepared.player_index prepared.attack_dir skill tick
                approved in
            (none, emissions, after)
      ]
      else attack
