-- ===== src/Simulation/Approvals.antt =====
-- What an approved input and an approved skill are (simulation.go, `prepareInput`; skill.go,
-- `tryApproveSkill`).
use server_crawl_stars.Base.{
  ℕ, ◌+◌, ◌≤◌, ◌<◌, ◌≡◌, str_eq, true, false, none, some, List, ◌∷◌, false, u64, arith, ◌⊎◌, ◌++◌,
  All, length,
}
use server_crawl_stars.Simulation.Types.{
  is_positive, leb_ℤ, GameConfig, InputCommand, PlayerData, SkillConfig,
}
use server_crawl_stars.Simulation.Floats.{Floats, is_finite}
use server_crawl_stars.Simulation.State.{State}
use server_crawl_stars.Simulation.Inputs.{
  PreparedInput, is_negative, prepare_player, prepared_input,
}
use server_crawl_stars.Simulation.Skills.{usable_skill, try_approve_player}

usable_skill-positive :
    (config : GameConfig) (p : PlayerData) (skill : SkillConfig)
    → usable_skill config p ≡ some skill
    → 1 ≤ skill.cooldown_ticks
unfolding usable_skill
usable_skill-positive config p skill e = ground arith

fits_u64 : (n : ℕ) → n < 18446744073709551616 → u64 n ≡ n
fits_u64 n h = omega arith

-- An approval at a tick: the tick has reached the ready tick, the skill has a cooldown, and until the
-- cooldown is over no other approval is given, where the ready tick fits 64 bits.
pub try_approve_player_cooldown :
    (config : GameConfig) (tick later : ℕ) (p after : PlayerData) (skill : SkillConfig)
    → try_approve_player config tick p ≡ some (skill, after)
    → tick + skill.cooldown_ticks < 18446744073709551616
    → later < tick + skill.cooldown_ticks
    → (p.skill_ready_tick ≤ tick)
      × (1 ≤ skill.cooldown_ticks)
      × (try_approve_player config later after ≡ none)
unfolding try_approve_player
try_approve_player_cooldown config tick later p after skill e fits early =
    ground
      (arith, usable_skill-positive config p skill, fits_u64 (tick + skill.cooldown_ticks) fits)

module _ (fl : Floats) where
  -- An input that a player takes: the player lives, both directions are finite, and the tick is zero,
  -- or positive and newer than the last one that was processed.
  abbrev pub Taken : InputCommand → PlayerData → Type 0
  Taken input p =
      (p.is_dead ≡ false)
      × (is_finite fl input.move_dir ≡ true)
      × (is_finite fl input.attack_dir ≡ true)
      × (is_negative input.client_tick ≡ false)
      × ((is_positive input.client_tick ≡ false)
          ⊎ (leb_ℤ input.client_tick p.last_processed_client_tick ≡ false))

  -- An input was prepared for a player that takes it and before whom no player has its id; of the
  -- players that one alone is written.
  abbrev pub Prepared :
      GameConfig → InputCommand → ℕ → List PlayerData → PreparedInput × List PlayerData → Type 0
  Prepared config input i ps (prepared, after) =
      (before : List PlayerData) × ((p : PlayerData) × ((rest : List PlayerData) × ((ps
              ≡ before ++ p ∷ rest)
            × All (λ q. str_eq q.id input.player_id ≡ false) before
            × (p.id ≡ input.player_id)
            × Taken input p
            × (prepared ≡ prepared_input fl config input (i + length before) p)
            × (after ≡ before ++ prepare_player fl input p ∷ rest))))
