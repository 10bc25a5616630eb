-- ===== src/Simulation/Kinds.antt =====
-- The ids and the character types of the players across preparation, movement, damage, elimination and
-- the approval of skills (simulation.go, melee.go, skill.go).
use server_crawl_stars.Base.{
  ℕ, zero, suc, ◌+◌, ◌≡◌, refl, ap, ◌∙◌, String, str_eq, Option, none, some, List, [], ◌∷◌, map,
  arith, if◌then◌else◌, get_elem?, Bool-cases, Option-cases, inl, inr,
}
use server_crawl_stars.Simulation.Types.{
  GameConfig, InputCommand, PlayerData, NormalAttackConfig, Float64, SkillConfig,
}
use server_crawl_stars.Simulation.Modes.{player_type}
use server_crawl_stars.Simulation.Floats.{Floats}
use server_crawl_stars.Simulation.State.{State, find_player, update_at}
use server_crawl_stars.Simulation.Charges.{normal_attack_config}
use server_crawl_stars.Simulation.Inputs.{PreparedInput, prepare_player, prepare_from}
use server_crawl_stars.Simulation.Combat.{take_damage}
use server_crawl_stars.Simulation.Hits.{eliminated}
use server_crawl_stars.Simulation.Melee.{apply_damage}
use server_crawl_stars.Simulation.Movement.{Candidate, place}
use server_crawl_stars.Simulation.Skills.{try_approve_player}

abbrev pub kinds : List PlayerData → List (String × ℕ)
kinds [] = []
kinds (p ∷ ps) = (p.id, p.character_type) ∷ kinds ps

abbrev pub attack_by : GameConfig → String → List (String × ℕ) → Option NormalAttackConfig
attack_by config id [] = none
attack_by config id ((i, c) ∷ rest) =
    let later = attack_by config id rest in
    let here : Option NormalAttackConfig = elim (player_type config c) [
      | none ↦ none
      | some kind ↦ some kind.normal_attack
    ] in
    if str_eq i id then here else later

abbrev attack_found : GameConfig → Option PlayerData → Option NormalAttackConfig
attack_found config none = none
attack_found config (some player) = elim (player_type config player.character_type) [
  | none ↦ none
  | some kind ↦ some kind.normal_attack
]

attack_found-kinds :
    (config : GameConfig) (id : String) (ps : List PlayerData)
    → attack_found config (find_player id ps) ≡ attack_by config id (kinds ps)
unfolding find_player
attack_found-kinds config id [] = refl
attack_found-kinds config id (p ∷ ps) = elim (Bool-cases (str_eq p.id id)) [
  | inl e ↦ simp e refl
  | inr e ↦ simp e (attack_found-kinds config id ps)
]

-- A player's attack depends on the players' ids and characters alone.
pub normal_attack_config-kinds :
    (id : String) (s : State)
    → normal_attack_config id s ≡ attack_by s.game_config id (kinds s.players)
unfolding normal_attack_config
normal_attack_config-kinds id s =
    at (find_player id s.players) ∙ attack_found-kinds s.game_config id s.players
  where
    at :
        (o : Option PlayerData)
        → elim o as (λ x. Option NormalAttackConfig) [
          | none ↦ none
          | some player ↦ elim (player_type s.game_config player.character_type) [
            | none ↦ none
            | some kind ↦ some kind.normal_attack
          ]
        ]
          ≡ attack_found s.game_config o
    at none = refl
    at (some p) = refl

pub kinds-update_at :
    (f : PlayerData → PlayerData) (i : ℕ) (ps : List PlayerData)
    → ((p : PlayerData) → (f p).id ≡ p.id)
    → ((p : PlayerData) → (f p).character_type ≡ p.character_type)
    → kinds (update_at f i ps) ≡ kinds ps
kinds-update_at f i [] a b = refl
kinds-update_at f zero (p ∷ ps) a b = ground (arith, a p, b p)
kinds-update_at f (suc i) (p ∷ ps) a b =
    ap (◌∷◌ (p.id, p.character_type)) (kinds-update_at f i ps a b)

-- The player that is there is replaced by one of the same kind.
pub kinds-replace :
    (q p : PlayerData) (i : ℕ) (ps : List PlayerData)
    → get_elem? ps i ≡ some p
    → q.id ≡ p.id
    → q.character_type ≡ p.character_type
    → kinds (update_at (λ r. q) i ps) ≡ kinds ps
kinds-replace q p i [] g a b = refl
kinds-replace q p zero (r ∷ ps) g a b = ground (arith, g)
kinds-replace q p (suc i) (r ∷ ps) g a b =
    ap (◌∷◌ (r.id, r.character_type)) (kinds-replace q p i ps g a b)

module _ (fl : Floats) where
  kinds-prepare_player :
      (input : InputCommand) (p : PlayerData)
      → ((prepare_player fl input p).id ≡ p.id)
        × ((prepare_player fl input p).character_type ≡ p.character_type)
  unfolding prepare_player
  kinds-prepare_player input p = ground arith

  pub kinds-prepare_from :
      (config : GameConfig) (input : InputCommand) (i : ℕ) (ps : List PlayerData)
      (r : PreparedInput × List PlayerData)
      → prepare_from fl config input i ps ≡ some r
      → kinds r.1 ≡ kinds ps
  unfolding prepare_from
  kinds-prepare_from config input i [] r e = absurd (ground arith)
  kinds-prepare_from config input i (p ∷ ps) r e =
      elim (Option-cases (prepare_from fl config input (i + 1) ps)) [
        | inl n ↦ ground (arith, kinds-prepare_player input p)
        | inr (q, f) ↦
            ground
              (arith, kinds-prepare_player input p, kinds-prepare_from config input (i + 1) ps q f)
      ]

  pub kinds-place : (cs : List Candidate) (ps : List PlayerData) → kinds (place fl cs ps) ≡ kinds ps
  unfolding place
  kinds-place [] [] = refl
  kinds-place [] (p ∷ ps) = refl
  kinds-place (c ∷ cs) [] = refl
  kinds-place (c ∷ cs) (p ∷ ps) = ap (◌∷◌ (p.id, p.character_type)) (kinds-place cs ps)

  kinds-take_damage :
      (d : Float64) (p : PlayerData)
      → ((take_damage fl d p).id ≡ p.id) × ((take_damage fl d p).character_type ≡ p.character_type)
  unfolding take_damage
  kinds-take_damage d p = ground arith

  pub kinds-apply_damage :
      (ds : List Float64) (ps : List PlayerData) → kinds (apply_damage fl ds ps) ≡ kinds ps
  unfolding apply_damage
  kinds-apply_damage [] [] = refl
  kinds-apply_damage [] (p ∷ ps) = refl
  kinds-apply_damage (d ∷ ds) [] = refl
  kinds-apply_damage (d ∷ ds) (p ∷ ps) =
      ground (arith, kinds-take_damage d p, kinds-apply_damage ds ps)

  pub kinds-eliminated :
      (ids : List String) (ps : List PlayerData) → kinds (map (eliminated fl ids) ps) ≡ kinds ps
  kinds-eliminated ids [] = refl
  kinds-eliminated ids (p ∷ ps) = ground (arith, kinds-eliminated ids ps)

pub try_approve_player-kinds :
    (config : GameConfig) (tick : ℕ) (p after : PlayerData) (skill : SkillConfig)
    → try_approve_player config tick p ≡ some (skill, after)
    → (after.id ≡ p.id) × (after.character_type ≡ p.character_type)
unfolding try_approve_player
try_approve_player-kinds config tick p after skill e = ground arith
