-- ===== src/Simulation/State.antt =====
-- simulation.go, `State`, and the records that it keeps (normal_attack.go, timed_dash.go).
-- The maps that the code may leave nil are empty ones here.
use server_crawl_stars.Base.{
  ℕ, zero, suc, String, str_eq, Option, none, some, List, [], ◌∷◌, if◌then◌else◌,
}
use server_crawl_stars.Base.Dict.{Dict}
use server_crawl_stars.Simulation.Types.{
  Float64, Vector2, PlayerData, ProjectileData, MapData, GameConfig, ProjectileAttackConfig,
  ProjectileTypeConfig, NormalAttackConfig,
}

pub record AttackState : Type 0 where
  pub charges : ℕ
  pub recharge_ticks : ℕ

pub record TimedDashState : Type 0 where
  pub direction : Vector2
  pub step_distance : Float64
  pub remaining_ticks : ℕ
  pub ready_tick : ℕ

pub record ProjectileAttackSpec : Type 0 where
  pub damage_per_hit : Float64
  pub range_tiles : Float64
  pub projectile : ProjectileAttackConfig
  pub teleport_behind_distance_tiles : Float64

pub record BurstState : Type 0 where
  pub direction : Vector2
  pub attack : ProjectileAttackSpec
  pub activation_tick : ℕ
  pub next_ordinal : ℕ

pub record ProjectileRuntime : Type 0 where
  pub max_distance : Float64
  pub moved : Float64
  pub teleport_behind_distance : Float64

pub data EmissionPhase : Type 0 where
  scheduled activation : EmissionPhase

pub record ProjectileEmission : Type 0 where
  pub owner_id : String
  pub direction : Vector2
  pub attack : ProjectileAttackSpec
  pub projectile : ProjectileTypeConfig
  pub projectile_type : String
  pub phase : EmissionPhase
  pub ordinal : ℕ
  pub snapshot_tick : ℕ

pub record AttackIntent : Type 0 where
  pub player_index : ℕ
  pub owner : PlayerData
  pub direction : Vector2
  pub attack : NormalAttackConfig

pub record MeleeIntent : Type 0 where
  pub owner_index : ℕ
  pub origin : Vector2
  pub direction : Vector2
  pub attack : NormalAttackConfig

pub record State : Type 0 where
  pub tick : ℕ
  pub players : List PlayerData
  pub projectiles : List ProjectileData
  pub next_projectile_seq : ℕ
  pub game_map : MapData
  pub game_config : GameConfig
  pub attack_states : Dict AttackState
  pub dash_states : Dict TimedDashState
  pub burst_states : Dict BurstState
  pub projectile_runtime : Dict ProjectileRuntime
  pub projectile_destroyed_at : Dict ℕ

-- `playerByID`
unfoldable pub find_player : String → List PlayerData → Option PlayerData
find_player id [] = none
find_player id (p ∷ ps) = if str_eq p.id id then some p else find_player id ps

-- A write to one player, `s.players[index]`.
abbrev pub update_at {ℓ} : {A : Type ℓ} → (A → A) → ℕ → List A → List A
update_at f i [] = []
update_at f zero (x ∷ xs) = f x ∷ xs
update_at f (suc i) (x ∷ xs) = x ∷ update_at f i xs
