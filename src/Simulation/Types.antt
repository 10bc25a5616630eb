-- ===== src/Simulation/Types.antt =====
-- The data types of internal/simulation/simulation.go and game_config.go.
-- A `float64` is kept as its 64 bits; Simulation/Floats has the operations on it.
-- `int` and `uint64` fields that count something are natural numbers.
use server_crawl_stars.Base.{ℕ, String, Bool, true, false, List, Option, ltb, leb}

pub data ℤ : Type 0 where
  pos : ℕ → ℤ
  negsuc : ℕ → ℤ

abbrev pub is_positive : ℤ → Bool
is_positive (pos n) = ltb 0 n
is_positive (negsuc n) = false

-- `a <= b` on integers.
abbrev pub leb_ℤ : ℤ → ℤ → Bool
leb_ℤ (pos a) (pos b) = leb a b
leb_ℤ (pos a) (negsuc b) = false
leb_ℤ (negsuc a) (pos b) = true
leb_ℤ (negsuc a) (negsuc b) = leb b a

abbrev pub Float64 : Type 0
Float64 = ℕ

pub record Vector2 : Type 0 where
  pub x : Float64
  pub y : Float64

pub record InputCommand : Type 0 where
  pub player_id : String
  pub client_tick : ℤ
  pub move_dir : Vector2
  pub attack_dir : Vector2
  pub pressed_attack : Bool
  pub pressed_skill : Bool

pub record PlayerData : Type 0 where
  pub id : String
  pub team : String
  pub slot : ℕ
  pub is_bot : Bool
  pub character_type : ℕ
  pub pos : Vector2
  pub move_dir : Vector2
  pub attack_dir : Vector2
  pub speed : Float64
  pub radius : Float64
  pub hp : Float64
  pub pressed_attack : Bool
  pub pressed_skill : Bool
  pub attack_charges : ℕ
  pub next_attack_charge_tick : ℕ
  pub attack_ready_tick : ℕ
  pub is_dashing : Bool
  pub is_dead : Bool
  pub skill_ready_tick : ℕ
  pub last_processed_client_tick : ℤ

pub record ProjectileData : Type 0 where
  pub id : String
  pub owner_id : String
  pub pos : Vector2
  pub dir : Vector2
  pub speed : Float64
  pub damage : Float64
  pub radius : Float64
  pub projectile_type : String
  pub is_destroyed : Bool

pub record Snapshot : Type 0 where
  pub tick : ℕ
  pub players : List PlayerData
  pub projectiles : List ProjectileData

-- `TileGround`, `TileWall`, `TileSpawnPoint`, `TileBush`, `TileWater`, and any other byte.
pub data TileType : Type 0 where
  ground_tile wall spawn_point bush water : TileType
  other_tile : ℕ → TileType

pub record MapData : Type 0 where
  pub width : ℕ
  pub height : ℕ
  pub index : ℕ
  pub max_players : ℕ
  pub tile_size : Float64
  pub tiles : List (List TileType)

pub data NormalAttackKind : Type 0 where
  spread_projectile burst_projectile melee : NormalAttackKind

pub record ProjectileAttackConfig : Type 0 where
  pub projectile_type : String
  pub count : ℕ
  pub direction_offsets_degrees : List Float64
  pub interval_ticks : ℕ
  pub emission_offsets_ticks : List ℕ

pub record NormalAttackConfig : Type 0 where
  pub kind : NormalAttackKind
  pub damage_per_hit : Float64
  pub range_tiles : Float64
  pub max_charges : ℕ
  pub recharge_ticks : ℕ
  pub projectile : Option ProjectileAttackConfig

pub record TeamConfig : Type 0 where
  pub name : String
  pub size : ℕ

pub record GameModeRulesConfig : Type 0 where
  pub team_behavior : String
  pub friendly_fire : Bool

pub record GameModeConfig : Type 0 where
  pub id : String
  pub players_per_match : ℕ
  pub teams : List TeamConfig
  pub rules : GameModeRulesConfig

pub record GameModeCatalogConfig : Type 0 where
  pub default_mode : String
  pub catalog : List GameModeConfig

pub data SkillKind : Type 0 where
  reload_dash burst_projectile teleport_projectile : SkillKind

pub record ReloadDashSkillConfig : Type 0 where
  pub dash_distance_tiles : Float64
  pub dash_duration_ticks : ℕ

pub record BurstProjectileSkillConfig : Type 0 where
  pub damage_per_hit : Float64
  pub range_tiles : Float64
  pub projectile : ProjectileAttackConfig

pub record TeleportProjectileSkillConfig : Type 0 where
  pub damage_per_hit : Float64
  pub range_tiles : Float64
  pub behind_distance_tiles : Float64
  pub projectile : ProjectileAttackConfig

pub record SkillConfig : Type 0 where
  pub kind : SkillKind
  pub cooldown_ticks : ℕ
  pub reload_dash_config : Option ReloadDashSkillConfig
  pub burst_projectile_config : Option BurstProjectileSkillConfig
  pub teleport_projectile_config : Option TeleportProjectileSkillConfig

pub record PlayerTypeConfig : Type 0 where
  pub character_type : ℕ
  pub id : String
  pub radius : Float64
  pub hp : Float64
  pub speed : Float64
  pub normal_attack : NormalAttackConfig
  pub skill : SkillConfig

pub record ProjectileTypeConfig : Type 0 where
  pub id : String
  pub radius : Float64
  pub speed : Float64

-- `Bot` is left out: nothing modelled reads it. `tile_size` is `Tile.Size`.
pub record GameConfig : Type 0 where
  pub version : ℕ
  pub tick_rate : ℕ
  pub tile_size : Float64
  pub player_types : List PlayerTypeConfig
  pub projectile_types : List ProjectileTypeConfig
  pub mode_catalog : GameModeCatalogConfig
  pub selected_mode : GameModeConfig
  pub game_map : MapData
