-- ===== src/Simulation/Tests.antt =====
-- The rules of the simulation in the tests.
use server_crawl_stars.Base.{
  ◌+◌, ◌-◌, ◌*◌, ◌/◌, ◌≡◌, refl, inr, String, Bool, true, false, none, some, [], ◌∷◌, map, ◌↔◌, ◌≤◌,
  if◌then◌else◌, ltb, leb, ◌==◌, ◌&&◌, arith,
}
use server_crawl_stars.Base.Dict.{lookup, insert, delete}
use server_crawl_stars.Simulation.Types.{
  MapData, pos, Vector2, InputCommand, PlayerData, ProjectileData, NormalAttackConfig,
  burst_projectile, ProjectileAttackConfig, SkillConfig, reload_dash, PlayerTypeConfig, GameConfig,
}
use server_crawl_stars.Simulation.Modes.{default_game_mode_config}
use server_crawl_stars.Simulation.Floats.{Floats}
use server_crawl_stars.Simulation.State.{AttackState, BurstState, State}
use server_crawl_stars.Simulation.Charges.{normal_attack_config, consume_attack_charge}
use server_crawl_stars.Simulation.Recharge.{
  recharges, at_most, recharges-at_most, Spent, consume_attack_charge-Spent,
}
use server_crawl_stars.Simulation.Combat.{
  can_player_damage, hit_target, eliminate_players, is_listed, prune_expired_projectile_tombstones,
}
use server_crawl_stars.Simulation.Hits.{
  can_player_damage-MayDamage, MayDamage, Found, hit_target_lem, eliminated, has_id,
  eliminate_players_lem,
}
use server_crawl_stars.Simulation.Play.{
  recharges_charges, prepares, eliminates, Sound, play, play-Sound,
}
use server_crawl_stars.Simulation.Maps.{candidate_range_for_aabb}
use server_crawl_stars.Simulation.Ranges.{InMap, candidate_range-InMap}
use server_crawl_stars.Simulation.Tombstones.{those_that_stay, prune-those_that_stay}
use server_crawl_stars.Simulation.Inputs.{prepare_player}
use server_crawl_stars.Simulation.Skills.{try_approve_player}
use server_crawl_stars.Simulation.Approvals.{try_approve_player_cooldown}

-- Operations on whole numbers, in place of the hardware's.
abbrev whole_numbers : Floats
whole_numbers = record {
  decimal = λ m e. m;
  of_int = λ n. 1;
  to_int = pos;
  add = λ a b. a + b;
  sub = λ a b. a - b;
  mul = λ a b. a * b;
  div = λ a b. a / b;
  neg = λ a. a;
  less = ltb;
  less_or_equal = leb;
  equal = λ a b. a == b;
  is_nan = λ a. false;
  is_inf = λ a. false;
  infinity = 1000000;
  pi = 3;
  abs = λ a. a;
  sqrt = λ a. a;
  floor = λ a. a;
  ceil = λ a. a;
  max_float = λ a b. if ltb a b then b else a;
  min_float = λ a b. if ltb a b then a else b;
  hypot = λ a b. a + b;
  mod_float = λ a b. a - b;
  cos = λ a. 1;
  sin = λ a. 0;
}

abbrev still : Vector2
still = record { x = 0; y = 0 }

abbrev rightwards : Vector2
rightwards = record { x = 1; y = 0 }

abbrev volley : ProjectileAttackConfig
volley = record {
  projectile_type = "bullet";
  count = 3;
  direction_offsets_degrees = [];
  interval_ticks = 2;
  emission_offsets_ticks = [];
}

abbrev volley_attack : NormalAttackConfig
volley_attack = record {
  kind = burst_projectile;
  damage_per_hit = 10;
  range_tiles = 5;
  max_charges = 3;
  recharge_ticks = 4;
  projectile = some volley;
}

abbrev dash_skill : SkillConfig
dash_skill = record {
  kind = reload_dash;
  cooldown_ticks = 20;
  reload_dash_config = some (record { dash_distance_tiles = 2; dash_duration_ticks = 5 });
  burst_projectile_config = none;
  teleport_projectile_config = none;
}

abbrev colt : PlayerTypeConfig
colt = record {
  character_type = 1;
  id = "colt";
  radius = 1;
  hp = 100;
  speed = 2;
  normal_attack = volley_attack;
  skill = dash_skill;
}

abbrev game : GameConfig
game = record {
  version = 1;
  tick_rate = 30;
  tile_size = 1;
  player_types = colt ∷ [];
  projectile_types = [];
  mode_catalog = record { default_mode = "duel_1v1"; catalog = default_game_mode_config ∷ [] };
  selected_mode = default_game_mode_config;
  game_map = record {
    width = 0;
    height = 0;
    index = 0;
    max_players = 2;
    tile_size = 1;
    tiles = [];
  };
}

abbrev fighter : String → String → PlayerData
fighter id team = record {
  id = id;
  team = team;
  slot = 0;
  is_bot = false;
  character_type = 1;
  pos = still;
  move_dir = still;
  attack_dir = still;
  speed = 2;
  radius = 1;
  hp = 100;
  pressed_attack = false;
  pressed_skill = false;
  attack_charges = 3;
  next_attack_charge_tick = 0;
  attack_ready_tick = 0;
  is_dashing = false;
  is_dead = false;
  skill_ready_tick = 0;
  last_processed_client_tick = pos 4;
}

abbrev tired : AttackState
tired = record { charges = 1; recharge_ticks = 3 }

abbrev shot : String → Bool → ProjectileData
shot id destroyed = record {
  id = id;
  owner_id = "a";
  pos = still;
  dir = rightwards;
  speed = 1;
  damage = 10;
  radius = 1;
  projectile_type = "bullet";
  is_destroyed = destroyed;
}

abbrev match_state : State
match_state = record {
  tick = 40;
  players = fighter "a" "red" ∷ fighter "b" "blue" ∷ [];
  projectiles = shot "old" true ∷ shot "new" true ∷ shot "live" false ∷ [];
  next_projectile_seq = 3;
  game_map = game.game_map;
  game_config = game;
  attack_states = ("a", tired) ∷ [];
  dash_states = [];
  burst_states = [];
  projectile_runtime = [];
  projectile_destroyed_at = ("old", 10) ∷ ("new", 39) ∷ [];
}

recharges-at_most_example : (recharges 6 volley_attack tired).charges ≡ at_most 3 (1 + (3 + 6) / 4)
recharges-at_most_example = recharges-at_most 6 volley_attack tired (omega arith, omega arith)

consume_attack_charge-Spent_example :
    Spent "a" match_state (some tired) (consume_attack_charge "a" match_state)
unfolding lookup
consume_attack_charge-Spent_example = consume_attack_charge-Spent "a" match_state

hit_target_lem_example :
    Found whole_numbers
      (shot "live" false)
      match_state
      match_state.players
      none
      (hit_target whole_numbers (shot "live" false) match_state match_state.players none)
hit_target_lem_example = hit_target_lem whole_numbers (shot "live" false) match_state

hit_here :
    hit_target whole_numbers (shot "live" false) match_state match_state.players none
    ≡ some (fighter "b" "blue")
unfolding hit_target
hit_here = refl

can_player_damage-MayDamage_example :
    (can_player_damage (fighter "a" "red") (fighter "b" "blue") default_game_mode_config ≡ true)
    ↔ MayDamage (fighter "a" "red") (fighter "b" "blue") default_game_mode_config
can_player_damage-MayDamage_example =
    can_player_damage-MayDamage (fighter "a" "red") (fighter "b" "blue") default_game_mode_config

eliminate_players_lem_example :
    ((eliminate_players whole_numbers ("b" ∷ []) match_state).players
      ≡ map (eliminated whole_numbers ("b" ∷ [])) match_state.players)
    × (lookup "b" ((eliminate_players whole_numbers ("b" ∷ []) match_state).dash_states) ≡ (
        if is_listed "b" ("b" ∷ []) && has_id whole_numbers "b" match_state.players
        then none
        else lookup "b" match_state.dash_states))
eliminate_players_lem_example = eliminate_players_lem whole_numbers ("b" ∷ []) match_state "b"

prune-those_that_stay_example :
    (prune_expired_projectile_tombstones match_state).projectiles
    ≡ those_that_stay 40 match_state.projectile_destroyed_at match_state.projectiles
prune-those_that_stay_example =
    prune-those_that_stay match_state ((refl, (refl, tt)), ((refl, tt), (tt, tt)))

-- The projectile that was destroyed 30 ticks ago is gone.
pruned_here :
    (prune_expired_projectile_tombstones match_state).projectiles
    ≡ shot "new" true ∷ shot "live" false ∷ []
unfolding prune_expired_projectile_tombstones lookup delete insert
pruned_here = refl

abbrev ready_fighter : PlayerData
ready_fighter = record (fighter "a" "red") { pressed_skill = true; skill_ready_tick = 27 }

try_approve_player_cooldown_example :
    (0 ≤ 7) × (1 ≤ 20) × (try_approve_player game 26 ready_fighter ≡ none)
unfolding try_approve_player
try_approve_player_cooldown_example =
    try_approve_player_cooldown game 7 26 (fighter "a" "red") ready_fighter dash_skill refl
      (omega arith) (omega arith)

abbrev move : InputCommand
move = record {
  player_id = "b";
  client_tick = pos 5;
  move_dir = rightwards;
  attack_dir = rightwards;
  pressed_attack = true;
  pressed_skill = false;
}

play-Sound_example : Sound (
    play whole_numbers (recharges_charges ∷ prepares move ∷ eliminates ("b" ∷ []) ∷ []) match_state)
unfolding normal_attack_config
play-Sound_example =
    play-Sound whole_numbers (recharges_charges ∷ prepares move ∷ eliminates ("b" ∷ []) ∷ [])
      match_state ((omega arith, tt), (inr (volley_attack, (refl, (omega arith, omega arith))), tt))

abbrev moved : State
moved = record match_state {
  players = fighter "a" "red" ∷ prepare_player whole_numbers move (fighter "b" "blue") ∷ [];
}

abbrev burst : BurstState
burst = record {
  direction = rightwards;
  attack = record {
    damage_per_hit = 10;
    range_tiles = 5;
    projectile = volley;
    teleport_behind_distance_tiles = 0;
  };
  activation_tick = 40;
  next_ordinal = 1;
}

abbrev bursting : State
bursting = record match_state { burst_states = ("a", burst) ∷ [] }

abbrev square : MapData
square = record { width = 3; height = 3; index = 0; max_players = 2; tile_size = 1; tiles = [] }

candidate_range-InMap_example : InMap square (candidate_range_for_aabb whole_numbers square 1 9 0 2)
candidate_range-InMap_example = candidate_range-InMap whole_numbers square 1 9 0 2
