-- ===== src/Rooms/Participants.antt =====
-- store.go: a new room and its participants, and messages.go: what a client is told of a room and the
-- players that the simulation starts with.
use Prim.Native.String.{◌++◌ as str_append}
use server_crawl_stars.Base.{
  ℕ, suc, ◌+◌, String, Bool, true, false, not, ◌&&◌, ◌||◌, List, [], ◌∷◌, ◌++◌, Option, none, some,
  str_eq, ltb, ◌==◌, if◌then◌else◌, length,
}
use server_crawl_stars.Base.Dict.{insert}
use server_crawl_stars.Simulation.Types.{
  Float64, Vector2, pos, PlayerData, MapData, GameConfig, PlayerTypeConfig,
}
use server_crawl_stars.Simulation.Modes.{
  player_type, match_player_count, team_for_player_index, team_red,
}
use server_crawl_stars.Rooms.Types.{
  RoomStatus, MatchStatus, RoomError, room_not_found, room_full, PlayerResponse, SnapshotSummary,
  Room,
}
use server_crawl_stars.Rooms.Identity.{PlayerCredentials}

abbrev pub is_waiting : RoomStatus → Bool
is_waiting RoomStatus.waiting = true
is_waiting RoomStatus.started = false

abbrev pub is_unset : MatchStatus → Bool
is_unset MatchStatus.unset = true
is_unset _ = false

-- `newRoomLocked`
unfoldable pub new_room : ℕ → String → GameConfig → Room
new_room now id config = record {
  id = id;
  game_config = config;
  removed = false;
  ending = false;
  status = RoomStatus.waiting;
  players = [];
  match_status = MatchStatus.unset;
  ready_players = [];
  sessions = [];
  countdown = 0;
  state = false;
  last_players = [];
  pending_inputs = [];
  clients = [];
  connection_generations = [];
  reconnect_graces = [];
  reservations = [];
  finalized_game_end_results = [];
  latest_snapshot = record { tick = 0; player_count = 0; projectile_count = 0 };
  created_at = some now;
  last_activity_at = now;
  disconnected_at = none;
  ticker = none;
  stop = none;
  countdown_ticker = none;
  countdown_stop = none;
  bot_fill_ticker = none;
  bot_fill_stop = none;
  match_attach_ticker = none;
  match_attach_stop = none;
  match_attach_deadline_at = none;
  ready_deadline_ticker = none;
  ready_deadline_stop = none;
  ready_deadline_at = none;
}

-- The team and slot of `appendParticipantLocked` and of `PlayerAssignments`.
unfoldable pub team_slot : GameConfig → ℕ → String × ℕ
team_slot config index = elim (team_for_player_index config index) [
  | none ↦ (team_red, index)
  | some assigned ↦ assigned
]

-- `appendParticipantLocked`
unfoldable pub append_participant : ℕ → String → Bool → ℕ → Room → PlayerResponse × Room
append_participant now id is_bot character room =
    let assigned = team_slot room.game_config (length room.players) in
    let player : PlayerResponse = record {
      id = id;
      team = assigned.0;
      slot = assigned.1;
      is_bot = is_bot;
      character_type = character;
    } in
    (player, record room { players = room.players ++ player ∷ []; last_activity_at = now })

pub record PlayerSessionResponse : Type 0 where
  pub player : PlayerResponse
  pub session_token : String
  pub web_socket_path : String

-- `webSocketPath`
web_socket_path : String → String → String → String
web_socket_path room_id player_id token = str_append "/rooms/" (
    str_append room_id (str_append "/players/" (str_append player_id (str_append "?token=" token))))

-- `addPlayerLocked`
unfoldable pub add_player_locked : ℕ → PlayerCredentials → ℕ → Room → PlayerSessionResponse × Room
unfolding append_participant web_socket_path
add_player_locked now credentials character room =
    let (player, room') = append_participant now credentials.id false character room in
    (
      record {
        player = player;
        session_token = credentials.session_token;
        web_socket_path = web_socket_path room.id player.id credentials.session_token;
      },
      record room' { sessions = insert player.id credentials.session room'.sessions },
    )

-- `appendReservedBotsLocked`
unfoldable pub append_bots : ℕ → List String → List ℕ → Room → List PlayerResponse × Room
unfolding append_participant
append_bots now [] characters room = ([], room)
append_bots now (id ∷ ids) [] room = ([], room)
append_bots now (id ∷ ids) (character ∷ characters) room =
    let (bot, room') = append_participant now id true character room in
    let (bots, room'') = append_bots now ids characters room' in (bot ∷ bots, room'')

-- `matchmakingHumanCount`
unfoldable pub human_count : List PlayerResponse → ℕ
human_count [] = 0
human_count (p ∷ ps) = let rest = human_count ps in if p.is_bot then rest else suc rest

-- `hasPlayer`
unfoldable pub has_player : String → List PlayerResponse → Bool
has_player id [] = false
has_player id (p ∷ ps) = str_eq p.id id || has_player id ps

-- `botAppendErrorLocked`
unfoldable pub bot_append_error : Room → ℕ → Option RoomError
bot_append_error room count =
    let spare = match_player_count room.game_config in
    if room.removed || room.ending
    then some room_not_found
    else if not (is_waiting room.status)
        || not (is_unset room.match_status)
        || ltb spare (count + length room.players)
    then some room_full
    else none

-- `canAcceptMatchmakingLocked`
unfoldable pub can_accept_matchmaking : ℕ → Room → Bool
can_accept_matchmaking debug_capacity room =
    not room.removed
    && not room.ending
    && is_waiting room.status
    && is_unset room.match_status
    && ltb (length room.players) debug_capacity
    && ltb (length room.players) (match_player_count room.game_config)

-- `DefaultPlayerHP`, `DefaultPlayerSpeed` and `DefaultPlayerRadius` as float64 bits.
abbrev default_player_hp : Float64
default_player_hp = 4661014508095930368

abbrev default_player_speed : Float64
default_player_speed = 4611686018427387904

abbrev default_player_radius : Float64
default_player_radius = 4602678819172646912

-- HP, speed and radius of a character; an unknown one gets those of Shelly, of the configuration or
-- of the built-in one.
base_stats : Option PlayerTypeConfig → Option PlayerTypeConfig → Float64 × Float64 × Float64
base_stats (some t) shelly = (t.hp, t.speed, t.radius)
base_stats none (some t) = (t.hp, t.speed, t.radius)
base_stats none none = (default_player_hp, default_player_speed, default_player_radius)

abbrev zero_vector : Vector2
zero_vector = record { x = 0; y = 0 }

-- `simulationPlayers` from the participant at an index on.
unfoldable pub simulation_players :
    (GameConfig → ℕ → Vector2) → GameConfig → ℕ → List PlayerResponse → List PlayerData
unfolding base_stats team_slot
simulation_players spawn config index [] = []
simulation_players spawn config index (p ∷ ps) =
    let stats = base_stats (player_type config p.character_type) (player_type config 0) in
    let assigned = team_slot config index in
    record {
      id = p.id;
      team = assigned.0;
      slot = assigned.1;
      is_bot = p.is_bot;
      character_type = p.character_type;
      pos = spawn config index;
      move_dir = zero_vector;
      attack_dir = zero_vector;
      speed = stats.1;
      radius = stats.2;
      hp = stats.0;
      pressed_attack = false;
      pressed_skill = false;
      attack_charges = 0;
      next_attack_charge_tick = 0;
      attack_ready_tick = 0;
      is_dashing = false;
      is_dead = false;
      skill_ready_tick = 0;
      last_processed_client_tick = pos 0;
    }
    ∷ simulation_players spawn config (suc index) ps

pub record RoomResponse : Type 0 where
  pub id : String
  pub game_mode : String
  pub status : RoomStatus
  pub players : List PlayerResponse
  pub max_players : ℕ
  pub game_map : MapData
  pub latest_snapshot : SnapshotSummary

is_zero_summary : SnapshotSummary → Bool
is_zero_summary s = s.tick == 0 && s.player_count == 0 && s.projectile_count == 0

-- `toResponse`
unfoldable pub to_response : MapData → Room → RoomResponse
unfolding is_zero_summary
to_response game_map room =
    let summary = room.latest_snapshot in
    let counted = record summary { player_count = length room.players } in
    record {
      id = room.id;
      game_mode = room.game_config.selected_mode.id;
      status = room.status;
      players = room.players;
      max_players = game_map.max_players;
      game_map = game_map;
      latest_snapshot = if is_zero_summary summary then counted else summary;
    }
