-- ===== src/Rooms/Setup.antt =====
-- store.go: a new Store. What the configuration and the packages give is passed in: the resolved game
-- configuration, the random values, the choices of bots, the digest and the spawn points.
use server_crawl_stars.Base.{ℕ, String, true, false, List, [], Option, none, ◌==◌, if◌then◌else◌}
use server_crawl_stars.Simulation.Types.{GameConfig, Vector2}
use server_crawl_stars.Rooms.Observer.{new_observation_state}
use server_crawl_stars.Rooms.Types.{MatchPhase, ClientSession, Room, Store}
use server_crawl_stars.Rooms.Participants.{new_room}

-- What a pointer that was never allocated reads as; no operation gives such a pointer out.
unfoldable pub unallocated : GameConfig → Room
unallocated config = record (new_room 0 "" config) { removed = true }

unfoldable pub no_session : ClientSession
no_session = record {
  close_cause = none;
  connection_generation = 0;
  match_phase = MatchPhase.unknown;
  closed = true;
}

-- `newStore`, past the resolution of its configuration
unfoldable pub new_store :
    ℕ
    → GameConfig
    → List (Option String)
    → List (Option ℕ)
    → (String → String)
    → (GameConfig → ℕ → Vector2)
    → Store
unfolding unallocated no_session
new_store max_active_rooms config random bot_choices sha256 spawn = record {
  closed = false;
  max_active_rooms = if max_active_rooms == 0 then 5 else max_active_rooms;
  rooms = [];
  heap = λ ref. unallocated config;
  next_room = 0;
  client_sessions = λ p. no_session;
  next_session = 0;
  next_reservation = 0;
  player_ids = [];
  random = random;
  bot_choices = bot_choices;
  sha256 = sha256;
  spawn_position = spawn;
  game_config = config;
  observation = new_observation_state;
  runtime = record {
    next_handle = 0;
    workers_closing = false;
    workers = [];
    stopped_tickers = [];
    closed_stops = [];
  };
}
