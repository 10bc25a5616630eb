-- ===== src/Rooms/Types.antt =====
-- The data types of internal/rooms: store.go, rooms.go, errors.go, messages.go, websocket.go,
-- cleanup.go and game_end.go.
-- A pointer is a number: a room's stands for its place in `Store.heap`, a session's for its place in
-- `Store.client_sessions`, a ticker's or channel's for itself. Instants count nanoseconds; those that
-- the code tests by `IsZero` are options. Mutexes, loggers and the bots' controllers are left out.
use server_crawl_stars.Base.{ℕ, String, Bool, List, Option}
use server_crawl_stars.Base.Dict.{Dict}
use server_crawl_stars.Simulation.Types.{GameConfig, InputCommand, PlayerData, Vector2}
use server_crawl_stars.Rooms.Observer.{ObservationState}

pub data RoomStatus : Type 0 where
  waiting started : RoomStatus

-- `unset` is the empty string.
pub data MatchStatus : Type 0 where
  unset matched loading starting started : MatchStatus

pub data RoomError : Type 0 where
  room_not_found player_not_found player_already_connected unauthorized room_full : RoomError
  room_has_no_players active_room_cap_reached invalid_game_mode invalid_character_type : RoomError
  internal : RoomError

pub data Result {ℓ} (A : Type ℓ) : Type ℓ where
  ok : A → Result A
  err : RoomError → Result A

pub data GameEndResult : Type 0 where
  win lose draw : GameEndResult

pub data CloseCause : Type 0 where
  peer_close read_failure write_timeout write_error ping_timeout ping_error : CloseCause
  control_overflow game_end prestart_cancel expiry shutdown debug_delete : CloseCause

pub data MatchPhase : Type 0 where
  unknown waiting matched loading starting started ending : MatchPhase

pub record PlayerResponse : Type 0 where
  pub id : String
  pub team : String
  pub slot : ℕ
  pub is_bot : Bool
  pub character_type : ℕ

pub record SnapshotSummary : Type 0 where
  pub tick : ℕ
  pub player_count : ℕ
  pub projectile_count : ℕ

pub record ReconnectGrace : Type 0 where
  pub generation : ℕ
  pub expires_at : ℕ

-- The lifecycle part of `clientSession`; `closed` is its `closeOnce`.
pub record ClientSession : Type 0 where
  pub close_cause : Option CloseCause
  pub connection_generation : ℕ
  pub match_phase : MatchPhase
  pub closed : Bool

pub record ClientObservation : Type 0 where
  pub room_id : String
  pub player_id : String
  pub session : ℕ

pub record RoomResources : Type 0 where
  pub tickers : List ℕ
  pub stops : List ℕ
  pub sessions : List ℕ
  pub client_observations : List ClientObservation

-- The type `room`. The simulation itself is left out: `state` says whether it was created.
pub record Room : Type 0 where
  pub id : String
  pub game_config : GameConfig
  pub removed : Bool
  pub ending : Bool
  pub status : RoomStatus
  pub players : List PlayerResponse
  pub match_status : MatchStatus
  pub ready_players : Dict Bool
  pub sessions : Dict String
  pub countdown : ℕ
  pub state : Bool
  pub last_players : List PlayerData
  pub pending_inputs : Dict InputCommand
  pub clients : Dict ℕ
  pub connection_generations : Dict ℕ
  pub reconnect_graces : Dict ReconnectGrace
  pub reservations : Dict ℕ
  pub finalized_game_end_results : Dict GameEndResult
  pub latest_snapshot : SnapshotSummary
  pub created_at : Option ℕ
  pub last_activity_at : ℕ
  pub disconnected_at : Option ℕ
  pub ticker : Option ℕ
  pub stop : Option ℕ
  pub countdown_ticker : Option ℕ
  pub countdown_stop : Option ℕ
  pub bot_fill_ticker : Option ℕ
  pub bot_fill_stop : Option ℕ
  pub match_attach_ticker : Option ℕ
  pub match_attach_stop : Option ℕ
  pub match_attach_deadline_at : Option ℕ
  pub ready_deadline_ticker : Option ℕ
  pub ready_deadline_stop : Option ℕ
  pub ready_deadline_at : Option ℕ

-- The goroutines that `launchRoomWorker` starts: the room, its ticker and its stop channel.
pub data Worker : Type 0 where
  run_bot_fill run_matched_attach_deadline run_ready_deadline : ℕ → ℕ → ℕ → Worker
  run_match_countdown run_room : ℕ → ℕ → ℕ → Worker

-- Tickers and channels: those made so far lie below `next_handle`.
pub record Runtime : Type 0 where
  pub next_handle : ℕ
  pub workers_closing : Bool
  pub workers : List Worker
  pub stopped_tickers : List ℕ
  pub closed_stops : List ℕ

-- The type `Store`. Packages that the code calls are read through fields: `random` holds what the
-- next reads of `randomValue` give, base64 done, with `none` for a read error, and an empty list is
-- the end of the source; `bot_choices` holds what `chooseBotCharacter` gives; `sha256` is the digest;
-- `spawn_position` is the spawn point of a participant, which the code finds by float64 arithmetic.
pub record Store : Type 0 where
  pub closed : Bool
  pub max_active_rooms : ℕ
  pub rooms : Dict ℕ
  pub heap : ℕ → Room
  pub next_room : ℕ
  pub client_sessions : ℕ → ClientSession
  pub next_session : ℕ
  pub next_reservation : ℕ
  pub player_ids : Dict (Unit {0})
  pub random : List (Option String)
  pub bot_choices : List (Option ℕ)
  pub sha256 : String → String
  pub spawn_position : GameConfig → ℕ → Vector2
  pub game_config : GameConfig
  pub observation : ObservationState
  pub runtime : Runtime
