-- ===== src/Rooms/Phases.antt =====
-- store.go, ready_deadline.go, cleanup.go and websocket.go: the phases of a match, from a waiting room
-- through matched, loading and starting to started, and the timers of each phase. Each operation works
-- on one locked room; `ref` is its pointer, which the workers keep.
pub mod Countdown
use server_crawl_stars.Base.{
  ℕ, ◌+◌, ◌-◌, ◌*◌, Bool, true, false, not, ◌&&◌, ◌||◌, List, [], ◌∷◌, Option, none, some, ltb, leb,
  ◌==◌, if◌then◌else◌, is_some, is_ref, length,
}
use server_crawl_stars.Base.Dict.{Dict, lookup}
use server_crawl_stars.Simulation.Types.{Vector2, GameConfig}
use server_crawl_stars.Simulation.Modes.{match_player_count}
use server_crawl_stars.Rooms.Types.{
  RoomStatus, MatchStatus, PlayerResponse, RoomResources, Room, run_bot_fill,
  run_matched_attach_deadline, run_ready_deadline, run_match_countdown, run_room, Runtime,
}
use server_crawl_stars.Rooms.Resources.{
  no_resources, merge, push, is_started, detach_bot_fill, detach_matched_attach_deadline,
  detach_ready_deadline, stop_resources, launch_room_worker, new_timer,
}
use server_crawl_stars.Rooms.Participants.{is_waiting, is_unset, human_count, simulation_players}

abbrev pub second : ℕ
second = 1000000000

abbrev pub matched_attach_deadline : ℕ
matched_attach_deadline = 30 * second

abbrev pub loading_ready_deadline : ℕ
loading_ready_deadline = 30 * second

abbrev pub hard_room_lifetime : ℕ
hard_room_lifetime = 3600 * second

abbrev pub waiting_room_idle_ttl : ℕ
waiting_room_idle_ttl = 600 * second

abbrev pub disconnected_room_ttl : ℕ
disconnected_room_ttl = 300 * second

abbrev pub match_countdown_seconds : ℕ
match_countdown_seconds = 5

abbrev pub is_matched : MatchStatus → Bool
is_matched MatchStatus.matched = true
is_matched _ = false

abbrev pub is_loading : MatchStatus → Bool
is_loading MatchStatus.loading = true
is_loading _ = false

abbrev pub is_starting : MatchStatus → Bool
is_starting MatchStatus.starting = true
is_starting _ = false

-- `now.Before(t)` fails, for an instant that is not the zero time.
abbrev pub reached : ℕ → Option ℕ → Bool
reached now none = false
reached now (some t) = leb t now

-- `now.Before(t)`; the zero time is never ahead.
abbrev pub before : ℕ → Option ℕ → Bool
before now none = false
before now (some t) = ltb now t

-- What an operation on a locked room gives: resources to stop later, the room, and the runtime.
abbrev pub Locked : Type 0
Locked = RoomResources × Room × Runtime

abbrev unless_launched : Bool → Locked → Locked → Locked
unless_launched true running dropped = running
unless_launched false running dropped = dropped

-- `armBotFillLocked`
unfoldable pub arm_bot_fill : ℕ → Room → Runtime → Locked
arm_bot_fill ref room rt =
    let (t, c, rt1) = new_timer rt in
    let armed = record room { bot_fill_ticker = some t; bot_fill_stop = some c } in
    let (launched, rt2) = launch_room_worker (run_bot_fill ref t c) rt1 in
    let (r, dropped) = detach_bot_fill no_resources armed in
    if room.removed
      || room.ending
      || not (is_waiting room.status)
      || not (is_unset room.match_status)
      || not (human_count room.players == 1)
      || is_some room.bot_fill_ticker
    then (no_resources, room, rt)
    else unless_launched launched (no_resources, armed, rt2) (r, dropped, rt2)

-- `armMatchedAttachDeadlineLocked`
unfoldable pub arm_matched_attach_deadline : ℕ → ℕ → Room → Runtime → Locked
arm_matched_attach_deadline now ref room rt =
    let (t, c, rt1) = new_timer rt in
    let armed = record room {
      match_attach_ticker = some t;
      match_attach_stop = some c;
      match_attach_deadline_at = some (now + matched_attach_deadline);
    } in
    let (launched, rt2) = launch_room_worker (run_matched_attach_deadline ref t c) rt1 in
    let (r, dropped) = detach_matched_attach_deadline no_resources armed in
    if room.removed
      || room.ending
      || not (is_matched room.match_status)
      || human_count room.players == 0
      || is_some room.match_attach_ticker
    then (no_resources, room, rt)
    else unless_launched launched (no_resources, armed, rt2) (r, dropped, rt2)

-- `markRoomMatchedIfFullLocked`
unfoldable pub mark_room_matched_if_full : ℕ → ℕ → Room → Runtime → Locked
mark_room_matched_if_full now ref room rt =
    let matched = record room {
      match_status = MatchStatus.matched;
      ready_players = [];
      last_activity_at = now;
    } in
    let armed = arm_matched_attach_deadline now ref matched rt in
    if length room.players == match_player_count room.game_config
    then armed
    else (no_resources, room, rt)

humans_attached : Dict ℕ → List PlayerResponse → Bool
humans_attached clients [] = true
humans_attached clients (p ∷ ps) =
    (p.is_bot || is_some (lookup p.id clients)) && humans_attached clients ps

-- `allMatchClientsAttached`; a session in the map is never nil and has its connection.
unfoldable pub all_match_clients_attached : Room → Bool
unfolding humans_attached
all_match_clients_attached room =
    length room.players == match_player_count room.game_config
    && humans_attached room.clients room.players
    && ltb 0 (human_count room.players)

abbrev is_ready : Option Bool → Bool
is_ready none = false
is_ready (some b) = b

humans_ready : Dict Bool → List PlayerResponse → Bool
humans_ready ready [] = true
humans_ready ready (p ∷ ps) = (p.is_bot || is_ready (lookup p.id ready)) && humans_ready ready ps

-- `allMatchPlayersReady`
unfoldable pub all_match_players_ready : Room → Bool
unfolding humans_ready
all_match_players_ready room =
    length room.players == match_player_count room.game_config
    && humans_ready room.ready_players room.players
    && ltb 0 (human_count room.players)

-- `armReadyDeadlineLocked`
unfoldable pub arm_ready_deadline : ℕ → ℕ → Room → Runtime → Locked
arm_ready_deadline now ref room rt =
    let (t, c, rt1) = new_timer rt in
    let armed = record room {
      ready_deadline_ticker = some t;
      ready_deadline_stop = some c;
      ready_deadline_at = some (now + loading_ready_deadline);
    } in
    let (launched, rt2) = launch_room_worker (run_ready_deadline ref t c) rt1 in
    let (r, dropped) = detach_ready_deadline no_resources armed in
    if room.removed
      || room.ending
      || not (is_loading room.match_status)
      || human_count room.players == 0
      || all_match_players_ready room
      || is_some room.ready_deadline_ticker
    then (no_resources, room, rt)
    else unless_launched launched (no_resources, armed, rt2) (r, dropped, rt2)

-- `hasPreStartMatch`
unfoldable pub has_pre_start_match : Room → Bool
has_pre_start_match room = not (is_started room.status) && not (is_unset room.match_status)

-- A ticker and channel that no worker took are stopped and closed at once.
abbrev halt : ℕ → ℕ → Runtime → Runtime
halt t c = stop_resources (record no_resources { tickers = t ∷ []; stops = c ∷ [] })

-- `startMatchCountdownWithResourcesLocked`, with resources
unfoldable pub start_match_countdown : ℕ → RoomResources → Room → Runtime → Locked
start_match_countdown ref resources room rt =
    let (r, room1) = detach_ready_deadline resources room in
    let (t, c, rt1) = new_timer rt in
    let starting = record room1 {
      match_status = MatchStatus.starting;
      countdown = match_countdown_seconds;
    } in
    let armed = record starting { countdown_ticker = some t; countdown_stop = some c } in
    let dropped = record starting { countdown_ticker = none; countdown_stop = none } in
    let (launched, rt2) = launch_room_worker (run_match_countdown ref t c) rt1 in
    unless_launched launched (r, armed, rt2) (r, dropped, halt t c rt2)

-- `advanceMatchLoadingLocked`: whether the match went on to loading. The deliveries to the clients,
-- which change no state of the room, are left out.
unfoldable pub advance_match_loading :
    ℕ → ℕ → RoomResources → Room → Runtime → Bool × RoomResources × Room × Runtime
advance_match_loading now ref resources room rt =
    let (r, room1) =
      detach_matched_attach_deadline resources
        (record room { match_status = MatchStatus.loading }) in
    let counted = start_match_countdown ref r room1 rt in
    let armed = arm_ready_deadline now ref room1 rt in
    if not (has_pre_start_match room)
      || not (is_matched room.match_status)
      || not (all_match_clients_attached room)
    then (false, resources, room, rt)
    else if all_match_players_ready room1
    then (true, counted.0, counted.1, counted.2)
    else (true, merge r armed.0, armed.1, armed.2)

-- `stopMatchCountdownLocked`
unfoldable pub stop_match_countdown : Room → Runtime → Room × Runtime
stop_match_countdown room rt = (
  record room { countdown_ticker = none; countdown_stop = none },
  stop_resources
      (record no_resources {
        tickers = push room.countdown_ticker [];
        stops = push room.countdown_stop [];
      })
      rt,
)

-- The room's ticker of `startRoomLocked`.
unfoldable pub start_room_ticker : ℕ → Room → Runtime → Room × Runtime
start_room_ticker ref room rt =
    let (t, c, rt1) = new_timer rt in
    let (launched, rt2) = launch_room_worker (run_room ref t c) rt1 in
    let running = record room { ticker = some t; stop = some c } in
    let halted = record room { ticker = none; stop = none } in
    if is_some room.ticker
    then (room, rt)
    else if launched
    then (running, rt2)
    else (halted, halt t c rt2)

-- `startRoomLocked`, with the spawn points: whether the room was not yet started.
unfoldable pub start_room_locked :
    (GameConfig → ℕ → Vector2) → ℕ → ℕ → Room → Runtime → Bool × Room × Runtime
unfolding stop_match_countdown start_room_ticker
start_room_locked spawn now ref room rt =
    let (room1, rt1) = stop_match_countdown room rt in
    let room2 = record room1 {
      status = RoomStatus.started;
      match_status = MatchStatus.started;
      countdown = 0;
      last_activity_at = now;
      disconnected_at = if length room.clients == 0 then some now else none;
    } in
    let simulated = record room2 {
      state = true;
      last_players = simulation_players spawn room.game_config 0 room.players;
    } in
    let (room3, rt3) = start_room_ticker ref (if room.state then room2 else simulated) rt1 in
    (not (is_started room.status), room3, rt3)

-- `readyDeadlineExpiredLocked`
unfoldable pub ready_deadline_expired : ℕ → ℕ → Room → Bool
ready_deadline_expired now expected_ticker room =
    not room.removed
    && not room.ending
    && is_loading room.match_status
    && is_ref room.ready_deadline_ticker expected_ticker
    && reached now room.ready_deadline_at

-- `tickMatchCountdownRoom` on the room: whether the countdown's worker is done.
unfoldable pub tick_match_countdown_room :
    (GameConfig → ℕ → Vector2) → ℕ → ℕ → ℕ → Room → Runtime → Bool × Room × Runtime
tick_match_countdown_room spawn now ref countdown_ticker room rt =
    let counted = record room { countdown = room.countdown - 1; last_activity_at = now } in
    let begun = start_room_locked spawn now ref (record room { countdown = 0 }) rt in
    if room.removed
      || not (is_ref room.countdown_ticker countdown_ticker)
      || not (is_starting room.match_status)
    then (true, room, rt)
    else if ltb 1 room.countdown
    then (false, counted, rt)
    else (true, begun.1, begun.2)

-- `t.Add(d)`, for an instant that is not the zero time.
abbrev pub after : ℕ → Option ℕ → Option ℕ
after d none = none
after d (some t) = some (t + d)

-- `isExpired`
unfoldable pub is_expired : ℕ → Room → Bool
is_expired now room =
    not room.ending
    && (reached now (after hard_room_lifetime room.created_at)
        || (length room.clients == 0
            && length room.reservations == 0
            && (if is_waiting room.status
                then leb (room.last_activity_at + waiting_room_idle_ttl) now
                else reached now (after disconnected_room_ttl room.disconnected_at))))
