-- ===== src/Rooms/Matchmaking.antt =====
-- store.go: how participants come into rooms. A human joins the first waiting room of the mode that
-- has a place, or a new one; bots are added by request, or by the worker that fills a waiting room.
use server_crawl_stars.Base.{
  ℕ, zero, suc, ◌-◌, String, Bool, true, false, not, ◌&&◌, ◌||◌, List, [], ◌∷◌, Option, none, some,
  str_eq, leb, ◌==◌, if◌then◌else◌, is_some, is_ref, length,
}
use server_crawl_stars.Base.Dict.{Dict, lookup}
use server_crawl_stars.Simulation.Types.{GameConfig}
use server_crawl_stars.Simulation.Modes.{select_mode, player_type, match_player_count}
use server_crawl_stars.Rooms.Types.{
  RoomError, room_not_found, room_full, active_room_cap_reached, invalid_game_mode,
  invalid_character_type, internal, Result, ok, err, expiry, PlayerResponse, RoomResources, Room,
  Runtime, Store,
}
use server_crawl_stars.Rooms.Resources.{no_resources, merge, detach_bot_fill, stop_resources}
use server_crawl_stars.Rooms.Monad.{
  M, ◌>>=◌, ◌>>◌, return, gets, modify, refuse_if, or_fail, put_room, put_runtime,
}
use server_crawl_stars.Rooms.Identity.{
  PlayerCredentials, unique_room_id, issue_player_credentials, issue_player_credentials_locked,
  reserve_bot_ids, release_player_ids,
}
use server_crawl_stars.Rooms.Participants.{
  is_waiting, is_unset, new_room, add_player_locked, append_bots, PlayerSessionResponse,
  human_count, bot_append_error, can_accept_matchmaking, RoomResponse, to_response,
}
use server_crawl_stars.Rooms.Phases.{
  Locked, arm_bot_fill, mark_room_matched_if_full, advance_match_loading,
}
use server_crawl_stars.Rooms.Registry.{
  owns, register, detach_expired_rooms, close_resources, is_cap_reached,
}

abbrev pub debug_room_capacity : Store → ℕ
debug_room_capacity s = s.game_config.game_map.max_players

-- The end of `addPlayer`, under the room's lock. Shelly is character 0.
unfoldable pub admit_player : ℕ → ℕ → PlayerCredentials → M PlayerSessionResponse
admit_player now ref credentials s =
    let room = s.heap ref in
    let (issued, room') = add_player_locked now credentials 0 room in
    let released = release_player_ids (credentials.id ∷ []) s in
    if room.removed || room.ending
    then (err room_not_found, released)
    else if not (is_unset room.match_status) || leb (debug_room_capacity s) (length room.players)
    then (err room_full, released)
    else (ok issued, put_room ref room' s)

-- `addPlayer`
unfoldable pub add_player : ℕ → String → M PlayerSessionResponse
unfolding admit_player
add_player now id = do
  closed ← gets (λ s. s.closed)
  refuse_if closed internal
  registered ← gets (λ s. lookup id s.rooms)
  ref ← or_fail registered room_not_found
  credentials ← issue_player_credentials
  admit_player now ref credentials

-- `isBotCharacterType`: Shelly, Colt and Lily
unfoldable pub is_bot_character_type : ℕ → Bool
is_bot_character_type c = c == 0 || c == 1 || c == 2

-- `chooseBotCharacters`: the characters, or `none` for an error, and the choices left.
unfoldable pub choose_bot_characters : ℕ → List (Option ℕ) → Option (List ℕ) × List (Option ℕ)
unfolding is_bot_character_type
choose_bot_characters zero choices = (some [], choices)
choose_bot_characters (suc count) [] = (none, [])
choose_bot_characters (suc count) (none ∷ choices) = (none, choices)
choose_bot_characters (suc count) (some c ∷ choices) =
    let (rest, choices') = choose_bot_characters count choices in
    if is_bot_character_type c
    then (elim rest [ none ↦ none | some cs ↦ some (c ∷ cs) ], choices')
    else (none, choices)

abbrev pub detach_bot_fill_if : Bool → RoomResources → Room → RoomResources × Room
detach_bot_fill_if true r room = detach_bot_fill r room
detach_bot_fill_if false r room = (r, room)

-- The bots take their places, and the match goes on as far as it can.
unfoldable pub seat_bots :
    ℕ → ℕ → List String → List ℕ → RoomResources → Room → Store → List PlayerResponse × Store
seat_bots now ref ids characters resources room s =
    let (bots, room1) = append_bots now ids characters room in
    let (r2, room2, rt2) = mark_room_matched_if_full now ref room1 s.runtime in
    let is_full = length room2.players == match_player_count room2.game_config in
    let (r3, room3) = detach_bot_fill_if is_full (merge resources r2) room2 in
    let (_, r4, room4, rt4) = advance_match_loading now ref r3 room3 rt2 in
    (bots, put_runtime (stop_resources r4 rt4) (put_room ref room4 s))

-- `addBots` from the choice of characters on.
unfoldable pub choose_and_seat : ℕ → ℕ → List String → M (List PlayerResponse)
unfolding seat_bots
choose_and_seat now ref ids s =
    let (characters, choices) = choose_bot_characters (length ids) s.bot_choices in
    let s1 = record s { bot_choices = choices } in
    elim characters [
      | none ↦ (err internal, release_player_ids ids s1)
      | some cs ↦
          let (bots, s2) = seat_bots now ref ids cs no_resources (s1.heap ref) s1 in (ok bots, s2)
    ]

abbrev pub refuse : Option RoomError → M (Unit {0})
refuse none s = (ok tt, s)
refuse (some e) s = (err e, s)

-- `addBots` for a positive count; the second look at the room finds it as the first did.
unfoldable pub add_some_bots : ℕ → String → ℕ → M (List PlayerResponse)
unfolding choose_and_seat
add_some_bots now id count = do
  closed ← gets (λ s. s.closed)
  refuse_if closed internal
  registered ← gets (λ s. lookup id s.rooms)
  ref ← or_fail registered room_not_found
  problem ← gets (λ s. bot_append_error (s.heap ref) count)
  refuse problem
  ids ← reserve_bot_ids count
  choose_and_seat now ref ids

-- `addBots`
unfoldable pub add_bots : ℕ → String → ℕ → M (List PlayerResponse)
unfolding add_some_bots
add_bots now id zero = return []
add_bots now id (suc count) = add_some_bots now id (suc count)

-- `fillMatchmakingBots` once the identifiers are drawn.
unfoldable pub fill_with : ℕ → ℕ → RoomResources → Room → Result (List String) → Store → Store
unfolding seat_bots
fill_with now ref resources room (err e) s =
    put_runtime (stop_resources resources s.runtime) (put_room ref room s)
fill_with now ref resources room (ok ids) s =
    let (characters, choices) = choose_bot_characters (length ids) s.bot_choices in
    let s1 = record s { bot_choices = choices } in
    elim characters [
      | none ↦
          release_player_ids ids
            (put_runtime (stop_resources resources s1.runtime) (put_room ref room s1))
      | some cs ↦ (seat_bots now ref ids cs resources room s1).1
    ]

-- `fillMatchmakingBots`
unfoldable pub fill_matchmaking_bots : ℕ → ℕ → ℕ → Store → Store
unfolding fill_with
fill_matchmaking_bots now ref expected_ticker s =
    let room = s.heap ref in
    let (drawn, s1) =
      reserve_bot_ids (match_player_count room.game_config - length room.players) s in
    let (resources, room') = detach_bot_fill no_resources room in
    if s.closed
      || not (owns room.id ref s)
      || room.removed
      || room.ending
      || not (is_waiting room.status)
      || not (is_unset room.match_status)
      || not (is_ref room.bot_fill_ticker expected_ticker)
    then s
    else fill_with now ref resources room' drawn s1

-- `matchmakingJoinResponse`, with what `matchmakingJoinResult` adds.
pub record MatchmakingJoinResult : Type 0 where
  pub room : RoomResponse
  pub player : PlayerSessionResponse
  pub matched : Bool

unfoldable pub join_result :
    GameConfig → RoomResponse → PlayerSessionResponse → MatchmakingJoinResult
join_result config room issued = record {
  room = room;
  player = issued;
  matched = length room.players == match_player_count config;
}

-- The timers of a room that a human has just joined, `humans` of them there before.
unfoldable pub arm_joined_room : ℕ → ℕ → ℕ → Room → Runtime → Locked
arm_joined_room now ref humans room rt =
    let (r1, room1, rt1) = mark_room_matched_if_full now ref room rt in
    let (r2, room2, rt2) = arm_bot_fill ref room1 rt1 in
    let is_full = length room1.players == match_player_count room1.game_config in
    let (r3, room3) = detach_bot_fill_if is_full r1 room1 in
    if humans == 0 then (merge r1 r2, room2, rt2) else (r3, room3, rt1)

-- `tryJoinMatchmakingRoom`
unfoldable pub try_join_matchmaking_room :
    ℕ
    → GameConfig
    → ℕ
    → PlayerCredentials
    → ℕ
    → Store
    → Option (MatchmakingJoinResult × RoomResources) × Store
unfolding join_result arm_joined_room
try_join_matchmaking_room now config ref credentials character s =
    let room = s.heap ref in
    let (issued, room1) = add_player_locked now credentials character room in
    let (r, room2, rt) = arm_joined_room now ref (human_count room.players) room1 s.runtime in
    let response = to_response s.game_config.game_map room2 in
    if can_accept_matchmaking (debug_room_capacity s) room
    then (some (join_result config response issued, r), put_runtime rt (put_room ref room2 s))
    else (none, s)

abbrev pub ensure_credentials : Option PlayerCredentials → M PlayerCredentials
ensure_credentials none s = issue_player_credentials s
ensure_credentials (some c) s = (ok c, s)

abbrev pub ensure_credentials_locked : Option PlayerCredentials → M PlayerCredentials
ensure_credentials_locked none s = issue_player_credentials_locked s
ensure_credentials_locked (some c) s = (ok c, s)

-- What the search through the registered rooms ends with.
pub data Search : Type 0 where
  joined : MatchmakingJoinResult → RoomResources → Search
  no_room : Option PlayerCredentials → Search

abbrev pub joinable : GameConfig → Store → Room → Bool
joinable config s room =
    str_eq room.game_config.selected_mode.id config.selected_mode.id
    && can_accept_matchmaking (debug_room_capacity s) room

-- The loop of `joinMatchmakingLocked` over the registered rooms
unfoldable pub join_each : ℕ → GameConfig → ℕ → Dict ℕ → Option PlayerCredentials → M Search
unfolding try_join_matchmaking_room
join_each now config character [] credentials s = (ok (no_room credentials), s)
join_each now config character ((id, ref) ∷ rooms) credentials s =
    let skipped = join_each now config character rooms credentials s in
    let (issued, s1) = ensure_credentials credentials s in
    let tried : Result Search × Store = elim issued [
      | err e ↦ (err e, s1)
      | ok c ↦
          let (answer, s2) = try_join_matchmaking_room now config ref c character s1 in
          let further = join_each now config character rooms (some c) s2 in
          elim answer [ none ↦ further | some (result, r) ↦ (ok (joined result r), s2) ]
    ] in
    if joinable config s (s.heap ref) then tried else skipped

-- `createMatchmakingRoom`
unfoldable pub create_matchmaking_room :
    ℕ → Option PlayerCredentials → GameConfig → ℕ → M (MatchmakingJoinResult × RoomResources)
unfolding join_result
create_matchmaking_room now credentials config character = do
  closed ← gets (λ s. s.closed)
  refuse_if closed internal
  is_full ← gets (λ s. leb s.max_active_rooms (length s.rooms))
  refuse_if is_full active_room_cap_reached
  id ← unique_room_id
  c ← ensure_credentials_locked credentials
  ref ← gets (λ s. s.next_room)
  rt ← gets (λ s. s.runtime)
  let issued = add_player_locked now c character (new_room now id config)
  let matched = mark_room_matched_if_full now ref issued.1 rt
  let armed = arm_bot_fill ref matched.1 matched.2
  modify (λ s. put_runtime armed.2 (register armed.1 s))
  game_map ← gets (λ s. s.game_config.game_map)
  return (join_result config (to_response game_map armed.1) issued.0, merge matched.0 armed.0)

-- `resolveMatchmakingCharacterType`; `raw` is what `json.Unmarshal` makes of the raw value, `none` for
-- an empty, a null or an ill-formed one.
unfoldable pub resolve_matchmaking_character_type : GameConfig → Option ℕ → Option ℕ
resolve_matchmaking_character_type config none = none
resolve_matchmaking_character_type config (some c) =
    if is_some (player_type config c) then some c else none

abbrev pub release_if_failed : {A : Type 0} → Option PlayerCredentials → M A → M A
release_if_failed none m s = m s
release_if_failed (some c) m s =
    let (r, s') = m s in
    elim r [ ok a ↦ (ok a, s') | err e ↦ (err e, release_player_ids (c.id ∷ []) s') ]

-- The creation of `joinMatchmakingLocked`, tried again once when a full registry is cleaned of expired
-- rooms; the resources are those that `joinMatchmakingRequest` closes.
unfoldable pub create_with_retry :
    ℕ → Option PlayerCredentials → GameConfig → ℕ → M (MatchmakingJoinResult × RoomResources)
unfolding create_matchmaking_room
create_with_retry now credentials config character s =
    let (r, s1) = create_matchmaking_room now credentials config character s in
    let (_, resources, s2) = detach_expired_rooms now no_resources s1 in
    let (r', s3) = create_matchmaking_room now credentials config character s2 in
    if is_cap_reached r then (r', close_resources expiry resources s3) else (r, s1)

-- `joinMatchmakingLocked` for a known mode and character.
unfoldable pub join_or_create : ℕ → GameConfig → ℕ → M (MatchmakingJoinResult × RoomResources)
unfolding join_each create_with_retry
join_or_create now config character s =
    let (found, s1) = join_each now config character s.rooms none s in
    elim found [
      | err e ↦ (err e, s1)
      | ok search ↦ elim search [
        | joined result r ↦ (ok (result, r), s1)
        | no_room credentials ↦
            release_if_failed credentials (create_with_retry now credentials config character) s1
      ]
    ]

-- `joinMatchmakingRequest` and `joinMatchmakingLocked`. The resources of a join are tickers and
-- channels that no worker took; they are closed at the end, after those of expired rooms.
unfoldable pub join_matchmaking_request : ℕ → String → Option ℕ → M MatchmakingJoinResult
unfolding resolve_matchmaking_character_type join_or_create
join_matchmaking_request now game_mode raw = do
  closed ← gets (λ s. s.closed)
  refuse_if closed internal
  selected ← gets (λ s. select_mode s.game_config game_mode)
  config ← or_fail selected invalid_game_mode
  character ← or_fail (resolve_matchmaking_character_type config raw) invalid_character_type
  outcome ← join_or_create now config character
  modify (close_resources expiry outcome.1)
  return outcome.0
