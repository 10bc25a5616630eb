-- ===== src/Rooms/Inputs.antt =====
-- websocket.go: the inputs of clients, one pending for each player until the next tick, and the
-- reconnect graces that run out before a tick.
pub mod Order
pub mod Graces
pub use server_crawl_stars.Simulation.Types.{is_positive, leb_ℤ}
use server_crawl_stars.Base.{
  ℕ, String, Bool, true, false, not, ◌&&◌, ◌||◌, List, [], ◌∷◌, Option, none, some, str_eq, leb,
  ltb, ◌==◌, if◌then◌else◌, is_ref,
}
use server_crawl_stars.Base.Dict.{Dict, lookup, insert, delete, has_key}
use server_crawl_stars.Simulation.Types.{ℤ, pos, negsuc, Vector2, InputCommand, PlayerData}
use server_crawl_stars.Rooms.Types.{PlayerResponse, ReconnectGrace, Room, Store}
use server_crawl_stars.Rooms.Monad.{put_room}
use server_crawl_stars.Rooms.Participants.{has_player}

pub data InputDisposition : Type 0 where
  input_stored input_ignored input_invalid : InputDisposition

-- `inputMessage`, decoded.
pub record InputMessage : Type 0 where
  pub client_tick : ℤ
  pub move_dir : Vector2
  pub attack_dir : Vector2
  pub pressed_attack : Bool
  pub pressed_skill : Bool

-- `tick < 0`, `tick > 0` and `a <= b`, for `int64` ticks.
abbrev pub is_negative : ℤ → Bool
is_negative (pos n) = false
is_negative (negsuc n) = true

-- `lastProcessedClientTick`
unfoldable pub last_processed_client_tick : List PlayerData → String → ℤ
last_processed_client_tick [] id = pos 0
last_processed_client_tick (p ∷ ps) id =
    if str_eq p.id id then p.last_processed_client_tick else last_processed_client_tick ps id

-- A tick that is not newer than one that was seen.
abbrev pub is_stale : ℤ → ℤ → Bool
is_stale tick seen = is_positive tick && leb_ℤ tick seen

-- The input that waits is at least as new.
abbrev pub is_superseded : ℤ → Option InputCommand → Bool
is_superseded tick none = false
is_superseded tick (some pending) =
    is_stale tick pending.client_tick && is_positive pending.client_tick

abbrev pub command_of : String → InputMessage → InputCommand
command_of id input = record {
  player_id = id;
  client_tick = input.client_tick;
  move_dir = input.move_dir;
  attack_dir = input.attack_dir;
  pressed_attack = input.pressed_attack;
  pressed_skill = input.pressed_skill;
}

-- A press that waits is kept when the newer input has none.
unfoldable pub merge_pending : Option InputCommand → InputCommand → InputCommand
merge_pending none command = command
merge_pending (some pending) command =
    if is_positive command.client_tick
      && is_positive pending.client_tick
      && (pending.pressed_attack || pending.pressed_skill)
      && not command.pressed_attack
      && not command.pressed_skill
    then record command {
      attack_dir = pending.attack_dir;
      pressed_attack = pending.pressed_attack;
      pressed_skill = pending.pressed_skill;
    }
    else command

-- `setInput` on the room.
unfoldable pub set_room_input : ℕ → String → InputMessage → ℕ → Room → InputDisposition × Room
unfolding merge_pending
set_room_input now id input expected_session room =
    let pending = lookup id room.pending_inputs in
    let command = merge_pending pending (command_of id input) in
    if room.removed
      || room.ending
      || not (has_player id room.players)
      || has_key id room.finalized_game_end_results
      || not (is_ref (lookup id room.clients) expected_session)
    then (input_ignored, room)
    else if is_negative input.client_tick
    then (input_invalid, room)
    else if is_stale input.client_tick (last_processed_client_tick room.last_players id)
        || is_superseded input.client_tick pending
    then (input_ignored, room)
    else (
      input_stored,
      record room {
        last_activity_at = now;
        pending_inputs = insert id command room.pending_inputs;
      },
    )

-- `setInput`
unfoldable pub set_input : ℕ → String → String → InputMessage → ℕ → Store → InputDisposition × Store
set_input now room_id player_id input expected_session s = elim (lookup room_id s.rooms) [
  | none ↦ (input_ignored, s)
  | some ref ↦
      let (disposition, room) = set_room_input now player_id input expected_session (s.heap ref) in
      if s.closed then (input_ignored, s) else (disposition, put_room ref room s)
]

-- One player of `expiredReconnectPlayersLocked`: whether the player's grace has run out, and the
-- graces that are left; a grace of an older connection is dropped with no effect.
unfoldable pub expire_grace : ℕ → Dict ℕ → String → Dict ReconnectGrace → Bool × Dict ReconnectGrace
expire_grace now generations id graces = elim (lookup id graces) [
  | none ↦ (false, graces)
  | some grace ↦
      let current : ℕ = elim (lookup id generations) [ none ↦ 0 | some g ↦ g ] in
      if ltb now grace.expires_at
      then (false, graces)
      else (grace.generation == current, delete id graces)
]

-- `expiredReconnectPlayersLocked`
unfoldable pub expired_reconnect_players :
    ℕ → Dict ℕ → List PlayerResponse → Dict ReconnectGrace → List String × Dict ReconnectGrace
unfolding expire_grace
expired_reconnect_players now generations [] graces = ([], graces)
expired_reconnect_players now generations (p ∷ ps) graces =
    let (is_out, graces1) = expire_grace now generations p.id graces in
    let (expired, graces2) = expired_reconnect_players now generations ps graces1 in
    (if is_out then p.id ∷ expired else expired, graces2)
