-- ===== src/Rooms/Phases/Countdown.antt =====
-- The countdown of a match, up to its start (websocket.go, store.go).
use server_crawl_stars.Base.{ℕ, zero, suc, ◌-◌, ◌≡◌, sym, Bool, false, some, arith}
use mathlib.Core.Path.{subst}
use server_crawl_stars.Simulation.Types.{Vector2, GameConfig}
use server_crawl_stars.Rooms.Types.{RoomStatus, MatchStatus, Room, Runtime}
use server_crawl_stars.Rooms.Phases.{
  start_room_locked, stop_match_countdown, start_room_ticker, tick_match_countdown_room,
}
use server_crawl_stars.Rooms.Resources.{launch_room_worker}

-- The countdown's worker after so many ticks of its ticker.
abbrev pub ticked : (GameConfig → ℕ → Vector2) → ℕ → ℕ → ℕ → ℕ → Room → Runtime → Room × Runtime
ticked spawn now ref ticker zero room rt = (room, rt)
ticked spawn now ref ticker (suc n) room rt =
    let (done, room', rt') = tick_match_countdown_room spawn now ref ticker room rt in
    ticked spawn now ref ticker n room' rt'

started_phase :
    (spawn : GameConfig → ℕ → Vector2) (now ref : ℕ) (room : Room) (rt : Runtime)
    → ((start_room_locked spawn now ref room rt).1.status ≡ RoomStatus.started)
      × ((start_room_locked spawn now ref room rt).1.match_status ≡ MatchStatus.started)
unfolding start_room_locked stop_match_countdown start_room_ticker launch_room_worker
started_phase spawn now ref room rt = (ground arith, ground arith)

counting_down :
    (spawn : GameConfig → ℕ → Vector2) (now ref ticker : ℕ) (n : ℕ) (room : Room) (rt : Runtime)
    → room.removed ≡ false
    → room.match_status ≡ MatchStatus.starting
    → room.countdown_ticker ≡ some ticker
    → room.countdown ≡ suc (suc n)
    → tick_match_countdown_room spawn now ref ticker room rt
      ≡ (false, record room { countdown = room.countdown - 1; last_activity_at = now }, rt)
unfolding tick_match_countdown_room
counting_down spawn now ref ticker n room rt here starting own counting = ground arith

-- A room that is counting down from a positive number is started after that many ticks of the
-- countdown's own ticker, and the match is not started after fewer.
pub countdown_starts :
    (spawn : GameConfig → ℕ → Vector2) (now ref ticker : ℕ) (n : ℕ) (room : Room) (rt : Runtime)
    → room.removed ≡ false
    → room.match_status ≡ MatchStatus.starting
    → room.countdown_ticker ≡ some ticker
    → room.countdown ≡ suc n
    → let after = λ (k : ℕ). (ticked spawn now ref ticker k room rt).0 in
      ((after n).match_status ≡ MatchStatus.starting)
      × ((after (suc n)).status ≡ RoomStatus.started)
      × ((after (suc n)).match_status ≡ MatchStatus.started)
unfolding tick_match_countdown_room
countdown_starts spawn now ref ticker zero room rt here starting own counting =
    let f = started_phase spawn now ref (record room { countdown = 0 }) rt in
    (starting, ground (arith, f), ground (arith, f))
countdown_starts spawn now ref ticker (suc n) room rt here starting own counting =
    let counted = record room { countdown = room.countdown - 1; last_activity_at = now } in
    let ih =
      countdown_starts spawn now ref ticker n counted rt here starting own
        (omega (arith, counting)) in
    subst
      (λ (o : Bool × Room × Runtime).
        ((ticked spawn now ref ticker n o.1 o.2).0.match_status ≡ MatchStatus.starting)
        × ((ticked spawn now ref ticker (suc n) o.1 o.2).0.status ≡ RoomStatus.started)
        × ((ticked spawn now ref ticker (suc n) o.1 o.2).0.match_status ≡ MatchStatus.started))
      (sym (counting_down spawn now ref ticker n room rt here starting own counting)) ih
