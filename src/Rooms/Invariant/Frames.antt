-- ===== src/Rooms/Invariant/Frames.antt =====
-- What the operations on the phases of a match change of a room.
use server_crawl_stars.Base.{ℕ, refl, [], arith}
use server_crawl_stars.Simulation.Types.{Vector2, GameConfig}
use server_crawl_stars.Rooms.Types.{MatchStatus, RoomResources, Room, Runtime}
use server_crawl_stars.Rooms.Resources.{
  detach_bot_fill, detach_matched_attach_deadline, detach_ready_deadline, launch_room_worker,
}
use server_crawl_stars.Rooms.Phases.{
  arm_bot_fill, arm_matched_attach_deadline, mark_room_matched_if_full, arm_ready_deadline,
  start_match_countdown, advance_match_loading, start_room_locked, stop_match_countdown,
  start_room_ticker, tick_match_countdown_room,
}
use server_crawl_stars.Rooms.Invariant.Keeps.{Framed}

pub Framed-refl : {a : Room} → Framed a a
Framed-refl = record { same_id = refl; same_removed = refl; same_players = refl }

pub detach_bot_fill-Framed :
    (r : RoomResources) (room : Room) → Framed room (detach_bot_fill r room).1
unfolding detach_bot_fill
detach_bot_fill-Framed r room = record { same_id = refl; same_removed = refl; same_players = refl }

pub detach_matched_attach_deadline-Framed :
    (r : RoomResources) (room : Room) → Framed room (detach_matched_attach_deadline r room).1
unfolding detach_matched_attach_deadline
detach_matched_attach_deadline-Framed r room = record {
  same_id = refl;
  same_removed = refl;
  same_players = refl;
}

pub detach_ready_deadline-Framed :
    (r : RoomResources) (room : Room) → Framed room (detach_ready_deadline r room).1
unfolding detach_ready_deadline
detach_ready_deadline-Framed r room = record {
  same_id = refl;
  same_removed = refl;
  same_players = refl;
}

pub arm_bot_fill-Framed :
    (ref : ℕ) (room : Room) (rt : Runtime) → Framed room (arm_bot_fill ref room rt).1
unfolding arm_bot_fill detach_bot_fill launch_room_worker
arm_bot_fill-Framed ref room rt = record {
  same_id = ground arith;
  same_removed = ground arith;
  same_players = ground arith;
}

pub arm_matched_attach_deadline-Framed :
    (now ref : ℕ) (room : Room) (rt : Runtime)
    → Framed room (arm_matched_attach_deadline now ref room rt).1
unfolding arm_matched_attach_deadline detach_matched_attach_deadline launch_room_worker
arm_matched_attach_deadline-Framed now ref room rt = record {
  same_id = ground arith;
  same_removed = ground arith;
  same_players = ground arith;
}

pub mark_room_matched_if_full-Framed :
    (now ref : ℕ) (room : Room) (rt : Runtime)
    → Framed room (mark_room_matched_if_full now ref room rt).1
unfolding mark_room_matched_if_full
mark_room_matched_if_full-Framed now ref room rt =
    let matched = record room {
      match_status = MatchStatus.matched;
      ready_players = [];
      last_activity_at = now;
    } in
    let f = arm_matched_attach_deadline-Framed now ref matched rt in
    record {
      same_id = ground (arith, f.same_id);
      same_removed = ground (arith, f.same_removed);
      same_players = ground (arith, f.same_players);
    }

pub arm_ready_deadline-Framed :
    (now ref : ℕ) (room : Room) (rt : Runtime) → Framed room (arm_ready_deadline now ref room rt).1
unfolding arm_ready_deadline detach_ready_deadline launch_room_worker
arm_ready_deadline-Framed now ref room rt = record {
  same_id = ground arith;
  same_removed = ground arith;
  same_players = ground arith;
}

pub start_match_countdown-Framed :
    (ref : ℕ) (r : RoomResources) (room : Room) (rt : Runtime)
    → Framed room (start_match_countdown ref r room rt).1
unfolding start_match_countdown detach_ready_deadline launch_room_worker
start_match_countdown-Framed ref r room rt = record {
  same_id = ground arith;
  same_removed = ground arith;
  same_players = ground arith;
}

pub advance_match_loading-Framed :
    (now ref : ℕ) (r : RoomResources) (room : Room) (rt : Runtime)
    → Framed room (advance_match_loading now ref r room rt).2
unfolding advance_match_loading detach_matched_attach_deadline
advance_match_loading-Framed now ref r room rt =
    let (r1, room1) =
      detach_matched_attach_deadline r (record room { match_status = MatchStatus.loading }) in
    let f = start_match_countdown-Framed ref r1 room1 rt in
    let g = arm_ready_deadline-Framed now ref room1 rt in
    record {
      same_id = ground (arith, f.same_id, g.same_id);
      same_removed = ground (arith, f.same_removed, g.same_removed);
      same_players = ground (arith, f.same_players, g.same_players);
    }

pub start_room_locked-Framed :
    (spawn : GameConfig → ℕ → Vector2) (now ref : ℕ) (room : Room) (rt : Runtime)
    → Framed room (start_room_locked spawn now ref room rt).1
unfolding start_room_locked stop_match_countdown start_room_ticker launch_room_worker
start_room_locked-Framed spawn now ref room rt = record {
  same_id = ground arith;
  same_removed = ground arith;
  same_players = ground arith;
}

pub tick_match_countdown_room-Framed :
    (spawn : GameConfig → ℕ → Vector2) (now ref ticker : ℕ) (room : Room) (rt : Runtime)
    → Framed room (tick_match_countdown_room spawn now ref ticker room rt).1
unfolding tick_match_countdown_room
tick_match_countdown_room-Framed spawn now ref ticker room rt =
    let f = start_room_locked-Framed spawn now ref (record room { countdown = 0 }) rt in
    record {
      same_id = ground (arith, f.same_id);
      same_removed = ground (arith, f.same_removed);
      same_players = ground (arith, f.same_players);
    }
