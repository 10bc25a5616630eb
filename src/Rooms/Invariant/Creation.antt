-- ===== src/Rooms/Invariant/Creation.antt =====
-- The invariant across the operations that make rooms (store.go).
use server_crawl_stars.Base.{
  ℕ, ◌<◌, ◌≡◌, refl, sym, leb, String, false, List, [], ◌++◌, none, arith, length, if_keep,
}
use mathlib.Core.Path.{subst}
use server_crawl_stars.Base.Dict.{Dict, lookup, has_key}
use server_crawl_stars.Rooms.Types.{active_room_cap_reached, Result, internal, expiry, Room, Store}
use server_crawl_stars.Rooms.Resources.{no_resources}
use server_crawl_stars.Rooms.Monad.{M, ◌>>=◌, ◌>>◌, return, gets, modify, refuse_if}
use server_crawl_stars.Rooms.Identity.{unique_room_id}
use server_crawl_stars.Rooms.Participants.{new_room, RoomResponse, to_response}
use server_crawl_stars.Rooms.Registry.{
  register, create_room_once, create_room, detach_expired_rooms, is_cap_reached,
}
use server_crawl_stars.Rooms.Invariant.{ids_of, view, IsGood, IsValid}
use server_crawl_stars.Rooms.Invariant.Views.{view-register}
use server_crawl_stars.Rooms.Invariant.Keeps.{enter}
use server_crawl_stars.Rooms.Invariant.Retirement.{
  detach_expired_rooms-IsGood, close_resources-IsValid,
}
use server_crawl_stars.Rooms.Invariant.Outcomes.{
  Outcome, bind_outcome, refuse_outcome, Left, unique_room_id-Outcome,
}
use server_crawl_stars.Rooms.Invariant.Seats.{Outcome_any}

no_key : {V : Type 0} (k : String) (m : Dict V) → has_key k m ≡ false → lookup k m ≡ none
no_key k m e = ground arith

-- A new room is registered with its players under spare identifiers.
pub register-IsGood :
    (ids spare : List String) (room : Room) (s : Store)
    → has_key room.id s.rooms ≡ false
    → length s.rooms < s.max_active_rooms
    → room.removed ≡ false
    → ids_of room.players ≡ ids
    → IsGood (ids ++ spare) (view s)
    → IsGood spare (view (register room s))
register-IsGood ids spare room s free space there seats g =
    subst (IsGood spare) (sym (view-register room s))
      (enter ids spare (view s) room (no_key room.id s.rooms free) space there seats g)

create_room_once-Outcome :
    (now : ℕ) (s : Store) → IsValid s → Outcome (λ a. IsValid) IsValid (create_room_once now s)
unfolding create_room_once new_room
create_room_once-Outcome now s g =
    let make : String → M RoomResponse = λ id. (do
      config ← gets (λ s. s.game_config)
      modify (register (new_room now id config))
      return (to_response config.game_map (new_room now id config))) in
    let draw : M RoomResponse = unique_room_id >>= make in
    refuse_outcome (λ a. IsValid) IsValid s.closed internal
      (gets (λ t. leb t.max_active_rooms (length t.rooms)) >>= λ full.
        refuse_if full active_room_cap_reached >> draw)
      s g
      (λ h.
        refuse_outcome (λ a. IsValid) IsValid (leb s.max_active_rooms (length s.rooms))
          active_room_cap_reached draw s g
          (λ i.
            bind_outcome
              (λ id t.
                (has_key id t.rooms ≡ false) × (length t.rooms < t.max_active_rooms) × Left [] t)
              (λ a. IsValid) IsValid (unique_room_id s) make
              (unique_room_id-Outcome [] s g (ground arith))
              (λ id t (free, space, k).
                register-IsGood [] [] (new_room now id t.game_config) t free space refl refl k)))

pub create_room-IsValid : (now : ℕ) (s : Store) → IsValid s → IsValid (create_room now s).1
unfolding create_room
create_room-IsValid now s g =
    let s1 = (create_room_once now s).1 in
    let good = Outcome_any IsValid (create_room_once now s) (create_room_once-Outcome now s g) in
    let (_, r, s2) = detach_expired_rooms now no_resources s1 in
    let cleaned = detach_expired_rooms-IsGood [] now no_resources s1 good in
    let again =
      Outcome_any IsValid (create_room_once now s2) (create_room_once-Outcome now s2 cleaned) in
    if_keep (λ (o : Result RoomResponse × Store). IsValid o.1) s.closed (λ h. g)
      (λ h.
        if_keep (λ (o : Result RoomResponse × Store). IsValid o.1)
          (is_cap_reached (create_room_once now s).0)
          (λ i. close_resources-IsValid expiry r (create_room_once now s2).1 again) (λ i. good))
