-- ===== src/Rooms/Invariant/Bots.antt =====
-- The invariant when bots are added to a room, or fill it (store.go).
use server_crawl_stars.Base.{
  ℕ, zero, suc, ◌-◌, ◌≡◌, refl, sym, ap, ◌∙◌, inl, inr, ◌==◌, String, not, ◌||◌, List, [], ◌∷◌,
  ◌++◌, Option, none, some, arith, is_ref, length, if_keep, Option-cases,
}
use server_crawl_stars.Base.Dict.{lookup}
use server_crawl_stars.Rooms.Types.{
  RoomError, Result, ok, err, internal, room_not_found, PlayerResponse, RoomResources, Room, Store,
}
use server_crawl_stars.Rooms.Resources.{no_resources, merge, detach_bot_fill}
use server_crawl_stars.Rooms.Monad.{M, ◌>>=◌, ◌>>◌, gets, or_fail, put_room}
use server_crawl_stars.Rooms.Identity.{
  identity_retry_limit, player_id_prefix, unique_value, reserve_from, unique_player_id,
  reserve_player_id, release_player_ids, reserve_bot_ids,
}
use server_crawl_stars.Rooms.Participants.{is_waiting, is_unset, append_bots, bot_append_error}
use server_crawl_stars.Rooms.Matchmaking.{
  detach_bot_fill_if, refuse, choose_bot_characters, seat_bots, choose_and_seat, add_some_bots,
  add_bots, fill_with, fill_matchmaking_bots,
}
use server_crawl_stars.Rooms.Phases.{mark_room_matched_if_full}
use server_crawl_stars.Simulation.Modes.{match_player_count}
use server_crawl_stars.Rooms.Registry.{owns}
use server_crawl_stars.Rooms.Invariant.Retirement.{owns_lem}
use server_crawl_stars.Rooms.Invariant.{view, IsGood, IsValid}
use server_crawl_stars.Rooms.Invariant.Keeps.{Framed, Framed-trans, put-Framed, release}
use server_crawl_stars.Rooms.Invariant.Outcomes.{
  Outcome, bind_outcome, outcome_map, refuse_outcome, or_fail_outcome, SameRooms,
  reserve_bot_ids-Outcome,
}
use server_crawl_stars.Rooms.Invariant.Members.{put_room-IsValid}
use server_crawl_stars.Rooms.Invariant.Seats.{
  Seated-Framed, Framed-Seated, append_bots-Seated, choose_bot_characters-length, put_room-IsGood,
  detach_bot_fill_if-Framed, Outcome_any, any_Outcome,
}
use server_crawl_stars.Rooms.Invariant.Frames.{
  Framed-refl, mark_room_matched_if_full-Framed, advance_match_loading-Framed,
  detach_bot_fill-Framed,
}

seat_bots-IsValid :
    (now : ℕ) (k : String) (ref : ℕ) (ids : List String) (cs : List ℕ) (r : RoomResources)
    (room : Room) (s : Store)
    → lookup k s.rooms ≡ some ref
    → Framed (s.heap ref) room
    → length cs ≡ length ids
    → IsGood (ids ++ []) (view s)
    → IsValid (seat_bots now ref ids cs r room s).1
unfolding seat_bots
seat_bots-IsValid now k ref ids cs r room s e f long g =
    let seated = Framed-Seated f (append_bots-Seated now ids cs room long) in
    let room1 = (append_bots now ids cs room).1 in
    let (r2, room2, rt2) = mark_room_matched_if_full now ref room1 s.runtime in
    let is_full = length room2.players == match_player_count room2.game_config in
    let (r3, room3) = detach_bot_fill_if is_full (merge r r2) room2 in
    let framed = Framed-trans (mark_room_matched_if_full-Framed now ref room1 s.runtime) (
      Framed-trans (detach_bot_fill_if-Framed is_full (merge r r2) room2)
        (advance_match_loading-Framed now ref r3 room3 rt2)) in
    put_room-IsGood ids [] k ref _ s e (Seated-Framed seated framed) g

choose_and_seat-IsValid :
    (now : ℕ) (k : String) (ref : ℕ) (ids : List String) (s : Store)
    → lookup k s.rooms ≡ some ref
    → IsGood (ids ++ []) (view s)
    → IsValid (choose_and_seat now ref ids s).1
unfolding choose_and_seat release_player_ids
choose_and_seat-IsValid now k ref ids s e g =
    let chosen = choose_bot_characters (length ids) s.bot_choices in
    elim (Option-cases chosen.0) [
      | inl h ↦ simp (choose_and_seat, h) (release ids [] (view s) g)
      | inr (cs, h) ↦
          simp (choose_and_seat, h)
            (seat_bots-IsValid now k ref ids cs no_resources (s.heap ref)
              (record s { bot_choices = chosen.1 }) e Framed-refl
              (choose_bot_characters-length (length ids) s.bot_choices cs h) g)
    ]

refuse_reason :
    {B : Type 0} (R : B → Store → Type 0) (E : Store → Type 0) (o : Option RoomError) (m : M B)
    (s : Store)
    → E s
    → Outcome R E (m s)
    → Outcome R E ((refuse o >> m) s)
refuse_reason R E none m s f g = g
refuse_reason R E (some e) m s f g = f

pub add_bots-IsValid :
    (now : ℕ) (id : String) (n : ℕ) (s : Store) → IsValid s → IsValid (add_bots now id n s).1
unfolding add_bots add_some_bots
add_bots-IsValid now id zero s g = g
add_bots-IsValid now id (suc n) s g =
    let reserve_and_seat : ℕ → M (List PlayerResponse) =
      λ ref. reserve_bot_ids (suc n) >>= choose_and_seat now ref in
    let look : ℕ → M (List PlayerResponse) = λ ref.
      gets (λ t. bot_append_error (t.heap ref) (suc n)) >>= λ problem.
      refuse problem >> reserve_and_seat ref in
    Outcome_any IsValid (add_bots now id (suc n) s) (
      refuse_outcome (λ a. IsValid) IsValid s.closed internal
        (gets (λ t. lookup id t.rooms) >>= λ found. or_fail found room_not_found >>= look) s g
        (λ h.
          or_fail_outcome (λ a. IsValid) IsValid (lookup id s.rooms) room_not_found look s g
            (λ ref e.
              refuse_reason (λ a. IsValid) IsValid (bot_append_error (s.heap ref) (suc n))
                (reserve_and_seat ref) s g
                (bind_outcome
                  (λ js t. (length js ≡ suc n) × SameRooms s t × IsGood (js ++ []) (view t))
                  (λ a. IsValid) IsValid (reserve_bot_ids (suc n) s) (choose_and_seat now ref)
                  (reserve_bot_ids-Outcome (suc n) [] s g)
                  (λ ids t (long, same, i).
                    any_Outcome IsValid _
                      (choose_and_seat-IsValid now id ref ids t (ap (lookup id) same.0 ∙ e) i))))))

reserve_from_heap : (n : ℕ) (ids : List String) (s : Store) → (reserve_from n ids s).1.heap ≡ s.heap
unfolding reserve_from unique_player_id reserve_player_id release_player_ids
reserve_from_heap zero ids s = refl
reserve_from_heap (suc n) ids s =
    let drawn = unique_value identity_retry_limit player_id_prefix s.player_ids s.random in
    let t = record s { random = drawn.1 } in
    elim drawn.0
      as (λ (r : Result String).
        (elim r as (λ q. Result (List String) × Store) [
          | ok id ↦ reserve_from n (ids ++ id ∷ []) (reserve_player_id id t)
          | err e ↦ (err e, release_player_ids ids t)
        ]).1.heap
        ≡ s.heap) [
          | ok id ↦ reserve_from_heap n (ids ++ id ∷ []) (reserve_player_id id t)
          | err e ↦ refl
        ]

reserve_from_rooms :
    (n : ℕ) (ids : List String) (s : Store) → (reserve_from n ids s).1.rooms ≡ s.rooms
unfolding reserve_from unique_player_id reserve_player_id release_player_ids
reserve_from_rooms zero ids s = refl
reserve_from_rooms (suc n) ids s =
    let drawn = unique_value identity_retry_limit player_id_prefix s.player_ids s.random in
    let t = record s { random = drawn.1 } in
    elim drawn.0
      as (λ (r : Result String).
        (elim r as (λ q. Result (List String) × Store) [
          | ok id ↦ reserve_from n (ids ++ id ∷ []) (reserve_player_id id t)
          | err e ↦ (err e, release_player_ids ids t)
        ]).1.rooms
        ≡ s.rooms) [
          | ok id ↦ reserve_from_rooms n (ids ++ id ∷ []) (reserve_player_id id t)
          | err e ↦ refl
        ]

fill_with-IsValid :
    (now : ℕ) (k : String) (ref : ℕ) (r : RoomResources) (room : Room)
    (m : Result (List String) × Store)
    → lookup k m.1.rooms ≡ some ref
    → Framed (m.1.heap ref) room
    → Outcome (λ js t. IsGood (js ++ []) (view t)) IsValid m
    → IsValid (fill_with now ref r room m.0 m.1)
unfolding fill_with release_player_ids
fill_with-IsValid now k ref r room (err problem, s) e f g = put_room-IsValid ref room s f g
fill_with-IsValid now k ref r room (ok ids, s) e f g =
    let chosen = choose_bot_characters (length ids) s.bot_choices in
    elim (Option-cases chosen.0) [
      | inl h ↦
          simp (fill_with, h)
            (release ids [] (view (put_room ref room s))
              (put-Framed (ids ++ []) (view s) ref room f g))
      | inr (cs, h) ↦
          simp (fill_with, h)
            (seat_bots-IsValid now k ref ids cs r room (record s { bot_choices = chosen.1 }) e f
              (choose_bot_characters-length (length ids) s.bot_choices cs h) g)
    ]

pub fill_matchmaking_bots-IsValid :
    (now ref ticker : ℕ) (s : Store) → IsValid s → IsValid (fill_matchmaking_bots now ref ticker s)
unfolding fill_matchmaking_bots reserve_bot_ids
fill_matchmaking_bots-IsValid now ref ticker s g =
    let room = s.heap ref in
    let n = match_player_count room.game_config - length room.players in
    let (r, room') = detach_bot_fill no_resources room in
    let f = detach_bot_fill-Framed no_resources room in
    let same : ((reserve_bot_ids n s).1.heap ref) ≡ room =
      ap (λ (h : ℕ → Room). h ref) (reserve_from_heap n [] s) in
    if_keep IsValid
      (s.closed
        || not (owns room.id ref s)
        || room.removed
        || room.ending
        || not (is_waiting room.status)
        || not (is_unset room.match_status)
        || not (is_ref room.bot_fill_ticker ticker))
      (λ h. g)
      (λ h.
        fill_with-IsValid now room.id ref r room' (reserve_bot_ids n s)
          (ap (lookup room.id) (reserve_from_rooms n [] s) ∙ owns_lem room.id ref s (ground arith))
          (record {
            same_id = f.same_id ∙ ap Room.id (sym same);
            same_removed = f.same_removed ∙ ap Room.removed (sym same);
            same_players = f.same_players ∙ ap Room.players (sym same);
          })
          (outcome_map (λ js t. (length js ≡ n) × SameRooms s t × IsGood (js ++ []) (view t))
            (λ js t. IsGood (js ++ []) (view t)) IsValid IsValid (reserve_bot_ids n s)
            (reserve_bot_ids-Outcome n [] s g) (λ js t q. q.2) (λ t q. q)))
