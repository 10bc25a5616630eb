-- ===== src/Rooms/Invariant/Joins.antt =====
-- The invariant across a human's join, with a new room if none has a place (store.go).
use server_crawl_stars.Base.{
  ℕ, ◌<◌, ◌≡◌, sym, ap, ◌∙◌, leb, String, true, false, List, [], ◌∷◌, Option, none, some, arith,
  length, if_keep,
}
use mathlib.Core.Path.{subst}
use server_crawl_stars.Base.Dict.{Dict, has_key}
use server_crawl_stars.Simulation.Types.{GameConfig}
use server_crawl_stars.Rooms.Types.{
  invalid_game_mode, invalid_character_type, active_room_cap_reached, Result, ok, err, internal,
  expiry, RoomResources, Runtime, Store,
}
use server_crawl_stars.Rooms.Resources.{no_resources, merge}
use server_crawl_stars.Rooms.Monad.{
  M, ◌>>=◌, ◌>>◌, return, gets, modify, refuse_if, or_fail, put_runtime,
}
use server_crawl_stars.Rooms.Identity.{PlayerCredentials, release_player_ids, unique_room_id}
use server_crawl_stars.Rooms.Participants.{add_player_locked, new_room, to_response}
use server_crawl_stars.Rooms.Registry.{
  register, detach_expired_rooms, close_resources, is_cap_reached,
}
use server_crawl_stars.Rooms.Phases.{mark_room_matched_if_full, arm_bot_fill}
use server_crawl_stars.Simulation.Modes.{select_mode}
use server_crawl_stars.Rooms.Matchmaking.{
  MatchmakingJoinResult, ensure_credentials_locked, Search, joined, no_room, join_each, join_result,
  create_matchmaking_room, release_if_failed, create_with_retry, join_or_create,
  resolve_matchmaking_character_type, join_matchmaking_request,
}
use server_crawl_stars.Rooms.Invariant.Frames.{
  mark_room_matched_if_full-Framed, arm_bot_fill-Framed,
}
use server_crawl_stars.Rooms.Invariant.{view, IsGood, IsValid}
use server_crawl_stars.Rooms.Invariant.Keeps.{Framed-trans, release}
use server_crawl_stars.Rooms.Invariant.Retirement.{detach_expired_rooms-IsGood}
use server_crawl_stars.Rooms.Invariant.Outcomes.{
  Outcome, bind_outcome, cases_outcome, refuse_outcome, or_fail_outcome, Left, SameRooms,
  unique_room_id-Outcome,
}
use server_crawl_stars.Rooms.Invariant.Creation.{register-IsGood}
use server_crawl_stars.Rooms.Invariant.Search.{
  held, Searched, ensure_credentials_locked-Outcome, join_each-Outcome,
}
use server_crawl_stars.Rooms.Invariant.Seats.{
  Seated, Seated-Framed, add_player_locked-Seated, Outcome_any,
}

-- The new room of `createMatchmakingRoom`.
new_match_room-Seated :
    (now ref : ℕ) (id : String) (config : GameConfig) (c : PlayerCredentials) (character : ℕ)
    (rt : Runtime)
    → let room1 = (add_player_locked now c character (new_room now id config)).1 in
      let matched = mark_room_matched_if_full now ref room1 rt in
      Seated (c.id ∷ []) (new_room now id config) (arm_bot_fill ref matched.1 matched.2).1
new_match_room-Seated now ref id config c character rt =
    let room1 = (add_player_locked now c character (new_room now id config)).1 in
    let (r, room2, rt2) = mark_room_matched_if_full now ref room1 rt in
    Seated-Framed (add_player_locked-Seated now c character (new_room now id config)) (
      Framed-trans (mark_room_matched_if_full-Framed now ref room1 rt)
        (arm_bot_fill-Framed ref room2 rt2))

create_matchmaking_room-Outcome :
    (now : ℕ) (o : Option PlayerCredentials) (config : GameConfig) (character : ℕ) (s : Store)
    → IsGood (held o) (view s)
    → Outcome (λ a. IsValid) (Left (held o)) (create_matchmaking_room now o config character s)
unfolding create_matchmaking_room new_room
create_matchmaking_room-Outcome now o config character s g =
    let finish : String → PlayerCredentials → M (MatchmakingJoinResult × RoomResources) = λ id c.
      (do
        ref ← gets (λ s. s.next_room)
        rt ← gets (λ s. s.runtime)
        let issued = add_player_locked now c character (new_room now id config)
        let matched = mark_room_matched_if_full now ref issued.1 rt
        let armed = arm_bot_fill ref matched.1 matched.2
        modify (λ s. put_runtime armed.2 (register armed.1 s))
        game_map ← gets (λ s. s.game_config.game_map)
        return (
          join_result config (to_response game_map armed.1) issued.0,
          merge matched.0 armed.0,
        )) in
    let make : String → M (MatchmakingJoinResult × RoomResources) =
      λ id. ensure_credentials_locked o >>= finish id in
    let draw : M (MatchmakingJoinResult × RoomResources) = unique_room_id >>= make in
    refuse_outcome (λ a. IsValid) (Left (held o)) s.closed internal
      (gets (λ t. leb t.max_active_rooms (length t.rooms)) >>= λ full.
        refuse_if full active_room_cap_reached >> draw)
      s g
      (λ h.
        refuse_outcome (λ a. IsValid) (Left (held o)) (leb s.max_active_rooms (length s.rooms))
          active_room_cap_reached draw s g
          (λ i.
            bind_outcome
              (λ id t.
                (has_key id t.rooms ≡ false)
                × (length t.rooms < t.max_active_rooms)
                × Left (held o) t)
              (λ a. IsValid) (Left (held o)) (unique_room_id s) make
              (unique_room_id-Outcome (held o) s g (ground arith))
              (λ id t (free, space, k).
                bind_outcome (λ c u. SameRooms t u × IsGood (c.id ∷ []) (view u)) (λ a. IsValid)
                  (Left (held o)) (ensure_credentials_locked o t) (finish id)
                  (ensure_credentials_locked-Outcome o t k)
                  (λ c u (same, m).
                    let f = new_match_room-Seated now u.next_room id config c character u.runtime in
                    register-IsGood (c.id ∷ []) [] _ u
                      (subst (λ j. has_key j u.rooms ≡ false) (sym f.same_id)
                        (ap (λ (r : Dict ℕ). has_key id r) same.0 ∙ free))
                      (omega (arith, space, ap (λ (r : Dict ℕ). length r) same.0, same.1))
                      f.same_removed f.seats m))))

capped :
    {A : Type 0} (E : Store → Type 0) (m : Result A × Store)
    → Outcome (λ a. IsValid) E m
    → is_cap_reached m.0 ≡ true
    → E m.1
capped E (ok a, s) h e = absurd (ground arith)
capped E (err x, s) h e = h

closed_outcome :
    {A : Type 0} (ids : List String) (r : RoomResources) (m : Result A × Store)
    → Outcome (λ a. IsValid) (Left ids) m
    → Outcome (λ a. IsValid) (Left ids) (m.0, close_resources expiry r m.1)
unfolding close_resources
closed_outcome ids r (ok a, s) h = h
closed_outcome ids r (err x, s) h = h

create_with_retry-Outcome :
    (now : ℕ) (o : Option PlayerCredentials) (config : GameConfig) (character : ℕ) (s : Store)
    → IsGood (held o) (view s)
    → Outcome (λ a. IsValid) (Left (held o)) (create_with_retry now o config character s)
unfolding create_with_retry
create_with_retry-Outcome now o config character s g =
    let m = create_matchmaking_room now o config character s in
    let good = create_matchmaking_room-Outcome now o config character s g in
    let (_, r, s2) = detach_expired_rooms now no_resources m.1 in
    if_keep
      (λ (q : Result (MatchmakingJoinResult × RoomResources) × Store).
        Outcome (λ a. IsValid) (Left (held o)) q)
      (is_cap_reached m.0)
      (λ h. closed_outcome (held o) r (create_matchmaking_room now o config character s2) (
        create_matchmaking_room-Outcome now o config character s2 (
          detach_expired_rooms-IsGood (held o) now no_resources m.1
            (capped (Left (held o)) m good h))))
      (λ h. good)

release_if_failed-Outcome :
    {A : Type 0} (o : Option PlayerCredentials) (m : M A) (s : Store)
    → Outcome (λ a. IsValid) (Left (held o)) (m s)
    → Outcome (λ a. IsValid) IsValid (release_if_failed o m s)
unfolding release_player_ids
release_if_failed-Outcome none m s h = h
release_if_failed-Outcome (some c) m s h =
    cases_outcome (λ a. IsValid) (λ a. IsValid) (Left (c.id ∷ [])) IsValid (m s) (λ a t. (ok a, t))
      (λ e t. (err e, release_player_ids (c.id ∷ []) t)) h (λ a t i. i)
      (λ e t i. release (c.id ∷ []) [] (view t) i)

join_or_create-Outcome :
    (now : ℕ) (config : GameConfig) (character : ℕ) (s : Store)
    → IsValid s
    → Outcome (λ a. IsValid) IsValid (join_or_create now config character s)
unfolding join_or_create
join_or_create-Outcome now config character s g =
    bind_outcome Searched (λ a. IsValid) IsValid (join_each now config character s.rooms none s)
      (λ search t. elim search [
        | joined result r ↦ (ok (result, r), t)
        | no_room o ↦ release_if_failed o (create_with_retry now o config character) t
      ])
      (join_each-Outcome now config character s.rooms none s g.unique (λ k ref e. e) g)
      (λ search t h. searched search t h)
  where
    searched :
        (search : Search) (t : Store)
        → Searched search t
        → Outcome
            (λ a. IsValid)
            IsValid
            (elim search as (λ x. Result (MatchmakingJoinResult × RoomResources) × Store) [
              | joined result r ↦ (ok (result, r), t)
              | no_room o ↦ release_if_failed o (create_with_retry now o config character) t
            ])
    searched (joined result r) t h = h
    searched (no_room o) t h =
        release_if_failed-Outcome o (create_with_retry now o config character) t
          (create_with_retry-Outcome now o config character t h)

pub join_matchmaking_request-IsValid :
    (now : ℕ) (game_mode : String) (raw : Option ℕ) (s : Store)
    → IsValid s
    → IsValid (join_matchmaking_request now game_mode raw s).1
unfolding join_matchmaking_request close_resources
join_matchmaking_request-IsValid now game_mode raw s g =
    let finish : MatchmakingJoinResult × RoomResources → M MatchmakingJoinResult =
      λ outcome. modify (close_resources expiry outcome.1) >> return outcome.0 in
    let join : GameConfig → ℕ → M MatchmakingJoinResult =
      λ config character. join_or_create now config character >>= finish in
    let resolve : GameConfig → M MatchmakingJoinResult = λ config.
      or_fail (resolve_matchmaking_character_type config raw) invalid_character_type
      >>= join config in
    Outcome_any IsValid (join_matchmaking_request now game_mode raw s) (
      refuse_outcome (λ a. IsValid) IsValid s.closed internal
        (gets (λ t. select_mode t.game_config game_mode) >>= λ selected.
          or_fail selected invalid_game_mode >>= resolve)
        s g
        (λ h.
          or_fail_outcome (λ a. IsValid) IsValid (select_mode s.game_config game_mode)
            invalid_game_mode resolve s g
            (λ config e.
              or_fail_outcome (λ a. IsValid) IsValid (resolve_matchmaking_character_type config raw)
                invalid_character_type (join config) s g
                (λ character i.
                  bind_outcome (λ a. IsValid) (λ a. IsValid) IsValid
                    (join_or_create now config character s) finish
                    (join_or_create-Outcome now config character s g) (λ outcome t k. k)))))
