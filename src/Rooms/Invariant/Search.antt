-- ===== src/Rooms/Invariant/Search.antt =====
-- The invariant across a human's search for a room (store.go).
use server_crawl_stars.Base.{
  ℕ, ◌≡◌, refl, sym, ap, ◌∙◌, ◌==◌, String, List, [], ◌∷◌, Option, none, some, arith, eq_iff,
  length, if_keep,
}
use mathlib.Core.Path.{subst}
use server_crawl_stars.Base.Dict.{Dict, Unique, lookup}
use server_crawl_stars.Simulation.Types.{GameConfig}
use server_crawl_stars.Rooms.Types.{Result, ok, RoomResources, Room, Runtime, Store}
use server_crawl_stars.Rooms.Monad.{M}
use server_crawl_stars.Rooms.Identity.{PlayerCredentials}
use server_crawl_stars.Rooms.Participants.{human_count, can_accept_matchmaking, add_player_locked}
use server_crawl_stars.Rooms.Phases.{mark_room_matched_if_full}
use server_crawl_stars.Simulation.Modes.{match_player_count}
use server_crawl_stars.Rooms.Matchmaking.{
  debug_room_capacity, arm_joined_room, MatchmakingJoinResult, try_join_matchmaking_room,
  ensure_credentials, ensure_credentials_locked, Search, joined, no_room, joinable, join_each,
}
use server_crawl_stars.Rooms.Invariant.Frames.{
  mark_room_matched_if_full-Framed, arm_bot_fill-Framed,
}
use server_crawl_stars.Rooms.Invariant.{view, IsGood, IsValid}
use server_crawl_stars.Rooms.Invariant.Keeps.{Framed, Framed-trans}
use server_crawl_stars.Rooms.Invariant.Retirement.{Listed}
use server_crawl_stars.Rooms.Invariant.Outcomes.{
  Outcome, bind_outcome, Left, SameRooms, issue_player_credentials-Outcome,
  issue_player_credentials_locked-Outcome,
}
use server_crawl_stars.Rooms.Invariant.Seats.{
  detach_bot_fill_if-Framed, Seated-Framed, add_player_locked-Seated, put_room-IsGood,
}

-- The identifier that credentials hold.
abbrev pub held : Option PlayerCredentials → List String
held none = []
held (some c) = c.id ∷ []

arm_joined_room-Framed :
    (now ref humans : ℕ) (room : Room) (rt : Runtime)
    → Framed room (arm_joined_room now ref humans room rt).1
unfolding arm_joined_room
arm_joined_room-Framed now ref humans room rt =
    let (r1, room1, rt1) = mark_room_matched_if_full now ref room rt in
    let f = mark_room_matched_if_full-Framed now ref room rt in
    let is_full = length room1.players == match_player_count room1.game_config in
    if_keep (λ (l : RoomResources × Room × Runtime). Framed room l.1) (humans == 0)
      (λ h. Framed-trans f (arm_bot_fill-Framed ref room1 rt1))
      (λ h. Framed-trans f (detach_bot_fill_if-Framed is_full r1 room1))

-- A join tried on a registered room gives the credentials away or changes nothing.
abbrev Tried :
    PlayerCredentials → Store → Option (MatchmakingJoinResult × RoomResources) → Store → Type 0
Tried c s none t = t ≡ s
Tried c s (some _) t = IsValid t

try_join-Tried :
    (now : ℕ) (config : GameConfig) (k : String) (ref : ℕ) (c : PlayerCredentials) (character : ℕ)
    (s : Store)
    → lookup k s.rooms ≡ some ref
    → IsGood (c.id ∷ []) (view s)
    → Tried c s
        (try_join_matchmaking_room now config ref c character s).0
        (try_join_matchmaking_room now config ref c character s).1
unfolding try_join_matchmaking_room
try_join-Tried now config k ref c character s e g =
    let room = s.heap ref in
    let room1 = (add_player_locked now c character room).1 in
    let seated =
      Seated-Framed (add_player_locked-Seated now c character room)
        (arm_joined_room-Framed now ref (human_count room.players) room1 s.runtime) in
    if_keep (λ (o : Option (MatchmakingJoinResult × RoomResources) × Store). Tried c s o.0 o.1)
      (can_accept_matchmaking (debug_room_capacity s) room)
      (λ h. put_room-IsGood (c.id ∷ []) [] k ref _ s e seated g) (λ h. refl)

pub ensure_credentials-Outcome :
    (o : Option PlayerCredentials) (s : Store)
    → IsGood (held o) (view s)
    → Outcome (λ c t. SameRooms s t × IsGood (c.id ∷ []) (view t)) IsValid (ensure_credentials o s)
ensure_credentials-Outcome none s g = issue_player_credentials-Outcome [] s g
ensure_credentials-Outcome (some c) s g = ((refl, refl, refl), g)

pub ensure_credentials_locked-Outcome :
    (o : Option PlayerCredentials) (s : Store)
    → IsGood (held o) (view s)
    → Outcome
        (λ c t. SameRooms s t × IsGood (c.id ∷ []) (view t))
        (Left (held o))
        (ensure_credentials_locked o s)
ensure_credentials_locked-Outcome none s g = issue_player_credentials_locked-Outcome [] s g
ensure_credentials_locked-Outcome (some c) s g = ((refl, refl, refl), g)

-- The search gives the credentials away or keeps them.
abbrev pub Searched : Search → Store → Type 0
Searched (joined result r) t = IsValid t
Searched (no_room o) t = IsGood (held o) (view t)

Tried-Outcome :
    (c : PlayerCredentials) (t : Store) (answer : Option (MatchmakingJoinResult × RoomResources))
    (s : Store) (further : Result Search × Store)
    → Tried c t answer s
    → (s ≡ t → Outcome Searched IsValid further)
    → Outcome Searched IsValid
        (elim answer [ none ↦ further | some (result, r) ↦ (ok (joined result r), s) ])
Tried-Outcome c t none s further h k = k h
Tried-Outcome c t (some (result, r)) s further h k = h

pub join_each-Outcome :
    (now : ℕ) (config : GameConfig) (character : ℕ) (rooms : Dict ℕ) (o : Option PlayerCredentials)
    (s : Store)
    → Unique rooms
    → Listed rooms s
    → IsGood (held o) (view s)
    → Outcome Searched IsValid (join_each now config character rooms o s)
unfolding join_each lookup
join_each-Outcome now config character [] o s u l g = g
join_each-Outcome now config character ((k, ref) ∷ rooms) o s u l g =
    let rest =
      λ (j : String) (r : ℕ) (h : lookup j rooms ≡ some r). l j r (ground (arith, eq_iff k j)) in
    let e : lookup k s.rooms ≡ some ref = l k ref (ground (arith, eq_iff k k)) in
    let attempt : PlayerCredentials → M Search = λ c t.
      let (answer, s2) = try_join_matchmaking_room now config ref c character t in
      let further = join_each now config character rooms (some c) s2 in
      elim answer [ none ↦ further | some (result, r) ↦ (ok (joined result r), s2) ] in
    if_keep (λ (m : Result Search × Store). Outcome Searched IsValid m)
      (joinable config s (s.heap ref))
      (λ h.
        bind_outcome (λ c t. SameRooms s t × IsGood (c.id ∷ []) (view t)) Searched IsValid
          (ensure_credentials o s) attempt (ensure_credentials-Outcome o s g)
          (λ c t (same, i).
            let (answer, s2) = try_join_matchmaking_room now config ref c character t in
            Tried-Outcome c t answer s2 (join_each now config character rooms (some c) s2)
              (try_join-Tried now config k ref c character t (ap (lookup k) same.0 ∙ e) i)
              (λ back.
                subst
                  (λ v. Outcome Searched IsValid (join_each now config character rooms (some c) v))
                  (sym back)
                  (join_each-Outcome now config character rooms (some c) t u.1
                    (λ j r m. ap (lookup j) same.0 ∙ rest j r m) i))))
      (λ h. join_each-Outcome now config character rooms o s u.1 rest g)
