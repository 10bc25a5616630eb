-- ===== src/Rooms/Invariant/Seats.antt =====
-- The invariant when players and bots take places in a registered room (store.go).
use server_crawl_stars.Base.{
  ℕ, zero, suc, ◌≡◌, refl, sym, ap, ◌∙◌, inl, inr, leb, String, Bool, true, false, not, ◌||◌, List,
  [], ◌∷◌, ◌++◌, Option, none, some, arith, length, if_keep, Option-cases,
}
use mathlib.Core.List.{append_assoc, append-nil}
use server_crawl_stars.Base.Dict.{lookup}
use server_crawl_stars.Rooms.Types.{
  Result, ok, err, internal, room_not_found, PlayerResponse, RoomResources, Room, Store,
}
use server_crawl_stars.Rooms.Monad.{M, ◌>>=◌, gets, or_fail, put_room}
use server_crawl_stars.Rooms.Identity.{
  PlayerCredentials, release_player_ids, issue_player_credentials,
}
use server_crawl_stars.Rooms.Participants.{
  is_unset, append_participant, add_player_locked, append_bots, PlayerSessionResponse,
}
use server_crawl_stars.Rooms.Matchmaking.{
  debug_room_capacity, detach_bot_fill_if, admit_player, add_player, choose_bot_characters,
}
use server_crawl_stars.Rooms.Invariant.{ids_of, view, IsGood, IsValid}
use server_crawl_stars.Rooms.Invariant.Keeps.{Framed, put_seated, release}
use server_crawl_stars.Rooms.Invariant.Outcomes.{
  Outcome, bind_outcome, refuse_outcome, or_fail_outcome, SameRooms,
  issue_player_credentials-Outcome,
}
use server_crawl_stars.Rooms.Invariant.Frames.{Framed-refl, detach_bot_fill-Framed}

-- A room that only gains players, under these identifiers.
pub record Seated (ids : List String) (old new : Room) : Type 0 where
  pub same_id : new.id ≡ old.id
  pub same_removed : new.removed ≡ old.removed
  pub seats : ids_of new.players ≡ ids_of old.players ++ ids

pub Seated-Framed :
    {ids : List String} {a b c : Room} → Seated ids a b → Framed b c → Seated ids a c
Seated-Framed f g = record {
  same_id = g.same_id ∙ f.same_id;
  same_removed = g.same_removed ∙ f.same_removed;
  seats = ap ids_of g.same_players ∙ f.seats;
}

pub Framed-Seated :
    {ids : List String} {a b c : Room} → Framed a b → Seated ids b c → Seated ids a c
Framed-Seated {ids} f g = record {
  same_id = g.same_id ∙ f.same_id;
  same_removed = g.same_removed ∙ f.same_removed;
  seats = g.seats ∙ ap (λ ps. ids_of ps ++ ids) f.same_players;
}

ids_of-append : (ps qs : List PlayerResponse) → ids_of (ps ++ qs) ≡ ids_of ps ++ ids_of qs
ids_of-append [] qs = refl
ids_of-append (p ∷ ps) qs = ap (λ l. p.id ∷ l) (ids_of-append ps qs)

pub append_participant-Seated :
    (now : ℕ) (id : String) (is_bot : Bool) (character : ℕ) (room : Room)
    → Seated (id ∷ []) room (append_participant now id is_bot character room).1
unfolding append_participant
append_participant-Seated now id is_bot character room = record {
  same_id = refl;
  same_removed = refl;
  seats = ids_of-append room.players (_ ∷ []);
}

pub add_player_locked-Seated :
    (now : ℕ) (c : PlayerCredentials) (character : ℕ) (room : Room)
    → Seated (c.id ∷ []) room (add_player_locked now c character room).1
unfolding add_player_locked
add_player_locked-Seated now c character room =
    let f = append_participant-Seated now c.id false character room in
    record { same_id = f.same_id; same_removed = f.same_removed; seats = f.seats }

pub append_bots-Seated :
    (now : ℕ) (ids : List String) (characters : List ℕ) (room : Room)
    → length characters ≡ length ids
    → Seated ids room (append_bots now ids characters room).1
unfolding append_bots
append_bots-Seated now [] characters room e = record {
  same_id = refl;
  same_removed = refl;
  seats = sym (append-nil (ids_of room.players));
}
append_bots-Seated now (id ∷ ids) [] room e = absurd (omega (arith, e))
append_bots-Seated now (id ∷ ids) (c ∷ cs) room e =
    let f = append_participant-Seated now id true c room in
    let g =
      append_bots-Seated now ids cs (append_participant now id true c room).1 (omega (arith, e)) in
    record {
      same_id = g.same_id ∙ f.same_id;
      same_removed = g.same_removed ∙ f.same_removed;
      seats =
          g.seats ∙ ap (λ l. l ++ ids) f.seats ∙ append_assoc (ids_of room.players) (id ∷ []) ids;
    }

pub choose_bot_characters-length :
    (n : ℕ) (choices : List (Option ℕ)) (cs : List ℕ)
    → (choose_bot_characters n choices).0 ≡ some cs
    → length cs ≡ n
unfolding choose_bot_characters
choose_bot_characters-length zero choices cs e = ground arith
choose_bot_characters-length (suc n) [] cs e = ground arith
choose_bot_characters-length (suc n) (none ∷ choices) cs e = ground arith
choose_bot_characters-length (suc n) (some c ∷ choices) cs e =
    elim (Option-cases (choose_bot_characters n choices).0) [
      | inl h ↦ ground (arith, h)
      | inr (rest, h) ↦ ground (arith, choose_bot_characters-length n choices rest h)
    ]

pub detach_bot_fill_if-Framed :
    (b : Bool) (r : RoomResources) (room : Room) → Framed room (detach_bot_fill_if b r room).1
detach_bot_fill_if-Framed true r room = detach_bot_fill-Framed r room
detach_bot_fill_if-Framed false r room = Framed-refl

-- Spare identifiers are given to the players of a registered room.
pub put_room-IsGood :
    (ids spare : List String) (k : String) (ref : ℕ) (room : Room) (s : Store)
    → lookup k s.rooms ≡ some ref
    → Seated ids (s.heap ref) room
    → IsGood (ids ++ spare) (view s)
    → IsGood spare (view (put_room ref room s))
put_room-IsGood ids spare k ref room s e f g =
    put_seated ids spare (view s) k ref room e f.same_id f.same_removed f.seats g

admit_player-IsValid :
    (now : ℕ) (k : String) (ref : ℕ) (c : PlayerCredentials) (s : Store)
    → lookup k s.rooms ≡ some ref
    → IsGood (c.id ∷ []) (view s)
    → IsValid (admit_player now ref c s).1
unfolding admit_player release_player_ids
admit_player-IsValid now k ref c s e g =
    let room = s.heap ref in
    if_keep (λ (o : Result PlayerSessionResponse × Store). IsValid o.1)
      (room.removed || room.ending) (λ h. release (c.id ∷ []) [] (view s) g)
      (λ h.
        if_keep (λ (o : Result PlayerSessionResponse × Store). IsValid o.1)
          (not (is_unset room.match_status) || leb (debug_room_capacity s) (length room.players))
          (λ i. release (c.id ∷ []) [] (view s) g)
          (λ i.
            put_room-IsGood (c.id ∷ []) [] k ref _ s e
              (add_player_locked-Seated now c 0 (s.heap ref)) g))

-- Whatever an operation returns, the Store that it leaves has the property.
pub Outcome_any :
    {A : Type 0} (E : Store → Type 0) (m : Result A × Store) → Outcome (λ a. E) E m → E m.1
Outcome_any E (ok a, s) h = h
Outcome_any E (err e, s) h = h

pub any_Outcome :
    {A : Type 0} (E : Store → Type 0) (m : Result A × Store) → E m.1 → Outcome (λ a. E) E m
any_Outcome E (ok a, s) h = h
any_Outcome E (err e, s) h = h

pub add_player-IsValid :
    (now : ℕ) (id : String) (s : Store) → IsValid s → IsValid (add_player now id s).1
unfolding add_player
add_player-IsValid now id s g =
    let enter : ℕ → M PlayerSessionResponse =
      λ ref. issue_player_credentials >>= admit_player now ref in
    Outcome_any IsValid (add_player now id s) (
      refuse_outcome (λ a. IsValid) IsValid s.closed internal
        (gets (λ t. lookup id t.rooms) >>= λ found. or_fail found room_not_found >>= enter) s g
        (λ h.
          or_fail_outcome (λ a. IsValid) IsValid (lookup id s.rooms) room_not_found enter s g
            (λ ref e.
              bind_outcome (λ c t. SameRooms s t × IsGood (c.id ∷ []) (view t)) (λ a. IsValid)
                IsValid (issue_player_credentials s) (admit_player now ref)
                (issue_player_credentials-Outcome [] s g)
                (λ c t (same, i).
                  any_Outcome IsValid _
                    (admit_player-IsValid now id ref c t (ap (lookup id) same.0 ∙ e) i)))))
