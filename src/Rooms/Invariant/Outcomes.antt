-- ===== src/Rooms/Invariant/Outcomes.antt =====
-- What an operation that may fail leaves: one property for its result, one for its error.
use server_crawl_stars.Base.{
  ℕ, zero, suc, ◌+◌, ◌<◌, ◌≡◌, refl, ◌∙◌, String, Bool, true, false, List, [], ◌∷◌, ◌++◌, Option,
  none, some, arith, length, length-append,
}
use server_crawl_stars.Base.Dict.{Dict, has_key}
use server_crawl_stars.Rooms.Types.{RoomError, Result, ok, err, internal, Store}
use server_crawl_stars.Rooms.Monad.{M, ◌>>=◌, ◌>>◌, return, gets, modify, refuse_if, or_fail}
use server_crawl_stars.Rooms.Identity.{
  identity_retry_limit, room_id_prefix, player_id_prefix, random_value, unique_value,
  unique_room_id, unique_player_id, PlayerCredentials, reserve_player_id, release_player_ids,
  session_token, issue_player_credentials_locked, issue_player_credentials, reserve_from,
  reserve_bot_ids,
}
use server_crawl_stars.Rooms.Invariant.{count, view, IsGood}
use server_crawl_stars.Rooms.Invariant.Changes.{count-append}
use server_crawl_stars.Rooms.Invariant.Keeps.{release, reserve}

abbrev pub Outcome :
    {A : Type 0} → (A → Store → Type 0) → (Store → Type 0) → Result A × Store → Type 0
Outcome Q E (ok a, s) = Q a s
Outcome Q E (err e, s) = E s

pub bind_outcome :
    {A B : Type 0} (Q : A → Store → Type 0) (R : B → Store → Type 0) (E : Store → Type 0)
    (m : Result A × Store) (f : A → M B)
    → Outcome Q E m
    → ((a : A) (s : Store) → Q a s → Outcome R E (f a s))
    → Outcome R E (elim m.0 [ ok a ↦ f a m.1 | err e ↦ (err e, m.1) ])
bind_outcome Q R E (ok a, s) f h k = k a s h
bind_outcome Q R E (err e, s) f h k = h

pub cases_outcome :
    {A B : Type 0} (Q : A → Store → Type 0) (R : B → Store → Type 0) (E F : Store → Type 0)
    (m : Result A × Store) (f : A → M B) (g : RoomError → M B)
    → Outcome Q E m
    → ((a : A) (s : Store) → Q a s → Outcome R F (f a s))
    → ((e : RoomError) (s : Store) → E s → Outcome R F (g e s))
    → Outcome R F (elim m.0 [ ok a ↦ f a m.1 | err e ↦ g e m.1 ])
cases_outcome Q R E F (ok a, s) f g h k l = k a s h
cases_outcome Q R E F (err e, s) f g h k l = l e s h

pub outcome_map :
    {A : Type 0} (Q R : A → Store → Type 0) (E F : Store → Type 0) (m : Result A × Store)
    → Outcome Q E m
    → ((a : A) (s : Store) → Q a s → R a s)
    → ((s : Store) → E s → F s)
    → Outcome R F m
outcome_map Q R E F (ok a, s) h f g = f a s h
outcome_map Q R E F (err e, s) h f g = g s h

-- An identifier that the retry loop draws is not taken yet.
pub unique_value_fresh {ℓ} :
    {V : Type ℓ} (tries : ℕ) (prefix : String) (taken : Dict V) (random : List (Option String))
    (id : String)
    → (unique_value tries prefix taken random).0 ≡ ok id
    → has_key id taken ≡ false
unfolding unique_value
unique_value_fresh zero prefix taken random id e = ground arith
unique_value_fresh (suc tries) prefix taken random id e =
    ground (arith, unique_value_fresh tries prefix taken (random_value prefix random).1 id)

pub drawn :
    {A : Type 0} (Q : A → Store → Type 0) (E : Store → Type 0) (r : Result A) (s : Store)
    → ((a : A) → r ≡ ok a → Q a s)
    → E s
    → Outcome Q E (r, s)
drawn Q E (ok a) s f g = f a refl
drawn Q E (err e) s f g = g

-- A predicate on the Store for any result.
abbrev pub Good : {A : Type 0} → (A → List String) → List String → A → Store → Type 0
Good held spare a s = IsGood (held a ++ spare) (view s)

abbrev pub Left : List String → Store → Type 0
Left spare s = IsGood spare (view s)

-- The registry as it was before the identifiers were drawn.
abbrev pub SameRooms : Store → Store → Type 0
SameRooms s t = (t.rooms ≡ s.rooms) × (t.max_active_rooms ≡ s.max_active_rooms) × (t.heap ≡ s.heap)

unique_player_id-Outcome :
    (spare : List String) (s : Store)
    → IsGood spare (view s)
    → Outcome
        (λ id t. (has_key id t.player_ids ≡ false) × SameRooms s t × Left spare t)
        (Left spare)
        (unique_player_id s)
unfolding unique_player_id
unique_player_id-Outcome spare s g =
    let (r, rest) = unique_value identity_retry_limit player_id_prefix s.player_ids s.random in
    drawn (λ id t. (has_key id t.player_ids ≡ false) × SameRooms s t × Left spare t) (Left spare) r
      (record s { random = rest })
      (λ id e. (
        unique_value_fresh identity_retry_limit player_id_prefix s.player_ids s.random id e,
        (refl, refl, refl),
        g,
      ))
      g

pub unique_room_id-Outcome :
    (spare : List String) (s : Store)
    → IsGood spare (view s)
    → length s.rooms < s.max_active_rooms
    → Outcome
        (λ id t.
          (has_key id t.rooms ≡ false) × (length t.rooms < t.max_active_rooms) × Left spare t)
        (Left spare)
        (unique_room_id s)
unfolding unique_room_id
unique_room_id-Outcome spare s g space =
    let (r, rest) = unique_value identity_retry_limit room_id_prefix s.rooms s.random in
    drawn
      (λ id t. (has_key id t.rooms ≡ false) × (length t.rooms < t.max_active_rooms) × Left spare t)
      (Left spare) r (record s { random = rest })
      (λ id e.
        (unique_value_fresh identity_retry_limit room_id_prefix s.rooms s.random id e, space, g))
      g

abbrev pub held_id : PlayerCredentials → List String
held_id c = c.id ∷ []

pub SameRooms-trans : (s t u : Store) → SameRooms s t → SameRooms t u → SameRooms s u
SameRooms-trans s t u (a, b, c) (d, e, f) = (d ∙ a, e ∙ b, f ∙ c)

session_token-Outcome :
    (spare : List String) (id : String) (s : Store)
    → has_key id s.player_ids ≡ false
    → IsGood spare (view s)
    → Outcome
        (λ token t. (has_key id t.player_ids ≡ false) × SameRooms s t × Left spare t)
        (Left spare)
        (session_token s)
unfolding session_token
session_token-Outcome spare id s fresh g =
    let (value, rest) = random_value "" s.random in
    drawn (λ token t. (has_key id t.player_ids ≡ false) × SameRooms s t × Left spare t) (Left spare)
      (elim value [ none ↦ err internal | some token ↦ ok token ]) (record s { random = rest })
      (λ token e. (fresh, (refl, refl, refl), g)) g

-- New credentials hold one spare identifier.
pub issue_player_credentials_locked-Outcome :
    (spare : List String) (s : Store)
    → IsGood spare (view s)
    → Outcome
        (λ c t. SameRooms s t × IsGood (c.id ∷ spare) (view t))
        (Left spare)
        (issue_player_credentials_locked s)
unfolding issue_player_credentials_locked reserve_player_id
issue_player_credentials_locked-Outcome spare s g =
    bind_outcome (λ id t. (has_key id t.player_ids ≡ false) × SameRooms s t × Left spare t)
      (λ c t. SameRooms s t × IsGood (c.id ∷ spare) (view t)) (Left spare) (unique_player_id s) _
      (unique_player_id-Outcome spare s g)
      (λ id t (fresh, same, h).
        bind_outcome (λ token u. (has_key id u.player_ids ≡ false) × SameRooms t u × Left spare u)
          (λ c u. SameRooms s u × IsGood (c.id ∷ spare) (view u)) (Left spare) (session_token t)
          (λ token. do
            modify (reserve_player_id id)
            digest ← gets (λ u. u.sha256 token)
            return (record { id = id; session_token = token; session = digest }))
          (session_token-Outcome spare id t fresh h)
          (λ token u (unused, still, k).
            (SameRooms-trans s t u same still, reserve id spare (view u) unused k)))

pub refuse_outcome :
    {B : Type 0} (R : B → Store → Type 0) (E : Store → Type 0) (b : Bool) (e : RoomError) (m : M B)
    (s : Store)
    → E s
    → (b ≡ false → Outcome R E (m s))
    → Outcome R E ((refuse_if b e >> m) s)
refuse_outcome R E true e m s f g = f
refuse_outcome R E false e m s f g = g refl

pub or_fail_outcome :
    {A B : Type 0} (R : B → Store → Type 0) (E : Store → Type 0) (o : Option A) (e : RoomError)
    (f : A → M B) (s : Store)
    → E s
    → ((a : A) → o ≡ some a → Outcome R E (f a s))
    → Outcome R E ((or_fail o e >>= f) s)
or_fail_outcome R E none e f s h k = h
or_fail_outcome R E (some a) e f s h k = k a refl

pub issue_player_credentials-Outcome :
    (spare : List String) (s : Store)
    → IsGood spare (view s)
    → Outcome
        (λ c t. SameRooms s t × IsGood (c.id ∷ spare) (view t))
        (Left spare)
        (issue_player_credentials s)
unfolding issue_player_credentials
issue_player_credentials-Outcome spare s g =
    refuse_outcome (λ c t. SameRooms s t × IsGood (c.id ∷ spare) (view t)) (Left spare) s.closed
      internal issue_player_credentials_locked s g
      (λ e. issue_player_credentials_locked-Outcome spare s g)

-- The order of the spare identifiers does not matter.
IsGood-same :
    (xs ys : List String) (s : Store)
    → ((id : String) → count id ys ≡ count id xs)
    → IsGood xs (view s)
    → IsGood ys (view s)
IsGood-same xs ys s e g = record {
  unique = g.unique;
  within = g.within;
  counted = g.counted;
  named = g.named;
  alive = g.alive;
  registered = g.registered;
  allocated = g.allocated;
  held = λ id. omega (arith, g.held id, e id);
}

-- Either as many new identifiers are spare as were asked for, or none.
reserve_from-Outcome :
    (n : ℕ) (ids spare : List String) (s : Store)
    → IsGood (ids ++ spare) (view s)
    → Outcome
        (λ js t. (length js ≡ n + length ids) × SameRooms s t × IsGood (js ++ spare) (view t))
        (Left spare)
        (reserve_from n ids s)
unfolding reserve_from reserve_player_id release_player_ids
reserve_from-Outcome zero ids spare s g = (omega arith, (refl, refl, refl), g)
reserve_from-Outcome (suc n) ids spare s g =
    cases_outcome
      (λ id t. (has_key id t.player_ids ≡ false) × SameRooms s t × Left (ids ++ spare) t)
      (λ js t. (length js ≡ suc n + length ids) × SameRooms s t × IsGood (js ++ spare) (view t))
      (Left (ids ++ spare)) (Left spare) (unique_player_id s)
      (λ id t. reserve_from n (ids ++ id ∷ []) (reserve_player_id id t))
      (λ e t. (err e, release_player_ids ids t)) (unique_player_id-Outcome (ids ++ spare) s g)
      (λ id t (fresh, same, h).
        outcome_map
          (λ js u.
            (length js ≡ n + length (ids ++ id ∷ []))
            × SameRooms t u
            × IsGood (js ++ spare) (view u))
          (λ js u. (length js ≡ suc n + length ids) × SameRooms s u × IsGood (js ++ spare) (view u))
          (Left spare) (Left spare) _
          (reserve_from-Outcome n (ids ++ id ∷ []) spare (reserve_player_id id t) (
            IsGood-same (id ∷ ids ++ spare) ((ids ++ id ∷ []) ++ spare) (reserve_player_id id t)
              (λ j. ground (
                arith,
                count-append j (ids ++ id ∷ []) spare,
                count-append j ids (id ∷ []),
                count-append j ids spare,
              ))
              (reserve id (ids ++ spare) (view t) fresh h)))
          (λ js u (long, still, k).
            (omega (arith, long, length-append ids (id ∷ [])), SameRooms-trans s t u same still, k))
          (λ u h. h))
      (λ e t h. release ids spare (view t) h)

-- Identifiers for bots: as many as were asked for are reserved and spare, and no room has changed; or,
-- after a failure, the Store is valid with the spare ones that there were.
pub reserve_bot_ids-Outcome :
    (n : ℕ) (spare : List String) (s : Store)
    → IsGood spare (view s)
    → Outcome
        (λ js t. (length js ≡ n) × SameRooms s t × IsGood (js ++ spare) (view t))
        (Left spare)
        (reserve_bot_ids n s)
unfolding reserve_bot_ids
reserve_bot_ids-Outcome n spare s g =
    outcome_map (λ js t. (length js ≡ n + 0) × SameRooms s t × IsGood (js ++ spare) (view t))
      (λ js t. (length js ≡ n) × SameRooms s t × IsGood (js ++ spare) (view t)) (Left spare)
      (Left spare) (reserve_from n [] s) (reserve_from-Outcome n [] spare s g)
      (λ js t (long, same, k). (omega (arith, long), same, k)) (λ t h. h)
