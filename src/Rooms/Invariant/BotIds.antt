-- ===== src/Rooms/Invariant/BotIds.antt =====
-- The register of player identifiers across the reservation of identifiers for bots (store.go,
-- `reserveBotIDs`).
use server_crawl_stars.Base.{
  ℕ, zero, suc, ◌≡◌, refl, String, str_eq, Bool, false, ◌&&◌, ◌||◌, not, List, [], ◌∷◌, ◌++◌, arith,
  length, eq_iff,
}
use server_crawl_stars.Base.Dict.{Dict, insert, delete, has_key, lookup-insert, lookup-delete}
use server_crawl_stars.Rooms.Types.{Result, ok, err, Store}
use server_crawl_stars.Rooms.Identity.{
  identity_retry_limit, player_id_prefix, unique_value, unique_player_id, reserve_player_id, forget,
  release_player_ids, reserve_from, reserve_bot_ids,
}
use server_crawl_stars.Rooms.Invariant.Outcomes.{
  Outcome, cases_outcome, drawn, unique_value_fresh, SameRooms, Left, reserve_bot_ids-Outcome,
}
use server_crawl_stars.Rooms.Invariant.{view, IsGood}

abbrev pub is_among : String → List String → Bool
is_among id [] = false
is_among id (j ∷ js) = str_eq j id || is_among id js

-- The register holds what it held at first and these identifiers, which were not in it.
abbrev pub Adds : List String → Store → Store → Type 0
Adds ids s t =
    (id : String)
    → (has_key id t.player_ids ≡ (is_among id ids || has_key id s.player_ids))
      × ((is_among id ids && has_key id s.player_ids) ≡ false)

-- The registers hold the same.
abbrev pub SameIds : Store → Store → Type 0
SameIds s t = (id : String) → has_key id t.player_ids ≡ has_key id s.player_ids

has_key-insert :
    (k id : String) (m : Dict (Unit {0}))
    → has_key id (insert k tt m) ≡ (str_eq k id || has_key id m)
has_key-insert k id m = ground (arith, lookup-insert k id tt m)

has_key-delete :
    (k id : String) (m : Dict (Unit {0}))
    → has_key id (delete k m) ≡ (not (str_eq k id) && has_key id m)
has_key-delete k id m = ground (arith, lookup-delete k id m)

has_key-forget :
    (ids : List String) (id : String) (m : Dict (Unit {0}))
    → has_key id (forget ids m) ≡ (not (is_among id ids) && has_key id m)
unfolding forget
has_key-forget [] id m = ground arith
has_key-forget (j ∷ js) id m =
    ground (arith, has_key-forget js id (delete j m), has_key-delete j id m)

is_among-append :
    (id : String) (xs ys : List String)
    → is_among id (xs ++ ys) ≡ (is_among id xs || is_among id ys)
is_among-append id [] ys = refl
is_among-append id (x ∷ xs) ys = ground (arith, is_among-append id xs ys)

-- A fresh identifier is drawn, and the register stays.
unique_player_id-fresh :
    (s : Store)
    → Outcome
        (λ id t. (has_key id t.player_ids ≡ false) × (t.player_ids ≡ s.player_ids))
        (λ t. t.player_ids ≡ s.player_ids)
        (unique_player_id s)
unfolding unique_player_id
unique_player_id-fresh s =
    let (r, rest) = unique_value identity_retry_limit player_id_prefix s.player_ids s.random in
    drawn (λ id t. (has_key id t.player_ids ≡ false) × (t.player_ids ≡ s.player_ids))
      (λ t. t.player_ids ≡ s.player_ids) r (record s { random = rest })
      (λ id e.
        (unique_value_fresh identity_retry_limit player_id_prefix s.player_ids s.random id e, refl))
      refl

released-SameIds :
    (ids : List String) (s t u : Store)
    → Adds ids s t
    → u.player_ids ≡ t.player_ids
    → SameIds s (release_player_ids ids u)
unfolding release_player_ids
released-SameIds ids s t u adds e id =
    ground (arith, has_key-forget ids id u.player_ids, e, adds id)

one_more-Adds :
    (ids : List String) (id : String) (s t u : Store)
    → Adds ids s t
    → has_key id u.player_ids ≡ false
    → u.player_ids ≡ t.player_ids
    → Adds (ids ++ id ∷ []) s (reserve_player_id id u)
unfolding reserve_player_id
one_more-Adds ids id s t u adds new e j = (
  ground (arith, has_key-insert id j u.player_ids, e, adds j, is_among-append j ids (id ∷ [])),
  ground (arith, e, new, adds j, is_among-append j ids (id ∷ []), eq_iff id j),
)

reserve_from-Adds :
    (n : ℕ) (ids : List String) (s t : Store)
    → Adds ids s t
    → Outcome (λ js u. Adds js s u) (SameIds s) (reserve_from n ids t)
unfolding reserve_from
reserve_from-Adds zero ids s t adds = adds
reserve_from-Adds (suc n) ids s t adds =
    cases_outcome (λ id u. (has_key id u.player_ids ≡ false) × (u.player_ids ≡ t.player_ids))
      (λ js u. Adds js s u) (λ u. u.player_ids ≡ t.player_ids) (SameIds s) (unique_player_id t)
      (λ id u. reserve_from n (ids ++ id ∷ []) (reserve_player_id id u))
      (λ e u. (err e, release_player_ids ids u)) (unique_player_id-fresh t)
      (λ id u (new, same).
        reserve_from-Adds n (ids ++ id ∷ []) s (reserve_player_id id u)
          (one_more-Adds ids id s t u adds new same))
      (λ e u same. released-SameIds ids s t u adds same)

outcome_both :
    {A : Type 0} (Q R : A → Store → Type 0) (E F : Store → Type 0) (m : Result A × Store)
    → Outcome Q E m
    → Outcome R F m
    → Outcome (λ a s. Q a s × R a s) (λ s. E s × F s) m
outcome_both Q R E F (ok a, s) h k = (h, k)
outcome_both Q R E F (err e, s) h k = (h, k)

-- Identifiers for bots, in a Store that is valid with some spare identifiers: either as many as were
-- asked for are added, to the register and to the spare ones, each once and none of them in the
-- register before, and no room has changed; or, after a failure, the register holds exactly the
-- identifiers that it held before, and the Store is valid with the same spare ones.
pub reserve_bot_ids-Adds :
    (n : ℕ) (spare : List String) (s : Store)
    → IsGood spare (view s)
    → Outcome
        (λ js t. ((length js ≡ n) × SameRooms s t × IsGood (js ++ spare) (view t)) × Adds js s t)
        (λ t. Left spare t × SameIds s t)
        (reserve_bot_ids n s)
unfolding reserve_bot_ids
reserve_bot_ids-Adds n spare s g =
    outcome_both (λ js t. (length js ≡ n) × SameRooms s t × IsGood (js ++ spare) (view t))
      (λ js t. Adds js s t) (Left spare) (SameIds s) (reserve_bot_ids n s)
      (reserve_bot_ids-Outcome n spare s g) (reserve_from-Adds n [] s s (λ id. (refl, refl)))
