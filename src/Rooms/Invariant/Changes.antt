-- ===== src/Rooms/Invariant/Changes.antt =====
-- How a change to the registry or to a room changes the count of the players' identifiers.
use server_crawl_stars.Base.{
  ℕ, ◌+◌, ◌≡◌, refl, inl, inr, ◌≢◌, String, false, List, [], ◌∷◌, ◌++◌, none, some, arith, str_eq,
  eq_iff, ◌==◌, Bool-cases,
}
use server_crawl_stars.Base.Dict.{Dict, lookup, insert, delete, Unique}
use server_crawl_stars.Rooms.Types.{Room}
use server_crawl_stars.Rooms.Resources.{write}
use server_crawl_stars.Rooms.Invariant.{count, ids_of, occupied}

pub count-append :
    (id : String) (xs ys : List String) → count id (xs ++ ys) ≡ count id xs + count id ys
count-append id [] ys = omega arith
count-append id (x ∷ xs) ys = ground (arith, count-append id xs ys)

-- A room that keeps its players changes no count.
pub occupied_same :
    (id : String) (heap : ℕ → Room) (ref : ℕ) (room : Room) (rooms : Dict ℕ)
    → room.players ≡ (heap ref).players
    → occupied id (write heap ref room) rooms ≡ occupied id heap rooms
unfolding occupied
occupied_same id heap ref room [] e = refl
occupied_same id heap ref room ((k, r) ∷ rooms) e =
    ground (arith, occupied_same id heap ref room rooms e)

-- A registry that does not name a room counts its players nowhere.
pub occupied_unnamed :
    (id : String) (heap : ℕ → Room) (ref : ℕ) (room : Room) (rooms : Dict ℕ)
    → Unique rooms
    → ((k : String) → lookup k rooms ≢ some ref)
    → occupied id (write heap ref room) rooms ≡ occupied id heap rooms
unfolding occupied lookup
occupied_unnamed id heap ref room [] u n = refl
occupied_unnamed id heap ref room ((k, r) ∷ rooms) u n = ground (
  arith,
  n k,
  eq_iff k k,
  occupied_unnamed id heap ref room rooms u.1 (λ j e. n j (ground (arith, eq_iff k j))),
)

-- In a registry where only `k` names the room, its players are exchanged.
pub occupied_named :
    (id : String) (heap : ℕ → Room) (ref : ℕ) (room : Room) (k : String) (rooms : Dict ℕ)
    → Unique rooms
    → lookup k rooms ≡ some ref
    → ((j : String) → lookup j rooms ≡ some ref → j ≡ k)
    → occupied id (write heap ref room) rooms + count id (ids_of (heap ref).players)
      ≡ occupied id heap rooms + count id (ids_of room.players)
unfolding occupied lookup
occupied_named id heap ref room k [] u e n = cc
occupied_named id heap ref room k ((j, r) ∷ rooms) u e n = elim (Bool-cases (ref == r)) [
  | inl same ↦
      let here : j ≡ k = n j (ground (arith, eq_iff j j)) in
      let gone =
        occupied_unnamed id heap ref room rooms u.1
          (λ i m. let there : i ≡ k = n i (ground (arith, eq_iff j i)) in ground arith) in
      ground (arith, gone)
  | inr other ↦
      let apart : str_eq j k ≡ false = ground arith in
      let rest =
        occupied_named id heap ref room k rooms u.1 (ground arith)
          (λ i m. n i (ground (arith, eq_iff j i))) in
      ground (arith, rest)
]

occupied-delete_absent :
    (id : String) (heap : ℕ → Room) (k : String) (rooms : Dict ℕ)
    → lookup k rooms ≡ none
    → occupied id heap (delete k rooms) ≡ occupied id heap rooms
unfolding occupied lookup delete
occupied-delete_absent id heap k [] e = refl
occupied-delete_absent id heap k ((j, r) ∷ rooms) e =
    ground (arith, occupied-delete_absent id heap k rooms)

pub occupied-delete :
    (id : String) (heap : ℕ → Room) (ref : ℕ) (k : String) (rooms : Dict ℕ)
    → Unique rooms
    → lookup k rooms ≡ some ref
    → occupied id heap (delete k rooms) + count id (ids_of (heap ref).players)
      ≡ occupied id heap rooms
unfolding occupied lookup delete
occupied-delete id heap ref k [] u e = cc
occupied-delete id heap ref k ((j, r) ∷ rooms) u e = ground (
  arith,
  eq_iff j k,
  occupied-delete_absent id heap k rooms,
  occupied-delete id heap ref k rooms u.1,
)

pub occupied-insert :
    (id : String) (heap : ℕ → Room) (ref : ℕ) (k : String) (rooms : Dict ℕ)
    → lookup k rooms ≡ none
    → occupied id heap (insert k ref rooms)
      ≡ occupied id heap rooms + count id (ids_of (heap ref).players)
unfolding occupied lookup insert
occupied-insert id heap ref k [] e = omega arith
occupied-insert id heap ref k ((j, r) ∷ rooms) e =
    ground (arith, occupied-insert id heap ref k rooms)
