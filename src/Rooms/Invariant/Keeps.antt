-- ===== src/Rooms/Invariant/Keeps.antt =====
-- The invariant across each kind of change to the registry.
use server_crawl_stars.Base.{
  ℕ, ◌+◌, ◌-◌, ◌<◌, ◌≡◌, refl, sym, ap, ◌∙◌, ◌≢◌, String, true, false, List, [], ◌∷◌, ◌++◌, none,
  some, arith, eq_iff, length,
}
use server_crawl_stars.Base.Dict.{
  Dict, lookup, insert, delete, has_key, lookup-insert, lookup-delete, insert-Unique, delete-Unique,
  length-insert, length-delete,
}
use server_crawl_stars.Rooms.Types.{Room}
use server_crawl_stars.Rooms.Resources.{write}
use server_crawl_stars.Rooms.Identity.{forget}
use server_crawl_stars.Rooms.Invariant.{count, ids_of, View, IsGood}
use server_crawl_stars.Rooms.Invariant.Changes.{
  count-append, occupied_same, occupied_unnamed, occupied_named, occupied-delete, occupied-insert,
}

-- A room that changes in what the invariant does not read.
pub record Framed (old new : Room) : Type 0 where
  pub same_id : new.id ≡ old.id
  pub same_removed : new.removed ≡ old.removed
  pub same_players : new.players ≡ old.players

pub Framed-trans : {a b c : Room} → Framed a b → Framed b c → Framed a c
Framed-trans f g = record {
  same_id = g.same_id ∙ f.same_id;
  same_removed = g.same_removed ∙ f.same_removed;
  same_players = g.same_players ∙ f.same_players;
}

pub put-Framed :
    (spare : List String) (v : View) (ref : ℕ) (room : Room)
    → Framed (v.heap ref) room
    → IsGood spare v
    → IsGood spare (record v { heap = write v.heap ref room })
put-Framed spare v ref room f g = record {
  unique = g.unique;
  within = g.within;
  counted = g.counted;
  named = λ k r e. ground (arith, g.named k r e);
  alive = λ k r e. ground (arith, g.alive k r e);
  registered = λ r e. ground (arith, g.registered r);
  allocated = g.allocated;
  held = λ id. omega (arith, g.held id, occupied_same id v.heap ref room v.rooms f.same_players);
}

-- The only name of a registered room.
pub one_name :
    (spare : List String) (v : View) (k : String) (ref : ℕ)
    → IsGood spare v
    → lookup k v.rooms ≡ some ref
    → (j : String) → lookup j v.rooms ≡ some ref
    → j ≡ k
one_name spare v k ref g e j h = sym (g.named j ref h) ∙ g.named k ref e

-- Reserved identifiers are given to new players of a registered room.
pub put_seated :
    (ids spare : List String) (v : View) (k : String) (ref : ℕ) (room : Room)
    → lookup k v.rooms ≡ some ref
    → room.id ≡ (v.heap ref).id
    → room.removed ≡ (v.heap ref).removed
    → ids_of room.players ≡ ids_of (v.heap ref).players ++ ids
    → IsGood (ids ++ spare) v
    → IsGood spare (record v { heap = write v.heap ref room })
put_seated ids spare v k ref room e same_id same_removed seats g = record {
  unique = g.unique;
  within = g.within;
  counted = g.counted;
  named = λ j r h. ground (arith, g.named j r h);
  alive = λ j r h. ground (arith, g.alive j r h);
  registered = λ r h. ground (arith, g.registered r);
  allocated = g.allocated;
  held = λ id. omega (
    arith,
    g.held id,
    occupied_named id v.heap ref room k v.rooms g.unique e (one_name (ids ++ spare) v k ref g e),
    ap (count id) seats,
    count-append id (ids_of (v.heap ref).players) ids,
    count-append id ids spare,
  );
}

-- After the removal of the only name of a room, no name leads to it, and the others are as before.
moved :
    (k : String) (ref : ℕ) (rooms : Dict ℕ)
    → ((j : String) → lookup j rooms ≡ some ref → j ≡ k)
    → (j : String) (r : ℕ) → lookup j (delete k rooms) ≡ some r
    → (r ≢ ref) × (lookup j rooms ≡ some r)
moved k ref rooms only j r h =
    let old : lookup j rooms ≡ some r = ground (arith, lookup-delete k j rooms) in
    (λ same. ground (arith, lookup-delete k j rooms, only j (ground arith), eq_iff k j), old)

-- A room leaves the registry, and its players' identifiers are spare.
pub drop_room :
    (spare : List String) (v : View) (k : String) (ref : ℕ) (room : Room)
    → lookup k v.rooms ≡ some ref
    → room.removed ≡ true
    → IsGood spare v
    → IsGood (ids_of (v.heap ref).players ++ spare) (record v {
      heap = write v.heap ref room;
      rooms = delete k v.rooms;
      active_rooms = v.active_rooms - 1;
    })
drop_room spare v k ref room e out g =
    let fewer = length-delete k ref v.rooms g.unique e in
    let gone = λ (j : String) (h : lookup j (delete k v.rooms) ≡ some ref).
      (moved k ref v.rooms (one_name spare v k ref g e) j ref h).0 refl in
    record {
      unique = delete-Unique k v.rooms g.unique;
      within = omega (arith, g.within, fewer);
      counted = omega (arith, g.counted, fewer);
      named = λ j r h.
          let (far, old) = moved k ref v.rooms (one_name spare v k ref g e) j r h in
          ground (arith, g.named j r old);
      alive = λ j r h.
          let (far, old) = moved k ref v.rooms (one_name spare v k ref g e) j r h in
          ground (arith, g.alive j r old);
      registered = λ r h.
          ground
            (arith, lookup-delete k (v.heap r).id v.rooms, g.registered r, eq_iff k (v.heap r).id);
      allocated = λ j r h.
          let (far, old) = moved k ref v.rooms (one_name spare v k ref g e) j r h in
          g.allocated j r old;
      held = λ id. omega (
        arith,
        g.held id,
        occupied_unnamed id v.heap ref room (delete k v.rooms) (delete-Unique k v.rooms g.unique)
            gone,
        occupied-delete id v.heap ref k v.rooms g.unique e,
        count-append id (ids_of (v.heap ref).players) spare,
      );
    }

forget_one :
    (id : String) (spare : List String) (v : View)
    → IsGood (id ∷ spare) v
    → IsGood spare (record v { player_ids = delete id v.player_ids })
forget_one id spare v g = record {
  unique = g.unique;
  within = g.within;
  counted = g.counted;
  named = g.named;
  alive = g.alive;
  registered = g.registered;
  allocated = g.allocated;
  held = λ j. ground (arith, g.held j, lookup-delete id j v.player_ids, eq_iff id j);
}

-- Spare identifiers are given back.
pub release :
    (ids spare : List String) (v : View)
    → IsGood (ids ++ spare) v
    → IsGood spare (record v { player_ids = forget ids v.player_ids })
unfolding forget
release [] spare v g = g
release (id ∷ ids) spare v g =
    release ids spare (record v { player_ids = delete id v.player_ids })
      (forget_one id (ids ++ spare) v g)

-- A new identifier is reserved.
pub reserve :
    (id : String) (spare : List String) (v : View)
    → has_key id v.player_ids ≡ false
    → IsGood spare v
    → IsGood (id ∷ spare) (record v { player_ids = insert id tt v.player_ids })
reserve id spare v fresh g = record {
  unique = g.unique;
  within = g.within;
  counted = g.counted;
  named = g.named;
  alive = g.alive;
  registered = g.registered;
  allocated = g.allocated;
  held = λ j. ground (arith, g.held j, lookup-insert id j tt v.player_ids, eq_iff id j);
}

-- A new room enters the registry with players under spare identifiers.
pub enter :
    (ids spare : List String) (v : View) (room : Room)
    → lookup room.id v.rooms ≡ none
    → length v.rooms < v.max_active_rooms
    → room.removed ≡ false
    → ids_of room.players ≡ ids
    → IsGood (ids ++ spare) v
    → IsGood spare (record v {
      rooms = insert room.id v.next_room v.rooms;
      heap = write v.heap v.next_room room;
      next_room = v.next_room + 1;
      active_rooms = v.active_rooms + 1;
    })
enter ids spare v room free space there seats g =
    let more = length-insert room.id v.next_room v.rooms free in
    let unnamed : (k : String) → lookup k v.rooms ≢ some v.next_room =
      λ k h. absurd (omega (arith, g.allocated k v.next_room h)) in
    record {
      unique = insert-Unique room.id v.next_room v.rooms g.unique;
      within = omega (arith, more);
      counted = omega (arith, more, g.counted);
      named = λ k r h. ground (
        arith,
        lookup-insert room.id k v.next_room v.rooms,
        eq_iff room.id k,
        g.named k r,
        g.allocated k r,
      );
      alive = λ k r h. ground (
        arith,
        lookup-insert room.id k v.next_room v.rooms,
        eq_iff room.id k,
        g.alive k r,
        g.allocated k r,
      );
      registered = λ r h. ground (
        arith,
        lookup-insert room.id (write v.heap v.next_room room r).id v.next_room v.rooms,
        eq_iff room.id (v.heap r).id,
        eq_iff room.id room.id,
        g.registered r,
      );
      allocated = λ k r h.
          ground
            (arith, lookup-insert room.id k v.next_room v.rooms, eq_iff room.id k, g.allocated k r);
      held = λ id. ground (
        arith,
        g.held id,
        occupied-insert id (write v.heap v.next_room room) v.next_room room.id v.rooms free,
        occupied_unnamed id v.heap v.next_room room v.rooms g.unique unnamed,
        ap (count id) seats,
        count-append id ids spare,
      );
    }
