-- ===== src/Rooms/Invariant.antt =====
-- What holds of the Store between two operations: the registry of rooms and the register of player
-- identifiers agree with the rooms themselves.
pub mod Views
pub mod Changes
pub mod Keeps
pub mod Outcomes
pub mod BotIds
pub mod Removal
pub mod Retirement
pub mod Frames
pub mod Timers
pub mod Members
pub mod Seats
pub mod Bots
pub mod Creation
pub mod Search
pub mod Joins
pub mod History
use server_crawl_stars.Base.{
  ℕ, zero, suc, ◌+◌, ◌≤◌, ◌<◌, ◌≡◌, String, Bool, false, List, [], ◌∷◌, Option, some, str_eq,
  if◌then◌else◌, length, map,
}
use server_crawl_stars.Base.Dict.{Dict, lookup, has_key, Unique}
use server_crawl_stars.Rooms.Types.{PlayerResponse, Room, Store}

abbrev pub count : String → List String → ℕ
count id [] = 0
count id (j ∷ js) = let rest = count id js in if str_eq j id then suc rest else rest

abbrev pub ids_of : List PlayerResponse → List String
ids_of = map (λ p. p.id)

-- How often an identifier stands among the players of the registered rooms.
unfoldable pub occupied : String → (ℕ → Room) → Dict ℕ → ℕ
occupied id heap [] = 0
occupied id heap ((k, ref) ∷ rooms) = count id (ids_of (heap ref).players) + occupied id heap rooms

-- The part of the Store that the invariant reads.
pub record View : Type 0 where
  pub max_active_rooms : ℕ
  pub rooms : Dict ℕ
  pub heap : ℕ → Room
  pub next_room : ℕ
  pub player_ids : Dict (Unit {0})
  pub active_rooms : ℕ

abbrev pub view : Store → View
view s = record {
  max_active_rooms = s.max_active_rooms;
  rooms = s.rooms;
  heap = s.heap;
  next_room = s.next_room;
  player_ids = s.player_ids;
  active_rooms = s.observation.active_rooms;
}

abbrev pub present : String → Dict (Unit {0}) → ℕ
present id taken = if has_key id taken then 1 else 0

-- `spare` holds identifiers that are reserved and not yet given to a player in a registered room.
pub record IsGood (spare : List String) (v : View) : Type 0 where
  pub unique : Unique v.rooms
  pub within : length v.rooms ≤ v.max_active_rooms
  pub counted : v.active_rooms ≡ length v.rooms
  pub named : (k : String) (ref : ℕ) → lookup k v.rooms ≡ some ref → (v.heap ref).id ≡ k
  pub alive : (k : String) (ref : ℕ) → lookup k v.rooms ≡ some ref → (v.heap ref).removed ≡ false
  pub registered :
      (ref : ℕ) → (v.heap ref).removed ≡ false → lookup (v.heap ref).id v.rooms ≡ some ref
  pub allocated : (k : String) (ref : ℕ) → lookup k v.rooms ≡ some ref → ref < v.next_room
  pub held : (id : String) → count id spare + occupied id v.heap v.rooms ≤ present id v.player_ids

-- The rooms that are not removed are the registered ones, once each under its own identifier; they are
-- as many as the gauge says and no more than allowed; every player's identifier is reserved, for one
-- player.
abbrev pub IsValid : Store → Type 0
IsValid s = IsGood [] (view s)
