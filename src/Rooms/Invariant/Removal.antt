-- ===== src/Rooms/Invariant/Removal.antt =====
-- The invariant across the removal of one room (store.go, cleanup.go, ready_deadline.go).
use server_crawl_stars.Base.{
  ℕ, ◌-◌, ◌≡◌, refl, sym, ap, ◌∙◌, String, true, false, List, Option, some, arith, is_ref, length,
}
use mathlib.Core.Path.{subst}
use server_crawl_stars.Base.Dict.{lookup, delete}
use server_crawl_stars.Rooms.Types.{CloseCause, Store}
use server_crawl_stars.Rooms.Resources.{no_resources, Removal, removal, remove_room, write}
use server_crawl_stars.Rooms.Identity.{release_player_ids, forget}
use server_crawl_stars.Rooms.Monad.{put_room}
use server_crawl_stars.Rooms.Registry.{
  owns, unregister, delete_room_if_same, detach_room, publish_disconnected_clients, discard_room,
}
use server_crawl_stars.Rooms.Invariant.{ids_of, View, view, IsGood}
use server_crawl_stars.Rooms.Invariant.Views.{view-publish_disconnected, view-unregister}
use server_crawl_stars.Rooms.Invariant.Keeps.{drop_room, release}

-- The removal of a room that is there.
abbrev pub removed_from : CloseCause → ℕ → Store → Removal
removed_from cause ref s = removal cause s.client_sessions no_resources (s.heap ref)

abbrev pub detached_store : CloseCause → ℕ → Store → Store
detached_store cause ref s =
    let m = removed_from cause ref s in
    publish_disconnected_clients (length m.resources.client_observations)
      (record (put_room ref m.room s) { client_sessions = m.client_sessions })

-- A room that is there is detached: its players' identifiers are handed out.
pub detach_room_lem :
    (cause : CloseCause) (ref : ℕ) (s : Store)
    → (s.heap ref).removed ≡ false
    → detach_room cause ref s ≡ (
      some (ids_of (s.heap ref).players, (removed_from cause ref s).resources),
      detached_store cause ref s,
    )
unfolding detach_room remove_room removal
detach_room_lem cause ref s e = simp (detach_room, remove_room, e)

view-detached :
    (cause : CloseCause) (ref : ℕ) (s : Store)
    → view (detached_store cause ref s)
      ≡ record (view s) { heap = write s.heap ref (removed_from cause ref s).room }
view-detached cause ref s = view-publish_disconnected _ _

-- What is left of the Store when a registered room has gone.
abbrev pub gone_store : CloseCause → String → ℕ → Store → Store
gone_store cause k ref s =
    release_player_ids (ids_of (s.heap ref).players) (unregister k (detached_store cause ref s))

pub view-gone :
    (cause : CloseCause) (k : String) (ref : ℕ) (s : Store)
    → view (gone_store cause k ref s) ≡ record (view s) {
      heap = write s.heap ref (removed_from cause ref s).room;
      rooms = delete k s.rooms;
      active_rooms = s.observation.active_rooms - 1;
      player_ids = forget (ids_of (s.heap ref).players) s.player_ids;
    }
unfolding release_player_ids
view-gone cause k ref s =
    let ids = ids_of (s.heap ref).players in
    ap (λ (v : View). record v { player_ids = forget ids v.player_ids })
      (view-unregister k (detached_store cause ref s))
    ∙ ap
        (λ (v : View). record v {
          rooms = delete k v.rooms;
          active_rooms = v.active_rooms - 1;
          player_ids = forget ids v.player_ids;
        })
        (view-detached cause ref s)

removal-removed :
    (cause : CloseCause) (ref : ℕ) (s : Store) → (removed_from cause ref s).room.removed ≡ true
unfolding removal
removal-removed cause ref s = refl

pub gone-IsGood :
    (spare : List String) (cause : CloseCause) (k : String) (ref : ℕ) (s : Store)
    → lookup k s.rooms ≡ some ref
    → IsGood spare (view s)
    → IsGood spare (view (gone_store cause k ref s))
gone-IsGood spare cause k ref s e g = subst (IsGood spare) (sym (view-gone cause k ref s)) (
    release (ids_of (s.heap ref).players) spare
      (record (view s) {
        heap = write s.heap ref (removed_from cause ref s).room;
        rooms = delete k s.rooms;
        active_rooms = s.observation.active_rooms - 1;
      })
      (drop_room spare (view s) k ref (removed_from cause ref s).room e
        (removal-removed cause ref s) g))

-- A registered room stays registered while it is detached.
pub owns-detached :
    (cause : CloseCause) (k : String) (ref : ℕ) (s : Store)
    → lookup k s.rooms ≡ some ref
    → owns k ref (detached_store cause ref s) ≡ true
owns-detached cause k ref s e =
    ap (λ (v : View). is_ref (lookup k v.rooms) ref) (view-detached cause ref s)
    ∙ ap (λ (o : Option ℕ). is_ref o ref) e
    ∙ ground arith

-- A registered room goes altogether.
pub discard_room_lem :
    (cause : CloseCause) (k : String) (ref : ℕ) (s : Store)
    → lookup k s.rooms ≡ some ref
    → (s.heap ref).removed ≡ false
    → (discard_room cause k ref s).2 ≡ gone_store cause k ref s
unfolding delete_room_if_same discard_room
discard_room_lem cause k ref s e there = simp (
  discard_room,
  detach_room_lem cause ref s there,
  delete_room_if_same,
  owns-detached cause k ref s e,
)
