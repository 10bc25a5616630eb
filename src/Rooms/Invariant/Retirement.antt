-- ===== src/Rooms/Invariant/Retirement.antt =====
-- The invariant across the loops and deadlines that remove rooms (store.go, cleanup.go,
-- ready_deadline.go).
use server_crawl_stars.Base.{
  ℕ, ◌≡◌, sym, ap, ◌∙◌, inl, inr, String, Bool, true, false, not, ◌||◌, List, [], ◌∷◌, some, arith,
  eq_iff, if◌then◌else◌, Option-cases, if_keep,
}
use mathlib.Core.Path.{subst}
use server_crawl_stars.Base.Dict.{Dict, lookup, Unique, lookup-delete}
use server_crawl_stars.Rooms.Types.{
  CloseCause, expiry, debug_delete, game_end, prestart_cancel, RoomResources, Store,
}
use server_crawl_stars.Rooms.Resources.{no_resources}
use server_crawl_stars.Rooms.Phases.{is_expired}
use server_crawl_stars.Rooms.Registry.{
  owns, close_resources, discard_room, expire_each, detach_expired_rooms, cleanup_expired,
  delete_room, clear_each, clear_rooms, retire_room, finish_game_end,
  expire_matched_attach_deadline, expire_ready_deadline,
}
use server_crawl_stars.Rooms.Invariant.{View, view, IsGood, IsValid}
use server_crawl_stars.Rooms.Invariant.Removal.{
  gone_store, view-gone, gone-IsGood, detach_room_lem, discard_room_lem,
}

pub discard-IsGood :
    (spare : List String) (cause : CloseCause) (k : String) (ref : ℕ) (s : Store)
    → lookup k s.rooms ≡ some ref
    → IsGood spare (view s)
    → IsGood spare (view (discard_room cause k ref s).2)
discard-IsGood spare cause k ref s e g =
    subst (λ t. IsGood spare (view t)) (sym (discard_room_lem cause k ref s e (g.alive k ref e)))
      (gone-IsGood spare cause k ref s e g)

-- Every entry of a list of rooms is registered.
abbrev pub Listed : Dict ℕ → Store → Type 0
Listed rooms s = (k : String) (ref : ℕ) → lookup k rooms ≡ some ref → lookup k s.rooms ≡ some ref

discard-Listed :
    (spare : List String) (cause : CloseCause) (k : String) (ref : ℕ) (rooms : Dict ℕ) (s : Store)
    → Unique ((k, ref) ∷ rooms)
    → Listed ((k, ref) ∷ rooms) s
    → IsGood spare (view s)
    → Listed rooms (discard_room cause k ref s).2
unfolding lookup
discard-Listed spare cause k ref rooms s u l g j r h =
    let e : lookup k s.rooms ≡ some ref = l k ref (ground (arith, eq_iff k k)) in
    let after =
      ap (λ (t : Store). (view t).rooms) (discard_room_lem cause k ref s e (g.alive k ref e))
      ∙ ap View.rooms (view-gone cause k ref s) in
    ground (arith, after, lookup-delete k j s.rooms, eq_iff k j, l j r)

-- The choice of the loops: a room stays, or goes.
loop_keep :
    (spare : List String) (cause : CloseCause) (k : String) (ref : ℕ) (rooms : Dict ℕ) (keep : Bool)
    (s : Store)
    → Unique ((k, ref) ∷ rooms)
    → Listed ((k, ref) ∷ rooms) s
    → IsGood spare (view s)
    → IsGood spare (view (if keep then s else (discard_room cause k ref s).2))
      × Listed rooms (if keep then s else (discard_room cause k ref s).2)
unfolding lookup
loop_keep spare cause k ref rooms keep s u l g =
    if_keep (λ t. IsGood spare (view t) × Listed rooms t) keep
      (λ e. (g, λ j r h. l j r (ground (arith, eq_iff k j))))
      (λ e. (
        discard-IsGood spare cause k ref s (l k ref (ground (arith, eq_iff k k))) g,
        discard-Listed spare cause k ref rooms s u l g,
      ))

expire_each-IsGood :
    (spare : List String) (now : ℕ) (rooms : Dict ℕ) (r : RoomResources) (s : Store)
    → Unique rooms
    → Listed rooms s
    → IsGood spare (view s)
    → IsGood spare (view (expire_each now rooms r s).2)
unfolding expire_each
expire_each-IsGood spare now [] r s u l g = g
expire_each-IsGood spare now ((k, ref) ∷ rooms) r s u l g =
    let keep = (s.heap ref).removed || not (is_expired now (s.heap ref)) in
    let (good, listed) = loop_keep spare expiry k ref rooms keep s u l g in
    expire_each-IsGood spare now rooms _ _ u.1 listed good

pub detach_expired_rooms-IsGood :
    (spare : List String) (now : ℕ) (r : RoomResources) (s : Store)
    → IsGood spare (view s)
    → IsGood spare (view (detach_expired_rooms now r s).2)
unfolding detach_expired_rooms
detach_expired_rooms-IsGood spare now r s g =
    expire_each-IsGood spare now s.rooms r s g.unique (λ k ref e. e) g

pub close_resources-IsValid :
    (cause : CloseCause) (r : RoomResources) (s : Store)
    → IsValid s
    → IsValid (close_resources cause r s)
unfolding close_resources
close_resources-IsValid cause r s g = g

pub cleanup_expired-IsValid : (now : ℕ) (s : Store) → IsValid s → IsValid (cleanup_expired now s).1
unfolding cleanup_expired
cleanup_expired-IsValid now s g =
    close_resources-IsValid expiry _ _ (detach_expired_rooms-IsGood [] now no_resources s g)

clear_each-IsValid :
    (rooms : Dict ℕ) (r : RoomResources) (s : Store)
    → Unique rooms
    → Listed rooms s
    → IsValid s
    → IsValid (clear_each rooms r s).2
unfolding clear_each
clear_each-IsValid [] r s u l g = g
clear_each-IsValid ((k, ref) ∷ rooms) r s u l g =
    let (good, listed) = loop_keep [] debug_delete k ref rooms (s.heap ref).ending s u l g in
    clear_each-IsValid rooms _ _ u.1 listed good

pub clear_rooms-IsValid : (s : Store) → IsValid s → IsValid (clear_rooms s).1
unfolding clear_rooms
clear_rooms-IsValid s g =
    if_keep (λ (o : ℕ × Store). IsValid o.1) s.closed (λ e. g)
      (λ e.
        close_resources-IsValid debug_delete _ _
          (clear_each-IsValid s.rooms no_resources s g.unique (λ k ref h. h) g))

pub delete_room-IsValid : (k : String) (s : Store) → IsValid s → IsValid (delete_room k s).1
unfolding delete_room
delete_room-IsValid k s g = elim (Option-cases (lookup k s.rooms)) [
  | inl e ↦ rw (e, delete_room) g
  | inr (ref, e) ↦
      rw (e, delete_room)
        (if_keep (λ (o : Bool × Store). IsValid o.1) (s.closed || (s.heap ref).ending) (λ h. g)
          (λ h.
            close_resources-IsValid debug_delete _ _ (discard-IsGood [] debug_delete k ref s e g)))
]

retire_room_lem :
    (cause : CloseCause) (ref : ℕ) (s : Store)
    → (s.heap ref).removed ≡ false
    → view (retire_room cause ref s) ≡ view (gone_store cause (s.heap ref).id ref s)
unfolding retire_room close_resources
retire_room_lem cause ref s e = simp (retire_room, detach_room_lem cause ref s e)

pub owns_lem :
    (k : String) (ref : ℕ) (s : Store) → owns k ref s ≡ true → lookup k s.rooms ≡ some ref
owns_lem k ref s e = ground arith

pub retire_room-IsValid :
    (cause : CloseCause) (ref : ℕ) (s : Store)
    → lookup (s.heap ref).id s.rooms ≡ some ref
    → IsValid s
    → IsValid (retire_room cause ref s)
retire_room-IsValid cause ref s e g =
    subst (IsGood []) (sym (retire_room_lem cause ref s (g.alive _ ref e)))
      (gone-IsGood [] cause (s.heap ref).id ref s e g)

pub finish_game_end-IsValid : (ref : ℕ) (s : Store) → IsValid s → IsValid (finish_game_end ref s)
unfolding finish_game_end
finish_game_end-IsValid ref s g =
    if_keep IsValid _ (λ e. g)
      (λ e. retire_room-IsValid game_end ref s (owns_lem (s.heap ref).id ref s (ground arith)) g)

pub expire_matched_attach_deadline-IsValid :
    (now ref ticker : ℕ) (s : Store)
    → IsValid s
    → IsValid (expire_matched_attach_deadline now ref ticker s)
unfolding expire_matched_attach_deadline
expire_matched_attach_deadline-IsValid now ref ticker s g =
    if_keep IsValid _ (λ e. g)
      (λ e.
        retire_room-IsValid prestart_cancel ref s (owns_lem (s.heap ref).id ref s (ground arith)) g)

pub expire_ready_deadline-IsValid :
    (now ref ticker : ℕ) (s : Store) → IsValid s → IsValid (expire_ready_deadline now ref ticker s)
unfolding expire_ready_deadline
expire_ready_deadline-IsValid now ref ticker s g =
    if_keep IsValid _ (λ e. g)
      (λ e.
        retire_room-IsValid prestart_cancel ref s (owns_lem (s.heap ref).id ref s (ground arith)) g)
