-- ===== src/Rooms/Monad.antt =====
-- Operations on the Store: a result or an error, and the store that is left in either case.
use server_crawl_stars.Base.{ℕ, Bool, true, false, Option, none, some}
use server_crawl_stars.Rooms.Types.{RoomError, Result, ok, err, Room, Runtime, Store}
use server_crawl_stars.Rooms.Resources.{write}

abbrev pub M : Type 0 → Type 0
M A = Store → Result A × Store

infixl 5 ◌>>=◌ ◌>>◌
abbrev pub ◌>>=◌ : {A B : Type 0} → M A → (A → M B) → M B
◌>>=◌ m f s = let (r, s') = m s in elim r [ ok a ↦ f a s' | err e ↦ (err e, s') ]

abbrev pub ◌>>◌ : {B : Type 0} → M (Unit {0}) → M B → M B
m >> k = m >>= λ _. k

abbrev pub return : {A : Type 0} → A → M A
return a s = (ok a, s)

abbrev pub fail : {A : Type 0} → RoomError → M A
fail e s = (err e, s)

abbrev pub gets : {A : Type 0} → (Store → A) → M A
gets f s = (ok (f s), s)

abbrev pub modify : (Store → Store) → M (Unit {0})
modify f s = (ok tt, f s)

-- An early return with an error.
abbrev pub refuse_if : Bool → RoomError → M (Unit {0})
refuse_if true e s = (err e, s)
refuse_if false e s = (ok tt, s)

-- A pointer that the code tests against nil.
abbrev pub or_fail : {A : Type 0} → Option A → RoomError → M A
or_fail none e s = (err e, s)
or_fail (some a) e s = (ok a, s)

-- A write through a room pointer.
abbrev pub put_room : ℕ → Room → Store → Store
put_room ref room s = record s { heap = write s.heap ref room }

abbrev pub put_runtime : Runtime → Store → Store
put_runtime rt s = record s { runtime = rt }
