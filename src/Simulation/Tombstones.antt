-- ===== src/Simulation/Tombstones.antt =====
-- How long a destroyed projectile stays in the snapshots (simulation.go,
-- `pruneExpiredProjectileTombstones`).
use server_crawl_stars.Base.{
  ℕ, ◌+◌, ◌≡◌, refl, String, str_eq, Bool, true, false, not, ◌||◌, none, some, List, [], ◌∷◌,
  if◌then◌else◌, ltb, arith, All,
}
use server_crawl_stars.Base.Dict.{Dict, lookup, insert, lookup-delete, lookup-insert}
use server_crawl_stars.Simulation.Types.{ProjectileData}
use server_crawl_stars.Simulation.State.{State}
use server_crawl_stars.Simulation.Combat.{
  prune_one, prune_each, prune_expired_projectile_tombstones,
}

-- Whether a projectile stays at a tick: it lives, or it was destroyed less than 30 ticks ago. One with
-- no entry was destroyed now.
abbrev pub stays : ℕ → Dict ℕ → ProjectileData → Bool
stays tick at p = elim (lookup p.id at) [
  | none ↦ true
  | some t ↦ not p.is_destroyed || ltb tick (t + 30)
]

abbrev pub those_that_stay : ℕ → Dict ℕ → List ProjectileData → List ProjectileData
those_that_stay tick at [] = []
those_that_stay tick at (p ∷ ps) =
    let rest = those_that_stay tick at ps in if stays tick at p then p ∷ rest else rest

-- No two projectiles have one id.
abbrev pub Distinct : List ProjectileData → Type 0
Distinct [] = Unit
Distinct (p ∷ ps) = All (λ q. str_eq p.id q.id ≡ false) ps × Distinct ps

prune_one-stays :
    (tick : ℕ) (p : ProjectileData) (at : Dict ℕ) → ((prune_one tick p at).0 ≡ stays tick at p)
unfolding prune_one lookup
prune_one-stays tick p at = ground arith

prune_one_other :
    (tick : ℕ) (p : ProjectileData) (at : Dict ℕ) (j : String)
    → str_eq p.id j ≡ false
    → lookup j ((prune_one tick p at).1) ≡ lookup j at
unfolding prune_one
prune_one_other tick p at j h = ground (
  arith,
  lookup-insert p.id j tick at,
  lookup-delete p.id j at,
  lookup-delete p.id j (insert p.id tick at),
)

those_that_stay_same :
    (tick : ℕ) (at noted : Dict ℕ) (id : String) (ps : List ProjectileData)
    → ((j : String) → str_eq id j ≡ false → lookup j noted ≡ lookup j at)
    → All (λ q. str_eq id q.id ≡ false) ps
    → those_that_stay tick noted ps ≡ those_that_stay tick at ps
those_that_stay_same tick at noted id [] same others = refl
those_that_stay_same tick at noted id (q ∷ ps) same (other, others) =
    ground (arith, same q.id other, those_that_stay_same tick at noted id ps same others)

prune_each-those_that_stay :
    (tick : ℕ) (at : Dict ℕ) (ps : List ProjectileData)
    → Distinct ps
    → (prune_each tick ps at).0 ≡ those_that_stay tick at ps
unfolding prune_each
prune_each-those_that_stay tick at [] d = refl
prune_each-those_that_stay tick at (p ∷ ps) (apart, d) =
    let noted : Dict ℕ = (prune_one tick p at).1 in
    ground (
      arith,
      prune_one-stays tick p at,
      prune_each-those_that_stay tick noted ps d,
      those_that_stay_same tick at noted p.id ps (prune_one_other tick p at) apart,
    )

-- With no two projectiles of one id, the snapshot of a tick has exactly the projectiles that live and
-- those destroyed less than 30 ticks ago, in their order; one destroyed with no tick noted stays.
pub prune-those_that_stay :
    (s : State)
    → Distinct s.projectiles
    → (prune_expired_projectile_tombstones s).projectiles
      ≡ those_that_stay s.tick s.projectile_destroyed_at s.projectiles
unfolding prune_expired_projectile_tombstones
prune-those_that_stay s d =
    prune_each-those_that_stay s.tick s.projectile_destroyed_at s.projectiles d
