-- ===== src/Simulation/Ranges.antt =====
-- The bounds of the candidate tiles (map_collision.go, `candidateRangeForAABB`).
use server_crawl_stars.Base.{
  ℕ, ◌≤◌, ◌<◌, ◌≡◌, ◌⊎◌, if◌then◌else◌, refl, true, false, arith, if_keep, Bool-cases, inl, inr,
  ◌||◌, ◌==◌,
}
use server_crawl_stars.Simulation.Types.{ℤ, Float64, MapData}
use server_crawl_stars.Simulation.Floats.{Floats}
use server_crawl_stars.Simulation.Maps.{
  MapIndexRange, clamp_map_index, clamped_to, is_unbounded, whole_range, tile_range, range_between,
  candidate_range_for_aabb,
}

clamp_map_index_below : (i : ℤ) (size : ℕ) → 1 ≤ size → clamp_map_index i size < size
unfolding clamp_map_index
clamp_map_index_below i size h = ground arith

-- All four indices of a valid range are tiles of the map.
abbrev pub Inside : MapData → MapIndexRange → Type 0
Inside m r = (r.min_x < m.width) × (r.max_x < m.width) × (r.min_y < m.height) × (r.max_y < m.height)

-- The range of a box on a map: not valid on a map with no tiles; otherwise valid, accepted by
-- `clampedTo`, and inside.
abbrev pub InMap : MapData → MapIndexRange → Type 0
InMap m r =
    (((m.width ≡ 0) ⊎ (m.height ≡ 0)) × (r.valid ≡ false) × (clamped_to r m ≡ false))
    ⊎ ((1 ≤ m.width) × (1 ≤ m.height) × (clamped_to r m ≡ true) × Inside m r)

accepted : (m : MapData) (r : MapIndexRange) → r.valid ≡ true → Inside m r → clamped_to r m ≡ true
unfolding clamped_to
accepted m r v h = ground (arith, v, h)

module _ (fl : Floats) where
  tile_range-Inside :
      (m : MapData) (a b c d : Float64)
      → 1 ≤ m.width
      → 1 ≤ m.height
      → Inside m (tile_range fl m a b c d)
  unfolding tile_range
  tile_range-Inside m a b c d w h = (
    clamp_map_index_below _ m.width w,
    clamp_map_index_below _ m.width w,
    clamp_map_index_below _ m.height h,
    clamp_map_index_below _ m.height h,
  )

  range_between-Inside :
      (m : MapData) (a b c d : Float64)
      → 1 ≤ m.width
      → 1 ≤ m.height
      → ((range_between fl m a b c d).valid ≡ true) × Inside m (range_between fl m a b c d)
  unfolding range_between tile_range
  range_between-Inside m a b c d w h =
      if_keep (λ r. (r.valid ≡ true) × Inside m r)
        (is_unbounded fl a || is_unbounded fl b || is_unbounded fl c || is_unbounded fl d)
        {s = whole_range fl m} {t = tile_range fl m a b c d}
        (λ e. (refl, (omega (arith, w), omega (arith, w), omega (arith, h), omega (arith, h))))
        (λ e. (refl, tile_range-Inside m a b c d w h))

  -- Whatever the float64 operations give, NaN and infinities included: on a map with no tiles the
  -- candidate range of a box is not valid, and on any other map it is valid, `clampedTo` accepts it,
  -- and its least and its greatest indices are tiles of the map.
  pub candidate_range-InMap :
      (m : MapData) (a b c d : Float64) → InMap m (candidate_range_for_aabb fl m a b c d)
  unfolding candidate_range_for_aabb clamped_to
  candidate_range-InMap m a b c d = elim (Bool-cases (m.width == 0 || (m.height == 0))) [
    | inl e ↦ simp e (inl (ground (arith, e), refl, refl))
    | inr e ↦
        let w : 1 ≤ m.width = ground (arith, e) in
        let h : 1 ≤ m.height = ground (arith, e) in
        let swap_x = fl.less b a in
        let swap_y = fl.less d c in
        let inside =
          range_between-Inside m (if swap_x then b else a) (if swap_x then a else b)
            (if swap_y then d else c) (if swap_y then c else d) w h in
        simp e (inr (w, h, accepted m _ inside.0 inside.1, inside.1))
  ]
