-- ===== src/Simulation/Maps.antt =====
-- map_collision.go and simulation.go: the tiles that a circle or a segment can touch, and the
-- collision of a circle with the map. Indices wrap as 64-bit integers; those outside the map are cut to it, so they are natural
-- numbers after `clampMapIndex`.
use server_crawl_stars.Base.{
  ℕ, zero, suc, ◌+◌, ◌-◌, ◌%◌, Bool, true, false, ◌&&◌, ◌||◌, none, some, ltb, leb, ◌==◌,
  if◌then◌else◌, get_elem?,
}
use server_crawl_stars.Simulation.Types.{
  ℤ, pos, negsuc, Float64, Vector2, TileType, wall, water, MapData,
}
use server_crawl_stars.Simulation.Floats.{Floats, zero_float, clamp, at_least_zero}

pub record MapIndexRange : Type 0 where
  pub min_x : ℕ
  pub max_x : ℕ
  pub min_y : ℕ
  pub max_y : ℕ
  pub valid : Bool

-- `m - n` and `a + 1`, `a - 1`, `n - a` on integers.
abbrev pub sub_ℕ : ℕ → ℕ → ℤ
sub_ℕ m n = if leb n m then pos (m - n) else negsuc (n - m - 1)

abbrev pub next_ℤ : ℤ → ℤ
next_ℤ (pos n) = pos (n + 1)
next_ℤ (negsuc zero) = pos 0
next_ℤ (negsuc (suc n)) = negsuc n

abbrev pub previous_ℤ : ℤ → ℤ
previous_ℤ (pos zero) = negsuc 0
previous_ℤ (pos (suc n)) = pos n
previous_ℤ (negsuc n) = negsuc (n + 1)

abbrev pub minus_ℤ : ℕ → ℤ → ℤ
minus_ℤ m (pos n) = sub_ℕ m n
minus_ℤ m (negsuc n) = pos (m + n + 1)

-- An `int` of 64 bits after it wraps.
unfoldable pub wrap_int : ℤ → ℤ
wrap_int (pos n) =
    let rest = n % 18446744073709551616 in
    if ltb rest 9223372036854775808 then pos rest else negsuc (18446744073709551615 - rest)
wrap_int (negsuc n) =
    let rest = n % 18446744073709551616 in
    if ltb rest 9223372036854775808 then negsuc rest else pos (18446744073709551615 - rest)

-- `clampMapIndex`
unfoldable pub clamp_map_index : ℤ → ℕ → ℕ
clamp_map_index (negsuc n) size = 0
clamp_map_index (pos n) size = if leb size n then size - 1 else n

abbrev pub no_range : MapIndexRange
no_range = record { min_x = 0; max_x = 0; min_y = 0; max_y = 0; valid = false }

-- `clampedTo`
unfoldable pub clamped_to : MapIndexRange → MapData → Bool
clamped_to r m =
    r.valid && leb 0 r.min_x && ltb r.max_x m.width && leb 0 r.min_y && ltb r.max_y m.height

-- `tileBlocksPlayer` and `tileBlocksProjectile`
abbrev pub tile_blocks_player : TileType → Bool
tile_blocks_player wall = true
tile_blocks_player water = true
tile_blocks_player _ = false

abbrev pub tile_blocks_projectile : TileType → Bool
tile_blocks_projectile wall = true
tile_blocks_projectile _ = false

module _ (fl : Floats) where
  abbrev half : Float64
  half = fl.decimal 5 1

  -- The constant `TileSize` where the map has none.
  abbrev pub map_tile_size : MapData → Float64
  map_tile_size m =
      if fl.less_or_equal m.tile_size (zero_float fl) then fl.decimal 12 1 else m.tile_size

  -- `WorldPos`
  unfoldable pub world_pos : MapData → ℕ → ℕ → Vector2
  world_pos m x y =
      let size = map_tile_size m in
      let start_x = fl.mul (fl.mul (fl.neg size) half) (fl.of_int (sub_ℕ m.width 1)) in
      let start_y = fl.mul (fl.mul size half) (fl.of_int (sub_ℕ m.height 1)) in
      record {
        x = fl.add start_x (fl.mul (fl.of_int (pos x)) size);
        y = fl.sub start_y (fl.mul (fl.of_int (pos y)) size);
      }

  -- `conservativeTileIndex`
  abbrev pub conservative_tile_index : Float64 → Float64 → Float64 → ℤ
  conservative_tile_index value map_min tile_size =
      fl.to_int (fl.floor (fl.div (fl.sub value map_min) tile_size))

  abbrev pub is_unbounded : Float64 → Bool
  is_unbounded a = fl.is_nan a || fl.is_inf a

  -- The range of all tiles.
  abbrev pub whole_range : MapData → MapIndexRange
  whole_range m = record {
    min_x = 0;
    max_x = m.width - 1;
    min_y = 0;
    max_y = m.height - 1;
    valid = true;
  }

  -- The range of a box of finite bounds, one tile wider on each side.
  unfoldable pub tile_range : MapData → Float64 → Float64 → Float64 → Float64 → MapIndexRange
  unfolding clamp_map_index wrap_int
  tile_range m min_x max_x min_y max_y =
      let size = map_tile_size m in
      let map_min_x = fl.mul (fl.mul (fl.neg size) (fl.of_int (pos m.width))) half in
      let map_min_y = fl.mul (fl.mul (fl.neg size) (fl.of_int (pos m.height))) half in
      let low_x = wrap_int (previous_ℤ (conservative_tile_index min_x map_min_x size)) in
      let high_x = wrap_int (next_ℤ (conservative_tile_index max_x map_min_x size)) in
      let low_y = wrap_int (previous_ℤ (conservative_tile_index min_y map_min_y size)) in
      let high_y = wrap_int (next_ℤ (conservative_tile_index max_y map_min_y size)) in
      record {
        min_x = clamp_map_index low_x m.width;
        max_x = clamp_map_index high_x m.width;
        min_y = clamp_map_index (wrap_int (minus_ℤ (m.height - 1) high_y)) m.height;
        max_y = clamp_map_index (wrap_int (minus_ℤ (m.height - 1) low_y)) m.height;
        valid = true;
      }

  -- `candidateRangeForAABB` once its bounds are in order.
  unfoldable pub range_between : MapData → Float64 → Float64 → Float64 → Float64 → MapIndexRange
  unfolding tile_range
  range_between m min_x max_x min_y max_y =
      if is_unbounded min_x || is_unbounded max_x || is_unbounded min_y || is_unbounded max_y
      then whole_range m
      else tile_range m min_x max_x min_y max_y

  -- `candidateRangeForAABB`
  unfoldable pub candidate_range_for_aabb :
      MapData → Float64 → Float64 → Float64 → Float64 → MapIndexRange
  unfolding range_between
  candidate_range_for_aabb m min_x max_x min_y max_y =
      let swap_x = fl.less max_x min_x in
      let swap_y = fl.less max_y min_y in
      if m.width == 0 || (m.height == 0)
      then no_range
      else range_between m (if swap_x then max_x else min_x) (if swap_x then min_x else max_x)
          (if swap_y then max_y else min_y) (if swap_y then min_y else max_y)

  -- `circleCandidateRange`
  unfoldable pub circle_candidate_range : MapData → Vector2 → Float64 → MapIndexRange
  unfolding candidate_range_for_aabb
  circle_candidate_range m position radius =
      let r = at_least_zero fl radius in
      candidate_range_for_aabb m (fl.sub position.x r) (fl.add position.x r) (fl.sub position.y r)
        (fl.add position.y r)

  -- `segmentCandidateRange`
  unfoldable pub segment_candidate_range : MapData → Vector2 → Vector2 → MapIndexRange
  unfolding candidate_range_for_aabb
  segment_candidate_range m start end =
      candidate_range_for_aabb m (fl.min_float start.x end.x) (fl.max_float start.x end.x)
        (fl.min_float start.y end.y) (fl.max_float start.y end.y)

  -- `circleIntersectsTile`
  unfoldable pub circle_intersects_tile : MapData → Vector2 → Float64 → ℕ → ℕ → Bool
  unfolding world_pos clamp
  circle_intersects_tile m position radius x y =
      let center = world_pos m x y in
      let half_tile = fl.mul m.tile_size half in
      let nearest_x = clamp fl position.x (fl.sub center.x half_tile) (fl.add center.x half_tile) in
      let nearest_y = clamp fl position.y (fl.sub center.y half_tile) (fl.add center.y half_tile) in
      let dx = fl.sub position.x nearest_x in
      let dy = fl.sub position.y nearest_y in
      fl.less_or_equal (fl.add (fl.mul dx dx) (fl.mul dy dy)) (fl.mul radius radius)

  -- A loop over `count` indices from a first one, left when the test holds.
  abbrev pub any_from : ℕ → ℕ → (ℕ → Bool) → Bool
  any_from zero first test = false
  any_from (suc count) first test = test first || any_from count (first + 1) test

  -- Whether a tile is there, blocks and is touched.
  unfoldable pub tile_hits : MapData → Vector2 → Float64 → (TileType → Bool) → ℕ → ℕ → Bool
  unfolding circle_intersects_tile
  tile_hits m position radius blocks y x = elim (get_elem? m.tiles y) [
    | none ↦ false
    | some row ↦ elim (get_elem? row x) [
      | none ↦ false
      | some tile ↦ blocks tile && circle_intersects_tile m position radius x y
    ]
  ]

  -- A circle that reaches over the edge of the map.
  unfoldable pub is_outside : MapData → Vector2 → Float64 → Bool
  unfolding world_pos
  is_outside m position radius =
      let half_tile = fl.mul m.tile_size half in
      let min_x = fl.sub (world_pos m 0 0).x half_tile in
      let max_x = fl.add (world_pos m (m.width - 1) 0).x half_tile in
      let min_y = fl.sub (world_pos m 0 (m.height - 1)).y half_tile in
      let max_y = fl.add (world_pos m 0 0).y half_tile in
      fl.less (fl.sub position.x radius) min_x
      || fl.less max_x (fl.add position.x radius)
      || fl.less (fl.sub position.y radius) min_y
      || fl.less max_y (fl.add position.y radius)

  -- `collidesWithMap`
  unfoldable pub collides_with_map : MapData → Vector2 → Float64 → (TileType → Bool) → Bool
  unfolding is_outside circle_candidate_range tile_hits
  collides_with_map m position radius blocks =
      let r = at_least_zero fl radius in
      let range = circle_candidate_range m position r in
      let rows = range.max_y + 1 - range.min_y in
      let columns = range.max_x + 1 - range.min_x in
      if m.width == 0 || (m.height == 0)
      then false
      else is_outside m position r
        || (range.valid
            && any_from rows range.min_y
                (λ y. any_from columns range.min_x (λ x. tile_hits m position r blocks y x)))
