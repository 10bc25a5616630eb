-- ===== src/Simulation/Melee.antt =====
-- melee.go: the hits of a melee attack, and the segments that they are found with.
use server_crawl_stars.Base.{
  ℕ, zero, suc, ◌+◌, ◌-◌, Bool, false, not, ◌&&◌, ◌||◌, Option, none, some, List, [], ◌∷◌, ◌==◌,
  if◌then◌else◌, get_elem?,
}
use server_crawl_stars.Simulation.Types.{Float64, Vector2, TileType, wall, MapData, PlayerData}
use server_crawl_stars.Simulation.Floats.{Floats, zero_float, one_float, clamp, at_least_zero}
use server_crawl_stars.Simulation.State.{State, MeleeIntent, update_at}
use server_crawl_stars.Simulation.Maps.{MapIndexRange, world_pos, segment_candidate_range}
use server_crawl_stars.Simulation.Combat.{can_owner_hit, take_damage}
use server_crawl_stars.Simulation.Skills.{resolved_tile_size}

module _ (fl : Floats) where
  -- `segmentSlab`: where the segment enters and leaves, and whether it does.
  unfoldable pub segment_slab :
      Float64 → Float64 → Float64 → Float64 → Float64 → Float64 → Float64 × Float64 × Bool
  segment_slab origin direction low high enter exit =
      let one = fl.div (fl.sub low origin) direction in
      let two = fl.div (fl.sub high origin) direction in
      let near = if fl.less two one then two else one in
      let far = if fl.less two one then one else two in
      let enter' = if fl.less enter near then near else enter in
      let exit' = if fl.less far exit then far else exit in
      if fl.equal direction (zero_float fl)
      then (enter, exit, fl.less_or_equal low origin && fl.less_or_equal origin high)
      else (enter', exit', fl.less_or_equal enter' exit')

  -- `segmentAABBHit`: where the segment enters the box.
  unfoldable pub segment_aabb_hit : Vector2 → Vector2 → Vector2 → Vector2 → Option Float64
  unfolding segment_slab
  segment_aabb_hit start end low high =
      let (enter, exit, hit_x) =
        segment_slab start.x (fl.sub end.x start.x) low.x high.x (zero_float fl) (one_float fl) in
      let (enter', exit', hit_y) =
        segment_slab start.y (fl.sub end.y start.y) low.y high.y enter exit in
      if hit_x && hit_y then some enter' else none

  -- `segmentCircleHit`: where the segment enters the circle.
  unfoldable pub segment_circle_hit : Vector2 → Vector2 → Vector2 → Float64 → Option Float64
  unfolding clamp
  segment_circle_hit start end center radius =
      let r = at_least_zero fl radius in
      let dx = fl.sub end.x start.x in
      let dy = fl.sub end.y start.y in
      let ox = fl.sub start.x center.x in
      let oy = fl.sub start.y center.y in
      let c = fl.sub (fl.add (fl.mul ox ox) (fl.mul oy oy)) (fl.mul r r) in
      let a = fl.add (fl.mul dx dx) (fl.mul dy dy) in
      let b = fl.mul (fl.decimal 2 0) (fl.add (fl.mul ox dx) (fl.mul oy dy)) in
      let b_squared = fl.mul b b in
      let four_ac = fl.mul (fl.mul (fl.decimal 4 0) a) c in
      let exact = fl.sub b_squared four_ac in
      let tolerance =
        fl.mul (fl.mul (fl.decimal 16 0) (fl.decimal 2220446049250313 31))
          (fl.add (fl.abs b_squared) (fl.abs four_ac)) in
      let touches = fl.less_or_equal (fl.abs exact) tolerance in
      let discriminant = if touches then zero_float fl else exact in
      let t = fl.div (fl.sub (fl.neg b) (fl.sqrt discriminant)) (fl.mul (fl.decimal 2 0) a) in
      if fl.less_or_equal c (zero_float fl)
      then some (zero_float fl)
      else if fl.equal a (zero_float fl) || (not touches && fl.less exact (zero_float fl))
      then none
      else if fl.less t (fl.neg (fl.decimal 1 12))
          || fl.less (fl.add (one_float fl) (fl.decimal 1 12)) t
      then none
      else some (clamp fl t (zero_float fl) (one_float fl))

  -- Where a segment along one axis leaves the map.
  abbrev pub leave : Float64 → Float64 → Float64 → Float64 → Float64 → Float64
  leave start direction low high best =
      if fl.less (zero_float fl) direction
      then fl.min_float best (fl.div (fl.sub high start) direction)
      else if fl.less direction (zero_float fl)
      then fl.min_float best (fl.div (fl.sub low start) direction)
      else best

  -- The first wall so far, once a tile was looked at.
  unfoldable pub block_tile :
      MapData → Vector2 → Vector2 → ℕ → ℕ → Option TileType → Float64 → Float64
  unfolding world_pos segment_aabb_hit
  block_tile m start end x y (some wall) best =
      let half_tile = fl.mul m.tile_size (fl.decimal 5 1) in
      let center = world_pos fl m x y in
      let low : Vector2 = record { x = fl.sub center.x half_tile; y = fl.sub center.y half_tile } in
      let high : Vector2 = record {
        x = fl.add center.x half_tile;
        y = fl.add center.y half_tile;
      } in
      elim (segment_aabb_hit start end low high) [
        | none ↦ best
        | some t ↦ if fl.less t best then t else best
      ]
  block_tile m start end x y _ best = best

  unfoldable pub block_row :
      MapData → Vector2 → Vector2 → ℕ → ℕ → ℕ → List TileType → Float64 → Float64
  unfolding block_tile
  block_row m start end zero x y row best = best
  block_row m start end (suc count) x y row best =
      block_row m start end count (x + 1) y row (block_tile m start end x y (get_elem? row x) best)

  unfoldable pub block_rows :
      MapData → Vector2 → Vector2 → MapIndexRange → ℕ → ℕ → Float64 → Float64
  unfolding block_row
  block_rows m start end range zero y best = best
  block_rows m start end range (suc count) y best =
      let columns = range.max_x + 1 - range.min_x in
      let next : Float64 = elim (get_elem? m.tiles y) [
        | none ↦ best
        | some row ↦ block_row m start end columns range.min_x y row best
      ] in
      block_rows m start end range count (y + 1) next

  -- `firstBlockingSegmentT`
  unfoldable pub first_blocking_segment_t : MapData → Vector2 → Vector2 → Float64
  unfolding world_pos segment_candidate_range block_rows
  first_blocking_segment_t m start end =
      let half_tile = fl.mul m.tile_size (fl.decimal 5 1) in
      let min_x = fl.sub (world_pos fl m 0 0).x half_tile in
      let min_y = fl.sub (world_pos fl m 0 (m.height - 1)).y half_tile in
      let max_x = fl.add (world_pos fl m (m.width - 1) 0).x half_tile in
      let max_y = fl.add (world_pos fl m 0 0).y half_tile in
      let edge_x = leave start.x (fl.sub end.x start.x) min_x max_x fl.infinity in
      let edge = leave start.y (fl.sub end.y start.y) min_y max_y edge_x in
      let range = segment_candidate_range fl m start end in
      if m.width == 0 || (m.height == 0)
      then fl.infinity
      else if fl.less start.x min_x
          || fl.less max_x start.x
          || fl.less start.y min_y
          || fl.less max_y start.y
      then zero_float fl
      else if range.valid
      then block_rows m start end range (range.max_y + 1 - range.min_y) range.min_y edge
      else edge

  -- The loop of `firstMeleeTarget` over the players from an index on.
  unfoldable pub melee_target_from :
      State → PlayerData → Vector2 → Vector2 → Float64 → ℕ → List PlayerData → Option ℕ
  unfolding can_owner_hit segment_circle_hit
  melee_target_from s owner start end blocking index [] = none
  melee_target_from s owner start end blocking index (p ∷ ps) =
      let later = melee_target_from s owner start end blocking (index + 1) ps in
      let reached : Bool = elim (segment_circle_hit start end p.pos p.radius) [
        | none ↦ false
        | some t ↦ fl.less t (fl.sub blocking (fl.decimal 1 9))
      ] in
      if can_owner_hit owner.id p s && reached then some index else later

  -- `firstMeleeTarget`
  unfoldable pub first_melee_target : MeleeIntent → List PlayerData → State → Option ℕ
  unfolding first_blocking_segment_t melee_target_from resolved_tile_size
  first_melee_target intent players s =
      let size = resolved_tile_size fl s in
      let end : Vector2 = record {
        x =
            fl.add intent.origin.x
              (fl.mul (fl.mul intent.direction.x intent.attack.range_tiles) size);
        y =
            fl.add intent.origin.y
              (fl.mul (fl.mul intent.direction.y intent.attack.range_tiles) size);
      } in
      elim (get_elem? players intent.owner_index) [
        | none ↦ none
        | some owner ↦
            melee_target_from s owner intent.origin end
              (first_blocking_segment_t s.game_map intent.origin end) 0 players
      ]

  -- The damage of each player, from the intents of one tick.
  unfoldable pub melee_damage :
      List MeleeIntent → List PlayerData → State → List Float64 → List Float64
  unfolding first_melee_target
  melee_damage [] players s damage = damage
  melee_damage (intent ∷ intents) players s damage =
      melee_damage intents players s (elim (first_melee_target intent players s) [
        | none ↦ damage
        | some index ↦ update_at (λ d. fl.add d intent.attack.damage_per_hit) index damage
      ])

  unfoldable pub no_damage : List PlayerData → List Float64
  no_damage [] = []
  no_damage (p ∷ ps) = zero_float fl ∷ no_damage ps

  unfoldable pub apply_damage : List Float64 → List PlayerData → List PlayerData
  unfolding take_damage
  apply_damage (d ∷ ds) (p ∷ ps) =
      (if fl.equal d (zero_float fl) then p else take_damage fl d p) ∷ apply_damage ds ps
  apply_damage _ ps = ps

  -- `applyMeleeIntents`: every hit is found on the players as they were before the first.
  unfoldable pub apply_melee_intents : List MeleeIntent → State → State
  unfolding melee_damage no_damage apply_damage
  apply_melee_intents [] s = s
  apply_melee_intents (intent ∷ intents) s =
      let damage = melee_damage (intent ∷ intents) s.players s (no_damage s.players) in
      record s { players = apply_damage damage s.players }
