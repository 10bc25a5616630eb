-- ===== src/Simulation/Floats.antt =====
-- The operations of the hardware and of the package math on a `float64`, and the vectors of
-- simulation.go and melee.go that are computed with them. The operations are a parameter: no theorem
-- says what they give.
use server_crawl_stars.Base.{ℕ, Bool, not, ◌&&◌, if◌then◌else◌}
use server_crawl_stars.Simulation.Types.{ℤ, Float64, Vector2}

-- `decimal m e` is the constant m / 10^e; `of_int` is the conversion `float64(n)`.
pub record Floats : Type 0 where
  pub decimal : ℕ → ℕ → Float64
  pub of_int : ℤ → Float64
  pub to_int : Float64 → ℤ
  pub add : Float64 → Float64 → Float64
  pub sub : Float64 → Float64 → Float64
  pub mul : Float64 → Float64 → Float64
  pub div : Float64 → Float64 → Float64
  pub neg : Float64 → Float64
  pub less : Float64 → Float64 → Bool
  pub less_or_equal : Float64 → Float64 → Bool
  pub equal : Float64 → Float64 → Bool
  pub is_nan : Float64 → Bool
  pub is_inf : Float64 → Bool
  pub infinity : Float64
  pub pi : Float64
  pub abs : Float64 → Float64
  pub sqrt : Float64 → Float64
  pub floor : Float64 → Float64
  pub ceil : Float64 → Float64
  pub max_float : Float64 → Float64 → Float64
  pub min_float : Float64 → Float64 → Float64
  pub hypot : Float64 → Float64 → Float64
  pub mod_float : Float64 → Float64 → Float64
  pub cos : Float64 → Float64
  pub sin : Float64 → Float64

module _ (fl : Floats) where
  abbrev pub zero_float : Float64
  zero_float = fl.decimal 0 0

  abbrev pub one_float : Float64
  one_float = fl.decimal 1 0

  -- `Vector2{}`, and the comparison with it.
  abbrev pub origin : Vector2
  origin = record { x = zero_float; y = zero_float }

  abbrev pub is_origin : Vector2 → Bool
  is_origin v = fl.equal v.x zero_float && fl.equal v.y zero_float

  -- `isFinite`
  unfoldable pub is_finite : Vector2 → Bool
  is_finite v =
      not (fl.is_nan v.x) && not (fl.is_nan v.y) && not (fl.is_inf v.x) && not (fl.is_inf v.y)

  -- `normalizeDirection`
  unfoldable pub normalize_direction : Vector2 → Vector2
  normalize_direction d =
      let max_component = fl.max_float (fl.abs d.x) (fl.abs d.y) in
      let x = fl.div d.x max_component in
      let y = fl.div d.y max_component in
      let magnitude = fl.hypot x y in
      if fl.equal max_component zero_float
      then d
      else record { x = fl.div x magnitude; y = fl.div y magnitude }

  -- `clampDirection`
  unfoldable pub clamp_direction : Vector2 → Vector2
  unfolding normalize_direction
  clamp_direction d =
      let max_component = fl.max_float (fl.abs d.x) (fl.abs d.y) in
      if fl.less_or_equal max_component one_float && fl.less_or_equal (fl.hypot d.x d.y) one_float
      then d
      else normalize_direction d

  -- `clamp`
  unfoldable pub clamp : Float64 → Float64 → Float64 → Float64
  clamp value low high =
      if fl.less value low then low else if fl.less high value then high else value

  -- A radius below zero counts as zero.
  abbrev pub at_least_zero : Float64 → Float64
  at_least_zero radius = if fl.less radius zero_float then zero_float else radius

  -- `circlesOverlap`
  unfoldable pub circles_overlap : Vector2 → Float64 → Vector2 → Float64 → Bool
  circles_overlap a a_radius b b_radius =
      let dx = fl.sub a.x b.x in
      let dy = fl.sub a.y b.y in
      let radius = fl.add (at_least_zero a_radius) (at_least_zero b_radius) in
      fl.less_or_equal (fl.add (fl.mul dx dx) (fl.mul dy dy))
        (fl.add (fl.mul radius radius) (fl.decimal 1 12))

  -- `rotateDirection`
  unfoldable pub rotate_direction : Vector2 → Float64 → Vector2
  rotate_direction d degrees =
      let turned = fl.mod_float degrees (fl.decimal 360 0) in
      let radians = fl.div (fl.mul turned fl.pi) (fl.decimal 180 0) in
      let cosine = fl.cos radians in
      let sine = fl.sin radians in
      record {
        x = fl.sub (fl.mul d.x cosine) (fl.mul d.y sine);
        y = fl.add (fl.mul d.x sine) (fl.mul d.y cosine);
      }
