-- ===== src/Rooms/RateLimit.antt =====
-- rate_limit.go: the token bucket of each client's address.
-- The package net/netip is the record Netip, with an address and a prefix for the string that names
-- it; of an HTTP request there are its remote address and the values of one header. Instants and
-- durations count nanoseconds. The panics of the constructor on a bad configuration are left out.
pub mod Waiting
use server_crawl_stars.Base.{
  ℕ, zero, suc, ◌+◌, ◌-◌, ◌/◌, ◌%◌, String, Bool, true, false, not, ◌&&◌, ◌||◌, Option, none, some,
  List, [], ◌∷◌, ltb, leb, ◌==◌, if◌then◌else◌,
}
use server_crawl_stars.Base.Dict.{Dict, lookup, insert}
use server_crawl_stars.Simulation.Types.{ℤ, pos, negsuc, Float64}
use server_crawl_stars.Simulation.Floats.{Floats, zero_float, one_float}

-- The type `ipBucket`.
pub record Bucket : Type 0 where
  pub tokens : Float64
  pub updated_at : ℕ
  pub last_seen : ℕ

-- The type `IPRateLimiter`.
pub record RateLimiter : Type 0 where
  pub rate_per_minute : Float64
  pub burst : Float64
  pub buckets : Dict Bucket
  pub stale_after : ℕ
  pub last_sweep_at : ℕ
  pub sweep_initialized : Bool

-- What the code uses of net/netip.
pub record Netip : Type 0 where
  pub zero_addr : String
  pub is_valid : String → Bool
  pub unmap : String → String
  pub is_6 : String → Bool
  pub without_zone : String → String
  pub parse_addr_port : String → Option String
  pub parse_addr : String → Option String
  pub trim_space : String → String
  pub prefix_contains : String → String → Bool
  pub prefix_is_valid : String → Bool
  pub prefix_addr : String → String
  pub prefix_bits : String → ℕ
  pub is_4_in_6 : String → Bool
  pub masked_prefix : String → ℕ → String

abbrev pub second : ℕ
second = 1000000000

abbrev pub minute : ℕ
minute = 60000000000

abbrev pub max_int64 : ℕ
max_int64 = 9223372036854775807

-- `retryAfterSeconds`
unfoldable pub retry_after_seconds : ℕ → ℕ
retry_after_seconds wait =
    let whole = wait / second in
    let seconds = if wait % second == 0 then whole else whole + 1 in
    if ltb seconds 1 then 1 else seconds

-- The buckets that `sweep` leaves.
unfoldable pub sweep_buckets : ℕ → ℕ → Dict Bucket → Dict Bucket
sweep_buckets now stale_after [] = []
sweep_buckets now stale_after ((ip, b) ∷ rest) =
    let left = sweep_buckets now stale_after rest in
    if leb (b.last_seen + stale_after) now then left else (ip, b) ∷ left

-- `sweep`
unfoldable pub sweep : ℕ → RateLimiter → RateLimiter
unfolding sweep_buckets
sweep now l =
    if not l.sweep_initialized
    then record l { last_sweep_at = now; sweep_initialized = true }
    else if ltb now l.last_sweep_at || ltb (now - l.last_sweep_at) l.stale_after
    then l
    else record l { buckets = sweep_buckets now l.stale_after l.buckets; last_sweep_at = now }

module _ (fl : Floats) where
  -- A duration from a float64 above one nanosecond, rounded up: it is not negative.
  abbrev to_duration : ℤ → ℕ
  to_duration (pos n) = n
  to_duration (negsuc n) = 0

  -- `durationForTokens`
  unfoldable pub duration_for_tokens : Float64 → Float64 → ℕ
  duration_for_tokens tokens rate_per_minute =
      let nanoseconds = fl.mul (fl.div tokens rate_per_minute) (fl.of_int (pos minute)) in
      if (fl.is_inf nanoseconds && fl.less (zero_float fl) nanoseconds)
        || fl.less_or_equal (fl.of_int (pos max_int64)) nanoseconds
      then max_int64
      else if fl.less_or_equal nanoseconds (one_float fl)
      then 1
      else to_duration (fl.to_int (fl.ceil nanoseconds))

  -- `NewIPRateLimiter`
  unfoldable pub new_ip_rate_limiter : Float64 → ℕ → RateLimiter
  unfolding duration_for_tokens
  new_ip_rate_limiter rate_per_minute burst =
      let refilled = duration_for_tokens (fl.of_int (pos burst)) rate_per_minute in
      record {
        rate_per_minute = rate_per_minute;
        burst = fl.of_int (pos burst);
        buckets = [];
        stale_after = if ltb refilled minute then minute else refilled;
        last_sweep_at = 0;
        sweep_initialized = false;
      }

  -- `refill`: `minutes` is `Duration.Minutes`.
  unfoldable pub refill : (ℕ → Float64) → ℕ → RateLimiter → Bucket → Bucket
  refill minutes now l b =
      let gained = fl.mul (minutes (now - b.updated_at)) l.rate_per_minute in
      if ltb b.updated_at now
      then record b { tokens = fl.min_float l.burst (fl.add b.tokens gained); updated_at = now }
      else b

  -- The bucket that `Allow` looks at.
  unfoldable pub bucket_for : (ℕ → Float64) → ℕ → RateLimiter → Option Bucket → Bucket
  unfolding refill
  bucket_for minutes now l none = record { tokens = l.burst; updated_at = now; last_seen = now }
  bucket_for minutes now l (some b) =
      let filled = refill minutes now l b in
      if ltb filled.last_seen now then record filled { last_seen = now } else filled

  -- `canonicalIP`
  unfoldable pub canonical_ip : Netip → String → String
  canonical_ip net ip =
      let plain = net.unmap ip in
      if not (net.is_valid ip)
      then net.zero_addr
      else if net.is_6 plain
      then net.without_zone plain
      else plain

  -- What `Allow` makes of a bucket: whether there is a token, how long to wait, and the bucket.
  unfoldable pub take_token : RateLimiter → Bucket → (Bool × ℕ) × Bucket
  unfolding duration_for_tokens
  take_token l b =
      let wait = duration_for_tokens (fl.sub (one_float fl) b.tokens) l.rate_per_minute in
      if fl.less_or_equal (one_float fl) b.tokens
      then ((true, 0), record b { tokens = fl.sub b.tokens (one_float fl) })
      else ((false, wait), b)

  -- `Allow`
  unfoldable pub allow : Netip → (ℕ → Float64) → ℕ → String → RateLimiter → (Bool × ℕ) × RateLimiter
  unfolding sweep bucket_for canonical_ip take_token lookup insert
  allow net minutes now ip l =
      let key = canonical_ip net ip in
      let swept = sweep now l in
      let (answer, bucket) =
        take_token swept (bucket_for minutes now swept (lookup key swept.buckets)) in
      (answer, record swept { buckets = insert key bucket swept.buckets })

  -- `canonicalPrefix`
  unfoldable pub canonical_prefix : Netip → String → String
  canonical_prefix net prefix =
      let address = net.prefix_addr prefix in
      let bits = net.prefix_bits prefix in
      if not (net.prefix_is_valid prefix)
      then prefix
      else if net.is_4_in_6 address && leb 96 bits
      then net.masked_prefix (net.unmap address) (bits - 96)
      else net.masked_prefix (if net.is_6 address then net.without_zone address else address) bits

  -- `isTrustedProxy`
  unfoldable pub is_trusted_proxy : Netip → String → List String → Bool
  unfolding canonical_prefix
  is_trusted_proxy net peer [] = false
  is_trusted_proxy net peer (prefix ∷ prefixes) =
      net.prefix_contains (canonical_prefix net prefix) peer || is_trusted_proxy net peer prefixes

  -- The address that a trusted proxy forwards: one value of the header that is an address.
  unfoldable pub forwarded_or : Netip → String → List String → String
  unfolding canonical_ip
  forwarded_or net peer (value ∷ []) = elim (net.parse_addr (net.trim_space value)) [
    | none ↦ peer
    | some forwarded ↦ canonical_ip net forwarded
  ]
  forwarded_or net peer _ = peer

  -- `clientIP`
  unfoldable pub client_ip : Netip → String → List String → List String → String
  unfolding is_trusted_proxy canonical_ip forwarded_or
  client_ip net remote_addr forwarded_values trusted = elim (net.parse_addr_port remote_addr) [
    | none ↦ net.zero_addr
    | some address ↦
        let peer = canonical_ip net address in
        if is_trusted_proxy net peer trusted then forwarded_or net peer forwarded_values else peer
  ]
