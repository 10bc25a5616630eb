-- ===== src/Rooms/RateLimit/Waiting.antt =====
-- How long a refused client is told to wait, and whom a request changes (rate_limit.go).
use server_crawl_stars.Base.{ℕ, ◌*◌, ◌≤◌, ◌≡◌, ◌↔◌, String, str_eq, false, arith}
use server_crawl_stars.Base.Dict.{lookup, lookup-insert}
use server_crawl_stars.Simulation.Types.{Float64}
use server_crawl_stars.Simulation.Floats.{Floats}
use server_crawl_stars.Rooms.RateLimit.{
  RateLimiter, Netip, second, retry_after_seconds, sweep, canonical_ip, bucket_for, take_token,
  allow,
}

-- The seconds of Retry-After are the least positive number of seconds that is no shorter than the wait.
pub retry_after_seconds_least :
    (wait k : ℕ) → (retry_after_seconds wait ≤ k) ↔ ((1 ≤ k) × (wait ≤ k * second))
unfolding retry_after_seconds
retry_after_seconds_least wait k = ground arith

module _ (fl : Floats) where
  -- A request changes the bucket of its own address alone, the sweep of stale buckets aside.
  pub allow_other :
      (net : Netip) (minutes : ℕ → Float64) (now : ℕ) (ip other : String) (l : RateLimiter)
      → str_eq (canonical_ip fl net ip) other ≡ false
      → lookup other ((allow fl net minutes now ip l).1.buckets)
        ≡ lookup other ((sweep now l).buckets)
  unfolding allow
  allow_other net minutes now ip other l h =
      let key = canonical_ip fl net ip in
      let swept = sweep now l in
      let taken =
        take_token fl swept (bucket_for fl minutes now swept (lookup key swept.buckets)) in
      simp (lookup-insert key other taken.1 swept.buckets, h)
