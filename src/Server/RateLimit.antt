-- ===== src/Server/RateLimit.antt =====
-- internal/server/middleware/ratelimit.go: the token bucket of one client address.
-- The source counts tokens in `float64`; here they are counted exactly, in sixty-billionths of a
-- token, so that a nanosecond at one request a minute refills one unit. The mutex makes each method
-- one step.
pub mod Bound
pub mod Wait
pub mod Cleanup
use iskele.Common.{
  ℕ, ◌+◌, ◌-◌, ◌*◌, ◌/◌, min, String, Bool, true, false, Option, none, some, [], ltb, leb, eqb,
  Table, lookup, insert, erase_if, length, if◌then◌else◌,
}
use iskele.Auth.Limiter.{round_second}

pub record Bucket : Type 0 where
  pub tokens : ℕ
  pub last_seen : ℕ

-- `rate` is in requests per minute, which is also in units per nanosecond; `burst` is in units.
pub record RateLimiter : Type 0 where
  pub buckets : Table Bucket
  pub rate : ℕ
  pub burst : ℕ

-- the units of one token
abbrev pub token : ℕ
token = 60_000_000_000

abbrev pub general_rate : ℕ
general_rate = 120

abbrev pub general_burst : ℕ
general_burst = 240

abbrev pub login_rate : ℕ
login_rate = 5

abbrev pub login_burst : ℕ
login_burst = 5

-- NewRateLimiter
unfoldable pub new_rate_limiter : ℕ → ℕ → RateLimiter
new_rate_limiter rate_per_minute burst =
    let rate = if eqb rate_per_minute 0 then general_rate else rate_per_minute in
    record { buckets = []; rate = rate; burst = (if eqb burst 0 then rate else burst) * token }

-- the bucket of a key, a full one for a key that has none
unfoldable pub bucket_at : RateLimiter → ℕ → Option Bucket → Bucket
bucket_at l now none = record { tokens = l.burst; last_seen = now }
bucket_at l now (some b) = b

-- the refill for the time that passed, capped at the burst size
unfoldable pub refill : RateLimiter → ℕ → Bucket → Bucket
refill l now b = record {
  tokens =
      if ltb b.last_seen now
      then min l.burst (b.tokens + (now - b.last_seen) * l.rate)
      else b.tokens;
  last_seen = now;
}

-- the wait until one token is available again
unfoldable pub wait_for : RateLimiter → Bucket → ℕ
wait_for l b = round_second ((token - b.tokens) / l.rate + 1_000_000_000)

-- what is left of the refilled bucket, and the answer: whether the request may proceed, and how
-- long to wait if not
unfoldable pub spend : RateLimiter → Bucket → Bucket × Bool × ℕ
unfolding wait_for
spend l b =
    if leb token b.tokens
    then (record b { tokens = b.tokens - token }, true, 0)
    else (b, false, wait_for l b)

-- Allow
unfoldable pub allow : String → ℕ → RateLimiter → RateLimiter × Bool × ℕ
unfolding bucket_at refill spend
allow key now l =
    let (b, allowed, retry) = spend l (refill l now (bucket_at l now (lookup key l.buckets))) in
    (record l { buckets = insert key b l.buckets }, allowed, retry)

-- Cleanup
unfoldable pub cleanup : ℕ → ℕ → RateLimiter → RateLimiter × ℕ
cleanup idle now l =
    let kept = erase_if (λ b. ltb b.last_seen (now - idle)) l.buckets in
    (record l { buckets = kept }, length l.buckets - length kept)

-- Size
unfoldable pub size : RateLimiter → ℕ
size l = length l.buckets
