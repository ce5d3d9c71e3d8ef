-- ===== src/Server/RateLimit/Wait.antt =====
-- A client that waits as long as internal/server/middleware/ratelimit.go told it to is served.
use iskele.Common.{
  ℕ, ◌+◌, ◌-◌, ◌*◌, ◌/◌, ◌≤◌, ◌<◌, String, ◌≡◌, refl, ap, ◌∙◌, true, false, some, List, [], ◌∷◌,
  All, arith, ◌==◌, lookup,
}
use native.Mathlib.Nat.{lt-mul-div-succ, mul-le-mul_right, mul_comm}
use iskele.Auth.Limiter.{round_second}
use iskele.Server.RateLimit.{RateLimiter, Bucket, token, bucket_at, refill, spend, wait_for, allow}
use iskele.Server.RateLimit.Bound.{Request, lookup-allow, lookup-allow_other}

-- The state that a sequence of requests leaves.
abbrev pub allow_all : List Request → RateLimiter → RateLimiter
allow_all [] l = l
allow_all ((key, now) ∷ requests) l = allow_all requests (allow key now l).0

lookup-allow_all :
    (k : String) (requests : List Request) (l : RateLimiter)
    → All (λ r. (r.0 == k) ≡ false) requests
    → lookup k (allow_all requests l).buckets ≡ lookup k l.buckets
lookup-allow_all k [] l h = refl
lookup-allow_all k ((key, now) ∷ requests) l (other, h) =
    lookup-allow_all k requests (allow key now l).0 h ∙ lookup-allow_other k key now l other

-- the rate and the burst, which no request changes
abbrev settings : RateLimiter → ℕ × ℕ
settings l = (l.rate, l.burst)

settings-allow_all :
    (requests : List Request) (l : RateLimiter) → settings (allow_all requests l) ≡ settings l
unfolding allow
settings-allow_all [] l = refl
settings-allow_all ((key, now) ∷ requests) l = settings-allow_all requests (allow key now l).0

round_second-above : (q : ℕ) → q + 1 ≤ round_second (q + 1_000_000_000)
unfolding round_second
round_second-above q = omega arith

-- The wait refills what is missing.
wait_for-enough :
    (l : RateLimiter) (b : Bucket) → 0 < l.rate → token ≤ b.tokens + wait_for l b * l.rate
unfolding wait_for
wait_for-enough l b positive =
    let missing = token - b.tokens in
    omega (
      arith,
      lt-mul-div-succ missing positive,
      mul_comm l.rate (missing / l.rate + 1),
      mul-le-mul_right l.rate (round_second-above (missing / l.rate)),
    )

wait_for-positive : (l : RateLimiter) (b : Bucket) → 0 < wait_for l b
unfolding wait_for
wait_for-positive l b = omega (arith, round_second-above ((token - b.tokens) / l.rate))

-- A bucket refilled after the wait pays for a request.
refill-enough :
    (l : RateLimiter) (now later : ℕ) (b : Bucket)
    → 0 < l.rate
    → token ≤ l.burst
    → b.last_seen ≡ now
    → now + wait_for l b ≤ later
    → (spend l (refill l later b)).1 ≡ true
unfolding spend refill
refill-enough l now later b positive room seen waited = ground (
  arith,
  wait_for-enough l b positive,
  wait_for-positive l b,
  mul-le-mul_right {m = wait_for l b} {n = later - b.last_seen} l.rate (omega arith),
)

-- What a refusal leaves: the bucket as the refill left it, and the wait that it is given.
spend-refused :
    (l : RateLimiter) (b : Bucket)
    → (spend l b).1 ≡ false
    → ((spend l b).0 ≡ b) × ((spend l b).2 ≡ wait_for l b)
unfolding spend
spend-refused l b h = ground arith

-- A refused request leaves the bucket as the refill left it, and is told the wait of that bucket.
allow-refused :
    (key : String) (now : ℕ) (l : RateLimiter)
    → (allow key now l).1 ≡ false
    → (b : Bucket) × (lookup key (allow key now l).0.buckets ≡ some b)
      × (b.last_seen ≡ now)
      × ((allow key now l).2 ≡ wait_for l b)
unfolding allow
allow-refused key now l refused =
    let b = refill l now (bucket_at l now (lookup key l.buckets)) in
    let (same, wait) = spend-refused l b refused in
    (b, lookup-allow key now l ∙ ap some same, refl, wait)

wait_for-settings :
    (l after : RateLimiter) (b : Bucket)
    → settings after ≡ settings l
    → wait_for after b ≡ wait_for l b
unfolding wait_for
wait_for-settings l after b same =
    ap (λ s. round_second ((token - b.tokens) / s.0 + 1_000_000_000)) same

allow-known :
    (key : String) (now : ℕ) (l : RateLimiter) (b : Bucket)
    → lookup key l.buckets ≡ some b
    → (allow key now l).1 ≡ (spend l (refill l now b)).1
unfolding allow bucket_at
allow-known key now l b h = rw h refl

-- A client that was refused, and that waits at least as long as it was told, is let through by its
-- next request, whatever the other clients ask meanwhile, when a request can be granted at all: the
-- rate is positive and the burst is at least one token, as for every limiter that is built.
pub allow-waited :
    (key : String) (now later : ℕ) (requests : List Request) (l : RateLimiter)
    → 0 < l.rate
    → token ≤ l.burst
    → (allow key now l).1 ≡ false
    → All (λ r. (r.0 == key) ≡ false) requests
    → now + (allow key now l).2 ≤ later
    → (allow key later (allow_all requests (allow key now l).0)).1 ≡ true
allow-waited key now later requests l positive room refused others waited =
    let (b, held, seen, wait) = allow-refused key now l refused in
    let after = allow_all requests (allow key now l).0 in
    let same : settings after ≡ settings l = settings-allow_all ((key, now) ∷ requests) l in
    allow-known key later after b (lookup-allow_all key requests (allow key now l).0 others ∙ held)
    ∙ refill-enough after now later b (omega (arith, ap (λ s. s.0) same))
        (omega (arith, ap (λ s. s.1) same)) seen
        (omega (arith, wait, waited, wait_for-settings l after b same))
