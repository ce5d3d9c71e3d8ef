-- ===== src/Server/RateLimit/Cleanup.antt =====
-- The sweep of internal/server/middleware/ratelimit.go over idle buckets.
use iskele.Common.{
  ℕ, ◌-◌, ◌*◌, ◌≤◌, ◌<◌, String, ◌≡◌, refl, ap, sym, ◌∙◌, inl, inr, Bool, Option, none, some, arith,
  ltb, lookup, lookup-erase_if, unless, erase_if-IsTable, Bool-cases, lookup-insert, eq_refl,
}
use native.Mathlib.Nat.{mul-le-mul_right}
use iskele.Server.RateLimit.{
  RateLimiter, Bucket, bucket_at, refill, spend, wait_for, allow, cleanup,
}
use iskele.Server.RateLimit.Bound.{IsLimited}

pub cleanup-IsLimited :
    (idle now : ℕ) (l : RateLimiter) → IsLimited l → IsLimited (cleanup idle now l).0
unfolding cleanup
cleanup-IsLimited idle now l h = erase_if-IsTable _ _ l.buckets h

-- A bucket that was left alone long enough is as good as a new one.
refill-idle :
    (l : RateLimiter) (idle now later : ℕ) (b : Bucket)
    → l.burst ≤ idle * l.rate
    → b.last_seen < now - idle
    → now ≤ later
    → refill l later b ≡ refill l later (bucket_at l later none)
unfolding refill bucket_at
refill-idle l idle now later b long stale after =
    ap (λ n. record { tokens = n; last_seen = later })
      (ground (arith, mul-le-mul_right {m = idle} {n = later - b.last_seen} l.rate (omega arith)))

refill-unless :
    (l : RateLimiter) (idle now later : ℕ) (o : Option Bucket)
    → l.burst ≤ idle * l.rate
    → now ≤ later
    → refill l later (bucket_at l later (unless (λ b. ltb b.last_seen (now - idle)) o))
      ≡ refill l later (bucket_at l later o)
unfolding bucket_at
refill-unless l idle now later none long after = refl
refill-unless l idle now later (some b) long after =
    elim (Bool-cases (ltb b.last_seen (now - idle))) [
      | inl stale ↦ rw stale (sym (refill-idle l idle now later b long (ground arith) after))
      | inr fresh ↦ rw fresh refl
    ]

-- What `allow` answers, with the bucket that it leaves to the client.
abbrev pub verdict : String → ℕ → RateLimiter → Option Bucket × Bool × ℕ
verdict key now l =
    let (after, allowed, retry) = allow key now l in (lookup key after.buckets, allowed, retry)

-- the answer to a refilled bucket
abbrev answer : RateLimiter → Bucket → Option Bucket × Bool × ℕ
answer l b = let (after, allowed, retry) = spend l b in (some after, allowed, retry)

verdict-answer :
    (key : String) (now : ℕ) (l : RateLimiter)
    → verdict key now l ≡ answer l (refill l now (bucket_at l now (lookup key l.buckets)))
unfolding allow
verdict-answer key now l = rw (lookup-insert, eq_refl) refl

answer-cleanup :
    (idle now : ℕ) (l : RateLimiter) (later : ℕ) (o : Option Bucket)
    → answer
        (cleanup idle now l).0
        (refill (cleanup idle now l).0 later (bucket_at (cleanup idle now l).0 later o))
      ≡ answer l (refill l later (bucket_at l later o))
unfolding cleanup spend refill wait_for bucket_at
answer-cleanup idle now l later none = refl
answer-cleanup idle now l later (some b) = refl

lookup-cleanup :
    (key : String) (idle now : ℕ) (l : RateLimiter)
    → IsLimited l
    → lookup key (cleanup idle now l).0.buckets
      ≡ unless (λ b. ltb b.last_seen (now - idle)) (lookup key l.buckets)
unfolding cleanup
lookup-cleanup key idle now l h = lookup-erase_if (λ k b. b.tokens ≤ l.burst) _ key l.buckets h

-- A sweep cannot be told from its absence by any client: when a bucket refills within the idle
-- time and none holds more than the burst, a request at the instant of the sweep or later is answered
-- as it would have been without it, and leaves the same bucket of its client.
pub allow-cleanup :
    (key : String) (idle now later : ℕ) (l : RateLimiter)
    → IsLimited l
    → l.burst ≤ idle * l.rate
    → now ≤ later
    → verdict key later (cleanup idle now l).0 ≡ verdict key later l
allow-cleanup key idle now later l h long after =
    verdict-answer key later (cleanup idle now l).0
    ∙ answer-cleanup idle now l later (lookup key (cleanup idle now l).0.buckets)
    ∙ ap (λ o. answer l (refill l later (bucket_at l later o))) (lookup-cleanup key idle now l h)
    ∙ ap (answer l) (refill-unless l idle now later (lookup key l.buckets) long after)
    ∙ sym (verdict-answer key later l)
