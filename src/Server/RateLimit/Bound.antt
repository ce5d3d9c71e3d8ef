-- ===== src/Server/RateLimit/Bound.antt =====
-- How many requests the limiter of internal/server/middleware/ratelimit.go lets through.
use iskele.Common.{
  ℕ, suc, ◌+◌, ◌-◌, ◌*◌, ◌≤◌, min, String, ◌≡◌, Bool, true, false, ◌&&◌, Option, none, some, List,
  [], ◌∷◌, arith, ◌==◌, lookup, lookup-insert, IsTable, insert-IsTable, lookup-IsTable, subst, ap,
  refl, Bool-cases, ◌∙◌, inl, inr, eq_iff, eq_refl, if◌then◌else◌,
}
use iskele.Server.RateLimit.{RateLimiter, Bucket, token, bucket_at, refill, spend, allow}
use native.Mathlib.Nat.{add-mul, mul-le-mul_right, sub_self, zero-mul}

-- No bucket holds more than the burst, and no key has two buckets.
abbrev pub IsLimited : RateLimiter → Type 0
IsLimited l = IsTable (λ key b. b.tokens ≤ l.burst) l.buckets

-- What a bucket would hold at an instant.
abbrev pub level : RateLimiter → ℕ → Option Bucket → ℕ
level l t none = l.burst
level l t (some b) = min l.burst (b.tokens + (t - b.last_seen) * l.rate)

-- the tokens that an answer costs
abbrev cost : Bool → ℕ
cost true = token
cost false = 0

elapsed-le : (rate a b c : ℕ) → (b - c) * rate ≤ (a - c) * rate + (b - a) * rate
elapsed-le rate a b c =
    subst (λ x. (b - c) * rate ≤ x) (add-mul (a - c) (b - a) rate)
      (mul-le-mul_right rate (omega arith))

-- Waiting raises the level by no more than the rate allows.
level-le :
    (l : RateLimiter) (t now : ℕ) (o : Option Bucket)
    → level l now o ≤ level l t o + (now - t) * l.rate
level-le l t now none = omega arith
level-le l t now (some b) = ground (arith, elapsed-le l.rate t now b.last_seen)

-- A refilled bucket holds what the level says, when it held no more than the burst.
pub refill-le :
    (l : RateLimiter) (now : ℕ) (o : Option Bucket)
    → ((b : Bucket) → o ≡ some b → b.tokens ≤ l.burst)
    → (refill l now (bucket_at l now o)).tokens ≤ level l now o
unfolding refill bucket_at
refill-le l now none h = ground arith
refill-le l now (some b) h = ground (arith, h b refl)

level-burst : (l : RateLimiter) (now : ℕ) (o : Option Bucket) → level l now o ≤ l.burst
level-burst l now none = omega arith
level-burst l now (some b) = omega arith

-- A request pays for what it is granted out of the bucket.
spend-cost : (l : RateLimiter) (b : Bucket) → cost (spend l b).1 + (spend l b).0.tokens ≡ b.tokens
unfolding spend
spend-cost l b = ground arith

spend-last_seen : (l : RateLimiter) (b : Bucket) → (spend l b).0.last_seen ≡ b.last_seen
unfolding spend
spend-last_seen l b = ground arith

refill-last_seen : (l : RateLimiter) (now : ℕ) (b : Bucket) → (refill l now b).last_seen ≡ now
unfolding refill
refill-last_seen l now b = refl

-- the bucket of a key after its request, and the answer
abbrev pub served : RateLimiter → ℕ → Option Bucket → Bucket × Bool × ℕ
served l now o = spend l (refill l now (bucket_at l now o))

served-le :
    (l : RateLimiter) (now : ℕ) (o : Option Bucket)
    → ((b : Bucket) → o ≡ some b → b.tokens ≤ l.burst)
    → cost (served l now o).1 + level l now (some (served l now o).0) ≤ level l now o
served-le l now o h =
    let b = refill l now (bucket_at l now o) in
    omega (
      arith,
      refill-le l now o h,
      spend-cost l b,
      ap (λ t. (now - t) * l.rate) (spend-last_seen l b),
      ap (λ t. (now - t) * l.rate) (refill-last_seen l now (bucket_at l now o)),
      ap (λ d. d * l.rate) (sub_self now),
      zero-mul l.rate,
    )

pub allow-IsLimited :
    (key : String) (now : ℕ) (l : RateLimiter) → IsLimited l → IsLimited (allow key now l).0
unfolding allow
allow-IsLimited key now l h =
    let o = lookup key l.buckets in
    insert-IsTable (λ k b. b.tokens ≤ l.burst) key _ l.buckets
      (omega (
        arith,
        refill-le l now o (λ b. lookup-IsTable _ key l.buckets b h),
        level-burst l now o,
        spend-cost l (refill l now (bucket_at l now o)),
      ))
      h

-- What a request leaves of its own bucket, and of any other.
pub lookup-allow :
    (key : String) (now : ℕ) (l : RateLimiter)
    → lookup key (allow key now l).0.buckets ≡ some (served l now (lookup key l.buckets)).0
unfolding allow
lookup-allow key now l = rw (lookup-insert, eq_refl) refl

pub lookup-allow_other :
    (k key : String) (now : ℕ) (l : RateLimiter)
    → (key == k) ≡ false
    → lookup k (allow key now l).0.buckets ≡ lookup k l.buckets
unfolding allow
lookup-allow_other k key now l other = rw (lookup-insert, other) refl

-- A client's own request pays for what it is granted, and another's costs it nothing.
allow-cost :
    (k key : String) (now : ℕ) (l : RateLimiter)
    → IsLimited l
    → (if key == k then cost (allow key now l).1 else 0)
        + level l now (lookup k (allow key now l).0.buckets)
      ≤ level l now (lookup k l.buckets)
unfolding allow
allow-cost k key now l h = elim (Bool-cases (key == k)) [
  | inl mine ↦
      subst
        (λ x.
          (if key == x then cost (allow key now l).1 else 0)
            + level l now (lookup x (allow key now l).0.buckets)
          ≤ level l now (lookup x l.buckets))
        ((eq_iff key k).0 mine)
        (rw (eq_refl, lookup-insert, eq_refl)
          (served-le l now _ (λ b. lookup-IsTable _ key l.buckets b h)))
  | inr other ↦ rw (lookup-insert, other) (omega arith)
]

-- A request: the key it comes from, and the instant.
abbrev pub Request : Type 0
Request = String × ℕ

-- How many of a client's requests are let through, while others ask too.
abbrev pub granted : String → List Request → RateLimiter → ℕ
granted k [] l = 0
granted k ((key, now) ∷ requests) l =
    let rest = granted k requests (allow key now l).0 in
    if key == k && (allow key now l).1 then suc rest else rest

-- The requests come in order, all within the window.
abbrev pub IsWithin : ℕ → ℕ → List Request → Type 0
IsWithin start end [] = start ≤ end
IsWithin start end ((key, now) ∷ requests) = (start ≤ now) × IsWithin now end requests

IsWithin-le : (start end : ℕ) (requests : List Request) → IsWithin start end requests → start ≤ end
IsWithin-le start end [] w = w
IsWithin-le start end ((key, now) ∷ requests) (first, w) =
    omega (arith, first, IsWithin-le now end requests w)

window_split : (rate a b c : ℕ) → a ≤ b → b ≤ c → (c - a) * rate ≡ (b - a) * rate + (c - b) * rate
window_split rate a b c h k = ap (λ d. d * rate) (omega arith) ∙ add-mul (b - a) (c - b) rate

level-allow :
    (key : String) (now : ℕ) (l : RateLimiter) (t : ℕ) (o : Option Bucket)
    → level (allow key now l).0 t o ≡ level l t o
unfolding allow
level-allow key now l t none = refl
level-allow key now l t (some b) = refl

pub rate-allow : (key : String) (now : ℕ) (l : RateLimiter) → (allow key now l).0.rate ≡ l.rate
unfolding allow
rate-allow key now l = refl

granted-level :
    (k : String) (requests : List Request) (start end : ℕ) (l : RateLimiter)
    → IsLimited l
    → IsWithin start end requests
    → token * granted k requests l ≤ level l start (lookup k l.buckets) + (end - start) * l.rate
granted-level k [] start end l h w = omega arith
granted-level k ((key, now) ∷ requests) start end l h (first, w) = ground (
  arith,
  allow-cost k key now l h,
  level-allow key now l now (lookup k (allow key now l).0.buckets),
  ap (λ d. (end - now) * d) (rate-allow key now l),
  granted-level k requests now end (allow key now l).0 (allow-IsLimited key now l h) w,
  level-le l start now (lookup k l.buckets),
  window_split l.rate start now end first (IsWithin-le now end requests w),
)

-- In any window of time a client is let through at most the burst and what the rate refills in the
-- window, whatever the other clients ask in between, when no bucket holds more than the burst at
-- first and the requests come in the order of their instants.
pub granted-le :
    (k : String) (requests : List Request) (start end : ℕ) (l : RateLimiter)
    → IsLimited l
    → IsWithin start end requests
    → token * granted k requests l ≤ l.burst + (end - start) * l.rate
granted-le k requests start end l h w =
    omega
      (arith, granted-level k requests start end l h w, level-burst l start (lookup k l.buckets))
