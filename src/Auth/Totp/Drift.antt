-- ===== src/Auth/Totp/Drift.antt =====
-- Which instants' codes internal/auth/totp.go accepts: those of the current step and of the one
-- on either side.
use Prim.Native.String.{len}
use iskele.Common.{
  ℕ, ◌+◌, ◌-◌, ◌*◌, ◌%◌, ◌≤◌, ◌<◌, String, ◌≡◌, refl, sym, ap, ◌∙◌, subst, Bool, true, false, ◌||◌,
  ◌⊎◌, inl, inr, List, [], ◌∷◌, arith, any, ◌==◌, eq_iff, eq_refl, Bool-cases,
}
use iskele.Store.Platform.{Platform}
use iskele.Store.Exec.{Result, ok, err}
use iskele.Auth.{Crypto}
use iskele.Auth.Totp.{
  pow10, second, unix_epoch, u64, totp_digits, counter_for, code_at, decode_secret, code_of,
  totp_code, candidates, matches_any, check_code, typed, verify_totp,
}

-- one step, in nanoseconds
abbrev pub step : ℕ
step = 30_000_000_000

-- 30 seconds after the beginning of 1970 or later, and less than 2^63 - 1 seconds after Go's zero time.
abbrev pub InRange : ℕ → Type 0
InRange now = (unix_epoch * second + step ≤ now) × (now < 9_223_372_036_854_775_807 * second)

counter_for-next :
    (now : ℕ) → unix_epoch * second ≤ now → counter_for (now + step) ≡ counter_for now + 1
unfolding counter_for
counter_for-next now h = ground arith

counter_for-previous :
    (now : ℕ) → unix_epoch * second + step ≤ now → counter_for (now - step) + 1 ≡ counter_for now
unfolding counter_for
counter_for-previous now h = ground arith

-- The steps of two instants at most one step apart differ by one at most.
counter_for-near :
    (at now : ℕ)
    → at ≤ now + step
    → now ≤ at + step
    → (counter_for at ≤ counter_for now + 1) × (counter_for now ≤ counter_for at + 1)
unfolding counter_for
counter_for-near at now h k = (ground arith, ground arith)

counter_for-small : (now : ℕ) → InRange now → (counter_for now + 1 < u64) × (1 ≤ counter_for now)
unfolding counter_for
counter_for-small now h = (ground arith, ground arith)

-- What `fmt` documents of `%0*d`, and `strings` of trimming: a number below 10^6 has six digits and
-- no space.
pub record IsPrinter (c : Crypto) (os : Platform) : Type 0 where
  pub digits : (n : ℕ) → n < 1_000_000 → len (c.zero_padded totp_digits n) ≡ totp_digits
  pub spaceless :
      (n : ℕ)
      → n < 1_000_000
      → typed c os (c.zero_padded totp_digits n) ≡ c.zero_padded totp_digits n

module _ (c : Crypto) (os : Platform) where
  matches_any-any :
      (key : List ℕ) (entered : String) (found : Bool) (ns : List ℕ)
      → matches_any c os key entered found ns ≡ (found || any (λ n. code_at c key n == entered) ns)
  unfolding matches_any
  matches_any-any key entered found [] = ground arith
  matches_any-any key entered found (n ∷ ns) =
      ground (arith, matches_any-any key entered true ns, matches_any-any key entered found ns)

  -- the three candidates, where nothing wraps around
  candidates-small : (n : ℕ) → n + 1 < u64 → 1 ≤ n → candidates c os n ≡ (n - 1) ∷ n ∷ (n + 1) ∷ []
  unfolding candidates
  candidates-small n small pos =
      let before : (n + u64 - 1) % u64 ≡ n - 1 = omega arith in
      let same : n % u64 ≡ n = omega arith in
      let after : (n + 1) % u64 ≡ n + 1 = omega arith in rw (before, same, after) refl

  -- a step at most one away is a candidate
  candidate_near :
      (p : ℕ → Bool) (m n : ℕ)
      → n + 1 < u64
      → 1 ≤ n
      → m ≤ n + 1
      → n ≤ m + 1
      → p m ≡ true
      → any p (candidates c os n) ≡ true
  candidate_near p m n small pos up down h =
      let split : (m ≡ n - 1) ⊎ (m ≡ n) ⊎ (m ≡ n + 1) = ground arith in
      rw (candidates-small n small pos) (elim split [
        | inl e ↦ ground (arith, sym e ∙ refl, ap p e, h)
        | inr (inl e) ↦ ground (arith, ap p e, h)
        | inr (inr e) ↦ ground (arith, ap p e, h)
      ])

  candidate_split :
      (p : ℕ → Bool) (n : ℕ)
      → n + 1 < u64
      → 1 ≤ n
      → any p (candidates c os n) ≡ true
      → (m : ℕ) × (p m ≡ true) × ((m + 1 ≡ n) ⊎ (m ≡ n) ⊎ (m ≡ n + 1))
  candidate_split p n small pos h =
      pick (subst (λ ns. any p ns ≡ true) (candidates-small n small pos) h)
    where
      pick :
          any p ((n - 1) ∷ n ∷ (n + 1) ∷ []) ≡ true
          → (m : ℕ) × (p m ≡ true) × ((m + 1 ≡ n) ⊎ (m ≡ n) ⊎ (m ≡ n + 1))
      pick k = elim (Bool-cases (p (n - 1))) [
        | inl a ↦ (n - 1, a, inl (omega arith))
        | inr a ↦ elim (Bool-cases (p n)) [
          | inl b ↦ (n, b, inr (inl refl))
          | inr b ↦ (n + 1, ground (arith, a, b, k), inr (inr refl))
        ]
      ]

  code_at-fits :
      (laws : IsPrinter c os) (key : List ℕ) (n : ℕ)
      → (len (code_at c key n) ≡ totp_digits) × (typed c os (code_at c key n) ≡ code_at c key n)
  unfolding code_at pow10
  code_at-fits laws key n = (laws.digits _ (omega arith), laws.spaceless _ (omega arith))

  check_code-near :
      (laws : IsPrinter c os) (key : Result (List ℕ)) (code : String) (at now : ℕ)
      → InRange now
      → at ≤ now + step
      → now ≤ at + step
      → code_of c os key at ≡ ok code
      → check_code c os key (typed c os code) now ≡ ok tt
  check_code-near laws (err e) code at now r up down h = cc
  check_code-near laws (ok key) code at now r up down h =
      let n = counter_for at in
      let e : code_at c key n ≡ code = ground (arith, h) in
      let (six, plain) = code_at-fits laws key n in
      let entered : typed c os code ≡ code_at c key n = ap (λ s. typed c os s) (sym e) ∙ plain in
      let (near, near') = counter_for-near at now up down in
      let (small, pos) = counter_for-small now r in
      let found : any (λ m. code_at c key m == code_at c key n) (candidates c os (counter_for now))
          ≡ true =
        candidate_near _ n (counter_for now) small pos near near' (eq_refl (code_at c key n)) in
      rw (entered, six, matches_any-any, found) refl

  -- The code that `TOTPCode` gives for an instant is accepted by `VerifyTOTP` at every instant at
  -- most 30 seconds before or after it that is 30 seconds after the beginning of 1970 or later, and less
  -- than 2^63 - 1 seconds after Go's zero time, where a number is printed with six digits and no space.
  pub verify_totp-totp_code :
      (laws : IsPrinter c os) (secret code : String) (at now : ℕ)
      → InRange now
      → at ≤ now + step
      → now ≤ at + step
      → totp_code c os secret at ≡ ok code
      → verify_totp c os secret code now ≡ ok tt
  unfolding totp_code verify_totp
  verify_totp-totp_code laws secret code at now r up down h =
      check_code-near laws (decode_secret c os secret) code at now r up down h

  -- the instant whose step matched
  instant_of :
      (key : List ℕ) (entered : String) (now : ℕ)
      → InRange now
      → (m : ℕ) × ((code_at c key m == entered) ≡ true)
        × ((m + 1 ≡ counter_for now) ⊎ (m ≡ counter_for now) ⊎ (m ≡ counter_for now + 1))
      → (at : ℕ) × (at ≤ now + step)
        × (now ≤ at + step)
        × (code_at c key (counter_for at) ≡ entered)
  instant_of key entered now r (m, same, inl before) = (
    now - step,
    ground arith,
    ground arith,
    ap (λ k. code_at c key k) (ground (arith, before, counter_for-previous now r.0))
        ∙ (eq_iff (code_at c key m) entered).0 same,
  )
  instant_of key entered now r (m, same, inr (inl now_step)) = (
    now,
    ground arith,
    ground arith,
    ap (λ k. code_at c key k) (sym now_step) ∙ (eq_iff (code_at c key m) entered).0 same,
  )
  instant_of key entered now r (m, same, inr (inr after)) = (
    now + step,
    ground arith,
    ground arith,
    ap (λ k. code_at c key k) (counter_for-next now (ground (arith, r.0)) ∙ sym after)
        ∙ (eq_iff (code_at c key m) entered).0 same,
  )

  check_code-split :
      (key : Result (List ℕ)) (entered : String) (now : ℕ)
      → InRange now
      → check_code c os key entered now ≡ ok tt
      → (at : ℕ) × (at ≤ now + step) × (now ≤ at + step) × (code_of c os key at ≡ ok entered)
  check_code-split (err e) entered now r h = cc
  check_code-split (ok key) entered now r h =
      let (small, pos) = counter_for-small now r in
      let found : any (λ m. code_at c key m == entered) (candidates c os (counter_for now)) ≡ true =
        ground (arith, h, matches_any-any key entered false (candidates c os (counter_for now))) in
      let (at, up, down, e) =
        instant_of key entered now r (candidate_split _ (counter_for now) small pos found) in
      (at, up, down, ap (λ s. ok s) e)

  -- What `VerifyTOTP` accepts is, once the spaces are off, the code that `TOTPCode` gives for an
  -- instant at most 30 seconds away, where it is called 30 seconds after the beginning of 1970 or later,
  -- and less than 2^63 - 1 seconds after Go's zero time.
  pub totp_code-verify_totp :
      (secret code : String) (now : ℕ)
      → InRange now
      → verify_totp c os secret code now ≡ ok tt
      → (at : ℕ) × (at ≤ now + step)
        × (now ≤ at + step)
        × (totp_code c os secret at ≡ ok (typed c os code))
  unfolding totp_code verify_totp
  totp_code-verify_totp secret code now r h =
      check_code-split (decode_secret c os secret) (typed c os code) now r h
