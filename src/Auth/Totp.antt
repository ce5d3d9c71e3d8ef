-- ===== src/Auth/Totp.antt =====
-- internal/auth/totp.go: time-based one-time codes (RFC 6238).
-- A time counts nanoseconds from Go's zero time, the start of the year 1.
pub mod Drift
use Prim.Native.String.{len}
use iskele.Common.{
  ℕ, zero, suc, ◌+◌, ◌-◌, ◌*◌, ◌/◌, ◌%◌, String, Bool, true, false, not, ◌&&◌, ◌||◌, Option, none,
  some, List, [], ◌∷◌, ltb, eqb, leb, length, drop, ◌==◌, if◌then◌else◌,
}
use iskele.Store.Platform.{Platform}
use iskele.Store.Exec.{
  Error, Result, ok, err, invalid_totp_code, invalid_totp_secret, Exec, pure, random, ◌>>=◌,
}
use iskele.Auth.{Crypto}

abbrev pub totp_digits : ℕ
totp_digits = 6

-- totpPeriod.Seconds()
abbrev pub period_seconds : ℕ
period_seconds = 30

abbrev pub second : ℕ
second = 1_000_000_000

-- the seconds between the start of the year 1 and that of 1970
abbrev pub unix_epoch : ℕ
unix_epoch = 62_135_596_800

abbrev pub u64 : ℕ
u64 = 18_446_744_073_709_551_616

-- counterFor; `at.Unix()` is negative before 1970
unfoldable pub counter_for : ℕ → ℕ
counter_for at =
    if ltb (at / second) unix_epoch then 0 else (at / second - unix_epoch) / period_seconds

-- pow10
unfoldable pub pow10 : ℕ → ℕ
pow10 zero = 1
pow10 (suc n) = 10 * pow10 n % 4_294_967_296

-- binary.BigEndian.PutUint64
unfoldable pub put_u64 : ℕ → List ℕ
put_u64 n =
    n / 72_057_594_037_927_936 % 256
    ∷ n / 281_474_976_710_656 % 256
    ∷ n / 1_099_511_627_776 % 256
    ∷ n / 4_294_967_296 % 256
    ∷ n / 16_777_216 % 256
    ∷ n / 65_536 % 256
    ∷ n / 256 % 256
    ∷ n % 256
    ∷ []

-- binary.BigEndian.Uint32 of the first four bytes; a shorter slice panics, which 0 stands for
unfoldable pub get_u32 : List ℕ → ℕ
get_u32 (a ∷ b ∷ c ∷ d ∷ _) = a * 16_777_216 + b * 65_536 + c * 256 + d
get_u32 _ = 0

abbrev pub last_of : ℕ → List ℕ → ℕ
last_of x [] = x
last_of x (y ∷ ys) = last_of y ys

-- the dynamic truncation of codeAt
unfoldable pub truncate_mac : List ℕ → ℕ
unfolding get_u32
truncate_mac sum = get_u32 (drop (last_of 0 sum % 16) sum) % 2_147_483_648

module _ (c : Crypto) where
  -- codeAt
  unfoldable pub code_at : List ℕ → ℕ → String
  unfolding put_u64 truncate_mac pow10
  code_at key counter =
      c.zero_padded totp_digits
        (truncate_mac (c.hmac_sha1 key (put_u64 counter)) % pow10 totp_digits)

  -- NewTOTPSecret
  unfoldable pub new_totp_secret : Exec String
  new_totp_secret = do drawn ← random; pure (c.encode_32 (c.bytes drawn))

  abbrev pub key_or_error : Option (List ℕ) → Result (List ℕ)
  key_or_error none = err invalid_totp_secret
  key_or_error (some []) = err invalid_totp_secret
  key_or_error (some (k ∷ key)) = ok (k ∷ key)

  module _ (os : Platform) where
    abbrev pub cleaned : String → String
    cleaned secret = os.trim_padding (os.to_upper (os.remove_spaces (os.trim_space secret)))

    -- decodeTOTPSecret
    unfoldable pub decode_secret : String → Result (List ℕ)
    decode_secret secret =
        if cleaned secret == ""
        then err invalid_totp_secret
        else key_or_error (c.decode_32 (cleaned secret))

    abbrev pub code_of : Result (List ℕ) → ℕ → Result String
    code_of (err e) at = err e
    code_of (ok key) at = ok (code_at key (counter_for at))

    -- TOTPCode
    unfoldable pub totp_code : String → ℕ → Result String
    unfolding code_at counter_for decode_secret
    totp_code secret at = code_of (decode_secret secret) at

    -- the counters that the loop of VerifyTOTP visits: uint64(int64(counter) + step)
    unfoldable pub candidates : ℕ → List ℕ
    candidates counter = (counter + u64 - 1) % u64 ∷ counter % u64 ∷ (counter + 1) % u64 ∷ []

    -- the loop: every candidate is compared
    unfoldable pub matches_any : List ℕ → String → Bool → List ℕ → Bool
    matches_any key entered found [] = found
    matches_any key entered found (n ∷ ns) =
        matches_any key entered (if code_at key n == entered then true else found) ns

    abbrev pub check_code : Result (List ℕ) → String → ℕ → Result (Unit {0})
    check_code (err e) entered now = err e
    check_code (ok key) entered now =
        if not (eqb (len entered) totp_digits)
        then err invalid_totp_code
        else if matches_any key entered false (candidates (counter_for now))
        then ok tt
        else err invalid_totp_code

    abbrev pub typed : String → String
    typed code = os.remove_spaces (os.trim_space code)

    -- VerifyTOTP
    unfoldable pub verify_totp : String → String → ℕ → Result (Unit {0})
    unfolding candidates matches_any code_at counter_for decode_secret
    verify_totp secret code now = check_code (decode_secret secret) (typed code) now
