-- ===== src/Auth/Password.antt =====
-- internal/auth/password.go: the password policy, and the argon2id hashes.
pub mod RoundTrip
pub mod Policy
use Prim.Native.String.{len}
use iskele.Common.{
  ℕ, ◌+◌, String, Bool, true, false, not, ◌&&◌, ◌||◌, Option, none, some, List, [], ◌∷◌, ltb, eqb,
  leb, length, codes, ◌==◌, if◌then◌else◌,
}
use iskele.Store.Platform.{Platform}
use iskele.Store.Exec.{
  Error, Result, ok, err, password_too_short, password_too_long, password_too_weak, invalid_hash,
  Exec, pure, random, ◌>>=◌,
}
use iskele.Auth.{HashParams, Crypto}

abbrev pub min_password_length : ℕ
min_password_length = 12

abbrev pub max_password_length : ℕ
max_password_length = 1024

-- the classes seen so far: lower, upper, digit, symbol
pub record Classes : Type 0 where
  pub lower : Bool
  pub upper : Bool
  pub digit : Bool
  pub symbol : Bool

abbrev pub no_classes : Classes
no_classes = record { lower = false; upper = false; digit = false; symbol = false }

abbrev pub one_if : Bool → ℕ
one_if true = 1
one_if false = 0

unfoldable pub count_classes : Classes → ℕ
count_classes c = one_if c.lower + one_if c.upper + one_if c.digit + one_if c.symbol

module _ (os : Platform) where
  unfoldable pub see : ℕ → Classes → Classes
  see r c =
      if os.is_lower r
      then record c { lower = true }
      else if os.is_upper r
      then record c { upper = true }
      else if os.is_digit r
      then record c { digit = true }
      else record c { symbol = true }

  unfoldable pub classes_from : Classes → List ℕ → Classes
  unfolding see
  classes_from c [] = c
  classes_from c (r ∷ rs) = classes_from (see r c) rs

  -- classesIn
  unfoldable pub classes_in : String → ℕ
  unfolding classes_from count_classes
  classes_in s = count_classes (classes_from no_classes (codes s))

  -- ValidatePassword
  unfoldable pub validate_password : String → Result (Unit {0})
  validate_password password =
      if ltb (len password) min_password_length
      then err password_too_short
      else if ltb max_password_length (len password)
      then err password_too_long
      else if ltb (classes_in password) 2
      then err password_too_weak
      else ok tt

abbrev pub argon_version : ℕ
argon_version = 19

abbrev pub current_params : HashParams
current_params = record { memory = 65536; time = 3; threads = 2 }

abbrev pub argon_key_len : ℕ
argon_key_len = 32

abbrev pub bytes_equal : List ℕ → List ℕ → Bool
bytes_equal [] [] = true
bytes_equal [] (y ∷ ys) = false
bytes_equal (x ∷ xs) [] = false
bytes_equal (x ∷ xs) (y ∷ ys) = eqb x y && bytes_equal xs ys

-- params, salt and key
pub record Decoded : Type 0 where
  pub params : HashParams
  pub salt : List ℕ
  pub key : List ℕ

module _ (c : Crypto) where
  -- HashPassword
  unfoldable pub hash_password : String → Exec String
  hash_password password = do
    drawn ← random
    let salt = c.bytes drawn
    pure (c.format_phc current_params salt (c.argon_key password salt current_params argon_key_len))

  -- the last two fields of decodeHash
  unfoldable pub decode_key : HashParams → Option (List ℕ) → Option (List ℕ) → Option Decoded
  decode_key params (some (s ∷ salt)) (some (k ∷ key)) =
      some (record { params = params; salt = s ∷ salt; key = k ∷ key })
  decode_key params _ _ = none

  abbrev pub decode_fields : Option ℕ → Option HashParams → String → String → Option Decoded
  decode_fields none params salt key = none
  decode_fields (some version) none salt key = none
  decode_fields (some version) (some params) salt key =
      if eqb version argon_version
      then decode_key params (c.decode_raw64 salt) (c.decode_raw64 key)
      else none

  abbrev pub decode_parts : List String → Option Decoded
  decode_parts (a ∷ b ∷ v ∷ p ∷ salt ∷ key ∷ []) =
      if a == "" && b == "argon2id"
      then decode_fields (c.scan_version v) (c.scan_params p) salt key
      else none
  decode_parts _ = none

  -- decodeHash: `none` for each way to be malformed
  unfoldable pub decode_hash : String → Option Decoded
  unfolding decode_key
  decode_hash encoded = decode_parts (c.split_dollar encoded)

  abbrev pub key_matches : String → Decoded → Bool
  key_matches password d = bytes_equal (c.argon_key password d.salt d.params (length d.key)) d.key

  -- VerifyPassword
  unfoldable pub verify_password : String → String → Result Bool
  verify_password encoded password = elim (decode_hash encoded) [
    | none ↦ err invalid_hash
    | some d ↦ ok (key_matches password d)
  ]

  -- NeedsRehash
  unfoldable pub needs_rehash : String → Bool
  needs_rehash encoded = elim (decode_hash encoded) [
    | none ↦ true
    | some d ↦
        ltb d.params.memory current_params.memory
        || ltb d.params.time current_params.time
        || ltb d.params.threads current_params.threads
  ]
