-- ===== src/Auth/Password/RoundTrip.antt =====
-- A password that internal/auth/password.go hashed is the one that it verifies.
use Prim.Native.Nat.{◌^◌}
use iskele.Common.{
  ◌<◌, ℕ, String, ◌≡◌, refl, ap, ◌∙◌, true, false, Option, none, some, List, [], ◌∷◌, arith, length,
  ◌≢◌,
}
use iskele.Store.Exec.{ok, World, pure, random, ◌>>=◌}
use iskele.Auth.{Crypto, HashParams}
use iskele.Auth.Password.{
  hash_password, verify_password, needs_rehash, decode_hash, decode_key, Decoded, current_params,
  argon_key_len, argon_version, bytes_equal,
}

-- Parameters that their fields can hold.
abbrev pub AreHeld : HashParams → Type 0
AreHeld p = (p.memory < 2 ^ 32) × (p.time < 2 ^ 32) × (p.threads < 2 ^ 8)

-- What `fmt`, `strings` and base64 document of the PHC text: its six fields are split and read
-- back. What argon2 documents: the key has the length that is asked for. The salt has bytes.
pub record IsPhc (c : Crypto) : Type 0 where
  pub version_field : String
  pub params_field : HashParams → String
  pub bytes_field : List ℕ → String
  pub split-format :
      (p : HashParams) (salt key : List ℕ)
      → c.split_dollar (c.format_phc p salt key)
        ≡ "" ∷ "argon2id" ∷ version_field ∷ params_field p ∷ bytes_field salt ∷ bytes_field key ∷ []
  pub scan-version : c.scan_version version_field ≡ some argon_version
  pub scan-params : (p : HashParams) → AreHeld p → c.scan_params (params_field p) ≡ some p
  pub decode-bytes : (bs : List ℕ) → c.decode_raw64 (bytes_field bs) ≡ some bs
  pub key_length :
      (password : String) (salt : List ℕ) (p : HashParams) (n : ℕ)
      → length (c.argon_key password salt p n) ≡ n
  pub salt_nonempty : (drawn : String) → c.bytes drawn ≢ []

bytes_equal-same : (bs : List ℕ) → bytes_equal bs bs ≡ true
bytes_equal-same [] = refl
bytes_equal-same (b ∷ bs) = ground (arith, bytes_equal-same bs)

module _ (c : Crypto) (laws : IsPhc c) where
  decode_key-nonempty :
      (p : HashParams) (salt key : List ℕ)
      → salt ≢ []
      → key ≢ []
      → decode_key c p (some salt) (some key) ≡ some (record { params = p; salt = salt; key = key })
  unfolding decode_key
  decode_key-nonempty p [] key hs hk = absurd (hs refl)
  decode_key-nonempty p (s ∷ salt) [] hs hk = absurd (hk refl)
  decode_key-nonempty p (s ∷ salt) (k ∷ key) hs hk = refl

  decode-format :
      (p : HashParams) (salt key : List ℕ)
      → AreHeld p
      → salt ≢ []
      → key ≢ []
      → decode_hash c (c.format_phc p salt key)
        ≡ some (record { params = p; salt = salt; key = key })
  unfolding decode_hash
  decode-format p salt key held hs hk =
      rw
        (
          laws.split-format p salt key,
          laws.scan-version,
          laws.scan-params p held,
          laws.decode-bytes salt,
          laws.decode-bytes key,
        )
        (decode_key-nonempty p salt key hs hk)

  key_nonempty :
      (password : String) (salt : List ℕ) (p : HashParams)
      → c.argon_key password salt p argon_key_len ≢ []
  key_nonempty password salt p e = ground (arith, laws.key_length password salt p argon_key_len, e)

  -- what the hash of a password is
  hashed :
      (password stored : String) (now : ℕ) (w : World)
      → (hash_password c password now w).0 ≡ ok stored
      → (drawn : String) × (stored
          ≡ c.format_phc current_params
              (c.bytes drawn)
              (c.argon_key password (c.bytes drawn) current_params argon_key_len))
  unfolding hash_password random ◌>>=◌ pure
  hashed password stored now w h = go w.entropy h
    where
      go :
          (entropy : List (Option String))
          → (hash_password c password now (record w { entropy = entropy })).0 ≡ ok stored
          → (drawn : String) × (stored
              ≡ c.format_phc current_params
                  (c.bytes drawn)
                  (c.argon_key password (c.bytes drawn) current_params argon_key_len))
      go [] k = cc
      go (none ∷ rest) k = cc
      go (some drawn ∷ rest) k = (drawn, ground (arith, k))

  verify_password-decoded :
      (stored entered : String) (d : Decoded)
      → decode_hash c stored ≡ some d
      → verify_password c stored entered
        ≡ ok (bytes_equal (c.argon_key entered d.salt d.params (length d.key)) d.key)
  unfolding verify_password
  verify_password-decoded stored entered d e = ground (arith, e)

  needs_rehash-decoded :
      (stored : String) (d : Decoded)
      → decode_hash c stored ≡ some d
      → d.params ≡ current_params
      → needs_rehash c stored ≡ false
  unfolding needs_rehash
  needs_rehash-decoded stored d e h =
      ground (arith, e, ap (λ p. p.memory) h, ap (λ p. p.time) h, ap (λ p. p.threads) h)

  -- A password verifies against the hash that `HashPassword` made of it, whatever salt was drawn,
  -- any other verifies only if argon2 derives the same key, and the hash need not be renewed.
  pub verify_password-hash_password :
      (password entered stored : String) (now : ℕ) (w : World)
      → (hash_password c password now w).0 ≡ ok stored
      → (verify_password c stored password ≡ ok true)
        × (needs_rehash c stored ≡ false)
        × ((salt : List ℕ) × (verify_password c stored entered
              ≡ ok (
                  bytes_equal
                    (c.argon_key entered salt current_params argon_key_len)
                    (c.argon_key password salt current_params argon_key_len))))
  verify_password-hash_password password entered stored now w h =
      let (drawn, e) = hashed password stored now w h in
      let salt = c.bytes drawn in
      let key = c.argon_key password salt current_params argon_key_len in
      let decoded : decode_hash c stored
          ≡ some (record { params = current_params; salt = salt; key = key }) =
        rw e (
          decode-format current_params salt key (omega arith, omega arith, omega arith)
            (laws.salt_nonempty drawn) (key_nonempty password salt current_params)) in
      let entered_key : (x : String)
          → verify_password c stored x
            ≡ ok (bytes_equal (c.argon_key x salt current_params argon_key_len) key) =
        λ x.
          verify_password-decoded stored x _ decoded
          ∙ ap (λ n. ok (bytes_equal (c.argon_key x salt current_params n) key))
              (laws.key_length password salt current_params argon_key_len) in
      (
        entered_key password ∙ ap (λ b. ok b) (bytes_equal-same key),
        needs_rehash-decoded stored _ decoded refl,
        (salt, entered_key entered),
      )
