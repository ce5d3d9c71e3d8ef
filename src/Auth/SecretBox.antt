-- ===== src/Auth/SecretBox.antt =====
-- internal/crypto/secretbox.go: short secrets under the master key.
pub mod RoundTrip
use iskele.Common.{
  ℕ, String, ◌≡◌, ◌≢◌, refl, Bool, true, false, Option, none, some, List, [], ◌∷◌, ◌++◌, ltb,
  length, take, drop, arith, ◌==◌, eq_iff, eq_refl, if◌then◌else◌, Bool-cases, inl, inr,
  ne→eq_false, take-append, drop-append,
}
use iskele.Store.Exec.{Result, ok, err, decrypt_failed, Exec, World, pure, random, ◌>>=◌}
use iskele.Auth.{Crypto}

module _ (c : Crypto) where
  -- Encrypt
  unfoldable pub encrypt : String → Exec String
  encrypt plaintext = if plaintext == "" then pure "" else do
    drawn ← random
    let nonce = c.bytes drawn
    pure (c.encode_64 (nonce ++ c.seal nonce plaintext))

  abbrev pub opened : Option String → Result String
  opened none = err decrypt_failed
  opened (some plaintext) = ok plaintext

  abbrev pub open_raw : Option (List ℕ) → Result String
  open_raw none = err decrypt_failed
  open_raw (some raw) =
      if ltb (length raw) c.nonce_size
      then err decrypt_failed
      else opened (c.open_sealed (take c.nonce_size raw) (drop c.nonce_size raw))

  -- Decrypt
  unfoldable pub decrypt : String → Result String
  decrypt encoded = if encoded == "" then ok "" else open_raw (c.decode_64 encoded)

-- What base64 and AES-GCM document: each undoes itself, a nonce has the size that the AEAD asks
-- for, and a ciphertext is not empty text.
pub record IsSealing (c : Crypto) : Type 0 where
  pub decode-encode : (bs : List ℕ) → c.decode_64 (c.encode_64 bs) ≡ some bs
  pub encode_nonempty : (b : ℕ) (bs : List ℕ) → c.encode_64 (b ∷ bs) ≢ ""
  pub nonce_length : (drawn : String) → length (c.bytes drawn) ≡ c.nonce_size
  pub nonce_pos : c.nonce_size ≢ 0
  pub open-seal : (nonce : List ℕ) (s : String) → c.open_sealed nonce (c.seal nonce s) ≡ some s
