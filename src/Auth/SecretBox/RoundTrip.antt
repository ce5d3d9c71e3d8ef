-- ===== src/Auth/SecretBox/RoundTrip.antt =====
-- A secret that internal/crypto/secretbox.go sealed is the one that it opens.
use iskele.Common.{
  ℕ, String, ◌≡◌, ◌≢◌, refl, sym, true, false, Option, none, some, List, [], ◌∷◌, ◌++◌, arith, ltb,
  length, length-append, take-append, drop-append, ◌==◌, eq_iff, Bool-cases, inl, inr, ne→eq_false,
}
use iskele.Store.Exec.{ok, World, pure, random, ◌>>=◌}
use iskele.Auth.{Crypto}
use iskele.Auth.SecretBox.{encrypt, decrypt, open_raw, IsSealing}

module _ (c : Crypto) (laws : IsSealing c) where
  open_raw-sealed :
      (nonce : List ℕ) (s : String)
      → length nonce ≡ c.nonce_size
      → open_raw c (some (nonce ++ c.seal nonce s)) ≡ ok s
  open_raw-sealed nonce s e =
      let raw = nonce ++ c.seal nonce s in
      let fits : ltb (length raw) c.nonce_size ≡ false =
        ground (arith, length-append nonce (c.seal nonce s)) in
      rw (fits, sym e, take-append, drop-append, laws.open-seal) refl

  sealed_nonempty :
      (nonce rest : List ℕ) → length nonce ≡ c.nonce_size → c.encode_64 (nonce ++ rest) ≢ ""
  sealed_nonempty [] rest e = absurd (laws.nonce_pos (sym e))
  sealed_nonempty (b ∷ nonce) rest e = laws.encode_nonempty b (nonce ++ rest)

  decrypt-sealed :
      (nonce : List ℕ) (s : String)
      → length nonce ≡ c.nonce_size
      → decrypt c (c.encode_64 (nonce ++ c.seal nonce s)) ≡ ok s
  unfolding decrypt
  decrypt-sealed nonce s e =
      rw (ne→eq_false _ _ (sealed_nonempty nonce (c.seal nonce s) e), laws.decode-encode)
        (open_raw-sealed nonce s e)

  -- what a text that is not empty is encrypted to
  encrypted-sealed :
      (plaintext stored : String) (now : ℕ) (w : World)
      → (plaintext == "") ≡ false
      → (encrypt c plaintext now w).0 ≡ ok stored
      → (drawn : String) × (stored
          ≡ c.encode_64 (c.bytes drawn ++ c.seal (c.bytes drawn) plaintext))
  unfolding encrypt random ◌>>=◌ pure
  encrypted-sealed plaintext stored now w e h = go w.entropy h
    where
      go :
          (entropy : List (Option String))
          → (encrypt c plaintext now (record w { entropy = entropy })).0 ≡ ok stored
          → (drawn : String) × (stored
              ≡ c.encode_64 (c.bytes drawn ++ c.seal (c.bytes drawn) plaintext))
      go [] k = ground (arith, e)
      go (none ∷ rest) k = ground (arith, e)
      go (some drawn ∷ rest) k = (drawn, ground (arith, e, k))

  decrypt_empty :
      (plaintext stored : String) (now : ℕ) (w : World)
      → (plaintext == "") ≡ true
      → (encrypt c plaintext now w).0 ≡ ok stored
      → decrypt c stored ≡ ok plaintext
  unfolding encrypt decrypt pure
  decrypt_empty plaintext stored now w e h = ground (arith, eq_iff plaintext "", eq_iff stored "")

  -- Whatever nonce is drawn, `Decrypt` gives back the text that `Encrypt` was given, the empty
  -- text included.
  pub decrypt-encrypt :
      (plaintext stored : String) (now : ℕ) (w : World)
      → (encrypt c plaintext now w).0 ≡ ok stored
      → decrypt c stored ≡ ok plaintext
  decrypt-encrypt plaintext stored now w h = elim (Bool-cases (plaintext == "")) [
    | inl empty ↦ decrypt_empty plaintext stored now w empty h
    | inr some_text ↦
        let (drawn, e) = encrypted-sealed plaintext stored now w some_text h in
        rw e (decrypt-sealed (c.bytes drawn) plaintext (laws.nonce_length drawn))
  ]
