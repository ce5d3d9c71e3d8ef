-- ===== src/Auth/Jwt.antt =====
-- internal/auth/jwt.go: access tokens.
use iskele.Common.{
  Bool, true, false, [], ◌∷◌, ℕ, ◌+◌, String, Option, none, some, not, ◌||◌, ◌==◌, if◌then◌else◌,
}
use iskele.Store.{User, valid_role}
use iskele.Store.Exec.{
  Result, ok, err, token_invalid, token_expired, signing_failed, Exec, pure, lift, clock, random,
  ◌>>=◌,
}
use iskele.Auth.{
  Crypto, Claims, SigningMethod, hmac, other_method, JwtOptions, JwtVerdict, valid, expired,
  invalid,
}

abbrev pub signed_or_error : Option String → Result String
signed_or_error none = err signing_failed
signed_or_error (some token) = ok token

module _ (c : Crypto) (access_ttl : ℕ) where
  unfoldable pub claims_of : User → String → ℕ → Claims
  claims_of user jti now = record {
    user_id = user.id;
    username = user.username;
    role = user.role;
    token_id = jti;
    issued_at = now;
    expires_at = now + access_ttl;
  }

  -- Issue: the token and its expiry
  unfoldable pub issue : User → Exec (String × ℕ)
  issue user = do
    now ← clock
    jti ← random
    signed ← lift (signed_or_error (c.sign (claims_of user jti now)))
    pure (signed, now + access_ttl)

module _ (c : Crypto) where
  abbrev pub check_claims : JwtVerdict → Result Claims
  check_claims expired = err token_expired
  check_claims invalid = err token_invalid
  check_claims (valid claims) =
      if claims.user_id == "" || not (valid_role claims.role) then err token_invalid else ok claims

  -- the type assertion on the method, which pins the algorithm to HMAC
  abbrev pub is_hmac : SigningMethod → Bool
  is_hmac (hmac name) = true
  is_hmac (other_method name) = false

  -- what Parse asks of a token's header and issuer
  abbrev pub parse_options : JwtOptions
  parse_options = record { has_key = is_hmac; valid_methods = "HS256" ∷ []; issuer = "iskele" }

  -- Parse
  unfoldable pub parse : ℕ → String → Result Claims
  parse now token = check_claims (c.parse_jwt parse_options now token)
