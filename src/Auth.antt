-- ===== src/Auth.antt =====
-- internal/auth and internal/crypto: passwords, second factors, tokens, tickets and the login
-- limiter, and the cryptographic functions that they call.
-- A byte string is a list of numbers; a key, a salt or a nonce is read from crypto/rand as a text
-- whose bytes `bytes` gives.
pub mod Password
pub mod SecretBox
pub mod Totp
pub mod Jwt
pub mod Limiter
pub mod Tickets
mod Examples
use iskele.Common.{ℕ, String, Bool, Option, List}
use iskele.Store.{Role}

-- 32 bits for the memory and the time, 8 for the threads.
pub record HashParams : Type 0 where
  pub memory : ℕ
  pub time : ℕ
  pub threads : ℕ

-- auth.Claims
pub record Claims : Type 0 where
  pub user_id : String
  pub username : String
  pub role : Role
  pub token_id : String
  pub issued_at : ℕ
  pub expires_at : ℕ

-- What jwt.ParseWithClaims reports of a token.
pub data JwtVerdict : Type 0 where
  valid : Claims → JwtVerdict
  expired invalid : JwtVerdict

-- The kind of a signing method, and its name.
pub data SigningMethod : Type 0 where
  hmac other_method : String → SigningMethod

-- What jwt.ParseWithClaims is told: which methods the key function gives a key for, WithValidMethods
-- and WithIssuer.
pub record JwtOptions : Type 0 where
  pub has_key : SigningMethod → Bool
  pub valid_methods : List String
  pub issuer : String

-- golang.org/x/crypto/argon2, crypto/aes, crypto/hmac, encoding/base32, encoding/base64, fmt and
-- github.com/golang-jwt/jwt.
pub record Crypto : Type 0 where
  -- argon2.IDKey(password, salt, params, key length)
  pub argon_key : String → List ℕ → HashParams → ℕ → List ℕ
  -- the random text as raw bytes
  pub bytes : String → List ℕ
  -- fmt.Sprintf("$argon2id$v=…$m=…,t=…,p=…$salt$key"), and strings.Split(_, "$")
  pub format_phc : HashParams → List ℕ → List ℕ → String
  pub split_dollar : String → List String
  -- fmt.Sscanf(_, "v=%d") and fmt.Sscanf(_, "m=%d,t=%d,p=%d")
  pub scan_version : String → Option ℕ
  pub scan_params : String → Option HashParams
  -- base64 and base32
  pub decode_raw64 : String → Option (List ℕ)
  pub encode_64 : List ℕ → String
  pub decode_64 : String → Option (List ℕ)
  pub encode_32 : List ℕ → String
  pub decode_32 : String → Option (List ℕ)
  -- the AEAD under the master key: Seal(nonce, plaintext), Open(nonce, ciphertext)
  pub nonce_size : ℕ
  pub seal : List ℕ → String → List ℕ
  pub open_sealed : List ℕ → List ℕ → Option String
  -- HMAC-SHA1(key, message)
  pub hmac_sha1 : List ℕ → List ℕ → List ℕ
  -- fmt.Sprintf("%0*d", width, n)
  pub zero_padded : ℕ → ℕ → String
  -- SignedString with the issuer among the claims, and ParseWithClaims at an instant
  pub sign : Claims → Option String
  pub parse_jwt : JwtOptions → ℕ → String → JwtVerdict
