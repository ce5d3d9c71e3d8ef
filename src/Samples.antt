-- ===== src/Samples.antt =====
-- Concrete collaborators for the examples: a small stand-in for each function of the Go library,
-- of SQLite and of the third-party modules, which keeps what is documented of it.
pub mod Definitions
mod Codec
use Prim.Native.String.{len, ◌++◌ as ◌+++◌}
use mathlib.Core.List.Perm.{refl as perm_refl}
use iskele.Common.{
  ℕ, String, ◌≡◌, refl, sym, ap, ◌∙◌, Bool, true, false, Option, none, some, List, [], ◌∷◌, ◌++◌,
  arith, ltb, length, take, drop, take-append, drop-append, codes, ◌==◌, if◌then◌else◌,
}
use iskele.Samples.Codec.{
  encode, decode, decode-encode, encode_nonempty, text_of, text_of-codes, six_digits,
  len-six_digits, repeat, length-repeat,
}
use iskele.Store.{Role, User, Db, Session, admin, viewer}
use iskele.Store.Exec.{Error, Result, ok, err, World, no_entropy}
use iskele.Store.Platform.{Platform, IsOrdering}
use iskele.Auth.{Crypto, Claims, JwtVerdict, HashParams, valid}
use iskele.Auth.SecretBox.{IsSealing}
use iskele.Auth.Password.RoundTrip.{IsPhc}
use iskele.Auth.Totp.Drift.{IsPrinter}
use iskele.Auth.Limiter.{new_limiter}
use iskele.Auth.Limiter.Lockout.{IsTextOrder}
use iskele.Service.{Deps, RequestMeta, Identity}

abbrev pub sample_os : Platform
sample_os = record {
  trim_space = λ s. s;
  to_lower = λ s. s;
  to_upper = λ s. s;
  join_comma = λ ss. "";
  split_comma = λ s. s ∷ [];
  remove_spaces = λ s. s;
  trim_padding = λ s. s;
  is_lower = λ c. ltb 96 c;
  is_upper = λ c. ltb 64 c;
  is_digit = λ c. ltb 47 c;
  sha256_hex = λ s. s;
  order_by_created = λ us. us;
  stamp_before = ltb;
}

pub sample_os-IsOrdering : IsOrdering sample_os
sample_os-IsOrdering = record { permutes = λ us. perm_refl us }

pub sample_os-IsTextOrder : IsTextOrder sample_os
sample_os-IsTextOrder = record { stamp_trans = λ a b c h k. ground (arith, h, k) }

abbrev fields : Option (List ℕ) → List String
fields (some (m ∷ t ∷ p ∷ n ∷ rest)) =
    ""
    ∷ "argon2id"
    ∷ "v=19"
    ∷ encode (m ∷ t ∷ p ∷ [])
    ∷ encode (take n rest)
    ∷ encode (drop n rest)
    ∷ []
fields _ = []

abbrev params_of : Option (List ℕ) → Option HashParams
params_of (some (m ∷ t ∷ p ∷ [])) = some (record { memory = m; time = t; threads = p })
params_of _ = none

abbrev pub sample_crypto : Crypto
sample_crypto = record {
  argon_key = λ password salt p n. repeat n (len password);
  bytes = λ drawn. 7 ∷ 9 ∷ [];
  format_phc = λ p salt key. encode (p.memory ∷ p.time ∷ p.threads ∷ length salt ∷ (salt ++ key));
  split_dollar = λ s. fields (decode s);
  scan_version = λ s. if s == "v=19" then some 19 else none;
  scan_params = λ s. params_of (decode s);
  decode_raw64 = decode;
  encode_64 = encode;
  decode_64 = decode;
  encode_32 = encode;
  decode_32 = decode;
  nonce_size = 2;
  seal = λ nonce s. codes s;
  open_sealed = λ nonce bs. some (text_of bs);
  hmac_sha1 = λ key message. message ++ repeat 12 4;
  zero_padded = λ width n. six_digits n;
  sign = λ claims. some claims.user_id;
  parse_jwt = λ options now token. valid (record {
    user_id = token;
    username = "";
    role = viewer;
    token_id = "";
    issued_at = 0;
    expires_at = now;
  });
}

pub sample_crypto-IsSealing : IsSealing sample_crypto
sample_crypto-IsSealing = record {
  decode-encode = decode-encode;
  encode_nonempty = encode_nonempty;
  nonce_length = λ drawn. refl;
  nonce_pos = λ e. cc;
  open-seal = λ nonce s. ap (λ t. some t) (text_of-codes s);
}

pub sample_crypto-IsPhc : IsPhc sample_crypto
sample_crypto-IsPhc = record {
  version_field = "v=19";
  params_field = λ p. encode (p.memory ∷ p.time ∷ p.threads ∷ []);
  bytes_field = encode;
  split-format = λ p salt key. rw (decode-encode, take-append, drop-append) refl;
  scan-version = refl;
  scan-params = λ p fits. rw decode-encode refl;
  decode-bytes = decode-encode;
  key_length = λ password salt p n. length-repeat n (len password);
  salt_nonempty = λ drawn e. cc;
}

pub sample_crypto-IsPrinter : IsPrinter sample_crypto sample_os
sample_crypto-IsPrinter = record { digits = λ n h. len-six_digits n; spaceless = λ n h. refl }

abbrev pub sample_deps : Deps
sample_deps = record {
  os = sample_os;
  crypto = sample_crypto;
  limiter = record { max_failures = 2; window = 1000; lockout = 500 };
  access_ttl = 900;
  refresh_ttl = 5000;
  dummy_hash = "";
  has_secrets = true;
  has_sessions = true;
  has_recorder = true;
}

-- one admin, whose hash is of "correct horse 9", and a session of theirs
abbrev pub ada : User
ada = record {
  id = "u1";
  username = "ada";
  role = admin;
  totp_enabled = false;
  disabled = false;
  created_at = 1;
  updated_at = 1;
  last_login_at = 0;
  password_hash =
      sample_crypto.format_phc (record { memory = 1; time = 1; threads = 1 }) (7 ∷ [])
        (15 ∷ 15 ∷ []);
  totp_secret_enc = "";
}

abbrev pub adas_session : Session
adas_session = record {
  id = "s1";
  user_id = "u1";
  refresh_hash = "r1";
  ip = "10.0.0.1";
  user_agent = "test";
  created_at = 10;
  expires_at = 9000;
  revoked_at = 0;
  last_used_at = 0;
}

abbrev pub no_rows : Db
no_rows = record { users = []; sessions = []; tokens = []; attempts = []; audit_logs = [] }

abbrev pub sample_db : Db
sample_db = record no_rows { users = ada ∷ []; sessions = adas_session ∷ [] }

abbrev pub sample_entropy : List (Option String)
sample_entropy = some "d1" ∷ some "d2" ∷ some "d3" ∷ some "d4" ∷ some "d5" ∷ []

abbrev pub sample_world : World
sample_world = record { db = sample_db; faults = []; entropy = sample_entropy }

abbrev pub sample_meta : RequestMeta
sample_meta = record { ip = "10.0.0.1"; user_agent = "test" }

-- the value of a result, where it has one
module _ {A : Type 0} where
  abbrev pub is_ok : Result A → Bool
  is_ok (ok a) = true
  is_ok (err e) = false

  abbrev pub value_or : A → Result A → A
  value_or d (ok a) = a
  value_or d (err e) = d

  pub ok-value_or : (d : A) (r : Result A) → is_ok r ≡ true → r ≡ ok (value_or d r)
  ok-value_or d (ok a) h = refl
  ok-value_or d (err e) h = cc
