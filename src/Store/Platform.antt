-- ===== src/Store/Platform.antt =====
-- What the daemon's packages call in the Go library, in SQLite and in third-party modules.
-- `stamp_before a b` is SQLite's `<` between the texts that time.RFC3339Nano makes of two times.
use mathlib.Core.List.{Perm}
use iskele.Common.{ℕ, String, Bool, List}
use iskele.Store.{User}

pub record Platform : Type 0 where
  -- strings.TrimSpace, strings.ToLower, strings.ToUpper, strings.Join(_, ","), strings.Split(_, ",")
  pub trim_space : String → String
  pub to_lower : String → String
  pub to_upper : String → String
  pub join_comma : List String → String
  pub split_comma : String → List String
  -- strings.ReplaceAll(_, " ", ""), strings.TrimRight(_, "=")
  pub remove_spaces : String → String
  pub trim_padding : String → String
  -- unicode.IsLower, unicode.IsUpper, unicode.IsDigit
  pub is_lower : ℕ → Bool
  pub is_upper : ℕ → Bool
  pub is_digit : ℕ → Bool
  -- hex.EncodeToString(sha256.Sum256(_)), of auth.HashToken
  pub sha256_hex : String → String
  -- ORDER BY created_at, of a query over `users`
  pub order_by_created : List User → List User
  pub stamp_before : ℕ → ℕ → Bool

-- What SQL documents of ORDER BY: it rearranges the rows.
pub record IsOrdering (os : Platform) : Type 0 where
  pub permutes : (us : List User) → Perm (os.order_by_created us) us
