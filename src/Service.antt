-- ===== src/Service.antt =====
-- internal/service: the authentication flows and the account administration, over the repositories
-- of internal/store.
pub mod Audit
pub mod Users
pub mod Auth
pub mod Untouched
pub mod Requests
mod Examples
use iskele.Common.{ℕ, String, Bool, List}
use iskele.Store.{Role}
use iskele.Store.Platform.{Platform}
use iskele.Auth.{Crypto}
use iskele.Auth.Limiter.{Limiter}

pub record RequestMeta : Type 0 where
  pub ip : String
  pub user_agent : String

pub record Identity : Type 0 where
  pub user_id : String
  pub username : String
  pub role : Role
  pub token_id : String
  pub scopes : List String

-- The collaborators of both services. `dummy_hash` is the package variable of that name; the three
-- flags say which optional collaborators are not nil.
pub record Deps : Type 0 where
  pub os : Platform
  pub crypto : Crypto
  pub limiter : Limiter
  pub access_ttl : ℕ
  pub refresh_ttl : ℕ
  pub dummy_hash : String
  pub has_secrets : Bool
  pub has_sessions : Bool
  pub has_recorder : Bool
