-- ===== src/Store.antt =====
-- internal/store/models.go and the tables of internal/store/migrations: the records that the
-- repositories read and write.
-- A time is a number of nanoseconds, and 0 is Go's zero time, which an optional column stores
-- as ''. Columns hold the parsed value: `parseTime` reads back what `Format` wrote.
pub mod Exec
pub mod Platform
pub mod Users
pub mod Sessions
pub mod Tokens
pub mod Logins
use iskele.Common.{ℕ, String, Bool, true, false, not, ◌&&◌, List, ltb, eqb, if◌then◌else◌}

-- `Role` is a string in the source: `other` stands for every value but the three known ones.
pub data Role : Type 0 where
  admin operator viewer : Role
  other : String → Role

unfoldable pub valid_role : Role → Bool
valid_role admin = true
valid_role operator = true
valid_role viewer = true
valid_role (other s) = false

unfoldable pub is_admin : Role → Bool
is_admin admin = true
is_admin operator = false
is_admin viewer = false
is_admin (other s) = false

pub record User : Type 0 where
  pub id : String
  pub username : String
  pub role : Role
  pub totp_enabled : Bool
  pub disabled : Bool
  pub created_at : ℕ
  pub updated_at : ℕ
  pub last_login_at : ℕ
  pub password_hash : String
  pub totp_secret_enc : String

pub record Session : Type 0 where
  pub id : String
  pub user_id : String
  pub refresh_hash : String
  pub ip : String
  pub user_agent : String
  pub created_at : ℕ
  pub expires_at : ℕ
  pub revoked_at : ℕ
  pub last_used_at : ℕ

-- t.IsZero()
abbrev pub is_zero : ℕ → Bool
is_zero t = eqb t 0

-- Session.Active
unfoldable pub session_active : Session → ℕ → Bool
session_active s now = is_zero s.revoked_at && ltb now s.expires_at

pub record ApiToken : Type 0 where
  pub id : String
  pub user_id : String
  pub name : String
  pub prefix : String
  pub token_hash : String
  pub scopes : List String
  pub created_at : ℕ
  pub expires_at : ℕ
  pub last_used_at : ℕ
  pub revoked_at : ℕ

-- APIToken.Active
unfoldable pub token_active : ApiToken → ℕ → Bool
token_active t now =
    if not (is_zero t.revoked_at)
    then false
    else if not (is_zero t.expires_at) && ltb t.expires_at now
    then false
    else true

pub record LoginAttempt : Type 0 where
  pub ip : String
  pub username : String
  pub success : Bool
  pub created_at : ℕ

-- The columns of `audit_logs` that the account services fill; `detail` is left out.
pub record AuditEntry : Type 0 where
  pub user_id : String
  pub username : String
  pub action : String
  pub resource_type : String
  pub resource_id : String
  pub failed : Bool
  pub ip : String
  pub user_agent : String
  pub created_at : ℕ

-- A row of `api_tokens`: its scopes stand in one text column.
pub record TokenRow : Type 0 where
  pub token : ApiToken
  pub scopes : String

pub record Db : Type 0 where
  pub users : List User
  pub sessions : List Session
  pub tokens : List TokenRow
  pub attempts : List LoginAttempt
  pub audit_logs : List AuditEntry
