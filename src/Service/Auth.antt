-- ===== src/Service/Auth.antt =====
-- internal/service/auth.go: setting up, signing in and out, refreshing, and resolving a credential.
pub mod Administered
pub mod Rotation
pub mod Sound
pub mod Credentials
pub mod Locked
pub mod Uniform
pub mod Setup
use Prim.Native.String.{len}
use text.Mathlib.Text.{starts_with}
use iskele.Common.{
  ℕ, zero, suc, ◌+◌, String, Bool, true, false, not, ◌&&◌, ◌||◌, Option, none, some, [], ltb, eqb,
  ◌==◌, if◌then◌else◌,
}
use iskele.Store.{
  Role, User, Session, ApiToken, admin, other, is_zero, session_active, token_active,
}
use iskele.Store.Exec.{
  Error, Result, ok, err, not_found, conflict, username_required, username_unavailable,
  already_initialized, not_initialized, locked_out, invalid_credentials, account_disabled,
  session_invalid, totp_required, totp_unavailable, token_invalid, token_expired, invalid_hash,
  Exec, World, pure, raise, lift, clock, random, rename_error, ignore, reject_if, ◌>>=◌, ◌>>◌,
}
use iskele.Store.Users as Repo
use iskele.Store.Sessions
use iskele.Store.Tokens
use iskele.Auth.Password.{validate_password, hash_password, verify_password, needs_rehash}
use iskele.Auth.SecretBox.{decrypt}
use iskele.Auth.Totp.{verify_totp}
use iskele.Auth.Jwt
use iskele.Auth.Limiter.{check, record_failure, record_success}
use iskele.Service.{Deps, RequestMeta, Identity}
use iskele.Service.Audit.{Event, record_event}
use iskele.Service.Users.{new_user, hide_conflict}

pub record TokenPair : Type 0 where
  pub access_token : String
  pub expires_at : ℕ
  pub refresh_token : String
  pub refresh_expires_at : ℕ
  pub user : User

pub record LoginInput : Type 0 where
  pub username : String
  pub password : String
  pub totp : String

-- User{}
abbrev pub zero_user : User
zero_user = record {
  id = "";
  username = "";
  role = other "";
  totp_enabled = false;
  disabled = false;
  created_at = 0;
  updated_at = 0;
  last_login_at = 0;
  password_hash = "";
  totp_secret_enc = "";
}

abbrev pub zero_unless_found : Result User → Result User
zero_unless_found (ok u) = ok u
zero_unless_found (err not_found) = ok zero_user
zero_unless_found (err e) = err e

-- if err != nil && !errors.Is(err, store.ErrNotFound) { return err }
unfoldable pub or_zero_user : Exec User → Exec User
or_zero_user m now w = let (r, w') = m now w in (zero_unless_found r, w')

-- the errors of a lookup by a credential's parts
unfoldable pub not_found_as : Error → Error → Error
not_found_as e not_found = e
not_found_as e e' = e'

abbrev pub event : User → String → Event
event u action = record {
  user_id = u.id;
  username = u.username;
  action = action;
  resource_type = "";
  resource_id = "";
  failed = false;
}

-- auth.IsAPIToken
unfoldable pub is_api_token : String → Bool
is_api_token value = ltb 4 (len value) && starts_with value "isk_"

-- the account behind an identity, for an interactive session
abbrev pub identity_of : User → Identity
identity_of u = record {
  user_id = u.id;
  username = u.username;
  role = u.role;
  token_id = "";
  scopes = [];
}

-- Initialized
unfoldable pub initialized : Exec Bool
initialized = do n ← Repo.count; pure (ltb 0 n)

-- if errors.Is(err, store.ErrNotFound) { return nil }
abbrev pub none_unless_found : Result Session → Result (Option Session)
none_unless_found (ok s) = ok (some s)
none_unless_found (err not_found) = ok none
none_unless_found (err e) = err e

unfoldable pub find_session : String → Exec (Option Session)
find_session hash now w =
    let (r, w') = Sessions.by_refresh_hash hash now w in (none_unless_found r, w')

module _ (deps : Deps) where
  -- createUser
  unfoldable pub create_user : String → String → Role → Exec User
  unfolding new_user hide_conflict
  create_user name password role = do
    let username = deps.os.trim_space name
    reject_if (username == "") username_required
    lift (validate_password deps.os password)
    hash ← hash_password deps.crypto password
    id ← random
    now ← clock
    let user = new_user id username role hash now
    rename_error hide_conflict (Repo.create deps.os user)
    pure user

  -- issuePair
  unfoldable pub issue_pair : User → RequestMeta → Exec TokenPair
  issue_pair user meta = do
    signed ← Jwt.issue deps.crypto deps.access_ttl user
    refresh_token ← random
    session_id ← random
    now ← clock
    Sessions.create (record {
      id = session_id;
      user_id = user.id;
      refresh_hash = deps.os.sha256_hex refresh_token;
      ip = meta.ip;
      user_agent = meta.user_agent;
      created_at = now;
      expires_at = now + deps.refresh_ttl;
      revoked_at = 0;
      last_used_at = 0;
    })
    pure (record {
      access_token = signed.0;
      expires_at = signed.1;
      refresh_token = refresh_token;
      refresh_expires_at = now + deps.refresh_ttl;
      user = user;
    })

  -- Bootstrap
  unfoldable pub bootstrap : String → String → RequestMeta → Exec TokenPair
  unfolding initialized create_user issue_pair
  bootstrap username password meta = do
    done ← initialized
    reject_if done already_initialized
    user ← create_user username password admin
    pair ← issue_pair user meta
    record_event deps meta
        (record (event user "auth.bootstrap") { resource_type = "user"; resource_id = user.id })
    pure pair

  abbrev pub factor_error : Result (Unit {0}) → Result (Unit {0})
  factor_error (ok u) = ok u
  factor_error (err e) = err invalid_credentials

  abbrev pub check_factor : Result String → String → ℕ → Result (Unit {0})
  check_factor (err e) code now = err totp_unavailable
  check_factor (ok secret) code now = factor_error (verify_totp deps.crypto deps.os secret code now)

  -- verifySecondFactor
  unfoldable pub verify_second_factor : User → String → ℕ → Result (Unit {0})
  verify_second_factor user code now =
      if not deps.has_secrets || user.totp_secret_enc == ""
      then err totp_unavailable
      else if deps.os.trim_space code == ""
      then err totp_required
      else check_factor (decrypt deps.crypto user.totp_secret_enc) code now

  -- failLogin: the failure is recorded, and `cause` is the error
  unfoldable pub fail_login : String → RequestMeta → Error → Exec (Unit {0})
  fail_login username meta cause = do
    record_failure deps.os meta.ip username
    record_event deps meta (record {
      user_id = "";
      username = username;
      action = "auth.login_failed";
      resource_type = "";
      resource_id = "";
      failed = true;
    })
    raise cause

  -- the password's check, with the error that it may itself meet
  abbrev pub password_ok : Result Bool → Bool
  password_ok (ok b) = b
  password_ok (err e) = false

  abbrev pub hash_error : User → Result Bool → Result (Unit {0})
  hash_error user (ok b) = ok tt
  hash_error user (err e) = if user.id == "" then ok tt else err e

  abbrev pub stored_hash : User → String
  stored_hash user = if user.password_hash == "" then deps.dummy_hash else user.password_hash

  abbrev pub pass_or_fail : String → RequestMeta → Result (Unit {0}) → Exec (Unit {0})
  pass_or_fail username meta (ok u) = pure tt
  pass_or_fail username meta (err e) = fail_login username meta e

  -- what the second factor's check asks of the login
  unfoldable pub require_factor : User → LoginInput → RequestMeta → Exec (Unit {0})
  unfolding verify_second_factor fail_login
  require_factor user input meta = do
    now ← clock
    pass_or_fail input.username meta (verify_second_factor user input.totp now)

  -- NeedsRehash, and the new hash; the errors on the way are dropped
  unfoldable pub upgrade_hash : User → String → Exec (Unit {0})
  upgrade_hash user password =
      if needs_rehash deps.crypto user.password_hash
      then ignore
          (do new_hash ← hash_password deps.crypto password; Repo.update_password user.id new_hash)
      else pure tt

  -- the checks of a login: the account, once every factor is right
  unfoldable pub credentials : LoginInput → RequestMeta → Exec User
  unfolding fail_login require_factor or_zero_user
  credentials input meta = do
    user ← or_zero_user (Repo.by_username deps.os input.username)
    let verdict = verify_password deps.crypto (stored_hash user) input.password
    lift (hash_error user verdict)
    if not (password_ok verdict) || user.id == ""
        then fail_login input.username meta invalid_credentials
        else pure tt
    if user.disabled then fail_login input.username meta account_disabled else pure tt
    if user.totp_enabled then require_factor user input meta else pure tt
    pure user

  -- Login
  unfoldable pub login : LoginInput → RequestMeta → Exec TokenPair
  unfolding initialized credentials upgrade_hash issue_pair
  login input meta = do
    done ← initialized
    reject_if (not done) not_initialized
    status ← check deps.limiter deps.os meta.ip
    reject_if status.locked (locked_out status.retry_after)
    user ← credentials input meta
    record_success deps.os meta.ip input.username
    upgrade_hash user input.password
    now ← clock
    Repo.touch_login user.id now
    pair ← issue_pair user meta
    record_event deps meta (event user "auth.login")
    pure pair

  -- Refresh
  unfoldable pub refresh : String → RequestMeta → Exec TokenPair
  unfolding not_found_as issue_pair
  refresh token meta = do
    let refresh_token = deps.os.trim_space token
    reject_if (refresh_token == "") session_invalid
    session ←
        rename_error (not_found_as session_invalid)
          (Sessions.by_refresh_hash (deps.os.sha256_hex refresh_token))
    now ← clock
    reject_if (not (session_active session now)) session_invalid
    user ← rename_error (not_found_as session_invalid) (Repo.by_id session.user_id)
    if user.disabled then ignore (Sessions.revoke_all_for_user user.id) else pure tt
    reject_if user.disabled account_disabled
    Sessions.revoke session.id
    pair ← issue_pair user meta
    record_event deps meta (event user "auth.refresh")
    pure pair

  unfoldable pub end_session : Identity → RequestMeta → Option Session → Exec (Unit {0})
  end_session identity meta none = pure tt
  end_session identity meta (some session) = do
    Sessions.revoke session.id
    record_event deps meta (record {
      user_id = identity.user_id;
      username = identity.username;
      action = "auth.logout";
      resource_type = "";
      resource_id = "";
      failed = false;
    })

  -- Logout
  unfoldable pub logout : String → Identity → RequestMeta → Exec (Unit {0})
  unfolding find_session end_session
  logout token identity meta = if deps.os.trim_space token == "" then pure tt else do
    session ← find_session (deps.os.sha256_hex (deps.os.trim_space token))
    end_session identity meta session

  -- authenticateJWT
  unfoldable pub authenticate_jwt : String → Exec Identity
  unfolding not_found_as
  authenticate_jwt token = do
    now ← clock
    claims ← lift (Jwt.parse deps.crypto now token)
    user ← rename_error (not_found_as token_invalid) (Repo.by_id claims.user_id)
    reject_if user.disabled account_disabled
    pure (identity_of user)

  -- the error of a token that is not active
  abbrev pub inactive_error : ApiToken → ℕ → Error
  inactive_error record' now =
      if not (is_zero record'.expires_at) && ltb record'.expires_at now
      then token_expired
      else token_invalid

  -- authenticateAPIToken
  unfoldable pub authenticate_api_token : String → Exec Identity
  unfolding not_found_as
  authenticate_api_token token = do
    stored ←
        rename_error (not_found_as token_invalid)
          (Tokens.by_hash deps.os (deps.os.sha256_hex token))
    now ← clock
    reject_if (not (token_active stored now)) (inactive_error stored now)
    user ← rename_error (not_found_as token_invalid) (Repo.by_id stored.user_id)
    reject_if user.disabled account_disabled
    ignore (Tokens.touch stored.id now)
    pure (record (identity_of user) { token_id = stored.id; scopes = stored.scopes })

  -- Authenticate
  unfoldable pub authenticate : String → Exec Identity
  unfolding is_api_token authenticate_jwt authenticate_api_token
  authenticate credential =
      let trimmed = deps.os.trim_space credential in
      if trimmed == ""
      then raise session_invalid
      else if is_api_token trimmed
      then authenticate_api_token trimmed
      else authenticate_jwt trimmed
