-- ===== src/Service/Users.antt =====
-- internal/service/users.go: account administration and two-factor enrollment.
pub mod Admins
pub mod Guard
pub mod Changes
pub mod LastAdmin
pub mod Revocation
use iskele.Common.{
  ℕ, String, Bool, true, false, not, ◌&&◌, Option, none, some, any, ◌==◌, if◌then◌else◌,
}
use iskele.Store.{Role, User, valid_role, is_admin, admin, operator, viewer, other}
use iskele.Store.Exec.{
  Error, not_found, conflict, user_not_found, username_required, invalid_role, username_unavailable,
  last_admin, self_delete, own_totp_reset, totp_unavailable, totp_already_enabled, totp_not_pending,
  Exec, pure, lift, clock, random, rename_error, reject_if, ◌>>=◌, ◌>>◌,
}
use iskele.Store.Users as Repo
use iskele.Store.Sessions
use iskele.Auth.Password.{validate_password, hash_password}
use iskele.Auth.SecretBox.{encrypt, decrypt}
use iskele.Auth.Totp.{new_totp_secret, verify_totp}
use iskele.Service.{Deps, RequestMeta, Identity}
use iskele.Service.Audit.{record_event}

-- role == other
unfoldable pub role_eq : Role → Role → Bool
role_eq admin r = is_admin r
role_eq operator operator = true
role_eq operator r = false
role_eq viewer viewer = true
role_eq viewer r = false
role_eq (other s) (other t) = s == t
role_eq (other s) r = false

abbrev pub bool_eq : Bool → Bool → Bool
bool_eq true b = b
bool_eq false b = not b

-- if errors.Is(err, ErrNotFound) { return ErrUserNotFound }
unfoldable pub hide_not_found : Error → Error
hide_not_found not_found = user_not_found
hide_not_found e = e

unfoldable pub hide_conflict : Error → Error
hide_conflict conflict = username_unavailable
hide_conflict e = e

-- Get
unfoldable pub get : String → Exec User
unfolding hide_not_found
get id = rename_error hide_not_found (Repo.by_id id)

-- record
unfoldable pub record_action : Deps → RequestMeta → Identity → String → User → Exec (Unit {0})
record_action deps meta actor action subject = record_event deps meta (record {
  user_id = actor.user_id;
  username = actor.username;
  action = action;
  resource_type = "user";
  resource_id = subject.id;
  failed = false;
})

-- refuseIfLastAdmin: whether an account other than `id` is an enabled admin
abbrev pub is_other_admin : String → User → Bool
is_other_admin id u = not (u.id == id) && is_admin u.role && not u.disabled

unfoldable pub new_user : String → String → Role → String → ℕ → User
new_user id username role hash now = record {
  id = id;
  username = username;
  role = role;
  totp_enabled = false;
  disabled = false;
  created_at = now;
  updated_at = 0;
  last_login_at = 0;
  password_hash = hash;
  totp_secret_enc = "";
}

pub record UpdateInput : Type 0 where
  pub role : Option Role
  pub password : Option String
  pub disabled : Option Bool

-- a user, and whether the request has changed anything so far
abbrev pub Change : Type 0
Change = User × Bool

module _ (deps : Deps) where
  unfoldable pub refuse_if_last_admin : String → Exec (Unit {0})
  refuse_if_last_admin id = do
    all ← Repo.list deps.os
    reject_if (not (any (is_other_admin id) all)) last_admin

  -- revokeSessions
  unfoldable pub revoke_sessions : String → Exec (Unit {0})
  revoke_sessions user_id =
      if deps.has_sessions then Sessions.revoke_all_for_user user_id else pure tt

  -- Create
  unfoldable pub create : String → String → Role → Identity → RequestMeta → Exec User
  unfolding hide_conflict new_user record_action
  create name password role actor meta = do
    let username = deps.os.trim_space name
    reject_if (username == "") username_required
    reject_if (not (valid_role role)) invalid_role
    lift (validate_password deps.os password)
    hash ← hash_password deps.crypto password
    id ← random
    now ← clock
    let user = new_user id username role hash now
    rename_error hide_conflict (Repo.create deps.os user)
    record_action deps meta actor "user.create" user
    pure user

  -- the three parts of Update
  unfoldable pub change_role : Option Role → Change → Exec Change
  unfolding role_eq refuse_if_last_admin
  change_role none c = pure c
  change_role (some role) (user, changed) =
      if role_eq role user.role then pure (user, changed) else do
        reject_if (not (valid_role role)) invalid_role
        if is_admin user.role then refuse_if_last_admin user.id else pure tt
        Repo.update_role user.id role
        pure (record user { role = role }, true)

  unfoldable pub change_disabled : Option Bool → Change → Exec Change
  unfolding refuse_if_last_admin revoke_sessions
  change_disabled none c = pure c
  change_disabled (some disabled) (user, changed) =
      if bool_eq disabled user.disabled then pure (user, changed) else do
        if disabled && is_admin user.role then refuse_if_last_admin user.id else pure tt
        Repo.set_disabled user.id disabled
        if disabled then revoke_sessions user.id else pure tt
        pure (record user { disabled = disabled }, true)

  unfoldable pub change_password : Option String → Change → Exec Change
  unfolding revoke_sessions
  change_password none c = pure c
  change_password (some password) (user, changed) = do
    lift (validate_password deps.os password)
    hash ← hash_password deps.crypto password
    Repo.update_password user.id hash
    revoke_sessions user.id
    pure (user, true)

  -- Update
  unfoldable pub update : String → UpdateInput → Identity → RequestMeta → Exec User
  unfolding get change_role change_disabled change_password record_action
  update id input actor meta = do
    user ← get id
    a ← change_role input.role (user, false)
    b ← change_disabled input.disabled a
    c ← change_password input.password b
    if c.1 then record_action deps meta actor "user.update" c.0 else pure tt
    pure c.0

  -- Delete
  unfoldable pub delete : String → Identity → RequestMeta → Exec (Unit {0})
  unfolding get refuse_if_last_admin revoke_sessions hide_not_found record_action
  delete id actor meta = do
    user ← get id
    reject_if (user.id == actor.user_id) self_delete
    if is_admin user.role then refuse_if_last_admin user.id else pure tt
    revoke_sessions user.id
    rename_error hide_not_found (Repo.delete user.id)
    record_action deps meta actor "user.delete" user

  -- BeginTOTP, up to the rendering of the secret and of its URI
  unfoldable pub begin_totp : Identity → RequestMeta → Exec String
  unfolding get record_action
  begin_totp actor meta = do
    reject_if (not deps.has_secrets) totp_unavailable
    user ← get actor.user_id
    reject_if user.totp_enabled totp_already_enabled
    secret ← new_totp_secret deps.crypto
    encrypted ← encrypt deps.crypto secret
    Repo.set_totp user.id encrypted false
    record_action deps meta actor "user.totp_begin" user
    pure secret

  -- ConfirmTOTP
  unfoldable pub confirm_totp : String → Identity → RequestMeta → Exec (Unit {0})
  unfolding get record_action
  confirm_totp code actor meta = do
    reject_if (not deps.has_secrets) totp_unavailable
    user ← get actor.user_id
    reject_if user.totp_enabled totp_already_enabled
    reject_if (user.totp_secret_enc == "") totp_not_pending
    secret ← lift (decrypt deps.crypto user.totp_secret_enc)
    now ← clock
    lift (verify_totp deps.crypto deps.os secret code now)
    Repo.set_totp user.id user.totp_secret_enc true
    record_action deps meta actor "user.totp_enable" user

  -- DisableTOTP
  unfoldable pub disable_totp : String → Identity → RequestMeta → Exec (Unit {0})
  unfolding get record_action
  disable_totp code actor meta = do
    reject_if (not deps.has_secrets) totp_unavailable
    user ← get actor.user_id
    if not user.totp_enabled then pure tt else do
      secret ← lift (decrypt deps.crypto user.totp_secret_enc)
      now ← clock
      lift (verify_totp deps.crypto deps.os secret code now)
      Repo.set_totp user.id "" false
      record_action deps meta actor "user.totp_disable" user

  -- ResetTOTP
  unfoldable pub reset_totp : String → Identity → RequestMeta → Exec (Unit {0})
  unfolding get revoke_sessions record_action
  reset_totp id actor meta = do
    user ← get id
    reject_if (user.id == actor.user_id) own_totp_reset
    Repo.set_totp user.id "" false
    revoke_sessions user.id
    record_action deps meta actor "user.totp_reset" user
