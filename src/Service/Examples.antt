-- ===== src/Service/Examples.antt =====
-- The theorems on the account services, at concrete requests.
use iskele.Common.{inl, ◌≢◌, ℕ, ◌≡◌, ◌⊎◌, refl, true, false, none, some, List, [], ◌∷◌, arith}
use iskele.Store.{LoginAttempt, viewer, is_admin, valid_role, session_active}
use iskele.Store.Exec.{
  invalid_credentials, ok, err, World, session_invalid, db_failure, already_initialized, pure,
  raise, lift, clock, random, statement, ignore, rename_error, reject_if, ◌>>=◌,
}
use iskele.Store.Users as Repo
use iskele.Store.Sessions
use iskele.Store.Logins
use iskele.Auth.Password
use iskele.Auth.Limiter
use iskele.Auth.Jwt
use iskele.Samples.{
  sample_os-IsOrdering, sample_deps, sample_meta, sample_db, no_rows, sample_world, sample_entropy,
  ada, value_or, ok-value_or,
}
use iskele.Service.{Identity}
use iskele.Service.Audit
use iskele.Service.Users.{UpdateInput, update, reset_totp}
use iskele.Service.Users.Guard.{IsAdministered}
use iskele.Service.Users.Revocation.{IsCutOff, update-IsCutOff, reset_totp-IsCutOff}
use iskele.Service.Auth.{
  credentials, fail_login, zero_user, TokenPair, LoginInput, bootstrap, login, refresh,
  authenticate,
}
use iskele.Service.Auth.Rotation.{refresh_once}
use iskele.Service.Auth.Sound.{IsAuthentic, login_sound}
use iskele.Service.Auth.Credentials.{IsVouchedFor, authenticate_sound}
use iskele.Service.Auth.Locked.{login_barred}
use iskele.Service.Auth.Uniform.{credentials_uniform}
use iskele.Service.Auth.Setup.{bootstrap_once}
use iskele.Service.Requests.{
  Request, Circumstance, create_user, update_user, delete_user, serve, serve-IsAdministered,
}

abbrev as_ada : Identity
as_ada = record { user_id = "u1"; username = "ada"; role = ada.role; token_id = ""; scopes = [] }

abbrev someone : Identity
someone = record { user_id = "u9"; username = "eve"; role = viewer; token_id = ""; scopes = [] }

abbrev no_pair : TokenPair
no_pair = record {
  access_token = "";
  expires_at = 0;
  refresh_token = "";
  refresh_expires_at = 0;
  user = ada;
}

abbrev quietly : Circumstance
quietly = record { meta = sample_meta; now = 100; faults = []; entropy = sample_entropy }

-- the last admin is demoted and deleted, and a statement of the second request fails
abbrev attempts : List (Request × Circumstance)
attempts =
    (
      update_user "u1" (record { role = some viewer; password = none; disabled = none }) someone,
      quietly,
    )
    ∷ (delete_user "u1" someone, record quietly { faults = false ∷ true ∷ [] })
    ∷ (create_user "bob" "correct horse 9" viewer as_ada, quietly)
    ∷ []

sample_db-IsAdministered : IsAdministered sample_db
unfolding is_admin
sample_db-IsAdministered = record { distinct = (refl, tt); admin_left = refl }

serve-IsAdministered_example : IsAdministered (serve sample_deps attempts sample_db)
serve-IsAdministered_example =
    serve-IsAdministered sample_deps sample_os-IsOrdering attempts sample_db
      sample_db-IsAdministered

abbrev refreshed : TokenPair
refreshed = value_or no_pair (refresh sample_deps "r1" sample_meta 100 sample_world).0

abbrev after_refresh : World
after_refresh = record {
  db = (refresh sample_deps "r1" sample_meta 100 sample_world).1.db;
  faults = [];
  entropy = sample_entropy;
}

refresh_once_example :
    let r = (refresh sample_deps "r1" sample_meta 200 after_refresh).0 in
    (r ≡ err session_invalid) ⊎ (r ≡ err db_failure)
unfolding refresh ◌>>=◌ reject_if pure rename_error statement clock random lift ignore
    Sessions.by_refresh_hash session_active Repo.by_id Sessions.revoke Jwt.issue Sessions.create
    Audit.record_event
refresh_once_example =
    refresh_once sample_deps "r1" sample_meta sample_meta 100 200 sample_world [] sample_entropy
      refreshed (λ e. omega (arith, e)) (ok-value_or no_pair _ refl)

abbrev right_input : LoginInput
right_input = record { username = "ada"; password = "correct horse 9"; totp = "" }

login_sound_example :
    IsAuthentic sample_deps 100 sample_db.users right_input
      (value_or no_pair (login sample_deps right_input sample_meta 100 sample_world).0).user
unfolding login ◌>>=◌ reject_if pure rename_error statement clock random lift ignore Repo.count
    Limiter.check Limiter.record_success Logins.failures_since Logins.record_attempt
    Logins.max_stamp Repo.by_username Password.verify_password Password.decode_hash
    Password.needs_rehash Password.hash_password Repo.update_password Repo.exec_update
    Repo.touch_login Limiter.open_status Jwt.issue Sessions.create Audit.record_event
login_sound_example =
    login_sound sample_deps right_input sample_meta 100 sample_world
      (value_or no_pair (login sample_deps right_input sample_meta 100 sample_world).0)
      (ok-value_or no_pair _ refl)

-- two failures, as many as the sample limiter allows, the last 100 ago
abbrev failed : ℕ → LoginAttempt
failed at = record { ip = "10.0.0.1"; username = "ada"; success = false; created_at = at }

abbrev attacked : World
attacked = record sample_world {
  db = record sample_db { attempts = failed 1500 ∷ failed 1600 ∷ [] };
}

login_barred_example : (login sample_deps right_input sample_meta 1700 attacked).0 ≢ ok no_pair
unfolding Logins.max_stamp
login_barred_example =
    login_barred sample_deps right_input sample_meta 1700 attacked no_pair (record {
      enough = omega arith;
      last_failure = 1600;
      is_last = refl;
      happened = λ e. omega (arith, e);
      recent = omega arith;
    })

abbrev unknown_input : LoginInput
unknown_input = record { username = "nobody"; password = "correct horse 9"; totp = "" }

credentials_uniform_example :
    credentials sample_deps unknown_input sample_meta 100 sample_world
    ≡ (fail_login sample_deps "nobody" sample_meta invalid_credentials >>= λ _. pure zero_user) 100
        sample_world
credentials_uniform_example =
    credentials_uniform sample_deps unknown_input sample_meta 100 sample_db sample_entropy
      (inl refl)

-- the sample tokens are the ids of their accounts
authenticate_sound_example :
    IsVouchedFor sample_deps 100 sample_db "u1"
      (value_or someone (authenticate sample_deps "u1" 100 sample_world).0)
unfolding authenticate ◌>>=◌ reject_if pure rename_error statement clock random lift ignore raise
    Jwt.parse valid_role Repo.by_id
authenticate_sound_example =
    authenticate_sound sample_deps "u1" 100 sample_world
      (value_or someone (authenticate sample_deps "u1" 100 sample_world).0)
      (ok-value_or someone _ refl)

abbrev fresh : World
fresh = record { db = no_rows; faults = []; entropy = sample_entropy }

abbrev set_up : World
set_up = record {
  db = (bootstrap sample_deps "ada" "correct horse 9" sample_meta 100 fresh).1.db;
  faults = [];
  entropy = sample_entropy;
}

bootstrap_once_example :
    let r = (bootstrap sample_deps "eve" "battery staple 8" sample_meta 200 set_up).0 in
    (fresh.db.users ≡ []) × ((r ≡ err already_initialized) ⊎ (r ≡ err db_failure))
unfolding bootstrap ◌>>=◌ reject_if pure rename_error statement clock random lift ignore Repo.count
    Password.validate_password Password.classes_in Password.hash_password valid_role Repo.create
    Jwt.issue Sessions.create Audit.record_event
bootstrap_once_example =
    bootstrap_once sample_deps "ada" "correct horse 9" "eve" "battery staple 8" sample_meta
      sample_meta 100 200 fresh [] sample_entropy
      (value_or no_pair (bootstrap sample_deps "ada" "correct horse 9" sample_meta 100 fresh).0)
      (ok-value_or no_pair _ refl)

abbrev new_password : UpdateInput
new_password = record { role = none; password = some "battery staple 8"; disabled = none }

update-IsCutOff_example :
    IsCutOff "u1" (update sample_deps "u1" new_password as_ada sample_meta 100 sample_world).1.db
unfolding update ◌>>=◌ reject_if pure rename_error statement clock random lift ignore Repo.by_id
    Password.validate_password Password.classes_in Password.hash_password Repo.update_password
    Repo.exec_update Sessions.revoke_all_for_user Audit.record_event
update-IsCutOff_example =
    update-IsCutOff sample_deps "u1" "battery staple 8" new_password as_ada sample_meta 100
      sample_world
      (value_or ada (update sample_deps "u1" new_password as_ada sample_meta 100 sample_world).0)
      (λ e. omega (arith, e)) refl refl (ok-value_or ada _ refl)

reset_totp-IsCutOff_example :
    IsCutOff "u1" (reset_totp sample_deps "u1" someone sample_meta 100 sample_world).1.db
unfolding reset_totp ◌>>=◌ reject_if pure rename_error statement clock random lift ignore Repo.by_id
    Repo.set_totp Repo.exec_update Sessions.revoke_all_for_user Audit.record_event
reset_totp-IsCutOff_example =
    reset_totp-IsCutOff sample_deps "u1" someone sample_meta 100 sample_world
      (λ e. omega (arith, e)) refl refl
