-- ===== src/Service/Auth/Administered.antt =====
-- The flows of internal/service/auth.go keep an enabled admin, whatever statements fail.
use iskele.Common.{
  ℕ, String, ◌≡◌, refl, ap, Bool, true, Option, none, some, arith, ◌==◌, if◌then◌else◌,
}
use iskele.Store.{Db, Role, User, Session, admin, is_admin}
use iskele.Store.Exec.{Error, Result, ok, err, not_found, Exec, pure, statement}
use iskele.Store.Exec.Rules.{
  Outcome, Triple-pure, Triple-raise, Triple-if, Triple-rename, Triple-bind, Triple-ignore,
  Triple-clocked, Triple-drawn, Triple-lifted, Triple-reject, Keeps,
}
use iskele.Store.Users as Repo
use iskele.Store.Users.{exec_update}
use iskele.Store.Sessions
use iskele.Store.Tokens
use iskele.Store.Platform.{IsOrdering}
use iskele.Auth.Limiter.{record_success}
use iskele.Auth.Password.{needs_rehash}
use iskele.Service.{Deps, RequestMeta, Identity}
use iskele.Service.Audit.{Event, record_event}
use iskele.Service.Auth.{
  issue_pair, fail_login, LoginInput, initialized, create_user, bootstrap, or_zero_user,
  zero_unless_found, verify_second_factor, pass_or_fail, require_factor, upgrade_hash, credentials,
  login, refresh, find_session, none_unless_found, end_session, logout, authenticate_jwt,
  authenticate_api_token, authenticate, is_api_token,
}
use iskele.Service.Users.Admins.{Distinct-update, any-update}
use iskele.Service.Users.Guard.{HasAdmin, IsAdministered, exec_update-Leaves}
use iskele.Service.Users.LastAdmin.{repo_create-IsAdministered, hash_password-IsAdministered}
use iskele.Service.Untouched.{
  read-Spares, record_event-Spares, session_revoke-Spares, revoke_all-Spares, record_attempt-Spares,
  token_touch-Spares, check-Spares, issue_pair-Spares, fail_login-Spares,
}

module _ (now : ℕ) (deps : Deps) (os : IsOrdering deps.os) where
  quiet-IsAdministered :
      (id : String) (f : User → User)
      → ((w : User) → ((f w).id ≡ w.id) × ((f w).role ≡ w.role) × ((f w).disabled ≡ w.disabled))
      → Keeps now IsAdministered (exec_update id f)
  quiet-IsAdministered id f quiet =
      exec_update-Leaves now IsAdministered IsAdministered id f
        (λ db p. record {
          distinct = Distinct-update id f (λ w. (quiet w).0) db.users p.distinct;
          admin_left =
              any-update id f (λ w h. ground (arith, quiet w, ap is_admin (quiet w).1)) db.users
                p.admin_left;
        })
        (λ db p. p)

  event-IsAdministered :
      (meta : RequestMeta) (e : Event) → Keeps now IsAdministered (record_event deps meta e)
  event-IsAdministered meta e = record_event-Spares now HasAdmin HasAdmin (λ us p. p) deps meta e

  pair-IsAdministered :
      (u : User) (meta : RequestMeta) → Keeps now IsAdministered (issue_pair deps u meta)
  pair-IsAdministered u meta = issue_pair-Spares now HasAdmin HasAdmin (λ us p. p) deps u meta

  read-IsAdministered :
      {A : Type 0} (f : Db → Result A) → Keeps now IsAdministered (statement (λ db. (f db, db)))
  read-IsAdministered f = read-Spares now HasAdmin HasAdmin (λ us p. p) f

  create_user-IsAdministered :
      (name password : String) (role : Role)
      → Keeps now IsAdministered (create_user deps name password role)
  unfolding create_user
  create_user-IsAdministered name password role =
      Triple-reject _ _ _ (λ _ db p. p)
        λ _.
          Triple-lifted _ _ (λ e _ db p. p)
            λ _ _. Triple-bind _ _ (hash_password-IsAdministered now deps os password) λ hash.
              Triple-drawn _ (λ db p. p)
                λ id. Triple-clocked _ (
                  Triple-bind _ _ (Triple-rename _ _ (repo_create-IsAdministered now deps os _))
                    λ _. Triple-pure _ (λ db p. p))

  initialized-IsAdministered : Keeps now IsAdministered initialized
  unfolding initialized Repo.count
  initialized-IsAdministered =
      Triple-bind _ _ (read-IsAdministered _) (λ n. Triple-pure _ (λ db p. p))

  pub bootstrap-IsAdministered :
      (username password : String) (meta : RequestMeta)
      → Keeps now IsAdministered (bootstrap deps username password meta)
  unfolding bootstrap
  bootstrap-IsAdministered username password meta =
      Triple-bind _ _ initialized-IsAdministered λ done.
        Triple-reject _ _ _ (λ _ db p. p)
          λ _. Triple-bind _ _ (create_user-IsAdministered username password admin) λ u.
            Triple-bind _ _ (pair-IsAdministered u meta)
              λ pair. Triple-bind _ _ (event-IsAdministered meta _) λ _. Triple-pure _ (λ db p. p)

  fail-IsAdministered :
      (username : String) (meta : RequestMeta) (cause : Error)
      → Keeps now IsAdministered (fail_login deps username meta cause)
  fail-IsAdministered username meta cause =
      fail_login-Spares now HasAdmin HasAdmin (λ us p. p) deps username meta cause

  or_zero_user-IsAdministered :
      (m : Exec User) → Keeps now IsAdministered m → Keeps now IsAdministered (or_zero_user m)
  unfolding or_zero_user
  or_zero_user-IsAdministered m t = record { at = λ w p. go (m now w).0 (m now w).1.db (t.at w p) }
    where
      go :
          (r : Result User) (db : Db)
          → Outcome (λ _ d. IsAdministered d) (λ _ d. IsAdministered d) r db
          → Outcome (λ _ d. IsAdministered d) (λ _ d. IsAdministered d) (zero_unless_found r) db
      go (ok u) db h = h
      go (err not_found) db h = h
      go (err _) db h = h

  require-IsAdministered :
      (u : User) (input : LoginInput) (meta : RequestMeta)
      → Keeps now IsAdministered (require_factor deps u input meta)
  unfolding require_factor
  require-IsAdministered u input meta =
      Triple-clocked _ (go (verify_second_factor deps u input.totp now))
    where
      go :
          (r : Result (Unit {0}))
          → Keeps now IsAdministered (pass_or_fail deps input.username meta r)
      go (ok x) = Triple-pure tt (λ db p. p)
      go (err e) = fail-IsAdministered input.username meta e

  when-IsAdministered :
      (b : Bool) (m : Exec (Unit {0}))
      → Keeps now IsAdministered m
      → Keeps now IsAdministered (if b then m else pure tt)
  when-IsAdministered b m t = Triple-if b _ _ (λ _. t) (λ _. Triple-pure tt (λ db p. p))

  credentials-IsAdministered :
      (input : LoginInput) (meta : RequestMeta)
      → Keeps now IsAdministered (credentials deps input meta)
  unfolding credentials Repo.by_username
  credentials-IsAdministered input meta =
      Triple-bind _ _ (or_zero_user-IsAdministered _ (read-IsAdministered _)) λ u.
        Triple-lifted _ _ (λ e _ db p. p)
          λ _ _.
            Triple-bind _ _ (when-IsAdministered _ _ (fail-IsAdministered input.username meta _))
              λ _.
                Triple-bind _ _
                  (when-IsAdministered u.disabled _ (fail-IsAdministered input.username meta _))
                  λ _.
                    Triple-bind _ _
                      (when-IsAdministered u.totp_enabled _ (require-IsAdministered u input meta))
                      λ _. Triple-pure _ (λ db p. p)

  upgrade-IsAdministered :
      (u : User) (password : String) → Keeps now IsAdministered (upgrade_hash deps u password)
  unfolding upgrade_hash Repo.update_password
  upgrade-IsAdministered u password =
      Triple-if (needs_rehash deps.crypto u.password_hash) _ _
        (λ _. Triple-ignore _ (
          Triple-bind _ _ (hash_password-IsAdministered now deps os password)
            λ hash. Triple-clocked _ (quiet-IsAdministered u.id _ (λ w. (refl, refl, refl)))))
        (λ _. Triple-pure tt (λ db p. p))

  touch-IsAdministered : (id : String) (at : ℕ) → Keeps now IsAdministered (Repo.touch_login id at)
  unfolding Repo.touch_login
  touch-IsAdministered id at = quiet-IsAdministered id _ (λ w. (refl, refl, refl))

  pub login-IsAdministered :
      (input : LoginInput) (meta : RequestMeta) → Keeps now IsAdministered (login deps input meta)
  unfolding login record_success
  login-IsAdministered input meta = Triple-bind _ _ initialized-IsAdministered λ done.
      Triple-reject _ _ _ (λ _ db p. p)
        λ _. Triple-bind _ _ (check-Spares now HasAdmin HasAdmin (λ us p. p) deps meta.ip) λ status.
          Triple-reject _ _ _ (λ _ db p. p)
            λ _. Triple-bind _ _ (credentials-IsAdministered input meta) λ u.
              Triple-bind _ _
                (record_attempt-Spares now HasAdmin HasAdmin (λ us p. p) deps meta.ip input.username
                  true)
                λ _. Triple-bind _ _ (upgrade-IsAdministered u input.password) λ _.
                  Triple-clocked _ (
                    Triple-bind _ _ (touch-IsAdministered u.id now) λ _.
                      Triple-bind _ _ (pair-IsAdministered u meta) λ pair.
                        Triple-bind _ _ (event-IsAdministered meta _)
                          λ _. Triple-pure _ (λ db p. p))

  pub refresh-IsAdministered :
      (token : String) (meta : RequestMeta) → Keeps now IsAdministered (refresh deps token meta)
  unfolding refresh Sessions.by_refresh_hash Repo.by_id
  refresh-IsAdministered token meta =
      Triple-reject _ _ _ (λ _ db p. p)
        λ _. Triple-bind _ _ (Triple-rename _ _ (read-IsAdministered _)) λ session.
          Triple-clocked _ (
            Triple-reject _ _ _ (λ _ db p. p)
              λ _. Triple-bind _ _ (Triple-rename _ _ (read-IsAdministered _)) λ u.
                Triple-bind _ _
                  (when-IsAdministered u.disabled _
                    (Triple-ignore _ (revoke_all-Spares now HasAdmin HasAdmin (λ us p. p) u.id)))
                  λ _.
                    Triple-reject _ _ _ (λ _ db p. p)
                      λ _.
                        Triple-bind _ _
                          (session_revoke-Spares now HasAdmin HasAdmin (λ us p. p) session.id)
                          λ _. Triple-bind _ _ (pair-IsAdministered u meta) λ pair.
                            Triple-bind _ _ (event-IsAdministered meta _)
                              λ _. Triple-pure _ (λ db p. p))

  find_session-IsAdministered : (hash : String) → Keeps now IsAdministered (find_session hash)
  unfolding find_session Sessions.by_refresh_hash
  find_session-IsAdministered hash = record { at = λ w p. go _ _ ((read-IsAdministered _).at w p) }
    where
      go :
          (r : Result Session) (db : Db)
          → Outcome (λ _ d. IsAdministered d) (λ _ d. IsAdministered d) r db
          → Outcome (λ _ d. IsAdministered d) (λ _ d. IsAdministered d) (none_unless_found r) db
      go (ok s) db h = h
      go (err not_found) db h = h
      go (err _) db h = h

  end_session-IsAdministered :
      (identity : Identity) (meta : RequestMeta) (session : Option Session)
      → Keeps now IsAdministered (end_session deps identity meta session)
  unfolding end_session
  end_session-IsAdministered identity meta none = Triple-pure tt (λ db p. p)
  end_session-IsAdministered identity meta (some s) =
      Triple-bind _ _ (session_revoke-Spares now HasAdmin HasAdmin (λ us p. p) s.id)
        λ _. event-IsAdministered meta _

  pub logout-IsAdministered :
      (token : String) (identity : Identity) (meta : RequestMeta)
      → Keeps now IsAdministered (logout deps token identity meta)
  unfolding logout
  logout-IsAdministered token identity meta =
      Triple-if (deps.os.trim_space token == "") _ _ (λ _. Triple-pure tt (λ db p. p))
        λ _.
          Triple-bind _ _ (find_session-IsAdministered _)
            λ s. end_session-IsAdministered identity meta s

  authenticate_jwt-IsAdministered :
      (token : String) → Keeps now IsAdministered (authenticate_jwt deps token)
  unfolding authenticate_jwt Repo.by_id
  authenticate_jwt-IsAdministered token = Triple-clocked _ (
      Triple-lifted _ _ (λ e _ db p. p)
        λ claims _.
          Triple-bind _ _ (Triple-rename _ _ (read-IsAdministered _))
            λ u. Triple-reject _ _ _ (λ _ db p. p) λ _. Triple-pure _ (λ db p. p))

  authenticate_api_token-IsAdministered :
      (token : String) → Keeps now IsAdministered (authenticate_api_token deps token)
  unfolding authenticate_api_token Repo.by_id Tokens.by_hash
  authenticate_api_token-IsAdministered token =
      Triple-bind _ _ (Triple-rename _ _ (read-IsAdministered _)) λ stored. Triple-clocked _ (
        Triple-reject _ _ _ (λ _ db p. p)
          λ _. Triple-bind _ _ (Triple-rename _ _ (read-IsAdministered _)) λ u.
            Triple-reject _ _ _ (λ _ db p. p)
              λ _.
                Triple-bind _ _
                  (Triple-ignore _
                    (token_touch-Spares now HasAdmin HasAdmin (λ us p. p) stored.id now))
                  λ _. Triple-pure _ (λ db p. p))

  pub authenticate-IsAdministered :
      (credential : String) → Keeps now IsAdministered (authenticate deps credential)
  unfolding authenticate
  authenticate-IsAdministered credential =
      Triple-if (deps.os.trim_space credential == "") _ _ (λ _. Triple-raise _ (λ db p. p))
        λ _.
          Triple-if (is_api_token (deps.os.trim_space credential)) _ _
            (λ _. authenticate_api_token-IsAdministered (deps.os.trim_space credential))
            (λ _. authenticate_jwt-IsAdministered (deps.os.trim_space credential))
