-- ===== src/Service/Users/LastAdmin.antt =====
-- An administered installation stays administered through every operation of
-- internal/service/users.go, whatever statements fail.
use iskele.Common.{
  ℕ, String, ◌≡◌, refl, ◌∙◌, Bool, true, false, not, List, [], ◌∷◌, ◌++◌, arith, any, any-append,
  ◌==◌,
}
use iskele.Store.{Role, User, is_admin, valid_role}
use iskele.Store.Exec.{ok, err, db_failure, not_found, conflict}
use iskele.Store.Exec.Rules.{
  Outcome-if, Triple, Triple-pure, Triple-if, Triple-weaken, Triple-rename, Triple-bind,
  Triple-clocked, Triple-drawn, Triple-lifted, Triple-reject, Triple-choose, Keeps,
}
use iskele.Store.Users as Repo
use iskele.Store.Users.{has_id, update_where, or_not_found, exec_update, stamped, clashes}
use iskele.Store.Platform.{IsOrdering, Platform}
use iskele.Auth.Password.{hash_password}
use iskele.Auth.SecretBox.{encrypt}
use iskele.Auth.Totp.{new_totp_secret}
use iskele.Service.{Deps, RequestMeta, Identity}
use iskele.Service.Users.{
  new_user, is_other_admin, hide_not_found, create, update, delete, begin_totp, confirm_totp,
  disable_totp, reset_totp, record_action, UpdateInput, revoke_sessions,
}
use iskele.Service.Users.Admins.{
  is_enabled_admin, disagrees, other-select, Distinct-select, Distinct-append,
}
use iskele.Service.Users.Guard.{
  HasAdmin, IsAdministered, IsCurrent, Guarded, Leaves, get-IsCurrent, guard-Guarded,
  change_role-IsCurrent,
}
use iskele.Service.Users.Changes.{
  quiet-IsCurrent, revoke_sessions-IsCurrent, change_disabled-IsCurrent, change_password-IsCurrent,
}
use iskele.Service.Untouched.{record_event-Spares, revoke_all-Spares}

-- inserting a row leaves the rows that were there
inserted-HasAdmin :
    (os : Platform) (u : User) (now : ℕ) (us : List User)
    → any (clashes os u) us ≡ false
    → HasAdmin us
    → HasAdmin (us ++ stamped now u ∷ [])
unfolding stamped
inserted-HasAdmin os u now us fresh h = record {
  distinct = Distinct-append us _ (unclashed us fresh) h.distinct;
  admin_left = any-append is_enabled_admin us _ ∙ ground (arith, h.admin_left);
}
  where
    unclashed : (vs : List User) → any (clashes os u) vs ≡ false → any (has_id u.id) vs ≡ false
    unclashed [] e = refl
    unclashed (v ∷ vs) e = ground (arith, unclashed vs)

module _ (now : ℕ) (deps : Deps) (os : IsOrdering deps.os) where
  action-IsCurrent :
      (u : User) (meta : RequestMeta) (actor : Identity) (action : String) (subject : User)
      → Leaves now
          (IsCurrent u)
          (record_action deps meta actor action subject)
          (λ _ db. IsCurrent u db)
  unfolding record_action
  action-IsCurrent u meta actor action subject =
      record_event-Spares now (λ us. HasAdmin us × (any (disagrees u) us ≡ false)) HasAdmin
        (λ us p. p.0) deps meta _

  action-IsAdministered :
      (meta : RequestMeta) (actor : Identity) (action : String) (subject : User)
      → Keeps now IsAdministered (record_action deps meta actor action subject)
  unfolding record_action
  action-IsAdministered meta actor action subject =
      record_event-Spares now HasAdmin HasAdmin (λ us p. p) deps meta _

  pub repo_create-IsAdministered : (u : User) → Keeps now IsAdministered (Repo.create deps.os u)
  unfolding Repo.create
  repo_create-IsAdministered u = Triple-clocked _ (
      Triple-choose (λ db. not (valid_role u.role)) (λ db. (err db_failure, db)) _ (λ db p _. p)
        (λ db p _.
          Outcome-if _ _ (any (clashes deps.os u) db.users) (err conflict, db)
            (ok tt, record db { users = db.users ++ stamped now u ∷ [] }) (λ _. p)
            (λ fresh. inserted-HasAdmin deps.os u now db.users fresh p))
        (λ db p. p))

  pub hash_password-IsAdministered :
      (password : String) → Keeps now IsAdministered (hash_password deps.crypto password)
  unfolding hash_password
  hash_password-IsAdministered password =
      Triple-drawn _ (λ db p. p) (λ s. Triple-pure _ (λ db p. p))

  pub create-IsAdministered :
      (name password : String) (role : Role) (actor : Identity) (meta : RequestMeta)
      → Keeps now IsAdministered (create deps name password role actor meta)
  unfolding create
  create-IsAdministered name password role actor meta =
      Triple-reject _ _ _ (λ _ db p. p)
        λ _.
          Triple-reject _ _ _ (λ _ db p. p)
            λ _.
              Triple-lifted _ _ (λ e _ db p. p)
                λ _ _. Triple-bind _ _ (hash_password-IsAdministered password) λ hash.
                  Triple-drawn _ (λ db p. p)
                    λ id. Triple-clocked _ (
                      Triple-bind _ _ (Triple-rename _ _ (repo_create-IsAdministered _)) λ _.
                        Triple-bind _ _
                          (action-IsAdministered meta actor "user.create"
                            (new_user id (deps.os.trim_space name) role hash now))
                          λ _. Triple-pure _ (λ db p. p))

  set_totp-IsCurrent :
      (u : User) (secret : String) (enabled : Bool)
      → Leaves now (IsCurrent u) (Repo.set_totp u.id secret enabled) (λ _ db. IsCurrent u db)
  unfolding Repo.set_totp
  set_totp-IsCurrent u secret enabled =
      Triple-clocked _ (quiet-IsCurrent now deps os u _ (λ w. (refl, refl, refl)))

  settled :
      (u : User) (meta : RequestMeta) (actor : Identity) (action : String)
      → Triple now
          (IsCurrent u)
          (record_action deps meta actor action u)
          (λ _ db. IsAdministered db)
          (λ _ db. IsAdministered db)
  settled u meta actor action =
      Triple-weaken _ (λ db p. p) (λ _ db p. p.0) (λ _ db p. p)
        (action-IsCurrent u meta actor action u)

  pub begin_totp-IsAdministered :
      (actor : Identity) (meta : RequestMeta)
      → Keeps now IsAdministered (begin_totp deps actor meta)
  unfolding begin_totp new_totp_secret encrypt
  begin_totp-IsAdministered actor meta =
      Triple-reject _ _ _ (λ _ db p. p)
        λ _. Triple-bind _ _ (get-IsCurrent now actor.user_id) λ u.
          Triple-reject _ _ _ (λ _ db p. p.0)
            λ _.
              Triple-bind _ _ (Triple-drawn _ (λ db p. p.0) (λ s. Triple-pure _ (λ db p. p)))
                λ secret.
                  Triple-bind _ _
                    (Triple-if (secret == "") _ _ (λ _. Triple-pure _ (λ db p. p))
                      (λ _. Triple-drawn _ (λ db p. p.0) (λ s. Triple-pure _ (λ db p. p))))
                    λ encrypted. Triple-bind _ _ (set_totp-IsCurrent u encrypted false) λ _.
                      Triple-bind _ _ (action-IsCurrent u meta actor "user.totp_begin" u)
                        λ _. Triple-pure _ (λ db p. p.0)

  pub confirm_totp-IsAdministered :
      (code : String) (actor : Identity) (meta : RequestMeta)
      → Keeps now IsAdministered (confirm_totp deps code actor meta)
  unfolding confirm_totp
  confirm_totp-IsAdministered code actor meta =
      Triple-reject _ _ _ (λ _ db p. p)
        λ _. Triple-bind _ _ (get-IsCurrent now actor.user_id) λ u.
          Triple-reject _ _ _ (λ _ db p. p.0)
            λ _.
              Triple-reject _ _ _ (λ _ db p. p.0)
                λ _.
                  Triple-lifted _ _ (λ e _ db p. p.0)
                    λ secret _. Triple-clocked _ (
                      Triple-lifted _ _ (λ e _ db p. p.0)
                        λ _ _.
                          Triple-bind _ _ (set_totp-IsCurrent u u.totp_secret_enc true)
                            λ _. settled u meta actor "user.totp_enable")

  -- An update never leaves the installation without an enabled admin, whether it returns, is
  -- refused, or fails at any of its statements: a role is changed, an account disabled or a
  -- password reset only where another enabled admin stays.
  pub update-IsAdministered :
      (id : String) (input : UpdateInput) (actor : Identity) (meta : RequestMeta)
      → Keeps now IsAdministered (update deps id input actor meta)
  unfolding update
  update-IsAdministered id input actor meta = Triple-bind _ _ (get-IsCurrent now id) λ u.
      Triple-bind _ _ (change_role-IsCurrent now deps os input.role u false) λ a.
        Triple-bind _ _ (change_disabled-IsCurrent now deps os input.disabled a.0 a.1) λ b.
          Triple-bind _ _ (change_password-IsCurrent now deps os input.password b.0 b.1) λ c.
            Triple-bind _ _
              (Triple-if c.1 _ _ (λ _. action-IsCurrent c.0 meta actor "user.update" c.0)
                (λ _. Triple-pure tt (λ db p. p)))
              λ _. Triple-pure _ (λ db p. p.0)

  pub disable_totp-IsAdministered :
      (code : String) (actor : Identity) (meta : RequestMeta)
      → Keeps now IsAdministered (disable_totp deps code actor meta)
  unfolding disable_totp
  disable_totp-IsAdministered code actor meta =
      Triple-reject _ _ _ (λ _ db p. p)
        λ _. Triple-bind _ _ (get-IsCurrent now actor.user_id) λ u.
          Triple-if (not u.totp_enabled) _ _ (λ _. Triple-pure tt (λ db p. p.0))
            λ _.
              Triple-lifted _ _ (λ e _ db p. p.0)
                λ secret _. Triple-clocked _ (
                  Triple-lifted _ _ (λ e _ db p. p.0)
                    λ _ _.
                      Triple-bind _ _ (set_totp-IsCurrent u "" false)
                        λ _. settled u meta actor "user.totp_disable")

  pub reset_totp-IsAdministered :
      (id : String) (actor : Identity) (meta : RequestMeta)
      → Keeps now IsAdministered (reset_totp deps id actor meta)
  unfolding reset_totp
  reset_totp-IsAdministered id actor meta = Triple-bind _ _ (get-IsCurrent now id) λ u.
      Triple-reject _ _ _ (λ _ db p. p.0)
        λ _. Triple-bind _ _ (set_totp-IsCurrent u "" false) λ _.
          Triple-bind _ _ (revoke_sessions-IsCurrent now deps os u u.id)
            λ _. settled u meta actor "user.totp_reset"

  repo_delete-IsAdministered :
      (u : User) → Leaves now (Guarded u) (Repo.delete u.id) (λ _ db. IsAdministered db)
  unfolding Repo.delete
  repo_delete-IsAdministered u =
      Triple-choose (λ db. any (has_id u.id) db.users) _ (λ db. (err not_found, db))
        (λ db p _. record {
          distinct = Distinct-select (λ v. not (v.id == u.id)) db.users p.0.0.distinct;
          admin_left = other-select u.id db.users p.1;
        })
        (λ db p _. p.0.0) (λ db p. p.0.0)

  revoke_sessions-Guarded :
      (u : User) → Leaves now (Guarded u) (revoke_sessions deps u.id) (λ _ db. Guarded u db)
  unfolding revoke_sessions
  revoke_sessions-Guarded u =
      Triple-if deps.has_sessions _ _
        (λ _.
          revoke_all-Spares now
            (λ us.
              (HasAdmin us × (any (disagrees u) us ≡ false))
              × (any (is_other_admin u.id) us ≡ true))
            HasAdmin (λ us p. p.0.0) u.id)
        (λ _. Triple-pure tt (λ db p. p))

  -- Deleting an account never removes the last enabled admin, at whatever statement it stops.
  pub delete-IsAdministered :
      (id : String) (actor : Identity) (meta : RequestMeta)
      → Keeps now IsAdministered (delete deps id actor meta)
  unfolding delete
  delete-IsAdministered id actor meta = Triple-bind _ _ (get-IsCurrent now id) λ u.
      Triple-reject _ _ _ (λ _ db p. p.0)
        λ _.
          Triple-bind _ _ (guard-Guarded now deps os u (is_admin u.role) (λ e. ground arith)) λ _.
            Triple-bind _ _ (revoke_sessions-Guarded u) λ _.
              Triple-bind _ _ (Triple-rename hide_not_found _ (repo_delete-IsAdministered u))
                λ _. action-IsAdministered meta actor "user.delete" u
