-- ===== src/Service/Users/Changes.antt =====
-- The parts of an update in internal/service/users.go keep an enabled admin.
use iskele.Common.{
  ℕ, String, ◌≡◌, refl, ap, Bool, true, false, ◌&&◌, Option, none, some, arith, ◌==◌, if◌then◌else◌,
}
use iskele.Store.{User, is_admin}
use iskele.Store.Exec.{pure}
use iskele.Store.Exec.Rules.{
  Triple-pure, Triple-statement, Triple-if, Triple-bind, Triple-clocked, Triple-drawn,
  Triple-lifted,
}
use iskele.Store.Users as Repo
use iskele.Store.Users.{has_id, update_where, or_not_found, exec_update}
use iskele.Store.Sessions
use iskele.Store.Platform.{IsOrdering}
use iskele.Service.{Deps}
use iskele.Service.Users.{
  refuse_if_last_admin, revoke_sessions, change_disabled, change_password, bool_eq,
}
use iskele.Service.Users.Admins.{other-update, any-update, agrees-update, Distinct-update}
use iskele.Auth.Password.{hash_password}
use iskele.Service.Users.Guard.{IsCurrent, Guarded, Leaves, exec_update-Leaves, guard-Guarded}

module _ (now : ℕ) (deps : Deps) (os : IsOrdering deps.os) where
  -- turning an account on or off, with the guard taken only where it is turned off
  disabled-IsCurrent :
      (u : User) (disabled : Bool)
      → bool_eq disabled u.disabled ≡ false
      → Leaves now
          (if disabled then Guarded u else IsCurrent u)
          (Repo.set_disabled u.id disabled)
          (λ _ db. IsCurrent (record u { disabled = disabled }) db)
  unfolding Repo.set_disabled
  disabled-IsCurrent u true e = Triple-clocked _ (
      exec_update-Leaves now (Guarded u) (IsCurrent (record u { disabled = true })) u.id _
        (λ db (p, o). (
          record {
            distinct = Distinct-update u.id _ (λ w. refl) db.users p.0.distinct;
            admin_left = other-update u.id _ db.users o;
          },
          agrees-update u (record u { disabled = true })
              (λ w. record w { disabled = true; updated_at = now }) refl (λ w. refl)
              (λ w h. ground arith) db.users p.1,
        ))
        (λ db p. p.0.0))
  disabled-IsCurrent u false e = Triple-clocked _ (
      exec_update-Leaves now (IsCurrent u) (IsCurrent (record u { disabled = false })) u.id _
        (λ db p. (
          record {
            distinct = Distinct-update u.id _ (λ w. refl) db.users p.0.distinct;
            admin_left = any-update u.id _ (λ w h. ground arith) db.users p.0.admin_left;
          },
          agrees-update u (record u { disabled = false })
              (λ w. record w { disabled = false; updated_at = now }) refl (λ w. refl)
              (λ w h. ground arith) db.users p.1,
        ))
        (λ db p. p.0))

  pub revoke_sessions-IsCurrent :
      (u : User) (id : String)
      → Leaves now (IsCurrent u) (revoke_sessions deps id) (λ _ db. IsCurrent u db)
  unfolding revoke_sessions Sessions.revoke_all_for_user
  revoke_sessions-IsCurrent u id =
      Triple-if deps.has_sessions _ _
        (λ _. Triple-clocked _ (Triple-statement _ (λ db p. p) (λ db p. p.0)))
        (λ _. Triple-pure tt (λ db p. p))

  guard_disabled :
      (u : User) (disabled : Bool)
      → bool_eq disabled u.disabled ≡ false
      → Leaves now
          (IsCurrent u)
          (if disabled && is_admin u.role then refuse_if_last_admin deps u.id else pure tt)
          (λ _ db. (if disabled then Guarded u else IsCurrent u) db)
  guard_disabled u true e = guard-Guarded now deps os u (is_admin u.role) (λ h. ground arith)
  guard_disabled u false e = Triple-pure tt (λ db p. p)

  pub change_disabled-IsCurrent :
      (disabled : Option Bool) (u : User) (b : Bool)
      → Leaves now (IsCurrent u) (change_disabled deps disabled (u, b)) (λ c db. IsCurrent c.0 db)
  unfolding change_disabled
  change_disabled-IsCurrent none u b = Triple-pure (u, b) (λ db p. p)
  change_disabled-IsCurrent (some disabled) u b =
      Triple-if (bool_eq disabled u.disabled) _ _ (λ _. Triple-pure (u, b) (λ db p. p))
        (λ e. Triple-bind _ _ (guard_disabled u disabled e) λ _.
          Triple-bind _ _ (disabled-IsCurrent u disabled e) λ _.
            Triple-bind _ _
              (Triple-if disabled _ _
                (λ _. revoke_sessions-IsCurrent (record u { disabled = disabled }) u.id)
                (λ _. Triple-pure tt (λ db p. p)))
              λ _. Triple-pure _ (λ db p. p))

  hash_password-IsCurrent :
      (u : User) (password : String)
      → Leaves now (IsCurrent u) (hash_password deps.crypto password) (λ _ db. IsCurrent u db)
  unfolding hash_password
  hash_password-IsCurrent u password = Triple-drawn _ (λ db p. p.0) (λ s. Triple-pure _ (λ db p. p))

  -- a change of neither rank nor state
  pub quiet-IsCurrent :
      (u : User) (f : User → User)
      → ((w : User) → ((f w).id ≡ w.id) × ((f w).role ≡ w.role) × ((f w).disabled ≡ w.disabled))
      → Leaves now (IsCurrent u) (exec_update u.id f) (λ _ db. IsCurrent u db)
  quiet-IsCurrent u f quiet =
      exec_update-Leaves now (IsCurrent u) (IsCurrent u) u.id f
        (λ db p. (
          record {
            distinct = Distinct-update u.id f (λ w. (quiet w).0) db.users p.0.distinct;
            admin_left =
                any-update u.id f (λ w h. ground (arith, quiet w, ap is_admin (quiet w).1)) db.users
                  p.0.admin_left;
          },
          agrees-update u u f refl (λ w. (quiet w).0)
              (λ w h.
                ground (arith, quiet w, ap is_admin (quiet w).1, ap (λ i. i == u.id) (quiet w).0))
              db.users p.1,
        ))
        (λ db p. p.0)

  pub change_password-IsCurrent :
      (password : Option String) (u : User) (b : Bool)
      → Leaves now (IsCurrent u) (change_password deps password (u, b)) (λ c db. IsCurrent c.0 db)
  unfolding change_password Repo.update_password
  change_password-IsCurrent none u b = Triple-pure (u, b) (λ db p. p)
  change_password-IsCurrent (some password) u b =
      Triple-lifted _ _ (λ e h db p. p.0)
        λ _ _. Triple-bind _ _ (hash_password-IsCurrent u password) λ hash.
          Triple-bind _ _ (Triple-clocked _ (quiet-IsCurrent u _ (λ w. (refl, refl, refl))))
            λ _. Triple-bind _ _ (revoke_sessions-IsCurrent u u.id) λ _. Triple-pure _ (λ db p. p)
