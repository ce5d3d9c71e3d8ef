-- ===== src/Service/Users/Guard.antt =====
-- The guard of internal/service/users.go against losing the last admin, and what it leaves.
use iskele.Common.{
  ℕ, String, ◌≡◌, refl, Bool, true, false, not, Option, none, some, List, arith, any, any-perm,
  find, if◌then◌else◌,
}
use iskele.Store.{Db, Role, User, is_admin, valid_role}
use iskele.Store.Exec.{ok, err, not_found, last_admin, Exec, pure, reject_if}
use iskele.Store.Exec.Rules.{
  Outcome, Triple, Triple-pure, Triple-raise, Triple-statement, Triple-if, Triple-rename,
  Triple-bind, Triple-clocked, Triple-reject, Triple-choose,
}
use iskele.Store.Users as Repo
use iskele.Store.Users.{has_id, update_where, or_not_found, exec_update}
use iskele.Store.Platform.{IsOrdering}
use iskele.Service.{Deps}
use iskele.Service.Users.{get, is_other_admin, refuse_if_last_admin, change_role, role_eq}
use iskele.Service.Users.Admins.{
  is_enabled_admin, Distinct, disagrees, find-agrees, other_of_any, other-update, agrees-update,
  Distinct-update,
}

-- Ids are unique, and some enabled account is an admin.
pub record HasAdmin (us : List User) : Type 0 where
  pub distinct : Distinct us
  pub admin_left : any is_enabled_admin us ≡ true

abbrev pub IsAdministered : Db → Type 0
IsAdministered db = HasAdmin db.users

-- Every row under the account's id has its rank and state.
abbrev pub IsCurrent : User → Db → Type 0
IsCurrent u db = IsAdministered db × (any (disagrees u) db.users ≡ false)

abbrev pub Guarded : User → Db → Type 0
Guarded u db = IsCurrent u db × (any (is_other_admin u.id) db.users ≡ true)

-- A method that leaves the installation administered when it fails.
abbrev pub Leaves : {A : Type 0} → ℕ → (Db → Type 0) → Exec A → (A → Db → Type 0) → Type 0
Leaves now P m Q = Triple now P m Q (λ _ db. IsAdministered db)

found-IsCurrent :
    (id : String) (db : Db)
    → IsAdministered db
    → (o : Option User) → find (has_id id) db.users ≡ o
    → Outcome IsCurrent (λ _ d. IsAdministered d) (or_not_found o) db
found-IsCurrent id db p none e = p
found-IsCurrent id db p (some u) e = (p, find-agrees id u db.users p.distinct e)

role-IsCurrent :
    (u : User) (role : Role) (now : ℕ) (db : Db)
    → Guarded u db
    → IsCurrent
        (record u { role = role })
        (record db {
          users = update_where u.id (λ w. record w { role = role; updated_at = now }) db.users;
        })
role-IsCurrent u role now db (p, o) = (
  record {
    distinct = Distinct-update u.id _ (λ w. refl) db.users p.0.distinct;
    admin_left = other-update u.id _ db.users o;
  },
  agrees-update u (record u { role = role }) (λ w. record w { role = role; updated_at = now }) refl
      (λ w. refl) (λ w h. ground arith) db.users p.1,
)

module _ (now : ℕ) where
  -- `exec`, where the change keeps the invariant
  pub exec_update-Leaves :
      (P Q : Db → Type 0) (id : String) (f : User → User)
      → ((db : Db) → P db → Q (record db { users = update_where id f db.users }))
      → ((db : Db) → P db → IsAdministered db)
      → Leaves now P (exec_update id f) (λ _ db. Q db)
  unfolding exec_update
  exec_update-Leaves P Q id f h k =
      Triple-choose (λ db. any (has_id id) db.users)
        (λ db. (ok tt, record db { users = update_where id f db.users }))
        (λ db. (err not_found, db)) (λ db p _. h db p) (λ db p _. k db p) k

  pub get-IsCurrent : (id : String) → Leaves now IsAdministered (get id) IsCurrent
  unfolding get Repo.by_id
  get-IsCurrent id = Triple-rename _ _ (
      Triple-statement _ (λ db p. found-IsCurrent id db p (find (has_id id) db.users) refl)
        (λ db p. p))

module _ (now : ℕ) (deps : Deps) (os : IsOrdering deps.os) where
  refuse_none :
      (u : User) (all : List User)
      → Leaves now
          (λ db.
            (any (is_other_admin u.id) all ≡ any (is_other_admin u.id) db.users) × IsCurrent u db)
          (reject_if (not (any (is_other_admin u.id) all)) last_admin)
          (λ _ db. Guarded u db)
  unfolding reject_if
  refuse_none u all =
      Triple-if (not (any (is_other_admin u.id) all)) _ _
        (λ _. Triple-raise last_admin (λ db p. p.1.0))
        (λ e. Triple-pure tt (λ db p. (p.1, ground (arith, p.0))))

  refuse-Guarded :
      (u : User) → Leaves now (IsCurrent u) (refuse_if_last_admin deps u.id) (λ _ db. Guarded u db)
  unfolding refuse_if_last_admin Repo.list
  refuse-Guarded u =
      Triple-bind
        {Q = λ all db.
          (any (is_other_admin u.id) all ≡ any (is_other_admin u.id) db.users) × IsCurrent u db}
        _ _
        (Triple-statement _ (λ db p. (any-perm (is_other_admin u.id) (os.permutes db.users), p))
          (λ db p. p.0))
        (refuse_none u)

  -- the guard, taken where the account is an enabled admin
  pub guard-Guarded :
      (u : User) (b : Bool)
      → (b ≡ false → is_enabled_admin u ≡ false)
      → Leaves now
          (IsCurrent u)
          (if b then refuse_if_last_admin deps u.id else pure tt)
          (λ _ db. Guarded u db)
  guard-Guarded u b h =
      Triple-if b _ _ (λ _. refuse-Guarded u)
        (λ e. Triple-pure tt (λ db p. (p, other_of_any u db.users p.1 (h e) p.0.admin_left)))

  update_role-IsCurrent :
      (u : User) (role : Role)
      → valid_role role ≡ true
      → Leaves now
          (Guarded u)
          (Repo.update_role u.id role)
          (λ _ db. IsCurrent (record u { role = role }) db)
  unfolding Repo.update_role
  update_role-IsCurrent u role v = Triple-clocked _ (
      rw v (
        exec_update-Leaves now (Guarded u) (IsCurrent (record u { role = role })) u.id _
          (λ db p. role-IsCurrent u role now db p) (λ db p. p.0.0)))

  pub change_role-IsCurrent :
      (role : Option Role) (u : User) (b : Bool)
      → Leaves now (IsCurrent u) (change_role deps role (u, b)) (λ c db. IsCurrent c.0 db)
  unfolding change_role
  change_role-IsCurrent none u b = Triple-pure (u, b) (λ db p. p)
  change_role-IsCurrent (some role) u b =
      Triple-if (role_eq role u.role) _ _ (λ _. Triple-pure (u, b) (λ db p. p))
        (λ _.
          Triple-reject (not (valid_role role)) _ _ (λ _ db p. p.0)
            λ v. Triple-bind _ _ (guard-Guarded u (is_admin u.role) (λ e. ground arith)) λ _.
              Triple-bind _ _ (update_role-IsCurrent u role (ground arith))
                λ _. Triple-pure _ (λ db p. p))
