-- ===== src/Store/Users.antt =====
-- internal/store/users.go: the repository of accounts. `username_lower` is not a field, since it
-- is always the lowered `username`.
use iskele.Common.{
  ℕ, String, Bool, ◌||◌, Option, none, some, List, [], ◌∷◌, ◌++◌, any, find, select, length, not,
  ◌==◌, if◌then◌else◌,
}
use iskele.Store.{User, Role, valid_role, is_zero}
use iskele.Store.Exec.{
  Result, ok, err, db_failure, not_found, conflict, Exec, statement, clock, ◌>>=◌,
}
use iskele.Store.Platform.{Platform}

-- Count
unfoldable pub count : Exec ℕ
count = statement (λ db. (ok (length db.users), db))

-- the stamps that `Create` sets
unfoldable pub stamped : ℕ → User → User
stamped now u = record u {
  created_at = if is_zero u.created_at then now else u.created_at;
  updated_at = now;
}

-- the UPDATE of one row, and what `exec` makes of the number of rows affected
abbrev pub update_where : String → (User → User) → List User → List User
update_where id f [] = []
update_where id f (u ∷ us) = (if u.id == id then f u else u) ∷ update_where id f us

abbrev pub has_id : String → User → Bool
has_id id u = u.id == id

unfoldable pub exec_update : String → (User → User) → Exec (Unit {0})
exec_update id f = statement λ db.
    if any (has_id id) db.users
    then (ok tt, record db { users = update_where id f db.users })
    else (err not_found, db)

-- UpdatePassword
unfoldable pub update_password : String → String → Exec (Unit {0})
update_password id hash = do
  now ← clock
  exec_update id (λ u. record u { password_hash = hash; updated_at = now })

-- UpdateRole. The CHECK of the column refuses an unknown role where a row would take it.
unfoldable pub update_role : String → Role → Exec (Unit {0})
update_role id role = do
  now ← clock
  if valid_role role
      then exec_update id (λ u. record u { role = role; updated_at = now })
      else statement (λ db. (err (if any (has_id id) db.users then db_failure else not_found), db))

-- SetDisabled
unfoldable pub set_disabled : String → Bool → Exec (Unit {0})
set_disabled id disabled = do
  now ← clock
  exec_update id (λ u. record u { disabled = disabled; updated_at = now })

-- SetTOTP
unfoldable pub set_totp : String → String → Bool → Exec (Unit {0})
set_totp id secret_enc enabled = do
  now ← clock
  exec_update id
      (λ u. record u { totp_secret_enc = secret_enc; totp_enabled = enabled; updated_at = now })

-- TouchLogin
unfoldable pub touch_login : String → ℕ → Exec (Unit {0})
touch_login id at = exec_update id (λ u. record u { last_login_at = at })

-- Delete; the sessions and the tokens of the account go with it (ON DELETE CASCADE).
unfoldable pub delete : String → Exec (Unit {0})
delete id = statement λ db.
    if any (has_id id) db.users
    then (
      ok tt,
      record db {
        users = select (λ u. not (u.id == id)) db.users;
        sessions = select (λ s. not (s.user_id == id)) db.sessions;
        tokens = select (λ t. not (t.token.user_id == id)) db.tokens;
      },
    )
    else (err not_found, db)

-- a row, or the error that `scanOne` makes of its absence
abbrev pub or_not_found : {A : Type 0} → Option A → Result A
or_not_found none = err not_found
or_not_found (some a) = ok a

-- ByID
unfoldable pub by_id : String → Exec User
by_id id = statement (λ db. (or_not_found (find (has_id id) db.users), db))

module _ (os : Platform) where
  -- the columns that are PRIMARY KEY or UNIQUE
  abbrev pub clashes : User → User → Bool
  clashes u v = v.id == u.id || os.to_lower v.username == os.to_lower u.username

  -- Create
  unfoldable pub create : User → Exec (Unit {0})
  unfolding stamped
  create u = do
    now ← clock
    statement λ db.
        if not (valid_role u.role)
        then (err db_failure, db)
        else if any (clashes u) db.users
        then (err conflict, db)
        else (ok tt, record db { users = db.users ++ stamped now u ∷ [] })

  -- ByUsername
  abbrev pub named : String → User → Bool
  named username u = os.to_lower u.username == os.to_lower (os.trim_space username)

  unfoldable pub by_username : String → Exec User
  by_username username = statement (λ db. (or_not_found (find (named username) db.users), db))

  -- List
  unfoldable pub list : Exec (List User)
  list = statement (λ db. (ok (os.order_by_created db.users), db))
