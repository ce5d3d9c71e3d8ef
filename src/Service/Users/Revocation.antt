-- ===== src/Service/Users/Revocation.antt =====
-- What internal/service/users.go does to the sessions of an account whose rights it cuts.
use iskele.Common.{
  ℕ, String, ◌≡◌, ◌≢◌, refl, sym, subst, Bool, true, false, ◌&&◌, Option, none, some, List, [], ◌∷◌,
  arith, any, find, ◌==◌, eq_iff, Bool-cases, inl, inr,
}
use iskele.Store.{Db, User, Session, is_zero}
use iskele.Store.Exec.{Result, ok, err, World}
use iskele.Store.Exec.Rules.{
  Outcome, Outcome-found, Triple-pure, Triple-statement, Triple-if, Triple-rename, Triple-bind,
  Triple-ignore, Triple-clocked, Triple-reject, Triple-any,
}
use iskele.Store.Exec.Facts.{Returns, known}
use iskele.Store.Users as Repo
use iskele.Store.Users.{has_id}
use iskele.Store.Sessions
use iskele.Store.Sessions.{revoke_where}
use iskele.Service.{Deps, RequestMeta, Identity}
use iskele.Service.Audit.{Event, record_event}
use iskele.Service.Users.{
  Change, UpdateInput, get, change_role, change_disabled, change_password, update, reset_totp,
  revoke_sessions, record_action, role_eq, bool_eq,
}

-- a session of the account that has not been revoked
abbrev pub is_open : String → Session → Bool
is_open id s = s.user_id == id && is_zero s.revoked_at

abbrev pub IsCutOff : String → Db → Type 0
IsCutOff id db = any (is_open id) db.sessions ≡ false

revoked-IsCutOff :
    (id : String) (now : ℕ) (ss : List Session)
    → now ≢ 0
    → any (is_open id) (revoke_where (λ s. s.user_id == id) now ss) ≡ false
revoked-IsCutOff id now [] ne = refl
revoked-IsCutOff id now (s ∷ ss) ne = ground (arith, revoked-IsCutOff id now ss ne, ne)

module _ (now : ℕ) (deps : Deps) (ne : now ≢ 0) (kept : deps.has_sessions ≡ true) where
  revoke-IsCutOff :
      {P : Db → Type 0} (id : String)
      → Returns now P (revoke_sessions deps id) (λ _ db. IsCutOff id db)
  unfolding revoke_sessions Sessions.revoke_all_for_user
  revoke-IsCutOff id =
      Triple-if deps.has_sessions _ _
        (λ _.
          Triple-clocked _
            (Triple-statement _ (λ db p. revoked-IsCutOff id now db.sessions ne) (λ db p. tt)))
        (λ off. Triple-pure tt (λ db p. cc (off, kept)))

  event-IsCutOff :
      (id : String) (meta : RequestMeta) (e : Event)
      → Returns now (IsCutOff id) (record_event deps meta e) (λ _ db. IsCutOff id db)
  unfolding record_event
  event-IsCutOff id meta e =
      Triple-if deps.has_recorder _ _
        (λ _. Triple-ignore _ (Triple-clocked _ (Triple-statement _ (λ db p. p) (λ db p. p))))
        (λ _. Triple-pure tt (λ db p. p))

  get-own_id : (id : String) → Returns now (λ _. Unit {0}) (get id) (λ u _. u.id ≡ id)
  unfolding get Repo.by_id
  get-own_id id = Triple-rename _ _ (
      Triple-statement _
        (λ db p.
          Outcome-found _ _ (find (has_id id) db.users) db (λ _. tt) (λ u e. own_id db.users u e))
        (λ db p. tt))
    where
      own_id : (l : List User) (u : User) → find (has_id id) l ≡ some u → u.id ≡ id
      own_id [] u e = cc
      own_id (v ∷ l) u e = elim (Bool-cases (v.id == id)) [
        | inl same ↦ ground (arith, same, e, (eq_iff v.id id).0 same)
        | inr other ↦ own_id l u (ground arith)
      ]

  change_role-own_id :
      (role : Option _) (c : Change) (id : String)
      → c.0.id ≡ id
      → Returns now (λ _. Unit {0}) (change_role deps role c) (λ d _. d.0.id ≡ id)
  unfolding change_role
  change_role-own_id none c id e = Triple-pure _ (λ db p. e)
  change_role-own_id (some role) (u, changed) id e =
      Triple-if (role_eq role u.role) _ _ (λ _. Triple-pure _ (λ db p. e))
        λ _. Triple-bind _ _ (Triple-any _) λ _.
          Triple-bind _ _ (Triple-any _)
            λ _. Triple-bind _ _ (Triple-any _) λ _. Triple-pure _ (λ db p. e)

  change_disabled-own_id :
      (disabled : Option Bool) (c : Change) (id : String)
      → c.0.id ≡ id
      → Returns now (λ _. Unit {0}) (change_disabled deps disabled c) (λ d _. d.0.id ≡ id)
  unfolding change_disabled
  change_disabled-own_id none c id e = Triple-pure _ (λ db p. e)
  change_disabled-own_id (some disabled) (u, changed) id e =
      Triple-if (bool_eq disabled u.disabled) _ _ (λ _. Triple-pure _ (λ db p. e))
        λ _. Triple-bind _ _ (Triple-any _) λ _.
          Triple-bind _ _ (Triple-any _)
            λ _. Triple-bind _ _ (Triple-any _) λ _. Triple-pure _ (λ db p. e)

  change_password-IsCutOff :
      (password : String) (c : Change)
      → Returns now
          (λ _. Unit {0})
          (change_password deps (some password) c)
          (λ _ db. IsCutOff c.0.id db)
  unfolding change_password
  change_password-IsCutOff password (u, changed) = Triple-bind _ _ (Triple-any _) λ _.
      Triple-bind _ _ (Triple-any _) λ hash.
        Triple-bind _ _ (Triple-any _)
          λ _. Triple-bind _ _ (revoke-IsCutOff u.id) λ _. Triple-pure _ (λ db p. p)

  update-Returns :
      (id password : String) (input : UpdateInput) (actor : Identity) (meta : RequestMeta)
      → input.password ≡ some password
      → Returns now (λ _. Unit {0}) (update deps id input actor meta) (λ _ db. IsCutOff id db)
  unfolding update record_action
  update-Returns id password input actor meta e = Triple-bind _ _ (get-own_id id) λ u.
      known _ λ own. Triple-bind _ _ (change_role-own_id input.role (u, false) id own) λ a.
        known _ λ own_a. Triple-bind _ _ (change_disabled-own_id input.disabled a id own_a) λ b.
          known _ λ own_b.
            Triple-bind _ _
              (subst
                (λ o.
                  Returns now (λ _. Unit {0}) (change_password deps o b) (λ _ db. IsCutOff id db))
                (sym e)
                (subst
                  (λ k.
                    Returns now (λ _. Unit {0}) (change_password deps (some password) b)
                      (λ _ db. IsCutOff k db))
                  own_b (change_password-IsCutOff password b)))
              λ c.
                Triple-bind _ _
                  (Triple-if c.1 _ _ (λ _. event-IsCutOff id meta _)
                    (λ _. Triple-pure tt (λ db p. p)))
                  λ _. Triple-pure _ (λ db p. p)

  reset-Returns :
      (id : String) (actor : Identity) (meta : RequestMeta)
      → Returns now (λ _. Unit {0}) (reset_totp deps id actor meta) (λ _ db. IsCutOff id db)
  unfolding reset_totp record_action
  reset-Returns id actor meta = Triple-bind _ _ (get-own_id id) λ u. known _ λ own.
      Triple-reject _ _ _ (λ _ db p. tt)
        λ _. Triple-bind _ _ (Triple-any _) λ _.
          Triple-bind _ _
            (subst
              (λ k. Returns now (λ _. Unit {0}) (revoke_sessions deps u.id) (λ _ db. IsCutOff k db))
              own (revoke-IsCutOff u.id))
            λ _. event-IsCutOff id meta _

left :
    {A : Type 0} (id : String) (r : Result A) (db : Db) (a : A)
    → Outcome (λ _ d. IsCutOff id d) (λ _ _. Unit {0}) r db
    → r ≡ ok a
    → IsCutOff id db
left id (ok x) db a h e = h
left id (err x) db a h e = cc

-- An update that set a password and returned leaves no open session of the account, whoever asked
-- for it and whatever else it changed (sessions are kept, and the clock does not show zero).
pub update-IsCutOff :
    (deps : Deps) (id password : String) (input : UpdateInput) (actor : Identity)
    (meta : RequestMeta) (now : ℕ) (w : World) (user : User)
    → now ≢ 0
    → deps.has_sessions ≡ true
    → input.password ≡ some password
    → (update deps id input actor meta now w).0 ≡ ok user
    → IsCutOff id (update deps id input actor meta now w).1.db
update-IsCutOff deps id password input actor meta now w user ne kept e h =
    left id _ _ user ((update-Returns now deps ne kept id password input actor meta e).at w tt) h

-- A reset of a second factor that returned leaves no open session of the account.
pub reset_totp-IsCutOff :
    (deps : Deps) (id : String) (actor : Identity) (meta : RequestMeta) (now : ℕ) (w : World)
    → now ≢ 0
    → deps.has_sessions ≡ true
    → (reset_totp deps id actor meta now w).0 ≡ ok tt
    → IsCutOff id (reset_totp deps id actor meta now w).1.db
reset_totp-IsCutOff deps id actor meta now w ne kept h =
    left id _ _ tt ((reset-Returns now deps ne kept id actor meta).at w tt) h
