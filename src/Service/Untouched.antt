-- ===== src/Service/Untouched.antt =====
-- The methods of internal/service and internal/auth that write no row of `users`.
use iskele.Common.{ℕ, String, ◌≡◌, sym, subst, arith, Bool, false, List, ltb}
use iskele.Store.{Db, User, Session}
use iskele.Store.Exec.{Error, Result, ok, err, Exec, statement}
use iskele.Store.Exec.Rules.{
  Outcome, Triple, Triple-pure, Triple-raise, Triple-statement, Triple-if, Triple-bind,
  Triple-ignore, Triple-clocked, Triple-drawn, Triple-lifted,
}
use iskele.Store.Sessions
use iskele.Store.Tokens
use iskele.Store.Logins.{record_attempt, failures_since, last_failure_at}
use iskele.Auth.Jwt
use iskele.Auth.Limiter.{check, record_failure}
use iskele.Service.{Deps, RequestMeta}
use iskele.Service.Audit.{Event, record_event}
use iskele.Service.Auth.{issue_pair, fail_login}

-- `m` keeps what `P` says of the accounts, and leaves `E` of them when it fails.
abbrev pub Spares : {A : Type 0} → ℕ → (List User → Type 0) → (List User → Type 0) → Exec A → Type 0
Spares now P E m = Triple now (λ db. P db.users) m (λ _ db. P db.users) (λ _ db. E db.users)

module _ (now : ℕ) (P E : List User → Type 0) (weaken : (us : List User) → P us → E us) where
  pub read-Spares : {A : Type 0} (f : Db → Result A) → Spares now P E (statement (λ db. (f db, db)))
  read-Spares f = Triple-statement _ (λ db p. go db (f db) p) (λ db p. weaken db.users p)
    where
      go :
          {A : Type 0} (db : Db) (r : Result A)
          → P db.users
          → Outcome (λ _ d. P d.users) (λ _ d. E d.users) r db
      go db (ok a) p = p
      go db (err e) p = weaken db.users p

  pub write-Spares :
      {A : Type 0} (f : Db → Result A × Db)
      → ((db : Db) → (f db).1.users ≡ db.users)
      → Spares now P E (statement f)
  write-Spares {A} f same =
      Triple-statement _ (λ db p. go (f db).0 (f db).1 (subst P (sym (same db)) p))
        (λ db p. weaken db.users p)
    where
      go :
          (r : Result A) (db : Db) → P db.users → Outcome (λ _ d. P d.users) (λ _ d. E d.users) r db
      go (ok a) db p = p
      go (err e) db p = weaken db.users p

  pub record_event-Spares :
      (deps : Deps) (meta : RequestMeta) (e : Event) → Spares now P E (record_event deps meta e)
  unfolding record_event
  record_event-Spares deps meta e =
      Triple-if deps.has_recorder _ _
        (λ _. Triple-ignore _ (Triple-clocked _ (Triple-statement _ (λ db p. p) (λ db p. p))))
        (λ _. Triple-pure tt (λ db p. p))

  pub session_create-Spares : (s : Session) → Spares now P E (Sessions.create s)
  unfolding Sessions.create
  session_create-Spares s = Triple-clocked _ (write-Spares _ (λ db. ground arith))

  pub session_revoke-Spares : (id : String) → Spares now P E (Sessions.revoke id)
  unfolding Sessions.revoke
  session_revoke-Spares id =
      Triple-clocked _ (Triple-statement _ (λ db p. p) (λ db p. weaken db.users p))

  pub revoke_all-Spares : (id : String) → Spares now P E (Sessions.revoke_all_for_user id)
  unfolding Sessions.revoke_all_for_user
  revoke_all-Spares id =
      Triple-clocked _ (Triple-statement _ (λ db p. p) (λ db p. weaken db.users p))

  pub record_attempt-Spares :
      (deps : Deps) (ip username : String) (success : Bool)
      → Spares now P E (record_attempt deps.os ip username success)
  unfolding record_attempt
  record_attempt-Spares deps ip username success =
      Triple-clocked _ (Triple-statement _ (λ db p. p) (λ db p. weaken db.users p))

  pub token_touch-Spares : (id : String) (at : ℕ) → Spares now P E (Tokens.touch id at)
  unfolding Tokens.touch
  token_touch-Spares id at = Triple-statement _ (λ db p. p) (λ db p. weaken db.users p)

  pub check-Spares : (deps : Deps) (ip : String) → Spares now P E (check deps.limiter deps.os ip)
  unfolding check failures_since last_failure_at
  check-Spares deps ip = Triple-clocked _ (
      Triple-bind _ _ (Triple-bind _ _ (read-Spares _) (λ last. read-Spares _)) λ failures.
        Triple-if (ltb failures deps.limiter.max_failures) _ _ (λ _. Triple-pure _ (λ db p. p))
          (λ _. Triple-bind _ _ (read-Spares _) (λ last. Triple-pure _ (λ db p. p))))

  pub issue_pair-Spares :
      (deps : Deps) (u : User) (meta : RequestMeta) → Spares now P E (issue_pair deps u meta)
  unfolding issue_pair Jwt.issue
  issue_pair-Spares deps u meta =
      Triple-bind _ _
        (Triple-clocked _ (
          Triple-drawn _ (λ db p. weaken db.users p)
            λ jti.
              Triple-lifted _ _ (λ e h db p. weaken db.users p)
                λ signed _. Triple-pure _ (λ db p. p)))
        λ signed.
          Triple-drawn _ (λ db p. weaken db.users p)
            λ refresh_token.
              Triple-drawn _ (λ db p. weaken db.users p)
                λ session_id.
                  Triple-clocked _
                    (Triple-bind _ _ (session_create-Spares _) (λ _. Triple-pure _ (λ db p. p)))

  pub fail_login-Spares :
      (deps : Deps) (username : String) (meta : RequestMeta) (cause : Error)
      → Spares now P E (fail_login deps username meta cause)
  unfolding fail_login record_failure
  fail_login-Spares deps username meta cause =
      Triple-bind _ _ (record_attempt-Spares deps meta.ip username false) λ _.
        Triple-bind _ _ (record_event-Spares deps meta _)
          λ _. Triple-raise cause (λ db p. weaken db.users p)
