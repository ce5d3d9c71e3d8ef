-- ===== src/Service/Auth/Sound.antt =====
-- What a return of internal/service/auth.go shows: whom a login and a credential stand for.
use iskele.Common.{
  ℕ, String, ◌≡◌, ◌≢◌, refl, sym, ap, ◌∙◌, subst, Bool, true, false, some, List, arith, eq_iff,
  find, if◌then◌else◌,
}
use iskele.Store.{Db, User}
use iskele.Store.Exec.{Error, Result, ok, err, World, not_found, pure}
use iskele.Store.Exec.Rules.{
  Outcome, Outcome-found, Triple-pure, Triple-raise, Triple-statement, Triple-if, Triple-bind,
  Triple-clocked, Triple-drawn, Triple-lifted, Triple-reject, Triple-any,
}
use iskele.Store.Exec.Facts.{Returns, known, returned}
use iskele.Store.Users as Repo
use iskele.Store.Users.{has_id, named, or_not_found}
use iskele.Auth.Password.{verify_password}
use iskele.Service.{Deps, RequestMeta}
use iskele.Service.Auth.{
  LoginInput, TokenPair, initialized, or_zero_user, zero_unless_found, stored_hash, hash_error,
  password_ok, verify_second_factor, pass_or_fail, require_factor, fail_login, credentials,
  issue_pair, login,
}
use iskele.Service.Untouched.{read-Spares, check-Spares}

-- The account that a login is for, with every factor that it asks for right.
pub record IsAuthentic (deps : Deps) (now : ℕ) (us : List User) (input : LoginInput) (u : User)
    : Type 0 where
  pub account : find (named deps.os input.username) us ≡ some u
  pub password_right : verify_password deps.crypto (stored_hash deps u) input.password ≡ ok true
  pub enabled : u.disabled ≡ false
  pub factor_right : u.totp_enabled ≡ true → verify_second_factor deps u input.totp now ≡ ok tt

module _ (now : ℕ) (deps : Deps) (us : List User) where
  abbrev Same : Db → Type 0
  Same db = db.users ≡ us

  by_name :
      (input : LoginInput)
      → Returns now Same
          (Repo.by_username deps.os input.username)
          (λ u _. find (named deps.os input.username) us ≡ some u)
  unfolding Repo.by_username
  by_name input =
      Triple-statement _
        (λ db p.
          Outcome-found _ _ (find (named deps.os input.username) db.users) db (λ _. tt)
            (λ u e. ap (λ l. find (named deps.os input.username) l) (sym p) ∙ e))
        (λ db p. tt)

  -- the account of that name, or the zero user
  found_or_zero :
      (input : LoginInput)
      → Returns now Same
          (or_zero_user (Repo.by_username deps.os input.username))
          (λ u _. u.id ≢ "" → find (named deps.os input.username) us ≡ some u)
  unfolding or_zero_user
  found_or_zero input = record {
    at = λ w p. go _ (Repo.by_username deps.os input.username now w).1.db ((by_name input).at w p);
  }
    where
      go :
          (r : Result User) (db : Db)
          → Outcome (λ u _. find (named deps.os input.username) us ≡ some u) (λ _ _. Unit {0}) r db
          → Outcome
              (λ u _. u.id ≢ "" → find (named deps.os input.username) us ≡ some u)
              (λ _ _. Unit {0})
              (zero_unless_found r)
              db
      go (ok u) db h = λ _. h
      go (err not_found) db h = λ ne. absurd (ne refl)
      go (err _) db h = tt

  -- a failed check ends the login
  gate :
      (b : Bool) (username : String) (meta : RequestMeta) (e : Error)
      → Returns now
          (λ _. Unit {0})
          (if b then fail_login deps username meta e else pure tt)
          (λ _ _. b ≡ false)
  unfolding fail_login
  gate true username meta e =
      Triple-bind _ _ (Triple-any _)
        (λ _. Triple-bind _ _ (Triple-any _) (λ _. Triple-raise e (λ db p. tt)))
  gate false username meta e = Triple-pure tt (λ db p. refl)

  factor_gate :
      (u : User) (input : LoginInput) (meta : RequestMeta)
      → Returns now
          (λ _. Unit {0})
          (if u.totp_enabled then require_factor deps u input meta else pure tt)
          (λ _ _. u.totp_enabled ≡ true → verify_second_factor deps u input.totp now ≡ ok tt)
  unfolding require_factor fail_login
  factor_gate u input meta =
      Triple-if u.totp_enabled _ _
        (λ _. Triple-clocked _ (go (verify_second_factor deps u input.totp now)))
        (λ off. Triple-pure tt (λ db p on. cc))
    where
      go :
          (r : Result (Unit {0}))
          → Returns now
              (λ _. Unit {0})
              (pass_or_fail deps input.username meta r)
              (λ _ _. u.totp_enabled ≡ true → r ≡ ok tt)
      go (ok x) = Triple-pure tt (λ db p on. refl)
      go (err e) =
          Triple-bind _ _ (Triple-any _)
            (λ _. Triple-bind _ _ (Triple-any _) (λ _. Triple-raise e (λ db p. tt)))

  -- the verdict that passed
  right :
      (user : User) (r : Result Bool)
      → hash_error deps user r ≡ ok tt
      → password_ok deps r ≡ true
      → r ≡ ok true
  right user (ok b) h k = ap (λ x. ok x) k
  right user (err e) h k = cc

  credentials-IsAuthentic :
      (input : LoginInput) (meta : RequestMeta)
      → Returns now Same (credentials deps input meta) (λ u _. IsAuthentic deps now us input u)
  unfolding credentials
  credentials-IsAuthentic input meta = Triple-bind _ _ (found_or_zero input) λ u. known _ λ found.
      Triple-lifted _ _ (λ e _ db p. tt)
        λ _ clean. Triple-bind _ _ (gate _ input.username meta _) λ _. known _ λ passed.
          Triple-bind _ _ (gate u.disabled input.username meta _) λ _. known _ λ enabled.
            Triple-bind _ _ (factor_gate u input meta) λ _. known _ λ factor. Triple-pure _ (λ db p.
              record {
                account = found (λ e. ground (arith, passed, eq_iff u.id "", e));
                password_right = right u _ (ap (λ x. x) clean) (ground (arith, passed));
                enabled = enabled;
                factor_right = factor;
              })

  issue_pair-user :
      (u : User) (meta : RequestMeta)
      → Returns now (λ _. Unit {0}) (issue_pair deps u meta) (λ pair _. pair.user ≡ u)
  unfolding issue_pair
  issue_pair-user u meta = Triple-bind _ _ (Triple-any _) λ signed.
      Triple-drawn _ (λ db p. tt)
        λ refresh_token.
          Triple-drawn _ (λ db p. tt)
            λ session_id.
              Triple-clocked _ (Triple-bind _ _ (Triple-any _) (λ _. Triple-pure _ (λ db p. refl)))

  login-IsAuthentic :
      (input : LoginInput) (meta : RequestMeta)
      → Returns now Same (login deps input meta) (λ pair _. IsAuthentic deps now us input pair.user)
  unfolding login initialized Repo.count
  login-IsAuthentic input meta =
      let keep : (l : List User) → l ≡ us → Unit {0} = λ l e. tt in
      Triple-bind _ _
        (Triple-bind _ _ (read-Spares now (λ l. l ≡ us) (λ _. Unit) keep _)
          (λ n. Triple-pure {Q = λ _ db. Same db} _ (λ db p. p)))
        λ done.
          Triple-reject _ _ _ (λ _ db p. tt)
            λ _.
              Triple-bind _ _ (check-Spares now (λ l. l ≡ us) (λ _. Unit) keep deps meta.ip)
                λ status.
                  Triple-reject _ _ _ (λ _ db p. tt)
                    λ _. Triple-bind _ _ (credentials-IsAuthentic input meta) λ u.
                      known _ λ authentic. Triple-bind _ _ (Triple-any _) λ _.
                        Triple-bind _ _ (Triple-any _) λ _. Triple-clocked _ (
                          Triple-bind _ _ (Triple-any _) λ _.
                            Triple-bind _ _ (issue_pair-user u meta) λ pair. known _ λ same.
                              Triple-bind _ _ (Triple-any _) λ _. Triple-pure _ (λ db p.
                                subst (λ x. IsAuthentic deps now us input x) (sym same) authentic))

-- A login that returns is for the account that the name looks up in the database: its password is
-- right, it is not disabled, and its second factor is right if it has one.
pub login_sound :
    (deps : Deps) (input : LoginInput) (meta : RequestMeta) (now : ℕ) (w : World) (pair : TokenPair)
    → (login deps input meta now w).0 ≡ ok pair
    → IsAuthentic deps now w.db.users input pair.user
login_sound deps input meta now w pair h =
    returned (λ p. IsAuthentic deps now w.db.users input p.user) _ _ pair
      ((login-IsAuthentic now deps w.db.users input meta).at w refl) h
