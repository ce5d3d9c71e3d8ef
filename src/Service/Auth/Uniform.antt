-- ===== src/Service/Auth/Uniform.antt =====
-- `Login` of internal/service/auth.go does not tell an unknown name from a wrong password.
use iskele.Common.{
  ℕ, String, ◌≡◌, ◌⊎◌, inl, inr, refl, ap, ◌∙◌, Bool, true, false, not, ◌||◌, Option, none, some,
  List, [], arith, find, ◌==◌, if◌then◌else◌,
}
use iskele.Store.{Db, User}
use iskele.Store.Exec.{
  Error, Result, ok, err, World, Exec, invalid_credentials, account_disabled, pure, lift, statement,
  resume, ◌>>=◌, ◌>>◌,
}
use iskele.Store.Exec.Rules.{Outcome, Triple-bind, Triple-any, Triple-raise}
use iskele.Store.Exec.Facts.{Returns}
use iskele.Store.Users as Repo
use iskele.Store.Users.{named, or_not_found}
use iskele.Auth.Password.{verify_password}
use iskele.Service.{Deps, RequestMeta}
use iskele.Service.Auth.{
  LoginInput, or_zero_user, zero_user, zero_unless_found, stored_hash, hash_error, password_ok,
  fail_login, require_factor, credentials,
}

-- No account has the name, or the account that has it has another password.
abbrev pub IsWrong : Deps → LoginInput → List User → Type 0
IsWrong deps input us =
    (find (named deps.os input.username) us ≡ none)
    ⊎ ((u : User) × (find (named deps.os input.username) us ≡ some u)
        × (verify_password deps.crypto (stored_hash deps u) input.password ≡ ok false))

-- the error of a result that is no value
error_of :
    {A : Type 0} (r : Result A) (db : Db)
    → Outcome (λ _ _. ⊥) (λ _ _. Unit {0}) r db
    → (e : Error) × (r ≡ err e)
error_of (ok a) db h = absurd h
error_of (err e) db h = (e, refl)

bind-ok :
    {A B : Type 0} (m : Exec A) (f : A → Exec B) (now : ℕ) (w w' : World) (a : A)
    → m now w ≡ (ok a, w')
    → (m >>= f) now w ≡ f a now w'
unfolding ◌>>=◌
bind-ok m f now w w' a h = ap (λ p. resume f p.0 now p.1) h

module _ (deps : Deps) (input : LoginInput) (meta : RequestMeta) (now : ℕ) where
  abbrev failing : Exec (Unit {0})
  failing = fail_login deps input.username meta invalid_credentials

  never_returns : Returns now (λ _. Unit {0}) failing (λ _ _. ⊥)
  unfolding fail_login
  never_returns =
      Triple-bind _ _ (Triple-any _)
        (λ _. Triple-bind _ _ (Triple-any _) (λ _. Triple-raise _ (λ db p. tt)))

  -- what follows a failed login does not matter
  fail_ends :
      (f g : Unit {0} → Exec User) (w : World) → (failing >>= f) now w ≡ (failing >>= g) now w
  unfolding ◌>>=◌
  fail_ends f g w = let (e, h) = error_of _ _ (never_returns.at w tt) in rw h refl

  -- the checks of a wrong password for an account, or of any password for none
  wrong_rest :
      (user : User) (f : Unit {0} → Exec User) (w : World)
      → (r : Result Bool) → hash_error deps user r ≡ ok tt
      → (not (password_ok deps r) || user.id == "") ≡ true
      → (lift (hash_error deps user r) >>= λ _.
            (if not (password_ok deps r) || user.id == "" then failing else pure tt) >>= f)
          now w
        ≡ (failing >>= λ _. pure user) now w
  unfolding ◌>>=◌ lift
  wrong_rest user f w r clean wrong = rw (clean, wrong) (fail_ends f (λ _. pure user) w)

  clean_zero : (r : Result Bool) → hash_error deps zero_user r ≡ ok tt
  clean_zero (ok b) = refl
  clean_zero (err e) = refl

  wrong_zero : (b : Bool) → (not b || true) ≡ true
  wrong_zero b = ground arith

  -- the checks that follow that of the password
  abbrev later_checks : User → Unit {0} → Exec User
  later_checks user _ =
      (if user.disabled then fail_login deps input.username meta account_disabled else pure tt)
      >> ((if user.totp_enabled then require_factor deps user input meta else pure tt) >> pure user)

  module _ (db : Db) (entropy : List (Option String)) where
    abbrev quiet : World
    quiet = record { db = db; faults = []; entropy = entropy }

    lookup_quiet :
        (user : User)
        → zero_unless_found (or_not_found (find (named deps.os input.username) db.users)) ≡ ok user
        → or_zero_user (Repo.by_username deps.os input.username) now quiet ≡ (ok user, quiet)
    unfolding or_zero_user Repo.by_username statement
    lookup_quiet user found = ap (λ r. (r, quiet)) found

    -- what `credentials` does with the account that it has looked up
    credentials-wrong :
        (user : User)
        → zero_unless_found (or_not_found (find (named deps.os input.username) db.users)) ≡ ok user
        → hash_error deps user (verify_password deps.crypto (stored_hash deps user) input.password)
          ≡ ok tt
        → (not (
              password_ok deps (verify_password deps.crypto (stored_hash deps user) input.password))
            || user.id == "")
          ≡ true
        → credentials deps input meta now quiet ≡ (failing >>= λ _. pure zero_user) now quiet
    unfolding credentials ◌>>=◌
    credentials-wrong user found clean wrong =
        bind-ok (or_zero_user (Repo.by_username deps.os input.username)) _ now quiet quiet user
          (lookup_quiet user found)
        ∙ wrong_rest user (later_checks user) quiet
            (verify_password deps.crypto (stored_hash deps user) input.password) clean wrong
        ∙ fail_ends (λ _. pure user) (λ _. pure zero_user) quiet

    checks_failed :
        IsWrong deps input db.users
        → credentials deps input meta now quiet ≡ (failing >>= λ _. pure zero_user) now quiet
    checks_failed (inl absent) =
        credentials-wrong zero_user (rw absent refl) (clean_zero _) (wrong_zero _)
    checks_failed (inr (u, found, wrong)) =
        credentials-wrong u (rw found refl) (rw wrong refl) (rw wrong refl)

-- Where no statement fails, the checks of a login do the same for a name that no account has and
-- for an account with another password: they record the failure and give the same error.
pub credentials_uniform :
    (deps : Deps) (input : LoginInput) (meta : RequestMeta) (now : ℕ) (db : Db)
    (entropy : List (Option String))
    → IsWrong deps input db.users
    → let w : World = record { db = db; faults = []; entropy = entropy } in
      credentials deps input meta now w
      ≡ (fail_login deps input.username meta invalid_credentials >>= λ _. pure zero_user) now w
credentials_uniform deps input meta now db entropy h =
    checks_failed deps input meta now db entropy h
