-- ===== src/Store/Logins.antt =====
-- internal/store/logins.go: the log of login attempts. SQLite compares the texts of two times,
-- through `stamp_before`.
use iskele.Common.{
  ℕ, String, Bool, ◌&&◌, Option, none, some, List, [], ◌∷◌, ◌++◌, count_if, select, length, not,
  ◌-◌, ◌==◌, if◌then◌else◌,
}
use iskele.Store.{LoginAttempt}
use iskele.Store.Exec.{ok, Exec, statement, clock, ◌>>=◌}
use iskele.Store.Platform.{Platform}

module _ (os : Platform) where
  -- MAX(created_at) of the rows that pass
  abbrev pub later : ℕ → Option ℕ → Option ℕ
  later t none = some t
  later t (some u) = if os.stamp_before u t then some t else some u

  unfoldable pub max_stamp : (LoginAttempt → Bool) → List LoginAttempt → Option ℕ
  max_stamp p [] = none
  max_stamp p (a ∷ attempts) =
      let rest = max_stamp p attempts in if p a then later a.created_at rest else rest

  -- Record
  unfoldable pub record_attempt : String → String → Bool → Exec (Unit {0})
  record_attempt ip username success = do
    now ← clock
    statement λ db. (
      ok tt,
      record db {
        attempts =
            db.attempts
            ++ record {
              ip = ip;
              username = os.to_lower (os.trim_space username);
              success = success;
              created_at = now;
            }
              ∷ [];
      },
    )

  abbrev pub succeeded_since : String → ℕ → LoginAttempt → Bool
  succeeded_since ip since a = a.ip == ip && a.success && not (os.stamp_before a.created_at since)

  abbrev pub failed_after : String → ℕ → LoginAttempt → Bool
  failed_after ip from a = a.ip == ip && not a.success && os.stamp_before from a.created_at

  -- the later of the window's start and the last success in it
  abbrev pub count_from : ℕ → Option ℕ → ℕ
  count_from since none = since
  count_from since (some last) = if os.stamp_before since last then last else since

  -- FailuresSince
  unfoldable pub failures_since : String → ℕ → Exec ℕ
  failures_since ip since = do
    last_success ← statement (λ db. (ok (max_stamp (succeeded_since ip since) db.attempts), db))
    statement
        (λ db. (ok (count_if (failed_after ip (count_from since last_success)) db.attempts), db))

  abbrev pub failed_from : String → LoginAttempt → Bool
  failed_from ip a = a.ip == ip && not a.success

  abbrev pub or_zero : Option ℕ → ℕ
  or_zero none = 0
  or_zero (some t) = t

  -- LastFailureAt; the zero time when there is none
  unfoldable pub last_failure_at : String → Exec ℕ
  last_failure_at ip = statement λ db. (ok (or_zero (max_stamp (failed_from ip) db.attempts)), db)

  -- DeleteBefore
  unfoldable pub delete_before : ℕ → Exec ℕ
  delete_before cutoff = statement λ db.
      let kept = select (λ a. not (os.stamp_before a.created_at cutoff)) db.attempts in
      (ok (length db.attempts - length kept), record db { attempts = kept })
