-- ===== src/Service/Auth/Locked.antt =====
-- `Login` of internal/service/auth.go from an address that has failed too often.
use iskele.Common.{
  ℕ, ◌+◌, ◌-◌, ◌≤◌, ◌<◌, String, ◌≡◌, ◌≢◌, refl, ap, true, some, List, arith, ltb, count_if,
}
use iskele.Store.{LoginAttempt}
use iskele.Store.Exec.{ok, World}
use iskele.Store.Exec.Rules.{
  Triple-pure, Triple-statement, Triple-if, Triple-bind, Triple-clocked, Triple-reject,
  Triple-absurd,
}
use iskele.Store.Exec.Facts.{Returns, returned}
use iskele.Store.Users as Repo
use iskele.Store.Platform.{Platform}
use iskele.Store.Logins.{
  failures_since, last_failure_at, max_stamp, failed_after, failed_from, succeeded_since,
  count_from,
}
use iskele.Auth.Limiter.{Limiter, limit_status, check}
use iskele.Service.{Deps, RequestMeta}
use iskele.Service.Auth.{LoginInput, TokenPair, initialized, login}

-- The address has failed as often as the limiter allows, since its last success in the window, and
-- the lockout has not passed since its last failure.
pub record IsBarred (l : Limiter) (os : Platform) (ip : String) (now : ℕ)
    (attempts : List LoginAttempt) : Type 0 where
  pub enough :
      let since = now - l.window in
      l.max_failures
      ≤ count_if
          (failed_after os ip
            (count_from os since (max_stamp os (succeeded_since os ip since) attempts)))
          attempts
  pub last_failure : ℕ
  pub is_last : max_stamp os (failed_from os ip) attempts ≡ some last_failure
  pub happened : last_failure ≢ 0
  pub recent : now < last_failure + l.lockout

module _ (now : ℕ) (l : Limiter) (os : Platform) (ip : String) (attempts : List LoginAttempt)
    (barred : IsBarred l os ip now attempts) where
  limit_status_locked :
      (failures : ℕ) → (limit_status l now failures barred.last_failure).locked ≡ true
  unfolding limit_status
  limit_status_locked failures = ground (arith, barred.happened, barred.recent)

  check_locked :
      Returns now (λ db. db.attempts ≡ attempts) (check l os ip) (λ status _. status.locked ≡ true)
  unfolding check failures_since last_failure_at
  check_locked = Triple-clocked _ (
      let since = now - l.window in
      Triple-bind {Q = λ failures db. (db.attempts ≡ attempts) × (l.max_failures ≤ failures)} _ _
        (Triple-bind
          {Q = λ last db.
            (db.attempts ≡ attempts) × (last ≡ max_stamp os (succeeded_since os ip since) attempts)}
          _ _
          (Triple-statement _
            (λ db p. (p, ap (λ a. max_stamp os (succeeded_since os ip since) a) p)) (λ db p. tt))
          λ last. Triple-statement _ (λ db p. (p.0, rw (p.0, p.1) barred.enough)) (λ db p. tt))
        λ failures.
          Triple-if (ltb failures l.max_failures) _ _
            (λ few. Triple-absurd _ (λ db p. ground (arith, few, p.1)))
            (λ many.
              Triple-bind {Q = λ last _. last ≡ barred.last_failure} _ _
                (Triple-statement _ (λ db p. rw (p.0, barred.is_last) refl) (λ db p. tt))
                λ last. Triple-pure _ (λ db p. rw p (limit_status_locked failures))))

module _ (now : ℕ) (deps : Deps) (attempts : List LoginAttempt) where
  login_absurd :
      (input : LoginInput) (meta : RequestMeta)
      → IsBarred deps.limiter deps.os meta.ip now attempts
      → Returns now (λ db. db.attempts ≡ attempts) (login deps input meta) (λ _ _. ⊥)
  unfolding login initialized Repo.count
  login_absurd input meta barred =
      Triple-bind {Q = λ _ db. db.attempts ≡ attempts} _ _
        (Triple-bind {Q = λ _ db. db.attempts ≡ attempts} _ _
          (Triple-statement _ (λ db p. p) (λ db p. tt)) (λ n. Triple-pure _ (λ db p. p)))
        λ done.
          Triple-reject _ _ _ (λ _ db p. tt)
            λ _.
              Triple-bind _ _ (check_locked now deps.limiter deps.os meta.ip attempts barred)
                λ status.
                  Triple-reject _ _ _ (λ _ db p. tt)
                    λ unlocked. Triple-absurd _ (λ db p. ground (arith, p, unlocked))

-- From an address whose failures since its last success in the window reached the limit, and whose
-- last failure is less than the lockout ago, no login returns, with whatever name, password and
-- code, the right ones included.
pub login_barred :
    (deps : Deps) (input : LoginInput) (meta : RequestMeta) (now : ℕ) (w : World) (pair : TokenPair)
    → IsBarred deps.limiter deps.os meta.ip now w.db.attempts
    → (login deps input meta now w).0 ≢ ok pair
login_barred deps input meta now w pair barred = λ e.
    returned (λ _. ⊥) _ _ pair ((login_absurd now deps w.db.attempts input meta barred).at w refl) e
