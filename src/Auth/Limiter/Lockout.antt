-- ===== src/Auth/Limiter/Lockout.antt =====
-- When the limiter of internal/auth/bruteforce.go refuses an address, and for how long.
use iskele.Common.{
  ℕ, ◌+◌, ◌-◌, ◌≤◌, ◌<◌, String, ◌≡◌, refl, ap, true, false, Option, none, some, List, [], ◌∷◌,
  arith, ltb, count_if, if◌then◌else◌,
}
use iskele.Store.{Db, LoginAttempt, is_zero}
use iskele.Store.Exec.{Result, ok, err, World}
use iskele.Store.Platform.{Platform}
use iskele.Store.Logins.{
  failures_since, last_failure_at, max_stamp, failed_after, failed_from, count_from, or_zero,
}
use iskele.Store.Exec.Rules.{
  Outcome, Triple, Triple-clocked, Triple-bind, Triple-statement, Triple-pure, Triple-if,
}
use iskele.Auth.Limiter.{Limiter, LockStatus, open_status, limit_status, round_second, check}

-- The rounded wait is within half a second of the wait.
pub round_second-near :
    (d : ℕ) → (d ≤ round_second d + 500_000_000) × (round_second d ≤ d + 500_000_000)
unfolding round_second
round_second-near d = (omega arith, omega arith)

module _ (l : Limiter) where
  -- An address whose failures reached the limit is locked exactly until the lockout has passed since
  -- its last failure, whose time is known.
  pub limit_status-locked :
      (now failures last_failure : ℕ)
      → (limit_status l now failures last_failure).locked
        ≡ (if is_zero last_failure then false else ltb now (last_failure + l.lockout))
  unfolding limit_status open_status
  limit_status-locked now failures last_failure = ground arith

-- What SQLite's order on texts is, whatever times they stand for.
pub record IsTextOrder (os : Platform) : Type 0 where
  pub stamp_trans :
      (a b c : ℕ)
      → os.stamp_before a b ≡ true
      → os.stamp_before b c ≡ true
      → os.stamp_before a c ≡ true

-- Fewer failures come after a later instant.
count_failed_mono :
    (os : Platform) (laws : IsTextOrder os) (ip : String) (since : ℕ) (last : Option ℕ)
    (attempts : List LoginAttempt)
    → count_if (failed_after os ip (count_from os since last)) attempts
      ≤ count_if (failed_after os ip since) attempts
count_failed_mono os laws ip since last [] = omega arith
count_failed_mono os laws ip since none (a ∷ attempts) = omega arith
count_failed_mono os laws ip since (some t) (a ∷ attempts) = ground (
  arith,
  count_failed_mono os laws ip since (some t) attempts,
  laws.stamp_trans since t a.created_at,
)

module _ (l : Limiter) (os : Platform) where
  -- What justifies that an address is locked.
  pub record IsLockedBy (ip : String) (now : ℕ) (attempts : List LoginAttempt) (retry : ℕ)
      : Type 0 where
    pub reached : l.max_failures ≤ count_if (failed_after os ip (now - l.window)) attempts
    pub last_failure : ℕ
    pub is_last : max_stamp os (failed_from os ip) attempts ≡ some last_failure
    pub still_locked : now < last_failure + l.lockout
    pub retry_rounds : retry ≡ round_second (last_failure + l.lockout - now)

  limit_status-IsLockedBy :
      (ip : String) (now failures : ℕ) (attempts : List LoginAttempt)
      → l.max_failures ≤ count_if (failed_after os ip (now - l.window)) attempts
      → (last : Option ℕ) → max_stamp os (failed_from os ip) attempts ≡ last
      → let status = limit_status l now failures (or_zero os last) in
        status.locked ≡ true → IsLockedBy ip now attempts status.retry_after
  unfolding limit_status open_status
  limit_status-IsLockedBy ip now failures attempts enough none e h = ground arith
  limit_status-IsLockedBy ip now failures attempts enough (some t) e h = record {
    reached = enough;
    last_failure = t;
    is_last = e;
    still_locked = ground arith;
    retry_rounds = ground arith;
  }

  open_unlocked :
      (ip : String) (now : ℕ) (attempts : List LoginAttempt) (failures : ℕ)
      → let status = open_status l failures in
        status.locked ≡ true → IsLockedBy ip now attempts status.retry_after
  unfolding open_status
  open_unlocked ip now attempts failures h = ground (arith, h)

  check-Triple :
      (laws : IsTextOrder os) (ip : String) (now : ℕ) (attempts : List LoginAttempt)
      → Triple now
          (λ db. db.attempts ≡ attempts)
          (check l os ip)
          (λ status _. status.locked ≡ true → IsLockedBy ip now attempts status.retry_after)
          (λ _ _. Unit)
  unfolding check failures_since last_failure_at
  check-Triple laws ip now attempts = Triple-clocked _ (
      let since = now - l.window in
      Triple-bind
        {Q = λ failures db.
          (db.attempts ≡ attempts) × (failures ≤ count_if (failed_after os ip since) attempts)}
        _ _
        (Triple-bind {Q = λ last db. db.attempts ≡ attempts} _ _
          (Triple-statement _ (λ db p. p) (λ db p. tt))
          λ last.
            Triple-statement _
              (λ db p. (p, rw p (count_failed_mono os laws ip since last attempts))) (λ db p. tt))
        λ failures.
          Triple-if (ltb failures l.max_failures) _ _
            (λ few. Triple-pure _ (λ db p. open_unlocked ip now attempts failures))
            (λ enough.
              Triple-bind
                {Q = λ last db.
                  (last ≡ or_zero os (max_stamp os (failed_from os ip) attempts))
                  × (l.max_failures ≤ count_if (failed_after os ip since) attempts)}
                _ _
                (Triple-statement _
                  (λ db p. (
                    ap (λ l. or_zero os (max_stamp os (failed_from os ip) l)) p.0,
                    ground (arith, p.1),
                  ))
                  (λ db p. tt))
                λ last.
                  Triple-pure _
                    (λ db p. rw p.0 (limit_status-IsLockedBy ip now failures attempts p.1 _ refl))))

  -- When `Check` reports an address locked, its failures in the window reached the limit, its last
  -- failure is known and less than the lockout ago, and the wait is the rounded rest of the lockout.
  pub check-IsLockedBy :
      (laws : IsTextOrder os) (ip : String) (now : ℕ) (w : World) (status : LockStatus)
      → (check l os ip now w).0 ≡ ok status
      → status.locked ≡ true
      → IsLockedBy ip now w.db.attempts status.retry_after
  check-IsLockedBy laws ip now w status e h =
      result _ _ ((check-Triple laws ip now w.db.attempts).at w refl) e h
    where
      result :
          (r : Result LockStatus) (db : Db)
          → Outcome
              (λ s _. s.locked ≡ true → IsLockedBy ip now w.db.attempts s.retry_after)
              (λ _ _. Unit {0})
              r
              db
          → r ≡ ok status
          → status.locked ≡ true
          → IsLockedBy ip now w.db.attempts status.retry_after
      result (ok s) db o e h = ground (arith, o, e, h)
      result (err x) db o e h = cc
