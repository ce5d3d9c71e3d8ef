-- ===== src/Auth/Limiter.antt =====
-- internal/auth/bruteforce.go: the lockout of an address after failed logins.
pub mod Lockout
use iskele.Common.{ℕ, ◌+◌, ◌-◌, ◌/◌, ◌*◌, String, Bool, true, false, ltb, if◌then◌else◌}
use iskele.Store.{is_zero}
use iskele.Store.Platform.{Platform}
use iskele.Store.Logins.{record_attempt, failures_since, last_failure_at, delete_before}
use iskele.Store.Exec.{Exec, pure, clock, ◌>>=◌}

pub record Limiter : Type 0 where
  pub max_failures : ℕ
  pub window : ℕ
  pub lockout : ℕ

abbrev pub default_max_failures : ℕ
default_max_failures = 10

-- 15 minutes
abbrev pub default_window : ℕ
default_window = 900_000_000_000

abbrev pub default_lockout : ℕ
default_lockout = 900_000_000_000

-- NewLimiter; a negative option is a 0 here, and takes the default as a 0 does
unfoldable pub new_limiter : Limiter → Limiter
new_limiter opts = record {
  max_failures = if is_zero opts.max_failures then default_max_failures else opts.max_failures;
  window = if is_zero opts.window then default_window else opts.window;
  lockout = if is_zero opts.lockout then default_lockout else opts.lockout;
}

pub record LockStatus : Type 0 where
  pub locked : Bool
  pub retry_after : ℕ
  pub failures : ℕ
  pub remaining : ℕ

-- Duration.Round(time.Second): to the nearest second, half away from zero
unfoldable pub round_second : ℕ → ℕ
round_second d = (d + 500_000_000) / 1_000_000_000 * 1_000_000_000

module _ (l : Limiter) where
  -- `Remaining` is never negative, since `-` stops at 0.
  unfoldable pub open_status : ℕ → LockStatus
  open_status failures = record {
    locked = false;
    retry_after = 0;
    failures = failures;
    remaining = l.max_failures - failures;
  }

  -- the status once the limit is reached, from the last failure
  unfoldable pub limit_status : ℕ → ℕ → ℕ → LockStatus
  unfolding open_status round_second
  limit_status now failures last_failure =
      let status = open_status failures in
      if is_zero last_failure
      then status
      else if ltb now (last_failure + l.lockout)
      then record status {
        locked = true;
        retry_after = round_second (last_failure + l.lockout - now);
      }
      else status

  module _ (os : Platform) where
    -- Check
    unfoldable pub check : String → Exec LockStatus
    check ip = do
      now ← clock
      failures ← failures_since os ip (now - l.window)
      if ltb failures l.max_failures then pure (open_status failures) else do
        last_failure ← last_failure_at os ip
        pure (limit_status now failures last_failure)

    -- Prune
    unfoldable pub prune : Exec ℕ
    prune = do now ← clock; delete_before os (now - (l.window + l.lockout))

-- RecordFailure
unfoldable pub record_failure : Platform → String → String → Exec (Unit {0})
record_failure os ip username = record_attempt os ip username false

-- RecordSuccess
unfoldable pub record_success : Platform → String → String → Exec (Unit {0})
record_success os ip username = record_attempt os ip username true
