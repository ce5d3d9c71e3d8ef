-- ===== src/Auth/Examples.antt =====
-- The theorems on passwords, second factors, sealed secrets, the limiter and tickets, at concrete
-- inputs.
use Prim.Native.String.{len}
use iskele.Common.{
  ℕ, ◌+◌, ◌≤◌, String, ◌≡◌, ◌↔◌, refl, true, false, none, some, List, [], ◌∷◌, arith, eq_false→ne,
  ltb, lookup, unless, if◌then◌else◌,
}
use iskele.Store.{LoginAttempt, viewer}
use iskele.Store.Exec.{ok, World, pure, random, ◌>>=◌, statement, clock}
use iskele.Samples.{
  sample_os, sample_os-IsTextOrder, sample_crypto, sample_crypto-IsSealing, sample_crypto-IsPhc,
  sample_crypto-IsPrinter, sample_deps, sample_world, value_or, ok-value_or,
}
use iskele.Auth.Password.{
  validate_password, hash_password, verify_password, needs_rehash, current_params, argon_key_len,
  bytes_equal, min_password_length, max_password_length,
}
use iskele.Auth.Password.RoundTrip.{verify_password-hash_password}
use iskele.Auth.Password.Policy.{validate_password-accepts, occurring}
use iskele.Auth.SecretBox.{encrypt, decrypt}
use iskele.Auth.SecretBox.RoundTrip.{decrypt-encrypt}
use iskele.Auth.Totp.{totp_code, verify_totp, typed, decode_secret}
use iskele.Auth.Totp.Drift.{step, verify_totp-totp_code, totp_code-verify_totp}
use iskele.Auth.Limiter.{check, LockStatus, limit_status, open_status}
use iskele.Store.Logins.{failures_since, last_failure_at, max_stamp}
use iskele.Auth.Limiter.Lockout.{IsLockedBy, check-IsLockedBy}
use iskele.Auth.Tickets.{Ticket, TicketStore, issue, redeem, is_expired}
use iskele.Auth.Tickets.SingleUse.{redeem_once, redeem-issue, lookup-issue}

abbrev password : String
password = "correct horse 9"

abbrev stored : String
stored = value_or "" (hash_password sample_crypto password 5 sample_world).0

verify_password-hash_password_example :
    (verify_password sample_crypto stored password ≡ ok true)
    × (needs_rehash sample_crypto stored ≡ false)
    × ((salt : List ℕ) × (verify_password sample_crypto stored "guess"
          ≡ ok (
              bytes_equal
                (sample_crypto.argon_key "guess" salt current_params argon_key_len)
                (sample_crypto.argon_key password salt current_params argon_key_len))))
unfolding hash_password random ◌>>=◌ pure
verify_password-hash_password_example =
    verify_password-hash_password sample_crypto sample_crypto-IsPhc password "guess" stored 5
      sample_world (ok-value_or "" _ refl)

validate_password-accepts_example : (validate_password sample_os password ≡ ok tt) ↔ (
    (min_password_length ≤ len password)
    × (len password ≤ max_password_length)
    × (2 ≤ occurring sample_os password))
validate_password-accepts_example = validate_password-accepts sample_os password

abbrev sealed : String
sealed = value_or "" (encrypt sample_crypto "JBSW" 5 sample_world).0

decrypt-encrypt_example : decrypt sample_crypto sealed ≡ ok "JBSW"
unfolding encrypt random ◌>>=◌ pure
decrypt-encrypt_example =
    decrypt-encrypt sample_crypto sample_crypto-IsSealing "JBSW" sealed 5 sample_world
      (ok-value_or "" _ refl)

-- a second of the year 2025
abbrev noon : ℕ
noon = 63_900_000_000_000_000_000

abbrev shown : String
shown = value_or "" (totp_code sample_crypto sample_os "aa," noon)

verify_totp-totp_code_example :
    verify_totp sample_crypto sample_os "aa," shown (noon + 25_000_000_000) ≡ ok tt
unfolding totp_code decode_secret
verify_totp-totp_code_example =
    verify_totp-totp_code sample_crypto sample_os sample_crypto-IsPrinter "aa," shown noon
      (noon + 25_000_000_000) (omega arith, omega arith) (omega arith) (omega arith)
      (ok-value_or "" _ refl)

shown_accepted : verify_totp sample_crypto sample_os "aa," shown (noon + 25_000_000_000) ≡ ok tt
unfolding totp_code decode_secret
shown_accepted =
    verify_totp-totp_code sample_crypto sample_os sample_crypto-IsPrinter "aa," shown noon
      (noon + 25_000_000_000) (omega arith, omega arith) (omega arith) (omega arith)
      (ok-value_or "" _ refl)

totp_code-verify_totp_example :
    (at : ℕ) × (at ≤ noon + 25_000_000_000 + step)
    × (noon + 25_000_000_000 ≤ at + step)
    × (totp_code sample_crypto sample_os "aa," at ≡ ok (typed sample_crypto sample_os shown))
totp_code-verify_totp_example =
    totp_code-verify_totp sample_crypto sample_os "aa," shown (noon + 25_000_000_000)
      (omega arith, omega arith) shown_accepted

-- two failures, as many as the sample limiter allows
abbrev failed : ℕ → LoginAttempt
failed at = record { ip = "10.0.0.1"; username = "ada"; success = false; created_at = at }

abbrev attacked : World
attacked = record sample_world {
  db = record sample_world.db { attempts = failed 1500 ∷ failed 1600 ∷ [] };
}

abbrev locked_status : LockStatus
locked_status = record { locked = true; retry_after = 0; failures = 2; remaining = 0 }

check-IsLockedBy_example :
    IsLockedBy sample_deps.limiter sample_os "10.0.0.1" 1700 attacked.db.attempts
      (value_or locked_status
        (check sample_deps.limiter sample_os "10.0.0.1" 1700 attacked).0).retry_after
unfolding check failures_since last_failure_at statement clock ◌>>=◌ pure max_stamp limit_status
    open_status
check-IsLockedBy_example =
    check-IsLockedBy sample_deps.limiter sample_os sample_os-IsTextOrder "10.0.0.1" 1700 attacked
      (value_or locked_status (check sample_deps.limiter sample_os "10.0.0.1" 1700 attacked).0)
      (ok-value_or locked_status _ refl) refl

abbrev ticket : Ticket
ticket = record {
  user_id = "u1";
  username = "ada";
  role = viewer;
  token_id = "";
  scopes = [];
  expires_at = 0;
}

abbrev no_tickets : TicketStore
no_tickets = record { tickets = []; ttl = 60 }

redeem_once_example :
    (redeem "v1" 120 (redeem "v1" 110 (issue (some "v1") 100 ticket no_tickets).0).0).1 ≡ none
redeem_once_example = redeem_once "v1" 110 120 (issue (some "v1") 100 ticket no_tickets).0

redeem-issue_example :
    (redeem "v1" 150 (issue (some "v1") 100 ticket no_tickets).0).1
    ≡ (if ltb (100 + 60) 150 then none else some (record ticket { expires_at = 100 + 60 }))
redeem-issue_example = redeem-issue "v1" 100 150 ticket no_tickets tt (eq_false→ne "v1" "" refl)

lookup-issue_example :
    lookup "v2" (issue (some "v1") 100 ticket no_tickets).0.tickets
    ≡ unless (is_expired 100) (lookup "v2" no_tickets.tickets)
lookup-issue_example = lookup-issue "v1" "v2" 100 ticket no_tickets tt (eq_false→ne "v1" "v2" refl)
