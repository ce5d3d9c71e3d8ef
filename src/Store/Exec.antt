-- ===== src/Store/Exec.antt =====
-- How the daemon runs: a method reads and changes the database, may fail, and what it has written
-- before it fails stays written. `faults` says of each SQL statement to come whether the engine
-- refuses it (an empty list refuses none), and `entropy` what each read of crypto/rand gives.
-- One request runs at one instant, `now`.
pub mod Rules
pub mod Facts
use iskele.Common.{ℕ, String, Bool, true, false, Option, none, some, List, [], ◌∷◌, if◌then◌else◌}
use iskele.Store.{Db}

-- The errors of internal/store, internal/auth and internal/service that callers tell apart.
pub data Error : Type 0 where
  db_failure not_found conflict no_entropy : Error
  not_initialized already_initialized invalid_credentials account_disabled session_invalid : Error
  username_required username_unavailable totp_required : Error
  locked_out : ℕ → Error
  user_not_found last_admin self_delete own_totp_reset invalid_role : Error
  totp_unavailable totp_not_pending totp_already_enabled : Error
  invalid_totp_code invalid_totp_secret : Error
  password_too_short password_too_long password_too_weak : Error
  invalid_hash decrypt_failed token_invalid token_expired signing_failed : Error

pub data Result {ℓ} (A : Type ℓ) : Type ℓ where
  ok : A → Result A
  err : Error → Result A

pub record World : Type 0 where
  pub db : Db
  pub faults : List Bool
  pub entropy : List (Option String)

abbrev pub Exec : Type 0 → Type 0
Exec A = ℕ → World → Result A × World

module _ {A : Type 0} where
  unfoldable pub pure : A → Exec A
  pure a now w = (ok a, w)

  unfoldable pub raise : Error → Exec A
  raise e now w = (err e, w)

  -- a value that a pure function computed, or its error
  unfoldable pub lift : Result A → Exec A
  lift r now w = (r, w)

  abbrev pub perform : (Db → Result A × Db) → World → Result A × World
  perform f w = let (r, db') = f w.db in (r, record w { db = db' })

  -- one SQL statement: refused by the engine, or carried out
  unfoldable pub statement : (Db → Result A × Db) → Exec A
  statement f now w = elim w.faults [
    | [] ↦ perform f w
    | true ∷ rest ↦ (err db_failure, record w { faults = rest })
    | false ∷ rest ↦ perform f (record w { faults = rest })
  ]

  -- `_ = m`: the error is dropped
  unfoldable pub ignore : Exec A → Exec (Unit {0})
  ignore m now w = (ok tt, (m now w).1)

  abbrev pub map_error : (Error → Error) → Result A → Result A
  map_error f (ok a) = ok a
  map_error f (err e) = err (f e)

  -- if err != nil { return f(err) }
  unfoldable pub rename_error : (Error → Error) → Exec A → Exec A
  rename_error f m now w = let (r, w') = m now w in (map_error f r, w')

-- a read of the clock
unfoldable pub clock : Exec ℕ
clock now w = (ok now, w)

-- rand.Read and the encoding of what it gives
unfoldable pub random : Exec String
random now w = elim w.entropy [
  | [] ↦ (err no_entropy, w)
  | none ∷ rest ↦ (err no_entropy, record w { entropy = rest })
  | some s ∷ rest ↦ (ok s, record w { entropy = rest })
]

module _ {A B : Type 0} where
  abbrev pub resume : (A → Exec B) → Result A → Exec B
  resume f (ok a) now w = f a now w
  resume f (err e) now w = (err e, w)

  infixl 5 ◌>>=◌ ◌>>◌
  unfoldable pub ◌>>=◌ : Exec A → (A → Exec B) → Exec B
  ◌>>=◌ m f now w = let (r, w') = m now w in resume f r now w'

  abbrev pub ◌>>◌ : Exec A → Exec B → Exec B
  m >> n = m >>= λ _. n

-- if cond { return err }
unfoldable pub reject_if : Bool → Error → Exec (Unit {0})
unfolding raise pure
reject_if b e = if b then raise e else pure tt
