-- ===== src/Workloads/Stacks/Status.antt =====
-- internal/store/stacks.go and internal/service/stackup.go: the status of a stack, which a deploy
-- writes before and after its work. `faults` says of each statement to come whether the engine
-- refuses it, as in Store/Exec; a failure's text is the message of the error.
pub mod Closed
use iskele.Common.{
  ℕ, suc, String, Bool, true, false, ◌&&◌, List, [], ◌∷◌, map, any, select, length, ◌==◌,
  if◌then◌else◌,
}
use iskele.Workloads.Engine.{Outcome, Fault, returned, raised, Job}

pub data StackStatus : Type 0 where
  created deploying deployed failed stopped : StackStatus

-- The columns of `stacks` that a status is written to.
pub record StackRow : Type 0 where
  pub id : String
  pub status : StackStatus
  pub last_error : String
  pub last_deployed_at : ℕ
  pub updated_at : ℕ

pub record Stacks : Type 0 where
  pub rows : List StackRow
  pub faults : List Bool

abbrev pub is_deploying : StackStatus → Bool
is_deploying deploying = true
is_deploying created = false
is_deploying deployed = false
is_deploying failed = false
is_deploying stopped = false

abbrev is_deployed : StackStatus → Bool
is_deployed deployed = true
is_deployed created = false
is_deployed deploying = false
is_deployed failed = false
is_deployed stopped = false

-- what the UPDATE makes of a row
abbrev pub with_status : String → StackStatus → String → ℕ → StackRow → StackRow
with_status id status failure now r =
    if r.id == id
    then record r {
      status = status;
      last_error = failure;
      updated_at = now;
      last_deployed_at = if is_deployed status then now else r.last_deployed_at;
    }
    else r

-- the UPDATE, carried out: whether a row was affected
abbrev pub write_status : String → StackStatus → String → ℕ → Stacks → Bool × Stacks
write_status id status failure now s = (
  any (λ r. r.id == id) s.rows,
  record s { rows = map (with_status id status failure now) s.rows },
)

-- SetStatus: whether it succeeded
unfoldable pub set_status : String → StackStatus → String → ℕ → Stacks → Bool × Stacks
set_status id status failure now s = elim s.faults [
  | [] ↦ write_status id status failure now s
  | true ∷ rest ↦ (false, record s { faults = rest })
  | false ∷ rest ↦ write_status id status failure now (record s { faults = rest })
]

-- Deploying, where the query is not refused
unfoldable pub deploying_rows : Stacks → List StackRow
deploying_rows s = select (λ r. is_deploying r.status) s.rows

abbrev restarted : String
restarted = "iskeled restarted while this stack was deploying"

-- the loop of ReconcileDeploying: how many were closed
unfoldable pub close_each : List StackRow → ℕ → Stacks → ℕ × Stacks
unfolding set_status
close_each [] now s = (0, s)
close_each (r ∷ rs) now s =
    let (ok, s') = set_status r.id failed restarted now s in
    let (closed, s'') = close_each rs now s' in (if ok then suc closed else closed, s'')

-- ReconcileDeploying
unfoldable pub reconcile_deploying : ℕ → Stacks → ℕ × Stacks
unfolding close_each deploying_rows
reconcile_deploying now s = close_each (deploying_rows s) now s

-- how Up records the outcome
abbrev pub record_outcome : String → String → ℕ → Outcome (Unit {0}) → Stacks → Stacks
unfolding set_status
record_outcome id failure now (returned u) s = (set_status id deployed "" now s).1
record_outcome id failure now (raised f) s = (set_status id failed failure now s).1

-- what follows the marking: the deploy, if the stack could be marked
abbrev run_marked : {E : Type 0} → Bool → Fault → Job E (Unit {0}) → E → Outcome (Unit {0}) × E
run_marked true unmarked run e = run e
run_marked false unmarked run e = (raised unmarked, e)

-- the goroutine of Up: `run` is the deploy, `unmarked` the fault of a stack that cannot be marked, and
-- `failure` what the fault says
unfoldable pub run_up :
    {E : Type 0}
    → String
    → String
    → ℕ
    → Fault
    → Job E (Unit {0})
    → Stacks
    → E
    → Outcome (Unit {0}) × Stacks × E
unfolding set_status record_outcome
run_up id failure now unmarked run s e =
    let (ok, marked) = set_status id deploying "" now s in
    let (outcome, e') = run_marked ok unmarked run e in
    (outcome, record_outcome id failure now outcome marked, e')
