-- ===== src/Workloads/Stacks/Status/Closed.antt =====
-- No stack is left marked as deploying: internal/service/stackup.go.
use iskele.Common.{
  ℕ, String, ◌≡◌, refl, sym, Bool, true, false, List, [], ◌∷◌, map, any, select, All, All-map,
  arith, ◌==◌, eq_iff, eq_refl, Bool-cases, inl, inr,
}
use iskele.Workloads.Engine.{Outcome, Fault, returned, raised, Job}
use iskele.Workloads.Stacks.Status.{
  StackStatus, deploying, deployed, failed, StackRow, Stacks, is_deploying, with_status, set_status,
  deploying_rows, restarted, close_each, reconcile_deploying, record_outcome, run_up,
}

-- the status that an outcome is recorded as
abbrev pub status_of : Outcome (Unit {0}) → StackStatus
status_of (returned u) = deployed
status_of (raised f) = failed

-- Every row of the stack has a status.
abbrev pub HaveStatus : String → StackStatus → List StackRow → Type 0
HaveStatus id status rows = All (λ r. (r.id == id) ≡ true → r.status ≡ status) rows

with_status-HaveStatus :
    (id : String) (status : StackStatus) (failure : String) (now : ℕ) (rows : List StackRow)
    → HaveStatus id status (map (with_status id status failure now) rows)
with_status-HaveStatus id status failure now [] = tt
with_status-HaveStatus id status failure now (r ∷ rows) =
    (written r, with_status-HaveStatus id status failure now rows)
  where
    written :
        (r : StackRow)
        → ((with_status id status failure now r).id == id) ≡ true
        → (with_status id status failure now r).status ≡ status
    written r = ground arith

record_outcome-HaveStatus :
    (id failure : String) (now : ℕ) (o : Outcome (Unit {0})) (s : Stacks) (rest : List Bool)
    → s.faults ≡ false ∷ rest
    → HaveStatus id (status_of o) (record_outcome id failure now o s).rows
unfolding record_outcome set_status
record_outcome-HaveStatus id failure now (returned u) s rest e =
    rw e (with_status-HaveStatus id deployed "" now s.rows)
record_outcome-HaveStatus id failure now (raised f) s rest e =
    rw e (with_status-HaveStatus id failed failure now s.rows)

set_status-faults :
    (id : String) (status : StackStatus) (failure : String) (now : ℕ) (s : Stacks) (b : Bool)
    (rest : List Bool)
    → s.faults ≡ b ∷ rest
    → (set_status id status failure now s).1.faults ≡ rest
unfolding set_status
set_status-faults id status failure now s true rest e = rw e refl
set_status-faults id status failure now s false rest e = rw e refl

-- A deploy that ends is recorded, whichever way it ends: afterwards the stack is marked deployed if the
-- deploy returned and failed if it did not, never deploying, also when the engine of the database
-- refused to mark it first, as long as it does not refuse the last statement.
pub run_up-HaveStatus :
    {E : Type 0} (id failure : String) (now : ℕ) (unmarked : Fault) (run : Job E (Unit {0}))
    (s : Stacks) (e : E) (first : Bool) (rest : List Bool)
    → s.faults ≡ first ∷ false ∷ rest
    → let (outcome, s', e') = run_up id failure now unmarked run s e in
      HaveStatus id (status_of outcome) s'.rows
unfolding run_up
run_up-HaveStatus id failure now unmarked run s e first rest faults =
    record_outcome-HaveStatus id failure now _ (set_status id deploying "" now s).1 rest
      (set_status-faults id deploying "" now s first (false ∷ rest) faults)

-- Every row that is marked deploying has its id among these.
abbrev AreListed : List StackRow → List StackRow → Type 0
AreListed listed rows =
    All (λ r. is_deploying r.status ≡ true → any (λ q. q.id == r.id) listed ≡ true) rows

-- Closing a stack takes it off the list.
closed_one :
    (q : StackRow) (listed : List StackRow) (now : ℕ) (rows : List StackRow)
    → AreListed (q ∷ listed) rows
    → AreListed listed (map (with_status q.id failed restarted now) rows)
closed_one q listed now [] h = tt
closed_one q listed now (r ∷ rows) (h, hs) = (one r h, closed_one q listed now rows hs)
  where
    one :
        (r : StackRow)
        → (is_deploying r.status ≡ true → any (λ p. p.id == r.id) (q ∷ listed) ≡ true)
        → is_deploying (with_status q.id failed restarted now r).status ≡ true
        → any (λ p. p.id == (with_status q.id failed restarted now r).id) listed ≡ true
    one r h = elim (Bool-cases (r.id == q.id)) [
      | inl same ↦ rw same (λ e. cc)
      | inr other ↦ rw other (λ e. ground (arith, h e, eq_iff r.id q.id, eq_iff q.id r.id))
    ]

close_each-AreListed :
    (listed : List StackRow) (now : ℕ) (rows : List StackRow)
    → AreListed listed rows
    → AreListed [] (close_each listed now (record { rows = rows; faults = [] })).1.rows
unfolding close_each set_status
close_each-AreListed [] now rows h = h
close_each-AreListed (q ∷ listed) now rows h =
    close_each-AreListed listed now _ (closed_one q listed now rows h)

-- The rows that a test picks are among those that it picks.
selected-AreListed :
    (rows : List StackRow) → AreListed (select (λ r. is_deploying r.status) rows) rows
selected-AreListed [] = tt
selected-AreListed (r ∷ rows) = elim (Bool-cases (is_deploying r.status)) [
  | inl marked ↦ rw marked (
    λ e. rw eq_refl refl,
    All-map _ _ (λ x h e. ground (arith, h e)) rows (selected-AreListed rows),
  )
  | inr other ↦
      (λ e. cc, All-map _ _ (λ x h e. ground (arith, other, h e)) rows (selected-AreListed rows))
]

-- After a restart no stack is left marked as deploying, when the engine refuses no statement.
pub reconcile_deploying-closed :
    (now : ℕ) (rows : List StackRow)
    → let s : Stacks = record { rows = rows; faults = [] } in
      All (λ r. is_deploying r.status ≡ false) (reconcile_deploying now s).1.rows
unfolding reconcile_deploying deploying_rows
reconcile_deploying-closed now rows =
    All-map _ _ (λ r h. unlisted (is_deploying r.status) h) _
      (close_each-AreListed _ now rows (selected-AreListed rows))
  where
    unlisted : (b : Bool) → (b ≡ true → false ≡ true) → b ≡ false
    unlisted true h = sym (h refl)
    unlisted false h = refl
