-- ===== src/Workloads/Stacks/Claim.antt =====
-- internal/service/stackup.go: `claim`, which registers a stack's operation as a task of its own id.
-- The registry is there. `claim` takes its mutex twice, once for `Get` and once for `StartWithID`: the
-- two are steps of their own, between which other requests may take theirs.
pub mod Exclusive
pub mod Race
use iskele.Common.{ℕ, String, ◌≡◌, Bool, true, false, Option, none, some, List, ◌∷◌, ◌++◌}
use iskele.Tasks.{Tasks, TrackedTask, Task, terminal, get, start_with_id}

-- the stack, by its id and name, and who asks for what
pub record Claim : Type 0 where
  pub stack_id : String
  pub stack_name : String
  pub kind : String
  pub username : String

-- what `Get` decides: a stack whose task still runs is busy
unfoldable pub is_idle : Option Task → Bool
unfolding terminal
is_idle none = true
is_idle (some task) = terminal task.state

-- the first step: whether `claim` goes on, or returns ErrStackBusy
unfoldable pub is_free : Claim → Tasks → Bool
unfolding get is_idle
is_free c r = is_idle (get c.stack_id r)

-- The registry, the claims that have found their stack free and have not registered it yet, and those
-- that have registered, the last one first.
pub record Claims : Type 0 where
  pub tasks : Tasks
  pub admitted : List Claim
  pub begun : List Claim

module _
    (sort_slice : (TrackedTask → TrackedTask → Bool) → List TrackedTask → List TrackedTask) where
  -- the second step
  abbrev pub registered : Claim → ℕ → Tasks → Tasks
  registered c now r = start_with_id sort_slice c.stack_id c.kind c.stack_name c.username now r

  -- One step of a claim, by whichever request.
  pub data Step : Claims → Claims → Type 0 where
    goes_on :
        (c : Claim) (s : Claims)
        → is_free c s.tasks ≡ true
        → Step s (record s { admitted = c ∷ s.admitted })
    is_refused : (c : Claim) (s : Claims) → is_free c s.tasks ≡ false → Step s s
    begins :
        (c : Claim) (now : ℕ) (before after : List Claim) (r : Tasks) (begun : List Claim)
        → Step
            (record { tasks = r; admitted = before ++ (c ∷ after); begun = begun })
            (record { tasks = registered c now r; admitted = before ++ after; begun = c ∷ begun })

  pub data Steps : Claims → Claims → Type 0 where
    stay : (s : Claims) → Steps s s
    then_step : {s s' s'' : Claims} → Step s s' → Steps s' s'' → Steps s s''
