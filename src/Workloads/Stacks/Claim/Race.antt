-- ===== src/Workloads/Stacks/Claim/Race.antt =====
-- Two claims of one stack at once, in internal/service/stackup.go.
use iskele.Common.{ℕ, ◌≡◌, refl, Bool, true, some, List, [], ◌∷◌, lookup, subst}
use iskele.Tasks.{TrackedTask, Tasks, new_task}
use iskele.Tasks.Registry.{IsRegistry, start-IsRegistry}
use iskele.Tasks.Eviction.{IsSortSlice, start-running}
use iskele.Workloads.Stacks.Claim.{
  Claim, Claims, is_free, registered, Steps, goes_on, begins, stay, then_step,
}

free_of :
    (first second : Claim) (r : Tasks)
    → second.stack_id ≡ first.stack_id
    → is_free first r ≡ true
    → is_free second r ≡ true
unfolding is_free
free_of first second r same free = rw same free

-- Two claims of one stack that is free may both be let through: each looks before the other has
-- registered. The second one's task then stands in the registry in place of the first one's, where the
-- registry is well-formed and sort.Slice permutes its list.
claim_race :
    (sort_slice : (TrackedTask → TrackedTask → Bool) → List TrackedTask → List TrackedTask)
    (first second : Claim) (now later : ℕ) (r : Tasks)
    → IsSortSlice sort_slice
    → IsRegistry r
    → second.stack_id ≡ first.stack_id
    → is_free first r ≡ true
    → (s : Claims) × Steps sort_slice (record { tasks = r; admitted = []; begun = [] }) s
      × (s.begun ≡ second ∷ first ∷ [])
      × (lookup first.stack_id s.tasks
          ≡ some (new_task first.stack_id second.kind second.stack_name second.username later))
claim_race sort_slice first second now later r sorts h same free = (
  record {
    tasks = registered sort_slice second later (registered sort_slice first now r);
    admitted = [];
    begun = second ∷ first ∷ [];
  },
  then_step (goes_on first _ free) (
      then_step (goes_on second _ (free_of first second r same free)) (
        then_step (begins first now (second ∷ []) [] r [])
          (then_step (begins second later [] [] _ (first ∷ [])) (stay _)))),
  refl,
  subst
      (λ id.
        lookup id (registered sort_slice second later (registered sort_slice first now r))
        ≡ some (new_task id second.kind second.stack_name second.username later))
      same
      (start-running sort_slice sorts second.stack_id second.kind second.stack_name second.username
        later (registered sort_slice first now r)
        (start-IsRegistry sort_slice first.stack_id first.kind first.stack_name first.username now r
          h)),
)
