-- ===== src/Workloads/Stacks/Claim/Exclusive.antt =====
-- What keeps two operations of one stack apart in internal/service/stackup.go.
use iskele.Common.{
  ℕ, String, ◌≡◌, ◌≢◌, refl, ap, ◌∙◌, sym, Bool, false, Option, none, some, List, [], ◌∷◌, ◌++◌,
  All, lookup, subst,
}
use iskele.Tasks.{Tasks, TrackedTask, Task, terminal, is_terminal, get, new_task}
use iskele.Tasks.Registry.{IsRegistry, start-IsRegistry}
use iskele.Tasks.Eviction.{IsSortSlice, running-start, start-running}
use iskele.Workloads.Stacks.Claim.{
  Claim, Claims, is_idle, is_free, registered, Step, goes_on, is_refused, begins, Steps, stay,
  then_step,
}

-- Claims of other stacks.
abbrev pub AreElsewhere : String → List Claim → Type 0
AreElsewhere id = All (λ c. id ≢ c.stack_id)

elsewhere_split :
    (id : String) (before : List Claim) (c : Claim) (after : List Claim)
    → AreElsewhere id (before ++ (c ∷ after))
    → (id ≢ c.stack_id) × AreElsewhere id (before ++ after)
elsewhere_split id [] c after h = h
elsewhere_split id (b ∷ before) c after (here, h) =
    let (own, rest) = elsewhere_split id before c after h in (own, (here, rest))

-- A stack whose task runs is not free.
busy :
    (c : Claim) (r : Tasks) (t : TrackedTask)
    → lookup c.stack_id r ≡ some t
    → is_terminal t ≡ false
    → is_free c r ≡ false
unfolding is_free get is_idle
busy c r t h live =
    ap (λ o. is_idle (elim o as (λ x. Option Task) [ none ↦ none | some u ↦ some u.task ])) h ∙ live

module _ (sort_slice : (TrackedTask → TrackedTask → Bool) → List TrackedTask → List TrackedTask)
    (sorts : IsSortSlice sort_slice) (id : String) (t : TrackedTask)
    (live : is_terminal t ≡ false) where
  -- The task of the stack runs, and every claim in progress is of another stack.
  pub record IsHeld (s : Claims) : Type 0 where
    pub registry : IsRegistry s.tasks
    pub held : lookup id s.tasks ≡ some t
    pub others : AreElsewhere id s.admitted
    pub begun_others : AreElsewhere id s.begun

  Step-IsHeld : (s s' : Claims) → Step sort_slice s s' → IsHeld s → IsHeld s'
  Step-IsHeld s s' (goes_on c _ free) h = record {
    registry = h.registry;
    held = h.held;
    others = (own, h.others);
    begun_others = h.begun_others;
  }
    where
      own : id ≢ c.stack_id
      own same =
          let taken = busy c s.tasks t (subst (λ i. lookup i s.tasks ≡ some t) same h.held) live in
          cc
  Step-IsHeld s s' (is_refused c _ taken) h = h
  Step-IsHeld s s' (begins c now before after r begun) h =
      let (own, rest) = elsewhere_split id before c after h.others in
      record {
        registry =
            start-IsRegistry sort_slice c.stack_id c.kind c.stack_name c.username now r h.registry;
        held =
            (running-start sort_slice sorts id t c.stack_id c.kind c.stack_name c.username now r
              h.registry h.held live own).0;
        others = rest;
        begun_others = (own, h.begun_others);
      }

  Steps-IsHeld : {s s' : Claims} → Steps sort_slice s s' → IsHeld s → IsHeld s'
  Steps-IsHeld (stay _) h = h
  Steps-IsHeld (then_step step steps) h = Steps-IsHeld steps (Step-IsHeld _ _ step h)

-- Once an operation of a stack has been registered, and no other claim of that stack is then between
-- its two steps, no claim of the stack is let through, and none registers, as long as the task runs:
-- it stays in the registry as it was registered, whatever steps of claims of any stacks follow, in any
-- order, and however full the registry is, where it was well-formed and sort.Slice permutes its list.
pub claim_exclusive :
    (sort_slice : (TrackedTask → TrackedTask → Bool) → List TrackedTask → List TrackedTask)
    (first : Claim) (now : ℕ) (r : Tasks) (admitted : List Claim) (s : Claims)
    → IsSortSlice sort_slice
    → IsRegistry r
    → AreElsewhere first.stack_id admitted
    → Steps sort_slice
        (record { tasks = registered sort_slice first now r; admitted = admitted; begun = [] })
        s
    → (lookup first.stack_id s.tasks
        ≡ some (new_task first.stack_id first.kind first.stack_name first.username now))
      × ((second : Claim) → second.stack_id ≡ first.stack_id → is_free second s.tasks ≡ false)
      × AreElsewhere first.stack_id s.begun
claim_exclusive sort_slice first now r admitted s sorts h others steps =
    let t = new_task first.stack_id first.kind first.stack_name first.username now in
    let live : is_terminal t ≡ false = unfold new_task terminal in refl in
    let kept = Steps-IsHeld sort_slice sorts first.stack_id t live steps (record {
      registry =
          start-IsRegistry sort_slice first.stack_id first.kind first.stack_name first.username now
            r h;
      held =
          start-running sort_slice sorts first.stack_id first.kind first.stack_name first.username
            now r h;
      others = others;
      begun_others = tt;
    }) in
    (
      kept.held,
      (λ second own.
          busy second s.tasks t (subst (λ i. lookup i s.tasks ≡ some t) (sym own) kept.held) live),
      kept.begun_others,
    )
