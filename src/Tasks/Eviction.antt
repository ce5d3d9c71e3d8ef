-- ===== src/Tasks/Eviction.antt =====
-- `evictLocked` of internal/service/tasks.go: the size cap, and which tasks it may drop.
use mathlib.Core.List.{Perm}
use iskele.Common.{
  ℕ, String, ◌≡◌, ◌≢◌, refl, sym, ◌∙◌, subst, Bool, true, false, not, ◌&&◌, ◌||◌, none, some, List,
  [], ◌∷◌, arith, eq_iff, eq_refl, ◌==◌, if◌then◌else◌, inl, inr, ◌⊎◌, ◌≤◌, Bool-cases, leb, leb→le,
  length, lookup, insert, erase, lookup-insert, lookup-erase, any, any-perm, insert-IsTable,
}
use iskele.Tasks.{
  Tasks, TrackedTask, terminal, is_terminal, evict_loop, evict, start_with_id, new_task, max_tasks,
  finished_tasks, finished_before,
}
use iskele.Tasks.Registry.{IsCoherent, IsRegistry, new_task-IsCoherent}

-- What `sort.Slice` documents: it rearranges its list.
pub record IsSortSlice {A : Type 0} (sort_slice : (A → A → Bool) → List A → List A) : Type 0 where
  pub permutes : (less : A → A → Bool) (xs : List A) → Perm (sort_slice less xs) xs

abbrev has_id : String → TrackedTask → Bool
has_id k t = t.task.id == k

absent-finished :
    (id : String) (r : Tasks)
    → IsRegistry r
    → lookup id r ≡ none
    → any (has_id id) (finished_tasks r) ≡ false
unfolding finished_tasks lookup
absent-finished id [] h e = refl
absent-finished id ((k, t) ∷ r) (c, fresh, h) e =
    ground (arith, absent-finished id r h, eq_iff k id, eq_iff t.task.id id, c.own_id)

running-not_finished :
    (id : String) (t : TrackedTask) (r : Tasks)
    → IsRegistry r
    → lookup id r ≡ some t
    → is_terminal t ≡ false
    → any (has_id id) (finished_tasks r) ≡ false
unfolding finished_tasks lookup
running-not_finished id t [] h e live = cc
running-not_finished id t ((k, u) ∷ r) (c, fresh, h) e live = elim (Bool-cases (k == id)) [
  | inl same ↦
      ground (arith, absent-finished k r h fresh, eq_iff k id, eq_iff u.task.id id, c.own_id)
  | inr other ↦ ground (
    arith,
    running-not_finished id t r h (ground arith) live,
    eq_iff k id,
    eq_iff u.task.id id,
    c.own_id,
  )
]

lookup-evict_loop :
    (id : String) (ts : List TrackedTask) (r : Tasks)
    → any (has_id id) ts ≡ false
    → lookup id (evict_loop ts r) ≡ lookup id r
unfolding evict_loop
lookup-evict_loop id [] r none_has = refl
lookup-evict_loop id (t ∷ ts) r none_has =
    ground (arith, lookup-evict_loop id ts (erase t.task.id r), lookup-erase t.task.id id r)

-- Every finished task of the registry is named by the list.
abbrev covered : List TrackedTask → Tasks → Bool
covered ts [] = true
covered ts ((k, t) ∷ r) = (not (is_terminal t) || any (has_id k) ts) && covered ts r

covered-erase :
    (t : TrackedTask) (ts : List TrackedTask) (r : Tasks)
    → covered (t ∷ ts) r ≡ true
    → covered ts (erase t.task.id r) ≡ true
unfolding erase
covered-erase t ts [] h = refl
covered-erase t ts ((k, u) ∷ r) h =
    ground (arith, covered-erase t ts r, eq_iff k t.task.id, eq_iff t.task.id k)

covered_none : (r : Tasks) → covered [] r ≡ true → finished_tasks r ≡ []
unfolding finished_tasks
covered_none [] h = refl
covered_none ((k, t) ∷ r) h = ground (arith, covered_none r)

covered_weaken :
    (us ts : List TrackedTask)
    → ((k : String) → any (has_id k) us ≡ true → any (has_id k) ts ≡ true)
    → (r : Tasks) → covered us r ≡ true
    → covered ts r ≡ true
covered_weaken us ts imp [] h = refl
covered_weaken us ts imp ((k, t) ∷ r) h = ground (arith, imp k, covered_weaken us ts imp r)

finished-cons :
    (k : String) (t : TrackedTask) (r : Tasks)
    → finished_tasks ((k, t) ∷ r)
      ≡ (if is_terminal t then t ∷ finished_tasks r else finished_tasks r)
unfolding finished_tasks
finished-cons k t r = refl

covered_finished : (r : Tasks) → IsRegistry r → covered (finished_tasks r) r ≡ true
covered_finished [] h = refl
covered_finished ((k, t) ∷ r) (c, fresh, h) =
    let rest : covered (finished_tasks r) r ≡ true = covered_finished r h in
    let more : covered (t ∷ finished_tasks r) r ≡ true =
      covered_weaken (finished_tasks r) (t ∷ finished_tasks r) (λ j e. ground arith) r rest in
    elim (Bool-cases (is_terminal t)) [
      | inl ended ↦
          subst (λ ts. covered ts ((k, t) ∷ r) ≡ true) {x = t ∷ finished_tasks r}
            (sym (rw (finished-cons, ended))) (ground (arith, more, eq_iff t.task.id k, c.own_id))
      | inr live ↦
          subst (λ ts. covered ts ((k, t) ∷ r) ≡ true) {x = finished_tasks r}
            (sym (rw (finished-cons, live))) (ground (arith, rest))
    ]

evict_loop_fits :
    (ts : List TrackedTask) (r : Tasks)
    → covered ts r ≡ true
    → (length (evict_loop ts r) ≤ max_tasks) ⊎ (finished_tasks (evict_loop ts r) ≡ [])
unfolding evict_loop
evict_loop_fits [] r h = inr (covered_none r h)
evict_loop_fits (t ∷ ts) r h = elim (Bool-cases (leb (length r) max_tasks)) [
  | inl fits ↦ rw fits (inl (leb→le (length r) max_tasks fits))
  | inr over ↦ rw over (evict_loop_fits ts (erase t.task.id r) (covered-erase t ts r h))
]

module _ (sort_slice : (TrackedTask → TrackedTask → Bool) → List TrackedTask → List TrackedTask)
    (sorts : IsSortSlice sort_slice) where
  finished-sort :
      (k : String) (r : Tasks)
      → any (has_id k) (sort_slice finished_before (finished_tasks r))
        ≡ any (has_id k) (finished_tasks r)
  finished-sort k r = any-perm (has_id k) (sorts.permutes finished_before (finished_tasks r))

  lookup-evict :
      (id : String) (t : TrackedTask) (r : Tasks)
      → IsRegistry r
      → lookup id r ≡ some t
      → is_terminal t ≡ false
      → lookup id (evict sort_slice r) ≡ some t
  unfolding evict
  lookup-evict id t r h e live = elim (Bool-cases (leb (length r) max_tasks)) [
    | inl fits ↦ rw fits e
    | inr over ↦
        rw over
          (lookup-evict_loop id _ r (finished-sort id r ∙ running-not_finished id t r h e live) ∙ e)
  ]

  evict_fits :
      (r : Tasks)
      → IsRegistry r
      → (length (evict sort_slice r) ≤ max_tasks) ⊎ (finished_tasks (evict sort_slice r) ≡ [])
  unfolding evict
  evict_fits r h = elim (Bool-cases (leb (length r) max_tasks)) [
    | inl fits ↦ rw fits (inl (leb→le (length r) max_tasks fits))
    | inr over ↦ rw over (
        evict_loop_fits _ r (
          covered_weaken (finished_tasks r) _ (λ k e. finished-sort k r ∙ e) r
            (covered_finished r h)))
  ]

  -- Registering a task never drops one that still runs: whatever the size of the registry, another
  -- task that runs keeps its entry, and the new task has its own.
  pub running-start :
      (id : String) (t : TrackedTask) (k kind target username : String) (now : ℕ) (r : Tasks)
      → IsRegistry r
      → lookup id r ≡ some t
      → is_terminal t ≡ false
      → id ≢ k
      → (lookup id (start_with_id sort_slice k kind target username now r) ≡ some t)
        × (lookup k (start_with_id sort_slice k kind target username now r)
            ≡ some (new_task k kind target username now))
  unfolding start_with_id
  running-start id t k kind target username now r h e live ne =
      let new = new_task k kind target username now in
      let h' : IsRegistry (insert k new r) =
        insert-IsTable IsCoherent k new r (new_task-IsCoherent k kind target username now) h in
      (
        lookup-evict id t (insert k new r) h'
            (ground (arith, lookup-insert k id new r, eq_iff k id)) live,
        lookup-evict k new (insert k new r) h' (rw (lookup-insert, eq_refl))
            (unfold new_task terminal in refl),
      )

  -- A task that has just been registered is there, and runs.
  pub start-running :
      (id kind target username : String) (now : ℕ) (r : Tasks)
      → IsRegistry r
      → lookup id (start_with_id sort_slice id kind target username now r)
        ≡ some (new_task id kind target username now)
  unfolding start_with_id
  start-running id kind target username now r h =
      let new = new_task id kind target username now in
      lookup-evict id new (insert id new r)
        (insert-IsTable IsCoherent id new r (new_task-IsCoherent id kind target username now) h)
        (rw (lookup-insert, eq_refl)) (unfold new_task terminal in refl)

  -- After a task has been registered the registry is within its cap, or holds only tasks that
  -- still run.
  pub start_fits :
      (id kind target username : String) (now : ℕ) (r : Tasks)
      → IsRegistry r
      → let r' = start_with_id sort_slice id kind target username now r in
        (length r' ≤ max_tasks) ⊎ (finished_tasks r' ≡ [])
  unfolding start_with_id
  start_fits id kind target username now r h =
      evict_fits _
        (insert-IsTable IsCoherent id _ r (new_task-IsCoherent id kind target username now) h)
