-- ===== src/Tasks/Calls.antt =====
-- The registry over any sequence of calls of internal/service/tasks.go.
use iskele.Common.{
  ℕ, String, ◌≡◌, refl, Bool, true, false, Option, none, some, List, [], ◌∷◌, arith, eq_iff,
  eq_refl, ◌==◌, Option-cases, inl, inr, ◌⊎◌, lookup, insert, erase, lookup-insert, lookup-erase,
  lookup-erase_if, any,
}
use iskele.Tasks.{
  new_task, Tasks, TrackedTask, Progress, Outcome, task_finished, canceled, terminal, is_terminal,
  progress, finish_task, finish, cancel_task, cancel, sweep, is_stale, evict_loop, evict,
  start_with_id, finished_tasks, finished_before, report,
}
use iskele.Tasks.Registry.{
  IsCoherent, IsRegistry, start-IsRegistry, progress-IsRegistry, finish-IsRegistry,
  cancel-IsRegistry, sweep-IsRegistry, cancel-on_running, on_running,
}

pub data Call : Type 0 where
  start : String → String → String → String → ℕ → Call
  report_progress : String → Progress → String → Call
  end : String → Outcome → ℕ → Call
  stop : String → ℕ → Call
  show : ℕ → Call

-- Whether a call registers a new task under this id.
abbrev pub starts : String → Call → Bool
starts id (start k _ _ _ _) = k == id
starts id _ = false

module _
    (sort_slice : (TrackedTask → TrackedTask → Bool) → List TrackedTask → List TrackedTask) where
  -- the registry that a call leaves
  unfoldable pub apply : Call → Tasks → Tasks
  apply (start id kind target username now) r =
      start_with_id sort_slice id kind target username now r
  apply (report_progress id p message) r = progress id p message r
  apply (end id o now) r = finish id o now r
  apply (stop id now) r = (cancel id now r).0
  apply (show now) r = sweep now r

  unfoldable pub run : List Call → Tasks → Tasks
  run [] r = r
  run (c ∷ cs) r = run cs (apply c r)

  apply-IsRegistry : (c : Call) (r : Tasks) → IsRegistry r → IsRegistry (apply c r)
  unfolding apply
  apply-IsRegistry (start id kind target username now) r h =
      start-IsRegistry sort_slice id kind target username now r h
  apply-IsRegistry (report_progress id p message) r h = progress-IsRegistry id p message r h
  apply-IsRegistry (end id o now) r h = finish-IsRegistry id o now r h
  apply-IsRegistry (stop id now) r h = cancel-IsRegistry id now r h
  apply-IsRegistry (show now) r h = sweep-IsRegistry now r h

  -- After any calls on a well-formed registry, every task stands under its own id, can be canceled
  -- exactly while it runs, and has had its cancel function called exactly when it has ended.
  pub run-IsRegistry : (cs : List Call) (r : Tasks) → IsRegistry r → IsRegistry (run cs r)
  unfolding run
  run-IsRegistry [] r h = h
  run-IsRegistry (c ∷ cs) r h = run-IsRegistry cs (apply c r) (apply-IsRegistry c r h)

-- The entry is gone, or is `t`.
abbrev pub GoneOr : TrackedTask → Option TrackedTask → Type 0
GoneOr t o = (o ≡ none) ⊎ (o ≡ some t)

module _ (id : String) (t : TrackedTask) where
  erase-GoneOr :
      (k : String) (r : Tasks) → GoneOr t (lookup id r) → GoneOr t (lookup id (erase k r))
  erase-GoneOr k r g = ground (arith, lookup-erase k id r)

  evict_loop-GoneOr :
      (ts : List TrackedTask) (r : Tasks)
      → GoneOr t (lookup id r)
      → GoneOr t (lookup id (evict_loop ts r))
  unfolding evict_loop
  evict_loop-GoneOr [] r g = g
  evict_loop-GoneOr (u ∷ ts) r g =
      ground (arith, evict_loop-GoneOr ts (erase u.task.id r) (erase-GoneOr u.task.id r g))

  sweep-GoneOr :
      (now : ℕ) (r : Tasks)
      → IsRegistry r
      → GoneOr t (lookup id r)
      → GoneOr t (lookup id (sweep now r))
  unfolding sweep
  sweep-GoneOr now r h g = ground (arith, lookup-erase_if IsCoherent (is_stale now) id r h)

  on_running-GoneOr :
      (k : String) (f : TrackedTask → TrackedTask) (r : Tasks)
      → is_terminal t ≡ true
      → GoneOr t (lookup id r)
      → GoneOr t (lookup id (on_running k f r))
  on_running-GoneOr k f r e g = elim (Option-cases (lookup k r)) [
    | inl a ↦ ground (arith, a)
    | inr (u, a) ↦ ground (arith, a, lookup-insert k id (f u) r, eq_iff k id)
  ]

module _
    (sort_slice : (TrackedTask → TrackedTask → Bool) → List TrackedTask → List TrackedTask) where
  start-GoneOr :
      (id : String) (t : TrackedTask) (k kind target username : String) (now : ℕ) (r : Tasks)
      → (k == id) ≡ false
      → GoneOr t (lookup id r)
      → GoneOr t (lookup id (start_with_id sort_slice k kind target username now r))
  unfolding start_with_id evict
  start-GoneOr id t k kind target username now r other g =
      let r' = insert k (new_task k kind target username now) r in
      let g' : GoneOr t (lookup id r') = rw (lookup-insert, other) g in
      ground
        (arith, g', evict_loop-GoneOr id t (sort_slice finished_before (finished_tasks r')) r' g')

  apply-GoneOr :
      (id : String) (t : TrackedTask) (c : Call) (r : Tasks)
      → is_terminal t ≡ true
      → starts id c ≡ false
      → IsRegistry r
      → GoneOr t (lookup id r)
      → GoneOr t (lookup id (apply sort_slice c r))
  unfolding apply progress finish
  apply-GoneOr id t (start k kind target username now) r e s h g =
      start-GoneOr id t k kind target username now r s g
  apply-GoneOr id t (report_progress k p message) r e s h g =
      on_running-GoneOr id t k (report p message) r e g
  apply-GoneOr id t (end k o now) r e s h g = on_running-GoneOr id t k (finish_task o now) r e g
  apply-GoneOr id t (stop k now) r e s h g =
      rw cancel-on_running (on_running-GoneOr id t k (cancel_task now) r e g)
  apply-GoneOr id t (show now) r e s h g = sweep-GoneOr id t now r h g

  GoneOr-run :
      (id : String) (t : TrackedTask) (cs : List Call) (r : Tasks)
      → is_terminal t ≡ true
      → any (starts id) cs ≡ false
      → IsRegistry r
      → GoneOr t (lookup id r)
      → GoneOr t (lookup id (run sort_slice cs r))
  unfolding run
  GoneOr-run id t [] r e s h g = g
  GoneOr-run id t (c ∷ cs) r e s h g =
      GoneOr-run id t cs (apply sort_slice c r) e (ground arith) (apply-IsRegistry sort_slice c r h)
        (apply-GoneOr id t c r e (ground arith) h g)

  -- Once a task has ended, no sequence of calls changes its record: as long as its id is not
  -- registered again, its entry is as it was or has been dropped.
  pub frozen :
      (id : String) (t : TrackedTask) (cs : List Call) (r : Tasks)
      → is_terminal t ≡ true
      → any (starts id) cs ≡ false
      → IsRegistry r
      → lookup id r ≡ some t
      → GoneOr t (lookup id (run sort_slice cs r))
  frozen id t cs r e s h g = GoneOr-run id t cs r e s h (inr g)

-- What `Cancel` makes of an entry: the task is canceled, ended now, and can no longer be canceled; its
-- cancel function has been called; and the rest of the task is as it was.
pub record IsCanceledFrom (t : TrackedTask) (now : ℕ) (u : TrackedTask) : Type 0 where
  pub state : u.task.state ≡ canceled
  pub finished_at : u.task.finished_at ≡ now
  pub cancelable : u.task.cancelable ≡ false
  pub stopped : u.cancel_called ≡ true
  pub same_id : u.task.id ≡ t.task.id
  pub same_owner : u.task.username ≡ t.task.username
  pub same_start : u.task.started_at ≡ t.task.started_at

cancel_task-IsCanceledFrom : (t : TrackedTask) (now : ℕ) → IsCanceledFrom t now (cancel_task now t)
unfolding cancel_task
cancel_task-IsCanceledFrom t now = record {
  state = refl;
  finished_at = refl;
  cancelable = refl;
  stopped = refl;
  same_id = refl;
  same_owner = refl;
  same_start = refl;
}

-- `Cancel` of a task that runs is told nothing is wrong, marks the task canceled at that instant and
-- calls its cancel function, and leaves every other task alone; a second `Cancel` is told that the task
-- has finished, and a late `Progress` or `Finish` changes nothing.
pub cancel_once :
    (id : String) (t : TrackedTask) (now later : ℕ) (o : Outcome) (p : Progress) (message : String)
    (r : Tasks)
    → lookup id r ≡ some t
    → is_terminal t ≡ false
    → ((cancel id now r).1 ≡ none)
      × ((u : TrackedTask) × (lookup id (cancel id now r).0 ≡ some u) × IsCanceledFrom t now u)
      × ((k : String) → (id == k) ≡ false → lookup k (cancel id now r).0 ≡ lookup k r)
      × ((cancel id later (cancel id now r).0).1 ≡ some task_finished)
      × (finish id o later (cancel id now r).0 ≡ (cancel id now r).0)
      × (progress id p message (cancel id now r).0 ≡ (cancel id now r).0)
unfolding cancel finish progress terminal
cancel_once id t now later o p message r e live =
    let found : lookup id (insert id (cancel_task now t) r) ≡ some (cancel_task now t) =
      rw (lookup-insert, eq_refl) in
    (
      ground (arith),
      (cancel_task now t, ground (arith, found), cancel_task-IsCanceledFrom t now),
      (λ k other. ground (arith, lookup-insert id k (cancel_task now t) r)),
      ground (arith, found),
      ground (arith, found),
      ground (arith, found),
    )
