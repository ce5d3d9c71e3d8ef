-- ===== src/Tasks/Registry.antt =====
-- The registry's invariant: what holds of every tracked task between two calls of
-- internal/service/tasks.go.
use iskele.Common.{
  ℕ, String, ◌≡◌, Bool, true, false, not, none, some, List, [], ◌∷◌, arith, if◌then◌else◌,
  Option-cases, inl, inr, Bool-cases, leb, length, lookup, insert, erase, IsTable, lookup-IsTable,
  insert-IsTable, erase-IsTable, erase_if-IsTable,
}
use iskele.Tasks.{
  Tasks, TrackedTask, Progress, Outcome, success, terminal, is_terminal, new_task, report, progress,
  finish_task, finish, cancel_task, cancel, sweep, is_stale, evict_loop, evict, start_with_id,
  max_tasks, finished_tasks, finished_before,
}

-- A tracked task stands under its own id, may be canceled exactly while it runs, and its context
-- has been canceled exactly when it has ended.
pub record IsCoherent (k : String) (t : TrackedTask) : Type 0 where
  pub own_id : t.task.id ≡ k
  pub cancelable_running : t.task.cancelable ≡ not (is_terminal t)
  pub cancel_matches : t.cancel_called ≡ is_terminal t

abbrev pub IsRegistry : Tasks → Type 0
IsRegistry = IsTable IsCoherent

pub new_task-IsCoherent :
    (id kind target username : String) (now : ℕ)
    → IsCoherent id (new_task id kind target username now)
unfolding new_task terminal
new_task-IsCoherent id kind target username now = ground arith

report-IsCoherent :
    (k : String) (p : Progress) (message : String) (t : TrackedTask)
    → IsCoherent k t
    → IsCoherent k (report p message t)
unfolding report terminal
report-IsCoherent k p message t c = ground arith

finish_task-IsCoherent :
    (k : String) (o : Outcome) (now : ℕ) (t : TrackedTask)
    → IsCoherent k t
    → IsCoherent k (finish_task o now t)
unfolding finish_task terminal
finish_task-IsCoherent k success now t c = ground arith
finish_task-IsCoherent k _ now t c = ground arith

cancel_task-IsCoherent :
    (k : String) (now : ℕ) (t : TrackedTask) → IsCoherent k t → IsCoherent k (cancel_task now t)
unfolding cancel_task terminal
cancel_task-IsCoherent k now t c = ground arith

evict_loop-IsRegistry :
    (ts : List TrackedTask) (r : Tasks) → IsRegistry r → IsRegistry (evict_loop ts r)
unfolding evict_loop
evict_loop-IsRegistry [] r h = h
evict_loop-IsRegistry (t ∷ ts) r h = elim (Bool-cases (leb (length r) max_tasks)) [
  | inl fits ↦ rw fits h
  | inr over ↦
      rw over
        (evict_loop-IsRegistry ts (erase t.task.id r) (erase-IsTable IsCoherent t.task.id r h))
]

module _
    (sort_slice : (TrackedTask → TrackedTask → Bool) → List TrackedTask → List TrackedTask) where
  evict-IsRegistry : (r : Tasks) → IsRegistry r → IsRegistry (evict sort_slice r)
  unfolding evict
  evict-IsRegistry r h = elim (Bool-cases (leb (length r) max_tasks)) [
    | inl fits ↦ rw fits h
    | inr over ↦ rw over (evict_loop-IsRegistry (sort_slice finished_before (finished_tasks r)) r h)
  ]

  pub start-IsRegistry :
      (id kind target username : String) (now : ℕ) (r : Tasks)
      → IsRegistry r
      → IsRegistry (start_with_id sort_slice id kind target username now r)
  unfolding start_with_id
  start-IsRegistry id kind target username now r h =
      evict-IsRegistry _
        (insert-IsTable IsCoherent id _ r (new_task-IsCoherent id kind target username now) h)

-- The change that a call makes to the task it names, if that task is there and still runs.
abbrev pub on_running : String → (TrackedTask → TrackedTask) → Tasks → Tasks
on_running id f r = elim (lookup id r) [
  | none ↦ r
  | some t ↦ if is_terminal t then r else insert id (f t) r
]

on_running-IsRegistry :
    (id : String) (f : TrackedTask → TrackedTask)
    → ((t : TrackedTask) → IsCoherent id t → IsCoherent id (f t))
    → (r : Tasks) → IsRegistry r
    → IsRegistry (on_running id f r)
on_running-IsRegistry id f keep r h = elim (Option-cases (lookup id r)) [
  | inl e ↦ rw (e, on_running) h
  | inr (t, e) ↦
      rw (e, on_running)
        (ite-IsRegistry (is_terminal t) r _ h
          (insert-IsTable IsCoherent id (f t) r (keep t (lookup-IsTable IsCoherent id r t h e)) h))
]
  where
    ite-IsRegistry :
        (b : Bool) (r s : Tasks) → IsRegistry r → IsRegistry s → IsRegistry (if b then r else s)
    ite-IsRegistry true r s x y = x
    ite-IsRegistry false r s x y = y

pub progress-IsRegistry :
    (id : String) (p : Progress) (message : String) (r : Tasks)
    → IsRegistry r
    → IsRegistry (progress id p message r)
unfolding progress
progress-IsRegistry id p message =
    on_running-IsRegistry id (report p message) (report-IsCoherent id p message)

pub finish-IsRegistry :
    (id : String) (o : Outcome) (now : ℕ) (r : Tasks)
    → IsRegistry r
    → IsRegistry (finish id o now r)
unfolding finish
finish-IsRegistry id o now =
    on_running-IsRegistry id (finish_task o now) (finish_task-IsCoherent id o now)

-- `Cancel` changes the registry as the other two do, and returns an error besides.
pub cancel-on_running :
    (id : String) (now : ℕ) (r : Tasks) → (cancel id now r).0 ≡ on_running id (cancel_task now) r
unfolding cancel
cancel-on_running id now r = ground arith

pub cancel-IsRegistry :
    (id : String) (now : ℕ) (r : Tasks) → IsRegistry r → IsRegistry (cancel id now r).0
cancel-IsRegistry id now r h =
    rw cancel-on_running
      (on_running-IsRegistry id (cancel_task now) (cancel_task-IsCoherent id now) r h)

pub sweep-IsRegistry : (now : ℕ) (r : Tasks) → IsRegistry r → IsRegistry (sweep now r)
unfolding sweep
sweep-IsRegistry now r h = erase_if-IsTable IsCoherent (is_stale now) r h
