-- ===== src/Tasks.antt =====
-- internal/service/tasks.go: the registry of long-running operations.
-- The mutex makes each method one step. Of a task's context, the registry keeps the cancel function,
-- and the model whether it has been called; the context also ends with its parent, which the registry
-- does not see. `sort.Slice` is a parameter, since it is the Go library's.
pub mod Calls
pub mod Registry
pub mod Eviction
mod Examples
use iskele.Common.{
  ℕ, ◌+◌, ◌≤◌, String, Bool, true, false, ◌&&◌, Option, none, some, List, [], ◌∷◌, map, ltb, leb,
  if◌then◌else◌, length, Table, lookup, insert, erase, erase_if,
}

pub data TaskState : Type 0 where
  running succeeded failed canceled : TaskState

unfoldable pub terminal : TaskState → Bool
terminal running = false
terminal succeeded = true
terminal failed = true
terminal canceled = true

-- 0 to 100, or "cannot report a fraction", which the source writes as -1.
pub data Progress : Type 0 where
  unknown : Progress
  percent : ℕ → Progress

-- `started_at` and `finished_at` are nanoseconds; 0 is Go's zero time.
pub record Task : Type 0 where
  pub id : String
  pub kind : String
  pub target : String
  pub state : TaskState
  pub progress : Progress
  pub message : String
  pub error : String
  pub username : String
  pub started_at : ℕ
  pub finished_at : ℕ
  pub cancelable : Bool

-- `cancel_called` is whether `cancel` has been called: the parent of the context is not kept.
pub record TrackedTask : Type 0 where
  pub task : Task
  pub cancel_called : Bool

abbrev pub Tasks : Type 0
Tasks = Table TrackedTask

-- ten minutes
abbrev pub task_retention : ℕ
task_retention = 600_000_000_000

abbrev pub max_tasks : ℕ
max_tasks = 200

-- The outcome that `Finish` is given.
pub data Outcome : Type 0 where
  success : Outcome
  context_canceled : Outcome
  failure : String → Outcome

pub data TaskError : Type 0 where
  task_not_found task_finished : TaskError

abbrev pub is_terminal : TrackedTask → Bool
unfolding terminal
is_terminal t = terminal t.task.state

unfoldable pub new_task : String → String → String → String → ℕ → TrackedTask
new_task id kind target username now = record {
  task = record {
    id = id;
    kind = kind;
    target = target;
    state = running;
    progress = unknown;
    message = "";
    error = "";
    username = username;
    started_at = now;
    finished_at = 0;
    cancelable = true;
  };
  cancel_called = false;
}

-- the finished tasks among those that `range r.tasks` visits
unfoldable pub finished_tasks : Tasks → List TrackedTask
finished_tasks [] = []
finished_tasks ((k, t) ∷ r) =
    let rest = finished_tasks r in if is_terminal t then t ∷ rest else rest

-- the loop that deletes the oldest until the registry fits
unfoldable pub evict_loop : List TrackedTask → Tasks → Tasks
evict_loop [] r = r
evict_loop (t ∷ ts) r = if leb (length r) max_tasks then r else evict_loop ts (erase t.task.id r)

-- what `sort.Slice` is given when it sorts by `FinishedAt`
abbrev pub finished_before : TrackedTask → TrackedTask → Bool
finished_before a b = ltb a.task.finished_at b.task.finished_at

module _
    (sort_slice : (TrackedTask → TrackedTask → Bool) → List TrackedTask → List TrackedTask) where
  unfoldable pub evict : Tasks → Tasks
  evict r =
      if leb (length r) max_tasks
      then r
      else evict_loop (sort_slice finished_before (finished_tasks r)) r

  unfoldable pub start_with_id : String → String → String → String → ℕ → Tasks → Tasks
  start_with_id id kind target username now r =
      evict (insert id (new_task id kind target username now) r)

-- `Progress` on one task that is there
unfoldable pub report : Progress → String → TrackedTask → TrackedTask
report p message t = record t { task = record t.task { progress = p; message = message } }

unfoldable pub progress : String → Progress → String → Tasks → Tasks
unfolding report
progress id p message r = elim (lookup id r) [
  | none ↦ r
  | some t ↦ if is_terminal t then r else insert id (report p message t) r
]

-- the `switch` of `Finish`
unfoldable pub settle : Outcome → Task → Task
settle success t = record t { state = succeeded; progress = percent 100 }
settle context_canceled t = record t { state = canceled }
settle (failure e) t = record t { state = failed; error = e }

unfoldable pub finish_task : Outcome → ℕ → TrackedTask → TrackedTask
unfolding settle
finish_task o now t = record {
  task = settle o (record t.task { finished_at = now; cancelable = false });
  cancel_called = true;
}

unfoldable pub finish : String → Outcome → ℕ → Tasks → Tasks
unfolding finish_task
finish id o now r = elim (lookup id r) [
  | none ↦ r
  | some t ↦ if is_terminal t then r else insert id (finish_task o now t) r
]

unfoldable pub cancel_task : ℕ → TrackedTask → TrackedTask
cancel_task now t = record {
  task = record t.task { state = canceled; finished_at = now; cancelable = false };
  cancel_called = true;
}

unfoldable pub cancel : String → ℕ → Tasks → Tasks × Option TaskError
unfolding cancel_task
cancel id now r = elim (lookup id r) [
  | none ↦ (r, some task_not_found)
  | some t ↦
      if is_terminal t then (r, some task_finished) else (insert id (cancel_task now t) r, none)
]

unfoldable pub get : String → Tasks → Option Task
get id r = elim (lookup id r) [ none ↦ none | some t ↦ some t.task ]

-- `now.Sub(FinishedAt) > taskRetention`
abbrev pub is_stale : ℕ → TrackedTask → Bool
is_stale now t = terminal t.task.state && ltb (t.task.finished_at + task_retention) now

unfoldable pub sweep : ℕ → Tasks → Tasks
unfolding terminal
sweep now r = erase_if (is_stale now) r

abbrev pub tasks_of : Tasks → List Task
tasks_of [] = []
tasks_of ((k, t) ∷ r) = t.task ∷ tasks_of r

abbrev pub started_after : Task → Task → Bool
started_after a b = ltb b.started_at a.started_at

module _ (sort_slice : (Task → Task → Bool) → List Task → List Task) where
  -- `List` sweeps first, so it returns the registry too.
  unfoldable pub list_tasks : ℕ → Tasks → Tasks × List Task
  list_tasks now r = let kept = sweep now r in (kept, sort_slice started_after (tasks_of kept))
