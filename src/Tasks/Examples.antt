-- ===== src/Tasks/Examples.antt =====
-- The theorems on the task registry, at concrete calls.
use mathlib.Core.List.Perm.{refl as perm_refl}
use iskele.Common.{
  ◌≡◌, ◌⊎◌, ◌≤◌, refl, Bool, none, some, List, [], ◌∷◌, eq_false→ne, length, lookup, String, ◌==◌,
  false,
}
use iskele.Tasks.{
  Tasks, TrackedTask, new_task, percent, success, context_canceled, failure, task_finished,
  start_with_id, finish, finish_task, settle, cancel, progress, max_tasks, finished_tasks, terminal,
}
use iskele.Tasks.Registry.{IsRegistry, new_task-IsCoherent}
use iskele.Tasks.Calls.{
  Call, start, report_progress, end, stop, show, run, run-IsRegistry, frozen, IsCanceledFrom,
  cancel_once, GoneOr,
}
use iskele.Tasks.Eviction.{IsSortSlice, running-start, start_fits}

-- an order already right, so that sorting changes nothing
abbrev keep_order : (TrackedTask → TrackedTask → Bool) → List TrackedTask → List TrackedTask
keep_order less ts = ts

keep_order-IsSortSlice : IsSortSlice keep_order
keep_order-IsSortSlice = record { permutes = λ less ts. perm_refl ts }

abbrev pull : TrackedTask
pull = new_task "t1" "pull" "nginx" "ada" 100

abbrev one_running : Tasks
one_running = ("t1", pull) ∷ []

one_running-IsRegistry : IsRegistry one_running
unfolding lookup
one_running-IsRegistry = (new_task-IsCoherent "t1" "pull" "nginx" "ada" 100, refl, tt)

-- a finished task of the same registry
abbrev pulled : TrackedTask
pulled = finish_task success 200 pull

abbrev one_finished : Tasks
one_finished = ("t1", pulled) ∷ []

one_finished-IsRegistry : IsRegistry one_finished
unfolding lookup finish_task settle terminal new_task
one_finished-IsRegistry =
    (record { own_id = refl; cancelable_running = refl; cancel_matches = refl }, refl, tt)

abbrev calls : List Call
calls =
    start "t2" "build" "web" "bob" 300
    ∷ end "t1" (failure "late") 310
    ∷ report_progress "t1" (percent 5) "again"
    ∷ stop "t1" 320
    ∷ show 400
    ∷ []

run-IsRegistry_example : IsRegistry (run keep_order calls one_running)
run-IsRegistry_example = run-IsRegistry keep_order calls one_running one_running-IsRegistry

frozen_example : GoneOr pulled (lookup "t1" (run keep_order calls one_finished))
unfolding lookup finish_task settle terminal new_task
frozen_example =
    frozen keep_order "t1" pulled calls one_finished refl refl one_finished-IsRegistry refl

cancel_once_example :
    let r = (cancel "t1" 150 one_running).0 in
    ((cancel "t1" 150 one_running).1 ≡ none)
    × ((u : TrackedTask) × (lookup "t1" r ≡ some u) × IsCanceledFrom pull 150 u)
    × ((k : String) → ("t1" == k) ≡ false → lookup k r ≡ lookup k one_running)
    × ((cancel "t1" 160 r).1 ≡ some task_finished)
    × (finish "t1" context_canceled 160 r ≡ r)
    × (progress "t1" (percent 50) "late" r ≡ r)
unfolding lookup terminal new_task
cancel_once_example =
    cancel_once "t1" pull 150 160 context_canceled (percent 50) "late" one_running refl refl

running-start_example :
    (lookup "t1" (start_with_id keep_order "t2" "build" "web" "bob" 300 one_running) ≡ some pull)
    × (lookup "t2" (start_with_id keep_order "t2" "build" "web" "bob" 300 one_running)
        ≡ some (new_task "t2" "build" "web" "bob" 300))
unfolding lookup terminal new_task
running-start_example =
    running-start keep_order keep_order-IsSortSlice "t1" pull "t2" "build" "web" "bob" 300
      one_running one_running-IsRegistry refl refl (eq_false→ne "t1" "t2" refl)

start_fits_example :
    let r = start_with_id keep_order "t2" "build" "web" "bob" 300 one_finished in
    (length r ≤ max_tasks) ⊎ (finished_tasks r ≡ [])
start_fits_example =
    start_fits keep_order keep_order-IsSortSlice "t2" "build" "web" "bob" 300 one_finished
      one_finished-IsRegistry
