-- ===== src/Workloads/Examples.antt =====
-- The gates, the deploys and the claims on a stack of one service.
use Prim.Native.String.{◌++◌ as ◌+++◌}
use mathlib.Core.List.Perm.{refl as perm_refl}
use iskele.Common.{
  String, ◌≡◌, refl, Bool, true, false, none, List, [], ◌∷◌, All, ◌==◌, lookup, insert, any, some,
  ◌&&◌, eq_iff, sym, inr, subst, arith, ◌||◌, if◌then◌else◌,
}
use iskele.Docker.Create.{CreateSpec}
use iskele.Samples.Definitions.{sample_text, bind_mount, web}
use iskele.Tasks.{TrackedTask, new_task, get, start_with_id, evict}
use iskele.Workloads.Paths.{FilePaths, PathGuard, check, check_all, within_root}
use iskele.Workloads.Paths.Rooted.{HasNoParent, IsFilePath, IsRooted, check_all-IsRooted}
use iskele.Workloads.Engine.{
  Engine, done, Container, canceled, stack_refused, returned, raised, Job, Problem,
}
use iskele.Workloads.Engine.Rules.{Withstands}
use iskele.Workloads.Creator.{create}
use iskele.Workloads.Creator.Gated.{IsGated, create-IsGated}
use iskele.Workloads.Stacks.{
  ServicePlan, Conversion, UpOptions, Tools, config_hash, label_config_hash, without_hash_labels,
}
use iskele.Workloads.Stacks.Deploy.{by_name, selected, up_service, up}
use iskele.Workloads.Stacks.Deploy.Refused.{reports, binds_refused_path, up-refused}
use iskele.Workloads.Stacks.Deploy.Settled.{up_service-settled}
use iskele.Workloads.Stacks.Deploy.Gated.{up-IsGated}
use iskele.Workloads.Stacks.Lifecycle.{DownOptions, down}
use iskele.Workloads.Stacks.Lifecycle.Spared.{WithstandsRemoval, down-Keeps}
use iskele.Workloads.Stacks.Status.{
  StackRow, Stacks, deploying, is_deploying, run_up, reconcile_deploying,
}
use iskele.Workloads.Stacks.Status.Closed.{
  HaveStatus, status_of, run_up-HaveStatus, reconcile_deploying-closed,
}
use iskele.Workloads.Stacks.Claim.{
  Claim, Claims, is_idle, is_free, registered, goes_on, begins, Steps, stay, then_step,
}
use iskele.Workloads.Stacks.Claim.Exclusive.{AreElsewhere, claim_exclusive}

-- "/srv/link" is a symbolic link to "/srv/data".
abbrev sample_paths : FilePaths
sample_paths = record {
  trim_space = λ s. s;
  clean = λ s. s;
  is_abs = λ s. s == "/srv" || s == "/srv/link";
  eval_symlinks = λ s. if s == "/srv/link" then some "/srv/data" else none;
  rel = λ root path. if root == "/srv" && path == "/srv/data" then some "data" else none;
}

abbrev srv_guard : PathGuard
srv_guard = record { allowed = "/srv" ∷ [] }

rel_cases :
    (root path rel : String)
    → sample_paths.rel root path ≡ some rel
    → (root ≡ "/srv") × (path ≡ "/srv/data") × ("data" ≡ rel)
rel_cases root path rel h = (
  ground (arith, h, eq_iff root "/srv"),
  ground (arith, h, eq_iff path "/srv/data"),
  ground (arith, h),
)

sample_paths-IsFilePath : IsFilePath sample_paths
sample_paths-IsFilePath = record {
  join = λ root rel. root +++ "/" +++ rel;
  rel-join = λ root path rel h.
      let (at, there, name) = rel_cases root path rel h in rw (at, there, sym name) refl;
  rel_clean = λ root path rel h.
      let (at, there, name) = rel_cases root path rel h in
      inr (inr (subst HasNoParent name ((λ e. cc), tt)));
}

check_all-IsRooted_example :
    All (IsRooted sample_paths sample_paths-IsFilePath srv_guard) ("/srv" ∷ "/srv/link" ∷ [])
unfolding check_all check within_root
check_all-IsRooted_example =
    check_all-IsRooted sample_paths sample_paths-IsFilePath srv_guard ("/srv" ∷ "/srv/link" ∷ [])
      refl

-- What the engine was asked to create, and the networks that it was asked to remove.
record Asked : Type 0 where
  created : List CreateSpec
  dropped : List String

-- An engine that answers every call, runs no container, and writes down what it was asked.
abbrev recorder : Engine Asked
recorder = record {
  create_container = λ c e. (done "c1", record e { created = c ∷ e.created });
  start_container = λ id e. (done tt, e);
  stop_container = λ id e. (done tt, e);
  restart_container = λ id e. (done tt, e);
  remove_container = λ id e. (done tt, e);
  connect_network = λ n id e. (done tt, e);
  list_containers = λ project e. (done [], e);
  list_networks = λ e. (done [], e);
  list_volumes = λ e. (done [], e);
  create_network = λ name e. (done tt, e);
  create_volume = λ name e. (done tt, e);
  remove_network = λ name e. (done tt, record e { dropped = name ∷ e.dropped });
  remove_volume = λ name e. (done tt, record e { dropped = name ∷ e.dropped });
  pull = λ image e. (done tt, e);
}

abbrev nothing : Asked
nothing = record { created = []; dropped = [] }

module _ (K : CreateSpec → Type 0) (N : String → Type 0) where
  -- Everything that was asked is as it should be.
  abbrev IsFine : Asked → Type 0
  IsFine e = All K e.created × All N e.dropped

  recorder-Withstands : Withstands recorder IsFine K N N
  recorder-Withstands = record {
    create = λ c e k (cs, ns). ((k, cs), ns);
    start = λ id e h. h;
    stop = λ id e h. h;
    restart = λ id e h. h;
    remove = λ id e h. h;
    connect = λ n id e h. h;
    containers = λ project e h. h;
    networks = λ e h. h;
    volumes = λ e h. h;
    network = λ name e h. h;
    volume = λ name e h. h;
    drop_network = λ name e n (cs, ns). (cs, (n, ns));
    drop_volume = λ name e n (cs, ns). (cs, (n, ns));
    pull = λ image e h. h;
  }

create-IsGated_example :
    IsFine
      (IsGated sample_text sample_paths srv_guard false)
      (λ n. ⊥)
      (create sample_text sample_paths srv_guard recorder web true false nothing).1
create-IsGated_example =
    create-IsGated sample_text sample_paths srv_guard recorder
      (IsFine (IsGated sample_text sample_paths srv_guard false) (λ n. ⊥)) (λ n. ⊥) (λ n. ⊥) web
      true false nothing ((λ e. refl), tt) (recorder-Withstands _ _) (tt, tt)

abbrev sample_tools : Tools
sample_tools = record {
  text = sample_text;
  paths = sample_paths;
  guard = srv_guard;
  fingerprint = λ spec. spec.image;
  itoa = λ n. "1";
}

abbrev web_service : ServicePlan
web_service = record { name = "web"; replicas = 1; spec = web; networks = []; build = none }

abbrev front : Conversion
front = record {
  services = web_service ∷ [];
  networks =
      record { name = "own"; external = false } ∷ record { name = "shared"; external = true } ∷ [];
  volumes = [];
}

abbrev plain_options : UpOptions
plain_options = record { privileged = false; pull = false; recreate = false; services = [] }

up-IsGated_example :
    IsFine
      (IsGated sample_text sample_paths srv_guard false)
      (λ n. ⊥)
      (up sample_tools recorder none "front" (returned front) plain_options [] nothing).1
up-IsGated_example =
    up-IsGated sample_tools recorder none
      (IsFine (IsGated sample_text sample_paths srv_guard false) (λ n. ⊥)) (λ n. ⊥) (λ n. ⊥) "front"
      front plain_options [] nothing (recorder-Withstands _ _) (λ run e. cc) (((λ e. refl), tt), tt)
      (tt, tt)

-- the same service, with a mount of the host's root
abbrev greedy : ServicePlan
greedy = record web_service { spec = record web { mounts = bind_mount "bind" "/" ∷ [] } }

up-refused_example :
    (ps : List Problem) × (up sample_tools recorder none "front"
        (returned (record front { services = greedy ∷ [] }))
        plain_options
        []
        nothing
      ≡ (raised (stack_refused ps), nothing))
    × (any (reports "web" "volumes") ps ≡ true)
unfolding selected check within_root
up-refused_example =
    up-refused sample_tools recorder none "front" (record front { services = greedy ∷ [] }) []
      greedy [] plain_options [] nothing "volumes" refl (binds_refused_path refl)

abbrev running_web : Container
running_web = record {
  id = "c1";
  name = "web";
  state = "running";
  labels = (label_config_hash, "nginx") ∷ [];
}

up_service-settled_example :
    up_service sample_tools recorder none "front" web_service plain_options
      (running_web ∷ [])
      nothing
    ≡ (returned tt, nothing)
unfolding by_name insert lookup config_hash without_hash_labels
up_service-settled_example =
    up_service-settled sample_tools recorder none "front" web_service plain_options
      (running_web ∷ []) nothing refl refl refl
      (record { container = running_web; found = refl; current = refl; running = refl }, tt)
      (refl, tt)

abbrev taken : DownOptions
taken = record { volumes = false; networks = true }

-- Nothing was created, and what was removed is the stack's own network.
abbrev OnlyOwn : Asked → Type 0
OnlyOwn = IsFine (λ c. ⊥) (λ n. n ≡ "own")

recorder-WithstandsRemoval : WithstandsRemoval recorder OnlyOwn (λ n. n ≡ "own") (λ n. ⊥)
recorder-WithstandsRemoval = record {
  containers = λ project e h. h;
  remove = λ id e h. h;
  drop_network = λ name e n (cs, ns). (cs, (n, ns));
  drop_volume = λ name e n h. absurd n;
}

down-Keeps_example :
    OnlyOwn (down sample_tools recorder none "front" (returned front) taken nothing).1
down-Keeps_example =
    down-Keeps sample_tools recorder none OnlyOwn (λ n. n ≡ "own") (λ n. ⊥) "front" (returned front)
      taken nothing recorder-WithstandsRemoval (λ e. ((λ ours. refl), ((λ external. cc), tt)))
      (λ e. tt) (tt, tt)

abbrev front_row : StackRow
front_row = record {
  id = "s1";
  status = deploying;
  last_error = "";
  last_deployed_at = 0;
  updated_at = 5;
}

-- the first statement is refused, the second is not
abbrev shaky : Stacks
shaky = record { rows = front_row ∷ []; faults = true ∷ false ∷ [] }

abbrev deploy_front : Job Asked (Unit {0})
deploy_front = up sample_tools recorder none "front" (returned front) plain_options []

run_up-HaveStatus_example :
    let r = run_up "s1" "no database" 9 canceled deploy_front shaky nothing in
    HaveStatus "s1" (status_of r.0) r.1.rows
run_up-HaveStatus_example =
    run_up-HaveStatus "s1" "no database" 9 canceled deploy_front shaky nothing true [] refl

reconcile_deploying-closed_example :
    let s : Stacks = record { rows = front_row ∷ []; faults = [] } in
    All (λ r. is_deploying r.status ≡ false) (reconcile_deploying 9 s).1.rows
reconcile_deploying-closed_example = reconcile_deploying-closed 9 (front_row ∷ [])

abbrev keep_order : (TrackedTask → TrackedTask → Bool) → List TrackedTask → List TrackedTask
keep_order less ts = ts

abbrev up_front : Claim
up_front = record { stack_id = "s1"; stack_name = "front"; kind = "stack.up"; username = "ada" }

abbrev pull_back : Claim
pull_back = record { stack_id = "s2"; stack_name = "back"; kind = "stack.pull"; username = "ada" }

-- the pull of another stack is let through and registered while the deploy runs
abbrev both_run : Claims
both_run = record {
  tasks = registered keep_order pull_back 20 (registered keep_order up_front 10 []);
  admitted = [];
  begun = pull_back ∷ [];
}

pull_begins :
    Steps keep_order
      (record { tasks = registered keep_order up_front 10 []; admitted = []; begun = [] })
      both_run
unfolding is_free is_idle get start_with_id evict insert lookup
pull_begins =
    then_step (goes_on pull_back _ refl) (then_step (begins pull_back 20 [] [] _ []) (stay _))

claim_exclusive_example :
    (lookup "s1" both_run.tasks ≡ some (new_task "s1" "stack.up" "front" "ada" 10))
    × ((second : Claim) → second.stack_id ≡ "s1" → is_free second both_run.tasks ≡ false)
    × AreElsewhere "s1" (pull_back ∷ [])
claim_exclusive_example =
    claim_exclusive keep_order up_front 10 [] [] both_run
      (record { permutes = λ less ts. perm_refl ts }) tt tt pull_begins
