-- ===== src/Workloads/Stacks.antt =====
-- internal/service/stack.go and stackup.go: what a compose stack asks for, and how it is judged.
-- The compose file itself is parsed and converted by internal/compose with compose-go; what comes of
-- it is a parameter. Progress events and warnings are left out.
pub mod Selection
pub mod Deploy
pub mod Lifecycle
pub mod Status
pub mod Claim
use Prim.Native.String.{◌++◌ as ◌+++◌}
use iskele.Common.{
  ℕ, String, Bool, true, false, not, ◌||◌, ◌&&◌, Option, none, some, List, [], ◌∷◌, ◌++◌, map, any,
  select, Table, lookup, insert, ◌==◌, if◌then◌else◌,
}
use iskele.Docker.{Text, ContainerSpec, Checked, built, malformed}
use iskele.Docker.Mounts.{bind_sources}
use iskele.Docker.Create.{build_create_spec, check_privileged_options}
use iskele.Workloads.Paths.{FilePaths, PathGuard, check}
use iskele.Workloads.Engine.{
  Container, ServiceNetwork, Problem, Fault, no_such_service, Outcome, returned, raised,
}

pub record BuildPlan : Type 0 where
  pub context : String
  pub dockerfile : String
  pub target : String
  pub image : String

-- The number of replicas is positive, as replicasOf gives it. DependsOn, which nothing here reads, is
-- left out.
pub record ServicePlan : Type 0 where
  pub name : String
  pub replicas : ℕ
  pub spec : ContainerSpec
  pub networks : List ServiceNetwork
  pub build : Option BuildPlan

-- A network or a volume of the stack, by the name that the engine calls it.
pub record ResourcePlan : Type 0 where
  pub name : String
  pub external : Bool

pub record Conversion : Type 0 where
  pub services : List ServicePlan
  pub networks : List ResourcePlan
  pub volumes : List ResourcePlan

pub record UpOptions : Type 0 where
  pub privileged : Bool
  pub pull : Bool
  pub recreate : Bool
  pub services : List String

-- LabelConfigHash, and the labels of internal/compose
abbrev pub label_config_hash : String
label_config_hash = "com.docker.compose.config-hash"

abbrev pub label_service : String
label_service = "com.iskele.service"

abbrev pub label_replica : String
label_replica = "com.iskele.replica"

abbrev pub label_compose_number : String
label_compose_number = "com.docker.compose.container-number"

-- `fingerprint` is the hexadecimal SHA-256 of a definition's JSON, `itoa` is strconv.Itoa.
pub record Tools : Type 0 where
  pub text : Text
  pub paths : FilePaths
  pub guard : PathGuard
  pub fingerprint : ContainerSpec → String
  pub itoa : ℕ → String

-- what a map of strings reads at a key
abbrev pub label : String → Table String → String
label key labels = elim (lookup key labels) [ none ↦ "" | some value ↦ value ]

-- the labels that are derived rather than declared
abbrev is_derived : String → Bool
is_derived key = key == label_config_hash || (key == label_replica || key == label_compose_number)

-- withoutHashLabels
unfoldable pub without_hash_labels : Table String → Table String
without_hash_labels [] = []
without_hash_labels ((key, value) ∷ labels) =
    let rest = without_hash_labels labels in if is_derived key then rest else (key, value) ∷ rest

module _ (tools : Tools) where
  -- configHash
  unfoldable pub config_hash : ContainerSpec → String
  unfolding without_hash_labels
  config_hash spec =
      tools.fingerprint (record spec { name = ""; labels = without_hash_labels spec.labels })

  -- compose.ContainerName
  unfoldable pub container_name : String → String → ℕ → String
  container_name project service replica =
      project +++ "-" +++ service +++ "-" +++ tools.itoa replica

  -- replicaLabels
  unfoldable pub replica_labels : Table String → ℕ → String → Table String
  replica_labels labels replica hash = insert label_config_hash hash (
      insert label_compose_number (tools.itoa replica)
        (insert label_replica (tools.itoa replica) labels))

  -- the problems of the paths among these that the guard refuses
  abbrev pub path_problems : String → String → List String → List Problem
  path_problems service field [] = []
  path_problems service field (p ∷ ps) =
      let rest = path_problems service field ps in
      elim (check tools.paths tools.guard p) [
        | none ↦ rest
        | some path ↦ record { service = service; field = field } ∷ rest
      ]

  abbrev pub build_contexts : Option BuildPlan → List String
  build_contexts none = []
  build_contexts (some b) = b.context ∷ []

  abbrev pub privilege_problems : String → Option (List String) → List Problem
  privilege_problems service none = []
  privilege_problems service (some used) = record { service = service; field = "security" } ∷ []

  abbrev pub spec_problems : {A : Type 0} → String → Checked A → List Problem
  spec_problems service (built c) = []
  spec_problems service (malformed field) = record { service = service; field = field } ∷ []

  -- problemsFor
  unfoldable pub problems_for : ServicePlan → Bool → List Problem
  unfolding check bind_sources check_privileged_options build_create_spec
  problems_for plan privileged =
      path_problems plan.name "volumes" (bind_sources tools.text plan.spec.mounts)
      ++ (path_problems plan.name "build.context" (build_contexts plan.build)
          ++ (privilege_problems plan.name
                (check_privileged_options tools.text plan.spec privileged)
              ++ spec_problems plan.name (build_create_spec tools.text plan.spec)))

-- the services that are wanted, and the names that no service had
unfoldable pub narrow : List ServicePlan → List String → List ServicePlan × List String
narrow [] wanted = ([], wanted)
narrow (plan ∷ plans) wanted =
    let here = any (λ name. name == plan.name) wanted in
    let (kept, missing) =
      narrow plans (if here then select (λ name. not (name == plan.name)) wanted else wanted) in
    if here then (plan ∷ kept, missing) else (kept, missing)

-- selectServices
unfoldable pub select_services : List ServicePlan → List String → Outcome (List ServicePlan)
unfolding narrow
select_services plans names =
    let (kept, missing) = narrow plans names in
    elim missing [ [] ↦ returned kept | name ∷ rest ↦ raised (no_such_service name) ]
