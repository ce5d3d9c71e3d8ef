-- ===== src/Workloads/Stacks/Deploy.antt =====
-- internal/service/stackup.go: how a deploy brings the engine to what a stack asks for.
-- `cancels` says, for each look at the context to come, whether it has been canceled; `build` is the
-- builder's work on one service, where there is a builder.
pub mod Fit
pub mod Services
pub mod Gated
pub mod Settled
pub mod Refused
use iskele.Common.{
  ℕ, zero, suc, ◌+◌, String, Bool, true, false, not, ◌||◌, ◌&&◌, Option, none, some, List, [], ◌∷◌,
  ◌++◌, any, Table, lookup, insert, leb, ◌==◌, if◌then◌else◌,
}
use iskele.Common.Integers.{ℤ, pos, negsuc}
use iskele.Docker.{ContainerSpec}
use iskele.Docker.Create.{build_create_spec}
use iskele.Workloads.Engine.{
  Engine, EngineError, no_such, engine_failed, Answer, done, failed, Container, ServiceNetwork,
  Problem, Fault, stack_refused, external_missing, canceled, build_unavailable, compose_failed,
  Outcome, returned, raised, Job, pure, raise, call, checked, attempt, unless_fault, ◌>>=◌, ◌>>◌,
}
use iskele.Workloads.Stacks.{
  ServicePlan, BuildPlan, ResourcePlan, Conversion, UpOptions, Tools, label_config_hash,
  label_service, label_replica, label, config_hash, container_name, replica_labels, problems_for,
  select_services,
}

-- byName, of which the last container of a name stays
unfoldable pub by_name : List Container → Table Container
by_name [] = []
by_name (c ∷ cs) =
    let rest = by_name cs in
    elim (lookup c.name rest) [ none ↦ insert c.name c rest | some later ↦ rest ]

-- an answer that the thing is gone already counts as done
abbrev pub or_gone : Answer (Unit {0}) → Answer (Unit {0})
or_gone (done a) = done a
or_gone (failed no_such) = done tt
or_gone (failed (engine_failed message)) = failed (engine_failed message)

abbrev pub refusal : List Problem → Option Fault
refusal [] = none
refusal (p ∷ ps) = some (stack_refused (p ∷ ps))

-- what was decided before the engine is asked
abbrev pub settle : {E A : Type 0} → Outcome A → Job E A
settle o e = (o, e)

module _ {E : Type 0} (tools : Tools) (docker : Engine E)
    (build : Option (ServicePlan → Job E (Unit {0}))) where
  -- removeContainer
  unfoldable pub remove_container : String → Job E (Unit {0})
  unfolding call
  remove_container id = call λ e. let (a, e') = docker.remove_container id e in (or_gone a, e')

  unfoldable pub connect_all : List ServiceNetwork → String → Job E (Unit {0})
  unfolding call pure ◌>>=◌
  connect_all [] id = pure tt
  connect_all (n ∷ ns) id = call (docker.connect_network n id) >> connect_all ns id

  -- the networks after the first, which the container is created on
  abbrev pub further : List ServiceNetwork → List ServiceNetwork
  further [] = []
  further (n ∷ ns) = ns

  -- createReplica
  unfoldable pub create_replica : ServicePlan → String → ℕ → String → Job E (Unit {0})
  unfolding call checked ◌>>=◌ connect_all replica_labels build_create_spec
  create_replica plan name replica hash = do
    definition ← checked (
        build_create_spec tools.text (record plan.spec {
          name = name;
          labels = replica_labels tools plan.spec.labels replica hash;
        }))
    id ← call (docker.create_container definition)
    connect_all (further plan.networks) id
    call (docker.start_container id)

  -- the replacement of a container that is there
  unfoldable pub replace : ServicePlan → String → ℕ → String → Container → Job E (Unit {0})
  unfolding remove_container create_replica ◌>>=◌
  replace plan name replica hash current =
      remove_container current.id >> create_replica plan name replica hash

  -- whether a container was created from this definition
  abbrev pub is_current : UpOptions → String → Container → Bool
  is_current opts hash current = not opts.recreate && label label_config_hash current.labels == hash

  abbrev pub is_running : Container → Bool
  is_running current = tools.text.equal_fold current.state "running"

  -- one turn of the loop over the replicas, with the container of that name
  unfoldable pub up_found :
      ServicePlan → UpOptions → String → String → ℕ → Option Container → Job E (Unit {0})
  unfolding create_replica replace call attempt pure ◌>>=◌
  up_found plan opts hash name replica none = create_replica plan name replica hash
  up_found plan opts hash name replica (some current) =
      if is_current opts hash current
      then if is_running current
        then pure tt
        else (attempt (call (docker.start_container current.id)) >>= λ started.
            if started then pure tt else replace plan name replica hash current)
      else replace plan name replica hash current

  -- the name of a replica
  abbrev pub replica_name : String → ServicePlan → ℕ → String
  replica_name stack plan replica =
      if plan.spec.name == "" then container_name tools stack plan.name replica else plan.spec.name

  -- the replicas from `replica` on, of which so many are left
  unfoldable pub up_replicas :
      String → ServicePlan → UpOptions → Table Container → ℕ → ℕ → Job E (Unit {0})
  unfolding up_found config_hash container_name ◌>>=◌ pure
  up_replicas stack plan opts names replica zero = pure tt
  up_replicas stack plan opts names replica (suc left) =
      (let name = replica_name stack plan replica in
        up_found plan opts (config_hash tools plan.spec) name replica (lookup name names))
      >> up_replicas stack plan opts names (replica + 1) left

  -- Whether a container is a replica of the service beyond those that it asks for.
  abbrev pub beyond : ℕ → Option ℤ → Bool
  beyond replicas none = false
  beyond replicas (some (negsuc n)) = false
  beyond replicas (some (pos n)) = not (leb n replicas)

  abbrev pub is_surplus : ServicePlan → Container → Bool
  is_surplus plan c =
      label label_service c.labels == plan.name
      && beyond plan.replicas (tools.text.atoi (label label_replica c.labels))

  -- removeSurplus, in one order of the map
  unfoldable pub remove_surplus : ServicePlan → Table Container → Job E (Unit {0})
  unfolding remove_container pure ◌>>=◌
  remove_surplus plan [] = pure tt
  remove_surplus plan ((name, c) ∷ names) =
      let rest = remove_surplus plan names in
      if is_surplus plan c then (remove_container c.id >> rest) else rest

  -- pullFor
  unfoldable pub pull_for : ServicePlan → Bool → Job E (Unit {0})
  unfolding call pure
  pull_for plan force =
      if force || plan.spec.pull_policy == "always"
      then call (docker.pull plan.spec.image)
      else pure tt

  -- the image of a service, built or pulled
  unfoldable pub prepare : ServicePlan → Bool → Job E (Unit {0})
  unfolding pull_for raise
  prepare plan force = elim plan.build [
    | none ↦ pull_for plan force
    | some b ↦ elim build [ none ↦ raise build_unavailable | some run ↦ run plan ]
  ]

  -- upService
  unfoldable pub up_service : String → ServicePlan → UpOptions → List Container → Job E (Unit {0})
  unfolding prepare by_name up_replicas remove_surplus ◌>>=◌
  up_service stack plan opts existing = do
    prepare plan opts.pull
    up_replicas stack plan opts (by_name existing) 1 plan.replicas
    remove_surplus plan (by_name existing)

  -- the loop over the services; each turn looks at the context
  unfoldable pub up_services :
      String → List ServicePlan → UpOptions → List Container → List Bool → Job E (Unit {0})
  unfolding up_service pure raise ◌>>=◌
  up_services stack [] opts existing cancels = pure tt
  up_services stack (plan ∷ plans) opts existing [] =
      up_service stack plan opts existing >> up_services stack plans opts existing []
  up_services stack (plan ∷ plans) opts existing (true ∷ cancels) = raise canceled
  up_services stack (plan ∷ plans) opts existing (false ∷ cancels) =
      up_service stack plan opts existing >> up_services stack plans opts existing cancels

  -- what is missing is created, unless it belongs to somebody else
  unfoldable pub ensure_each :
      (String → E → Answer (Unit {0}) × E) → List String → List ResourcePlan → Job E (Unit {0})
  unfolding call pure raise ◌>>=◌
  ensure_each create present [] = pure tt
  ensure_each create present (plan ∷ plans) =
      let rest = ensure_each create present plans in
      if any (λ name. name == plan.name) present
      then rest
      else if plan.external
      then raise (external_missing plan.name)
      else (call (create plan.name) >> rest)

  -- ensureNetworks and ensureVolumes
  unfoldable pub ensure_networks : List ResourcePlan → Job E (Unit {0})
  unfolding ensure_each call pure ◌>>=◌
  ensure_networks [] = pure tt
  ensure_networks (plan ∷ plans) = call docker.list_networks >>= λ present.
      ensure_each docker.create_network present (plan ∷ plans)

  unfoldable pub ensure_volumes : List ResourcePlan → Job E (Unit {0})
  unfolding ensure_each call pure ◌>>=◌
  ensure_volumes [] = pure tt
  ensure_volumes (plan ∷ plans) = call docker.list_volumes >>= λ present.
      ensure_each docker.create_volume present (plan ∷ plans)

  -- the services that the deploy is limited to
  unfoldable pub selected : Conversion → UpOptions → Outcome (List ServicePlan)
  unfolding select_services
  selected conversion opts = elim opts.services [
    | [] ↦ returned conversion.services
    | name ∷ names ↦ select_services conversion.services (name ∷ names)
  ]

  unfoldable pub problems_of : List ServicePlan → Bool → List Problem
  unfolding problems_for
  problems_of [] privileged = []
  problems_of (plan ∷ plans) privileged =
      problems_for tools plan privileged ++ problems_of plans privileged

  -- up, from the conversion of the stack's file on
  unfoldable pub up : String → Outcome Conversion → UpOptions → List Bool → Job E (Unit {0})
  unfolding problems_of unless_fault ensure_networks ensure_volumes call up_services selected ◌>>=◌
  up stack planned opts cancels = do
    conversion ← settle planned
    plans ← settle (selected conversion opts)
    unless_fault (refusal (problems_of plans opts.privileged))
    ensure_networks conversion.networks
    ensure_volumes conversion.volumes
    existing ← call (docker.list_containers stack)
    up_services stack plans opts existing cancels
