-- ===== src/Workloads/Stacks/Deploy/Services.antt =====
-- What the services of a deploy, in internal/service/stackup.go, let the engine be asked.
use iskele.Common.{
  ℕ, zero, suc, ◌+◌, String, ◌≡◌, refl, Bool, true, false, ◌||◌, Option, none, some, List, [], ◌∷◌,
  All, Table, ◌==◌,
}
use iskele.Docker.{ContainerSpec}
use iskele.Docker.Create.{build_create_spec, check_privileged_options, privileged_options}
use iskele.Workloads.Creator.Gated.{IsGated, build_create_spec-IsGated}
use iskele.Workloads.Engine.{
  Engine, Container, ServiceNetwork, Outcome, returned, raised, Job, raise, build_unavailable,
}
use iskele.Workloads.Engine.Rules.{
  Withstands, Gives, Keeps, Keeps-pure, Keeps-raise, Keeps-call, Keeps-checked, Keeps-bind,
  Keeps-if, Keeps-attempt,
}
use iskele.Workloads.Stacks.Deploy.Fit.{IsFit}
use iskele.Workloads.Stacks.{ServicePlan, BuildPlan, UpOptions, Tools, replica_labels}
use iskele.Workloads.Stacks.Deploy.{
  by_name, remove_container, connect_all, further, create_replica, replace, is_current, is_running,
  up_found, up_replicas, is_surplus, remove_surplus, pull_for, prepare, up_service, up_services,
}

module _ {E : Type 0} (tools : Tools) (docker : Engine E)
    (build : Option (ServicePlan → Job E (Unit {0}))) (I : E → Type 0) (N V : String → Type 0)
    (privileged : Bool)
    (w : Withstands docker I (IsGated tools.text tools.paths tools.guard privileged) N V)
    (building : (run : ServicePlan → Job E (Unit {0}))
      → build ≡ some run
      → (plan : ServicePlan) (e : E) → I e
      → I (run plan e).1) where
  remove_container-Keeps :
      (id : String) → Keeps I (remove_container tools docker build id) (λ u. Unit {0})
  unfolding remove_container
  remove_container-Keeps id = Keeps-call I _ (w.remove id)

  connect_all-Keeps :
      (ns : List ServiceNetwork) (id : String)
      → Keeps I (connect_all tools docker build ns id) (λ u. Unit {0})
  unfolding connect_all
  connect_all-Keeps [] id = Keeps-pure I _ tt tt
  connect_all-Keeps (n ∷ ns) id =
      Keeps-bind I _ _ (Keeps-call I _ (w.connect n id)) (λ u r. connect_all-Keeps ns id)

  -- The name and the labels of a replica do not touch what the checks looked at.
  create_replica-Keeps :
      (plan : ServicePlan) (name : String) (replica : ℕ) (hash : String)
      → IsFit tools privileged plan
      → Keeps I (create_replica tools docker build plan name replica hash) (λ u. Unit {0})
  unfolding create_replica check_privileged_options privileged_options
  create_replica-Keeps plan name replica hash fit =
      let spec : ContainerSpec = record plan.spec {
        name = name;
        labels = replica_labels tools plan.spec.labels replica hash;
      } in
      Keeps-bind I _ _ (Keeps-checked I (build_create_spec tools.text spec)) λ c definition.
        Keeps-bind I _ _
          (Keeps-call I (docker.create_container c) λ e i.
            w.create c e
              (build_create_spec-IsGated tools.text tools.paths tools.guard spec privileged c
                fit.plain fit.allowed fit.permitted definition)
              i)
          λ id r.
            Keeps-bind I _ _ (connect_all-Keeps (further tools docker build plan.networks) id)
              λ u r. Keeps-call I _ (w.start id)

  replace-Keeps :
      (plan : ServicePlan) (name : String) (replica : ℕ) (hash : String) (current : Container)
      → IsFit tools privileged plan
      → Keeps I (replace tools docker build plan name replica hash current) (λ u. Unit {0})
  unfolding replace
  replace-Keeps plan name replica hash current fit =
      Keeps-bind I _ _ (remove_container-Keeps current.id)
        (λ u r. create_replica-Keeps plan name replica hash fit)

  up_found-Keeps :
      (plan : ServicePlan) (opts : UpOptions) (hash name : String) (replica : ℕ)
      (o : Option Container)
      → IsFit tools privileged plan
      → Keeps I (up_found tools docker build plan opts hash name replica o) (λ u. Unit {0})
  unfolding up_found
  up_found-Keeps plan opts hash name replica none fit =
      create_replica-Keeps plan name replica hash fit
  up_found-Keeps plan opts hash name replica (some current) fit =
      let again = replace-Keeps plan name replica hash current fit in
      Keeps-if I (is_current tools docker build opts hash current) _ _
        (λ same.
          Keeps-if I (is_running tools docker build current) _ _ (λ runs. Keeps-pure I _ tt tt)
            (λ stands.
              Keeps-bind I _ _ (Keeps-attempt I _ (Keeps-call I _ (w.start current.id)))
                (λ started r. Keeps-if I started _ _ (λ e. Keeps-pure I _ tt tt) (λ e. again))))
        (λ differs. again)

  up_replicas-Keeps :
      (stack : String) (plan : ServicePlan) (opts : UpOptions) (names : Table Container)
      (replica left : ℕ)
      → IsFit tools privileged plan
      → Keeps I (up_replicas tools docker build stack plan opts names replica left) (λ u. Unit {0})
  unfolding up_replicas
  up_replicas-Keeps stack plan opts names replica zero fit = Keeps-pure I _ tt tt
  up_replicas-Keeps stack plan opts names replica (suc left) fit =
      Keeps-bind I _ _ (up_found-Keeps plan opts _ _ replica _ fit)
        (λ u r. up_replicas-Keeps stack plan opts names (replica + 1) left fit)

  remove_surplus-Keeps :
      (plan : ServicePlan) (names : Table Container)
      → Keeps I (remove_surplus tools docker build plan names) (λ u. Unit {0})
  unfolding remove_surplus
  remove_surplus-Keeps plan [] = Keeps-pure I _ tt tt
  remove_surplus-Keeps plan ((name, c) ∷ names) =
      Keeps-if I (is_surplus tools docker build plan c) _ _
        (λ surplus.
          Keeps-bind I _ _ (remove_container-Keeps c.id) (λ u r. remove_surplus-Keeps plan names))
        (λ stays. remove_surplus-Keeps plan names)

  prepare-Keeps :
      (plan : ServicePlan) (force : Bool)
      → Keeps I (prepare tools docker build plan force) (λ u. Unit {0})
  unfolding prepare pull_for
  prepare-Keeps plan force = go plan.build build refl
    where
      anything : (o : Outcome (Unit {0})) → Gives I (λ u. Unit {0}) o
      anything (returned u) = tt
      anything (raised f) = tt

      go :
          (b : Option BuildPlan) (builder : Option (ServicePlan → Job E (Unit {0})))
          → build ≡ builder
          → Keeps I
              (elim b [
                | none ↦ pull_for tools docker build plan force
                | some p ↦ elim builder [ none ↦ raise build_unavailable | some run ↦ run plan ]
              ])
              (λ u. Unit {0})
      go none builder e =
          Keeps-if I (force || plan.spec.pull_policy == "always") _ _
            (λ e. Keeps-call I _ (w.pull plan.spec.image)) (λ e. Keeps-pure I _ tt tt)
      go (some b) none e = Keeps-raise I _ _
      go (some b) (some run) e = record {
        at = λ s i. (building run e plan s i, anything (run plan s).0);
      }

  up_service-Keeps :
      (stack : String) (plan : ServicePlan) (opts : UpOptions) (existing : List Container)
      → IsFit tools privileged plan
      → Keeps I (up_service tools docker build stack plan opts existing) (λ u. Unit {0})
  unfolding up_service
  up_service-Keeps stack plan opts existing fit =
      Keeps-bind I _ _ (prepare-Keeps plan opts.pull) λ u r.
        Keeps-bind I _ _ (up_replicas-Keeps stack plan opts (by_name existing) 1 plan.replicas fit)
          λ u r. remove_surplus-Keeps plan (by_name existing)

  pub up_services-Keeps :
      (stack : String) (plans : List ServicePlan) (opts : UpOptions) (existing : List Container)
      (cancels : List Bool)
      → All (IsFit tools privileged) plans
      → Keeps I (up_services tools docker build stack plans opts existing cancels) (λ u. Unit {0})
  unfolding up_services
  up_services-Keeps stack [] opts existing cancels fits = Keeps-pure I _ tt tt
  up_services-Keeps stack (plan ∷ plans) opts existing [] (fit, fits) =
      Keeps-bind I _ _ (up_service-Keeps stack plan opts existing fit)
        (λ u r. up_services-Keeps stack plans opts existing [] fits)
  up_services-Keeps stack (plan ∷ plans) opts existing (true ∷ cancels) fits = Keeps-raise I _ _
  up_services-Keeps stack (plan ∷ plans) opts existing (false ∷ cancels) (fit, fits) =
      Keeps-bind I _ _ (up_service-Keeps stack plan opts existing fit)
        (λ u r. up_services-Keeps stack plans opts existing cancels fits)
