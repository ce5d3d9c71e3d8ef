-- ===== src/Workloads/Stacks/Lifecycle/Spared.antt =====
-- What `Down` of internal/service/stackup.go leaves alone.
use iskele.Common.{String, ◌≡◌, refl, Bool, true, false, List, [], ◌∷◌, All, Option, if◌then◌else◌}
use iskele.Workloads.Engine.{Engine, Answer, Container, Outcome, returned, raised, Job}
use iskele.Workloads.Engine.Rules.{
  Keeps, Keeps-pure, Keeps-call, Keeps-attempt, Keeps-bind, Keeps-if,
}
use iskele.Workloads.Stacks.{ServicePlan, ResourcePlan, Conversion, Tools}
use iskele.Workloads.Stacks.Deploy.{remove_container}
use iskele.Workloads.Stacks.Lifecycle.{
  DownOptions, removal_of, remove_each, drop_each, drop_if, down_resources, after_containers, down,
  note, removed, stuck,
}

-- What is true of the engine, kept by every listing of containers, every removal of a container, and
-- the removal of the networks of `N` and the volumes of `V`. Nothing is said of any other call.
pub record WithstandsRemoval {E : Type 0} (docker : Engine E) (I : E → Type 0)
    (N V : String → Type 0) : Type 0 where
  pub containers : (project : String) (e : E) → I e → I (docker.list_containers project e).1
  pub remove : (id : String) (e : E) → I e → I (docker.remove_container id e).1
  pub drop_network : (name : String) (e : E) → N name → I e → I (docker.remove_network name e).1
  pub drop_volume : (name : String) (e : E) → V name → I e → I (docker.remove_volume name e).1

-- The resources of a file that was read, but the external ones, are these.
abbrev pub AreOwn :
    (String → Type 0) → (Conversion → List ResourcePlan) → Outcome Conversion → Type 0
AreOwn R of (returned conversion) =
    All (λ plan. plan.external ≡ false → R plan.name) (of conversion)
AreOwn R of (raised f) = Unit

module _ {E : Type 0} (tools : Tools) (docker : Engine E)
    (build : Option (ServicePlan → Job E (Unit {0}))) (I : E → Type 0) (N V : String → Type 0)
    (w : WithstandsRemoval docker I N V) where
  remove_container-Keeps :
      (id : String) → Keeps I (remove_container tools docker build id) (λ u. Unit {0})
  unfolding remove_container
  remove_container-Keeps id = Keeps-call I _ (w.remove id)

  remove_each-Keeps :
      (cs : List Container) → Keeps I (remove_each tools docker build cs) (λ u. Unit {0})
  unfolding remove_each
  remove_each-Keeps [] = Keeps-pure I _ _ tt
  remove_each-Keeps (c ∷ cs) =
      Keeps-bind I _ _ (Keeps-attempt I _ (remove_container-Keeps c.id)) λ went r.
        Keeps-bind I _ _ (remove_each-Keeps cs)
          (λ names r. Keeps-pure I _ (note c.name (if went then removed else stuck) names) tt)

  drop_each-Keeps :
      (R : String → Type 0) (drop : String → E → Answer (Unit {0}) × E)
      → ((name : String) (e : E) → R name → I e → I (drop name e).1)
      → (plans : List ResourcePlan) → All (λ plan. plan.external ≡ false → R plan.name) plans
      → Keeps I (drop_each tools docker build drop plans) (λ u. Unit {0})
  unfolding drop_each
  drop_each-Keeps R drop drops [] own = Keeps-pure I _ _ tt
  drop_each-Keeps R drop drops (plan ∷ plans) (own, owns) =
      let rest = drop_each-Keeps R drop drops plans owns in
      Keeps-if I plan.external _ _ (λ external. rest)
        (λ ours.
          Keeps-bind I {R = λ how. Unit {0}}
            (λ e. (returned (removal_of (drop plan.name e).0), (drop plan.name e).1)) _
            (record { at = λ e i. (drops plan.name e (own ours) i, tt) })
            (λ how r.
              Keeps-bind I _ _ rest (λ names r. Keeps-pure I _ (note plan.name how names) tt)))

  drop_if-Keeps :
      (R : String → Type 0) (wanted : Bool) (drop : String → E → Answer (Unit {0}) × E)
      → ((name : String) (e : E) → R name → I e → I (drop name e).1)
      → (plans : List ResourcePlan)
      → (wanted ≡ true → All (λ plan. plan.external ≡ false → R plan.name) plans)
      → Keeps I (drop_if tools docker build wanted drop plans) (λ u. Unit {0})
  unfolding drop_if
  drop_if-Keeps R true drop drops plans own = drop_each-Keeps R drop drops plans (own refl)
  drop_if-Keeps R false drop drops plans own = Keeps-pure I _ _ tt

  down_resources-Keeps :
      (conversion : Conversion) (opts : DownOptions) (names : List String × List String)
      → (opts.networks ≡ true
          → All (λ plan. plan.external ≡ false → N plan.name) conversion.networks)
      → (opts.volumes ≡ true → All (λ plan. plan.external ≡ false → V plan.name) conversion.volumes)
      → Keeps I (down_resources tools docker build conversion opts names) (λ u. Unit {0})
  unfolding down_resources
  down_resources-Keeps conversion opts (ok, bad) nets vols =
      Keeps-bind I _ _
        (drop_if-Keeps N opts.networks docker.remove_network w.drop_network conversion.networks
          nets)
        λ dropped r.
          Keeps-bind I _ _
            (drop_if-Keeps V opts.volumes docker.remove_volume w.drop_volume conversion.volumes
              vols)
            (λ volumes r. Keeps-pure I _ _ tt)

-- Taking a stack away lists and removes containers, and removes no network and no volume but its own:
-- whatever these calls keep stays true, where the only networks removed are those that the stack's
-- file declares, not external and when networks are asked for, and the only volumes are those that it
-- declares, not external and when volumes are asked for. When the file cannot be read, no network and
-- no volume is removed.
pub down-Keeps :
    {E : Type 0} (tools : Tools) (docker : Engine E)
    (build : Option (ServicePlan → Job E (Unit {0}))) (I : E → Type 0) (N V : String → Type 0)
    (stack : String) (planned : Outcome Conversion) (opts : DownOptions) (e : E)
    → WithstandsRemoval docker I N V
    → (opts.networks ≡ true → AreOwn N (λ c. c.networks) planned)
    → (opts.volumes ≡ true → AreOwn V (λ c. c.volumes) planned)
    → I e
    → I (down tools docker build stack planned opts e).1
unfolding down
down-Keeps tools docker build I N V stack planned opts e w nets vols i =
    let keeps : Keeps I (down tools docker build stack planned opts) (λ u. Unit {0}) =
      Keeps-bind I _ _ (Keeps-call I (docker.list_containers stack) (w.containers stack)) λ cs r.
        Keeps-bind I _ _ (remove_each-Keeps tools docker build I N V w cs)
          λ names r. after planned names nets vols in
    (keeps.at e i).0
  where
    after :
        (planned : Outcome Conversion) (names : List String × List String)
        → (opts.networks ≡ true → AreOwn N (λ c. c.networks) planned)
        → (opts.volumes ≡ true → AreOwn V (λ c. c.volumes) planned)
        → Keeps I (after_containers tools docker build planned opts names) (λ u. Unit {0})
    after (returned conversion) names nets vols =
        down_resources-Keeps tools docker build I N V w conversion opts names nets vols
    after (raised f) (ok, bad) nets vols = Keeps-pure I _ _ tt
