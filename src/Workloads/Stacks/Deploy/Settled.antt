-- ===== src/Workloads/Stacks/Deploy/Settled.antt =====
-- A service that runs what its stack asks for, and a deploy of internal/service/stackup.go.
use iskele.Common.{
  ℕ, zero, suc, ◌+◌, String, ◌≡◌, refl, true, false, ◌||◌, Option, none, some, List, [], ◌∷◌, All,
  Table, lookup, ◌==◌, eq_refl,
}
use iskele.Workloads.Engine.{Engine, Container, returned, Job, pure, ◌>>=◌}
use iskele.Workloads.Stacks.{ServicePlan, UpOptions, Tools, config_hash, label, label_config_hash}
use iskele.Workloads.Stacks.Deploy.{
  by_name, up_found, replica_name, up_replicas, is_surplus, remove_surplus, pull_for, prepare,
  up_service,
}

module _ {E : Type 0} (tools : Tools) (docker : Engine E)
    (build : Option (ServicePlan → Job E (Unit {0}))) where
  -- The container of one replica runs, and its label says that it was created from this definition.
  pub record IsUpToDate (stack : String) (plan : ServicePlan) (names : Table Container)
      (replica : ℕ) : Type 0 where
    pub container : Container
    pub found : lookup (replica_name tools docker build stack plan replica) names ≡ some container
    pub current : label label_config_hash container.labels ≡ config_hash tools plan.spec
    pub running : tools.text.equal_fold container.state "running" ≡ true

  -- So many replicas from one on do.
  abbrev pub AreUpToDate : String → ServicePlan → Table Container → ℕ → ℕ → Type 0
  AreUpToDate stack plan names replica zero = Unit
  AreUpToDate stack plan names replica (suc left) =
      IsUpToDate stack plan names replica × AreUpToDate stack plan names (replica + 1) left

  up_replicas-idle :
      (stack : String) (plan : ServicePlan) (opts : UpOptions) (names : Table Container)
      (replica left : ℕ) (e : E)
      → opts.recreate ≡ false
      → AreUpToDate stack plan names replica left
      → up_replicas tools docker build stack plan opts names replica left e ≡ (returned tt, e)
  unfolding up_replicas up_found pure ◌>>=◌
  up_replicas-idle stack plan opts names replica zero e kept h = refl
  up_replicas-idle stack plan opts names replica (suc left) e kept (h, hs) =
      rw (h.found, kept, h.current, eq_refl, h.running)
        (up_replicas-idle stack plan opts names (replica + 1) left e kept hs)

  remove_surplus-idle :
      (plan : ServicePlan) (names : Table Container) (e : E)
      → All (λ entry. is_surplus tools docker build plan entry.1 ≡ false) names
      → remove_surplus tools docker build plan names e ≡ (returned tt, e)
  unfolding remove_surplus pure
  remove_surplus-idle plan [] e h = refl
  remove_surplus-idle plan ((name, c) ∷ names) e (h, hs) =
      rw h (remove_surplus-idle plan names e hs)

-- The deploy of one service leaves alone what is already as the file asks: where it is not asked to
-- recreate containers, for a service whose image is neither built nor always pulled, every replica of
-- which has a running container under its name with the hash of the definition, and that has no
-- replica too many, upService asks nothing at all of the engine.
pub up_service-settled :
    {E : Type 0} (tools : Tools) (docker : Engine E)
    (build : Option (ServicePlan → Job E (Unit {0}))) (stack : String) (plan : ServicePlan)
    (opts : UpOptions) (existing : List Container) (e : E)
    → plan.build ≡ none
    → (opts.pull || plan.spec.pull_policy == "always") ≡ false
    → opts.recreate ≡ false
    → AreUpToDate tools docker build stack plan (by_name existing) 1 plan.replicas
    → All (λ entry. is_surplus tools docker build plan entry.1 ≡ false) (by_name existing)
    → up_service tools docker build stack plan opts existing e ≡ (returned tt, e)
unfolding up_service prepare pull_for pure ◌>>=◌
up_service-settled tools docker build stack plan opts existing e image unforced unchanged current
      kept =
    rw (image, unforced)
      (rw
        (up_replicas-idle tools docker build stack plan opts (by_name existing) 1 plan.replicas e
          unchanged current)
        (remove_surplus-idle tools docker build plan (by_name existing) e kept))
