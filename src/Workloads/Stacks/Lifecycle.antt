-- ===== src/Workloads/Stacks/Lifecycle.antt =====
-- internal/service/stackup.go: taking a stack away, and acting on all its containers.
pub mod Spared
use iskele.Common.{
  ℕ, String, Bool, true, false, not, Option, none, some, List, [], ◌∷◌, ◌++◌, ◌==◌, if◌then◌else◌,
  eqb, ltb, ◌+◌,
}
use iskele.Workloads.Engine.{
  Engine, EngineError, no_such, engine_failed, Answer, done, failed, Container, Outcome, returned,
  raised, Job, pure, call, attempt, is_returned, ◌>>=◌, ◌>>◌,
}
use iskele.Workloads.Stacks.{ServicePlan, ResourcePlan, Conversion, Tools, label, label_service}
use iskele.Workloads.Stacks.Deploy.{remove_container}

pub record DownOptions : Type 0 where
  pub volumes : Bool
  pub networks : Bool

-- StackActionResult, by name; `failed_names` is Failed without its messages.
pub record ActionResult : Type 0 where
  pub containers : List String
  pub networks : List String
  pub volumes : List String
  pub failed_names : List String

abbrev pub no_result : ActionResult
no_result = record { containers = []; networks = []; volumes = []; failed_names = [] }

pub data StackAction : Type 0 where
  stop start restart : StackAction

-- how a removal ended
pub data Removal : Type 0 where
  removed gone stuck : Removal

abbrev pub removal_of : Answer (Unit {0}) → Removal
removal_of (done u) = removed
removal_of (failed no_such) = gone
removal_of (failed (engine_failed message)) = stuck

-- the names that were removed, and those that could not be; a name that is gone is in neither
abbrev pub note : String → Removal → List String × List String → List String × List String
note name removed (ok, bad) = (name ∷ ok, bad)
note name gone (ok, bad) = (ok, bad)
note name stuck (ok, bad) = (ok, name ∷ bad)

-- the order of two texts, and sort.SliceStable
pub record Order : Type 0 where
  pub before : String → String → Bool
  pub sort_stable : (Container → Container → Bool) → List Container → List Container

-- the place of a service in the order of the conversion, from a place on
abbrev rank : String → List ServicePlan → ℕ → Option ℕ
rank service [] i = none
rank service (plan ∷ plans) i =
    let later = rank service plans (i + 1) in
    elim later [ some j ↦ some j | none ↦ if plan.name == service then some i else none ]

-- what SliceStable is given, by the ranks of the two services
abbrev ranked_before : Order → Bool → Option ℕ → Option ℕ → Container → Container → Bool
ranked_before order reverse none none a b = order.before a.name b.name
ranked_before order reverse none (some j) a b = false
ranked_before order reverse (some i) none a b = true
ranked_before order reverse (some i) (some j) a b =
    if eqb i j then order.before a.name b.name else if reverse then ltb j i else ltb i j

-- orderContainers
unfoldable pub order_containers :
    Order → Outcome Conversion → List Container → Bool → List Container
order_containers order (raised f) containers reverse = containers
order_containers order (returned conversion) containers reverse =
    let place = λ (c : Container). rank (label label_service c.labels) conversion.services 0 in
    order.sort_stable (λ a b. ranked_before order reverse (place a) (place b) a b) containers

abbrev is_start : StackAction → Bool
is_start start = true
is_start stop = false
is_start restart = false

module _ {E : Type 0} (tools : Tools) (docker : Engine E)
    (build : Option (ServicePlan → Job E (Unit {0}))) where
  -- the loop of `down` over the containers
  unfoldable pub remove_each : List Container → Job E (List String × List String)
  unfolding remove_container attempt pure ◌>>=◌
  remove_each [] = pure ([], [])
  remove_each (c ∷ cs) = do
    went ← attempt (remove_container tools docker build c.id)
    rest ← remove_each cs
    pure (note c.name (if went then removed else stuck) rest)

  -- the loop over the networks, or the volumes, that are not external
  unfoldable pub drop_each :
      (String → E → Answer (Unit {0}) × E) → List ResourcePlan → Job E (List String × List String)
  unfolding pure ◌>>=◌
  drop_each drop [] = pure ([], [])
  drop_each drop (plan ∷ plans) =
      let rest = drop_each drop plans in
      if plan.external
      then rest
      else ((λ e. let (answer, e') = drop plan.name e in (returned (removal_of answer), e'))
          >>= λ how. rest >>= λ names. pure (note plan.name how names))

  unfoldable pub drop_if :
      Bool
      → (String → E → Answer (Unit {0}) × E)
      → List ResourcePlan
      → Job E (List String × List String)
  unfolding drop_each pure
  drop_if wanted drop plans = if wanted then drop_each drop plans else pure ([], [])

  -- what follows the containers, for a file that parses
  unfoldable pub down_resources :
      Conversion → DownOptions → List String × List String → Job E ActionResult
  unfolding drop_each pure ◌>>=◌ drop_if
  down_resources conversion opts (ok, bad) = do
    networks ← drop_if opts.networks docker.remove_network conversion.networks
    volumes ← drop_if opts.volumes docker.remove_volume conversion.volumes
    pure (record {
      containers = ok;
      networks = networks.0;
      volumes = volumes.0;
      failed_names = bad ++ (networks.1 ++ volumes.1);
    })

  abbrev pub after_containers :
      Outcome Conversion → DownOptions → List String × List String → Job E ActionResult
  unfolding down_resources pure
  after_containers (returned conversion) opts names = down_resources conversion opts names
  after_containers (raised f) opts (ok, bad) =
      pure (record no_result { containers = ok; failed_names = bad })

  -- down
  unfoldable pub down : String → Outcome Conversion → DownOptions → Job E ActionResult
  unfolding call remove_each after_containers ◌>>=◌
  down stack planned opts = do
    containers ← call (docker.list_containers stack)
    names ← remove_each containers
    after_containers planned opts names

  -- what an action asks of the engine
  abbrev pub verb : StackAction → String → E → Answer (Unit {0}) × E
  verb stop = docker.stop_container
  verb start = docker.start_container
  verb restart = docker.restart_container

  unfoldable pub act_each : StackAction → List Container → Job E (List String × List String)
  unfolding call attempt pure ◌>>=◌
  act_each action [] = pure ([], [])
  act_each action (c ∷ cs) = do
    went ← attempt (call (verb action c.id))
    rest ← act_each action cs
    pure (note c.name (if went then removed else stuck) rest)

  -- act
  unfoldable pub act : Order → String → Outcome Conversion → StackAction → Job E ActionResult
  unfolding call act_each order_containers pure ◌>>=◌
  act order stack planned action = do
    containers ← call (docker.list_containers stack)
    names ← act_each action (order_containers order planned containers (not (is_start action)))
    pure (record no_result { containers = names.0; failed_names = names.1 })
