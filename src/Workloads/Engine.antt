-- ===== src/Workloads/Engine.antt =====
-- What the services ask of Docker through the interface of internal/docker, how they fail, and how
-- their steps follow one another. `E` is the state of the engine, of which nothing is assumed.
pub mod Rules
use iskele.Common.{ℕ, String, Bool, true, false, Option, none, some, List, [], ◌∷◌, if◌then◌else◌}
use iskele.Docker.{Checked, built, malformed}
use iskele.Docker.Create.{CreateSpec}

-- An answer of the engine that docker.IsNotFound tells from the others.
pub data EngineError : Type 0 where
  no_such : EngineError
  engine_failed : String → EngineError

pub data Answer (A : Type 0) : Type 0 where
  done : A → Answer A
  failed : EngineError → Answer A

pub record Container : Type 0 where
  pub id : String
  pub name : String
  pub state : String
  pub labels : List (String × String)

-- One more network of a container.
pub record ServiceNetwork : Type 0 where
  pub name : String
  pub aliases : List String
  pub ipv4_address : String
  pub ipv6_address : String

-- docker.Client, of the calls that are modelled. `list_containers` is given the project that the
-- label must name; `pull` is PullImageProgress, drained, with the credentials of the registry.
pub record Engine (E : Type 0) : Type 0 where
  pub create_container : CreateSpec → E → Answer String × E
  pub start_container : String → E → Answer (Unit {0}) × E
  pub stop_container : String → E → Answer (Unit {0}) × E
  pub restart_container : String → E → Answer (Unit {0}) × E
  pub remove_container : String → E → Answer (Unit {0}) × E
  pub connect_network : ServiceNetwork → String → E → Answer (Unit {0}) × E
  pub list_containers : String → E → Answer (List Container) × E
  pub list_networks : E → Answer (List String) × E
  pub list_volumes : E → Answer (List String) × E
  pub create_network : String → E → Answer (Unit {0}) × E
  pub create_volume : String → E → Answer (Unit {0}) × E
  pub remove_network : String → E → Answer (Unit {0}) × E
  pub remove_volume : String → E → Answer (Unit {0}) × E
  pub pull : String → E → Answer (Unit {0}) × E

-- A reason why a stack is not deployed: the service and the field, without the text for the reader.
pub record Problem : Type 0 where
  pub service : String
  pub field : String

-- How a service fails.
pub data Fault : Type 0 where
  path_refused : String → Fault
  privileged_options_used : List String → Fault
  spec_error : String → Fault
  engine_fault : EngineError → Fault
  stack_refused : List Problem → Fault
  no_such_service : String → Fault
  external_missing : String → Fault
  compose_failed canceled build_unavailable : Fault

pub data Outcome (A : Type 0) : Type 0 where
  returned : A → Outcome A
  raised : Fault → Outcome A

-- A part of a service: it changes the engine, and may fail; what it has changed stays.
abbrev pub Job : Type 0 → Type 0 → Type 0
Job E A = E → Outcome A × E

module _ {A : Type 0} where
  abbrev pub from_answer : Answer A → Outcome A
  from_answer (done a) = returned a
  from_answer (failed err) = raised (engine_fault err)

  abbrev pub from_checked : Checked A → Outcome A
  from_checked (built a) = returned a
  from_checked (malformed field) = raised (spec_error field)

module _ {E A : Type 0} where
  unfoldable pub pure : A → Job E A
  pure a e = (returned a, e)

  unfoldable pub raise : Fault → Job E A
  raise f e = (raised f, e)

  -- if err != nil { return err }
  unfoldable pub call : (E → Answer A × E) → Job E A
  call f e = let (answer, e') = f e in (from_answer answer, e')

  unfoldable pub checked : Checked A → Job E A
  checked c e = (from_checked c, e)

module _ {E A B : Type 0} where
  abbrev pub resume : (A → Job E B) → Outcome A → Job E B
  resume k (returned a) e = k a e
  resume k (raised f) e = (raised f, e)

  infixl 5 ◌>>=◌ ◌>>◌
  unfoldable pub ◌>>=◌ : Job E A → (A → Job E B) → Job E B
  ◌>>=◌ m k e = let (outcome, e') = m e in resume k outcome e'

  abbrev pub ◌>>◌ : Job E A → Job E B → Job E B
  m >> n = m >>= λ _. n

-- a check that gives the fault, if there is one
unfoldable pub unless_fault : {E : Type 0} → Option Fault → Job E (Unit {0})
unfolding raise pure
unless_fault none = pure tt
unless_fault (some f) = raise f

abbrev pub is_returned : {A : Type 0} → Outcome A → Bool
is_returned (returned a) = true
is_returned (raised f) = false

-- if err := m; err == nil: the error is dropped, and whether there was one is known
unfoldable pub attempt : {E A : Type 0} → Job E A → Job E Bool
attempt m e = let (outcome, e') = m e in (returned (is_returned outcome), e')
