-- ===== src/Workloads/Engine/Rules.antt =====
-- Invariants of the engine that a job keeps, whether it returns or fails.
use iskele.Common.{String, ◌≡◌, refl, Bool, true, false, Option, none, some, if◌then◌else◌}
use iskele.Docker.{Checked, built, malformed}
use iskele.Docker.Create.{CreateSpec}
use iskele.Workloads.Engine.{
  Engine, Answer, done, failed, ServiceNetwork, Fault, Outcome, returned, raised, Job, pure, raise,
  call, checked, unless_fault, resume, from_answer, ◌>>=◌, attempt,
}

-- What an invariant of the engine must withstand: the creation of a container with `K`, the removal of
-- a network with `N` or a volume with `V`, and every other call.
pub record Withstands {E : Type 0} (docker : Engine E) (I : E → Type 0) (K : CreateSpec → Type 0)
    (N V : String → Type 0) : Type 0 where
  pub create : (c : CreateSpec) (e : E) → K c → I e → I (docker.create_container c e).1
  pub start : (id : String) (e : E) → I e → I (docker.start_container id e).1
  pub stop : (id : String) (e : E) → I e → I (docker.stop_container id e).1
  pub restart : (id : String) (e : E) → I e → I (docker.restart_container id e).1
  pub remove : (id : String) (e : E) → I e → I (docker.remove_container id e).1
  pub connect :
      (n : ServiceNetwork) (id : String) (e : E) → I e → I (docker.connect_network n id e).1
  pub containers : (project : String) (e : E) → I e → I (docker.list_containers project e).1
  pub networks : (e : E) → I e → I (docker.list_networks e).1
  pub volumes : (e : E) → I e → I (docker.list_volumes e).1
  pub network : (name : String) (e : E) → I e → I (docker.create_network name e).1
  pub volume : (name : String) (e : E) → I e → I (docker.create_volume name e).1
  pub drop_network : (name : String) (e : E) → N name → I e → I (docker.remove_network name e).1
  pub drop_volume : (name : String) (e : E) → V name → I e → I (docker.remove_volume name e).1
  pub pull : (image : String) (e : E) → I e → I (docker.pull image e).1

module _ {E : Type 0} (I : E → Type 0) where
  -- The value of a job that returns satisfies `R`.
  abbrev pub Gives : {A : Type 0} → (A → Type 0) → Outcome A → Type 0
  Gives R (returned a) = R a
  Gives R (raised f) = Unit

  pub record Keeps {A : Type 0} (m : Job E A) (R : A → Type 0) : Type 0 where
    pub at : (e : E) → I e → I (m e).1 × Gives R (m e).0

  pub Keeps-pure : {A : Type 0} (R : A → Type 0) (a : A) → R a → Keeps (pure a) R
  unfolding pure
  Keeps-pure R a r = record { at = λ e h. (h, r) }

  pub Keeps-raise : {A : Type 0} (R : A → Type 0) (f : Fault) → Keeps {A = A} (raise f) R
  unfolding raise
  Keeps-raise R f = record { at = λ e h. (h, tt) }

  pub Keeps-call :
      {A : Type 0} (f : E → Answer A × E)
      → ((e : E) → I e → I (f e).1)
      → Keeps (call f) (λ a. Unit {0})
  unfolding call
  Keeps-call {A} f h = record { at = λ e i. (h e i, anything (f e).0) }
    where
      anything : (a : Answer A) → Gives (λ x. Unit {0}) (from_answer a)
      anything (done a) = tt
      anything (failed err) = tt

  pub Keeps-checked : {A : Type 0} (c : Checked A) → Keeps (checked c) (λ a. c ≡ built a)
  unfolding checked
  Keeps-checked (built a) = record { at = λ e h. (h, refl) }
  Keeps-checked (malformed field) = record { at = λ e h. (h, tt) }

  pub Keeps-unless : (o : Option Fault) → Keeps (unless_fault o) (λ u. o ≡ none)
  unfolding unless_fault
  Keeps-unless none = Keeps-pure _ tt refl
  Keeps-unless (some f) = Keeps-raise _ f

  pub Keeps-bind :
      {A B : Type 0} {R : A → Type 0} {S : B → Type 0} (m : Job E A) (k : A → Job E B)
      → Keeps m R
      → ((a : A) → R a → Keeps (k a) S)
      → Keeps (m >>= k) S
  unfolding ◌>>=◌
  Keeps-bind {A} {B} {R} {S} m k h t = record {
    at = λ e i. go (m e).0 (m e).1 (h.at e i).0 (h.at e i).1;
  }
    where
      go : (o : Outcome A) (e : E) → I e → Gives R o → I (resume k o e).1 × Gives S (resume k o e).0
      go (returned a) e i r = (t a r).at e i
      go (raised f) e i r = (i, tt)

  pub Keeps-if :
      {A : Type 0} {R : A → Type 0} (b : Bool) (m n : Job E A)
      → (b ≡ true → Keeps m R)
      → (b ≡ false → Keeps n R)
      → Keeps (if b then m else n) R
  Keeps-if true m n h k = h refl
  Keeps-if false m n h k = k refl

  pub Keeps-attempt :
      {A : Type 0} {R : A → Type 0} (m : Job E A) → Keeps m R → Keeps (attempt m) (λ b. Unit {0})
  unfolding attempt
  Keeps-attempt m h = record { at = λ e i. ((h.at e i).0, tt) }

  -- What was decided before the engine is asked.
  pub Keeps-settle : {A : Type 0} (o : Outcome A) → Keeps (λ e. (o, e)) (λ a. o ≡ returned a)
  Keeps-settle (returned a) = record { at = λ e i. (i, refl) }
  Keeps-settle (raised f) = record { at = λ e i. (i, tt) }

  -- What holds of the value may be weakened.
  pub Keeps-weaken :
      {A : Type 0} {R S : A → Type 0} (m : Job E A) → ((a : A) → R a → S a) → Keeps m R → Keeps m S
  Keeps-weaken {A} {R} {S} m f h = record { at = λ e i. ((h.at e i).0, go (m e).0 (h.at e i).1) }
    where
      go : (o : Outcome A) → Gives R o → Gives S o
      go (returned a) r = f a r
      go (raised fault) r = tt
