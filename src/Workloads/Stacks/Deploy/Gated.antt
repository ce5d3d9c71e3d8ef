-- ===== src/Workloads/Stacks/Deploy/Gated.antt =====
-- What a deploy of internal/service/stackup.go lets the engine be asked.
use iskele.Workloads.Stacks.Selection.{select_services-exact}
use iskele.Common.{String, ◌≡◌, refl, Bool, Option, some, List, [], ◌∷◌, any, All, ◌==◌, subst}
use iskele.Docker.Mounts.Whitelisted.{IsPlain}
use iskele.Workloads.Creator.Gated.{IsGated}
use iskele.Workloads.Engine.{Engine, Answer, Outcome, returned, raised, Job}
use iskele.Workloads.Engine.Rules.{
  Withstands, Keeps, Keeps-pure, Keeps-raise, Keeps-call, Keeps-unless, Keeps-bind, Keeps-if,
  Keeps-settle,
}
use iskele.Workloads.Stacks.Deploy.Fit.{append-nil, IsFit, problems_for-IsFit, refusal-none}
use iskele.Workloads.Stacks.{
  ServicePlan, ResourcePlan, Conversion, UpOptions, Tools, select_services,
}
use iskele.Workloads.Stacks.Deploy.{
  ensure_each, ensure_networks, ensure_volumes, selected, problems_of, up,
}
use iskele.Workloads.Stacks.Deploy.Services.{up_services-Keeps}

module _ {E : Type 0} (tools : Tools) (docker : Engine E)
    (build : Option (ServicePlan → Job E (Unit {0}))) (I : E → Type 0) (N V : String → Type 0)
    (privileged : Bool)
    (w : Withstands docker I (IsGated tools.text tools.paths tools.guard privileged) N V)
    (building : (run : ServicePlan → Job E (Unit {0}))
      → build ≡ some run
      → (plan : ServicePlan) (e : E) → I e
      → I (run plan e).1) where
  ensure_each-Keeps :
      (create : String → E → Answer (Unit {0}) × E)
      → ((name : String) (e : E) → I e → I (create name e).1)
      → (present : List String) (plans : List ResourcePlan)
      → Keeps I (ensure_each tools docker build create present plans) (λ u. Unit {0})
  unfolding ensure_each
  ensure_each-Keeps create creates present [] = Keeps-pure I _ tt tt
  ensure_each-Keeps create creates present (plan ∷ plans) =
      let rest = ensure_each-Keeps create creates present plans in
      Keeps-if I (any (λ name. name == plan.name) present) _ _ (λ there. rest)
        (λ missing.
          Keeps-if I plan.external _ _ (λ external. Keeps-raise I _ _)
            (λ ours. Keeps-bind I _ _ (Keeps-call I _ (creates plan.name)) (λ u r. rest)))

  ensure_networks-Keeps :
      (plans : List ResourcePlan)
      → Keeps I (ensure_networks tools docker build plans) (λ u. Unit {0})
  unfolding ensure_networks
  ensure_networks-Keeps [] = Keeps-pure I _ tt tt
  ensure_networks-Keeps (plan ∷ plans) =
      Keeps-bind I _ _ (Keeps-call I _ w.networks)
        (λ present r. ensure_each-Keeps docker.create_network w.network present (plan ∷ plans))

  ensure_volumes-Keeps :
      (plans : List ResourcePlan)
      → Keeps I (ensure_volumes tools docker build plans) (λ u. Unit {0})
  unfolding ensure_volumes
  ensure_volumes-Keeps [] = Keeps-pure I _ tt tt
  ensure_volumes-Keeps (plan ∷ plans) =
      Keeps-bind I _ _ (Keeps-call I _ w.volumes)
        (λ present r. ensure_each-Keeps docker.create_volume w.volume present (plan ∷ plans))

  problems_of-IsFit :
      (plans : List ServicePlan)
      → All (λ plan. All (IsPlain tools.text) plan.spec.mounts) plans
      → problems_of tools docker build plans privileged ≡ []
      → All (IsFit tools privileged) plans
  unfolding problems_of
  problems_of-IsFit [] plain e = tt
  problems_of-IsFit (plan ∷ plans) (plain, plains) e =
      let (here, rest) = append-nil _ _ e in
      (problems_for-IsFit tools plan privileged plain here, problems_of-IsFit plans plains rest)

  up-Keeps :
      (stack : String) (planned : Outcome Conversion) (opts : UpOptions) (cancels : List Bool)
      → opts.privileged ≡ privileged
      → ((conversion : Conversion)
          → planned ≡ returned conversion
          → (plans : List ServicePlan)
          → selected tools docker build conversion opts ≡ returned plans
          → All (λ plan. All (IsPlain tools.text) plan.spec.mounts) plans)
      → Keeps I (up tools docker build stack planned opts cancels) (λ u. Unit {0})
  unfolding up
  up-Keeps stack planned opts cancels rights plain =
      Keeps-bind I _ _ (Keeps-settle I planned) λ conversion converted.
        Keeps-bind I _ _ (Keeps-settle I (selected tools docker build conversion opts))
          λ plans chosen. Keeps-bind I _ _ (Keeps-unless I _) λ u fine.
            Keeps-bind I _ _ (ensure_networks-Keeps conversion.networks) λ u r.
              Keeps-bind I _ _ (ensure_volumes-Keeps conversion.volumes) λ u r.
                Keeps-bind I _ _ (Keeps-call I (docker.list_containers stack) (w.containers stack))
                  λ existing r.
                    up_services-Keeps tools docker build I N V privileged w building stack plans
                      opts existing cancels
                      (problems_of-IsFit plans (plain conversion converted plans chosen) (
                        subst (λ p. problems_of tools docker build plans p ≡ []) rights
                          (refusal-none _ fine)))

unreturned : (xs ys : List ServicePlan) → returned xs ≡ returned ys → xs ≡ ys
unreturned xs ys e = cc

-- Whatever holds of all services of the file holds of those that a deploy is limited to.
selected-All :
    {E : Type 0} (tools : Tools) (docker : Engine E)
    (build : Option (ServicePlan → Job E (Unit {0}))) (Q : ServicePlan → Type 0)
    (conversion : Conversion) (opts : UpOptions) (plans : List ServicePlan)
    → All Q conversion.services
    → selected tools docker build conversion opts ≡ returned plans
    → All Q plans
unfolding selected
selected-All tools docker build Q conversion opts plans h e = go opts.services e
  where
    go :
        (names : List String)
        → (elim names as (λ l. Outcome (List ServicePlan)) [
          | [] ↦ returned conversion.services
          | name ∷ rest ↦ select_services conversion.services (name ∷ rest)
        ])
          ≡ returned plans
        → All Q plans
    go [] e = subst (All Q) (unreturned conversion.services plans e) h
    go (name ∷ rest) e = (select_services-exact Q conversion.services plans (name ∷ rest) h e).0

-- What a conversion that there is must satisfy.
abbrev OfConversion : (Conversion → Type 0) → Outcome Conversion → Type 0
OfConversion Q (returned c) = Q c
OfConversion Q (raised f) = Unit

-- A compose file cannot get round the two gates either: whatever is true of the engine while it is
-- asked to create only containers that bind allowed host paths and, without the privileged
-- permission, widen nothing, stays true through a deploy, wherever the deploy fails or is canceled,
-- when the builder keeps it. The type of each mount folds to "bind" wherever it lowers to it.
pub up-IsGated :
    {E : Type 0} (tools : Tools) (docker : Engine E)
    (build : Option (ServicePlan → Job E (Unit {0}))) (I : E → Type 0) (N V : String → Type 0)
    (stack : String) (conversion : Conversion) (opts : UpOptions) (cancels : List Bool) (e : E)
    → Withstands docker I (IsGated tools.text tools.paths tools.guard opts.privileged) N V
    → ((run : ServicePlan → Job E (Unit {0}))
        → build ≡ some run
        → (plan : ServicePlan) (e : E) → I e
        → I (run plan e).1)
    → All (λ plan. All (IsPlain tools.text) plan.spec.mounts) conversion.services
    → I e
    → I (up tools docker build stack (returned conversion) opts cancels e).1
up-IsGated tools docker build I N V stack conversion opts cancels e w building plain i =
    let Plain =
      λ (c : Conversion). All (λ plan. All (IsPlain tools.text) plan.spec.mounts) c.services in
    let keeps =
      up-Keeps tools docker build I N V opts.privileged w building stack (returned conversion) opts
        cancels refl
        (λ c same plans chosen.
          selected-All tools docker build _ c opts plans (subst (OfConversion Plain) same plain)
            chosen) in
    (keeps.at e i).0
