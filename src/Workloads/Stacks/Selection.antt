-- ===== src/Workloads/Stacks/Selection.antt =====
-- Which services selectServices of internal/service/stackup.go picks.
use iskele.Common.{
  String, ◌≡◌, refl, sym, ◌∙◌, subst, ◌⊎◌, inl, inr, Bool, true, not, List, [], ◌∷◌, any, select,
  All, arith, ◌==◌, eq_iff, eq_refl, Bool-cases, All-map,
}
use iskele.Workloads.Engine.{Outcome, returned, raised, no_such_service}
use iskele.Workloads.Stacks.{ServicePlan, narrow, select_services}

abbrev pub is_among : String → List String → Bool
is_among s names = any (λ name. name == s) names

abbrev pub has_service : String → List ServicePlan → Bool
has_service s plans = any (λ plan. plan.name == s) plans

-- A name that is struck off is the only one that goes.
struck :
    (s gone : String) (names : List String)
    → is_among s names ≡ true
    → (s ≡ gone) ⊎ (is_among s (select (λ name. not (name == gone)) names) ≡ true)
struck s gone [] h = cc
struck s gone (n ∷ names) h = elim (Bool-cases (n == s)) [
  | inl here ↦ elim (Bool-cases (n == gone)) [
    | inl last ↦ inl (sym ((eq_iff n s).0 here) ∙ (eq_iff n gone).0 last)
    | inr stays ↦ inr (rw (stays, here) refl)
  ]
  | inr elsewhere ↦ elim (struck s gone names (ground arith)) [
    | inl same ↦ inl same
    | inr left ↦ inr (ground arith)
  ]
]

struck-less :
    (s gone : String) (names : List String)
    → is_among s (select (λ name. not (name == gone)) names) ≡ true
    → is_among s names ≡ true
struck-less s gone [] h = h
struck-less s gone (n ∷ names) h = ground (arith, struck-less s gone names)

pub narrow-All {κ} :
    (Q : ServicePlan → Type κ) (plans : List ServicePlan) (wanted : List String)
    → All Q plans
    → All Q (narrow plans wanted).0
unfolding narrow
narrow-All Q [] wanted h = tt
narrow-All Q (plan ∷ plans) wanted (q, h) = elim (Bool-cases (is_among plan.name wanted)) [
  | inl here ↦ rw here (q, narrow-All Q plans _ h)
  | inr absent ↦ rw absent (narrow-All Q plans wanted h)
]

-- A service that is kept was wanted.
narrow-wanted :
    (plans : List ServicePlan) (wanted : List String)
    → All (λ plan. is_among plan.name wanted ≡ true) (narrow plans wanted).0
unfolding narrow
narrow-wanted [] wanted = tt
narrow-wanted (plan ∷ plans) wanted = elim (Bool-cases (is_among plan.name wanted)) [
  | inl here ↦ rw here (
    here,
    All-map _ _ (λ p. struck-less p.name plan.name wanted) _
        (narrow-wanted plans (select (λ name. not (name == plan.name)) wanted)),
  )
  | inr absent ↦ rw absent (narrow-wanted plans wanted)
]

-- A name that is wanted is kept or missing.
narrow-found :
    (s : String) (plans : List ServicePlan) (wanted : List String)
    → is_among s wanted ≡ true
    → (has_service s (narrow plans wanted).0 ≡ true) ⊎ (is_among s (narrow plans wanted).1 ≡ true)
unfolding narrow
narrow-found s [] wanted h = inr h
narrow-found s (plan ∷ plans) wanted h = elim (Bool-cases (is_among plan.name wanted)) [
  | inl here ↦ elim (struck s plan.name wanted h) [
    | inl same ↦ inl (rw here (rw same (rw eq_refl refl)))
    | inr left ↦ elim (narrow-found s plans _ left) [
      | inl kept ↦ inl (rw here (ground arith))
      | inr missing ↦ inr (rw here missing)
    ]
  ]
  | inr absent ↦ rw absent (narrow-found s plans wanted h)
]

-- What selectServices returns is what it kept, when no name is missing.
selected-narrow :
    (plans kept : List ServicePlan) (names : List String)
    → select_services plans names ≡ returned kept
    → ((narrow plans names).0 ≡ kept) × ((narrow plans names).1 ≡ [])
unfolding select_services
selected-narrow plans kept names e = go (narrow plans names).0 (narrow plans names).1 e
  where
    go :
        (found : List ServicePlan) (missing : List String)
        → (elim missing as (λ l. Outcome (List ServicePlan)) [
          | [] ↦ returned found
          | name ∷ rest ↦ raised (no_such_service name)
        ])
          ≡ returned kept
        → (found ≡ kept) × (missing ≡ [])
    go found [] e = (cc, refl)
    go found (name ∷ rest) e = cc

-- A deploy that is limited to some services gets exactly those: each is one that was named, each name
-- is found among them, and whatever holds of all services of the file holds of them.
pub select_services-exact :
    (Q : ServicePlan → Type 0) (plans kept : List ServicePlan) (names : List String)
    → All Q plans
    → select_services plans names ≡ returned kept
    → All Q kept
      × All (λ plan. is_among plan.name names ≡ true) kept
      × ((s : String) → is_among s names ≡ true → has_service s kept ≡ true)
select_services-exact Q plans kept names h e =
    let (same, complete) = selected-narrow plans kept names e in
    (
      subst (All Q) same (narrow-All Q plans names h),
      subst (All (λ plan. is_among plan.name names ≡ true)) same (narrow-wanted plans names),
      λ s wanted. elim (narrow-found s plans names wanted) [
        | inl found ↦ subst (λ l. has_service s l ≡ true) same found
        | inr missing ↦ nowhere s (narrow plans names).1 complete missing
      ],
    )
  where
    nowhere : {P : Type 0} (s : String) (l : List String) → l ≡ [] → is_among s l ≡ true → P
    nowhere s [] e h = cc
    nowhere s (n ∷ l) e h = cc (e)
