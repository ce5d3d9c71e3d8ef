-- ===== src/Docker/Mounts/Whitelisted.antt =====
-- Which host paths the mounts of internal/docker/spec.go bind, and which of them BindSources names.
use iskele.Docker.Holds.{Holds, Holds-if, Holds-bind, Holds-built}
use iskele.Common.{
  String, ◌≡◌, Bool, true, false, not, ◌||◌, List, [], ◌∷◌, ◌++◌, All, All-append, arith, ◌==◌,
  if◌then◌else◌, sym,
}
use iskele.Docker.{Text, starts_absolute, MountSpec, Checked, built}
use iskele.Docker.Mounts.{
  Mount, bind, volume, MountPlan, type_of, bind_of, volume_of, add_mount, add_mounts, build_mounts,
  folds_to_bind, bind_sources,
}

-- What a bound mount must satisfy.
abbrev pub IsBoundIn : (String → Type 0) → Mount → Type 0
IsBoundIn P m = m.mount_type ≡ bind → P m.source

-- A mount whose type lowers to "bind" also folds to it.
abbrev pub IsPlain : Text → MountSpec → Type 0
IsPlain text m = (type_of text m == "bind") ≡ true → folds_to_bind text m ≡ true

module _ (text : Text) (P : String → Type 0) where
  -- The source of a bind is one that BindSources names.
  source_if :
      (b : Bool) (s : String) (rest : List String)
      → All P (if b then s ∷ rest else rest)
      → (b ≡ true → P s) × All P rest
  source_if true s rest (p, h) = (λ e. p, h)
  source_if false s rest h = (λ e. cc (e), h)

  bound_source :
      (m : MountSpec) (ms : List MountSpec)
      → IsPlain text m
      → All P (bind_sources text (m ∷ ms))
      → ((type_of text m == "bind") ≡ true
          → (text.trim_space m.source == "") ≡ false
          → P (text.trim_space m.source))
        × All P (bind_sources text ms)
  unfolding bind_sources
  bound_source m ms lower allowed =
      let (named, rest) = source_if _ (text.trim_space m.source) (bind_sources text ms) allowed in
      (λ is_bind there. named (ground (arith, lower is_bind)), rest)

  added :
      (ms : List Mount) (m : Mount)
      → All (IsBoundIn P) ms
      → IsBoundIn P m
      → All (IsBoundIn P) (ms ++ (m ∷ []))
  added ms m h bound = All-append (IsBoundIn P) ms (m ∷ []) h (bound, tt)

  volume-bound : {Q : Type 0} → bind ≡ volume → Q
  volume-bound e = cc

  choose :
      (b : Bool) (x y : Checked MountPlan)
      → (b ≡ true → Holds (λ p. All (IsBoundIn P) p.mounts) x)
      → (b ≡ false → Holds (λ p. All (IsBoundIn P) p.mounts) y)
      → Holds (λ p. All (IsBoundIn P) p.mounts) (if b then x else y)
  choose = Holds-if (λ p. All (IsBoundIn P) p.mounts)

  left_false : (a b : Bool) → (a || b) ≡ false → a ≡ false
  left_false a b h = ground arith

  add_mount-bound :
      (m : MountSpec) (plan : MountPlan)
      → ((type_of text m == "bind") ≡ true
          → (text.trim_space m.source == "") ≡ false
          → P (text.trim_space m.source))
      → All (IsBoundIn P) plan.mounts
      → Holds (λ p. All (IsBoundIn P) p.mounts) (add_mount text m plan)
  unfolding add_mount
  add_mount-bound m plan named h =
      let dest = text.trim_space m.destination in
      let source = text.trim_space m.source in
      choose (dest == "" || not (starts_absolute dest)) _ _ (λ bad. tt)
        λ good.
          choose (type_of text m == "tmpfs") _ _ (λ is_tmpfs. h)
            λ not_tmpfs.
              choose (type_of text m == "bind") _ _
                (λ is_bind.
                  choose (source == "" || not (starts_absolute source)) _ _ (λ bad. tt)
                    λ there.
                      added plan.mounts (bind_of text m) h
                        (λ e. named is_bind (left_false _ _ there)))
                λ not_bind.
                  choose (type_of text m == "volume" || type_of text m == "") _ _
                    (λ is_volume.
                      added plan.mounts (volume_of text m) h (λ e. volume-bound (sym e)))
                    (λ other. tt)

  add_mounts-bound :
      (ms : List MountSpec) (plan : MountPlan)
      → All (IsPlain text) ms
      → All P (bind_sources text ms)
      → All (IsBoundIn P) plan.mounts
      → Holds (λ p. All (IsBoundIn P) p.mounts) (add_mounts text ms plan)
  unfolding add_mounts
  add_mounts-bound [] plan lowers allowed h = h
  add_mounts-bound (m ∷ ms) plan (lower, lowers) allowed h =
      let (named, rest) = bound_source m ms lower allowed in
      Holds-bind _ (add_mount text m plan) (add_mounts text ms) (add_mount-bound m plan named h)
        (λ p k. add_mounts-bound ms p lowers rest k)

-- When every path that BindSources names has a property, such as that the whitelist allows it, every
-- host path that the engine is told to bind has it, if the type of each mount folds to "bind"
-- wherever it lowers to it.
pub build_mounts-bound :
    (text : Text) (P : String → Type 0) (ms : List MountSpec) (plan : MountPlan)
    → All (IsPlain text) ms
    → All P (bind_sources text ms)
    → build_mounts text ms ≡ built plan
    → All (IsBoundIn P) plan.mounts
unfolding build_mounts
build_mounts-bound text P ms plan lowers allowed e =
    Holds-built _ _ plan
      (add_mounts-bound text P ms (record { mounts = []; tmpfs = [] }) lowers allowed tt) e
