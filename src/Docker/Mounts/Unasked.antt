-- ===== src/Docker/Mounts/Unasked.antt =====
-- A mount that internal/docker/spec.go binds, and that BindSources leaves out.
use iskele.Docker.Holds.{Holds, Holds-if, Holds-bind, Holds-built}
use iskele.Common.{
  String, ◌≡◌, refl, ap, Bool, true, false, not, ◌&&◌, ◌||◌, List, [], ◌∷◌, ◌++◌, any, any-append,
  arith, ◌==◌, eq_iff, eq_refl, if◌then◌else◌,
}
use iskele.Docker.{Text, starts_absolute, MountSpec, Checked, built, malformed}
use iskele.Docker.Mounts.{
  MountType, Mount, bind, volume, MountPlan, type_of, bind_of, volume_of, add_mount, add_mounts,
  build_mounts, folds_to_bind, bind_sources,
}

abbrev is_bind : MountType → Bool
is_bind bind = true
is_bind volume = false

-- Whether a mount binds this host path.
abbrev pub binds : String → Mount → Bool
binds source m = is_bind m.mount_type && m.source == source

anything : {A : Type 0} (c : Checked A) → Holds (λ a. Unit {0}) c
anything (built a) = tt
anything (malformed field) = tt

module _ (q : Mount → Bool) where
  any-more : (ms : List Mount) (m : Mount) → any q ms ≡ true → any q (ms ++ (m ∷ [])) ≡ true
  any-more ms m h = ground (arith, h, any-append q ms (m ∷ []))

  any-last : (ms : List Mount) (m : Mount) → q m ≡ true → any q (ms ++ (m ∷ [])) ≡ true
  any-last ms m h = ground (arith, h, any-append q ms (m ∷ []))

  choose :
      (b : Bool) (x y : Checked MountPlan)
      → (b ≡ true → Holds (λ p. any q p.mounts ≡ true) x)
      → (b ≡ false → Holds (λ p. any q p.mounts ≡ true) y)
      → Holds (λ p. any q p.mounts ≡ true) (if b then x else y)
  choose = Holds-if (λ p. any q p.mounts ≡ true)

module _ (text : Text) where
  -- What is among the mounts stays there.
  add_mount-any :
      (q : Mount → Bool) (m : MountSpec) (plan : MountPlan)
      → any q plan.mounts ≡ true
      → Holds (λ p. any q p.mounts ≡ true) (add_mount text m plan)
  unfolding add_mount
  add_mount-any q m plan h =
      let dest = text.trim_space m.destination in
      let source = text.trim_space m.source in
      choose q (dest == "" || not (starts_absolute dest)) _ _ (λ bad. tt)
        λ good.
          choose q (type_of text m == "tmpfs") _ _ (λ is_tmpfs. h)
            λ not_tmpfs.
              choose q (type_of text m == "bind") _ _
                (λ is_bind.
                  choose q (source == "" || not (starts_absolute source)) _ _ (λ bad. tt)
                    (λ there. any-more q plan.mounts (bind_of text m) h))
                λ not_bind.
                  choose q (type_of text m == "volume" || type_of text m == "") _ _
                    (λ is_volume. any-more q plan.mounts (volume_of text m) h) (λ other. tt)

  add_mounts-any :
      (q : Mount → Bool) (ms : List MountSpec) (plan : MountPlan)
      → any q plan.mounts ≡ true
      → Holds (λ p. any q p.mounts ≡ true) (add_mounts text ms plan)
  unfolding add_mounts
  add_mounts-any q [] plan h = h
  add_mounts-any q (m ∷ ms) plan h =
      Holds-bind _ (add_mount text m plan) (add_mounts text ms) (add_mount-any q m plan h)
        (add_mounts-any q ms)

  module _ (m : MountSpec) (lowers : (type_of text m == "bind") ≡ true) where
    add_mount-binds :
        (plan : MountPlan)
        → Holds
            (λ p. any (binds (text.trim_space m.source)) p.mounts ≡ true)
            (add_mount text m plan)
    unfolding add_mount
    add_mount-binds plan =
        let dest = text.trim_space m.destination in
        let source = text.trim_space m.source in
        let bound = binds source in
        let not_tmpfs : (type_of text m == "tmpfs") ≡ false =
          ap (λ t. t == "tmpfs") ((eq_iff (type_of text m) "bind").0 lowers) in
        choose bound (dest == "" || not (starts_absolute dest)) _ _ (λ bad. tt)
          λ good.
            choose bound (type_of text m == "tmpfs") _ _ (λ is_tmpfs. cc)
              λ other.
                choose bound (type_of text m == "bind") _ _
                  (λ is_bind.
                    choose bound (source == "" || not (starts_absolute source)) _ _ (λ bad. tt)
                      (λ there. any-last bound plan.mounts (bind_of text m) (eq_refl source)))
                  (λ not_bind. cc)

    add_mounts-binds :
        (before after : List MountSpec) (plan : MountPlan)
        → Holds
            (λ p. any (binds (text.trim_space m.source)) p.mounts ≡ true)
            (add_mounts text (before ++ (m ∷ after)) plan)
    unfolding add_mounts
    add_mounts-binds [] after plan =
        Holds-bind _ (add_mount text m plan) (add_mounts text after) (add_mount-binds plan)
          (add_mounts-any _ after)
    add_mounts-binds (b ∷ before) after plan =
        Holds-bind _ (add_mount text b plan) (add_mounts text (before ++ (m ∷ after))) (anything _)
          (λ p u. add_mounts-binds before after p)

  bind_sources-without :
      (m : MountSpec) (before after : List MountSpec)
      → folds_to_bind text m ≡ false
      → bind_sources text (before ++ (m ∷ after)) ≡ bind_sources text (before ++ after)
  unfolding bind_sources
  bind_sources-without m [] after unfolded = rw unfolded refl
  bind_sources-without m (b ∷ before) after unfolded =
      rw (bind_sources-without m before after unfolded) refl

-- Among any mounts that are accepted, one whose type lowers to "bind" and does not fold to it is
-- bound, with its host path; and the paths that BindSources names, which are those that the whitelist
-- is asked about, are the same as without this mount.
pub build_mounts-unasked :
    (text : Text) (before : List MountSpec) (m : MountSpec) (after : List MountSpec)
    (plan : MountPlan)
    → (type_of text m == "bind") ≡ true
    → folds_to_bind text m ≡ false
    → build_mounts text (before ++ (m ∷ after)) ≡ built plan
    → (any (binds (text.trim_space m.source)) plan.mounts ≡ true)
      × (bind_sources text (before ++ (m ∷ after)) ≡ bind_sources text (before ++ after))
unfolding build_mounts
build_mounts-unasked text before m after plan lowers unfolded e = (
  Holds-built _ _ plan
      (add_mounts-binds text m lowers before after (record { mounts = []; tmpfs = [] })) e,
  bind_sources-without text m before after unfolded,
)
