-- ===== src/Docker/Holds.antt =====
-- What holds of the value of a check, when it gives one.
use iskele.Common.{◌≡◌, refl, subst, Bool, true, false, if◌then◌else◌}
use iskele.Docker.{Checked, built, malformed, ◌>>=◌}

module _ {A : Type 0} where
  abbrev pub Holds : (A → Type 0) → Checked A → Type 0
  Holds Q (built a) = Q a
  Holds Q (malformed field) = Unit

  module _ (Q : A → Type 0) where
    pub Holds-if :
        (b : Bool) (x y : Checked A)
        → (b ≡ true → Holds Q x)
        → (b ≡ false → Holds Q y)
        → Holds Q (if b then x else y)
    Holds-if true x y h k = h refl
    Holds-if false x y h k = k refl

    pub Holds-built : (c : Checked A) (a : A) → Holds Q c → c ≡ built a → Q a
    Holds-built c a h e = subst (Holds Q) e h

module _ {A B : Type 0} {P : A → Type 0} (Q : B → Type 0) where
  pub Holds-bind :
      (c : Checked A) (f : A → Checked B)
      → Holds P c
      → ((a : A) → P a → Holds Q (f a))
      → Holds Q (c >>= f)
  Holds-bind (built a) f h k = k a h
  Holds-bind (malformed field) f h k = tt
