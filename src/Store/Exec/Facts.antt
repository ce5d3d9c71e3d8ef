-- ===== src/Store/Exec/Facts.antt =====
-- Facts that do not speak of the database, carried through a method that returns.
use iskele.Common.{ℕ, ◌≡◌, subst, arith}
use iskele.Store.{Db}
use iskele.Store.Exec.{Result, ok, err, Exec}
use iskele.Store.Exec.Rules.{Outcome, Triple}

-- A method about whose failures nothing is claimed.
abbrev pub Returns : {A : Type 0} → ℕ → (Db → Type 0) → Exec A → (A → Db → Type 0) → Type 0
Returns now P m Q = Triple now P m Q (λ _ _. Unit {0})

-- What does not speak of the database passes through a method.
module _ {A : Type 0} {now : ℕ} {F : Type 0} where
  pub known :
      {Q : A → Db → Type 0} (m : Exec A)
      → (F → Returns now (λ _. Unit {0}) m Q)
      → Returns now (λ _. F) m Q
  known m t = record { at = λ w f. (t f).at w tt }

  pub unheeded : (m : Exec A) → Returns now (λ _. F) m (λ _ _. F)
  unheeded m = record { at = λ w f. go f (m now w).0 (m now w).1.db }
    where
      go : F → (r : Result A) (db : Db) → Outcome (λ _ _. F) (λ _ _. Unit {0}) r db
      go f (ok a) db = f
      go f (err e) db = tt

-- the value of a method that returns
pub returned :
    {A : Type 0} (Q : A → Type 0) (r : Result A) (db : Db) (a : A)
    → Outcome (λ x _. Q x) (λ _ _. Unit {0}) r db
    → r ≡ ok a
    → Q a
returned Q (ok x) db a h e = subst Q (ground (arith, e)) h
returned Q (err x) db a h e = cc

-- A fact goes along with what a method shows.
pub alongside :
    {A : Type 0} {now : ℕ} {F : Type 0} {P : Db → Type 0} {Q : A → Db → Type 0} (m : Exec A)
    → Returns now P m Q
    → Returns now (λ db. P db × F) m (λ a db. Q a db × F)
alongside {A} {now} {F} {P} {Q} m t = record {
  at = λ w (p, f). go f (m now w).0 (m now w).1.db (t.at w p);
}
  where
    go :
        F
        → (r : Result A) (db : Db) → Outcome Q (λ _ _. Unit {0}) r db
        → Outcome (λ a d. Q a d × F) (λ _ _. Unit {0}) r db
    go f (ok a) db h = (h, f)
    go f (err e) db h = tt
