-- ===== src/Store/Exec/Rules.antt =====
-- Postconditions of methods: one rule for each way that a method is built. The predicates speak
-- of the database alone, so they hold whatever statements fail and whatever is drawn at random.
use iskele.Common.{
  ℕ, String, ◌≡◌, refl, Bool, true, false, Option, none, some, List, [], ◌∷◌, if◌then◌else◌,
}
use iskele.Store.{Db}
use iskele.Store.Users.{or_not_found}
use iskele.Store.Exec.{
  Error, db_failure, not_found, no_entropy, Result, ok, err, World, Exec, pure, raise, lift,
  statement, ignore, map_error, rename_error, clock, random, resume, ◌>>=◌, ◌>>◌, reject_if,
}

abbrev pub Outcome :
    {A : Type 0} → (A → Db → Type 0) → (Error → Db → Type 0) → Result A → Db → Type 0
Outcome Q E (ok a) db = Q a db
Outcome Q E (err e) db = E e db

module _ {A : Type 0} (Q : A → Db → Type 0) (E : Error → Db → Type 0) where
  pub Outcome-if :
      (b : Bool) (x y : Result A × Db)
      → (b ≡ true → Outcome Q E x.0 x.1)
      → (b ≡ false → Outcome Q E y.0 y.1)
      → let z = if b then x else y in Outcome Q E z.0 z.1
  Outcome-if true x y hx hy = hx refl
  Outcome-if false x y hx hy = hy refl

-- A lookup's outcome.
module _ {A : Type 0} (Q : A → Db → Type 0) (E : Error → Db → Type 0) where
  pub Outcome-found :
      (o : Option A) (db : Db)
      → (o ≡ none → E not_found db)
      → ((a : A) → o ≡ some a → Q a db)
      → Outcome Q E (or_not_found o) db
  Outcome-found none db h k = h refl
  Outcome-found (some a) db h k = k a refl

-- From a database with `P`, at the instant `now`, a return leaves `Q` and an error leaves `E`.
pub record Triple {A : Type 0} (now : ℕ) (P : Db → Type 0) (m : Exec A) (Q : A → Db → Type 0)
    (E : Error → Db → Type 0) : Type 0 where
  pub at : (w : World) → P w.db → Outcome Q E (m now w).0 (m now w).1.db

-- An invariant of the database that a method keeps, whether it returns or fails.
abbrev pub Keeps : {A : Type 0} → ℕ → (Db → Type 0) → Exec A → Type 0
Keeps now I m = Triple now I m (λ _ db. I db) (λ _ db. I db)

module _ {A : Type 0} {now : ℕ} {P : Db → Type 0} {Q : A → Db → Type 0}
    {E : Error → Db → Type 0} where
  pub Triple-pure : (a : A) → ((db : Db) → P db → Q a db) → Triple now P (pure a) Q E
  unfolding pure
  Triple-pure a h = record { at = λ w p. h w.db p }

  pub Triple-raise : (e : Error) → ((db : Db) → P db → E e db) → Triple now P (raise e) Q E
  unfolding raise
  Triple-raise e h = record { at = λ w p. h w.db p }

  pub Triple-lift :
      (r : Result A) → ((db : Db) → P db → Outcome Q E r db) → Triple now P (lift r) Q E
  unfolding lift
  Triple-lift r h = record { at = λ w p. h w.db p }

  pub Triple-statement :
      (f : Db → Result A × Db)
      → ((db : Db) → P db → Outcome Q E (f db).0 (f db).1)
      → ((db : Db) → P db → E db_failure db)
      → Triple now P (statement f) Q E
  unfolding statement
  Triple-statement f h k = record { at = λ w p. go w w.faults p }
    where
      go :
          (w : World) (faults : List Bool)
          → P w.db
          → let r : Result A × World = statement f now (record w { faults = faults }) in
            Outcome Q E r.0 r.1.db
      go w [] p = h w.db p
      go w (true ∷ rest) p = k w.db p
      go w (false ∷ rest) p = h w.db p

  pub Triple-choose :
      (b : Db → Bool) (x y : Db → Result A × Db)
      → ((db : Db) → P db → b db ≡ true → Outcome Q E (x db).0 (x db).1)
      → ((db : Db) → P db → b db ≡ false → Outcome Q E (y db).0 (y db).1)
      → ((db : Db) → P db → E db_failure db)
      → Triple now P (statement (λ db. if b db then x db else y db)) Q E
  Triple-choose b x y hx hy k =
      Triple-statement (λ db. if b db then x db else y db)
        (λ db p. Outcome-if Q E (b db) (x db) (y db) (hx db p) (hy db p)) k

  pub Triple-if :
      (b : Bool) (m n : Exec A)
      → (b ≡ true → Triple now P m Q E)
      → (b ≡ false → Triple now P n Q E)
      → Triple now P (if b then m else n) Q E
  Triple-if true m n tm tn = tm refl
  Triple-if false m n tm tn = tn refl

  pub Triple-weaken :
      {P' : Db → Type 0} {Q' : A → Db → Type 0} {E' : Error → Db → Type 0} (m : Exec A)
      → ((db : Db) → P db → P' db)
      → ((a : A) (db : Db) → Q' a db → Q a db)
      → ((e : Error) (db : Db) → E' e db → E e db)
      → Triple now P' m Q' E'
      → Triple now P m Q E
  Triple-weaken {Q' = Q'} {E' = E'} m hp hq he t = record {
    at = λ w p. go (m now w).0 (m now w).1.db (t.at w (hp w.db p));
  }
    where
      go : (r : Result A) (db : Db) → Outcome Q' E' r db → Outcome Q E r db
      go (ok a) db h = hq a db h
      go (err e) db h = he e db h

  pub Triple-rename :
      (f : Error → Error) (m : Exec A)
      → Triple now P m Q (λ e db. E (f e) db)
      → Triple now P (rename_error f m) Q E
  unfolding rename_error
  Triple-rename f m t = record { at = λ w p. go (m now w).0 (m now w).1.db (t.at w p) }
    where
      go :
          (r : Result A) (db : Db)
          → Outcome Q (λ e d. E (f e) d) r db
          → Outcome Q E (map_error f r) db
      go (ok a) db h = h
      go (err e) db h = h

module _ {A B : Type 0} {now : ℕ} {P : Db → Type 0} {E : Error → Db → Type 0} where
  pub Triple-bind :
      {Q : A → Db → Type 0} {R : B → Db → Type 0} (m : Exec A) (f : A → Exec B)
      → Triple now P m Q E
      → ((a : A) → Triple now (Q a) (f a) R E)
      → Triple now P (m >>= f) R E
  unfolding ◌>>=◌
  Triple-bind {Q} {R} m f tm tf = record { at = λ w p. go (m now w).0 (m now w).1 (tm.at w p) }
    where
      go :
          (r : Result A) (w : World)
          → Outcome Q E r w.db
          → Outcome R E (resume f r now w).0 (resume f r now w).1.db
      go (ok a) w h = (tf a).at w h
      go (err e) w h = h

module _ {A : Type 0} {now : ℕ} {P : Db → Type 0} {E : Error → Db → Type 0} where
  pub Triple-ignore :
      {Q : Db → Type 0} (m : Exec A)
      → Triple now P m (λ _ db. Q db) (λ _ db. Q db)
      → Triple now P (ignore m) (λ _ db. Q db) E
  unfolding ignore
  Triple-ignore {Q} m t = record { at = λ w p. go (m now w).0 (m now w).1.db (t.at w p) }
    where
      go : (r : Result A) (db : Db) → Outcome (λ _ d. Q d) (λ _ d. Q d) r db → Q db
      go (ok a) db h = h
      go (err e) db h = h

module _ {now : ℕ} {P : Db → Type 0} {E : Error → Db → Type 0} where
  pub Triple-random : ((db : Db) → P db → E no_entropy db) → Triple now P random (λ _ db. P db) E
  unfolding random
  Triple-random k = record { at = λ w p. go w w.entropy p }
    where
      go :
          (w : World) (entropy : List (Option String))
          → P w.db
          → let r : Result String × World = random now (record w { entropy = entropy }) in
            Outcome (λ _ db. P db) E r.0 r.1.db
      go w [] p = k w.db p
      go w (none ∷ rest) p = k w.db p
      go w (some s ∷ rest) p = p

-- What follows a test, a pure result, the clock or a draw knows what it gave.
module _ {B : Type 0} {now : ℕ} {P : Db → Type 0} {R : B → Db → Type 0}
    {E : Error → Db → Type 0} where
  pub Triple-reject :
      (b : Bool) (e : Error) (m : Exec B)
      → (b ≡ true → (db : Db) → P db → E e db)
      → (b ≡ false → Triple now P m R E)
      → Triple now P (reject_if b e >> m) R E
  unfolding reject_if ◌>>=◌
  Triple-reject true e m h t = record { at = λ w p. h refl w.db p }
  Triple-reject false e m h t = record { at = λ w p. (t refl).at w p }

  pub Triple-lifted :
      {A : Type 0} (r : Result A) (f : A → Exec B)
      → ((e : Error) → r ≡ err e → (db : Db) → P db → E e db)
      → ((a : A) → r ≡ ok a → Triple now P (f a) R E)
      → Triple now P (lift r >>= f) R E
  unfolding lift ◌>>=◌
  Triple-lifted (ok a) f h t = record { at = λ w p. (t a refl).at w p }
  Triple-lifted (err e) f h t = record { at = λ w p. h e refl w.db p }

  pub Triple-clocked : (f : ℕ → Exec B) → Triple now P (f now) R E → Triple now P (clock >>= f) R E
  unfolding clock ◌>>=◌
  Triple-clocked f t = record { at = λ w p. t.at w p }

  pub Triple-drawn :
      (f : String → Exec B)
      → ((db : Db) → P db → E no_entropy db)
      → ((s : String) → Triple now P (f s) R E)
      → Triple now P (random >>= f) R E
  Triple-drawn f h t = Triple-bind random f (Triple-random h) t

module _ {B : Type 0} {now : ℕ} {P : Db → Type 0} {R : B → Db → Type 0}
    {E : Error → Db → Type 0} where
  -- if b { x; return e }
  pub Triple-gate :
      (b : Bool) (x : Exec (Unit {0})) (e : Error) (m : Exec B)
      → (b ≡ true → Triple now P x (λ _ db. E e db) E)
      → (b ≡ false → Triple now P m R E)
      → Triple now P ((if b then x else pure tt) >> (reject_if b e >> m)) R E
  Triple-gate true x e m tx tm =
      Triple-bind x _ (tx refl) (λ _. Triple-reject true e m (λ _ db p. p) (λ h. cc))
  Triple-gate false x e m tx tm =
      Triple-bind (pure tt) _ (Triple-pure {Q = λ _ db. P db} tt (λ db p. p))
        (λ _. Triple-reject false e m (λ h. cc) (λ _. tm refl))

-- Nothing is claimed of what a method leaves.
pub Triple-any :
    {A : Type 0} {now : ℕ} {P : Db → Type 0} (m : Exec A)
    → Triple now P m (λ _ _. Unit {0}) (λ _ _. Unit {0})
Triple-any {A} {now} m = record { at = λ w p. go (m now w).0 (m now w).1.db }
  where
    go : (r : Result A) (db : Db) → Outcome (λ _ _. Unit {0}) (λ _ _. Unit {0}) r db
    go (ok a) db = tt
    go (err e) db = tt

-- Nothing is left to show where the method cannot be reached.
pub Triple-absurd :
    {A : Type 0} {now : ℕ} {P : Db → Type 0} {Q : A → Db → Type 0} {E : Error → Db → Type 0}
    (m : Exec A)
    → ((db : Db) → P db → ⊥)
    → Triple now P m Q E
Triple-absurd m h = record { at = λ w p. absurd (h w.db p) }
