-- ===== src/Common/Tables.antt =====
-- Go's `map[string]V` as an association list. The order of the entries stands for the order in
-- which `range` happens to visit them.
use Prim.Native.String.{String}
use mathlib.Core.Logic.{inl, inr}
use mathlib.Core.Path.{◌≡◌, refl, subst}
use mathlib.Core.Bool.{Bool, false}
use mathlib.Core.Option.{Option, none, some}
use mathlib.Core.List.{List, [], ◌∷◌}
use native.Mathlib.Omega.{arith}
use text.Mathlib.Text.{◌==◌}
use text.Mathlib.TextEquality.{eq_iff}
use Prim.Native.Nat.{◌≤◌, ◌+◌}
use iskele.Common.Tests.{if◌then◌else◌, Bool-cases}
use iskele.Common.Lists.{length}

abbrev pub Table {ℓ} : Type ℓ → Type ℓ
Table V = List (String × V)

module _ {ℓ} {V : Type ℓ} where
  -- v, ok := table[key]
  unfoldable pub lookup : String → Table V → Option V
  lookup key [] = none
  lookup key ((other_key, v) ∷ table) = if other_key == key then some v else lookup key table

  -- table[key] = v
  unfoldable pub insert : String → V → Table V → Table V
  insert key v [] = (key, v) ∷ []
  insert key v ((other_key, w) ∷ table) =
      if other_key == key then (key, v) ∷ table else (other_key, w) ∷ insert key v table

  -- delete(table, key)
  unfoldable pub erase : String → Table V → Table V
  erase key [] = []
  erase key ((other_key, v) ∷ table) =
      let rest = erase key table in if other_key == key then rest else (other_key, v) ∷ rest

  -- for key, v := range table { if drop(v) { delete(table, key) } }
  unfoldable pub erase_if : (V → Bool) → Table V → Table V
  erase_if p [] = []
  erase_if p ((other_key, v) ∷ table) =
      let rest = erase_if p table in if p v then rest else (other_key, v) ∷ rest

module _ {ℓ} {V : Type ℓ} where
  pub lookup-insert :
      (key other_key : String) (v : V) (table : Table V)
      → lookup other_key (insert key v table)
        ≡ (if key == other_key then some v else lookup other_key table)
  unfolding lookup insert
  lookup-insert key other_key v [] = refl
  lookup-insert key other_key v ((i, w) ∷ table) = ground (
    arith,
    lookup-insert key other_key v table,
    eq_iff i other_key,
    eq_iff i key,
    eq_iff key other_key,
  )

  pub lookup-erase :
      (key other_key : String) (table : Table V)
      → lookup other_key (erase key table)
        ≡ (if key == other_key then none else lookup other_key table)
  unfolding lookup erase
  lookup-erase key other_key [] = ground arith
  lookup-erase key other_key ((i, w) ∷ table) = ground (
    arith,
    eq_iff key other_key,
    eq_iff i key,
    eq_iff i other_key,
    lookup-erase key other_key table,
  )

  pub length-insert :
      (key : String) (v : V) (table : Table V) → length (insert key v table) ≤ length table + 1
  unfolding insert
  length-insert key v [] = omega arith
  length-insert key v ((i, w) ∷ table) = ground (arith, length-insert key v table)

  pub length-erase : (key : String) (table : Table V) → length (erase key table) ≤ length table
  unfolding erase
  length-erase key [] = omega arith
  length-erase key ((i, w) ∷ table) = ground (arith, length-erase key table)

pub ruleset table_laws = (lookup-insert, lookup-erase)

ne_sym : (other_key key : String) → (other_key == key) ≡ false → (key == other_key) ≡ false
ne_sym other_key key h = ground (arith, eq_iff other_key key, eq_iff key other_key)

module _ {ℓ} {V : Type ℓ} where
  absent-insert :
      (other_key key : String) (v : V) (table : Table V)
      → (other_key == key) ≡ false
      → lookup other_key table ≡ none
      → lookup other_key (insert key v table) ≡ none
  absent-insert other_key key v table other fresh =
      rw (lookup-insert, ne_sym other_key key other) fresh

  absent-erase :
      (other_key key : String) (table : Table V)
      → lookup other_key table ≡ none
      → lookup other_key (erase key table) ≡ none
  absent-erase other_key key table fresh = ground (arith, lookup-erase key other_key table)

  absent-erase_if :
      (p : V → Bool) (other_key : String) (table : Table V)
      → lookup other_key table ≡ none
      → lookup other_key (erase_if p table) ≡ none
  unfolding lookup erase_if
  absent-erase_if p other_key [] fresh = fresh
  absent-erase_if p other_key ((i, w) ∷ table) fresh =
      ground (arith, absent-erase_if p other_key table)

-- A value that does not pass the test.
abbrev pub unless {ℓ} : {V : Type ℓ} → (V → Bool) → Option V → Option V
unless p none = none
unless p (some v) = if p v then none else some v

-- Every entry satisfies `P`, and no key stands twice.
abbrev pub IsTable {ℓ κ} : {V : Type ℓ} → (String → V → Type κ) → Table V → Type (ℓ ⊔ κ)
IsTable P [] = Unit
IsTable P ((key, v) ∷ table) = P key v × (lookup key table ≡ none) × IsTable P table

module _ {ℓ κ} {V : Type ℓ} (P : String → V → Type κ) where
  pub lookup-IsTable :
      (key : String) (table : Table V) (v : V)
      → IsTable P table
      → lookup key table ≡ some v
      → P key v
  unfolding lookup
  lookup-IsTable key [] v h e = cc
  lookup-IsTable key ((other_key, w) ∷ table) v (p, fresh, h) e =
      elim (Bool-cases (other_key == key)) [
        | inl same ↦
            subst (λ x. P key x) (ground arith)
              (subst (λ x. P x w) ((eq_iff other_key key).0 same) p)
        | inr other ↦ lookup-IsTable key table v h (ground arith)
      ]

  pub insert-IsTable :
      (key : String) (v : V) (table : Table V)
      → P key v
      → IsTable P table
      → IsTable P (insert key v table)
  unfolding insert lookup
  insert-IsTable key v [] p h = (p, refl, tt)
  insert-IsTable key v ((other_key, w) ∷ table) p (q, fresh, h) =
      elim (Bool-cases (other_key == key)) [
        | inl same ↦
            rw same (p, subst (λ x. lookup x table ≡ none) ((eq_iff other_key key).0 same) fresh, h)
        | inr other ↦
            rw other
              (q, absent-insert other_key key v table other fresh, insert-IsTable key v table p h)
      ]

  pub erase-IsTable :
      (key : String) (table : Table V) → IsTable P table → IsTable P (erase key table)
  unfolding erase
  erase-IsTable key [] h = tt
  erase-IsTable key ((other_key, w) ∷ table) (q, fresh, h) = elim (Bool-cases (other_key == key)) [
    | inl same ↦ rw same (erase-IsTable key table h)
    | inr other ↦ rw other (q, absent-erase other_key key table fresh, erase-IsTable key table h)
  ]

  pub erase_if-IsTable :
      (p : V → Bool) (table : Table V) → IsTable P table → IsTable P (erase_if p table)
  unfolding erase_if
  erase_if-IsTable p [] h = tt
  erase_if-IsTable p ((other_key, w) ∷ table) (q, fresh, h) = elim (Bool-cases (p w)) [
    | inl drop ↦ rw drop (erase_if-IsTable p table h)
    | inr keep ↦ rw keep (q, absent-erase_if p other_key table fresh, erase_if-IsTable p table h)
  ]

  -- What a filter leaves of one key.
  pub lookup-erase_if :
      (p : V → Bool) (other_key : String) (table : Table V)
      → IsTable P table
      → lookup other_key (erase_if p table) ≡ unless p (lookup other_key table)
  unfolding lookup erase_if
  lookup-erase_if p other_key [] h = refl
  lookup-erase_if p other_key ((i, w) ∷ table) (q, fresh, h) = ground (
    arith,
    lookup-erase_if p other_key table h,
    absent-erase_if p i table fresh,
    eq_iff i other_key,
  )
