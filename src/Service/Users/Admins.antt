-- ===== src/Service/Users/Admins.antt =====
-- Facts about the rows of `users` that the administration of internal/service/users.go rests on.
use iskele.Common.{
  String, ◌≡◌, refl, sym, ap, ◌∙◌, subst, Bool, true, false, not, ◌&&◌, some, List, [], ◌∷◌, ◌++◌,
  arith, any, find, select, ◌==◌, eq_iff, if◌then◌else◌, Bool-cases, inl, inr,
}
use iskele.Store.{User, is_admin}
use iskele.Store.Users.{has_id, update_where}
use iskele.Service.Users.{is_other_admin, bool_eq}

abbrev pub is_enabled_admin : User → Bool
is_enabled_admin u = is_admin u.role && not u.disabled

-- No id stands twice.
abbrev pub Distinct : List User → Type 0
Distinct [] = Unit
Distinct (u ∷ us) = (any (has_id u.id) us ≡ false) × Distinct us

-- A row under the id of `u` that differs from it in rank or in being disabled.
abbrev pub disagrees : User → User → Bool
disagrees u v =
    (v.id == u.id)
    && not (bool_eq (is_admin v.role) (is_admin u.role) && bool_eq v.disabled u.disabled)

absent-disagrees :
    (u : User) (us : List User) → any (has_id u.id) us ≡ false → any (disagrees u) us ≡ false
absent-disagrees u [] h = refl
absent-disagrees u (v ∷ us) h = ground (arith, absent-disagrees u us)

pub find_id : (id : String) (u : User) (us : List User) → find (has_id id) us ≡ some u → u.id ≡ id
find_id id u [] h = cc
find_id id u (v ∷ us) h = ground (arith, find_id id u us, eq_iff v.id id)

-- The row that a lookup gives is the only one under its id.
pub find-agrees :
    (id : String) (u : User) (us : List User)
    → Distinct us
    → find (has_id id) us ≡ some u
    → any (disagrees u) us ≡ false
find-agrees id u [] d h = cc
find-agrees id u (v ∷ us) (fresh, d) h = elim (Bool-cases (has_id id v)) [
  | inl same ↦
      let e : v ≡ u = ground arith in
      subst (λ x. any (disagrees x) (v ∷ us) ≡ false) e
        (ground (arith, absent-disagrees v us fresh))
  | inr other ↦
      ground (arith, find-agrees id u us d, find_id id u us, eq_iff v.id u.id, eq_iff v.id id)
]

-- When the account itself is no enabled admin, an enabled admin is another one.
pub other_of_any :
    (u : User) (us : List User)
    → any (disagrees u) us ≡ false
    → is_enabled_admin u ≡ false
    → any is_enabled_admin us ≡ true
    → any (is_other_admin u.id) us ≡ true
other_of_any u [] m e h = cc
other_of_any u (v ∷ us) m e h = ground (arith, other_of_any u us)

pub any-other :
    (id : String) (us : List User)
    → any (is_other_admin id) us ≡ true
    → any is_enabled_admin us ≡ true
any-other id [] h = cc
any-other id (v ∷ us) h = ground (arith, any-other id us)

-- Another enabled admin is left by any change of the row.
pub other-update :
    (id : String) (f : User → User) (us : List User)
    → any (is_other_admin id) us ≡ true
    → any is_enabled_admin (update_where id f us) ≡ true
other-update id f [] h = cc
other-update id f (v ∷ us) h = ground (arith, other-update id f us)

pub other-select :
    (id : String) (us : List User)
    → any (is_other_admin id) us ≡ true
    → any is_enabled_admin (select (λ u. not (u.id == id)) us) ≡ true
other-select id [] h = cc
other-select id (v ∷ us) h = ground (arith, other-select id us)

-- A change that keeps each enabled admin one keeps the installation administered.
pub any-update :
    (id : String) (f : User → User)
    → ((u : User) → is_enabled_admin u ≡ true → is_enabled_admin (f u) ≡ true)
    → (us : List User) → any is_enabled_admin us ≡ true
    → any is_enabled_admin (update_where id f us) ≡ true
any-update id f keep [] h = h
any-update id f keep (v ∷ us) h = ground (arith, keep v, any-update id f keep us)

pub agrees-update :
    (u u' : User) (f : User → User)
    → u'.id ≡ u.id
    → ((v : User) → (f v).id ≡ v.id)
    → ((v : User) → disagrees u v ≡ false → disagrees u' (f v) ≡ false)
    → (us : List User) → any (disagrees u) us ≡ false
    → any (disagrees u') (update_where u.id f us) ≡ false
agrees-update u u' f e keep_id agree [] h = refl
agrees-update u u' f e keep_id agree (v ∷ us) h = elim (Bool-cases (v.id == u.id)) [
  | inl same ↦ rw same (ground (arith, agree v, agrees-update u u' f e keep_id agree us))
  | inr other ↦
      rw other (ground (arith, ap (λ i. v.id == i) e, agrees-update u u' f e keep_id agree us))
]

has_id-update :
    (k id : String) (f : User → User)
    → ((v : User) → (f v).id ≡ v.id)
    → (us : List User) → any (has_id k) (update_where id f us) ≡ any (has_id k) us
has_id-update k id f keep [] = refl
has_id-update k id f keep (v ∷ us) =
    ground (arith, ap (λ i. i == k) (keep v), has_id-update k id f keep us)

pub Distinct-update :
    (id : String) (f : User → User)
    → ((v : User) → (f v).id ≡ v.id)
    → (us : List User) → Distinct us
    → Distinct (update_where id f us)
Distinct-update id f keep [] d = tt
Distinct-update id f keep (v ∷ us) (fresh, d) =
    let e : (if v.id == id then f v else v).id ≡ v.id = ground (arith, keep v) in
    (
      subst (λ k. any (has_id k) (update_where id f us) ≡ false) (sym e)
          (has_id-update v.id id f keep us ∙ fresh),
      Distinct-update id f keep us d,
    )

has_id-select :
    (k : String) (p : User → Bool) (us : List User)
    → any (has_id k) us ≡ false
    → any (has_id k) (select p us) ≡ false
has_id-select k p [] h = refl
has_id-select k p (v ∷ us) h = ground (arith, has_id-select k p us)

pub Distinct-select : (p : User → Bool) (us : List User) → Distinct us → Distinct (select p us)
Distinct-select p [] d = tt
Distinct-select p (v ∷ us) (fresh, d) = elim (Bool-cases (p v)) [
  | inl kept ↦ rw kept (has_id-select v.id p us fresh, Distinct-select p us d)
  | inr gone ↦ rw gone (Distinct-select p us d)
]

has_id-append :
    (k : String) (v : User) (us : List User)
    → any (has_id k) us ≡ false
    → (v.id == k) ≡ false
    → any (has_id k) (us ++ v ∷ []) ≡ false
has_id-append k v [] h e = ground arith
has_id-append k v (u ∷ us) h e = ground (arith, has_id-append k v us)

pub Distinct-append :
    (us : List User) (v : User)
    → any (has_id v.id) us ≡ false
    → Distinct us
    → Distinct (us ++ v ∷ [])
Distinct-append [] v h d = (refl, tt)
Distinct-append (u ∷ us) v h (fresh, d) = (
  has_id-append u.id v us fresh (ground (arith, eq_iff v.id u.id, eq_iff u.id v.id)),
  Distinct-append us v (ground arith) d,
)
