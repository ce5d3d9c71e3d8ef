-- ===== src/Service/Auth/Credentials.antt =====
-- What `Authenticate` of internal/service/auth.go shows: whom a credential stands for.
use iskele.Common.{
  ℕ, String, ◌≡◌, refl, sym, ap, ◌∙◌, subst, true, false, some, List, [], ◌∷◌, arith, eq_iff, ◌==◌,
  find, Bool-cases, inl, inr, ◌⊎◌,
}
use iskele.Store.{Db, User, ApiToken, token_active}
use iskele.Store.Exec.{Error, ok, World, rename_error}
use iskele.Store.Exec.Rules.{
  Outcome-found, Triple-pure, Triple-raise, Triple-statement, Triple-if, Triple-rename, Triple-bind,
  Triple-clocked, Triple-lifted, Triple-reject, Triple-any,
}
use iskele.Store.Exec.Facts.{Returns, known, alongside, returned}
use iskele.Store.Users as Repo
use iskele.Store.Users.{has_id}
use iskele.Store.Tokens
use iskele.Store.Tokens.{scanned}
use iskele.Auth.{Claims}
use iskele.Auth.Jwt
use iskele.Service.{Deps, Identity}
use iskele.Service.Auth.{authenticate_jwt, authenticate_api_token, authenticate, is_api_token}

-- The account that an identity names, as the database has it.
pub record IsBacked (us : List User) (identity : Identity) : Type 0 where
  pub user : User
  pub account : find (has_id identity.user_id) us ≡ some user
  pub enabled : user.disabled ≡ false
  pub same_name : identity.username ≡ user.username
  pub current_role : identity.role ≡ user.role

-- An access token that parses at this instant names the account.
pub record IsSignedFor (deps : Deps) (now : ℕ) (token : String) (identity : Identity) : Type 0 where
  pub claims : Claims
  pub parsed : Jwt.parse deps.crypto now token ≡ ok claims
  pub subject : identity.user_id ≡ claims.user_id
  pub not_token : identity.token_id ≡ ""

-- An active API token of the database, under the hash of this one, names the account.
pub record IsTokenOf (deps : Deps) (now : ℕ) (db : Db) (token : String) (identity : Identity)
    : Type 0 where
  pub stored : ApiToken
  pub under_hash :
      find (λ t. t.token_hash == deps.os.sha256_hex token) (scanned deps.os db.tokens) ≡ some stored
  pub active : token_active stored now ≡ true
  pub subject : identity.user_id ≡ stored.user_id
  pub same_token : identity.token_id ≡ stored.id
  pub same_scopes : identity.scopes ≡ stored.scopes

abbrev pub IsVouchedFor : Deps → ℕ → Db → String → Identity → Type 0
IsVouchedFor deps now db token identity =
    IsBacked db.users identity
    × (IsSignedFor deps now token identity ⊎ IsTokenOf deps now db token identity)

-- an account found by its id, with that id
find_own_id : (id : String) (l : List User) (u : User) → find (has_id id) l ≡ some u → u.id ≡ id
find_own_id id [] u e = cc
find_own_id id (v ∷ l) u e = elim (Bool-cases (v.id == id)) [
  | inl same ↦ ground (arith, same, e, (eq_iff v.id id).0 same)
  | inr other ↦ find_own_id id l u (ground arith)
]

module _ (now : ℕ) (deps : Deps) (base : Db) where
  abbrev Same : Db → Type 0
  Same db = db ≡ base

  found_by_id :
      (f : Error → Error) (id : String)
      → Returns now Same
          (rename_error f (Repo.by_id id))
          (λ u _. (find (has_id u.id) base.users ≡ some u) × (u.id ≡ id))
  unfolding Repo.by_id
  found_by_id f id = Triple-rename _ _ (
      Triple-statement _
        (λ db p.
          Outcome-found _ _ (find (has_id id) db.users) db (λ _. tt)
            (λ u e. under u (ap (λ d. find (has_id id) d.users) (sym p) ∙ e)))
        (λ db p. tt))
    where
      under :
          (u : User)
          → find (has_id id) base.users ≡ some u
          → (find (has_id u.id) base.users ≡ some u) × (u.id ≡ id)
      under u e =
          let same = find_own_id id base.users u e in
          (subst (λ k. find (has_id k) base.users ≡ some u) (sym same) e, same)

  found_by_hash :
      (f : Error → Error) (hash : String)
      → Returns now Same (rename_error f (Tokens.by_hash deps.os hash)) (λ t db.
        Same db × (find (λ x. x.token_hash == hash) (scanned deps.os base.tokens) ≡ some t))
  unfolding Tokens.by_hash
  found_by_hash f hash = Triple-rename _ _ (
      Triple-statement _
        (λ db p.
          Outcome-found _ _ (find (λ x. x.token_hash == hash) (scanned deps.os db.tokens)) db
            (λ _. tt)
            (λ t e. (
              p,
              ap (λ d. find (λ x. x.token_hash == hash) (scanned deps.os d.tokens)) (sym p) ∙ e,
            )))
        (λ db p. tt))

  jwt-IsVouchedFor :
      (token : String)
      → Returns now Same (authenticate_jwt deps token) (λ i _. IsVouchedFor deps now base token i)
  unfolding authenticate_jwt
  jwt-IsVouchedFor token = Triple-clocked _ (
      Triple-lifted _ _ (λ e _ db p. tt)
        λ claims parsed. Triple-bind _ _ (found_by_id _ claims.user_id) λ u. known _ λ found.
          Triple-reject _ _ _ (λ _ db p. tt)
            λ enabled. Triple-pure _ (λ db p. (
              record {
                user = u;
                account = found.0;
                enabled = enabled;
                same_name = refl;
                current_role = refl;
              },
              inl (record {
                claims = claims;
                parsed = parsed;
                subject = found.1;
                not_token = refl;
              }),
            )))

  api_token-IsVouchedFor :
      (token : String)
      → Returns now Same
          (authenticate_api_token deps token)
          (λ i _. IsVouchedFor deps now base token i)
  unfolding authenticate_api_token
  api_token-IsVouchedFor token =
      Triple-bind _ _ (found_by_hash _ (deps.os.sha256_hex token)) λ stored. Triple-clocked _ (
        Triple-reject _ _ _ (λ _ db p. tt)
          λ active.
            Triple-bind
              {Q = λ u _.
                ((find (has_id u.id) base.users ≡ some u) × (u.id ≡ stored.user_id))
                × (find (λ x. x.token_hash == deps.os.sha256_hex token)
                      (scanned deps.os base.tokens)
                    ≡ some stored)}
              _ _ (alongside _ (found_by_id _ stored.user_id))
              λ u. known _ λ (found, under).
                Triple-reject _ _ _ (λ _ db p. tt)
                  λ enabled. Triple-bind _ _ (Triple-any _) λ _. Triple-pure _ (λ db p. (
                    record {
                      user = u;
                      account = found.0;
                      enabled = enabled;
                      same_name = refl;
                      current_role = refl;
                    },
                    inr (record {
                      stored = stored;
                      under_hash = under;
                      active = ground (arith, active);
                      subject = found.1;
                      same_token = refl;
                      same_scopes = refl;
                    }),
                  )))

  authenticate-IsVouchedFor :
      (credential : String)
      → Returns now Same
          (authenticate deps credential)
          (λ i _. IsVouchedFor deps now base (deps.os.trim_space credential) i)
  unfolding authenticate
  authenticate-IsVouchedFor credential =
      let trimmed = deps.os.trim_space credential in
      Triple-if (trimmed == "") _ _ (λ _. Triple-raise _ (λ db p. tt))
        λ _.
          Triple-if (is_api_token trimmed) _ _ (λ _. api_token-IsVouchedFor trimmed)
            (λ _. jwt-IsVouchedFor trimmed)

-- An identity that a credential resolves to names an account of the database that is not disabled,
-- with the role that the database holds now; and the credential, once trimmed, is an access token
-- that parses for that account, or the text of an active API token of it, whose id and scopes the
-- identity has.
pub authenticate_sound :
    (deps : Deps) (credential : String) (now : ℕ) (w : World) (identity : Identity)
    → (authenticate deps credential now w).0 ≡ ok identity
    → IsVouchedFor deps now w.db (deps.os.trim_space credential) identity
authenticate_sound deps credential now w identity h =
    returned (λ i. IsVouchedFor deps now w.db (deps.os.trim_space credential) i) _ _ identity
      ((authenticate-IsVouchedFor now deps w.db credential).at w refl) h
