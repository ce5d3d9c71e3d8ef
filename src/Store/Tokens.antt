-- ===== src/Store/Tokens.antt =====
-- internal/store/tokens.go: the repository of API tokens.
use iskele.Common.{ℕ, String, Bool, ◌&&◌, ◌||◌, List, [], ◌∷◌, ◌++◌, any, find, ◌==◌, if◌then◌else◌}
use iskele.Store.{ApiToken, TokenRow, is_zero}
use iskele.Store.Exec.{ok, err, db_failure, not_found, conflict, Exec, statement, clock, ◌>>=◌}
use iskele.Store.Users.{has_id, or_not_found}
use iskele.Store.Platform.{Platform}

-- the columns that are PRIMARY KEY or UNIQUE
abbrev pub clashes : ApiToken → TokenRow → Bool
clashes t r = r.token.id == t.id || r.token.prefix == t.prefix || r.token.token_hash == t.token_hash

-- SET revoked_at = now WHERE id = ? AND revoked_at = ''
abbrev pub is_live : String → TokenRow → Bool
is_live id r = r.token.id == id && is_zero r.token.revoked_at

abbrev pub update_where : (TokenRow → Bool) → (ApiToken → ApiToken) → List TokenRow → List TokenRow
update_where p f [] = []
update_where p f (r ∷ rs) =
    (if p r then record r { token = f r.token } else r) ∷ update_where p f rs

-- Revoke
unfoldable pub revoke : String → Exec (Unit {0})
revoke id = do
  now ← clock
  statement λ db.
      if any (is_live id) db.tokens
      then (
        ok tt,
        record db {
          tokens = update_where (is_live id) (λ t. record t { revoked_at = now }) db.tokens;
        },
      )
      else (err not_found, db)

-- Touch
unfoldable pub touch : String → ℕ → Exec (Unit {0})
touch id at = statement λ db. (
  ok tt,
  record db {
    tokens = update_where (λ r. r.token.id == id) (λ t. record t { last_used_at = at }) db.tokens;
  },
)

module _ (os : Platform) where
  abbrev pub trimmed : List String → List String
  trimmed [] = []
  trimmed (p ∷ ps) =
      let rest = trimmed ps in if os.trim_space p == "" then rest else os.trim_space p ∷ rest

  -- splitScopes
  unfoldable pub split_scopes : String → List String
  split_scopes s = if os.trim_space s == "" then [] else trimmed (os.split_comma s)

  -- scanToken
  unfoldable pub scan_token : TokenRow → ApiToken
  unfolding split_scopes
  scan_token r = record r.token { scopes = split_scopes r.scopes }

  -- Create
  unfoldable pub create : ApiToken → Exec (Unit {0})
  create t = do
    now ← clock
    let t' = record t { created_at = if is_zero t.created_at then now else t.created_at }
    statement λ db.
        if any (clashes t) db.tokens
        then (err conflict, db)
        else if any (has_id t.user_id) db.users
        then (
          ok tt,
          record db {
            tokens = db.tokens ++ record { token = t'; scopes = os.join_comma t.scopes } ∷ [];
          },
        )
        else (err db_failure, db)

  abbrev pub scanned : List TokenRow → List ApiToken
  scanned [] = []
  scanned (r ∷ rs) = scan_token r ∷ scanned rs

  -- ByHash
  unfoldable pub by_hash : String → Exec ApiToken
  unfolding scan_token
  by_hash hash =
      statement λ db. (or_not_found (find (λ t. t.token_hash == hash) (scanned db.tokens)), db)

  -- ByID
  unfoldable pub by_id : String → Exec ApiToken
  unfolding scan_token
  by_id id = statement λ db. (or_not_found (find (λ t. t.id == id) (scanned db.tokens)), db)
