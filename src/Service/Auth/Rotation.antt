-- ===== src/Service/Auth/Rotation.antt =====
-- Refresh of internal/service/auth.go kills the token that it exchanges.
use iskele.Common.{
  ℕ, String, ◌≡◌, ◌≢◌, refl, ◌⊎◌, inl, inr, Bool, false, ◌&&◌, Option, some, List, [], ◌∷◌, ◌++◌,
  arith, any, find, ◌==◌, eq_refl, if◌then◌else◌,
}
use iskele.Store.{AuditEntry, Db, User, Session, is_zero, session_active}
use iskele.Store.Exec.{
  Result, ok, err, db_failure, conflict, session_invalid, World, pure, ◌>>=◌, ◌>>◌,
}
use iskele.Store.Exec.Rules.{
  Outcome, Outcome-if, Outcome-found, Triple-any, Triple-absurd, Triple, Triple-pure,
  Triple-statement, Triple-if, Triple-weaken, Triple-rename, Triple-bind, Triple-ignore,
  Triple-clocked, Triple-drawn, Triple-lifted, Triple-reject, Triple-choose, Triple-gate, Keeps,
}
use iskele.Store.Users as Repo
use iskele.Store.Users.{has_id, or_not_found}
use iskele.Store.Sessions
use iskele.Store.Sessions.{has_hash, revoke_where, clashes}
use iskele.Auth.Jwt
use iskele.Service.{Deps, RequestMeta}
use iskele.Service.Audit.{Event, record_event}
use iskele.Service.Auth.{TokenPair, issue_pair, refresh, not_found_as}

-- The session that a lookup by this hash gives has been revoked.
abbrev pub IsDead : String → List Session → Type 0
IsDead hash ss = (s : Session) × (find (has_hash hash) ss ≡ some s) × (is_zero s.revoked_at ≡ false)

abbrev revoked : (Session → Bool) → ℕ → Session → Session
revoked p now s = if p s && is_zero s.revoked_at then record s { revoked_at = now } else s

find-revoke :
    (hash : String) (p : Session → Bool) (now : ℕ) (ss : List Session) (s : Session)
    → find (has_hash hash) ss ≡ some s
    → find (has_hash hash) (revoke_where p now ss) ≡ some (revoked p now s)
find-revoke hash p now [] s h = cc
find-revoke hash p now (t ∷ ss) s h = ground (arith, find-revoke hash p now ss s)

revoked-IsDead :
    (hash : String) (now : ℕ) (ss : List Session) (s : Session)
    → now ≢ 0
    → find (has_hash hash) ss ≡ some s
    → IsDead hash (revoke_where (λ t. t.id == s.id) now ss)
revoked-IsDead hash now ss s ne h = (
  revoked (λ t. t.id == s.id) now s,
  find-revoke hash (λ t. t.id == s.id) now ss s h,
  ground (arith, eq_refl s.id),
)

find-append :
    (hash : String) (t s : Session) (ss : List Session)
    → find (has_hash hash) ss ≡ some s
    → find (has_hash hash) (ss ++ t ∷ []) ≡ some s
find-append hash t s [] h = cc
find-append hash t s (u ∷ ss) h = ground (arith, find-append hash t s ss)

module _ (now : ℕ) (deps : Deps) where
  event-Keeps :
      (P : Db → Type 0) (meta : RequestMeta) (e : Event)
      → ((db : Db) (l : List AuditEntry) → P db → P (record db { audit_logs = l }))
      → Keeps now P (record_event deps meta e)
  unfolding record_event
  event-Keeps P meta e stable =
      Triple-if deps.has_recorder _ _
        (λ _.
          Triple-ignore _
            (Triple-clocked _ (Triple-statement _ (λ db p. stable db _ p) (λ db p. p))))
        (λ _. Triple-pure tt (λ db p. p))

  create-IsDead :
      (hash : String) (t : Session) → Keeps now (λ db. IsDead hash db.sessions) (Sessions.create t)
  unfolding Sessions.create
  create-IsDead hash t = Triple-clocked _ (
      Triple-choose (λ db. any (clashes t) db.sessions) (λ db. (err conflict, db)) _ (λ db p _. p)
        (λ db p _.
          Outcome-if _ _ (any (has_id t.user_id) db.users) _ (err db_failure, db)
            (λ _. (p.0, find-append hash _ p.0 db.sessions p.1, p.2)) (λ _. p))
        (λ db p. p))

  pair-IsDead :
      (hash : String) (u : User) (meta : RequestMeta)
      → Keeps now (λ db. IsDead hash db.sessions) (issue_pair deps u meta)
  unfolding issue_pair Jwt.issue
  pair-IsDead hash u meta =
      Triple-bind _ _
        (Triple-clocked _ (
          Triple-drawn _ (λ db p. p)
            λ jti. Triple-lifted _ _ (λ e h db p. p) λ signed _. Triple-pure _ (λ db p. p)))
        λ signed.
          Triple-drawn _ (λ db p. p)
            λ refresh_token.
              Triple-drawn _ (λ db p. p)
                λ session_id.
                  Triple-clocked _
                    (Triple-bind _ _ (create-IsDead hash _) (λ _. Triple-pure _ (λ db p. p)))

  -- what a refresh of a live session leaves
  exchange-IsDead :
      (hash : String) (s : Session) (u : User) (meta : RequestMeta) (e : Event)
      → now ≢ 0
      → Triple now
          (λ db. find (has_hash hash) db.sessions ≡ some s)
          (do
            Sessions.revoke s.id
            pair ← issue_pair deps u meta
            record_event deps meta e
            pure pair)
          (λ _ db. IsDead hash db.sessions)
          (λ _ _. Unit)
  unfolding Sessions.revoke
  exchange-IsDead hash s u meta e ne =
      Triple-bind {Q = λ _ db. IsDead hash db.sessions} _ _
        (Triple-clocked _
          (Triple-statement _ (λ db p. revoked-IsDead hash now db.sessions s ne p) (λ db p. tt)))
        λ _.
          Triple-bind _ _
            (Triple-weaken _ (λ db p. p) (λ _ db p. p) (λ _ db p. tt) (pair-IsDead hash u meta))
            λ pair.
              Triple-bind _ _
                (Triple-weaken _ (λ db p. p) (λ _ db p. p) (λ _ db p. tt)
                  (event-Keeps (λ db. IsDead hash db.sessions) meta e (λ db l p. p)))
                λ _. Triple-pure _ (λ db p. p)

  refresh-IsDead :
      (token : String) (meta : RequestMeta)
      → now ≢ 0
      → Triple now
          (λ _. Unit)
          (refresh deps token meta)
          (λ _ db. IsDead (deps.os.sha256_hex (deps.os.trim_space token)) db.sessions)
          (λ _ _. Unit)
  unfolding refresh Sessions.by_refresh_hash Repo.by_id
  refresh-IsDead token meta ne =
      let hash = deps.os.sha256_hex (deps.os.trim_space token) in
      Triple-reject _ _ _ (λ _ db p. tt)
        λ _.
          Triple-bind {Q = λ s db. find (has_hash hash) db.sessions ≡ some s} _ _
            (Triple-rename _ _ (
              Triple-statement _
                (λ db p.
                  Outcome-found _ _ (find (has_hash hash) db.sessions) db (λ _. tt) (λ s e. e))
                (λ db p. tt)))
            λ s. Triple-clocked _ (
              Triple-reject _ _ _ (λ _ db p. tt)
                λ _.
                  Triple-bind {Q = λ _ db. find (has_hash hash) db.sessions ≡ some s} _ _
                    (Triple-rename _ _ (
                      Triple-statement _
                        (λ db p.
                          Outcome-found _ _ (find (has_id s.user_id) db.users) db (λ _. tt)
                            (λ u _. p))
                        (λ db p. tt)))
                    λ u.
                      Triple-gate u.disabled _ _ _ (λ _. Triple-any _)
                        (λ _. exchange-IsDead hash s u meta _ ne))

  refused :
      (token : String) (meta : RequestMeta)
      → Triple now
          (λ db. IsDead (deps.os.sha256_hex (deps.os.trim_space token)) db.sessions)
          (refresh deps token meta)
          (λ _ _. ⊥)
          (λ e _. (e ≡ session_invalid) ⊎ (e ≡ db_failure))
  unfolding refresh Sessions.by_refresh_hash not_found_as session_active
  refused token meta =
      let hash = deps.os.sha256_hex (deps.os.trim_space token) in
      Triple-reject _ _ _ (λ _ db p. inl refl)
        λ _.
          Triple-bind {Q = λ s _. is_zero s.revoked_at ≡ false} _ _
            (Triple-rename _ _ (
              Triple-statement _
                (λ db p.
                  Outcome-found _ _ (find (has_hash hash) db.sessions) db (λ _. inl refl)
                    (λ s e. ground (arith, p)))
                (λ db p. inr refl)))
            λ s. Triple-clocked _ (
              Triple-reject _ _ _ (λ _ db p. inl refl)
                (λ live. Triple-absurd _ (λ db p. ground arith)))

-- the result of a method whose every return is impossible and whose errors are these two
refused_result :
    {A : Type 0} (r : Result A) (db : Db)
    → Outcome (λ _ _. ⊥) (λ e _. (e ≡ session_invalid) ⊎ (e ≡ db_failure)) r db
    → (r ≡ err session_invalid) ⊎ (r ≡ err db_failure)
refused_result (ok a) db h = absurd h
refused_result (err e) db h = ground arith

-- A refresh token works once: on the database that a refresh that returned has left, the same token is
-- refused, at any instant and whatever statements fail then, as an invalid session or because the
-- database fails. The clock does not show Go's zero time at the first refresh.
pub refresh_once :
    (deps : Deps) (token : String) (meta meta' : RequestMeta) (now later : ℕ) (w : World)
    (faults : List Bool) (entropy : List (Option String)) (pair : TokenPair)
    → now ≢ 0
    → (refresh deps token meta now w).0 ≡ ok pair
    → let w' : World = record {
      db = (refresh deps token meta now w).1.db;
      faults = faults;
      entropy = entropy;
    } in
      let r = (refresh deps token meta' later w').0 in
      (r ≡ err session_invalid) ⊎ (r ≡ err db_failure)
refresh_once deps token meta meta' now later w faults entropy pair ne h = refused_result _ _ (
    (refused later deps token meta').at _
      (dead _ _ h ((refresh-IsDead now deps token meta ne).at w tt)))
  where
    dead :
        (r : Result TokenPair) (db : Db)
        → r ≡ ok pair
        → Outcome
            (λ _ d. IsDead (deps.os.sha256_hex (deps.os.trim_space token)) d.sessions)
            (λ _ _. Unit {0})
            r
            db
        → IsDead (deps.os.sha256_hex (deps.os.trim_space token)) db.sessions
    dead (ok p) db e d = d
    dead (err x) db e d = cc
