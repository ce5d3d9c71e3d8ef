-- ===== src/Store/Sessions.antt =====
-- internal/store/sessions.go: the repository of refresh-token grants.
use iskele.Common.{
  ℕ, String, Bool, ◌&&◌, ◌||◌, List, [], ◌∷◌, ◌++◌, any, find, select, length, not, ◌-◌, ◌==◌,
  if◌then◌else◌,
}
use iskele.Store.{Session, is_zero}
use iskele.Store.Exec.{ok, err, db_failure, conflict, Exec, statement, clock, ◌>>=◌}
use iskele.Store.Users.{has_id, or_not_found}
use iskele.Store.Platform.{Platform}

-- the columns that are PRIMARY KEY or UNIQUE
abbrev pub clashes : Session → Session → Bool
clashes s t = t.id == s.id || t.refresh_hash == s.refresh_hash

-- Create; `user_id` must name an account (a foreign key).
unfoldable pub create : Session → Exec (Unit {0})
create s = do
  now ← clock
  statement λ db.
      if any (clashes s) db.sessions
      then (err conflict, db)
      else if any (has_id s.user_id) db.users
      then (
        ok tt,
        record db {
          sessions =
              db.sessions
              ++ record s { created_at = if is_zero s.created_at then now else s.created_at } ∷ [];
        },
      )
      else (err db_failure, db)

-- ByRefreshHash
abbrev pub has_hash : String → Session → Bool
has_hash hash s = s.refresh_hash == hash

unfoldable pub by_refresh_hash : String → Exec Session
by_refresh_hash hash = statement (λ db. (or_not_found (find (has_hash hash) db.sessions), db))

-- SET revoked_at = now WHERE … AND revoked_at = ''
abbrev pub revoke_where : (Session → Bool) → ℕ → List Session → List Session
revoke_where p now [] = []
revoke_where p now (s ∷ ss) =
    (if p s && is_zero s.revoked_at then record s { revoked_at = now } else s)
    ∷ revoke_where p now ss

-- Revoke
unfoldable pub revoke : String → Exec (Unit {0})
revoke id = do
  now ← clock
  statement λ db. (ok tt, record db { sessions = revoke_where (λ s. s.id == id) now db.sessions })

-- RevokeAllForUser
unfoldable pub revoke_all_for_user : String → Exec (Unit {0})
revoke_all_for_user user_id = do
  now ← clock
  statement λ db.
      (ok tt, record db { sessions = revoke_where (λ s. s.user_id == user_id) now db.sessions })

-- Touch
abbrev pub touch_where : String → ℕ → List Session → List Session
touch_where id at [] = []
touch_where id at (s ∷ ss) =
    (if s.id == id then record s { last_used_at = at } else s) ∷ touch_where id at ss

unfoldable pub touch : String → ℕ → Exec (Unit {0})
touch id at = statement λ db. (ok tt, record db { sessions = touch_where id at db.sessions })

module _ (os : Platform) where
  -- expires_at < ? OR (revoked_at != '' AND revoked_at < ?)
  abbrev pub is_dead : ℕ → Session → Bool
  is_dead cutoff s =
      os.stamp_before s.expires_at cutoff
      || not (is_zero s.revoked_at) && os.stamp_before s.revoked_at cutoff

  -- DeleteExpired
  unfoldable pub delete_expired : ℕ → Exec ℕ
  delete_expired cutoff = statement λ db.
      let kept = select (λ s. not (is_dead cutoff s)) db.sessions in
      (ok (length db.sessions - length kept), record db { sessions = kept })
