-- ===== src/Service/Audit.antt =====
-- internal/audit/audit.go: the recorder. The detail of an event is left out, and with it the
-- masking of its values.
use iskele.Common.{ℕ, String, Bool, [], ◌∷◌, ◌++◌, if◌then◌else◌}
use iskele.Store.{AuditEntry}
use iskele.Store.Exec.{ok, Exec, pure, statement, clock, ignore, ◌>>=◌}
use iskele.Service.{Deps, RequestMeta}

-- audit.Event, with the fields of its actor in place; `failed` is whether `Err` is set
pub record Event : Type 0 where
  pub user_id : String
  pub username : String
  pub action : String
  pub resource_type : String
  pub resource_id : String
  pub failed : Bool

unfoldable pub entry_of : RequestMeta → Event → ℕ → AuditEntry
entry_of meta e now = record {
  user_id = e.user_id;
  username = e.username;
  action = e.action;
  resource_type = e.resource_type;
  resource_id = e.resource_id;
  failed = e.failed;
  ip = meta.ip;
  user_agent = meta.user_agent;
  created_at = now;
}

-- AuditRepo.Append
unfoldable pub append : AuditEntry → Exec (Unit {0})
append entry = statement λ db. (ok tt, record db { audit_logs = db.audit_logs ++ entry ∷ [] })

-- Record never fails a request.
unfoldable pub record_event : Deps → RequestMeta → Event → Exec (Unit {0})
unfolding entry_of append
record_event deps meta e =
    if deps.has_recorder then ignore (do now ← clock; append (entry_of meta e now)) else pure tt
