-- ===== src/Server/Gates.antt =====
-- internal/server/router.go: the guards of each group of routes, in the order of its `Use` lines.
pub mod Admitted
use iskele.Common.{Option, none, some}
use iskele.Service.{Deps}
use iskele.Service.Auth as Auth
use iskele.Server.Rbac.{Permission}
use iskele.Server.Requests.{Strings, Handler}
use iskele.Server.Guards.{
  authenticate, csrf_guard, require_auth, require_permission, require_initialized, limit_general,
  limit_login,
}

-- The groups: `public` has no guard, `credentials` the strict limit, `session` the loose one,
-- `ticketed` the loose one on an installation that is set up, and `signed_in` all of them, with the
-- permission that the route declares, if it declares one.
pub data Gate : Type 0 where
  public credentials session ticketed : Gate
  signed_in : Option Permission → Gate

module _ {A : Type 0} where
  -- r.With(perm()), where the route has it
  unfoldable pub with_permission : Option Permission → Handler A → Handler A
  unfolding require_permission
  with_permission none next = next
  with_permission (some perm) next = require_permission perm next

  -- a handler behind the guards of its group
  unfoldable pub behind : Strings → Deps → Gate → Handler A → Handler A
  unfolding limit_login limit_general require_initialized authenticate require_auth csrf_guard
  behind strings deps public next = next
  behind strings deps credentials next = limit_login next
  behind strings deps session next = limit_general next
  behind strings deps ticketed next = limit_general (require_initialized next)
  behind strings deps (signed_in perm) next = limit_general (
      require_initialized (
        authenticate strings (Auth.authenticate deps)
          (require_auth (csrf_guard strings "" (with_permission perm next)))))
