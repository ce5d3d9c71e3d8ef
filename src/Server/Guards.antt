-- ===== src/Server/Guards.antt =====
-- internal/server/middleware/{auth,require,csrf,ratelimit}.go and internal/server/router.go: the
-- guards that stand in front of a handler. `deny` writes a refusal, and the handler does not run.
pub mod Passed
use iskele.Common.{
  ℕ, String, Bool, true, false, not, ◌&&◌, Option, none, some, [], ◌==◌, if◌then◌else◌,
}
use iskele.Store.{other}
use iskele.Store.Exec.{Error, token_expired, token_invalid, account_disabled, session_invalid, Exec}
use iskele.Service.{Identity, Deps}
use iskele.Service.Auth as Auth
use iskele.Server.Rbac.{Permission, role_has}
use iskele.Server.RateLimit.{RateLimiter, allow}
use iskele.Server.Requests.{
  Strings, Method, get, head, options, post, put, patch, delete, Request, Denial, unauthenticated,
  csrf_no_bearer, not_set_up, rejected, failed, forbidden, csrf_origin, rate_limited, Reply,
  handled, refused, Site, Handler, call,
}

-- IdentityFrom, of a context that carries none
abbrev pub no_identity : Identity
no_identity = record { user_id = ""; username = ""; role = other ""; token_id = ""; scopes = [] }

-- Identity.Authenticated
unfoldable pub authenticated : Identity → Bool
authenticated i = not (i.user_id == "")

-- safeMethods
unfoldable pub is_safe : Method → Bool
is_safe get = true
is_safe head = true
is_safe options = true
is_safe _ = false

-- WithIdentity
abbrev pub with_identity : {A : Type 0} → Handler A → Identity → Handler A
with_identity next identity r = next (record r { identity = identity })

module _ (strings : Strings) where
  -- BearerToken
  unfoldable pub bearer_token : Request → String
  bearer_token r = if r.authorization == "" then "" else elim (strings.cut r.authorization " ") [
    | none ↦ ""
    | some (scheme, value) ↦
        if strings.equal_fold scheme "bearer" then strings.trim_space value else ""
  ]

  -- the origin without its scheme
  abbrev pub origin_host : String → String
  origin_host origin = elim (strings.cut origin "://") [
    | none ↦ origin
    | some (scheme, host) ↦ host
  ]

  -- OriginAllowed
  unfoldable pub origin_allowed : Request → String → String → Bool
  origin_allowed r origin allowed_origin =
      if origin == ""
      then true
      else if not (allowed_origin == "") && strings.equal_fold origin allowed_origin
      then true
      else if r.host == ""
      then false
      else strings.equal_fold (origin_host origin) r.host

  module _ {A : Type 0} where
    -- Authenticate
    unfoldable pub authenticate : (String → Exec Identity) → Handler A → Handler A
    unfolding bearer_token
    authenticate resolve next r now s =
        if bearer_token r == ""
        then next r now s
        else call rejected (with_identity next) (resolve (bearer_token r)) r now s

    -- CSRFGuard
    unfoldable pub csrf_guard : String → Handler A → Handler A
    unfolding is_safe origin_allowed bearer_token
    csrf_guard allowed_origin next r now s =
        if is_safe r.method
        then next r now s
        else if not (r.origin == "") && not (origin_allowed r r.origin allowed_origin)
        then (refused (csrf_origin r.origin), s)
        else if bearer_token r == ""
        then (refused csrf_no_bearer, s)
        else next r now s

module _ {A : Type 0} where
  -- RequireAuth
  unfoldable pub require_auth : Handler A → Handler A
  unfolding authenticated
  require_auth next r now s =
      if not (authenticated r.identity) then (refused unauthenticated, s) else next r now s

  -- RequirePermission
  unfoldable pub require_permission : Permission → Handler A → Handler A
  unfolding authenticated role_has
  require_permission perm next r now s =
      if not (authenticated r.identity)
      then (refused unauthenticated, s)
      else if not (role_has r.identity.role perm)
      then (refused (forbidden r.identity.role perm), s)
      else next r now s

  abbrev pub when_done : Handler A → Bool → Handler A
  when_done next done r now s = if not done then (refused not_set_up, s) else next r now s

  -- requireInitialized
  unfoldable pub require_initialized : Handler A → Handler A
  require_initialized next = call failed (when_done next) Auth.initialized

  -- RateLimit, of the limiter that two functions read and write
  abbrev pub rate_limit : (Site → RateLimiter) → (RateLimiter → Site → Site) → Handler A → Handler A
  rate_limit limiter set next r now s =
      let (l, allowed, retry) = allow r.client_ip now (limiter s) in
      if not allowed then (refused (rate_limited retry), set l s) else next r now (set l s)

  unfoldable pub limit_general : Handler A → Handler A
  unfolding allow
  limit_general = rate_limit (λ s. s.general) (λ l s. record s { general = l })

  unfoldable pub limit_login : Handler A → Handler A
  unfolding allow
  limit_login = rate_limit (λ s. s.login) (λ l s. record s { login = l })
