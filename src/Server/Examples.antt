-- ===== src/Server/Examples.antt =====
-- The guards, the limiter and the routes on concrete requests.
use iskele.Common.{
  ◌+◌, ◌*◌, ◌≤◌, String, ◌≡◌, refl, true, false, ◌||◌, ◌&&◌, none, some, [], ◌∷◌, any, All, arith,
  ◌==◌, lookup, insert, if◌then◌else◌,
}
use iskele.Samples.{sample_deps, sample_world}
use iskele.Store.{viewer, valid_role}
use iskele.Store.Exec.{pure, statement, clock, lift, ignore, raise, rename_error, reject_if, ◌>>=◌}
use iskele.Store.Users as Repo
use iskele.Auth.Jwt
use iskele.Auth.Limiter.{round_second}
use iskele.Service.Auth as Auth
use iskele.Server.Rbac.{administer, role_has}
use iskele.Server.RateLimit.{
  RateLimiter, token, new_rate_limiter, bucket_at, refill, spend, wait_for, allow, cleanup,
}
use iskele.Server.RateLimit.Bound.{granted, granted-le}
use iskele.Server.RateLimit.Wait.{allow_all, allow-waited}
use iskele.Server.RateLimit.Cleanup.{verdict, allow-cleanup}
use iskele.Server.Requests.{Strings, Request, Site, Handler, post, handled}
use iskele.Server.Guards.{
  no_identity, authenticated, is_safe, bearer_token, origin_allowed, authenticate, csrf_guard,
  require_auth, require_permission, require_initialized, limit_general,
}
use iskele.Server.Gates.{with_permission, behind}
use iskele.Server.Gates.Admitted.{IsAdmitted, behind_admits}
use iskele.Server.Routes.{Mounted, routes}
use iskele.Server.Routes.Authorized.{admits, viewer_writes, routes-viewer_writes}

-- five requests a minute, five at once
abbrev login_limiter : RateLimiter
unfolding new_rate_limiter
login_limiter = new_rate_limiter 5 5

-- one request a minute, one at once
abbrev slow : RateLimiter
unfolding new_rate_limiter
slow = new_rate_limiter 1 1

granted-le_example :
    token * granted "a" (("a", 10) ∷ ("b", 20) ∷ ("a", 30) ∷ []) slow ≤ slow.burst + 90 * slow.rate
unfolding slow
granted-le_example =
    granted-le "a" (("a", 10) ∷ ("b", 20) ∷ ("a", 30) ∷ []) 10 100 slow tt
      (omega arith, (omega arith, (omega arith, omega arith)))

-- the limiter after its one request
abbrev spent : RateLimiter
unfolding allow
spent = (allow "a" 0 slow).0

allow-waited_example :
    (allow "a" 70_000_000_000 (allow_all (("b", 3) ∷ []) (allow "a" 2 spent).0)).1 ≡ true
unfolding allow lookup insert bucket_at refill spend wait_for round_second new_rate_limiter
allow-waited_example =
    allow-waited "a" 2 70_000_000_000 (("b", 3) ∷ []) spent (omega arith) (omega arith) refl
      (refl, tt) (omega arith)

allow-cleanup_example :
    verdict "a" 200_000_000_000 (cleanup 60_000_000_000 100_000_000_000 spent).0
    ≡ verdict "a" 200_000_000_000 spent
unfolding allow lookup insert bucket_at refill spend wait_for round_second new_rate_limiter
allow-cleanup_example =
    allow-cleanup "a" 60_000_000_000 100_000_000_000 200_000_000_000 spent (omega arith, refl, tt)
      (omega arith) (omega arith)

abbrev sample_strings : Strings
sample_strings = record {
  equal_fold = λ s t. s == t || (s == "Bearer" && t == "bearer");
  trim_space = λ s. s;
  cut = λ s sep.
      if s == "Bearer u1"
      then some ("Bearer", "u1")
      else if s == "https://panel"
      then some ("https", "panel")
      else none;
}

-- ada's request to add an account
abbrev adding : Request
adding = record {
  method = post;
  authorization = "Bearer u1";
  origin = "https://panel";
  host = "panel";
  client_ip = "10.0.0.1";
  identity = no_identity;
}

abbrev sample_site : Site
sample_site = record { world = sample_world; general = login_limiter; login = slow }

abbrev reply_name : Handler String
reply_name r now s = (handled r.identity.username, s)

behind_admits_example :
    IsAdmitted sample_strings sample_deps (some administer) reply_name adding 100 sample_site "ada"
unfolding behind limit_general allow lookup insert bucket_at refill spend wait_for
    require_initialized Auth.initialized Repo.count authenticate bearer_token require_auth
    authenticated csrf_guard is_safe origin_allowed with_permission require_permission role_has
    new_rate_limiter Auth.authenticate ◌>>=◌ reject_if pure rename_error statement clock lift ignore
    raise Jwt.parse valid_role Repo.by_id
behind_admits_example =
    behind_admits sample_strings sample_deps (some administer) reply_name adding 100 sample_site
      "ada" refl refl

abbrev everything : Mounted
everything = record {
  auth = true;
  users = true;
  audits = true;
  settings = true;
  registries = true;
  builds = true;
  stacks = true;
  catalog = true;
}

routes-viewer_writes_example :
    All
      (λ r.
        is_safe r.method ≡ false
        → admits viewer r.gate ≡ true
        → any (λ path. path == r.path) viewer_writes ≡ true)
      (routes everything)
routes-viewer_writes_example = routes-viewer_writes everything
