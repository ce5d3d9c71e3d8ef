-- ===== src/Server/Guards/Passed.antt =====
-- What is known of a request that a guard let through, when the answer is a handler's.
use iskele.Common.{
  ℕ, String, ◌≡◌, refl, ap, ◌⊎◌, inl, inr, Bool, true, false, not, ◌==◌, arith, Bool-cases,
  if◌then◌else◌,
}
use iskele.Store.{Db}
use iskele.Store.Exec.{Error, Result, ok, err, Exec}
use iskele.Store.Exec.Rules.{Outcome, Keeps, Triple-bind, Triple-statement, Triple-pure}
use iskele.Store.Users as Repo
use iskele.Service.{Identity}
use iskele.Service.Auth as Auth
use iskele.Server.Rbac.{Permission, role_has}
use iskele.Server.RateLimit.{RateLimiter, allow}
use iskele.Server.Requests.{
  Strings, Request, Denial, rejected, failed, refused, Reply, handled, Site, Handler, proceed,
  not_set_up,
}
use iskele.Server.Guards.{
  authenticated, is_safe, bearer_token, origin_allowed, authenticate, csrf_guard, require_auth,
  require_permission, require_initialized, rate_limit, when_done, with_identity,
}

-- The answer of a handler, at a state that has the same database.
pub record Reached {A : Type 0} (next : Handler A) (r : Request) (now : ℕ) (db : Db) (a : A)
    : Type 0 where
  pub site : Site
  pub same_db : site.world.db ≡ db
  pub reply : (next r now site).0 ≡ handled a

-- A refusal is no handler's answer.
if_refused :
    {A : Type 0} (b : Bool) (d : Denial) (s : Site) (other : Reply A × Site) (a : A)
    → (if b then (refused d, s) else other).0 ≡ handled a
    → (b ≡ false) × (other.0 ≡ handled a)
if_refused true d s other a h = cc
if_refused false d s other a h = (refl, h)

-- A service's method that was called returned.
module _ {A B : Type 0} (deny : Error → Denial) (next : B → Handler A) (r : Request) (now : ℕ)
    (s : Site) (a : A) where
  proceed-passed :
      (result : Result B)
      → (proceed deny next result r now s).0 ≡ handled a
      → (b : B) × (result ≡ ok b) × ((next b r now s).0 ≡ handled a)
  proceed-passed (ok b) h = (b, refl, h)
  proceed-passed (err e) h = cc

module _ {A : Type 0} (next : Handler A) (r : Request) (now : ℕ) (s : Site) (a : A) where
  pub require_auth-passed :
      (require_auth next r now s).0 ≡ handled a
      → (authenticated r.identity ≡ true) × ((next r now s).0 ≡ handled a)
  unfolding require_auth
  require_auth-passed h = ground arith

  pub require_permission-passed :
      (perm : Permission)
      → (require_permission perm next r now s).0 ≡ handled a
      → (role_has r.identity.role perm ≡ true) × ((next r now s).0 ≡ handled a)
  unfolding require_permission
  require_permission-passed perm h = ground arith

  pub rate_limit-passed :
      (limiter : Site → RateLimiter) (set : RateLimiter → Site → Site)
      → ((l : RateLimiter) → (set l s).world ≡ s.world)
      → (rate_limit limiter set next r now s).0 ≡ handled a
      → Reached next r now s.world.db a
  rate_limit-passed limiter set same h = record {
    site = set (allow r.client_ip now (limiter s)).0 s;
    same_db = ap (λ w. w.db) (same _);
    reply = (if_refused _ _ _ _ a h).1;
  }

  module _ (strings : Strings) where
    pub csrf_guard-passed :
        (allowed_origin : String)
        → (csrf_guard strings allowed_origin next r now s).0 ≡ handled a
        → (is_safe r.method ≡ false → (origin_allowed strings r r.origin allowed_origin ≡ true))
          × ((next r now s).0 ≡ handled a)
    unfolding csrf_guard
    csrf_guard-passed allowed_origin h = ground arith

    pub authenticate-passed :
        (resolve : String → Exec Identity)
        → (authenticate strings resolve next r now s).0 ≡ handled a
        → ((next r now s).0 ≡ handled a)
          ⊎ ((i : Identity) × ((resolve (bearer_token strings r) now s.world).0 ≡ ok i)
              × ((s' : Site) × ((next (record r { identity = i }) now s').0 ≡ handled a)))
    unfolding authenticate
    authenticate-passed resolve h =
        let called = resolve (bearer_token strings r) now s.world in
        elim (Bool-cases (bearer_token strings r == "")) [
          | inl silent ↦ inl (ground arith)
          | inr spoken ↦ inr (
              let s' = record s { world = called.1 } in
              let (i, resolved, reply) =
                proceed-passed rejected (with_identity next) r now s' a called.0 (ground arith) in
              (i, resolved, (s', reply)))
        ]

initialized-Keeps : (now : ℕ) (db : Db) → Keeps now (λ d. d ≡ db) Auth.initialized
unfolding Auth.initialized Repo.count
initialized-Keeps now db =
    Triple-bind _ _ (Triple-statement _ (λ d p. p) (λ d p. p)) (λ n. Triple-pure _ (λ d p. p))

kept :
    {B : Type 0} (P : Db → Type 0) (result : Result B) (db : Db)
    → Outcome (λ _ d. P d) (λ _ d. P d) result db
    → P db
kept P (ok b) db h = h
kept P (err e) db h = h

-- Behind `require_initialized` the database is the one the request found.
pub require_initialized-passed :
    {A : Type 0} (next : Handler A) (r : Request) (now : ℕ) (s : Site) (a : A)
    → (require_initialized next r now s).0 ≡ handled a
    → Reached next r now s.world.db a
unfolding require_initialized
require_initialized-passed next r now s a h =
    let m = Auth.initialized now s.world in
    let s' = record s { world = m.1 } in
    let (done, counted, reply) = proceed-passed failed (when_done next) r now s' a m.0 h in
    record {
      site = s';
      same_db =
          kept (λ d. d ≡ s.world.db) m.0 m.1.db
            ((initialized-Keeps now s.world.db).at s.world refl);
      reply = (if_refused (not done) not_set_up s' (next r now s') a reply).1;
    }
