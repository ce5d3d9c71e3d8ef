-- ===== src/Server/Gates/Admitted.antt =====
-- Whose requests reach a handler behind the guards of internal/server/router.go.
use iskele.Common.{ℕ, ◌≡◌, refl, ◌∙◌, subst, inl, inr, true, false, Option, none, some, eq_iff}
use iskele.Service.{Identity, Deps}
use iskele.Service.Auth as Auth
use iskele.Service.Auth.Credentials.{IsVouchedFor, authenticate_sound}
use iskele.Server.Rbac.{Permission, role_has}
use iskele.Server.Requests.{Strings, Request, Site, Handler, handled}
use iskele.Server.Guards.{
  authenticated, is_safe, bearer_token, origin_allowed, authenticate, csrf_guard, require_auth,
  require_initialized, limit_general,
}
use iskele.Server.Guards.Passed.{
  require_auth-passed, require_permission-passed, rate_limit-passed, csrf_guard-passed,
  authenticate-passed, require_initialized-passed,
}
use iskele.Server.Gates.{signed_in, with_permission, behind}

-- The permission that a route declares, if it declares one, is one of the role's.
abbrev pub IsPermitted : Identity → Option Permission → Type 0
IsPermitted i none = Unit
IsPermitted i (some perm) = role_has i.role perm ≡ true

-- A handler answers the request of a caller who may make it.
pub record IsAdmitted {A : Type 0} (strings : Strings) (deps : Deps) (perm : Option Permission)
    (next : Handler A) (r : Request) (now : ℕ) (s : Site) (a : A) : Type 0 where
  pub identity : Identity
  pub vouched :
      IsVouchedFor deps now s.world.db (deps.os.trim_space (bearer_token strings r)) identity
  pub permitted : IsPermitted identity perm
  pub same_origin : is_safe r.method ≡ false → origin_allowed strings r r.origin "" ≡ true
  pub site : Site
  pub reply : (next (record r { identity = identity }) now site).0 ≡ handled a

with_permission-passed :
    {A : Type 0} (perm : Option Permission) (next : Handler A) (r : Request) (now : ℕ) (s : Site)
    (a : A)
    → (with_permission perm next r now s).0 ≡ handled a
    → IsPermitted r.identity perm × ((next r now s).0 ≡ handled a)
unfolding with_permission
with_permission-passed none next r now s a h = (tt, h)
with_permission-passed (some perm) next r now s a h =
    require_permission-passed next r now s a perm h

anonymous-refused : {P : Type 0} (i : Identity) → i.user_id ≡ "" → authenticated i ≡ true → P
unfolding authenticated
anonymous-refused i h known = cc (known, (eq_iff i.user_id "").1 h)

-- A handler behind the guards of the protected group answers only a request whose Bearer credential
-- resolves, against the database that the request found, to an enabled account with the role that
-- the database holds now; that role has the permission that the route declares; a request that may
-- change state comes from an allowed origin; and the handler is told that identity. A request is
-- one that carries no identity of its own.
pub behind_admits :
    {A : Type 0} (strings : Strings) (deps : Deps) (perm : Option Permission) (next : Handler A)
    (r : Request) (now : ℕ) (s : Site) (a : A)
    → r.identity.user_id ≡ ""
    → (behind strings deps (signed_in perm) next r now s).0 ≡ handled a
    → IsAdmitted strings deps perm next r now s a
unfolding behind limit_general origin_allowed
behind_admits strings deps perm next r now s a anonymous h =
    let checked = require_auth (csrf_guard strings "" (with_permission perm next)) in
    let resolving = authenticate strings (Auth.authenticate deps) checked in
    let limited =
      rate_limit-passed (require_initialized resolving) r now s a (λ s. s.general)
        (λ l s. record s { general = l }) (λ l. refl) h in
    let ready = require_initialized-passed resolving r now limited.site a limited.reply in
    elim (authenticate-passed checked r now ready.site a strings (Auth.authenticate deps)
      ready.reply) [
        | inl silent ↦
            anonymous-refused r.identity anonymous
              (require_auth-passed (csrf_guard strings "" (with_permission perm next)) r now
                ready.site a silent).0
        | inr (identity, resolved, (site, reply)) ↦
            let known = record r { identity = identity } in
            let (named, signed) =
              require_auth-passed (csrf_guard strings "" (with_permission perm next)) known now site
                a reply in
            let (same_origin, sent) =
              csrf_guard-passed (with_permission perm next) known now site a strings "" signed in
            let (permitted, answered) = with_permission-passed perm next known now site a sent in
            record {
              identity = identity;
              vouched =
                  subst
                    (λ db.
                      IsVouchedFor deps now db (deps.os.trim_space (bearer_token strings r))
                        identity)
                    (ready.same_db ∙ limited.same_db)
                    (authenticate_sound deps (bearer_token strings r) now ready.site.world identity
                      resolved);
              permitted = permitted;
              same_origin = same_origin;
              site = site;
              reply = answered;
            }
      ]
