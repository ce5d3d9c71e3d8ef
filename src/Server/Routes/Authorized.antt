-- ===== src/Server/Routes/Authorized.antt =====
-- Which of the routes of internal/server/router.go each role may use to change something.
use iskele.Common.{
  String, ◌≡◌, refl, Bool, true, false, not, ◌||◌, ◌==◌, some, List, [], ◌∷◌, ◌++◌, any, all, All,
  All-map, all-All, arith,
}
use iskele.Store.{Role, viewer}
use iskele.Server.Rbac.{role_has}
use iskele.Server.Guards.{is_safe}
use iskele.Server.Gates.{Gate, signed_in}
use iskele.Server.Routes.{Route, Mounted, routes, Group, groups, join, public_routes}

-- Whether the guards of a gate let a role through: only the protected group asks for one.
abbrev pub admits : Role → Gate → Bool
admits role (signed_in (some perm)) = role_has role perm
admits role _ = true

-- The paths of the requests other than GET, HEAD and OPTIONS that a viewer's role does not rule out. The
-- streams are GET routes without a permission in the table, among them exec and a stack's up: their
-- handlers ask for it, and are not modelled.
abbrev pub viewer_writes : List String
viewer_writes =
    "/auth/bootstrap" ∷ "/auth/login" ∷ "/auth/refresh" ∷ "/auth/logout" ∷ "/auth/ws-ticket"
    ∷ "/auth/totp/setup" ∷ "/auth/totp/verify" ∷ "/auth/totp/disable" ∷ "/stacks/validate"
    ∷ "/stacks/{id}/diff" ∷ "/templates/secret" ∷ []

abbrev check : Route → Bool
unfolding is_safe role_has
check r =
    is_safe r.method || (not (admits viewer r.gate) || any (λ path. path == r.path) viewer_writes)

all-append :
    (xs ys : List Route) → all check xs ≡ true → all check ys ≡ true → all check (xs ++ ys) ≡ true
all-append [] ys h k = k
all-append (x ∷ xs) ys h k = ground (arith, all-append xs ys)

join-check : (gs : List Group) → all (λ g. all check g.1) gs ≡ true → all check (join gs) ≡ true
join-check [] h = refl
join-check ((true, g) ∷ gs) h = all-append g (join gs) (ground arith) (join-check gs (ground arith))
join-check ((false, g) ∷ gs) h = join-check gs (ground arith)

routes-check : (m : Mounted) → all check (routes m) ≡ true
unfolding routes check
routes-check m =
    let behind_auth : all check (join (groups m)) ≡ true = join-check (groups m) refl in
    join-check ((true, public_routes) ∷ (m.auth, join (groups m)) ∷ []) (rw behind_auth refl)

implied : (a b c : Bool) → (a || (not b || c)) ≡ true → a ≡ false → b ≡ true → c ≡ true
implied a b c h safe admitted = ground arith

-- Whichever collaborators are there, a route whose method is none of GET, HEAD and OPTIONS, and whose
-- guards let a viewer through, has one of eleven paths: bootstrap, login, refresh, logout, ws-ticket and
-- totp/setup, verify and disable under /auth, /stacks/validate, /stacks/{id}/diff and /templates/secret.
pub routes-viewer_writes :
    (m : Mounted)
    → All
        (λ r.
          is_safe r.method ≡ false
          → admits viewer r.gate ≡ true
          → any (λ path. path == r.path) viewer_writes ≡ true)
        (routes m)
unfolding check
routes-viewer_writes m =
    All-map _ _ (λ r. implied (is_safe r.method) (admits viewer r.gate) _) (routes m)
      (all-All check (routes m) (routes-check m))
