-- ===== src/Server/Routes.antt =====
-- internal/server/router.go: the routes of the API, each with the guards that it stands behind.
-- `Mounted` says which optional collaborators are there; a path is written whole, with the patterns
-- of the router. Which handler a route calls is left out.
pub mod Authorized
use iskele.Common.{String, Bool, true, Option, none, some, List, [], ◌∷◌, ◌++◌, if◌then◌else◌}
use iskele.Server.Rbac.{
  Permission, read, operate, create, delete as remove, build, prune, administer,
}
use iskele.Server.Requests.{Method, get, post, put, delete}
use iskele.Server.Gates.{Gate, public, credentials, session, ticketed, signed_in}

pub record Route : Type 0 where
  pub method : Method
  pub path : String
  pub gate : Gate

pub record Mounted : Type 0 where
  pub auth : Bool
  pub users : Bool
  pub audits : Bool
  pub settings : Bool
  pub registries : Bool
  pub builds : Bool
  pub stacks : Bool
  pub catalog : Bool

abbrev pub route : Method → String → Gate → Route
route method path gate = record { method = method; path = path; gate = gate }

-- a route of the protected group that declares a permission
abbrev pub guarded : Permission → Method → String → Route
guarded perm method path = route method path (signed_in (some perm))

-- a route of the protected group that declares none
abbrev pub own : Method → String → Route
own method path = route method path (signed_in none)

abbrev pub public_routes : List Route
public_routes = route get "/health" public ∷ route get "/version" public ∷ []

abbrev pub sign_in_routes : List Route
sign_in_routes =
    route post "/auth/bootstrap" credentials
    ∷ route post "/auth/login" credentials
    ∷ route get "/auth/status" session
    ∷ route post "/auth/refresh" session
    ∷ []

abbrev pub ticket_routes : List Route
ticket_routes =
    route get "/containers/stats" ticketed
    ∷ route get "/images/pull" ticketed
    ∷ route get "/containers/{id}/logs" ticketed
    ∷ route get "/containers/{id}/exec" ticketed
    ∷ route get "/containers/{id}/stats" ticketed
    ∷ route get "/system/events" ticketed
    ∷ []

abbrev pub ticketed_build : List Route
ticketed_build = route get "/build" ticketed ∷ []

abbrev pub ticketed_stacks : List Route
ticketed_stacks =
    route get "/stacks/{id}/up" ticketed
    ∷ route get "/stacks/{id}/pull" ticketed
    ∷ route get "/stacks/{id}/scale" ticketed
    ∷ route get "/stacks/{id}/logs" ticketed
    ∷ []

abbrev pub own_routes : List Route
own_routes = own get "/auth/me" ∷ own post "/auth/logout" ∷ own post "/auth/ws-ticket" ∷ []

abbrev pub account_routes : List Route
account_routes =
    own post "/auth/totp/setup"
    ∷ own post "/auth/totp/verify"
    ∷ own post "/auth/totp/disable"
    ∷ guarded administer get "/users/"
    ∷ guarded administer post "/users/"
    ∷ guarded administer get "/users/{id}"
    ∷ guarded administer put "/users/{id}"
    ∷ guarded administer delete "/users/{id}"
    ∷ guarded administer delete "/users/{id}/totp"
    ∷ []

abbrev pub audit_routes : List Route
audit_routes =
    guarded administer get "/audit/"
    ∷ guarded administer get "/audit/facets"
    ∷ guarded administer get "/audit/export"
    ∷ []

abbrev pub settings_routes : List Route
settings_routes = guarded administer get "/settings/" ∷ guarded administer put "/settings/" ∷ []

abbrev pub container_routes : List Route
container_routes =
    guarded read get "/containers/"
    ∷ guarded operate post "/containers/batch"
    ∷ guarded prune post "/containers/prune"
    ∷ guarded create post "/containers/"
    ∷ guarded read get "/containers/{id}/"
    ∷ guarded read get "/containers/{id}/inspect"
    ∷ guarded operate post "/containers/{id}/start"
    ∷ guarded operate post "/containers/{id}/stop"
    ∷ guarded operate post "/containers/{id}/restart"
    ∷ guarded operate post "/containers/{id}/pause"
    ∷ guarded operate post "/containers/{id}/unpause"
    ∷ guarded operate post "/containers/{id}/kill"
    ∷ guarded operate post "/containers/{id}/rename"
    ∷ guarded operate post "/containers/{id}/redeploy"
    ∷ guarded remove delete "/containers/{id}/"
    ∷ []

abbrev pub image_routes : List Route
image_routes =
    guarded read get "/images/"
    ∷ guarded prune post "/images/prune"
    ∷ guarded read get "/images/{id}/history"
    ∷ guarded read get "/images/{id}/inspect"
    ∷ guarded operate post "/images/{id}/tag"
    ∷ guarded remove delete "/images/{id}/"
    ∷ []

abbrev pub volume_routes : List Route
volume_routes =
    guarded read get "/volumes/"
    ∷ guarded create post "/volumes/"
    ∷ guarded prune post "/volumes/prune"
    ∷ guarded read get "/volumes/{name}/"
    ∷ guarded read get "/volumes/{name}/inspect"
    ∷ guarded remove delete "/volumes/{name}/"
    ∷ []

abbrev pub network_routes : List Route
network_routes =
    guarded read get "/networks/"
    ∷ guarded create post "/networks/"
    ∷ guarded prune post "/networks/prune"
    ∷ guarded read get "/networks/{id}/"
    ∷ guarded read get "/networks/{id}/inspect"
    ∷ guarded operate post "/networks/{id}/connect"
    ∷ guarded operate post "/networks/{id}/disconnect"
    ∷ guarded remove delete "/networks/{id}/"
    ∷ []

abbrev pub registry_routes : List Route
registry_routes =
    guarded administer get "/registries/"
    ∷ guarded administer post "/registries/"
    ∷ guarded administer put "/registries/{id}"
    ∷ guarded administer delete "/registries/{id}"
    ∷ []

abbrev pub build_routes : List Route
build_routes =
    guarded build get "/fs/browse"
    ∷ guarded read get "/builds/"
    ∷ guarded read get "/builds/{id}"
    ∷ guarded read get "/builds/{id}/log"
    ∷ guarded build post "/builds/{id}/cancel"
    ∷ []

abbrev pub task_routes : List Route
task_routes =
    guarded read get "/tasks/"
    ∷ guarded read get "/tasks/{id}"
    ∷ guarded operate post "/tasks/{id}/cancel"
    ∷ []

abbrev pub stack_routes : List Route
stack_routes =
    guarded read get "/stacks/"
    ∷ guarded create post "/stacks/"
    ∷ guarded read post "/stacks/validate"
    ∷ guarded read get "/stacks/discovered"
    ∷ guarded create post "/stacks/import"
    ∷ guarded read get "/stacks/{id}"
    ∷ guarded create put "/stacks/{id}"
    ∷ guarded remove delete "/stacks/{id}"
    ∷ guarded read post "/stacks/{id}/diff"
    ∷ guarded remove post "/stacks/{id}/down"
    ∷ guarded operate post "/stacks/{id}/stop"
    ∷ guarded operate post "/stacks/{id}/start"
    ∷ guarded operate post "/stacks/{id}/restart"
    ∷ []

abbrev pub catalog_routes : List Route
catalog_routes =
    guarded read get "/templates/"
    ∷ guarded read post "/templates/secret"
    ∷ guarded read get "/templates/{id}"
    ∷ guarded create post "/templates/{id}/deploy"
    ∷ []

abbrev pub system_routes : List Route
system_routes =
    guarded read get "/system/ping"
    ∷ guarded read get "/system/info"
    ∷ guarded read get "/system/df"
    ∷ guarded read get "/system/host"
    ∷ guarded read get "/system/allowed-paths"
    ∷ []

-- a group of routes, and whether it is mounted
abbrev pub Group : Type 0
Group = Bool × List Route

-- NewRouter: the groups behind `deps.Auth`, in the order in which it adds them
abbrev pub groups : Mounted → List Group
groups m =
    (true, sign_in_routes)
    ∷ (true, ticket_routes)
    ∷ (m.builds, ticketed_build)
    ∷ (m.stacks, ticketed_stacks)
    ∷ (true, own_routes)
    ∷ (m.audits, audit_routes)
    ∷ (m.settings, settings_routes)
    ∷ (m.users, account_routes)
    ∷ (true, container_routes)
    ∷ (true, image_routes)
    ∷ (true, volume_routes)
    ∷ (true, network_routes)
    ∷ (m.registries, registry_routes)
    ∷ (m.builds, build_routes)
    ∷ (true, task_routes)
    ∷ (m.stacks, stack_routes)
    ∷ (m.catalog, catalog_routes)
    ∷ (true, system_routes)
    ∷ []

-- the groups that are mounted
abbrev pub join : List Group → List Route
join [] = []
join ((mounted, g) ∷ gs) = let rest = join gs in if mounted then g ++ rest else rest

unfoldable pub routes : Mounted → List Route
routes m = join ((true, public_routes) ∷ (m.auth, join (groups m)) ∷ [])
