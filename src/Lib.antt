-- ===== src/Lib.antt =====
-- Iskele is a panel that manages the containers of one host. Its daemon is written in Go. This library
-- models what decides who may use the panel, the registry of long-running operations, the guards of the
-- HTTP server, and how containers and stacks of containers are created:
--
--   Store                internal/store/models.go: the rows of the database, and when one is active
--   Store/Exec           how a method runs: statements on the database, errors, the clock, draws
--   Store/Users          internal/store/users.go: UserRepo
--   Store/Sessions       internal/store/sessions.go: SessionRepo
--   Store/Tokens         internal/store/tokens.go: TokenRepo
--   Store/Logins         internal/store/logins.go: LoginAttemptRepo
--   Auth/Password        internal/auth/password.go: ValidatePassword, HashPassword, VerifyPassword
--   Auth/Totp            internal/auth/totp.go: TOTPCode, VerifyTOTP
--   Auth/Jwt             internal/auth/jwt.go: TokenIssuer
--   Auth/Limiter         internal/auth/bruteforce.go: Limiter
--   Auth/Tickets         internal/auth/ticket.go: TicketStore
--   Auth/SecretBox       internal/crypto/secretbox.go: SecretBox
--   Service/Audit        internal/audit/audit.go: Recorder.Record, over AuditRepo.Append
--   Service/Users        internal/service/users.go: Users, the administration of accounts
--   Service/Auth         internal/service/auth.go: Auth, signing in, refreshing, authenticating
--   Service/Requests     the methods of both services as one server that takes requests in turn
--   Tasks                internal/service/tasks.go: TaskRegistry
--   Server/Rbac          internal/server/middleware/rbac.go: RoleHas, PermissionsOf
--   Server/RateLimit     internal/server/middleware/ratelimit.go: RateLimiter
--   Server/Guards        internal/server/middleware/{auth,csrf,require}.go, requireInitialized
--   Server/Gates         internal/server/router.go: the guards of each group of routes, in their order
--   Server/Routes        internal/server/router.go: the table of routes of NewRouter
--   Docker               internal/docker/spec.go: the definition of a container
--   Docker/Values        the same: environment, restart policy, devices, health check, network
--   Docker/Mounts        the same: buildMounts, BindSources
--   Docker/Ports         the same: buildPorts, validatePortValue
--   Docker/Create        the same: BuildCreateSpec; checkPrivilegedOptions of internal/service/create.go
--   Workloads/Paths      internal/service/paths.go: PathGuard
--   Workloads/Engine     the calls of the engine, and jobs that make them
--   Workloads/Creator    internal/service/create.go: Creator.create
--   Workloads/Stacks     internal/service/stack.go and stackup.go: StackService. Deploy is up, Lifecycle
--                        is down and Act, Claim is claim, and Status is the end of Up and
--                        ReconcileDeploying over StackRepo of internal/store/stacks.go
--
-- The guards of the server stand before the handlers, which call the services; the services of accounts
-- call the repositories, the limiter, the recorder and the pure functions of internal/auth and
-- internal/crypto, and their collaborators are the record Deps. The creator and the stack service call the
-- path guard, the definitions of containers and the engine, and the stack service claims a stack in the
-- registry of tasks, in two steps between which other requests may take theirs. A function of the model
-- has the name of the Go function in lower case.
--
-- A method is a function from an instant and a World (database, failing statements, random draws) to a
-- result and a World. What it has written before it fails stays written, since no method opens a
-- transaction. Each SQL statement may be refused by the engine, as a list of Booleans says; each read of
-- crypto/rand gives a text or fails, as another list says. One method runs at one instant. Requests are
-- a sequence: the interleaving of the statements of two requests is not modelled. The mutex of the
-- ticket store and of the task registry makes each of their methods one step.
--
-- A time is a number of nanoseconds from Go's zero time, which is 0; durations are not negative. The
-- stored texts of times are compared by a parameter, since their order is not that of the times. Hashes,
-- ciphers, encodings, the signing of tokens, sort.Slice, ORDER BY and the functions of package strings
-- are parameters (Store/Platform, Auth), and what the theorems use of them is stated in records of laws
-- (IsOrdering, IsTextOrder, IsSortSlice, IsSealing, IsPhc, IsPrinter, IsFilePath). Samples has concrete functions
-- that keep those laws, and the modules named Examples apply the theorems to them. Numbers that the
-- source keeps in 32 or 64 bits wrap around in Auth/Totp. Every loop is a structural recursion, on a list or
-- on the number of replicas, so no fuel is needed.
--
-- A handler of the server is a function from an instant, a request and a Site (the world of the account
-- services and the two rate limiters) to a reply and a Site; a guard is a function on handlers. The rate
-- limiter counts tokens in sixty-billionths, so that a refill is exact, where the source adds numbers of
-- float64; its mutex makes each call one step.
--
-- A job of Workloads is a function from the state of the engine to a result and a state. The state is a
-- parameter E and every call of the engine is a function on it that may fail, so that a theorem holds of
-- any engine; a property of E that the calls keep stands for what the engine is asked to do. The lookup of
-- a registry's credentials belongs to the call that pulls an image. The conversion of a compose file, the
-- builder, the fingerprint of a definition, sort.SliceStable, and the functions of strings, strconv, time,
-- path/filepath and nat are parameters (Docker, Workloads/Paths, Workloads/Stacks, Workloads/Stacks/Lifecycle).
-- The loops over a Go map take it as an association list, in any order. A cancellation is a list of
-- Booleans, one for each look at the context. Whether strings.EqualFold and strings.ToLower agree on the
-- type of a mount is a condition (IsPlain) of the theorems on bind mounts: for one letter they do not.
--
-- Not modelled: what the engine of Docker does, the reading of compose files, templates, the handlers of
-- the HTTP server and what it writes, configuration, the migrations, the lists that only read, and the
-- detail of audit events. Of the definition of a container, the fields that BuildCreateSpec copies without
-- a test are left out, and of the stack service the progress events, the audit entries, Scale, Pull and
-- the operations on the stored file.
pub mod Common
pub mod Store
pub mod Auth
pub mod Service
pub mod Tasks
pub mod Server
pub mod Docker
pub mod Workloads
pub mod Samples
