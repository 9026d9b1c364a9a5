-- ===== src/Lib.antt =====
-- A verification library for capcom, a control plane for agent runtimes. What it models is Go code
-- below internal/.
--
-- The program: an HTTP API (api/) authenticates a request, checks the role of its principal and
-- calls a service. The services (services/) keep accounts and sessions, synchronize what an
-- adapter observes of a runtime, and carry out control actions on it; they store rows and audit
-- events through repositories (store/), whose tables have the types of domain/. Runtimes are
-- reached through the HTTP clients of adapters/, and workers/ calls the services in between
-- requests. The server starts from a configuration (config/).
--
-- Which file models which part:
--   Domain/: the types of internal/domain. A Go string type is a text with constants, a nil map or
--     slice and a pointer are options, a time counts nanoseconds.
--   Errors: error values, their texts, errors.Is and errors.As; sanitizeRuntimeError.
--   Control/: internal/services/control_actions.go over internal/store/control_repository.go.
--     World has the tables and the log of all effects; Env is what the program does not implement:
--     faults of the database, the clock, random ids and the answers of the runtimes, each of which
--     may depend on everything that has happened. Exec is the monad of a method that may return
--     early. Access, Status, Delete and Cancel are reconcile_access (ReconcileAccess),
--     set_agent_status (SetAgentStatus), delete_agent (DeleteAgent) and cancel_execution
--     (CancelExecution); Protocol is what they share from the creation of the row on, Reject and
--     Audit are the helpers of the same file. Requests serves any sequence of them.
--     Keeps, Invariant and Guarded carry a predicate through every method; Triple and Rows follow
--     the table through the protocol, and Replay is about the lookup of a request's key.
--   Sync/: internal/services/runtime_sync.go. Validate is validateRuntimeSnapshot, Service is Sync,
--     auditSync, GetAgent and the query of ListAgentDelegations over a log of the store's calls.
--   Auth/: internal/services/auth.go. Limiter is loginLimiter, Password is validatePassword,
--     encodePassword and verifyPassword, Service is Signup, Login, Authenticate and VerifyCSRF.
--   Gateway/: internal/api/middleware.go. Roles is authorizedForRequest, Session is sessionAuth,
--     Origins is corsMiddleware.
--     PublicError and Disclosed are about internal/api/errors.go.
--   Tenant: internal/tenant/context.go.
--   Effects: methods that return a value or an error and change a state; transactions.
--   Secrets/: internal/secrets/cipher.go (Cipher), internal/services/secrets.go (Names, Service) and
--     SecretRepository of internal/store/repositories.go (Table). Vault is the map from names to
--     values that the service stands for, and Refined the proof that it does; Opened is about the
--     cipher alone.
--   Runtimes/: internal/services/runtime_connections.go (Input, Service, Settings) over
--     RuntimeConnectionRepository of internal/store/repositories.go (Table, Repository, Changes).
--     Removed, Updated, Shared, Created and Atomic are about the methods, Rows about the statements.
--   Snapshots/: internal/store/sync_repository.go and the upserts of
--     internal/store/runtime_inventory_repository.go. Tables are the rows, Upserts and Agents the
--     upserts, Persist is PersistSnapshot, Runs is CreateRun and FailRun. Missed, Stored, Counted
--     and Stale follow the delegations through it.
--   Workers/: internal/workers/runtime_sync.go as a step relation, since its goroutines end in any
--     order (Schedule, Reached), and the collection of usage of internal/workers/telemetry.go
--     (Telemetry, Collected).
--   Adapters/: internal/adapters. Http is what the two clients share (normalizeBaseURL, doJSON): the
--     state is the list of requests that were sent, and Web has net/http, net/url, encoding/json, the
--     credentials and the clock, whose answers may depend on it. Checked is CheckResult. LangGraph is
--     internal/adapters/langgraph: Dto, the loops over pages (Pages), Client and Snapshot. Gantry is
--     internal/adapters/gantry: Dto, Client, Doctor, Delegates, Access, Listing, Tasks and Usage. Sent,
--     Bounded, Turns, Listed, Replaced, Complete and Worst are about them.
--   Telemetry/: internal/services/telemetry.go (Costs, Normalize, Service) and model_catalog.go
--     (Catalog). Content, Normalized and Ingested are about it.
--   Config/: internal/config/config.go. Values reads one variable, Load is LoadFromLookup. DotEnv and
--     Assigned are about internal/config/dotenv.go.
--   Prelude/: shared tests on numbers and texts, strings.TrimSpace and %q.
--   Examples/: the theorems at concrete inputs.
--
-- Bounds and fuel: every loop of the code that is modelled runs over a list or over a number of pages
-- that the code fixes, so no fuel is needed.
-- Texts are sequences of characters; lengths in bytes are those of their UTF-8 form. An error
-- text is cut as if byte 1000 ended a character. The counter
-- of failed logins and those of Ingest are natural numbers: Go's would wrap after 2^63 steps. Versions
-- and revisions that a runtime reports are natural numbers too.
--
-- Not modelled: the SQL of accounts and telemetry and the queries that list rows, the
-- goroutines of the gantry adapter's CollectSnapshot, the LangSmith reader, JSON decoding and HTTP
-- itself, and the goroutines of the telemetry worker. Argon2,
-- SHA-256, AES-GCM, Base64, addresses, durations and random numbers are parameters. New ids are
-- taken to be new.
pub mod Prelude
pub mod Domain
pub mod Errors
pub mod Effects
pub mod Tenant
pub mod Control
pub mod Sync
pub mod Auth
pub mod Secrets
pub mod Runtimes
pub mod Snapshots
pub mod Workers
pub mod Gateway
pub mod Config
pub mod Adapters
pub mod Telemetry
pub mod Examples
