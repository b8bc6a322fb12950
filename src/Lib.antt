-- ===== src/Lib.antt =====
-- The AI API security platform sends HTTP requests to systems under test on behalf of test plans, and
-- judges the answers for broken object-level authorization (BOLA). This library models the parts that
-- decide what may be sent, by whom and where to, and what an answer means.
--
-- The parts and how they interact:
--
-- Execution: the coordination of plan executions in the database. A worker acquires a claim on a
--   plan, prepares its attempt, and marks the network as started before the first byte is sent; an
--   operator may cancel a plan until then.
--   - Execution/Database: the tables as functions of the plan, one transaction as an atomic function
--     of the tables and two readings of the database clock, and the retry loop of the services with
--     attempts that are lost before or after their commit.
--   - Execution/Claim: backend/app/services/execution_plan_claim.py (`acquire`, `assert_current`,
--     `renew`, `release`; each SQL statement is the function with the suffix `_statement`).
--   - Execution/Progress: backend/app/services/execution_plan_progress.py.
--   - Execution/Cancellation: backend/app/services/execution_plan_cancellation.py.
--   - Execution/Interleaving: every order of committed transactions of any number of workers.
-- Plans: backend/app/services/execution_plan.py and execution_plan_approval.py, with `new_case` and
--   `new_plan` of research_intent_gate.py: the creation of a plan (Plans/Creation, with what it reads in
--   Plans/Creation/Reads), the search for secrets (Plans/Secrets), the digest (Plans/Digest), and the
--   integrity check and the decisions (Plans/Approval). The fuel of the loop over the qualifiers of a
--   secret's name is the length of the name, of which each round removes a character at least.
-- PlanExecution: backend/app/services/plan_execution.py, `PlanExecutionService.execute` over Execution
--   and Executor, for plans that do not belong to research.
--   - PlanExecution/Surroundings: what the preflight reads, as given values; what other workers do
--     before each call, and which calls fail; the log of one execution.
--   - PlanExecution/Headers: backend/app/auth/context.py.
--   - PlanExecution/Preflight and PlanExecution/Sending: `_execute` up to the claim and the
--     preparation, and from the call of the executor on, with its callbacks `refresh_authorization`
--     and `before_network`. The executor is run on the replies that its callbacks would get: each
--     is called at most once, and the tables change only by the callbacks that its log shows.
--   - PlanExecution/Traces: one execution as a trace of Execution/Interleaving.
--   - PlanExecution/Releases: the claims in the log of one execution, and the exceptions that pass a
--     held claim by its release.
--   - PlanExecution/Revocation: the decisions of Plans/Approval as the approval that `_execute` reads.
-- Policy: backend/app/policies/scope_policy.py. Policy/Origin and Policy/Paths hold the URL and path
--   functions, Policy/Engine holds `ScopePolicyEngine.evaluate`, cut into its phases, with child
--   modules for the scopes, the methods, and the decisions.
-- Network: backend/app/network_safety. Network/Address and Network/Destination are destination.py,
--   Network/Controller is controller.py with its threads as steps, and Network/Gateway is the request
--   path of gateway.py, which calls the other two.
-- Executor: backend/app/executors/http.py, `PolicyEnforcedHTTPExecutor.execute` over Policy and
--   Network. Executor/Clearance says what has happened before a request reaches the gateway.
-- RateLimit: `PostgresRateLimiter` of backend/app/executors/rate_limit.py; the executor takes the end of
--   its wait. RateLimit/Spacing holds the reservations of any number of workers in their order.
-- Bola: Bola/Ownership is backend/app/domain/ownership.py, Bola/Generator and Bola/Matrix are
--   backend/app/generators/bola.py and bola_matrix.py, and Bola/Json and Bola/Analyzer are
--   backend/app/analyzers/bola.py.
-- ResourceAccess: backend/app/services/resource_access_resolution.py.
-- Prelude: the shared names, Boolean tests, lists, texts and the result of a call that may raise.
--
-- Texts are lists of code points, times are whole microseconds, identifiers and counters are native
-- natural numbers. A call that may raise gives a Result; the texts of messages are left out where only
-- their presence matters. All functions are structural recursions. There are two fuels: `max_retries` of
-- the services, which is the bound of the source's own loop, and the length of a name in Plans/Secrets.
--
-- Parameters, because their code is not in the repository: `urlsplit`, `unquote`, `ipaddress`, the case
-- tables and the IDNA codec of Python (Policy.Python, Network.Destination.Internet), the resolver, the
-- connector, the TLS context and the HTTP client httpcore (Network.Gateway.World), `json.loads`,
-- `json.dumps`, UTF-8 and SHA-256 (Bola.Analyzer.Library, Plans.Digest.Library), what a JSONB column
-- gives back of a value (Plans.Digest.Library), and the interval that PostgreSQL makes of a lease
-- (Execution.Claim.Seconds) and of a rate (RateLimit). The client is taken to connect once for each
-- request, and a commit to expire no row of the session, as `SessionLocal` of
-- backend/app/db/session.py is configured. The networks behind the properties of `ipaddress` addresses
-- are written out, except those of `is_global`.
--
-- Not modelled: PostgreSQL below the level of atomic transactions, the research boundary of the gateway
-- (`_BoundaryStream`), elapsed times, and the parts of the repository that are outside these decisions:
-- the research path of an execution, the contents of audit rows and result rows,
-- `InMemoryRateLimiter` of executors/rate_limit.py, which computes with floats, the database-backed
-- network control, the OpenAPI import, the AI services, the research services, routes, schemas, reports,
-- migrations and scripts.
pub mod Prelude
pub mod Execution
pub mod Policy
pub mod Network
pub mod Executor
pub mod RateLimit
pub mod Bola
pub mod ResourceAccess
pub mod Plans
pub mod PlanExecution
