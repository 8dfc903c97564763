-- ===== src/Lib.antt =====
-- CostPilot backend: models of the parts of backend/app that keep state, decide access or control
-- the flow of requests and jobs, with the theorems that make them correct.
--
-- The program. CostPilot is a FastAPI service over PostgreSQL, Redis and MongoDB. A request passes
-- the rate limiter and the idempotency middleware (backend/app/middleware), then an endpoint, which
-- works through a session that `get_db` of backend/app/database.py commits on return and rolls back
-- on an exception. Endpoints of an organization first ask `check_permission` of
-- backend/app/enterprise/modules/rbac. Accounts, sessions and resets are in backend/app/auth. The
-- scheduler (backend/app/scheduler) starts collections of costs on a timer or by hand; its calls and
-- those of the cloud providers go through a retry loop and a circuit breaker, and their results
-- into bounded caches (backend/app/shared).
--
-- The files. Each models the Python file that its first comment names, with the source's names in
-- this library's spelling (`_sync_role_permissions` is `sync_role_permissions`).
--   Prelude, Text, Dict, Redis: shared vocabulary. Prelude has the rows of a table as lists with
--     queries and updates, and results that may be an exception of backend/app/shared/exceptions.py.
--     Text is Python's `str` as code points. Dict is a dict in insertion order. Redis is an interface
--     of operations and laws, which Redis/Memory fills.
--   Database: backend/app/database.py, the request's session and a session of one's own.
--   Circuit: backend/app/shared/circuit_breaker.py. `call` has two locked parts, `admit` and
--     `finish`, between which other calls run: Circuit/Invariant has the interleavings as steps.
--   Cache: backend/app/shared/bounded_cache.py, with `get`, `set`, `delete`, `clear`, `cleanup`.
--   Retry: backend/app/shared/retry.py, the loop of `with_retry` and its delays.
--   RateLimit: backend/app/middleware/rate_limiter.py, the limiter in memory and the middleware.
--   Idempotency: backend/app/middleware/idempotency.py over backend/app/idempotency/models.py.
--   Futures, Coalescing: backend/app/shared/request_coalescing.py over the futures of asyncio, a heap.
--   Auth: backend/app/auth/service.py with the login endpoint of backend/app/auth/router.py;
--     Auth/Access the access tokens, their blacklist, `logout` and backend/app/auth/dependencies.py;
--     Auth/Rotation the refresh tokens of backend/app/auth/token_manager.py; Auth/Fingerprint the
--     validator of backend/app/auth/session_security.py.
--   Rbac: backend/app/enterprise/modules/rbac/service.py, models.py and dependencies.py; Roles,
--     Assignments, Policies, Check and Reviews have the operations, the other children the proofs.
--   Pools: backend/app/pools/service.py over backend/app/pools/models.py.
--   Users: backend/app/user_management/service.py, the updates of roles, and in Users/Invitations the
--     invitations of backend/app/user_management/models.py; Users/Status suspends, activates, resets
--     and removes users.
--   Scheduler: backend/app/scheduler/executor.py, service.py and models.py; Scheduler/Update and
--     Scheduler/Letters the updates of a scheduler and the operations on dead letters.
--   CostCache: the summaries of backend/app/cost_cache/service.py; CostCache/Fallback has
--     `get_expenses_with_fallback` of backend/app/shared/degradation.py.
--
-- State and time. A function takes the rows or the object that it changes and gives them back with
-- its result. Where an exception is rolled back by the caller's session, it comes without rows. A
-- time is a number, of microseconds unless a file says otherwise, and is an argument where the
-- source reads the clock; so is each fresh identifier or random token. Hash functions, UTF-8, the
-- library for JSON web tokens, the crontab parser and the application behind a middleware are
-- parameters; so is what DECIMAL columns keep of a sum. A table has the columns that its model
-- declares, also where a migration differs. Where coroutines interleave, what each does between two
-- awaits is a step.
--
-- Recursion. The retry loop runs on the attempts that are left, which the source counts itself. The
-- tree of pools is loaded on fuel, the length of the table: no path down is longer. All else is
-- structural, and every function is total.
--
-- Not modelled. The circuit registry, the manager of degraded services, feature flags, health checks
-- and metrics; the access tokens that the token manager makes itself; bulk invitations and the
-- updates of a profile; the refresh of the cost cache and its breakdowns; expenses, resources,
-- recommendations and their rules; exports; the adapters of the cloud providers, whose work is calls
-- of vendor libraries; schemas and routers, beyond what the services read of them; migrations,
-- scripts and tests; the frontend, which is TypeScript.
pub mod Idempotency
pub mod Prelude
pub mod Circuit
pub mod Coalescing
pub mod Futures
pub mod Dict
pub mod Cache
pub mod Text
pub mod Retry
pub mod Pools
pub mod Users
pub mod Rbac
pub mod RateLimit
pub mod Redis
pub mod Database
pub mod Auth
pub mod Scheduler
pub mod CostCache
