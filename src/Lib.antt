-- ===== src/Lib.antt =====
-- TouchMyAPI checks the public posture of a site that its owner has put in scope. The packages share
-- one policy, packages/policy, that decides from data alone whether an assessment may run, on which
-- target and with which actions and limits. The control worker, apps/worker-control, claims the jobs
-- that were allowed, runs them, has the observations of a run analysed by packages/analysis, and
-- publishes the result; packages/reporting makes reports of it, without credentials. The members of an
-- account are managed through the routes of apps/api. This library models the policy, the worker's
-- cycles, the analysis, the sanitizing of reports, the membership routes and the input of the audit.
--
-- The parts and their files:
--   Common, Js: helpers, and JavaScript values as a boundary meets them: objects with an identity, a
--     prototype and own properties, which may be accessors or belong to a proxy that lies or throws.
--   Policy/Ceiling, Policy/Limits: packages/policy/src/limits.ts; reduceLimits is `reduce_limits`.
--   Policy/Entitlement: packages/policy/src/entitlement.ts; rightsForPlan is `rights_for_plan`.
--   Policy/Membership: packages/policy/src/membership.ts; evaluateMembership, canMembershipCapability
--     and lastOwnerDecision, with the weak set of evaluations as a registry that is passed along.
--   Policy/Ipv4, Ipv6, Host, Target, Rule, Scope: packages/policy/src/scope.ts, from single addresses
--     to matchesScope and validateResolvedAddresses.
--   Policy/Patterns: the regular expressions of packages/policy/src/engine.ts and membership.ts.
--   Policy/Engine: packages/policy/src/engine.ts. `Snapshot` copies objects, `Facts` has the codes and
--     the decision, `Context`, `Entitlement`, `Evidence` and `Playbook` read the parts of a request,
--     `Authorize` reads all of them and `Authorize/Codes` collects the codes and decides.
--   Contracts: packages/contracts/src/redacted.ts and export.ts, the observation of job.ts, and the
--     bodies and replies of membership.ts, as data is read.
--   Analysis: packages/analysis/src/index.ts; analyzePassiveObservations is
--     `analyze_passive_observations`. It reads an observation through the schema in Contracts.
--   Worker/Fair: apps/worker-control/src/fair-scheduler.ts; selectFairTenant is `select_fair_tenant`.
--   Worker/Execution, Worker/Delivery: apps/worker-control/src/service.ts; runExecutionCycle is
--     `run_execution_cycle` and runDeliveryCycle `run_delivery_cycle`. The dependencies that the code
--     is given are a record of calls on a world of any type; each call is noted in a log with its
--     arguments and how it ended, and an exception leaves the log and the local variables standing.
--     The delivery calls the analysis; Common/Effect has the monad of both cycles.
--   Api: apps/api/src. `Session` reads the session token from the cookies (auth.ts); `Membership` is
--     memberships.ts, where `handle` is a request to one of the routes of registerMembershipRoutes.
--     The store, the sessions, the clock, the digest and the random source are a record of calls, and
--     an exception is a value that the handlers' `catch` turns into an error of the API.
--   Reporting: packages/reporting/src/sanitize.ts; safeString is `safe_string`, sanitizeValue is
--     `sanitize_value` and sanitizeReport `sanitize_report`, which ends in the schema of the export
--     (packages/contracts/src/export.ts; its fields are in Contracts/Export). It uses the plans of
--     Policy/Entitlement, and what it sanitizes is judged by Contracts/Redacted.
--   Audit: packages/db/src/audit.ts; normalizeInput is `normalize_input` and redactValue
--     `redact_value`. It shares the expressions of Reporting/Text where the code repeats them.
--   Tests: the theorems at concrete inputs, with a full request that is allowed.
--
-- Texts are lists of UTF-16 code units. The URL parser, Date.parse and SHA-256 belong to the platform
-- and are parameters, as are the formats of zod's identifiers and times in a report; times are
-- milliseconds from a date before all others. The weak collections of the engine are a registry of
-- identities. A failure that the code throws or returns is a value. All recursion is structural, so
-- that no fuel is needed; the heartbeat beside an execution is a number of rounds, which is a
-- parameter.
--
-- Not modelled: the database, the other routes of the API, the user interfaces, the worker's start and
-- configuration, and the drawing and the storage of reports.
pub mod Common
pub mod Js
pub mod Policy
pub mod Contracts
pub mod Analysis
pub mod Worker
pub mod Api
pub mod Reporting
pub mod Audit
mod Tests
