-- ===== src/Lib.antt =====
-- SGDyPA backend: a verification library of the Django backend's own logic.
--
-- The backend serves a multi-tenant document and audit system. Keycloak owns identities; the backend
-- keeps projections of users and organizations, decides access by memberships and roles, and keeps
-- an audit ledger for each organization. The parts that are modelled:
--
-- Prelude: lists as database tables, Python's `str` as code points, JSON values.
-- Identity.Models: the rows of apps/identity/models.py and `Membership.is_active`.
-- Identity.Authorization: apps/identity/authorization.py. `Roles` has the capability table and
-- `seed_system_roles`; the parent has assignment, revocation and the access decision; `Usable`
-- and `Decision` say what a decision means, `Assignment`, `Duties` and `Seeding` what the
-- writes do.
-- Identity.Projection: apps/identity/replication.py. `Users` has the upsert and the deactivation
-- on the table of users; `Validity` and `Insert` its invariant, `Frame` the rows that a save leaves
-- alone; `Upsert` and `Deactivate` the outcome.
-- Trail: apps/trail/services.py and apps/trail/models.py. `Chain` has the invariant of the hash
-- chain, `Append` the append, `Canonical` JSON values up to the order of keys, `Tamper` what the
-- chain protects, and `Encoding` a serialisation for concrete runs.
-- Identity.OrgReplication: apps/identity/org_replication.py. `Claims` reads groups and roles,
-- `Organizations` matches groups to organizations, `Memberships` has the loop over the groups of a
-- user, `Reconcile` the entry points. `Frozen` says what is kept of organizations, `Spared`, `Kept`
-- and `Manual` what is kept of memberships, `Removal` and `Login` what is removed. The search for a
-- free slug takes the fifty attempts of the source, and has no other bound.
-- Identity.Webhooks: apps/identity/webhooks.py. `Events` has the parsers, `Ledger` the row of an
-- event, `Endpoint` the signature check and the handler, `Admission` what a parser
-- admits, `Dedupe` what the handler writes. `Task` is the task of
-- apps/identity/tasks.py that applies an event, `Reprocess` is about its runs.
-- Identity.Authentication: apps/identity/authentication.py and apps/identity/middleware.py. `Bearer`
-- says what becomes of a request under the bearer middleware.
-- Platform.Http: requests and answers. Platform.Errors: error_codes.py, exceptions.py and
-- api_errors.py of apps/platform; `Clean` is about what an answer shows.
-- Platform.Idempotency: apps/platform/idempotency.py; `Replay` and `Scope` are about its records.
-- Platform.Jobs: `AsyncJob` of apps/platform/models.py, the task and the views of apps/platform; `Worker`
-- runs the queue.
-- Platform.Tenancy, Platform.Middleware: tenancy.py and middleware.py of apps/platform. `Pipeline` is
-- the chain of config/settings/base.py around a view, `Gate` the contexts in which the view runs.
-- Identity.Api: apps/identity/views.py and serializers.py. `Effects` and `Isolation` are about the
-- calls that change memberships.
-- Identity.Migrations.Seed, Identity.Migrations.Merge: migrations 0003 and 0006 of apps/identity.
-- Trail.Backfill: migration 0002 of apps/trail; `Continuity` is about the ledger that it leaves.
-- Trail.Interleave: the steps of appends that run at once; `Serial` is about every order of them.
-- Trail.Partitions: apps/trail/partitioning.py and ensure_trail_partitions.py. `Names` is about the names,
-- `Tables` has the partitioned table, `Rehoming`, `Emptied` and `Ensured` are about moving rows and creating partitions.
--
-- How they interact: a request passes the middleware for its id, its bearer token and its tenant
-- before a view runs (`Platform.Pipeline`). A login projects the claims of the token onto the user
-- and reconciles memberships (`Identity.Authentication`, over `Projection` and `OrgReplication`). An
-- event of Keycloak becomes a row and a queued task (`Webhooks.Endpoint`), and the task applies it
-- with the same two components (`Webhooks.Task`). The views of `Identity.Api` decide by
-- `Identity.Authorization`, and an error of a view is answered by `Platform.Errors`.
--
-- A table is a list of rows, a transaction a function from the tables before to the tables after;
-- an exception gives the tables back as they were. A UUID is a number, and the key of a new row is
-- an argument, with the hypothesis that it is fresh where that matters. Time is an argument of each
-- operation. Code of other packages is an argument too: SHA-256, HMAC, `json.dumps` and
-- `json.loads`, `uuid.UUID` and the texts of a UUID, `slugify`, Python's `==` on JSON values, the
-- key lookup with `jwt.decode`, the search of the sensitive patterns, and the exception handler of
-- the REST framework. No definition takes fuel but where a component's file says so.
--
-- Not modelled: negative numbers and fractions in JSON, the append-only guards of the audit rows
-- (`save`, `delete` and the query set of apps/trail/models.py), column lengths and the range of the
-- sequence number, logging, timestamps that nothing
-- reads, the retries of the task queue, and the layers of Django and Celery around the operations;
-- the settings, routes and schema migrations, which are declarations; the provisioning command for
-- development; the command that archives a partition; the Keycloak listener, which is another
-- program, and the containers.
pub mod Prelude
pub mod Identity
pub mod Trail
pub mod Platform
