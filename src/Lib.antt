-- ===== src/Lib.antt =====
-- bike_doc: the durable job queue, the workers, the turns of a repair session, the safety rules and the
-- profile projection of the bike-doc API service (apps/api/src/bike_doc_api), as executable definitions
-- and theorems about them.
--
-- Parts, and how they interact. A request records a job in the table background_jobs with what it
-- accepts. Maintenance claims due rows, publishes a notification of each and confirms it; a worker
-- pulls the notification, resolves it against the row, executes the job and applies its outcome;
-- reconciliation recovers lost executions and repeats lost notifications; retention deletes. Only
-- the row decides: a notification carries no more than a job id and a generation. The acceptance of a
-- turn records the diagnostic job and, with images, the profile job; a job that fails ends its turn and
-- its inference run in the same transaction. A diagnostic execution can raise a safety flag, which
-- changes the safety state of the repair session. What images show of a bike becomes claims, which are
-- resolved against its nested technical projection under the policies of the deployment; what its owner
-- writes by hand becomes claims of the same ledger. Both end with the derived facts and the revision.
--
-- - Prelude: tests on numbers, options and lists that the parts share.
-- - Jobs.Row, Jobs.Values: the row (models/background_job.py) with its 28 columns, and the values
--   of repositories/background_jobs.py.
-- - Jobs.Delivery, Jobs.Publication, Jobs.Recovery: each method of BackgroundJobRepository on the
--   row that it locked (resolve_delivery, apply_outcome, _finish; claim_publications,
--   confirm_publication, fail_publication, advance_publication; recover_expired, claim_scan,
--   delete_retained), and the effect boundary of repositories/diagnostic_execution.py. `none` is
--   a refusal (the method returns False or None, or raises).
-- - Jobs.Table: the same methods on the table, with record, the scans and their order.
-- - Jobs.Constraints: the CHECK constraints of the table and the triggers of the migrations
--   2026_09_30_0009_background_jobs.py and 2026_10_01_0012_diagnostic_effect_token.py.
-- - Jobs.Writes, Jobs.Table.Steps, Jobs.Table.Calls: writes and calls of the base repository as
--   steps, in any order (what the product repositories add is in Repairs.Terminalize);
--   Jobs.Writes.Refines has the abstract machine of a job.
-- - Workers.Policy, Workers.Registry, Workers.Runtime: workers/diagnostic.py,
--   workers/profile_inference.py, workers/registry.py and workers/runtime.py.
-- - Maintenance: JobMaintenance of maintenance/runtime.py (one publication, the recovery, repair and
--   cleanup passes) and the pages of reconstruct in maintenance/reconstruction.py.
-- - Safety.Flags, Safety.Session: services/safety.py, from validated flags on.
-- - Events: the event log of a session (repositories/events.py), and the cursor and the opening of
--   a stream and the loop of its replay (services/events.py), on a log that does not grow while it is
--   replayed. Python's `int` and `str` on decimals are
--   parameters.
-- - Repairs.Model, Repairs.Request, Repairs.Accept: the rows of a session (models/repair_session.py,
--   models/event.py, models/profile_inference.py) and TurnService.accept_turn (services/turns.py).
--   The digests of hashlib, the artifacts found, fresh ids and settings are a record of arguments.
-- - Repairs.Create: RepairSessionService.create_session (services/repair_sessions.py); the call reads the
--   rows committed at its lookup, and writes to those committed at its insert.
-- - Repairs.Producers: services/background_jobs.py and its calls by accept_turn.
-- - Repairs.Terminalize: DiagnosticJobRepository, ProfileJobRepository and
--   append_diagnostic_completion (repositories/diagnostic_jobs.py, profile_jobs.py and
--   diagnostic_terminalization.py), with apply_outcome and recover_expired on jobs and product together. The validation
--   of stored instructions is a parameter.
-- - Profile.Tree, Profile.Projection: services/profile_resolution.py; a path is the list of the parts
--   of a dotted field path, the registry of canonical paths is a parameter, and a number is natural.
-- - Profile.Claims, Profile.Gates, Profile.Application, Profile.Resolver: the claims, resolutions and
--   policies (models/bike.py) and ProfileInferenceResolver.resolve
--   (services/profile_inference_resolution.py). A model score is only compared, and is a number of a
--   fixed unit; the table of canonical fields (services/profile_registry.py) and its check of a value
--   are parameters.
-- - Profile.Policies: bootstrap_v1 and from_deployment of ProfileResolverPolicy, of the same file.
-- - Profile.Derived, Profile.Recompute, Profile.Revision: recompute_derived_brake_summary and
--   recompute_derived_drivetrain_counts, and the profile that resolve saves after them.
-- - Profile.Manual: _apply_manual_claims and set_manual_technical_value of ResolvedBikeProfileService
--   (services/bikes.py), on the locked profile of its owner; the normal form of a value is a parameter.
-- - Tests: concrete runs, and the theorems at inputs that meet their hypotheses.
--
-- State and time. The table is a list of rows. A call of a method is one step, since the code
-- locks the row (SELECT ... FOR UPDATE) and commits once. Times and durations are numbers of
-- microseconds since an origin, and a method that reads the database clock takes the time as an
-- argument. Fresh ids and tokens are arguments too; where a result depends on a token being fresh
-- or 32 characters long, the theorem says so. The readings of the clock within one computation of
-- the derived facts or one manual write are one time. Integers are Python's, unbounded; the
-- database's column widths are not modelled. Every method is total. The loop of the replay alone
-- has a bound on its rounds: as many as there are newer events, and one more, are enough, since
-- each full page moves the cursor.
--
-- Not modelled: the mutations that resolve reports; the pull loop and the cancellation of tasks
-- (asyncio), the broker, SQL sessions and the isolation of transactions with the branch of
-- accept_turn for a lost race on a unique key, telemetry and logging, the format of identifiers
-- and JSON, the agents and the providers, the HTTP interface, the Android client and deployment.
pub mod Prelude
pub mod Jobs
pub mod Workers
pub mod Maintenance
pub mod Safety
pub mod Events
pub mod Repairs
pub mod Profile
pub mod Tests
