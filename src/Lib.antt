-- ===== src/Lib.antt =====
-- University Management API: the queue of transcript jobs and its workers, and the records of the
-- university behind the API.
--
-- The program is a FastAPI service over PostgreSQL. The API (app/routers, app/crud, app/security)
-- reads and writes the tables of app/models; POST /reports/export writes a row of `job`, and any
-- number of worker processes (app/workers) claim such rows, generate transcripts
-- (app/services/reports.py) and write them to `report`. All of them interact through the database
-- only.
--
-- Models holds the tables as records and lists of rows, and the constraints that app/models declares.
-- Session models a SQLAlchemy session: a chain of statements, each a short transaction. Before each
-- statement other sessions may have changed the database, and each statement may fail; both are
-- arguments, so a theorem about a function covers every interleaving and every fault.
-- PostgreSQL itself decides whether a transaction commits (the record `Postgres`); what is taken of
-- it is that a committed state meets the constraints, and that a violation is reported only where
-- there is one. The clock, fresh uuids, sequences, row locks, `random.uniform` and the rounding of
-- floats are arguments too, with their documented laws where a theorem needs them.
--
-- Worker models app/workers/tasks.py and app/workers/runner.py: Columns and Store the conditions,
-- values and lookups of the statements, Claim `claim_next_job`, Reconcile `reconcile_reported_job`
-- and `reconcile_reported_jobs`, Lease `_renew_lease`, Persist `_persist_or_adopt_report`, Failure
-- `_record_failure`, Process `process_claimed_report`, Heartbeat the thread of `job_heartbeat`,
-- Runner the loop of the worker, Enqueue the row that `export_transcript_async` writes. Lifecycle
-- is the README's lifecycle of a job as a step relation, System the queue as a transition system
-- whose steps are the statements. Services models the transcript and `calculate_gpa`, with grade
-- points in tenths and averages in hundredths. Crud models app/crud: Response how a commit ends and
-- what is answered, Columns pages and written columns, Enrollment app/crud/enrollment.py, Accounts
-- app/crud/user.py, Students app/crud/student.py with the cache entry of a student as a transition
-- system (Students/Cache), Catalogue the six further files of app/crud as instances of one generic
-- table, Times the times of a schedule, which may have an offset in a request and have none in a row.
-- Security models app/security: tokens, `get_current_user` and `require_roles`. Schemas models the
-- bounds of the requests of app/schemas. Api models the routers: each endpoint with its guard, its
-- validation and its handler, and Api/Routes all of them behind `get_current_user`. Cli models
-- app/cli.py, Health app/redis.py and the health check, and Migrations the revisions of
-- alembic/versions as operations on a schema, beside the schema that app/models declares. What
-- alembic and PostgreSQL do with such an operation is an argument with its documented laws. PyJWT,
-- pwdlib, Redis, the check of an address and `str.lower` are arguments.
--
-- Loops: the heartbeat loop and the worker's endless loop take the number of their rounds as an
-- argument, for every number; `_claim_with_retry` recurs on the attempts left. Nothing else needs fuel.
--
-- Not modelled: HTTP, JSON and routing (FastAPI, pydantic), the rate limiter and logging, which are
-- glue around third-party code.
pub mod Prelude
pub mod Models
pub mod Session
pub mod Worker
pub mod Services
pub mod Crud
pub mod Api
pub mod Cli
pub mod Migrations
pub mod Health
pub mod Schemas
pub mod Security
