-- ===== src/Lib.antt =====
-- event-saver takes booking events from RabbitMQ, stores each in PostgreSQL and projects it to
-- tables that other services read; a background task fills in user ids that were not known when an
-- event came. This library models the path of a message, from the broker's delivery to its
-- acknowledgement, the background task, both together, with the database as state, and the history
-- of the database's schema.
--
-- How the parts interact: Consumer decodes a message and calls the event store until it succeeds,
-- is given up or is rejected; Ingest.EventStore opens a session, runs the use case and commits;
-- Ingest.UseCase parses the event, inserts it, and, if it is new, upserts its booking and runs the
-- projection handlers, each of which may give one statement to run. The runner of the backfill calls
-- its service at intervals; a cycle opens a session of its own, looks for bookings without user ids,
-- asks the users service and fills the columns. System puts both beside each other on one database.
--
-- Which file models which part (paths in event_saver/):
--   Prelude, Py: shared tests and lists; payload values, datetimes and exceptions of Python.
--   Env: what is taken from the package `event_schemas` and from library functions, as parameters.
--   Domain: domain/models and domain/services (parser, booking data, participants), utils.py.
--   Db.Rows, Db.Table, Db.Tables: db/models.py, the rows, what SQL does with a table, and the
--     unique constraints. Db.Session: adapters/sql.py. Db.Events, Db.Bookings, Db.Parameters and
--     Db.Statement: the SQL texts of the repositories and of the projections, as functions on the
--     tables.
--   Db.Logic, Db.Keeps, Db.Replays: proof rules for code that runs in a session.
--     Db.Consistency: the invariant of the tables.
--   Projections: infrastructure/persistence/projections and adapters/event_classification.py.
--   Ingest: application/use_cases/ingest_event.py (UseCase), application/services/
--     projection_executor.py, infrastructure/persistence/repositories (Repositories) and
--     event_store_facade.py (EventStore), provide_projection_handlers of ioc.py (Handlers).
--   Consumer: adapters/consumer.py.
--   Backfill: application/services/user_id_backfill.py (Queries, its SQL texts; Cycle, `run_once`
--     and what it calls), adapters/users_client.py (Resolver), adapters/backfill_runner.py (Runner).
--     Preserves, Walk, Fills, Answers, Answered, Outcomes, Counts, Served, Starved and Cache are what holds of
--     a cycle; Direct is a cycle without the cache, as a reference.
--   App: config.py, main.py (lifespan and probes), the providers of the backfill in ioc.py.
--   Telemetry: telemetry.py.
--   System: the steps that the service as a whole takes, and (Log) the table of events as a log.
--   Migrations: the directory alembic/versions beside the package (Versions, each upgrade and
--     downgrade as a list of operations; Schema, what an operation does), db/models.py as a schema
--     (Models) and the comparison of both (Drift, History); Undone, Reverts, Contained, RoundTrip
--     and Restores say what a downgrade gives back, and Frame what happens beside other tables.
--   Tests: sample values and examples.
--
-- How state is modelled: a session is a record of the transaction's view of the tables, the
-- counters, and the list of the database's answers still to come. Each statement takes one answer:
-- it is done, or it fails with an exception; a COMMIT may also be done and reported as failed.
-- When the list is empty all is well, so every pattern of failures is a list. Code that raises
-- gives `raise e` beside the session that it leaves. `World` holds what outlives a session.
--
-- Bounds: the retry loop runs on the number of attempts left, which is what its `for` counts, so no
-- further fuel is needed; the endless loop of the backfill is modelled by its first passes, however
-- many; all other loops run over lists.
--
-- Modelled otherwise than in the source: sessions run one after another, concurrent transactions
-- are not interleaved. A sequence goes back with its transaction, which PostgreSQL's do not; ids
-- are used as opaque names. `int(text, 16)` is modelled on ASCII texts. A timestamp is an
-- instant in microseconds, a uuid is its number, a JSON number is known by its sign and digits.
-- Columns that the database's clock fills and surrogate ids that no statement reads are left
-- out. `unwrap_payload` gives a dict, and `json.dumps` of picked details and `ujson.dumps` of a
-- payload that `json.dumps` took do not fail. Cancellation of the process is not modelled, and
-- that of the backfill's task only between cycles. The users service is a parameter: it may
-- answer each request by those made before it. Where events tie as the latest with an e-mail,
-- the model takes the first, where PostgreSQL may choose. A step of System is a whole message or
-- a whole cycle. Migrations are modelled on schemas, not on rows; foreign keys are recorded, but
-- not what they forbid to drop, and of the names in a schema those of tables, indexes and unique
-- constraints count, but none of views, sequences and the indexes behind primary keys, for which
-- PostgreSQL chooses names that are free.
--
-- Not modelled: logger.py, the Protocols of interfaces, alembic/env.py, the other providers of
-- ioc.py, the settings that only reach other packages, and the instrumentation that telemetry.py
-- installs: output and glue over other packages.
pub mod Prelude
pub mod Py
pub mod Env
pub mod Domain
pub mod Db
pub mod Projections
pub mod Ingest
pub mod Consumer
pub mod Backfill
pub mod System
pub mod App
pub mod Telemetry
pub mod Migrations
pub mod Tests
