-- ===== src/Ingest.antt =====
-- event_saver/application/use_cases/ingest_event.py with the repositories and the projection
-- executor that it calls, and the facade that wraps it in a transaction.
pub mod Repositories
pub mod ProjectionExecutor
pub mod Handlers
pub mod UseCase
pub mod EventStore
pub mod Walk
pub mod Consistency
pub mod Duplicates
pub mod Atomicity
pub mod Registered
pub mod Registration
pub mod Stored
