-- ===== src/Backfill.antt =====
-- The periodic backfill of user ids: event_saver/application/services/user_id_backfill.py,
-- event_saver/adapters/users_client.py and event_saver/adapters/backfill_runner.py.
pub mod Queries
pub mod Resolver
pub mod Cycle
pub mod Preserves
pub mod Fills
pub mod Outcomes
pub mod Counts
pub mod Walk
pub mod Served
pub mod Starved
pub mod Cache
pub mod Direct
pub mod Runner
pub mod Answers
pub mod Answered
