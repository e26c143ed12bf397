-- ===== src/Migrations.antt =====
-- The history of the database's schema: alembic/versions.
pub mod Schema
pub mod Versions
pub mod Undone
pub mod Reverts
pub mod Contained
pub mod RoundTrip
pub mod Restores
pub mod History
pub mod Models
pub mod Frame
pub mod Drift
