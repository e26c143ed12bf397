-- ===== src/Db.antt =====
-- The tables of the service (event_saver/db/models.py) and one function for each SQL statement.
pub mod Rows
pub mod Table
pub mod Tables
pub mod Session
pub mod Bookings
pub mod Events
pub mod Parameters
pub mod Statement
pub mod Logic
pub mod Keeps
pub mod Replays
pub mod Consistency
