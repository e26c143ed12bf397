-- ===== src/Py.antt =====
-- Python's values, exceptions and dates, as far as the service uses them.
pub mod Value
pub mod Exception
pub mod Datetime
