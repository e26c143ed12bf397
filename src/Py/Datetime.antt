-- ===== src/Py/Datetime.antt =====
-- `datetime`, in microseconds. Two aware values are equal when they name one instant, and a
-- `timestamptz` column keeps the instant alone, so the offset is left out.
use event_saver.Prelude.{ℕ, Bool, true, false}

pub data Datetime : Type 0 where
  naive : ℕ → Datetime
  aware : ℕ → Datetime

-- `d if d.tzinfo else d.replace(tzinfo=UTC)`
abbrev pub with_utc : Datetime → Datetime
with_utc (naive n) = aware n
with_utc (aware n) = aware n

abbrev pub is_aware : Datetime → Bool
is_aware (naive _) = false
is_aware (aware _) = true

-- The instant that a `timestamptz` column stores; the driver reads a naive value in the zone of
-- the process, UTC.
abbrev pub instant : Datetime → ℕ
instant (naive n) = n
instant (aware n) = n
