-- ===== src/Domain/EventParser/Laws.antt =====
-- Parsed events carry aware times.
use event_saver.Prelude.{ℕ, ◌≡◌, refl, true, Option, none, some, arith}
use event_saver.Py.Value.{Value, null, bool, datetime}
use event_saver.Py.Exception.{ok}
use event_saver.Py.Datetime.{Datetime, naive, aware, with_utc, is_aware}
use event_saver.Env.{Env}
use event_saver.Domain.Models.{ParsedEvent, EventAttributes}
use event_saver.Domain.EventParser.{parse, parse_occurred_at, or_raise_value_error}

with_utc-is_aware : (d : Datetime) → is_aware (with_utc d) ≡ true
with_utc-is_aware (naive n) = refl
with_utc-is_aware (aware n) = refl

or_raise_aware :
    (o : Option Datetime) (d : Datetime) → or_raise_value_error o ≡ ok d → is_aware d ≡ true
or_raise_aware none d h = cc
or_raise_aware (some e) d h = ground (arith, with_utc-is_aware e)

parse_occurred_at-is_aware :
    (env : Env) (now : ℕ) (time : Value) (d : Datetime)
    → parse_occurred_at env now time ≡ ok d
    → is_aware d ≡ true
unfolding parse_occurred_at
parse_occurred_at-is_aware env now null d h = ground arith
parse_occurred_at-is_aware env now (datetime e) d h = ground (arith, with_utc-is_aware e)
parse_occurred_at-is_aware env now (bool b) d h = or_raise_aware _ d h
parse_occurred_at-is_aware env now v d h = or_raise_aware (env.from_iso_format (env.str_of v)) d h

-- Whatever the time's form, naive, aware, a text or missing, a parsed event has an aware time.
pub parse-is_aware :
    (env : Env) (now : ℕ) (a : EventAttributes) (event : ParsedEvent)
    → parse env now a ≡ ok event
    → is_aware event.occurred_at ≡ true
unfolding parse
parse-is_aware env now a event h = ground (arith, parse_occurred_at-is_aware env now a.time)
