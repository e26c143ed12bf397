-- ===== src/Domain/EventParser.antt =====
-- event_saver/domain/services/event_parser.py and event_saver/utils.py
pub mod Laws
use Prim.Native.Char.{code}
use Prim.Native.String as Text
use event_saver.Prelude.{
  ℕ, String, ◌≡◌, ◌≢◌, refl, Bool, true, false, Option, none, some, arith, nat_eq, ◌==◌,
  if◌then◌else◌,
}
use event_saver.Py.Value.{Value, null, bool, num, str, list, dict, datetime, uuid, or_empty}
use event_saver.Py.Exception.{Result, ok, raise, value_error, type_error, ◌>>=◌}
use event_saver.Py.Datetime.{Datetime, naive, aware, with_utc, is_aware}
use event_saver.Env.{Env}
use event_saver.Domain.Models.{RawEventData, ParsedEvent, EventAttributes}

-- `value.replace("Z", "+00:00")`
unfoldable pub replace_zulu : String → String
replace_zulu String.[] = ""
replace_zulu (String.◌∷◌ c s) =
    let rest = replace_zulu s in
    if nat_eq (code c) b'Z' then Text.◌++◌ "+00:00" rest else String.◌∷◌ c rest

abbrev pub or_raise_value_error : Option Datetime → Result Datetime
or_raise_value_error none = raise value_error
or_raise_value_error (some d) = ok (with_utc d)

abbrev map_with_utc : Option Datetime → Option Datetime
map_with_utc none = none
map_with_utc (some d) = some (with_utc d)

module _ (env : Env) where
  -- utils.py; a `ValueError` gives None
  unfoldable pub parse_iso_datetime : Value → Option Datetime
  parse_iso_datetime (datetime d) = some d
  parse_iso_datetime (str s) =
      if s == "" then none else map_with_utc (env.from_iso_format (replace_zulu s))
  parse_iso_datetime _ = none

  -- `now` is the reading of the clock
  unfoldable pub parse_occurred_at : ℕ → Value → Result Datetime
  parse_occurred_at now null = ok (aware now)
  parse_occurred_at now (datetime d) = ok (with_utc d)
  parse_occurred_at now v = or_raise_value_error (env.from_iso_format (env.str_of v))

  unfoldable pub compute_payload_hash : Value → Result String
  compute_payload_hash payload = elim (env.dumps_sorted payload) [
    | none ↦ raise type_error
    | some text ↦ ok (env.md5_hexdigest text)
  ]

  unfoldable pub parse : ℕ → EventAttributes → Result ParsedEvent
  unfolding parse_occurred_at compute_payload_hash
  parse now a = do
    occurred_at ← parse_occurred_at now a.time
    let payload = or_empty a.payload
    payload_hash ← compute_payload_hash payload
    ok (record {
      raw = record {
        event_id = a.event_id;
        event_type = a.event_type;
        source = a.source;
        occurred_at = occurred_at;
        booking_id = a.booking_id;
        payload = payload;
        idempotency_key = a.idempotency_key;
        trace_id = a.trace_id;
        span_id = a.span_id;
        dataschema = a.dataschema;
      };
      payload_hash = payload_hash;
    })
