-- ===== src/Domain/BookingExtractor.antt =====
-- event_saver/domain/services/booking_extractor.py
use event_saver.Prelude.{String, Option, none, some, ◌==◌, if◌then◌else◌}
use event_saver.Py.Value.{Value, field_or_null}
use event_saver.Py.Exception.{Result, ok, ◌>>=◌}
use event_saver.Env.{Env}
use event_saver.Domain.Models.{BookingData}
use event_saver.Domain.EventParser.{parse_iso_datetime}

module _ (env : Env) where
  -- `_STATUS_BY_EVENT_TYPE.get(event_type)`
  unfoldable pub status_by_event_type : String → Option String
  status_by_event_type event_type =
      if event_type == env.booking_created
      then some "created"
      else if event_type == env.booking_cancelled
      then some "cancelled"
      else if event_type == env.booking_rejected
      then some "rejected"
      else none

  -- `BookingDataExtractor.extract`
  unfoldable pub extract_booking : String → String → Value → Result BookingData
  unfolding status_by_event_type
  extract_booking booking_id event_type payload = do
    original ← env.unwrap_payload payload
    ok (record {
      booking_id = booking_id;
      start_time = parse_iso_datetime env (field_or_null "start_time" original);
      end_time = parse_iso_datetime env (field_or_null "end_time" original);
      status = status_by_event_type event_type;
    })
