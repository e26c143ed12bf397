-- ===== src/Domain/Models.antt =====
-- event_saver/domain/models and the attributes that `save_event` hands on.
use event_saver.Prelude.{ℕ, String, Option}
use event_saver.Py.Value.{Value}
use event_saver.Py.Datetime.{Datetime}

-- event.py
pub record RawEventData : Type 0 where
  pub event_id : String
  pub event_type : String
  pub source : String
  pub occurred_at : Datetime
  pub booking_id : Option String
  pub payload : Value
  pub idempotency_key : Option String
  pub trace_id : Option String
  pub span_id : Option String
  pub dataschema : Option String

pub record ParsedEvent : Type 0 where
  pub raw : RawEventData
  pub open raw use *
  pub payload_hash : String

-- booking.py
pub record BookingData : Type 0 where
  pub booking_id : String
  pub start_time : Option Datetime
  pub end_time : Option Datetime
  pub status : Option String

-- The keyword arguments of `save_event` and of `IngestEventUseCase.execute`.
pub record EventAttributes : Type 0 where
  pub queue_name : String
  pub event_id : String
  pub event_type : String
  pub source : String
  pub time : Value
  pub booking_id : Option String
  pub payload : Value
  pub idempotency_key : Option String
  pub trace_id : Option String
  pub span_id : Option String
  pub dataschema : Option String

-- The two participants of a booking, `(organizer_user_id, client_user_id)`.
pub record Participants : Type 0 where
  pub organizer_user_id : Option ℕ
  pub client_user_id : Option ℕ
