-- ===== src/Db/Rows.antt =====
-- Rows of event_saver/db/models.py. Left out: the columns `created_at`, `updated_at` and
-- `received_at`, which the database's clock fills and no statement reads, and the surrogate ids
-- that no statement reads. A `timestamptz` is an instant in microseconds, a uuid is its number.
use event_saver.Prelude.{ℕ, String, Bool, Option}
use event_saver.Py.Value.{Value, Fields}

-- class Event
pub record Event : Type 0 where
  pub event_id : String
  pub booking_id : Option String
  pub event_type : String
  pub source : String
  pub hash : String
  pub occurred_at : ℕ
  pub payload : Value
  pub idempotency_key : Option String
  pub trace_id : Option String
  pub span_id : Option String
  pub dataschema : Option String

-- class BookingRecord
pub record BookingRecord : Type 0 where
  pub id : ℕ
  pub booking_uid : String
  pub first_seen_at : ℕ
  pub last_seen_at : ℕ
  pub start_time : Option ℕ
  pub end_time : Option ℕ
  pub current_status : Option String
  pub organizer_user_id : Option ℕ
  pub client_user_id : Option ℕ

-- class BookingOrganizerHistory
pub record BookingOrganizerHistory : Type 0 where
  pub id : ℕ
  pub booking_ref_id : ℕ
  pub organizer_user_id : ℕ
  pub source_event_id : Option String
  pub effective_from : ℕ

-- class BookingMeetingLink
pub record BookingMeetingLink : Type 0 where
  pub booking_ref_id : ℕ
  pub user_id : Option ℕ
  pub meeting_url : String
  pub source_event_id : Option String
  pub occurred_at : ℕ

-- class BookingEmailNotification
pub record BookingEmailNotification : Type 0 where
  pub id : ℕ
  pub booking_ref_id : ℕ
  pub user_id : Option ℕ
  pub trigger_event : Option String
  pub job_id : String
  pub sent_event_id : Option String
  pub sent_at : Option ℕ
  pub last_status : Option String
  pub last_status_event_time : Option ℕ
  pub last_status_event_id : Option String
  pub last_clicked_url : Option String
  pub recipient_email : Option String

-- class BookingTelegramNotification
pub record BookingTelegramNotification : Type 0 where
  pub booking_ref_id : ℕ
  pub user_id : Option ℕ
  pub trigger_event : Option String
  pub source_event_id : String
  pub sent_at : ℕ
  pub recipient_email : Option String

-- class BookingEmailStatusHistory
pub record BookingEmailStatusHistory : Type 0 where
  pub notification_ref_id : ℕ
  pub status : Option String
  pub status_event_time : Option ℕ
  pub clicked_url : Option String
  pub source_event_id : String

-- class BookingChatEvent
pub record BookingChatEvent : Type 0 where
  pub booking_ref_id : ℕ
  pub raw_event_id : String
  pub provider : String
  pub chat_event_type : String
  pub message_id : Option String
  pub user_id : Option ℕ
  pub is_read : Option Bool
  pub text_preview : Option String
  pub occurred_at : ℕ

-- class BookingVideoEvent
pub record BookingVideoEvent : Type 0 where
  pub booking_ref_id : ℕ
  pub raw_event_id : String
  pub video_event_type : String
  pub participant_role : Option String
  pub user_id : Option ℕ
  pub event_time : Option ℕ
  pub payload : Value

-- class BookingLifecycleEvent
pub record BookingLifecycleEvent : Type 0 where
  pub booking_ref_id : ℕ
  pub raw_event_id : String
  pub action : String
  pub organizer_user_id : Option ℕ
  pub client_user_id : Option ℕ
  pub details : Option Fields
  pub occurred_at : ℕ
