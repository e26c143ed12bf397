-- ===== src/Db/Parameters.antt =====
-- The statements that projection handlers return, one constructor for each SQL text of
-- event_saver/infrastructure/persistence/projections, with their parameters.
use event_saver.Prelude.{ℕ, String, false, Option, none, some}
use event_saver.Py.Value.{Value, null, str}
use event_saver.Py.Exception.{Result, ok, raise, dbapi_error}
use event_saver.Db.Rows.{BookingTelegramNotification, BookingLifecycleEvent}

-- A parameter for a `text not null` column, and for a nullable text: the driver or the constraint
-- refuses anything else.
abbrev pub text_not_null : Value → Result String
text_not_null (str s) = ok s
text_not_null _ = raise (dbapi_error false)

abbrev pub text_or_null : Value → Result (Option String)
text_or_null null = ok none
text_or_null (str s) = ok (some s)
text_or_null _ = raise (dbapi_error false)

pub record MeetingLinkParams : Type 0 where
  pub booking_ref_id : ℕ
  pub user_id : ℕ
  pub meeting_url : Value
  pub source_event_id : String
  pub occurred_at : ℕ

pub record EmailSentParams : Type 0 where
  pub booking_ref_id : ℕ
  pub user_id : Option ℕ
  pub trigger_event : Option String
  pub job_id : String
  pub sent_event_id : String
  pub sent_at : ℕ
  pub recipient_email : Option String

pub record EmailStatusParams : Type 0 where
  pub booking_ref_id : ℕ
  pub job_id : String
  pub last_status : Option String
  pub last_status_event_time : Option ℕ
  pub last_status_event_id : String
  pub last_clicked_url : Option String
  pub recipient_email : Option String

pub record StatusHistoryParams : Type 0 where
  pub job_id : String
  pub status : String
  pub status_event_time : Option ℕ
  pub clicked_url : Option String
  pub source_event_id : String

pub record ChatEventParams : Type 0 where
  pub booking_ref_id : ℕ
  pub raw_event_id : String
  pub provider : String
  pub chat_event_type : Value
  pub message_id : Option String
  pub user_id : Option ℕ
  pub text_preview : Option String
  pub occurred_at : ℕ

pub record ChatReadParams : Type 0 where
  pub booking_ref_id : ℕ
  pub reader_user_id : ℕ
  pub last_read_message_id : Value
  pub read_occurred_at : ℕ

pub record VideoEventParams : Type 0 where
  pub booking_ref_id : ℕ
  pub raw_event_id : String
  pub video_event_type : Value
  pub participant_role : Option String
  pub user_id : Option ℕ
  pub event_time : Option ℕ
  pub payload : Value

pub data Statement : Type 0 where
  upsert_meeting_link : MeetingLinkParams → Statement
  delete_meeting_link : ℕ → ℕ → Statement
  upsert_email_sent : EmailSentParams → Statement
  upsert_email_status : EmailStatusParams → Statement
  insert_telegram_notification : BookingTelegramNotification → Statement
  insert_email_status_history : StatusHistoryParams → Statement
  insert_chat_event : ChatEventParams → Statement
  update_chat_read : ChatReadParams → Statement
  insert_video_event : VideoEventParams → Statement
  insert_lifecycle_event : BookingLifecycleEvent → Statement
