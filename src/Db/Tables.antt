-- ===== src/Db/Tables.antt =====
-- The database: its tables, their unique constraints, and the next values of the id sequences.
use event_saver.Prelude.{ℕ, Bool, ◌||◌, ◌&&◌, List, [], ◌==◌, nat_eq, sql_eq}
use event_saver.Db.Rows.{
  Event, BookingRecord, BookingOrganizerHistory, BookingMeetingLink, BookingEmailNotification,
  BookingTelegramNotification, BookingEmailStatusHistory, BookingChatEvent, BookingVideoEvent,
  BookingLifecycleEvent,
}

pub record Db : Type 0 where
  pub events : List Event
  pub bookings : List BookingRecord
  pub bookings_id_seq : ℕ
  pub organizer_history : List BookingOrganizerHistory
  pub organizer_history_id_seq : ℕ
  pub meeting_links : List BookingMeetingLink
  pub email_notifications : List BookingEmailNotification
  pub email_notifications_id_seq : ℕ
  pub telegram_notifications : List BookingTelegramNotification
  pub email_status_history : List BookingEmailStatusHistory
  pub chat_events : List BookingChatEvent
  pub video_events : List BookingVideoEvent
  pub lifecycle_events : List BookingLifecycleEvent

-- The primary key, and the partial unique index `idx_events_idempotency`.
abbrev pub events_clash : Event → Event → Bool
events_clash e f = e.event_id == f.event_id || sql_eq ◌==◌ e.idempotency_key f.idempotency_key

-- `uq_bookings_booking_uid`
abbrev pub bookings_clash : BookingRecord → BookingRecord → Bool
bookings_clash b c = b.booking_uid == c.booking_uid

-- `uq_bml_booking_ref_id_user_id`
abbrev pub meeting_links_clash : BookingMeetingLink → BookingMeetingLink → Bool
meeting_links_clash l m =
    nat_eq l.booking_ref_id m.booking_ref_id && sql_eq nat_eq l.user_id m.user_id

-- `uq_booking_email_notifications_job_id`
abbrev pub email_notifications_clash : BookingEmailNotification → BookingEmailNotification → Bool
email_notifications_clash n m = n.job_id == m.job_id

-- `uq_btn_source_event_id`
abbrev pub telegram_notifications_clash :
    BookingTelegramNotification → BookingTelegramNotification → Bool
telegram_notifications_clash n m = n.source_event_id == m.source_event_id

-- `uq_besh_source_event_id`
abbrev pub email_status_history_clash : BookingEmailStatusHistory → BookingEmailStatusHistory → Bool
email_status_history_clash h i = h.source_event_id == i.source_event_id

-- `uq_booking_chat_events_raw_event_id`
abbrev pub chat_events_clash : BookingChatEvent → BookingChatEvent → Bool
chat_events_clash e f = e.raw_event_id == f.raw_event_id

-- `uq_booking_video_events_raw_event_id`
abbrev pub video_events_clash : BookingVideoEvent → BookingVideoEvent → Bool
video_events_clash e f = e.raw_event_id == f.raw_event_id

-- `uq_booking_lifecycle_events_raw_event_id`
abbrev pub lifecycle_events_clash : BookingLifecycleEvent → BookingLifecycleEvent → Bool
lifecycle_events_clash e f = e.raw_event_id == f.raw_event_id

abbrev pub empty_db : Db
empty_db = record {
  events = [];
  bookings = [];
  bookings_id_seq = 1;
  organizer_history = [];
  organizer_history_id_seq = 1;
  meeting_links = [];
  email_notifications = [];
  email_notifications_id_seq = 1;
  telegram_notifications = [];
  email_status_history = [];
  chat_events = [];
  video_events = [];
  lifecycle_events = [];
}
