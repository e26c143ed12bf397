-- ===== src/Db/Statement.antt =====
-- What the statements of event_saver/infrastructure/persistence/projections do.
pub mod Emails
pub mod Frame
pub mod Links
pub mod Reads
use event_saver.Prelude.{
  ℕ, ◌+◌, String, ◌==◌, Bool, true, false, ◌&&◌, ◌||◌, Option, none, some, List, any, find, nat_eq,
  ltb, sql_eq, is_distinct, coalesce, if◌then◌else◌,
}
use event_saver.Py.Value.{Value, null, str}
use event_saver.Py.Exception.{Result, ok, raise, dbapi_error, ◌>>=◌}
use event_saver.Db.Rows.{
  BookingMeetingLink, BookingEmailNotification, BookingTelegramNotification,
  BookingEmailStatusHistory, BookingChatEvent, BookingVideoEvent, BookingLifecycleEvent,
}
use event_saver.Db.Table.{insert_or_ignore, update_where, upsert, delete_where}
use event_saver.Db.Tables.{
  Db, meeting_links_clash, email_notifications_clash, telegram_notifications_clash,
  email_status_history_clash, chat_events_clash, video_events_clash, lifecycle_events_clash,
}
pub use event_saver.Db.Parameters.{
  text_not_null, text_or_null, MeetingLinkParams, EmailSentParams, EmailStatusParams,
  StatusHistoryParams, ChatEventParams, ChatReadParams, VideoEventParams, Statement,
  upsert_meeting_link, delete_meeting_link, upsert_email_sent, upsert_email_status,
  insert_telegram_notification, insert_email_status_history, insert_chat_event, update_chat_read,
  insert_video_event, insert_lifecycle_event,
}

-- meeting_projection.py
abbrev pub merge_meeting_link : BookingMeetingLink → BookingMeetingLink → BookingMeetingLink
merge_meeting_link e l = record l {
  user_id = e.user_id;
  meeting_url = e.meeting_url;
  source_event_id = e.source_event_id;
  occurred_at = e.occurred_at;
}

abbrev pub meeting_link_row : MeetingLinkParams → String → BookingMeetingLink
meeting_link_row p meeting_url = record {
  booking_ref_id = p.booking_ref_id;
  user_id = some p.user_id;
  meeting_url = meeting_url;
  source_event_id = some p.source_event_id;
  occurred_at = p.occurred_at;
}

unfoldable pub write_meeting_link : MeetingLinkParams → Db → Result Db
unfolding upsert update_where
write_meeting_link p db = do
  meeting_url ← text_not_null p.meeting_url
  let row = meeting_link_row p meeting_url
  ok (record db {
    meeting_links = upsert meeting_links_clash (merge_meeting_link row) row db.meeting_links;
  })

unfoldable pub remove_meeting_link : ℕ → ℕ → Db → Db
unfolding delete_where
remove_meeting_link ref user db = record db {
  meeting_links =
      delete_where (λ l. nat_eq l.booking_ref_id ref && sql_eq nat_eq l.user_id (some user))
        db.meeting_links;
}

-- notification_projection.py, `_handle_email_sent`
abbrev pub email_sent_row : ℕ → EmailSentParams → BookingEmailNotification
email_sent_row id p = record {
  id = id;
  booking_ref_id = p.booking_ref_id;
  user_id = p.user_id;
  trigger_event = p.trigger_event;
  job_id = p.job_id;
  sent_event_id = some p.sent_event_id;
  sent_at = some p.sent_at;
  last_status = none;
  last_status_event_time = none;
  last_status_event_id = none;
  last_clicked_url = none;
  recipient_email = p.recipient_email;
}

abbrev pub merge_email_sent :
    BookingEmailNotification → BookingEmailNotification → BookingEmailNotification
merge_email_sent e n = record n {
  booking_ref_id = e.booking_ref_id;
  user_id = coalesce e.user_id n.user_id;
  trigger_event = e.trigger_event;
  sent_event_id = e.sent_event_id;
  sent_at = e.sent_at;
  recipient_email = coalesce e.recipient_email n.recipient_email;
}

-- `_handle_email_status`
abbrev pub email_status_row : ℕ → EmailStatusParams → BookingEmailNotification
email_status_row id p = record {
  id = id;
  booking_ref_id = p.booking_ref_id;
  user_id = none;
  trigger_event = none;
  job_id = p.job_id;
  sent_event_id = none;
  sent_at = none;
  last_status = p.last_status;
  last_status_event_time = p.last_status_event_time;
  last_status_event_id = some p.last_status_event_id;
  last_clicked_url = p.last_clicked_url;
  recipient_email = p.recipient_email;
}

abbrev pub merge_email_status :
    BookingEmailNotification → BookingEmailNotification → BookingEmailNotification
merge_email_status e n = record n {
  booking_ref_id = e.booking_ref_id;
  last_status = e.last_status;
  last_status_event_time = e.last_status_event_time;
  last_status_event_id = e.last_status_event_id;
  last_clicked_url = coalesce e.last_clicked_url n.last_clicked_url;
  recipient_email = coalesce e.recipient_email n.recipient_email;
}

-- A conflicting row has used up a value of the id sequence too.
unfoldable pub write_email_sent : EmailSentParams → Db → Db
unfolding upsert update_where
write_email_sent p db =
    let row = email_sent_row db.email_notifications_id_seq p in
    record db {
      email_notifications =
          upsert email_notifications_clash (merge_email_sent row) row db.email_notifications;
      email_notifications_id_seq = db.email_notifications_id_seq + 1;
    }

unfoldable pub write_email_status : EmailStatusParams → Db → Db
unfolding upsert update_where
write_email_status p db =
    let row = email_status_row db.email_notifications_id_seq p in
    record db {
      email_notifications =
          upsert email_notifications_clash (merge_email_status row) row db.email_notifications;
      email_notifications_id_seq = db.email_notifications_id_seq + 1;
    }

unfoldable pub write_telegram_notification : BookingTelegramNotification → Db → Db
unfolding insert_or_ignore
write_telegram_notification row db = record db {
  telegram_notifications =
      insert_or_ignore telegram_notifications_clash row db.telegram_notifications;
}

-- `insert ... select ben.id, ... from booking_email_notifications ben where ben.job_id = :job_id`;
-- `job_id` is unique, so at most one row is selected
abbrev pub history_row : StatusHistoryParams → BookingEmailNotification → BookingEmailStatusHistory
history_row p ben = record {
  notification_ref_id = ben.id;
  status = some p.status;
  status_event_time = p.status_event_time;
  clicked_url = p.clicked_url;
  source_event_id = p.source_event_id;
}

abbrev pub add_history :
    StatusHistoryParams
    → Option BookingEmailNotification
    → List BookingEmailStatusHistory
    → List BookingEmailStatusHistory
add_history p none rows = rows
add_history p (some ben) rows = insert_or_ignore email_status_history_clash (history_row p ben) rows

unfoldable pub write_email_status_history : StatusHistoryParams → Db → Db
unfolding insert_or_ignore
write_email_status_history p db = record db {
  email_status_history =
      add_history p (find (λ n. n.job_id == p.job_id) db.email_notifications)
        db.email_status_history;
}

-- chat_projection.py
unfoldable pub write_chat_event : ChatEventParams → Db → Result Db
unfolding insert_or_ignore
write_chat_event p db = do
  chat_event_type ← text_not_null p.chat_event_type
  let row : BookingChatEvent = record {
    booking_ref_id = p.booking_ref_id;
    raw_event_id = p.raw_event_id;
    provider = p.provider;
    chat_event_type = chat_event_type;
    message_id = p.message_id;
    user_id = p.user_id;
    is_read = none;
    text_preview = p.text_preview;
    occurred_at = p.occurred_at;
  }
  ok (record db { chat_events = insert_or_ignore chat_events_clash row db.chat_events })

-- the `where` of the read update
unfoldable pub is_read_by : ChatReadParams → Option String → BookingChatEvent → Bool
is_read_by p last_read c =
    nat_eq c.booking_ref_id p.booking_ref_id
    && (c.chat_event_type == "message.new"
        && (is_distinct nat_eq c.user_id (some p.reader_user_id)
            && (sql_eq ◌==◌ c.message_id last_read || ltb c.occurred_at p.read_occurred_at)))

unfoldable pub mark_chat_read : ChatReadParams → Db → Result Db
unfolding is_read_by update_where
mark_chat_read p db = do
  last_read ← text_or_null p.last_read_message_id
  ok (record db {
    chat_events =
        update_where (is_read_by p last_read) (λ c. record c { is_read = some true })
          db.chat_events;
  })

-- video_projection.py
unfoldable pub write_video_event : VideoEventParams → Db → Result Db
unfolding insert_or_ignore
write_video_event p db = do
  video_event_type ← text_not_null p.video_event_type
  let row : BookingVideoEvent = record {
    booking_ref_id = p.booking_ref_id;
    raw_event_id = p.raw_event_id;
    video_event_type = video_event_type;
    participant_role = p.participant_role;
    user_id = p.user_id;
    event_time = p.event_time;
    payload = p.payload;
  }
  ok (record db { video_events = insert_or_ignore video_events_clash row db.video_events })

-- lifecycle_projection.py; the table has foreign keys to `bookings` and `events`
unfoldable pub write_lifecycle_event : BookingLifecycleEvent → Db → Result Db
unfolding insert_or_ignore
write_lifecycle_event row db =
    let db' : Db = record db {
      lifecycle_events = insert_or_ignore lifecycle_events_clash row db.lifecycle_events;
    } in
    if any (lifecycle_events_clash row) db.lifecycle_events
      || (any (λ b. nat_eq b.id row.booking_ref_id) db.bookings
          && any (λ e. e.event_id == row.raw_event_id) db.events)
    then ok db'
    else raise (dbapi_error false)

unfoldable pub run_statement : Statement → Db → Result Db
run_statement (upsert_meeting_link p) db = write_meeting_link p db
run_statement (delete_meeting_link ref user) db = ok (remove_meeting_link ref user db)
run_statement (upsert_email_sent p) db = ok (write_email_sent p db)
run_statement (upsert_email_status p) db = ok (write_email_status p db)
run_statement (insert_telegram_notification row) db = ok (write_telegram_notification row db)
run_statement (insert_email_status_history p) db = ok (write_email_status_history p db)
run_statement (insert_chat_event p) db = write_chat_event p db
run_statement (update_chat_read p) db = mark_chat_read p db
run_statement (insert_video_event p) db = write_video_event p db
run_statement (insert_lifecycle_event row) db = write_lifecycle_event row db
