-- ===== src/Db/Statement/Frame.antt =====
-- What the statements of the projections leave alone.
use event_saver.Prelude.{◌≡◌, refl}
use event_saver.Db.Tables.{Db}
use event_saver.Db.Keeps.{IfOk, IfOk-bind, if-IfOk}
use event_saver.Db.Statement.{
  Statement, upsert_meeting_link, delete_meeting_link, upsert_email_sent, upsert_email_status,
  insert_telegram_notification, insert_email_status_history, insert_chat_event, update_chat_read,
  insert_video_event, insert_lifecycle_event, run_statement, write_meeting_link,
  remove_meeting_link, write_email_sent, write_email_status, write_telegram_notification,
  write_email_status_history, write_chat_event, mark_chat_read, write_video_event,
  write_lifecycle_event, text_not_null, text_or_null,
}

-- The tables of record are the same in both.
pub record IsProjectedFrom (before after : Db) : Type 0 where
  pub events : after.events ≡ before.events
  pub bookings : after.bookings ≡ before.bookings
  pub bookings_id_seq : after.bookings_id_seq ≡ before.bookings_id_seq
  pub organizer_history : after.organizer_history ≡ before.organizer_history

untouched : (db : Db) → IsProjectedFrom db db
untouched db = record {
  events = refl;
  bookings = refl;
  bookings_id_seq = refl;
  organizer_history = refl;
}

same :
    {before after : Db}
    → after.events ≡ before.events
    → after.bookings ≡ before.bookings
    → after.bookings_id_seq ≡ before.bookings_id_seq
    → after.organizer_history ≡ before.organizer_history
    → IsProjectedFrom before after
same e b s h = record { events = e; bookings = b; bookings_id_seq = s; organizer_history = h }

-- A projection's statement that succeeds leaves the events, the bookings and the organizer
-- history as they were.
pub run_statement_frame :
    (sql : Statement) (db : Db) → IfOk (IsProjectedFrom db) (run_statement sql db)
unfolding run_statement write_meeting_link remove_meeting_link write_email_sent write_email_status
    write_telegram_notification write_email_status_history write_chat_event mark_chat_read
    write_video_event write_lifecycle_event
run_statement_frame (upsert_meeting_link p) db =
    IfOk-bind (IsProjectedFrom db) (text_not_null p.meeting_url) _ (λ _. same refl refl refl refl)
run_statement_frame (delete_meeting_link ref user) db = same refl refl refl refl
run_statement_frame (upsert_email_sent p) db = same refl refl refl refl
run_statement_frame (upsert_email_status p) db = same refl refl refl refl
run_statement_frame (insert_telegram_notification row) db = same refl refl refl refl
run_statement_frame (insert_email_status_history p) db = same refl refl refl refl
run_statement_frame (insert_chat_event p) db =
    IfOk-bind (IsProjectedFrom db) (text_not_null p.chat_event_type) _
      (λ _. same refl refl refl refl)
run_statement_frame (update_chat_read p) db =
    IfOk-bind (IsProjectedFrom db) (text_or_null p.last_read_message_id) _
      (λ _. same refl refl refl refl)
run_statement_frame (insert_video_event p) db =
    IfOk-bind (IsProjectedFrom db) (text_not_null p.video_event_type) _
      (λ _. same refl refl refl refl)
run_statement_frame (insert_lifecycle_event row) db =
    if-IfOk (IsProjectedFrom db) _ _ _ (same refl refl refl refl)
