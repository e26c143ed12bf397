-- ===== src/Tests/Statements.antt =====
-- The theorems on the statements of the repositories and the projections, applied to sample rows.
use event_saver.Prelude.{ℕ, ◌≡◌, ◌≢◌, ◌≤◌, refl, true, [], ◌∷◌, arith, none, some}
use Prim.Native.String.{count}
use event_saver.Py.Value.{end, field, str, dict}
use event_saver.Py.Exception.{ok}
use event_saver.Py.Datetime.{aware}
use event_saver.Db.Rows.{BookingMeetingLink, BookingChatEvent, BookingOrganizerHistory}
use event_saver.Db.Tables.{Db, empty_db}
use event_saver.Db.Statement.{
  EmailSentParams, EmailStatusParams, ChatReadParams, write_email_sent, write_email_status,
  mark_chat_read, is_read_by,
}
use event_saver.Db.Consistency.{IsConsistent}
use event_saver.Db.Table.{update_where}
use event_saver.Db.Statement.Emails.{write_email_comm}
use event_saver.Db.Parameters.{MeetingLinkParams}
use event_saver.Db.Statement.Reads.{OnlyReads, mark_chat_read_lem}
use event_saver.Db.Bookings.{latest_history, organizer_of, insert_organizer_history}
use event_saver.Db.Bookings.History.{IsNotAfter, insert_organizer_history_lem}
use event_saver.Projections.Chat.{extract_text_preview, take_chars}
use event_saver.Projections.Chat.Laws.{extract_text_preview-le}

abbrev sent : EmailSentParams
sent = record {
  booking_ref_id = 1;
  user_id = some 2;
  trigger_event = some "booking.created";
  job_id = "job-1";
  sent_event_id = "event-1";
  sent_at = 1000;
  recipient_email = none;
}

abbrev delivered : EmailStatusParams
delivered = record {
  booking_ref_id = 1;
  job_id = "job-1";
  last_status = some "delivered";
  last_status_event_time = some 2000;
  last_status_event_id = "event-2";
  last_clicked_url = none;
  recipient_email = none;
}

write_email_comm_example :
    write_email_status delivered (write_email_sent sent empty_db)
    ≡ write_email_sent sent (write_email_status delivered empty_db)
write_email_comm_example = write_email_comm sent delivered empty_db refl refl refl refl

abbrev message : BookingChatEvent
message = record {
  booking_ref_id = 1;
  raw_event_id = "event-3";
  provider = "getstream";
  chat_event_type = "message.new";
  message_id = some "message-1";
  user_id = some 1;
  is_read = none;
  text_preview = none;
  occurred_at = 1000;
}

abbrev reading : ChatReadParams
reading = record {
  booking_ref_id = 1;
  reader_user_id = 2;
  last_read_message_id = str "message-1";
  read_occurred_at = 1500;
}

abbrev chat_db : Db
chat_db = record empty_db { chat_events = message ∷ record message { user_id = some 2 } ∷ [] }

abbrev read_db : Db
read_db = record empty_db {
  chat_events = record message { is_read = some true } ∷ record message { user_id = some 2 } ∷ [];
}

chat_db-read : mark_chat_read reading chat_db ≡ ok read_db
unfolding mark_chat_read is_read_by update_where
chat_db-read = refl

mark_chat_read_lem_example :
    OnlyReads reading chat_db.chat_events read_db.chat_events
    × (mark_chat_read reading read_db ≡ ok read_db)
mark_chat_read_lem_example = mark_chat_read_lem reading chat_db read_db chat_db-read

-- A database with one row of organizer history.
abbrev first_organizer : BookingOrganizerHistory
first_organizer = record {
  id = 1;
  booking_ref_id = 1;
  organizer_user_id = 3;
  source_event_id = none;
  effective_from = 900;
}

abbrev history_db : Db
history_db = record empty_db {
  organizer_history = first_organizer ∷ [];
  organizer_history_id_seq = 2;
}

history_db-IsConsistent : IsConsistent history_db
history_db-IsConsistent = record {
  events = tt;
  bookings = tt;
  booking_ids = record { distinct = tt; below = refl };
  meeting_links = tt;
  email_notifications = tt;
  email_notification_ids = record { distinct = tt; below = refl };
  telegram_notifications = tt;
  email_status_history = tt;
  chat_events = tt;
  video_events = tt;
  lifecycle_events = tt;
  organizer_history_ids = record { distinct = (refl, tt); below = refl };
}

not_newer : IsNotAfter 1000 (latest_history 1 history_db.organizer_history)
unfolding latest_history
not_newer = omega arith

insert_organizer_history_lem_example :
    let db' = insert_organizer_history 1 7 "event-1" (aware 1000) history_db in
    (organizer_of (latest_history 1 db'.organizer_history) ≡ some 7)
    × ((other : ℕ)
        → ◌≢◌ {A = ℕ} 1 other
        → latest_history other db'.organizer_history
          ≡ latest_history other history_db.organizer_history)
insert_organizer_history_lem_example =
    insert_organizer_history_lem 1 7 "event-1" (aware 1000) history_db history_db-IsConsistent
      not_newer

preview-hello :
    extract_text_preview (dict (field "message" (dict (field "text" (str "hello") end)) end))
    ≡ ok (some "hello")
unfolding extract_text_preview take_chars
preview-hello = refl

extract_text_preview-le_example : count "hello" ≤ 512
extract_text_preview-le_example =
    extract_text_preview-le (dict (field "message" (dict (field "text" (str "hello") end)) end))
      "hello" preview-hello

abbrev link_params : MeetingLinkParams
link_params = record {
  booking_ref_id = 1;
  user_id = 2;
  meeting_url = str "https://meet.example.org/1";
  source_event_id = "event-1";
  occurred_at = 1000;
}

abbrev created_link : BookingMeetingLink
created_link = record {
  booking_ref_id = 1;
  user_id = some 2;
  meeting_url = "https://meet.example.org/1";
  source_event_id = some "event-1";
  occurred_at = 1000;
}

abbrev linked_db : Db
linked_db = record empty_db { meeting_links = record created_link { user_id = some 3 } ∷ [] }
