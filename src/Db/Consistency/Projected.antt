-- ===== src/Db/Consistency/Projected.antt =====
-- Every statement that a projection handler returns keeps the database consistent.
use event_saver.Prelude.{
  ℕ, ◌≡◌, refl, Bool, true, Option, none, some, List, find, arith, nat_eq, ◌==◌, sql_eq, ◌&&◌,
}
use event_saver.Db.Rows.{
  BookingMeetingLink, BookingEmailNotification, BookingEmailStatusHistory,
  BookingTelegramNotification, BookingLifecycleEvent, BookingChatEvent, BookingVideoEvent,
}
use event_saver.Db.Table.{
  upsert, IsUnique, insert_or_ignore, update_where, insert_or_ignore-IsUnique,
  update_where-IsUnique, upsert-IsUnique, delete_where-IsUnique,
}
use event_saver.Db.Tables.{
  Db, meeting_links_clash, email_notifications_clash, telegram_notifications_clash,
  email_status_history_clash, chat_events_clash, video_events_clash, lifecycle_events_clash,
}
use event_saver.Db.Statement.{
  Statement, upsert_meeting_link, delete_meeting_link, upsert_email_sent, upsert_email_status,
  insert_telegram_notification, insert_email_status_history, insert_chat_event, update_chat_read,
  insert_video_event, insert_lifecycle_event, run_statement, MeetingLinkParams, EmailSentParams,
  EmailStatusParams, StatusHistoryParams, ChatEventParams, ChatReadParams, VideoEventParams,
  write_meeting_link, remove_meeting_link, write_email_sent, write_email_status,
  write_telegram_notification, write_email_status_history, write_chat_event, mark_chat_read,
  write_video_event, write_lifecycle_event, text_not_null, text_or_null, meeting_link_row,
  merge_meeting_link, email_sent_row, merge_email_sent, email_status_row, merge_email_status,
  add_history, history_row,
}
use event_saver.Db.Keeps.{IfOk, IfOk-bind, if-IfOk}
use event_saver.Db.Consistency.{IsConsistent, upsert-IsNumbered}

-- rows that clash have the user of the new row, so writing it changes no key
merge_meeting_link-left :
    (e s t : BookingMeetingLink)
    → meeting_links_clash e s ≡ true
    → meeting_links_clash (merge_meeting_link e s) t ≡ meeting_links_clash s t
merge_meeting_link-left e s t h = ground arith

merge_meeting_link-right :
    (e s t : BookingMeetingLink)
    → meeting_links_clash e t ≡ true
    → meeting_links_clash s (merge_meeting_link e t) ≡ meeting_links_clash s t
merge_meeting_link-right e s t h = ground arith

upsert_meeting_links-IsConsistent :
    (row : BookingMeetingLink) (db : Db)
    → IsConsistent db
    → IsConsistent (record db {
      meeting_links = upsert meeting_links_clash (merge_meeting_link row) row db.meeting_links;
    })
upsert_meeting_links-IsConsistent row db c = assumption (
    upsert-IsUnique meeting_links_clash (merge_meeting_link row) row db.meeting_links
      (merge_meeting_link-left row) (merge_meeting_link-right row) c.meeting_links)

write_meeting_link-IsConsistent :
    (p : MeetingLinkParams) (db : Db)
    → IsConsistent db
    → IfOk IsConsistent (write_meeting_link p db)
unfolding write_meeting_link
write_meeting_link-IsConsistent p db c =
    IfOk-bind IsConsistent (text_not_null p.meeting_url) _
      (λ url. upsert_meeting_links-IsConsistent (meeting_link_row p url) db c)

remove_meeting_link-IsConsistent :
    (ref user : ℕ) (db : Db) → IsConsistent db → IsConsistent (remove_meeting_link ref user db)
unfolding remove_meeting_link
remove_meeting_link-IsConsistent ref user db c = assumption (
    delete_where-IsUnique meeting_links_clash
      (λ l. nat_eq l.booking_ref_id ref && sql_eq nat_eq l.user_id (some user)) db.meeting_links
      c.meeting_links)

write_email_sent-IsConsistent :
    (p : EmailSentParams) (db : Db) → IsConsistent db → IsConsistent (write_email_sent p db)
unfolding write_email_sent
write_email_sent-IsConsistent p db c =
    let row = email_sent_row db.email_notifications_id_seq p in
    assumption (
      upsert-IsUnique email_notifications_clash (merge_email_sent row) row db.email_notifications
          (λ s u _. refl) (λ s u _. refl) c.email_notifications,
      upsert-IsNumbered (λ n. n.id) email_notifications_clash (merge_email_sent row) row
          db.email_notifications_id_seq db.email_notifications refl (λ s. refl)
          c.email_notification_ids,
    )

write_email_status-IsConsistent :
    (p : EmailStatusParams) (db : Db) → IsConsistent db → IsConsistent (write_email_status p db)
unfolding write_email_status
write_email_status-IsConsistent p db c =
    let row = email_status_row db.email_notifications_id_seq p in
    assumption (
      upsert-IsUnique email_notifications_clash (merge_email_status row) row db.email_notifications
          (λ s u _. refl) (λ s u _. refl) c.email_notifications,
      upsert-IsNumbered (λ n. n.id) email_notifications_clash (merge_email_status row) row
          db.email_notifications_id_seq db.email_notifications refl (λ s. refl)
          c.email_notification_ids,
    )

write_telegram_notification-IsConsistent :
    (row : BookingTelegramNotification) (db : Db)
    → IsConsistent db
    → IsConsistent (write_telegram_notification row db)
unfolding write_telegram_notification
write_telegram_notification-IsConsistent row db c = assumption (
    insert_or_ignore-IsUnique telegram_notifications_clash row db.telegram_notifications
      c.telegram_notifications)

add_history-IsUnique :
    (p : StatusHistoryParams) (o : Option BookingEmailNotification)
    (rows : List BookingEmailStatusHistory)
    → IsUnique email_status_history_clash rows
    → IsUnique email_status_history_clash (add_history p o rows)
add_history-IsUnique p none rows h = h
add_history-IsUnique p (some ben) rows h = insert_or_ignore-IsUnique _ (history_row p ben) rows h

write_email_status_history-IsConsistent :
    (p : StatusHistoryParams) (db : Db)
    → IsConsistent db
    → IsConsistent (write_email_status_history p db)
unfolding write_email_status_history
write_email_status_history-IsConsistent p db c = assumption (
    add_history-IsUnique p (find (λ n. n.job_id == p.job_id) db.email_notifications)
      db.email_status_history c.email_status_history)

insert_chat_event-IsConsistent :
    (row : BookingChatEvent) (db : Db)
    → IsConsistent db
    → IsConsistent
        (record db { chat_events = insert_or_ignore chat_events_clash row db.chat_events })
insert_chat_event-IsConsistent row db c =
    assumption (insert_or_ignore-IsUnique chat_events_clash row db.chat_events c.chat_events)

write_chat_event-IsConsistent :
    (p : ChatEventParams) (db : Db) → IsConsistent db → IfOk IsConsistent (write_chat_event p db)
unfolding write_chat_event
write_chat_event-IsConsistent p db c =
    IfOk-bind IsConsistent (text_not_null p.chat_event_type) _
      (λ type. insert_chat_event-IsConsistent _ db c)

mark_read-IsConsistent :
    (q : BookingChatEvent → Bool) (db : Db)
    → IsConsistent db
    → IsConsistent (record db {
      chat_events = update_where q (λ c. record c { is_read = some true }) db.chat_events;
    })
mark_read-IsConsistent q db c = assumption (
    update_where-IsUnique chat_events_clash q (λ e. record e { is_read = some true }) db.chat_events
      (λ r s _. refl) (λ r s _. refl) c.chat_events)

mark_chat_read-IsConsistent :
    (p : ChatReadParams) (db : Db) → IsConsistent db → IfOk IsConsistent (mark_chat_read p db)
unfolding mark_chat_read
mark_chat_read-IsConsistent p db c =
    IfOk-bind IsConsistent (text_or_null p.last_read_message_id) _
      (λ last_read. mark_read-IsConsistent _ db c)

insert_video_event-IsConsistent :
    (row : BookingVideoEvent) (db : Db)
    → IsConsistent db
    → IsConsistent
        (record db { video_events = insert_or_ignore video_events_clash row db.video_events })
insert_video_event-IsConsistent row db c =
    assumption (insert_or_ignore-IsUnique video_events_clash row db.video_events c.video_events)

write_video_event-IsConsistent :
    (p : VideoEventParams) (db : Db) → IsConsistent db → IfOk IsConsistent (write_video_event p db)
unfolding write_video_event
write_video_event-IsConsistent p db c =
    IfOk-bind IsConsistent (text_not_null p.video_event_type) _
      (λ type. insert_video_event-IsConsistent _ db c)

insert_lifecycle_event-IsConsistent :
    (row : BookingLifecycleEvent) (db : Db)
    → IsConsistent db
    → IsConsistent (record db {
      lifecycle_events = insert_or_ignore lifecycle_events_clash row db.lifecycle_events;
    })
insert_lifecycle_event-IsConsistent row db c =
    assumption
      (insert_or_ignore-IsUnique lifecycle_events_clash row db.lifecycle_events c.lifecycle_events)

write_lifecycle_event-IsConsistent :
    (row : BookingLifecycleEvent) (db : Db)
    → IsConsistent db
    → IfOk IsConsistent (write_lifecycle_event row db)
unfolding write_lifecycle_event
write_lifecycle_event-IsConsistent row db c =
    if-IfOk IsConsistent _ _ _ (insert_lifecycle_event-IsConsistent row db c)

-- Whatever a handler returns.
pub run_statement-IsConsistent :
    (sql : Statement) (db : Db) → IsConsistent db → IfOk IsConsistent (run_statement sql db)
unfolding run_statement
run_statement-IsConsistent (upsert_meeting_link p) db c = write_meeting_link-IsConsistent p db c
run_statement-IsConsistent (delete_meeting_link ref user) db c =
    remove_meeting_link-IsConsistent ref user db c
run_statement-IsConsistent (upsert_email_sent p) db c = write_email_sent-IsConsistent p db c
run_statement-IsConsistent (upsert_email_status p) db c = write_email_status-IsConsistent p db c
run_statement-IsConsistent (insert_telegram_notification row) db c =
    write_telegram_notification-IsConsistent row db c
run_statement-IsConsistent (insert_email_status_history p) db c =
    write_email_status_history-IsConsistent p db c
run_statement-IsConsistent (insert_chat_event p) db c = write_chat_event-IsConsistent p db c
run_statement-IsConsistent (update_chat_read p) db c = mark_chat_read-IsConsistent p db c
run_statement-IsConsistent (insert_video_event p) db c = write_video_event-IsConsistent p db c
run_statement-IsConsistent (insert_lifecycle_event row) db c =
    write_lifecycle_event-IsConsistent row db c
