-- ===== src/Projections/Notification.antt =====
-- event_saver/infrastructure/persistence/projections/notification_projection.py
use event_saver.Prelude.{Bool, ◌||◌, Option, none, some, ◌==◌, if◌then◌else◌}
use event_saver.Py.Value.{get, as_str, as_dict, field_or_null, original_or_self}
use event_saver.Py.Exception.{Result, ok, ◌>>=◌}
use event_saver.Py.Datetime.{instant}
use event_saver.Env.{Env}
use event_saver.Domain.Models.{ParsedEvent}
use event_saver.Domain.EventParser.{parse_iso_datetime}
use event_saver.Db.Bookings.{option_instant}
use event_saver.Db.Statement.{
  Statement, upsert_email_sent, upsert_email_status, insert_telegram_notification,
  insert_email_status_history,
}
use event_saver.Projections.Handling.{HandleArgs, user_id_for_role}

module _ (env : Env) where
  -- `EmailNotificationProjection.can_handle`
  unfoldable pub can_handle_email : ParsedEvent → Bool
  can_handle_email event =
      event.event_type == env.notification_email_sent
      || event.event_type == env.unisender_status_created

  -- `_handle_email_sent`
  unfoldable pub handle_email_sent : HandleArgs → Result (Option Statement)
  handle_email_sent a = do
    original ← original_or_self a.event.payload
    job_id_value ← get original "job_id"
    elim (as_str job_id_value) [
      | none ↦ ok none
      | some job_id ↦ do
        role ← get original "recipient_role"
        trigger_event ← get original "trigger_event"
        email ← get original "email"
        ok (
            some (
              upsert_email_sent (record {
                booking_ref_id = a.booking_ref_id;
                user_id = user_id_for_role env role a.participants;
                trigger_event = as_str trigger_event;
                job_id = job_id;
                sent_event_id = a.event.event_id;
                sent_at = instant a.event.occurred_at;
                recipient_email = as_str email;
              })))
    ]

  -- `_handle_email_status`
  unfoldable pub handle_email_status : HandleArgs → Result (Option Statement)
  handle_email_status a = do
    original ← original_or_self a.event.payload
    event_data_value ← get original "event_data"
    elim (as_dict event_data_value) [
      | none ↦ ok none
      | some event_data ↦ elim (as_str (field_or_null "job_id" event_data)) [
        | none ↦ ok none
        | some job_id ↦ ok (
            some (
              upsert_email_status (record {
                booking_ref_id = a.booking_ref_id;
                job_id = job_id;
                last_status = as_str (field_or_null "status" event_data);
                last_status_event_time =
                    option_instant (parse_iso_datetime env (field_or_null "event_time" event_data));
                last_status_event_id = a.event.event_id;
                last_clicked_url = as_str (field_or_null "url" event_data);
                recipient_email = as_str (field_or_null "email" event_data);
              })))
      ]
    ]

  -- `EmailNotificationProjection.handle`
  unfoldable pub handle_email : HandleArgs → Result (Option Statement)
  unfolding handle_email_sent handle_email_status
  handle_email a =
      if a.event.event_type == env.notification_email_sent
      then handle_email_sent a
      else if a.event.event_type == env.unisender_status_created
      then handle_email_status a
      else ok none

  -- `TelegramNotificationProjection.can_handle`
  unfoldable pub can_handle_telegram : ParsedEvent → Bool
  can_handle_telegram event = event.event_type == env.notification_telegram_sent

  -- `TelegramNotificationProjection.handle`
  unfoldable pub handle_telegram : HandleArgs → Result (Option Statement)
  handle_telegram a = do
    original ← original_or_self a.event.payload
    role ← get original "recipient_role"
    trigger_event ← get original "trigger_event"
    email ← get original "email"
    ok (
        some (
          insert_telegram_notification (record {
            booking_ref_id = a.booking_ref_id;
            user_id = user_id_for_role env role a.participants;
            trigger_event = as_str trigger_event;
            source_event_id = a.event.event_id;
            sent_at = instant a.event.occurred_at;
            recipient_email = as_str email;
          })))

  -- `EmailStatusHistoryProjection.can_handle`
  unfoldable pub can_handle_status_history : ParsedEvent → Bool
  can_handle_status_history event = event.event_type == env.unisender_status_created

  -- `EmailStatusHistoryProjection.handle`
  unfoldable pub handle_status_history : HandleArgs → Result (Option Statement)
  handle_status_history a = do
    original ← original_or_self a.event.payload
    event_data_value ← get original "event_data"
    elim (as_dict event_data_value) [
      | none ↦ ok none
      | some event_data ↦ elim (as_str (field_or_null "job_id" event_data)) [
        | none ↦ ok none
        | some job_id ↦ elim (as_str (field_or_null "status" event_data)) [
          | none ↦ ok none
          | some status ↦ ok (
              some (
                insert_email_status_history (record {
                  job_id = job_id;
                  status = status;
                  status_event_time =
                      option_instant
                        (parse_iso_datetime env (field_or_null "event_time" event_data));
                  clicked_url = as_str (field_or_null "url" event_data);
                  source_event_id = a.event.event_id;
                })))
        ]
      ]
    ]
