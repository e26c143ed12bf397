-- ===== src/Migrations/Models/Notifications.antt =====
-- event_saver/db/models.py: the tables `booking_email_notifications`,
-- `booking_telegram_notifications`, `booking_email_status_history` as they are declared.
use event_saver.Prelude.{false, none, some, [], ◌∷◌}
use event_saver.Migrations.Schema.{
  big_integer, text_column, date_time, uuid, unique, ascending, descending, Table,
}
use event_saver.Migrations.Versions.Terms.{key, null, not_null, column, index}

abbrev pub booking_email_notifications_model : Table
booking_email_notifications_model = record {
  name = "booking_email_notifications";
  columns =
      column "id" big_integer key none
      ∷ column "booking_ref_id" big_integer not_null none
      ∷ column "user_id" uuid null none
      ∷ column "trigger_event" text_column null none
      ∷ column "job_id" text_column not_null none
      ∷ column "sent_event_id" text_column null none
      ∷ column "sent_at" date_time null none
      ∷ column "last_status" text_column null none
      ∷ column "last_status_event_time" date_time null none
      ∷ column "last_status_event_id" text_column null none
      ∷ column "last_clicked_url" text_column null none
      ∷ column "recipient_email" text_column null none
      ∷ column "created_at" date_time not_null (some "now()")
      ∷ column "updated_at" date_time not_null (some "now()")
      ∷ [];
  constraints = unique "uq_booking_email_notifications_job_id" ("job_id" ∷ []) ∷ [];
  indexes =
      index "ix_ben_booking_ref_id" (ascending "booking_ref_id" ∷ []) false none
      ∷ index "ix_ben_booking_ref_last_status_time_desc"
          (ascending "booking_ref_id" ∷ descending "last_status_event_time" ∷ []) false none
      ∷ [];
}

abbrev pub booking_telegram_notifications_model : Table
booking_telegram_notifications_model = record {
  name = "booking_telegram_notifications";
  columns =
      column "id" big_integer key none
      ∷ column "booking_ref_id" big_integer not_null none
      ∷ column "user_id" uuid null none
      ∷ column "trigger_event" text_column null none
      ∷ column "source_event_id" text_column not_null none
      ∷ column "sent_at" date_time not_null none
      ∷ column "recipient_email" text_column null none
      ∷ column "created_at" date_time not_null (some "now()")
      ∷ [];
  constraints = unique "uq_btn_source_event_id" ("source_event_id" ∷ []) ∷ [];
  indexes =
      index "ix_btn_booking_ref_sent_at_desc"
        (ascending "booking_ref_id" ∷ descending "sent_at" ∷ []) false none
      ∷ [];
}

abbrev pub booking_email_status_history_model : Table
booking_email_status_history_model = record {
  name = "booking_email_status_history";
  columns =
      column "id" big_integer key none
      ∷ column "notification_ref_id" big_integer not_null none
      ∷ column "status" text_column null none
      ∷ column "status_event_time" date_time null none
      ∷ column "clicked_url" text_column null none
      ∷ column "source_event_id" text_column not_null none
      ∷ column "created_at" date_time not_null (some "now()")
      ∷ [];
  constraints = unique "uq_besh_source_event_id" ("source_event_id" ∷ []) ∷ [];
  indexes =
      index "ix_besh_notification_ref_status_time_desc"
        (ascending "notification_ref_id" ∷ descending "status_event_time" ∷ []) false none
      ∷ [];
}
