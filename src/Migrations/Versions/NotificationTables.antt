-- ===== src/Migrations/Versions/NotificationTables.antt =====
-- The tables that alembic/versions/b2c4f8a1d9e3_add_booking_projection_tables.py creates: the
-- notifications, the chat and the video events.
use event_saver.Prelude.{none, some, [], ◌∷◌}
use event_saver.Migrations.Schema.{
  big_integer, text_column, date_time, jsonb, set_null, cascade, unique, foreign_key, Table,
}
use event_saver.Migrations.Versions.Terms.{key, null, not_null, column}

abbrev pub booking_email_notifications_created : Table
booking_email_notifications_created = record {
  name = "booking_email_notifications";
  columns =
      column "updated_at" date_time not_null (some "now()")
      ∷ column "created_at" date_time not_null (some "now()")
      ∷ column "last_clicked_url" text_column null none
      ∷ column "last_status_event_id" text_column null none
      ∷ column "last_status_event_time" date_time null none
      ∷ column "last_status" text_column null none
      ∷ column "sent_at" date_time null none
      ∷ column "sent_event_id" text_column null none
      ∷ column "job_id" text_column not_null none
      ∷ column "trigger_event" text_column null none
      ∷ column "recipient_role" text_column null none
      ∷ column "participant_ref_id" big_integer null none
      ∷ column "booking_ref_id" big_integer not_null none
      ∷ column "id" big_integer key none
      ∷ [];
  constraints =
      unique "uq_booking_email_notifications_job_id" ("job_id" ∷ [])
      ∷ foreign_key "booking_email_notifications_last_status_event_id_fkey" "last_status_event_id"
          "events" "event_id" set_null
      ∷ foreign_key "booking_email_notifications_sent_event_id_fkey" "sent_event_id" "events"
          "event_id" set_null
      ∷ foreign_key "booking_email_notifications_participant_ref_id_fkey" "participant_ref_id"
          "participants" "id" set_null
      ∷ foreign_key "booking_email_notifications_booking_ref_id_fkey" "booking_ref_id" "bookings"
          "id" cascade
      ∷ [];
  indexes = [];
}

abbrev pub booking_email_status_history_created : Table
booking_email_status_history_created = record {
  name = "booking_email_status_history";
  columns =
      column "created_at" date_time not_null (some "now()")
      ∷ column "source_event_id" text_column not_null none
      ∷ column "clicked_url" text_column null none
      ∷ column "status_event_time" date_time null none
      ∷ column "status" text_column null none
      ∷ column "notification_ref_id" big_integer not_null none
      ∷ column "id" big_integer key none
      ∷ [];
  constraints =
      unique "uq_besh_source_event_id" ("source_event_id" ∷ [])
      ∷ foreign_key "booking_email_status_history_source_event_id_fkey" "source_event_id" "events"
          "event_id" cascade
      ∷ foreign_key "booking_email_status_history_notification_ref_id_fkey" "notification_ref_id"
          "booking_email_notifications" "id" cascade
      ∷ [];
  indexes = [];
}

abbrev pub booking_telegram_notifications_created : Table
booking_telegram_notifications_created = record {
  name = "booking_telegram_notifications";
  columns =
      column "created_at" date_time not_null (some "now()")
      ∷ column "sent_at" date_time not_null none
      ∷ column "source_event_id" text_column not_null none
      ∷ column "trigger_event" text_column null none
      ∷ column "recipient_role" text_column null none
      ∷ column "participant_ref_id" big_integer null none
      ∷ column "booking_ref_id" big_integer not_null none
      ∷ column "id" big_integer key none
      ∷ [];
  constraints =
      unique "uq_btn_source_event_id" ("source_event_id" ∷ [])
      ∷ foreign_key "booking_telegram_notifications_source_event_id_fkey" "source_event_id" "events"
          "event_id" cascade
      ∷ foreign_key "booking_telegram_notifications_participant_ref_id_fkey" "participant_ref_id"
          "participants" "id" set_null
      ∷ foreign_key "booking_telegram_notifications_booking_ref_id_fkey" "booking_ref_id" "bookings"
          "id" cascade
      ∷ [];
  indexes = [];
}

abbrev pub booking_chat_events_created : Table
booking_chat_events_created = record {
  name = "booking_chat_events";
  columns =
      column "occurred_at" date_time not_null none
      ∷ column "text_preview" text_column null none
      ∷ column "participant_ref_id" big_integer null none
      ∷ column "message_id" text_column null none
      ∷ column "chat_event_type" text_column not_null none
      ∷ column "provider" text_column not_null none
      ∷ column "raw_event_id" text_column not_null none
      ∷ column "booking_ref_id" big_integer not_null none
      ∷ column "id" big_integer key none
      ∷ [];
  constraints =
      unique "uq_booking_chat_events_raw_event_id" ("raw_event_id" ∷ [])
      ∷ foreign_key "booking_chat_events_raw_event_id_fkey" "raw_event_id" "events" "event_id"
          cascade
      ∷ foreign_key "booking_chat_events_participant_ref_id_fkey" "participant_ref_id"
          "participants" "id" set_null
      ∷ foreign_key "booking_chat_events_booking_ref_id_fkey" "booking_ref_id" "bookings" "id"
          cascade
      ∷ [];
  indexes = [];
}

abbrev pub booking_video_events_created : Table
booking_video_events_created = record {
  name = "booking_video_events";
  columns =
      column "payload" jsonb not_null (some "'{}'::jsonb")
      ∷ column "event_time" date_time null none
      ∷ column "participant_ref_id" big_integer null none
      ∷ column "participant_role" text_column null none
      ∷ column "video_event_type" text_column not_null none
      ∷ column "raw_event_id" text_column not_null none
      ∷ column "booking_ref_id" big_integer not_null none
      ∷ column "id" big_integer key none
      ∷ [];
  constraints =
      unique "uq_booking_video_events_raw_event_id" ("raw_event_id" ∷ [])
      ∷ foreign_key "booking_video_events_raw_event_id_fkey" "raw_event_id" "events" "event_id"
          cascade
      ∷ foreign_key "booking_video_events_participant_ref_id_fkey" "participant_ref_id"
          "participants" "id" set_null
      ∷ foreign_key "booking_video_events_booking_ref_id_fkey" "booking_ref_id" "bookings" "id"
          cascade
      ∷ [];
  indexes = [];
}
