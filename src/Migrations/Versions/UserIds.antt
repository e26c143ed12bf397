-- ===== src/Migrations/Versions/UserIds.antt =====
-- alembic/versions: 28bba7523965_remove_participants_add_uuid_columns.py.
use event_saver.Prelude.{false, none, some, List, [], ◌∷◌}
use event_saver.Migrations.Schema.{
  big_integer, text_column, date_time, uuid, set_null, restrict, unique, foreign_key, ascending,
  Table, Operation, create_table, drop_table, add_column, drop_column, create_index, drop_index,
  create_constraint, drop_constraint, Migration,
}
use event_saver.Migrations.Versions.Terms.{key, null, not_null, column, index}

abbrev participants_again_created : Table
participants_again_created = record {
  name = "participants";
  columns =
      column "updated_at" date_time not_null (some "now()")
      ∷ column "created_at" date_time not_null (some "now()")
      ∷ column "time_zone" text_column null none
      ∷ column "role" text_column null none
      ∷ column "email" text_column not_null none
      ∷ column "user_id" uuid null none
      ∷ column "id" big_integer key none
      ∷ [];
  constraints =
      unique "uq_participants_user_id" ("user_id" ∷ [])
      ∷ unique "uq_participants_email_role" ("email" ∷ "role" ∷ [])
      ∷ [];
  indexes = [];
}

abbrev pub user_ids_upgrade : List Operation
user_ids_upgrade =
    drop_constraint "bookings_current_organizer_participant_ref_id_fkey" "bookings"
    ∷ drop_constraint "bookings_current_client_participant_ref_id_fkey" "bookings"
    ∷ drop_constraint "booking_organizer_history_organizer_participant_ref_id_fkey"
        "booking_organizer_history"
    ∷ drop_constraint "booking_meeting_links_participant_ref_id_fkey" "booking_meeting_links"
    ∷ drop_constraint "booking_email_notifications_participant_ref_id_fkey"
        "booking_email_notifications"
    ∷ drop_constraint "booking_telegram_notifications_participant_ref_id_fkey"
        "booking_telegram_notifications"
    ∷ drop_constraint "booking_chat_events_participant_ref_id_fkey" "booking_chat_events"
    ∷ drop_constraint "booking_video_events_participant_ref_id_fkey" "booking_video_events"
    ∷ drop_column "bookings" "current_organizer_participant_ref_id"
    ∷ drop_column "bookings" "current_client_participant_ref_id"
    ∷ drop_column "booking_organizer_history" "organizer_participant_ref_id"
    ∷ drop_constraint "uq_bml_booking_ref_id_participant_ref_id" "booking_meeting_links"
    ∷ drop_column "booking_meeting_links" "participant_ref_id"
    ∷ drop_column "booking_email_notifications" "participant_ref_id"
    ∷ drop_column "booking_telegram_notifications" "participant_ref_id"
    ∷ drop_column "booking_chat_events" "participant_ref_id"
    ∷ drop_column "booking_video_events" "participant_ref_id"
    ∷ add_column "bookings" (column "organizer_user_id" uuid null none)
    ∷ add_column "bookings" (column "client_user_id" uuid null none)
    ∷ add_column "booking_organizer_history" (column "organizer_user_id" uuid null none)
    ∷ add_column "booking_meeting_links" (column "user_id" uuid null none)
    ∷ create_constraint "booking_meeting_links"
        (unique "uq_bml_booking_ref_id_user_id" ("booking_ref_id" ∷ "user_id" ∷ []))
    ∷ add_column "booking_email_notifications" (column "user_id" uuid null none)
    ∷ add_column "booking_telegram_notifications" (column "user_id" uuid null none)
    ∷ add_column "booking_chat_events" (column "user_id" uuid null none)
    ∷ add_column "booking_video_events" (column "user_id" uuid null none)
    ∷ drop_index "ix_participants_user_id" "participants"
    ∷ drop_table "participants"
    ∷ []

abbrev pub user_ids_downgrade : List Operation
user_ids_downgrade =
    create_table participants_again_created
    ∷ create_index "participants"
        (index "ix_participants_user_id" (ascending "user_id" ∷ []) false none)
    ∷ drop_column "bookings" "organizer_user_id"
    ∷ drop_column "bookings" "client_user_id"
    ∷ drop_column "booking_organizer_history" "organizer_user_id"
    ∷ drop_constraint "uq_bml_booking_ref_id_user_id" "booking_meeting_links"
    ∷ drop_column "booking_meeting_links" "user_id"
    ∷ drop_column "booking_email_notifications" "user_id"
    ∷ drop_column "booking_telegram_notifications" "user_id"
    ∷ drop_column "booking_chat_events" "user_id"
    ∷ drop_column "booking_video_events" "user_id"
    ∷ add_column "bookings" (column "current_organizer_participant_ref_id" big_integer null none)
    ∷ add_column "bookings" (column "current_client_participant_ref_id" big_integer null none)
    ∷ add_column "booking_organizer_history"
        (column "organizer_participant_ref_id" big_integer null none)
    ∷ add_column "booking_meeting_links" (column "participant_ref_id" big_integer null none)
    ∷ add_column "booking_email_notifications" (column "participant_ref_id" big_integer null none)
    ∷ add_column "booking_telegram_notifications"
        (column "participant_ref_id" big_integer null none)
    ∷ add_column "booking_chat_events" (column "participant_ref_id" big_integer null none)
    ∷ add_column "booking_video_events" (column "participant_ref_id" big_integer null none)
    ∷ create_constraint "bookings" (
        foreign_key "bookings_current_organizer_participant_ref_id_fkey"
          "current_organizer_participant_ref_id" "participants" "id" set_null)
    ∷ create_constraint "bookings" (
        foreign_key "bookings_current_client_participant_ref_id_fkey"
          "current_client_participant_ref_id" "participants" "id" set_null)
    ∷ create_constraint "booking_organizer_history" (
        foreign_key "booking_organizer_history_organizer_participant_ref_id_fkey"
          "organizer_participant_ref_id" "participants" "id" restrict)
    ∷ create_constraint "booking_meeting_links" (
        foreign_key "booking_meeting_links_participant_ref_id_fkey" "participant_ref_id"
          "participants" "id" restrict)
    ∷ create_constraint "booking_email_notifications" (
        foreign_key "booking_email_notifications_participant_ref_id_fkey" "participant_ref_id"
          "participants" "id" set_null)
    ∷ create_constraint "booking_telegram_notifications" (
        foreign_key "booking_telegram_notifications_participant_ref_id_fkey" "participant_ref_id"
          "participants" "id" set_null)
    ∷ create_constraint "booking_chat_events" (
        foreign_key "booking_chat_events_participant_ref_id_fkey" "participant_ref_id"
          "participants" "id" set_null)
    ∷ create_constraint "booking_video_events" (
        foreign_key "booking_video_events_participant_ref_id_fkey" "participant_ref_id"
          "participants" "id" set_null)
    ∷ create_constraint "booking_meeting_links" (
        unique "uq_bml_booking_ref_id_participant_ref_id"
          ("booking_ref_id" ∷ "participant_ref_id" ∷ []))
    ∷ []

abbrev pub user_ids : Migration
user_ids = record {
  revision = "28bba7523965";
  down_revision = "f3a9b2c1d4e5" ∷ [];
  upgrade = user_ids_upgrade;
  downgrade = user_ids_downgrade;
}
