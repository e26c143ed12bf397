-- ===== src/Migrations/Versions/Projections.antt =====
-- alembic/versions: b2c4f8a1d9e3_add_booking_projection_tables.py.
use event_saver.Prelude.{false, none, List, [], ◌∷◌}
use event_saver.Migrations.Schema.{
  ascending, descending, Operation, create_table, drop_table, create_index, drop_index, Migration,
}
use event_saver.Migrations.Versions.Terms.{index}
use event_saver.Migrations.Versions.BookingTables.{
  participants_created, bookings_created, booking_organizer_history_created,
  booking_meeting_links_created,
}
use event_saver.Migrations.Versions.NotificationTables.{
  booking_email_notifications_created, booking_email_status_history_created,
  booking_telegram_notifications_created, booking_chat_events_created, booking_video_events_created,
}

abbrev pub projections_upgrade : List Operation
projections_upgrade =
    create_table participants_created
    ∷ create_index "participants" (index "ix_participants_role" (ascending "role" ∷ []) false none)
    ∷ create_table bookings_created
    ∷ create_index "bookings"
        (index "ix_bookings_last_seen_desc" (descending "last_seen_at" ∷ []) false none)
    ∷ create_table booking_organizer_history_created
    ∷ create_index "booking_organizer_history" (
        index "ix_boh_booking_effective_from_desc"
          (ascending "booking_ref_id" ∷ descending "effective_from" ∷ []) false none)
    ∷ create_table booking_meeting_links_created
    ∷ create_index "booking_meeting_links"
        (index "ix_bml_booking_ref_id" (ascending "booking_ref_id" ∷ []) false none)
    ∷ create_table booking_email_notifications_created
    ∷ create_index "booking_email_notifications"
        (index "ix_ben_booking_ref_id" (ascending "booking_ref_id" ∷ []) false none)
    ∷ create_index "booking_email_notifications" (
        index "ix_ben_booking_ref_last_status_time_desc"
          (ascending "booking_ref_id" ∷ descending "last_status_event_time" ∷ []) false none)
    ∷ create_table booking_email_status_history_created
    ∷ create_index "booking_email_status_history" (
        index "ix_besh_notification_ref_status_time_desc"
          (ascending "notification_ref_id" ∷ descending "status_event_time" ∷ []) false none)
    ∷ create_table booking_telegram_notifications_created
    ∷ create_index "booking_telegram_notifications" (
        index "ix_btn_booking_ref_sent_at_desc"
          (ascending "booking_ref_id" ∷ descending "sent_at" ∷ []) false none)
    ∷ create_table booking_chat_events_created
    ∷ create_index "booking_chat_events" (
        index "ix_bce_booking_ref_occurred_desc"
          (ascending "booking_ref_id" ∷ descending "occurred_at" ∷ []) false none)
    ∷ create_index "booking_chat_events" (
        index "ix_bce_booking_ref_type_occurred_desc"
          (ascending "booking_ref_id" ∷ ascending "chat_event_type" ∷ descending "occurred_at" ∷ [])
          false none)
    ∷ create_table booking_video_events_created
    ∷ create_index "booking_video_events" (
        index "ix_bve_booking_ref_event_time_desc"
          (ascending "booking_ref_id" ∷ descending "event_time" ∷ []) false none)
    ∷ create_index "booking_video_events" (
        index "ix_bve_booking_ref_type_event_time_desc"
          (ascending "booking_ref_id" ∷ ascending "video_event_type" ∷ descending "event_time" ∷ [])
          false none)
    ∷ []

abbrev pub projections_downgrade : List Operation
projections_downgrade =
    drop_index "ix_bve_booking_ref_type_event_time_desc" "booking_video_events"
    ∷ drop_index "ix_bve_booking_ref_event_time_desc" "booking_video_events"
    ∷ drop_table "booking_video_events"
    ∷ drop_index "ix_bce_booking_ref_type_occurred_desc" "booking_chat_events"
    ∷ drop_index "ix_bce_booking_ref_occurred_desc" "booking_chat_events"
    ∷ drop_table "booking_chat_events"
    ∷ drop_index "ix_besh_notification_ref_status_time_desc" "booking_email_status_history"
    ∷ drop_table "booking_email_status_history"
    ∷ drop_index "ix_btn_booking_ref_sent_at_desc" "booking_telegram_notifications"
    ∷ drop_table "booking_telegram_notifications"
    ∷ drop_index "ix_ben_booking_ref_last_status_time_desc" "booking_email_notifications"
    ∷ drop_index "ix_ben_booking_ref_id" "booking_email_notifications"
    ∷ drop_table "booking_email_notifications"
    ∷ drop_index "ix_bml_booking_ref_id" "booking_meeting_links"
    ∷ drop_table "booking_meeting_links"
    ∷ drop_index "ix_boh_booking_effective_from_desc" "booking_organizer_history"
    ∷ drop_table "booking_organizer_history"
    ∷ drop_index "ix_bookings_last_seen_desc" "bookings"
    ∷ drop_table "bookings"
    ∷ drop_index "ix_participants_role" "participants"
    ∷ drop_table "participants"
    ∷ []

abbrev pub projections : Migration
projections = record {
  revision = "b2c4f8a1d9e3";
  down_revision = "3a791de67f88" ∷ [];
  upgrade = projections_upgrade;
  downgrade = projections_downgrade;
}
