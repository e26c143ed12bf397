-- ===== src/Migrations/Versions/Recent.antt =====
-- alembic/versions: ca7326cf2ec5_add_booking_lifecycle_events.py,
-- 2af87f34c2ff_merge_event_admin_and_lifecycle_heads.py,
-- a1b2c3d4e5f6_add_recipient_email_to_notifications.py,
-- 16939138e5a7_merge_recipient_email_migration.py, a9d4c1f0b7e2_drop_legacy_event_dedup_index.py.
use event_saver.Prelude.{true, false, none, some, List, [], ◌∷◌}
use event_saver.Migrations.Schema.{
  big_integer, text_column, date_time, json, uuid, cascade, unique, foreign_key, ascending, Table,
  Operation, create_table, drop_table, add_column, drop_column, create_index, drop_index, Migration,
}
use event_saver.Migrations.Versions.Terms.{key, null, not_null, column, index}

abbrev booking_lifecycle_events_created : Table
booking_lifecycle_events_created = record {
  name = "booking_lifecycle_events";
  columns =
      column "created_at" date_time not_null (some "now()")
      ∷ column "occurred_at" date_time not_null none
      ∷ column "details" json null none
      ∷ column "client_user_id" uuid null none
      ∷ column "organizer_user_id" uuid null none
      ∷ column "action" text_column not_null none
      ∷ column "raw_event_id" text_column not_null none
      ∷ column "booking_ref_id" big_integer not_null none
      ∷ column "id" big_integer key none
      ∷ [];
  constraints =
      unique "uq_booking_lifecycle_events_raw_event_id" ("raw_event_id" ∷ [])
      ∷ foreign_key "booking_lifecycle_events_raw_event_id_fkey" "raw_event_id" "events" "event_id"
          cascade
      ∷ foreign_key "booking_lifecycle_events_booking_ref_id_fkey" "booking_ref_id" "bookings" "id"
          cascade
      ∷ [];
  indexes = [];
}

abbrev pub lifecycle_upgrade : List Operation
lifecycle_upgrade =
    create_table booking_lifecycle_events_created
    ∷ create_index "booking_lifecycle_events" (
        index "ix_ble_booking_ref_occurred_at"
          (ascending "booking_ref_id" ∷ ascending "occurred_at" ∷ []) false none)
    ∷ []

abbrev pub lifecycle_downgrade : List Operation
lifecycle_downgrade =
    drop_index "ix_ble_booking_ref_occurred_at" "booking_lifecycle_events"
    ∷ drop_table "booking_lifecycle_events"
    ∷ []

abbrev pub lifecycle : Migration
lifecycle = record {
  revision = "ca7326cf2ec5";
  down_revision = "188a4a37868a" ∷ [];
  upgrade = lifecycle_upgrade;
  downgrade = lifecycle_downgrade;
}

abbrev pub merge_lifecycle_upgrade : List Operation
merge_lifecycle_upgrade = []

abbrev pub merge_lifecycle_downgrade : List Operation
merge_lifecycle_downgrade = []

abbrev pub merge_lifecycle : Migration
merge_lifecycle = record {
  revision = "2af87f34c2ff";
  down_revision = "28bba7523965" ∷ "ca7326cf2ec5" ∷ [];
  upgrade = merge_lifecycle_upgrade;
  downgrade = merge_lifecycle_downgrade;
}

abbrev pub recipient_email_upgrade : List Operation
recipient_email_upgrade =
    add_column "booking_email_notifications" (column "recipient_email" text_column null none)
    ∷ add_column "booking_telegram_notifications" (column "recipient_email" text_column null none)
    ∷ []

abbrev pub recipient_email_downgrade : List Operation
recipient_email_downgrade =
    drop_column "booking_telegram_notifications" "recipient_email"
    ∷ drop_column "booking_email_notifications" "recipient_email"
    ∷ []

abbrev pub recipient_email : Migration
recipient_email = record {
  revision = "a1b2c3d4e5f6";
  down_revision = "28bba7523965" ∷ [];
  upgrade = recipient_email_upgrade;
  downgrade = recipient_email_downgrade;
}

abbrev pub merge_recipient_email_upgrade : List Operation
merge_recipient_email_upgrade = []

abbrev pub merge_recipient_email_downgrade : List Operation
merge_recipient_email_downgrade = []

abbrev pub merge_recipient_email : Migration
merge_recipient_email = record {
  revision = "16939138e5a7";
  down_revision = "2af87f34c2ff" ∷ "a1b2c3d4e5f6" ∷ [];
  upgrade = merge_recipient_email_upgrade;
  downgrade = merge_recipient_email_downgrade;
}

abbrev pub drop_dedup_index_upgrade : List Operation
drop_dedup_index_upgrade = drop_index "uq_events_booking_id_event_type_source_hash" "events" ∷ []

abbrev pub drop_dedup_index_downgrade : List Operation
drop_dedup_index_downgrade =
    create_index "events" (
      index "uq_events_booking_id_event_type_source_hash"
        (ascending "booking_id"
          ∷ ascending "event_type"
          ∷ ascending "source"
          ∷ ascending "hash"
          ∷ [])
        true none)
    ∷ []

abbrev pub drop_dedup_index : Migration
drop_dedup_index = record {
  revision = "a9d4c1f0b7e2";
  down_revision = "16939138e5a7" ∷ [];
  upgrade = drop_dedup_index_upgrade;
  downgrade = drop_dedup_index_downgrade;
}
