-- ===== src/Migrations/Versions/Roles.antt =====
-- alembic/versions: 31c851c306e9_delete_recipient_role.py, 4c0ec66f1c56_delete_recipient_role.py,
-- 9db481e61abb_delete_recipient_role.py, 188a4a37868a_add_is_read.py,
-- b0e296cc4b17_add_updated_at_to_booking_chat_events.py,
-- afce66b11b80_add_start_time_and_end_time.py,
-- c5d7f9e3a1b2_add_tracing_and_idempotency_columns.py.
use event_saver.Prelude.{true, false, none, some, List, [], ◌∷◌}
use event_saver.Migrations.Schema.{
  text_column, date_time, boolean, unique, ascending, Operation, add_column, drop_column,
  create_index, drop_index, create_constraint, drop_constraint, Migration,
}
use event_saver.Migrations.Versions.Terms.{null, not_null, column, index}

abbrev pub email_role_upgrade : List Operation
email_role_upgrade = drop_column "booking_email_notifications" "recipient_role" ∷ []

abbrev pub email_role_downgrade : List Operation
email_role_downgrade =
    add_column "booking_email_notifications" (column "recipient_role" text_column null none) ∷ []

abbrev pub email_role : Migration
email_role = record {
  revision = "31c851c306e9";
  down_revision = "b2c4f8a1d9e3" ∷ [];
  upgrade = email_role_upgrade;
  downgrade = email_role_downgrade;
}

abbrev pub meeting_role_upgrade : List Operation
meeting_role_upgrade =
    drop_constraint "uq_bml_booking_ref_id_recipient_role" "booking_meeting_links"
    ∷ create_constraint "booking_meeting_links" (
        unique "uq_bml_booking_ref_id_participant_ref_id"
          ("booking_ref_id" ∷ "participant_ref_id" ∷ []))
    ∷ drop_column "booking_meeting_links" "recipient_role"
    ∷ []

abbrev pub meeting_role_downgrade : List Operation
meeting_role_downgrade =
    add_column "booking_meeting_links" (column "recipient_role" text_column not_null none)
    ∷ drop_constraint "uq_bml_booking_ref_id_participant_ref_id" "booking_meeting_links"
    ∷ create_constraint "booking_meeting_links"
        (unique "uq_bml_booking_ref_id_recipient_role" ("booking_ref_id" ∷ "recipient_role" ∷ []))
    ∷ []

abbrev pub meeting_role : Migration
meeting_role = record {
  revision = "4c0ec66f1c56";
  down_revision = "31c851c306e9" ∷ [];
  upgrade = meeting_role_upgrade;
  downgrade = meeting_role_downgrade;
}

abbrev pub telegram_role_upgrade : List Operation
telegram_role_upgrade = drop_column "booking_telegram_notifications" "recipient_role" ∷ []

abbrev pub telegram_role_downgrade : List Operation
telegram_role_downgrade =
    add_column "booking_telegram_notifications" (column "recipient_role" text_column null none) ∷ []

abbrev pub telegram_role : Migration
telegram_role = record {
  revision = "9db481e61abb";
  down_revision = "4c0ec66f1c56" ∷ [];
  upgrade = telegram_role_upgrade;
  downgrade = telegram_role_downgrade;
}

abbrev pub is_read_upgrade : List Operation
is_read_upgrade = add_column "booking_chat_events" (column "is_read" boolean null none) ∷ []

abbrev pub is_read_downgrade : List Operation
is_read_downgrade = drop_column "booking_chat_events" "is_read" ∷ []

abbrev pub is_read : Migration
is_read = record {
  revision = "188a4a37868a";
  down_revision = "9db481e61abb" ∷ [];
  upgrade = is_read_upgrade;
  downgrade = is_read_downgrade;
}

abbrev pub chat_updated_at_upgrade : List Operation
chat_updated_at_upgrade =
    add_column "booking_chat_events" (column "updated_at" date_time not_null (some "now()")) ∷ []

abbrev pub chat_updated_at_downgrade : List Operation
chat_updated_at_downgrade = drop_column "booking_chat_events" "updated_at" ∷ []

abbrev pub chat_updated_at : Migration
chat_updated_at = record {
  revision = "b0e296cc4b17";
  down_revision = "188a4a37868a" ∷ [];
  upgrade = chat_updated_at_upgrade;
  downgrade = chat_updated_at_downgrade;
}

abbrev pub booking_times_upgrade : List Operation
booking_times_upgrade =
    add_column "bookings" (column "start_time" date_time null none)
    ∷ add_column "bookings" (column "end_time" date_time null none)
    ∷ []

abbrev pub booking_times_downgrade : List Operation
booking_times_downgrade =
    drop_column "bookings" "end_time" ∷ drop_column "bookings" "start_time" ∷ []

abbrev pub booking_times : Migration
booking_times = record {
  revision = "afce66b11b80";
  down_revision = "b0e296cc4b17" ∷ [];
  upgrade = booking_times_upgrade;
  downgrade = booking_times_downgrade;
}

abbrev pub tracing_upgrade : List Operation
tracing_upgrade =
    add_column "events" (column "idempotency_key" text_column null none)
    ∷ add_column "events" (column "trace_id" text_column null none)
    ∷ add_column "events" (column "span_id" text_column null none)
    ∷ add_column "events" (column "dataschema" text_column null none)
    ∷ create_index "events" (
        index "idx_events_idempotency" (ascending "idempotency_key" ∷ []) true
          (some "idempotency_key IS NOT NULL"))
    ∷ create_index "events" (
        index "idx_events_trace_id" (ascending "trace_id" ∷ []) false (some "trace_id IS NOT NULL"))
    ∷ []

abbrev pub tracing_downgrade : List Operation
tracing_downgrade =
    drop_index "idx_events_trace_id" "events"
    ∷ drop_index "idx_events_idempotency" "events"
    ∷ drop_column "events" "dataschema"
    ∷ drop_column "events" "span_id"
    ∷ drop_column "events" "trace_id"
    ∷ drop_column "events" "idempotency_key"
    ∷ []

abbrev pub tracing : Migration
tracing = record {
  revision = "c5d7f9e3a1b2";
  down_revision = "afce66b11b80" ∷ [];
  upgrade = tracing_upgrade;
  downgrade = tracing_downgrade;
}
