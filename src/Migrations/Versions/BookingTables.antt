-- ===== src/Migrations/Versions/BookingTables.antt =====
-- The tables that alembic/versions/b2c4f8a1d9e3_add_booking_projection_tables.py creates: the
-- bookings and what belongs to them.
use event_saver.Prelude.{none, some, [], ◌∷◌}
use event_saver.Migrations.Schema.{
  big_integer, text_column, date_time, set_null, cascade, restrict, unique, foreign_key, Table,
}
use event_saver.Migrations.Versions.Terms.{key, null, not_null, column}

abbrev pub participants_created : Table
participants_created = record {
  name = "participants";
  columns =
      column "updated_at" date_time not_null (some "now()")
      ∷ column "created_at" date_time not_null (some "now()")
      ∷ column "time_zone" text_column null none
      ∷ column "role" text_column null none
      ∷ column "email" text_column not_null none
      ∷ column "id" big_integer key none
      ∷ [];
  constraints = unique "uq_participants_email" ("email" ∷ []) ∷ [];
  indexes = [];
}

abbrev pub bookings_created : Table
bookings_created = record {
  name = "bookings";
  columns =
      column "updated_at" date_time not_null (some "now()")
      ∷ column "created_at" date_time not_null (some "now()")
      ∷ column "current_client_participant_ref_id" big_integer null none
      ∷ column "current_organizer_participant_ref_id" big_integer null none
      ∷ column "current_status" text_column null none
      ∷ column "last_seen_at" date_time not_null none
      ∷ column "first_seen_at" date_time not_null none
      ∷ column "booking_uid" text_column not_null none
      ∷ column "id" big_integer key none
      ∷ [];
  constraints =
      unique "uq_bookings_booking_uid" ("booking_uid" ∷ [])
      ∷ foreign_key "bookings_current_client_participant_ref_id_fkey"
          "current_client_participant_ref_id" "participants" "id" set_null
      ∷ foreign_key "bookings_current_organizer_participant_ref_id_fkey"
          "current_organizer_participant_ref_id" "participants" "id" set_null
      ∷ [];
  indexes = [];
}

abbrev pub booking_organizer_history_created : Table
booking_organizer_history_created = record {
  name = "booking_organizer_history";
  columns =
      column "created_at" date_time not_null (some "now()")
      ∷ column "effective_from" date_time not_null none
      ∷ column "source_event_id" text_column null none
      ∷ column "organizer_participant_ref_id" big_integer not_null none
      ∷ column "booking_ref_id" big_integer not_null none
      ∷ column "id" big_integer key none
      ∷ [];
  constraints =
      foreign_key "booking_organizer_history_source_event_id_fkey" "source_event_id" "events"
        "event_id" set_null
      ∷ foreign_key "booking_organizer_history_organizer_participant_ref_id_fkey"
          "organizer_participant_ref_id" "participants" "id" restrict
      ∷ foreign_key "booking_organizer_history_booking_ref_id_fkey" "booking_ref_id" "bookings" "id"
          cascade
      ∷ [];
  indexes = [];
}

abbrev pub booking_meeting_links_created : Table
booking_meeting_links_created = record {
  name = "booking_meeting_links";
  columns =
      column "updated_at" date_time not_null (some "now()")
      ∷ column "created_at" date_time not_null (some "now()")
      ∷ column "occurred_at" date_time not_null none
      ∷ column "source_event_id" text_column null none
      ∷ column "meeting_url" text_column not_null none
      ∷ column "participant_ref_id" big_integer not_null none
      ∷ column "recipient_role" text_column not_null none
      ∷ column "booking_ref_id" big_integer not_null none
      ∷ column "id" big_integer key none
      ∷ [];
  constraints =
      unique "uq_bml_booking_ref_id_recipient_role" ("booking_ref_id" ∷ "recipient_role" ∷ [])
      ∷ foreign_key "booking_meeting_links_source_event_id_fkey" "source_event_id" "events"
          "event_id" set_null
      ∷ foreign_key "booking_meeting_links_participant_ref_id_fkey" "participant_ref_id"
          "participants" "id" restrict
      ∷ foreign_key "booking_meeting_links_booking_ref_id_fkey" "booking_ref_id" "bookings" "id"
          cascade
      ∷ [];
  indexes = [];
}
