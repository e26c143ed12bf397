-- ===== src/Migrations/Models/Bookings.antt =====
-- event_saver/db/models.py: the tables `events`, `bookings`, `booking_organizer_history`,
-- `booking_meeting_links` as they are declared.
use event_saver.Prelude.{true, false, none, some, [], ◌∷◌}
use event_saver.Migrations.Schema.{
  big_integer, text_column, date_time, jsonb, uuid, unique, ascending, descending, Table,
}
use event_saver.Migrations.Versions.Terms.{key, null, not_null, column, index}

abbrev pub events_model : Table
events_model = record {
  name = "events";
  columns =
      column "event_id" text_column key none
      ∷ column "booking_id" text_column null none
      ∷ column "event_type" text_column not_null none
      ∷ column "source" text_column not_null none
      ∷ column "hash" text_column not_null none
      ∷ column "occurred_at" date_time not_null none
      ∷ column "received_at" date_time not_null (some "now()")
      ∷ column "payload" jsonb not_null none
      ∷ column "idempotency_key" text_column null none
      ∷ column "trace_id" text_column null none
      ∷ column "span_id" text_column null none
      ∷ column "dataschema" text_column null none
      ∷ [];
  constraints = [];
  indexes =
      index "ix_events_booking_id_occurred_at_desc"
        (ascending "booking_id" ∷ descending "occurred_at" ∷ []) false none
      ∷ index "ix_events_event_type_occurred_at_desc"
          (ascending "event_type" ∷ descending "occurred_at" ∷ []) false none
      ∷ index "idx_events_idempotency" (ascending "idempotency_key" ∷ []) true
          (some "idempotency_key IS NOT NULL")
      ∷ index "idx_events_trace_id" (ascending "trace_id" ∷ []) false (some "trace_id IS NOT NULL")
      ∷ [];
}

abbrev pub bookings_model : Table
bookings_model = record {
  name = "bookings";
  columns =
      column "id" big_integer key none
      ∷ column "booking_uid" text_column not_null none
      ∷ column "first_seen_at" date_time not_null none
      ∷ column "last_seen_at" date_time not_null none
      ∷ column "start_time" date_time null none
      ∷ column "end_time" date_time null none
      ∷ column "current_status" text_column null none
      ∷ column "organizer_user_id" uuid null none
      ∷ column "client_user_id" uuid null none
      ∷ column "created_at" date_time not_null (some "now()")
      ∷ column "updated_at" date_time not_null (some "now()")
      ∷ [];
  constraints = unique "uq_bookings_booking_uid" ("booking_uid" ∷ []) ∷ [];
  indexes = index "ix_bookings_last_seen_desc" (descending "last_seen_at" ∷ []) false none ∷ [];
}

abbrev pub booking_organizer_history_model : Table
booking_organizer_history_model = record {
  name = "booking_organizer_history";
  columns =
      column "id" big_integer key none
      ∷ column "booking_ref_id" big_integer not_null none
      ∷ column "organizer_user_id" uuid not_null none
      ∷ column "source_event_id" text_column null none
      ∷ column "effective_from" date_time not_null none
      ∷ column "created_at" date_time not_null (some "now()")
      ∷ [];
  constraints = [];
  indexes =
      index "ix_boh_booking_effective_from_desc"
        (ascending "booking_ref_id" ∷ descending "effective_from" ∷ []) false none
      ∷ [];
}

abbrev pub booking_meeting_links_model : Table
booking_meeting_links_model = record {
  name = "booking_meeting_links";
  columns =
      column "id" big_integer key none
      ∷ column "booking_ref_id" big_integer not_null none
      ∷ column "user_id" uuid null none
      ∷ column "meeting_url" text_column not_null none
      ∷ column "source_event_id" text_column null none
      ∷ column "occurred_at" date_time not_null none
      ∷ column "created_at" date_time not_null (some "now()")
      ∷ column "updated_at" date_time not_null (some "now()")
      ∷ [];
  constraints = unique "uq_bml_booking_ref_id_user_id" ("booking_ref_id" ∷ "user_id" ∷ []) ∷ [];
  indexes = index "ix_bml_booking_ref_id" (ascending "booking_ref_id" ∷ []) false none ∷ [];
}
