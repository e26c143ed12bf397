-- ===== src/Migrations/Models/Events.antt =====
-- event_saver/db/models.py: the tables `booking_chat_events`, `booking_video_events`,
-- `booking_lifecycle_events`, `blacklist_entries` as they are declared.
use event_saver.Prelude.{false, none, some, [], ◌∷◌}
use event_saver.Migrations.Schema.{
  big_integer, text_column, date_time, jsonb, json, uuid, boolean, cascade, unique, foreign_key,
  ascending, descending, lower_of, Table,
}
use event_saver.Migrations.Versions.Terms.{key, null, not_null, column, index}

abbrev pub booking_chat_events_model : Table
booking_chat_events_model = record {
  name = "booking_chat_events";
  columns =
      column "id" big_integer key none
      ∷ column "booking_ref_id" big_integer not_null none
      ∷ column "raw_event_id" text_column not_null none
      ∷ column "provider" text_column not_null none
      ∷ column "chat_event_type" text_column not_null none
      ∷ column "message_id" text_column null none
      ∷ column "user_id" uuid null none
      ∷ column "is_read" boolean null none
      ∷ column "text_preview" text_column null none
      ∷ column "occurred_at" date_time not_null none
      ∷ column "updated_at" date_time not_null (some "now()")
      ∷ [];
  constraints = unique "uq_booking_chat_events_raw_event_id" ("raw_event_id" ∷ []) ∷ [];
  indexes =
      index "ix_bce_booking_ref_occurred_desc"
        (ascending "booking_ref_id" ∷ descending "occurred_at" ∷ []) false none
      ∷ index "ix_bce_booking_ref_type_occurred_desc"
          (ascending "booking_ref_id" ∷ ascending "chat_event_type" ∷ descending "occurred_at" ∷ [])
          false none
      ∷ [];
}

abbrev pub booking_video_events_model : Table
booking_video_events_model = record {
  name = "booking_video_events";
  columns =
      column "id" big_integer key none
      ∷ column "booking_ref_id" big_integer not_null none
      ∷ column "raw_event_id" text_column not_null none
      ∷ column "video_event_type" text_column not_null none
      ∷ column "participant_role" text_column null none
      ∷ column "user_id" uuid null none
      ∷ column "event_time" date_time null none
      ∷ column "payload" jsonb not_null (some "'{}'::jsonb")
      ∷ [];
  constraints = unique "uq_booking_video_events_raw_event_id" ("raw_event_id" ∷ []) ∷ [];
  indexes =
      index "ix_bve_booking_ref_event_time_desc"
        (ascending "booking_ref_id" ∷ descending "event_time" ∷ []) false none
      ∷ index "ix_bve_booking_ref_type_event_time_desc"
          (ascending "booking_ref_id" ∷ ascending "video_event_type" ∷ descending "event_time" ∷ [])
          false none
      ∷ [];
}

abbrev pub booking_lifecycle_events_model : Table
booking_lifecycle_events_model = record {
  name = "booking_lifecycle_events";
  columns =
      column "id" big_integer key none
      ∷ column "booking_ref_id" big_integer not_null none
      ∷ column "raw_event_id" text_column not_null none
      ∷ column "action" text_column not_null none
      ∷ column "organizer_user_id" uuid null none
      ∷ column "client_user_id" uuid null none
      ∷ column "details" json null none
      ∷ column "occurred_at" date_time not_null none
      ∷ column "created_at" date_time not_null (some "now()")
      ∷ [];
  constraints =
      foreign_key "booking_lifecycle_events_booking_ref_id_fkey" "booking_ref_id" "bookings" "id"
        cascade
      ∷ foreign_key "booking_lifecycle_events_raw_event_id_fkey" "raw_event_id" "events" "event_id"
          cascade
      ∷ unique "uq_booking_lifecycle_events_raw_event_id" ("raw_event_id" ∷ [])
      ∷ [];
  indexes =
      index "ix_ble_booking_ref_occurred_at"
        (ascending "booking_ref_id" ∷ ascending "occurred_at" ∷ []) false none
      ∷ [];
}

abbrev pub blacklist_entries_model : Table
blacklist_entries_model = record {
  name = "blacklist_entries";
  columns =
      column "id" uuid key (some "gen_random_uuid()")
      ∷ column "field" text_column not_null none
      ∷ column "value" text_column not_null none
      ∷ column "is_active" boolean not_null (some "true")
      ∷ column "active_from" date_time null none
      ∷ column "active_until" date_time null none
      ∷ column "comment" text_column null none
      ∷ column "created_by" text_column not_null none
      ∷ column "created_at" date_time not_null (some "now()")
      ∷ column "updated_at" date_time not_null (some "now()")
      ∷ [];
  constraints = [];
  indexes =
      index "ix_blacklist_entries_field_lower_value" (ascending "field" ∷ lower_of "value" ∷ [])
        false none
      ∷ [];
}
