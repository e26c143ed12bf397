-- ===== src/Migrations/Versions/Early.antt =====
-- alembic/versions: 9bb09c895183_create_events_table.py, 5f1c2e9a8b1d_add_hash_to_events.py,
-- 3a791de67f88_change_booking_id_to_nullable.py.
use event_saver.Prelude.{true, false, none, some, List, [], ◌∷◌}
use event_saver.Migrations.Schema.{
  text_column, date_time, jsonb, ascending, descending, Table, Operation, create_table, drop_table,
  add_column, drop_column, alter_nullable, create_index, drop_index, execute, Migration,
}
use event_saver.Migrations.Versions.Terms.{key, null, not_null, column, index}

abbrev events_created : Table
events_created = record {
  name = "events";
  columns =
      column "payload" jsonb not_null none
      ∷ column "received_at" date_time not_null (some "now()")
      ∷ column "occurred_at" date_time not_null none
      ∷ column "source" text_column not_null none
      ∷ column "event_type" text_column not_null none
      ∷ column "booking_id" text_column not_null none
      ∷ column "event_id" text_column key none
      ∷ [];
  constraints = [];
  indexes = [];
}

abbrev pub events_upgrade : List Operation
events_upgrade =
    create_table events_created
    ∷ create_index "events" (
        index "ix_events_booking_id_occurred_at_desc"
          (ascending "booking_id" ∷ descending "occurred_at" ∷ []) false none)
    ∷ create_index "events" (
        index "ix_events_event_type_occurred_at_desc"
          (ascending "event_type" ∷ descending "occurred_at" ∷ []) false none)
    ∷ []

abbrev pub events_downgrade : List Operation
events_downgrade =
    drop_index "ix_events_event_type_occurred_at_desc" "events"
    ∷ drop_index "ix_events_booking_id_occurred_at_desc" "events"
    ∷ drop_table "events"
    ∷ []

abbrev pub events : Migration
events = record {
  revision = "9bb09c895183";
  down_revision = [];
  upgrade = events_upgrade;
  downgrade = events_downgrade;
}

abbrev pub hash_upgrade : List Operation
hash_upgrade =
    add_column "events" (column "hash" text_column null none)
    ∷ execute "update events set hash = md5(payload::text)"
    ∷ execute
        "with ranked as ( select ctid, row_number() over ( partition by booking_id, event_type, source, hash order by received_at asc, event_id asc ) as rn from events ) delete from events e using ranked r where e.ctid = r.ctid and r.rn > 1"
    ∷ alter_nullable "events" "hash" false
    ∷ create_index "events" (
        index "uq_events_booking_id_event_type_source_hash"
          (ascending "booking_id"
            ∷ ascending "event_type"
            ∷ ascending "source"
            ∷ ascending "hash"
            ∷ [])
          true none)
    ∷ []

abbrev pub hash_downgrade : List Operation
hash_downgrade =
    drop_index "uq_events_booking_id_event_type_source_hash" "events"
    ∷ drop_column "events" "hash"
    ∷ []

abbrev pub hash : Migration
hash = record {
  revision = "5f1c2e9a8b1d";
  down_revision = "9bb09c895183" ∷ [];
  upgrade = hash_upgrade;
  downgrade = hash_downgrade;
}

abbrev pub nullable_booking_id_upgrade : List Operation
nullable_booking_id_upgrade = alter_nullable "events" "booking_id" true ∷ []

abbrev pub nullable_booking_id_downgrade : List Operation
nullable_booking_id_downgrade = alter_nullable "events" "booking_id" false ∷ []

abbrev pub nullable_booking_id : Migration
nullable_booking_id = record {
  revision = "3a791de67f88";
  down_revision = "5f1c2e9a8b1d" ∷ [];
  upgrade = nullable_booking_id_upgrade;
  downgrade = nullable_booking_id_downgrade;
}
