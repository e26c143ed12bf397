-- ===== src/Migrations/Versions/Accounts.antt =====
-- alembic/versions: ea_0001_create_admin_users.py,
-- 89ec847d44a9_merge_event_admin_and_main_heads.py, f3a9b2c1d4e5_add_user_id_to_participants.py,
-- d8f2a6c41b39_create_blacklist_entries.py.
use event_saver.Prelude.{false, none, some, List, [], ◌∷◌}
use event_saver.Migrations.Schema.{
  text_column, date_time, uuid, boolean, unique, ascending, lower_of, Table, Operation,
  create_table, drop_table, add_column, drop_column, create_index, drop_index, create_constraint,
  drop_constraint, Migration,
}
use event_saver.Migrations.Versions.Terms.{key, null, not_null, column, index}

abbrev admin_users_created : Table
admin_users_created = record {
  name = "admin_users";
  columns =
      column "updated_at" date_time not_null (some "now()")
      ∷ column "created_at" date_time not_null (some "now()")
      ∷ column "is_active" boolean not_null (some "true")
      ∷ column "role" text_column not_null (some "'user'")
      ∷ column "totp_secret" text_column not_null none
      ∷ column "hashed_password" text_column not_null none
      ∷ column "email" text_column not_null none
      ∷ column "id" uuid key (some "gen_random_uuid()")
      ∷ [];
  constraints = unique "uq_admin_users_email" ("email" ∷ []) ∷ [];
  indexes = [];
}

abbrev pub admin_users_upgrade : List Operation
admin_users_upgrade =
    create_table admin_users_created
    ∷ create_index "admin_users" (index "ix_admin_users_email" (ascending "email" ∷ []) false none)
    ∷ []

abbrev pub admin_users_downgrade : List Operation
admin_users_downgrade =
    drop_index "ix_admin_users_email" "admin_users" ∷ drop_table "admin_users" ∷ []

abbrev pub admin_users : Migration
admin_users = record {
  revision = "ea_0001";
  down_revision = [];
  upgrade = admin_users_upgrade;
  downgrade = admin_users_downgrade;
}

abbrev pub merge_admin_upgrade : List Operation
merge_admin_upgrade = []

abbrev pub merge_admin_downgrade : List Operation
merge_admin_downgrade = []

abbrev pub merge_admin : Migration
merge_admin = record {
  revision = "89ec847d44a9";
  down_revision = "c5d7f9e3a1b2" ∷ "ea_0001" ∷ [];
  upgrade = merge_admin_upgrade;
  downgrade = merge_admin_downgrade;
}

abbrev pub participant_user_id_upgrade : List Operation
participant_user_id_upgrade =
    add_column "participants" (column "user_id" uuid null none)
    ∷ drop_constraint "uq_participants_email" "participants"
    ∷ drop_index "ix_participants_role" "participants"
    ∷ create_constraint "participants" (unique "uq_participants_email_role" ("email" ∷ "role" ∷ []))
    ∷ create_constraint "participants" (unique "uq_participants_user_id" ("user_id" ∷ []))
    ∷ create_index "participants"
        (index "ix_participants_user_id" (ascending "user_id" ∷ []) false none)
    ∷ []

abbrev pub participant_user_id_downgrade : List Operation
participant_user_id_downgrade =
    drop_index "ix_participants_user_id" "participants"
    ∷ drop_constraint "uq_participants_user_id" "participants"
    ∷ drop_constraint "uq_participants_email_role" "participants"
    ∷ create_index "participants" (index "ix_participants_role" (ascending "role" ∷ []) false none)
    ∷ create_constraint "participants" (unique "uq_participants_email" ("email" ∷ []))
    ∷ drop_column "participants" "user_id"
    ∷ []

abbrev pub participant_user_id : Migration
participant_user_id = record {
  revision = "f3a9b2c1d4e5";
  down_revision = "89ec847d44a9" ∷ [];
  upgrade = participant_user_id_upgrade;
  downgrade = participant_user_id_downgrade;
}

abbrev blacklist_entries_created : Table
blacklist_entries_created = record {
  name = "blacklist_entries";
  columns =
      column "updated_at" date_time not_null (some "now()")
      ∷ column "created_at" date_time not_null (some "now()")
      ∷ column "created_by" text_column not_null none
      ∷ column "comment" text_column null none
      ∷ column "active_until" date_time null none
      ∷ column "active_from" date_time null none
      ∷ column "is_active" boolean not_null (some "true")
      ∷ column "value" text_column not_null none
      ∷ column "field" text_column not_null none
      ∷ column "id" uuid key (some "gen_random_uuid()")
      ∷ [];
  constraints = [];
  indexes = [];
}

abbrev pub blacklist_upgrade : List Operation
blacklist_upgrade =
    create_table blacklist_entries_created
    ∷ create_index "blacklist_entries" (
        index "ix_blacklist_entries_field_lower_value" (ascending "field" ∷ lower_of "value" ∷ [])
          false none)
    ∷ []

abbrev pub blacklist_downgrade : List Operation
blacklist_downgrade =
    drop_index "ix_blacklist_entries_field_lower_value" "blacklist_entries"
    ∷ drop_table "blacklist_entries"
    ∷ []

abbrev pub blacklist : Migration
blacklist = record {
  revision = "d8f2a6c41b39";
  down_revision = "a9d4c1f0b7e2" ∷ [];
  upgrade = blacklist_upgrade;
  downgrade = blacklist_downgrade;
}
