-- ===== src/Migrations/Versions/Terms.antt =====
-- The calls `sa.Column(...)` and `op.create_index(...)` with their arguments in order.
use event_saver.Prelude.{String, Bool, true, false, Option, List}
use event_saver.Migrations.Schema.{ColumnType, Column, IndexKey, Index}

-- `primary_key=True`, or `nullable=...`
pub data Nullability : Type 0 where
  key null not_null : Nullability

abbrev pub column : String → ColumnType → Nullability → Option String → Column
column name type key server_default = record {
  name = name;
  type = type;
  primary_key = true;
  nullable = false;
  server_default = server_default;
}
column name type null server_default = record {
  name = name;
  type = type;
  primary_key = false;
  nullable = true;
  server_default = server_default;
}
column name type not_null server_default = record {
  name = name;
  type = type;
  primary_key = false;
  nullable = false;
  server_default = server_default;
}

abbrev pub index : String → List IndexKey → Bool → Option String → Index
index name keys unique postgresql_where = record {
  name = name;
  keys = keys;
  unique = unique;
  postgresql_where = postgresql_where;
}
