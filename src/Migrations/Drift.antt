-- ===== src/Migrations/Drift.antt =====
-- Where a schema and the declared tables differ, as Alembic's autogenerate finds it, and by foreign
-- keys, constraints and indexes with all their parts.
use event_saver.Prelude.{
  ℕ, String, Bool, true, false, not, ◌&&◌, Option, none, some, List, [], ◌∷◌, ◌++◌, any, find,
  nat_eq, ◌==◌, if◌then◌else◌,
}
use event_saver.Migrations.Schema.{
  ColumnType, big_integer, text_column, date_time, jsonb, json, uuid, boolean, Column, OnDelete,
  set_null, cascade, restrict, Constraint, unique, foreign_key, IndexKey, ascending, descending,
  lower_of, Index, Table, Schema, constraint_name,
}

-- By the name of the table and of what is in it.
pub data Difference : Type 0 where
  missing_table extra_table : String → Difference
  missing_column extra_column : String → String → Difference
  missing_constraint extra_constraint : String → String → Difference
  missing_index extra_index : String → String → Difference

abbrev bool_eq : Bool → Bool → Bool
bool_eq true b = b
bool_eq false b = not b

abbrev type_code : ColumnType → ℕ
type_code big_integer = 0
type_code text_column = 1
type_code date_time = 2
type_code jsonb = 3
type_code json = 4
type_code uuid = 5
type_code boolean = 6

abbrev text_option_eq : Option String → Option String → Bool
text_option_eq none none = true
text_option_eq (some a) (some b) = a == b
text_option_eq _ _ = false

abbrev texts_eq : List String → List String → Bool
texts_eq [] [] = true
texts_eq (a ∷ xs) (b ∷ ys) = a == b && texts_eq xs ys
texts_eq _ _ = false

abbrev column_eq : Column → Column → Bool
column_eq a b =
    a.name == b.name
    && nat_eq (type_code a.type) (type_code b.type)
    && bool_eq a.primary_key b.primary_key
    && bool_eq a.nullable b.nullable
    && text_option_eq a.server_default b.server_default

abbrev on_delete_code : OnDelete → ℕ
on_delete_code set_null = 0
on_delete_code cascade = 1
on_delete_code restrict = 2

abbrev constraint_eq : Constraint → Constraint → Bool
constraint_eq (unique n cs) (unique m ds) = n == m && texts_eq cs ds
constraint_eq (foreign_key n c t d o) (foreign_key m e u f p) =
    n == m && c == e && t == u && d == f && nat_eq (on_delete_code o) (on_delete_code p)
constraint_eq _ _ = false

abbrev key_eq : IndexKey → IndexKey → Bool
key_eq (ascending a) (ascending b) = a == b
key_eq (descending a) (descending b) = a == b
key_eq (lower_of a) (lower_of b) = a == b
key_eq _ _ = false

abbrev keys_eq : List IndexKey → List IndexKey → Bool
keys_eq [] [] = true
keys_eq (a ∷ xs) (b ∷ ys) = key_eq a b && keys_eq xs ys
keys_eq _ _ = false

abbrev index_eq : Index → Index → Bool
index_eq a b =
    a.name == b.name
    && keys_eq a.keys b.keys
    && bool_eq a.unique b.unique
    && text_option_eq a.postgresql_where b.postgresql_where

module _ {A : Type 0} (eq : A → A → Bool) (difference : A → Difference) where
  -- what is in the first list only
  abbrev only_in : List A → List A → List Difference
  only_in [] ys = []
  only_in (x ∷ xs) ys = if any (eq x) ys then only_in xs ys else difference x ∷ only_in xs ys

-- `found` is in the database, `declared` in the models
abbrev table_drift : Table → Table → List Difference
table_drift found declared =
    only_in column_eq (λ c. missing_column declared.name c.name) declared.columns found.columns
    ++ only_in column_eq (λ c. extra_column declared.name c.name) found.columns declared.columns
    ++ only_in constraint_eq (λ k. missing_constraint declared.name (constraint_name k))
        declared.constraints found.constraints
    ++ only_in constraint_eq (λ k. extra_constraint declared.name (constraint_name k))
        found.constraints declared.constraints
    ++ only_in index_eq (λ i. missing_index declared.name i.name) declared.indexes found.indexes
    ++ only_in index_eq (λ i. extra_index declared.name i.name) found.indexes declared.indexes

abbrev drift_of : Option Table → Table → List Difference
drift_of none declared = missing_table declared.name ∷ []
drift_of (some found) declared = table_drift found declared

abbrev pub drift : Schema → List Table → List Difference
drift s [] = []
drift s (declared ∷ tables) =
    drift_of (find (λ (t : Table). t.name == declared.name) s) declared ++ drift s tables

abbrev same_table : Table → Table → Bool
same_table a b = a.name == b.name

-- Where what a downgrade leaves differs from what was there before the upgrade.
abbrev pub losses : Schema → Schema → List Difference
losses left before = drift left before ++ only_in same_table (λ t. extra_table t.name) left before
