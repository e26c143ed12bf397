-- ===== src/Migrations/Schema.antt =====
-- The DDL statements that the calls of `op` emit, as PostgreSQL runs them on a schema. Rows, views
-- and sequences are left out, and so are the indexes behind primary keys, for which PostgreSQL
-- chooses names that are free, and that it refuses a foreign key to what is missing and the removal
-- of what one points to. In each list the latest comes first.
use event_saver.Prelude.{
  String, Bool, true, false, not, ◌&&◌, ◌||◌, Option, none, some, List, [], ◌∷◌, ◌++◌, any, keep,
  ◌==◌, if◌then◌else◌,
}

pub data ColumnType : Type 0 where
  big_integer text_column date_time jsonb json uuid boolean : ColumnType

-- `sa.Column`
pub record Column : Type 0 where
  pub name : String
  pub type : ColumnType
  pub primary_key : Bool
  pub nullable : Bool
  pub server_default : Option String

pub data OnDelete : Type 0 where
  set_null cascade restrict : OnDelete

-- A foreign key that is given no name has the one that PostgreSQL gives it,
-- `<table>_<column>_fkey`.
pub data Constraint : Type 0 where
  unique : String → List String → Constraint
  foreign_key : String → String → String → String → OnDelete → Constraint

-- What an index is over: a column, a column from the last to the first, `lower` of a column.
pub data IndexKey : Type 0 where
  ascending descending lower_of : String → IndexKey

pub record Index : Type 0 where
  pub name : String
  pub keys : List IndexKey
  pub unique : Bool
  pub postgresql_where : Option String

pub record Table : Type 0 where
  pub name : String
  pub columns : List Column
  pub constraints : List Constraint
  pub indexes : List Index

abbrev pub Schema : Type 0
Schema = List Table

-- What `op` offers; a text that is executed changes rows only.
pub data Operation : Type 0 where
  create_table : Table → Operation
  drop_table : String → Operation
  add_column : String → Column → Operation
  drop_column : String → String → Operation
  alter_nullable : String → String → Bool → Operation
  create_index : String → Index → Operation
  drop_index : String → String → Operation
  create_constraint : String → Constraint → Operation
  drop_constraint : String → String → Operation
  execute : String → Operation

abbrev pub constraint_name : Constraint → String
constraint_name (unique n _) = n
constraint_name (foreign_key n _ _ _ _) = n

abbrev pub key_column : IndexKey → String
key_column (ascending c) = c
key_column (descending c) = c
key_column (lower_of c) = c

abbrev pub is_column : String → Column → Bool
is_column c column = column.name == c

abbrev pub has_column : List Column → String → Bool
has_column columns c = any (is_column c) columns

abbrev pub all_columns : List Column → List String → Bool
all_columns columns [] = true
all_columns columns (c ∷ cs) = has_column columns c && all_columns columns cs

abbrev pub constraint_columns : Constraint → List String
constraint_columns (unique _ cs) = cs
constraint_columns (foreign_key _ c _ _ _) = c ∷ []

abbrev pub key_columns : List IndexKey → List String
key_columns [] = []
key_columns (k ∷ ks) = key_column k ∷ key_columns ks

-- Is the column among these?
abbrev pub mentions : String → List String → Bool
mentions c cs = any (λ d. d == c) cs

module _ {A : Type 0} where
  -- the entry of a name is taken away; there has to be one
  unfoldable pub remove : (A → String) → String → List A → Option (List A)
  remove name_of n [] = none
  remove name_of n (x ∷ xs) =
      let rest = remove name_of n xs in
      if name_of x == n then some xs else elim rest [ none ↦ none | some ys ↦ some (x ∷ ys) ]

  abbrev pub is_named : (A → String) → String → A → Bool
  is_named name_of n x = name_of x == n

  abbrev pub then_some : {B : Type 0} → Option A → (A → B) → Option B
  then_some none f = none
  then_some (some a) f = some (f a)

-- the operation on the table of this name, if there is one
unfoldable pub at_table : String → (Table → Option Table) → Schema → Option Schema
at_table n f [] = none
at_table n f (t ∷ ts) =
    let rest = at_table n f ts in
    if t.name == n then then_some (f t) (λ t'. t' ∷ ts) else then_some rest (λ ts'. t ∷ ts')

abbrev pub add_column_to : Column → Table → Option Table
add_column_to c t =
    if has_column t.columns c.name then none else some (record t { columns = c ∷ t.columns })

-- PostgreSQL drops the indexes and the constraints of the column too.
abbrev pub drop_column_from : String → Table → Option Table
drop_column_from c t = then_some (remove (λ (column : Column). column.name) c t.columns) (λ columns.
    record t {
      columns = columns;
      constraints = keep (λ k. not (mentions c (constraint_columns k))) t.constraints;
      indexes = keep (λ (i : Index). not (mentions c (key_columns i.keys))) t.indexes;
    })

abbrev pub set_nullable : String → Bool → List Column → List Column
set_nullable c b [] = []
set_nullable c b (column ∷ columns) =
    (if column.name == c then record column { nullable = b } else column) ∷ set_nullable c b columns

abbrev pub alter_nullable_of : String → Bool → Table → Option Table
alter_nullable_of c b t =
    if has_column t.columns c
    then some (record t { columns = set_nullable c b t.columns })
    else none

abbrev pub add_index_to : Index → Table → Option Table
add_index_to i t =
    if all_columns t.columns (key_columns i.keys)
    then some (record t { indexes = i ∷ t.indexes })
    else none

abbrev pub drop_index_from : String → Table → Option Table
drop_index_from n t =
    then_some (remove (λ (i : Index). i.name) n t.indexes) (λ is. record t { indexes = is })

abbrev pub add_constraint_to : Constraint → Table → Option Table
add_constraint_to k t =
    if any (is_named constraint_name (constraint_name k)) t.constraints
    then none
    else if all_columns t.columns (constraint_columns k)
    then some (record t { constraints = k ∷ t.constraints })
    else none

abbrev pub drop_constraint_from : String → Table → Option Table
drop_constraint_from n t =
    then_some (remove constraint_name n t.constraints) (λ ks. record t { constraints = ks })

-- Every constraint and index of the table is over columns that it has.
abbrev pub all_constraints_over : List Column → List Constraint → Bool
all_constraints_over columns [] = true
all_constraints_over columns (k ∷ ks) =
    all_columns columns (constraint_columns k) && all_constraints_over columns ks

abbrev pub all_indexes_over : List Column → List Index → Bool
all_indexes_over columns [] = true
all_indexes_over columns (i ∷ is) =
    all_columns columns (key_columns i.keys) && all_indexes_over columns is

abbrev pub is_sound : Table → Bool
is_sound t = all_constraints_over t.columns t.constraints && all_indexes_over t.columns t.indexes

-- What shares one space of names in a schema: tables, indexes and the indexes of unique constraints.
abbrev pub constraint_relations : Constraint → List String
constraint_relations (unique n _) = n ∷ []
constraint_relations (foreign_key _ _ _ _ _) = []

abbrev pub constraints_relations : List Constraint → List String
constraints_relations [] = []
constraints_relations (k ∷ ks) = constraint_relations k ++ constraints_relations ks

abbrev pub index_relations : List Index → List String
index_relations [] = []
index_relations (i ∷ is) = i.name ∷ index_relations is

abbrev pub relations : Table → List String
relations t = t.name ∷ index_relations t.indexes ++ constraints_relations t.constraints

abbrev pub has_relation : String → Table → Bool
has_relation n t = mentions n (relations t)

-- Is one of the names in use?
abbrev pub is_taken : List String → Schema → Bool
is_taken [] s = false
is_taken (n ∷ ns) s = any (has_relation n) s || is_taken ns s

abbrev pub unless_taken : List String → Schema → Option Schema → Option Schema
unless_taken ns s after = if is_taken ns s then none else after

-- `none` where PostgreSQL raises an error
unfoldable pub run_operation : Operation → Schema → Option Schema
unfolding at_table remove
run_operation (create_table t) s =
    unless_taken (relations t) s (if is_sound t then some (t ∷ s) else none)
run_operation (drop_table n) s = remove (λ (t : Table). t.name) n s
run_operation (add_column n c) s = at_table n (add_column_to c) s
run_operation (drop_column n c) s = at_table n (drop_column_from c) s
run_operation (alter_nullable n c b) s = at_table n (alter_nullable_of c b) s
run_operation (create_index n i) s = unless_taken (i.name ∷ []) s (at_table n (add_index_to i) s)
run_operation (drop_index i n) s = at_table n (drop_index_from i) s
run_operation (create_constraint n k) s =
    unless_taken (constraint_relations k) s (at_table n (add_constraint_to k) s)
run_operation (drop_constraint k n) s = at_table n (drop_constraint_from k) s
run_operation (execute sql) s = some s

abbrev pub and_then : Option Schema → (Schema → Option Schema) → Option Schema
and_then none f = none
and_then (some s) f = f s

unfoldable pub run : List Operation → Schema → Option Schema
unfolding run_operation
run [] s = some s
run (o ∷ os) s = and_then (run_operation o s) (λ s'. run os s')

pub record Migration : Type 0 where
  pub revision : String
  pub down_revision : List String
  pub upgrade : List Operation
  pub downgrade : List Operation
