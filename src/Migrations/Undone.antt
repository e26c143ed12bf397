-- ===== src/Migrations/Undone.antt =====
-- What is added to a table and then taken away leaves it as it was.
use event_saver.Prelude.{
  and_left, and_right, some_same, ◌≡◌, refl, sym, ap, ◌∙◌, String, Bool, true, false, not, ◌&&◌,
  ◌||◌, Option, none, some, List, [], ◌∷◌, any, keep, arith, ◌==◌, eq_iff, eq_refl, if◌then◌else◌,
}
use event_saver.Migrations.Schema.{
  Table, Column, Index, Constraint, constraint_name, constraint_columns, key_columns, has_column,
  all_columns, mentions, all_constraints_over, all_indexes_over, is_sound, remove, is_named,
  add_column_to, drop_column_from, add_index_to, drop_index_from, add_constraint_to,
  drop_constraint_from,
}

-- `g` undoes what `f` does to a table, and the table stays sound and keeps its name.
pub record IsUndone (f g : Table → Option Table) : Type 0 where
  pub at :
      (t t' : Table)
      → is_sound t ≡ true
      → f t ≡ some t'
      → (is_sound t' ≡ true) × (t'.name ≡ t.name) × (g t' ≡ some t)

and_intro : (a b : Bool) → a ≡ true → b ≡ true → a && b ≡ true
and_intro a b ha hb = rw (ha, hb) refl

grown_column :
    (c : Column) (columns : List Column) (d : String)
    → has_column columns d ≡ true
    → has_column (c ∷ columns) d ≡ true
grown_column c columns d h = ground arith

grown_columns :
    (c : Column) (columns : List Column) (cs : List String)
    → all_columns columns cs ≡ true
    → all_columns (c ∷ columns) cs ≡ true
grown_columns c columns [] h = refl
grown_columns c columns (d ∷ cs) h =
    and_intro _ _
      (grown_column c columns d (and_left (has_column columns d) (all_columns columns cs) h))
      (grown_columns c columns cs (and_right (has_column columns d) (all_columns columns cs) h))

grown_constraints :
    (c : Column) (columns : List Column) (ks : List Constraint)
    → all_constraints_over columns ks ≡ true
    → all_constraints_over (c ∷ columns) ks ≡ true
grown_constraints c columns [] h = refl
grown_constraints c columns (k ∷ ks) h =
    and_intro _ _
      (grown_columns c columns (constraint_columns k)
        (and_left _ (all_constraints_over columns ks) h))
      (grown_constraints c columns ks (and_right (all_columns columns (constraint_columns k)) _ h))

grown_indexes :
    (c : Column) (columns : List Column) (is : List Index)
    → all_indexes_over columns is ≡ true
    → all_indexes_over (c ∷ columns) is ≡ true
grown_indexes c columns [] h = refl
grown_indexes c columns (i ∷ is) h =
    and_intro _ _
      (grown_columns c columns (key_columns i.keys) (and_left _ (all_indexes_over columns is) h))
      (grown_indexes c columns is (and_right (all_columns columns (key_columns i.keys)) _ h))

unmentioned_head :
    (columns : List Column) (c d : String) (rest b : Bool)
    → has_column columns c ≡ false
    → has_column columns d ≡ true
    → rest ≡ false
    → d == c ≡ b
    → b || rest ≡ false
unmentioned_head columns c d rest true new has others e =
    (sym has ∙ ap (has_column columns) ((eq_iff d c).0 e)) ∙ new
unmentioned_head columns c d rest false new has others e = others

-- a column that the table does not have is mentioned nowhere
unmentioned :
    (columns : List Column) (c : String) (cs : List String)
    → has_column columns c ≡ false
    → all_columns columns cs ≡ true
    → mentions c cs ≡ false
unmentioned columns c [] new h = refl
unmentioned columns c (d ∷ cs) new h =
    unmentioned_head columns c d (mentions c cs) (d == c) new
      (and_left _ (all_columns columns cs) h)
      (unmentioned columns c cs new (and_right (has_column columns d) _ h)) refl

keep_constraints :
    (columns : List Column) (c : String) (ks : List Constraint)
    → has_column columns c ≡ false
    → all_constraints_over columns ks ≡ true
    → keep (λ k. not (mentions c (constraint_columns k))) ks ≡ ks
keep_constraints columns c [] new h = refl
keep_constraints columns c (k ∷ ks) new h =
    rw
      (
        unmentioned columns c (constraint_columns k) new
            (and_left _ (all_constraints_over columns ks) h),
        keep_constraints columns c ks new
            (and_right (all_columns columns (constraint_columns k)) _ h),
      )
      refl

keep_indexes :
    (columns : List Column) (c : String) (is : List Index)
    → has_column columns c ≡ false
    → all_indexes_over columns is ≡ true
    → keep (λ (i : Index). not (mentions c (key_columns i.keys))) is ≡ is
keep_indexes columns c [] new h = refl
keep_indexes columns c (i ∷ is) new h =
    rw
      (
        unmentioned columns c (key_columns i.keys) new (and_left _ (all_indexes_over columns is) h),
        keep_indexes columns c is new (and_right (all_columns columns (key_columns i.keys)) _ h),
      )
      refl

-- `t'` is the result of a guarded operation, so the guard let it pass
module _ (P : Table → Type 0) (t' : Table) where
  exactly : (x : Table) → P x → some x ≡ some t' → P t'
  exactly x p h = rw (sym (some_same x t' h)) p

  unless :
      (b : Bool) (o : Option Table)
      → (b ≡ false → o ≡ some t' → P t')
      → (if b then none else o) ≡ some t'
      → P t'
  unless true o p h = cc
  unless false o p h = p refl h

  when :
      (b : Bool) (o : Option Table)
      → (b ≡ true → o ≡ some t' → P t')
      → (if b then o else none) ≡ some t'
      → P t'
  when true o p h = p refl h
  when false o p h = cc

remove_first :
    {A : Type 0} (name_of : A → String) (x : A) (xs : List A)
    → remove name_of (name_of x) (x ∷ xs) ≡ some xs
unfolding remove
remove_first name_of x xs = rw (eq_refl (name_of x)) refl

abbrev Undone : (g : Table → Option Table) (t : Table) → Table → Type 0
Undone g t t' = (is_sound t' ≡ true) × (t'.name ≡ t.name) × (g t' ≡ some t)

constraints_sound :
    (t : Table) → is_sound t ≡ true → all_constraints_over t.columns t.constraints ≡ true
constraints_sound t sound = and_left _ (all_indexes_over t.columns t.indexes) sound

indexes_sound : (t : Table) → is_sound t ≡ true → all_indexes_over t.columns t.indexes ≡ true
indexes_sound t sound = and_right (all_constraints_over t.columns t.constraints) _ sound

column-Undone :
    (c : Column) (t : Table)
    → is_sound t ≡ true
    → has_column t.columns c.name ≡ false
    → Undone (drop_column_from c.name) t (record t { columns = c ∷ t.columns })
column-Undone c t sound new = (
  and_intro _ _ (grown_constraints c t.columns t.constraints (constraints_sound t sound))
      (grown_indexes c t.columns t.indexes (indexes_sound t sound)),
  refl,
  rw
      (
        remove_first (λ (d : Column). d.name) c t.columns,
        keep_constraints t.columns c.name t.constraints new (constraints_sound t sound),
        keep_indexes t.columns c.name t.indexes new (indexes_sound t sound),
      )
      refl,
)

pub column-IsUndone : (c : Column) → IsUndone (add_column_to c) (drop_column_from c.name)
column-IsUndone c = record {
  at = λ t t' sound.
      unless (Undone (drop_column_from c.name) t) t' (has_column t.columns c.name) _
        (λ new. exactly (Undone (drop_column_from c.name) t) t' _ (column-Undone c t sound new));
}

index-Undone :
    (i : Index) (t : Table)
    → is_sound t ≡ true
    → all_columns t.columns (key_columns i.keys) ≡ true
    → Undone (drop_index_from i.name) t (record t { indexes = i ∷ t.indexes })
index-Undone i t sound over = (
  and_intro _ _ (constraints_sound t sound) (and_intro _ _ over (indexes_sound t sound)),
  refl,
  rw (remove_first (λ (j : Index). j.name) i t.indexes) refl,
)

pub index-IsUndone : (i : Index) → IsUndone (add_index_to i) (drop_index_from i.name)
index-IsUndone i = record {
  at = λ t t' sound.
      when (Undone (drop_index_from i.name) t) t' (all_columns t.columns (key_columns i.keys)) _
        (λ over. exactly (Undone (drop_index_from i.name) t) t' _ (index-Undone i t sound over));
}

constraint-Undone :
    (k : Constraint) (t : Table)
    → is_sound t ≡ true
    → all_columns t.columns (constraint_columns k) ≡ true
    → Undone
        (drop_constraint_from (constraint_name k))
        t
        (record t { constraints = k ∷ t.constraints })
constraint-Undone k t sound over = (
  and_intro _ _ (and_intro _ _ over (constraints_sound t sound)) (indexes_sound t sound),
  refl,
  rw (remove_first constraint_name k t.constraints) refl,
)

pub constraint-IsUndone :
    (k : Constraint) → IsUndone (add_constraint_to k) (drop_constraint_from (constraint_name k))
constraint-IsUndone k = record {
  at = λ t t' sound.
      unless (Undone (drop_constraint_from (constraint_name k)) t) t'
        (any (is_named constraint_name (constraint_name k)) t.constraints) _
        (λ _.
          when (Undone (drop_constraint_from (constraint_name k)) t) t'
            (all_columns t.columns (constraint_columns k)) _
            (λ over.
              exactly (Undone (drop_constraint_from (constraint_name k)) t) t' _
                (constraint-Undone k t sound over)));
}
