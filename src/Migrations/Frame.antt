-- ===== src/Migrations/Frame.antt =====
-- Migrations on a database that has other tables beside the service's.
use event_saver.Prelude.{
  arith, and_left, and_right, ◌≡◌, refl, String, Bool, true, false, not, ◌&&◌, ◌||◌, Option, none,
  some, List, [], ◌∷◌, ◌++◌, any, ◌==◌, if◌then◌else◌,
}
use event_saver.Migrations.Schema.{
  Schema, Table, Operation, create_table, drop_table, add_column, drop_column, alter_nullable,
  create_index, drop_index, create_constraint, drop_constraint, execute, run_operation, run,
  and_then, relations, constraint_relations, has_relation, is_taken, unless_taken, at_table, remove,
  then_some, is_sound, add_column_to, drop_column_from, alter_nullable_of, add_index_to,
  drop_index_from, add_constraint_to, drop_constraint_from,
}

-- The names that an operation brings into the schema.
abbrev pub creates : Operation → List String
creates (create_table t) = relations t
creates (create_index n i) = i.name ∷ []
creates (create_constraint n k) = constraint_relations k
creates _ = []

-- None of these names is in use.
abbrev pub is_free_of : Schema → Operation → Bool
is_free_of s o = not (is_taken (creates o) s)

abbrev pub are_free_of : Schema → List Operation → Bool
are_free_of s [] = true
are_free_of s (o ∷ os) = is_free_of s o && are_free_of s os

-- What an operation does to a schema, it does to it in front of other tables.
abbrev pub Extends : Schema → Option Schema → Option Schema → Type 0
Extends others none after = Unit
Extends others (some s) after = after ≡ some (s ++ others)

or_assoc : (a b c : Bool) → a || (b || c) ≡ (a || b) || c
or_assoc true b c = refl
or_assoc false b c = refl

or_swap : (a b c d : Bool) → (a || b) || (c || d) ≡ (a || c) || (b || d)
or_swap a b c d = ground arith

is_false : (b : Bool) → not b ≡ true → b ≡ false
is_false true h = cc
is_false false h = refl

or_false : (b : Bool) → b || false ≡ b
or_false true = refl
or_false false = refl

any-append : {A : Type 0} (p : A → Bool) (xs ys : List A) → any p (xs ++ ys) ≡ any p xs || any p ys
any-append p [] ys = refl
any-append p (x ∷ xs) ys = rw (any-append p xs ys, or_assoc (p x) (any p xs) (any p ys)) refl

-- A name is in use among two lists of tables when it is in use in one of them.
pub is_taken-append :
    (ns : List String) (s others : Schema)
    → is_taken ns (s ++ others) ≡ is_taken ns s || is_taken ns others
is_taken-append [] s others = refl
is_taken-append (n ∷ ns) s others =
    rw (any-append (has_relation n) s others, is_taken-append ns s others)
      (or_swap (any (has_relation n) s) (any (has_relation n) others) (is_taken ns s)
        (is_taken ns others))

module _ (others : Schema) where
  remove_frame :
      (n : String) (s : Schema)
      → Extends others
          (remove (λ (t : Table). t.name) n s)
          (remove (λ (t : Table). t.name) n (s ++ others))
  unfolding remove
  remove_frame n [] = tt
  remove_frame n (t ∷ ts) =
      by_name (t.name == n) (remove (λ (u : Table). u.name) n ts) (remove_frame n ts)
    where
      by_name :
          (b : Bool) (o : Option Schema)
          → Extends others o (remove (λ (u : Table). u.name) n (ts ++ others))
          → Extends others
              (if b then some ts else elim o [ none ↦ none | some ys ↦ some (t ∷ ys) ])
              (if b
                then some (ts ++ others)
                else elim (remove (λ (u : Table). u.name) n (ts ++ others)) [
                  | none ↦ none
                  | some ys ↦ some (t ∷ ys)
                ])
      by_name true o h = refl
      by_name false none h = tt
      by_name false (some ys) h = rw h refl

  at_table_frame :
      (n : String) (f : Table → Option Table) (s : Schema)
      → Extends others (at_table n f s) (at_table n f (s ++ others))
  unfolding at_table
  at_table_frame n f [] = tt
  at_table_frame n f (t ∷ ts) =
      by_name (t.name == n) (f t) (at_table n f ts) (at_table_frame n f ts)
    where
      by_name :
          (b : Bool) (o : Option Table) (r : Option Schema)
          → Extends others r (at_table n f (ts ++ others))
          → Extends others
              (if b then then_some o (λ t'. t' ∷ ts) else then_some r (λ ts'. t ∷ ts'))
              (if b
                then then_some o (λ t'. t' ∷ ts ++ others)
                else then_some (at_table n f (ts ++ others)) (λ ts'. t ∷ ts'))
      by_name true none r h = tt
      by_name true (some t') r h = refl
      by_name false o none h = tt
      by_name false o (some ts') h = rw h refl

  unless_taken_frame :
      (ns : List String) (s : Schema) (after after' : Option Schema)
      → not (is_taken ns others) ≡ true
      → Extends others after after'
      → Extends others (unless_taken ns s after) (unless_taken ns (s ++ others) after')
  unless_taken_frame ns s after after' free h =
      rw (is_taken-append ns s others, is_false (is_taken ns others) free, or_false (is_taken ns s))
        (by_names (is_taken ns s))
    where
      by_names :
          (b : Bool) → Extends others (if b then none else after) (if b then none else after')
      by_names true = tt
      by_names false = h

  pub operation_frame :
      (o : Operation) (s : Schema)
      → is_free_of others o ≡ true
      → Extends others (run_operation o s) (run_operation o (s ++ others))
  unfolding run_operation
  operation_frame (create_table t) s free =
      unless_taken_frame (relations t) s (if is_sound t then some (t ∷ s) else none)
        (if is_sound t then some (t ∷ s ++ others) else none) free (created (is_sound t))
    where
      created :
          (c : Bool)
          → Extends others
              (if c then some (t ∷ s) else none)
              (if c then some (t ∷ s ++ others) else none)
      created false = tt
      created true = refl
  operation_frame (drop_table n) s free = remove_frame n s
  operation_frame (add_column n c) s free = at_table_frame n (add_column_to c) s
  operation_frame (drop_column n c) s free = at_table_frame n (drop_column_from c) s
  operation_frame (alter_nullable n c b) s free = at_table_frame n (alter_nullable_of c b) s
  operation_frame (create_index n i) s free =
      unless_taken_frame (i.name ∷ []) s (at_table n (add_index_to i) s)
        (at_table n (add_index_to i) (s ++ others)) free (at_table_frame n (add_index_to i) s)
  operation_frame (drop_index i n) s free = at_table_frame n (drop_index_from i) s
  operation_frame (create_constraint n k) s free =
      unless_taken_frame (constraint_relations k) s (at_table n (add_constraint_to k) s)
        (at_table n (add_constraint_to k) (s ++ others)) free
        (at_table_frame n (add_constraint_to k) s)
  operation_frame (drop_constraint k n) s free = at_table_frame n (drop_constraint_from k) s
  operation_frame (execute sql) s free = refl

  pub and_then_frame :
      (r r' : Option Schema) (f : Schema → Option Schema)
      → Extends others r r'
      → ((s : Schema) → Extends others (f s) (f (s ++ others)))
      → Extends others (and_then r f) (and_then r' f)
  and_then_frame none r' f h next = tt
  and_then_frame (some s) r' f h next = rw h (next s)

  pub run_frame :
      (os : List Operation) (s : Schema)
      → are_free_of others os ≡ true
      → Extends others (run os s) (run os (s ++ others))
  unfolding run
  run_frame [] s free = refl
  run_frame (o ∷ os) s free =
      and_then_frame (run_operation o s) (run_operation o (s ++ others)) (run os)
        (operation_frame o s (and_left (is_free_of others o) (are_free_of others os) free))
        (λ s'. run_frame os s' (and_right (is_free_of others o) (are_free_of others os) free))
