-- ===== src/Migrations/Reverts.antt =====
-- Migrations whose downgrade undoes their upgrade, operation by operation.
use event_saver.Prelude.{
  and_true, some_same, ◌≡◌, refl, sym, ap, ◌∙◌, String, Bool, true, false, ◌&&◌, Option, none, some,
  List, [], ◌∷◌, ◌==◌, eq_iff, if◌then◌else◌,
}
use event_saver.Migrations.Undone.{IsUndone, column-IsUndone, index-IsUndone, constraint-IsUndone}
use event_saver.Migrations.Schema.{
  Table, Schema, then_some, Operation, create_table, drop_table, add_column, drop_column,
  create_index, drop_index, create_constraint, drop_constraint, constraint_name, is_sound,
  relations, constraint_relations, is_taken, unless_taken, run_operation, run, and_then, at_table,
  remove, add_column_to, drop_column_from, add_index_to, drop_index_from, add_constraint_to,
  drop_constraint_from,
}

-- Does the second operation take away what the first adds?
abbrev pub undoes : Operation → Operation → Bool
undoes (create_table t) (drop_table n) = t.name == n
undoes (add_column n c) (drop_column m d) = n == m && c.name == d
undoes (create_index n i) (drop_index j m) = n == m && i.name == j
undoes (create_constraint n k) (drop_constraint j m) = n == m && constraint_name k == j
undoes _ _ = false

abbrev rev_onto : List Operation → List Operation → List Operation
rev_onto [] done = done
rev_onto (o ∷ os) done = rev_onto os (o ∷ done)

-- the operations done, the last first, against those that undo them
abbrev undo_all : List Operation → List Operation → Bool
undo_all [] [] = true
undo_all (o ∷ done) (d ∷ ds) = undoes o d && undo_all done ds
undo_all _ _ = false

-- The second list takes away, from the last to the first, what the first list adds.
abbrev pub reverts : List Operation → List Operation → Bool
reverts ups downs = undo_all (rev_onto ups []) downs

abbrev pub are_sound : Schema → Bool
are_sound [] = true
are_sound (t ∷ ts) = is_sound t && are_sound ts

-- What one operation does and another undoes: the schema stays sound meanwhile.
abbrev IsBack : Option Schema → (Schema → Option Schema) → Schema → Type 0
IsBack none back s = Unit
IsBack (some s') back s = (are_sound s' ≡ true) × (back s' ≡ some s)

module _ (n : String) (f g : Table → Option Table) (undone : IsUndone f g) where
  here :
      (t : Table) (ts : Schema) (o : Option Table)
      → f t ≡ o
      → t.name == n ≡ true
      → is_sound t ≡ true
      → are_sound ts ≡ true
      → IsBack (then_some o (λ t'. t' ∷ ts)) (at_table n g) (t ∷ ts)
  unfolding at_table
  here t ts none e named sound others = tt
  here t ts (some t') e named sound others =
      let (sound', name, back) = undone.at t t' sound e in
      (rw (sound', others) refl, rw (ap (λ m. m == n) name ∙ named, back) refl)

  there :
      (t : Table) (ts : Schema) (o : Option Schema)
      → t.name == n ≡ false
      → is_sound t ≡ true
      → IsBack o (at_table n g) ts
      → IsBack (then_some o (λ ts'. t ∷ ts')) (at_table n g) (t ∷ ts)
  unfolding at_table
  there t ts none other sound h = tt
  there t ts (some ts') other sound (sound', back) =
      (rw (sound, sound') refl, rw (other, back) refl)

  at_table-IsBack : (s : Schema) → are_sound s ≡ true → IsBack (at_table n f s) (at_table n g) s
  unfolding at_table
  at_table-IsBack [] sound = tt
  at_table-IsBack (t ∷ ts) sound = by_name (t.name == n) refl (at_table-IsBack ts rest)
    where
      first : is_sound t ≡ true
      first = (and_true (is_sound t) (are_sound ts) sound).0

      rest : are_sound ts ≡ true
      rest = (and_true (is_sound t) (are_sound ts) sound).1

      by_name :
          (b : Bool)
          → t.name == n ≡ b
          → IsBack (at_table n f ts) (at_table n g) ts
          → IsBack
              (if b
                then then_some (f t) (λ t'. t' ∷ ts)
                else then_some (at_table n f ts) (λ ts'. t ∷ ts'))
              (at_table n g)
              (t ∷ ts)
      by_name true e h = here t ts (f t) refl e first rest
      by_name false e h = there t ts (at_table n f ts) e first h

unless_taken-IsBack :
    (ns : List String) (s : Schema) (after : Option Schema) (back : Schema → Option Schema)
    → IsBack after back s
    → IsBack (unless_taken ns s after) back s
unless_taken-IsBack ns s after back h = by_names (is_taken ns s)
  where
    by_names : (b : Bool) → IsBack (if b then none else after) back s
    by_names true = tt
    by_names false = h

-- What an operation adds, the operation that undoes it takes away.
operation-IsBack :
    (o d : Operation) (s : Schema)
    → undoes o d ≡ true
    → are_sound s ≡ true
    → IsBack (run_operation o s) (run_operation d) s
unfolding run_operation
operation-IsBack (create_table t) (drop_table n) s named sound =
    unless_taken-IsBack (relations t) s (if is_sound t then some (t ∷ s) else none) _
      (created (is_sound t) refl)
  where
    created :
        (c : Bool)
        → is_sound t ≡ c
        → IsBack (if c then some (t ∷ s) else none) (remove (λ (u : Table). u.name) n) s
    created false e = tt
    created true e = (rw (e, sound) refl, rw named refl)
operation-IsBack (add_column n c) (drop_column m d) s h sound =
    let (table, column) = and_true (n == m) (c.name == d) h in
    rw (sym ((eq_iff n m).0 table), sym ((eq_iff c.name d).0 column))
      (at_table-IsBack n (add_column_to c) (drop_column_from c.name) (column-IsUndone c) s sound)
operation-IsBack (create_index n i) (drop_index j m) s h sound =
    let (table, index) = and_true (n == m) (i.name == j) h in
    rw (sym ((eq_iff n m).0 table), sym ((eq_iff i.name j).0 index))
      (unless_taken-IsBack (i.name ∷ []) s (at_table n (add_index_to i) s) _
        (at_table-IsBack n (add_index_to i) (drop_index_from i.name) (index-IsUndone i) s sound))
operation-IsBack (create_constraint n k) (drop_constraint j m) s h sound =
    let (table, constraint) = and_true (n == m) (constraint_name k == j) h in
    rw (sym ((eq_iff n m).0 table), sym ((eq_iff (constraint_name k) j).0 constraint))
      (unless_taken-IsBack (constraint_relations k) s (at_table n (add_constraint_to k) s) _ (
        at_table-IsBack n (add_constraint_to k) (drop_constraint_from (constraint_name k))
          (constraint-IsUndone k) s sound))
operation-IsBack o d s h sound = cc

-- the operations of a list, from the last to the first
abbrev run_back : List Operation → Schema → Option Schema
run_back [] s = some s
run_back (o ∷ done) s = and_then (run_back done s) (run_operation o)

run_back-rev_onto :
    (os done : List Operation) (s : Schema)
    → run_back (rev_onto os done) s ≡ and_then (run_back done s) (run os)
unfolding run
run_back-rev_onto [] done s = by_result (run_back done s)
  where
    by_result : (r : Option Schema) → r ≡ and_then r (λ s'. some s')
    by_result none = refl
    by_result (some s') = refl
run_back-rev_onto (o ∷ os) done s = run_back-rev_onto os (o ∷ done) s ∙ by_result (run_back done s)
  where
    by_result :
        (r : Option Schema)
        → and_then (and_then r (run_operation o)) (run os)
          ≡ and_then r (λ s'. and_then (run_operation o s') (run os))
    by_result none = refl
    by_result (some s') = refl

-- after the last operation its inverse leads to where the others led
step-IsBack :
    (o d : Operation) (ds : List Operation) (s : Schema) (before : Option Schema)
    → undoes o d ≡ true
    → IsBack before (run ds) s
    → IsBack (and_then before (run_operation o)) (run (d ∷ ds)) s
unfolding run
step-IsBack o d ds s none h back = tt
step-IsBack o d ds s (some s') h (sound, back) =
    by_result (run_operation o s') (operation-IsBack o d s' h sound)
  where
    by_result :
        (r : Option Schema)
        → IsBack r (run_operation d) s'
        → IsBack r (λ s''. and_then (run_operation d s'') (run ds)) s
    by_result none b = tt
    by_result (some s'') (sound'', b) = (sound'', rw (b, back) refl)

all-IsBack :
    (done ds : List Operation) (s : Schema)
    → undo_all done ds ≡ true
    → are_sound s ≡ true
    → IsBack (run_back done s) (run ds) s
unfolding run
all-IsBack [] [] s h sound = (sound, refl)
all-IsBack (o ∷ done) (d ∷ ds) s h sound =
    let (undone, others) = and_true (undoes o d) (undo_all done ds) h in
    step-IsBack o d ds s (run_back done s) undone (all-IsBack done ds s others sound)
all-IsBack [] (d ∷ ds) s h sound = cc
all-IsBack (o ∷ done) [] s h sound = cc

IsBack-some :
    (r : Option Schema) (back : Schema → Option Schema) (s s' : Schema)
    → IsBack r back s
    → r ≡ some s'
    → back s' ≡ some s
IsBack-some none back s s' h e = cc
IsBack-some (some s'') back s s' (sound, b) e = ap back (sym (some_same s'' s' e)) ∙ b

-- Where the operations of a downgrade take away, from the last to the first, what the upgrade adds,
-- the downgrade restores every schema, with sound tables, on which the upgrade succeeded.
pub run-reverts :
    (ups downs : List Operation) (s s' : Schema)
    → reverts ups downs ≡ true
    → are_sound s ≡ true
    → run ups s ≡ some s'
    → run downs s' ≡ some s
run-reverts ups downs s s' h sound e =
    IsBack-some (run_back (rev_onto ups []) s) (run downs) s s'
      (all-IsBack (rev_onto ups []) downs s h sound) (run_back-rev_onto ups [] s ∙ e)
