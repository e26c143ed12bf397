-- ===== src/Migrations/Contained.antt =====
-- Migrations whose downgrade removes all that their upgrade builds, in any order.
use event_saver.Prelude.{
  arith, and_left, and_right, some_same, ◌≡◌, refl, sym, ap, ◌∙◌, String, Bool, true, false, not,
  ◌&&◌, ◌||◌, Option, none, some, List, [], ◌∷◌, ◌++◌, if◌then◌else◌,
}
use event_saver.Migrations.Schema.{
  Schema, Operation, create_table, create_index, create_constraint, is_sound, at_table,
  add_index_to, add_constraint_to, relations, constraint_relations, is_taken, unless_taken,
  run_operation, run, and_then,
}
use event_saver.Migrations.Frame.{
  Extends, creates, is_free_of, are_free_of, operation_frame, run_frame, is_taken-append,
}

not_taken :
    (ns : List String) (s s' : Schema) (after : Option Schema)
    → unless_taken ns s after ≡ some s'
    → not (is_taken ns s) ≡ true
not_taken ns s s' after = by_names (is_taken ns s)
  where
    by_names : (b : Bool) → (if b then none else after) ≡ some s' → not b ≡ true
    by_names true e = cc
    by_names false e = refl

-- An operation that succeeds brings no name that is in use.
operation-is_free_of :
    (o : Operation) (s s' : Schema) → run_operation o s ≡ some s' → is_free_of s o ≡ true
unfolding run_operation
operation-is_free_of (create_table t) s s' e =
    not_taken (relations t) s s' (if is_sound t then some (t ∷ s) else none) e
operation-is_free_of (create_index n i) s s' e =
    not_taken (i.name ∷ []) s s' (at_table n (add_index_to i) s) e
operation-is_free_of (create_constraint n k) s s' e =
    not_taken (constraint_relations k) s s' (at_table n (add_constraint_to k) s) e
operation-is_free_of o s s' e = refl

neither : (a b c : Bool) → c ≡ a || b → not c ≡ true → not b ≡ true
neither a true c e h = ground arith
neither a false c e h = refl

is_free_of-behind :
    (o : Operation) (front s : Schema) → is_free_of (front ++ s) o ≡ true → is_free_of s o ≡ true
is_free_of-behind o front s h =
    neither (is_taken (creates o) front) (is_taken (creates o) s)
      (is_taken (creates o) (front ++ s)) (is_taken-append (creates o) front s) h

first_step :
    (r : Option Schema) (f : Schema → Option Schema) (s' : Schema)
    → and_then r f ≡ some s'
    → (s : Schema) × (r ≡ some s) × (f s ≡ some s')
first_step none f s' e = cc
first_step (some s) f s' e = (s, refl, e)

pub beside :
    (others : Schema) (r after : Option Schema) (tables : Schema)
    → r ≡ some tables
    → Extends others r after
    → after ≡ some (tables ++ others)
beside others none after tables e h = cc
beside others (some found) after tables e h =
    h ∙ ap (λ ts. some (ts ++ others)) (some_same found tables e)

-- Operations that can build on nothing, and succeed on other tables, bring no name of theirs.
run-are_free_of :
    (os : List Operation) (front built s s' : Schema)
    → run os front ≡ some built
    → run os (front ++ s) ≡ some s'
    → are_free_of s os ≡ true
unfolding run
run-are_free_of [] front built s s' alone among = refl
run-are_free_of (o ∷ os) front built s s' alone among =
    let (front', stepped, alone') = first_step (run_operation o front) (run os) built alone in
    let (both, stepped', among') = first_step (run_operation o (front ++ s)) (run os) s' among in
    let free : is_free_of s o ≡ true =
      is_free_of-behind o front s (operation-is_free_of o (front ++ s) both stepped') in
    let extends =
      beside s (run_operation o front) _ front' stepped (operation_frame s o front free) in
    let same : both ≡ front' ++ s = some_same both (front' ++ s) (sym stepped' ∙ extends) in
    rw (free, run-are_free_of os front' built s s' alone' (ap (run os) (sym same) ∙ among')) refl

abbrev is_empty : List String → Bool
is_empty [] = true
is_empty (n ∷ ns) = false

abbrev pub brings_nothing : List Operation → Bool
brings_nothing [] = true
brings_nothing (o ∷ os) = is_empty (creates o) && brings_nothing os

abbrev pub is_nothing : Option Schema → Bool
is_nothing (some []) = true
is_nothing _ = false

are_free_of-brings_nothing :
    (os : List Operation) (s : Schema) → brings_nothing os ≡ true → are_free_of s os ≡ true
are_free_of-brings_nothing [] s h = refl
are_free_of-brings_nothing (o ∷ os) s h =
    by_names (creates o) refl (and_left (is_empty (creates o)) (brings_nothing os) h)
      (are_free_of-brings_nothing os s (and_right (is_empty (creates o)) (brings_nothing os) h))
  where
    by_names :
        (ns : List String)
        → creates o ≡ ns
        → is_empty ns ≡ true
        → are_free_of s os ≡ true
        → are_free_of s (o ∷ os) ≡ true
    by_names [] e h rest = rw (e, rest) refl
    by_names (n ∷ ns) e h rest = cc

-- A downgrade that leaves nothing of what the upgrade builds on nothing, and brings no names,
-- restores every schema on which the upgrade succeeded.
pub run-contained :
    (ups downs : List Operation) (s s' : Schema)
    → is_nothing (and_then (run ups []) (run downs)) ≡ true
    → brings_nothing downs ≡ true
    → run ups s ≡ some s'
    → run downs s' ≡ some s
run-contained ups downs s s' nothing_left no_names e = by_built (run ups []) refl nothing_left
  where
    emptied : (r after : Option Schema) → is_nothing r ≡ true → Extends s r after → after ≡ some s
    emptied (some []) after h extends = extends
    emptied (some (t ∷ ts)) after h extends = cc
    emptied none after h extends = cc

    by_built :
        (r : Option Schema)
        → run ups [] ≡ r
        → is_nothing (and_then r (run downs)) ≡ true
        → run downs s' ≡ some s
    by_built none built h = cc
    by_built (some tables) built h =
        let free = run-are_free_of ups [] tables s s' built e in
        let extends = beside s (run ups []) (run ups s) tables built (run_frame s ups [] free) in
        let same : s' ≡ tables ++ s = some_same s' (tables ++ s) (sym e ∙ extends) in
        rw same (
          emptied (run downs tables) (run downs (tables ++ s)) h
            (run_frame s downs tables (are_free_of-brings_nothing downs s no_names)))
