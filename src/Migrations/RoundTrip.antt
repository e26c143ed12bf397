-- ===== src/Migrations/RoundTrip.antt =====
-- Which migrations can be gone back on without a trace in the schema.
use event_saver.Prelude.{
  and_left, and_right, ◌≡◌, refl, ◌⊎◌, inl, inr, Bool, true, false, not, ◌&&◌, ◌||◌, some, List, [],
  ◌∷◌,
}
use event_saver.Migrations.Schema.{
  Schema, Migration, Operation, create_table, add_column, create_index, create_constraint, run,
  and_then,
}
use event_saver.Migrations.Contained.{is_nothing, brings_nothing, run-contained}
use event_saver.Migrations.Reverts.{reverts, are_sound, run-reverts}
use event_saver.Migrations.Versions.{versions}

-- Does the operation only add something?
abbrev pub adds : Operation → Bool
adds (create_table t) = true
adds (add_column n c) = true
adds (create_index n i) = true
adds (create_constraint n k) = true
adds _ = false

abbrev pub only_adds : List Operation → Bool
only_adds [] = true
only_adds (o ∷ os) = adds o && only_adds os

abbrev pub IsOneOf : Migration → List Migration → Type 0
IsOneOf m [] = ⊥
IsOneOf m (n ∷ ms) = (m ≡ n) ⊎ IsOneOf m ms

abbrev is_contained : Migration → Bool
is_contained m =
    is_nothing (and_then (run m.upgrade []) (run m.downgrade)) && brings_nothing m.downgrade

-- one of the two ways in which a downgrade restores what was there
abbrev restores : Migration → Bool
restores m = reverts m.upgrade m.downgrade || is_contained m

abbrev all_restore : List Migration → Bool
all_restore [] = true
all_restore (m ∷ ms) = (not (only_adds m.upgrade) || restores m) && all_restore ms

one_restores :
    (m : Migration) (ms : List Migration)
    → IsOneOf m ms
    → all_restore ms ≡ true
    → only_adds m.upgrade ≡ true
    → restores m ≡ true
one_restores m [] of h adding = elim of [ ]
one_restores m (n ∷ ms) (inl e) h adding = rw e (
    left_out (only_adds n.upgrade) (restores n)
      (and_left (not (only_adds n.upgrade) || restores n) (all_restore ms) h) (rw e at adding))
  where
    left_out : (a b : Bool) → not a || b ≡ true → a ≡ true → b ≡ true
    left_out true b h e = h
    left_out false b h e = cc
one_restores m (n ∷ ms) (inr there) h adding =
    one_restores m ms there (and_right (not (only_adds n.upgrade) || restores n) (all_restore ms) h)
      adding

restored :
    (m : Migration) (s s' : Schema)
    → restores m ≡ true
    → are_sound s ≡ true
    → run m.upgrade s ≡ some s'
    → run m.downgrade s' ≡ some s
restored m s s' h sound e = by_test (reverts m.upgrade m.downgrade) refl h
  where
    by_test :
        (b : Bool)
        → reverts m.upgrade m.downgrade ≡ b
        → b || is_contained m ≡ true
        → run m.downgrade s' ≡ some s
    by_test true back _ = run-reverts m.upgrade m.downgrade s s' back sound e
    by_test false _ contained =
        let nothing_left = is_nothing (and_then (run m.upgrade []) (run m.downgrade)) in
        run-contained m.upgrade m.downgrade s s'
          (and_left nothing_left (brings_nothing m.downgrade) contained)
          (and_right nothing_left (brings_nothing m.downgrade) contained) e

-- A migration of the history whose upgrade only adds tables, columns, indexes and constraints,
-- applied to a schema and undone, leaves the schema as it was: whatever the schema, if its
-- constraints and indexes are over columns that exist and the upgrade succeeds.
pub downgrade-upgrade :
    (m : Migration) (s s' : Schema)
    → IsOneOf m versions
    → only_adds m.upgrade ≡ true
    → are_sound s ≡ true
    → run m.upgrade s ≡ some s'
    → run m.downgrade s' ≡ some s
unfolding run
downgrade-upgrade m s s' of adding sound e =
    restored m s s' (one_restores m versions of refl adding) sound e
