-- ===== src/Migrations/Restores.antt =====
-- What each downgrade of the history restores, right after its upgrade.
use event_saver.Prelude.{
  and_left, and_right, some_same, ◌≡◌, refl, Bool, true, ◌&&◌, Option, none, some, List, [], ◌∷◌,
  ◌++◌, ◌==◌, if◌then◌else◌,
}
use event_saver.Migrations.Schema.{Schema, Migration, run}
use event_saver.Migrations.Versions.{versions}
use event_saver.Migrations.Drift.{Difference, losses, missing_column, extra_column}
use event_saver.Migrations.Frame.{are_free_of, run_frame}
use event_saver.Migrations.Contained.{beside}

-- `28bba7523965` removes two columns that are NOT NULL; its downgrade gives them back as nullable,
-- since it cannot restore what they held.
abbrev pub known_losses : Migration → List Difference
known_losses m =
    if m.revision == "28bba7523965"
    then missing_column "booking_meeting_links" "participant_ref_id"
      ∷ extra_column "booking_meeting_links" "participant_ref_id"
      ∷ missing_column "booking_organizer_history" "organizer_participant_ref_id"
      ∷ extra_column "booking_organizer_history" "organizer_participant_ref_id"
      ∷ []
    else []

-- The migrations are applied one after the other to `t` beside other tables. The downgrade of each,
-- run right after its upgrade, leaves the other tables alone and gives back the tables that were
-- there, but for the known losses.
abbrev pub Restores : Schema → Schema → List Migration → Type 0
Restores others t [] = Unit
Restores others t (m ∷ ms) =
    (t' : Schema) × (left : Schema) × (run m.upgrade (t ++ others) ≡ some (t' ++ others))
    × (run m.downgrade (t' ++ others) ≡ some (left ++ others))
    × (losses left t ≡ known_losses m)
    × Restores others t' ms

abbrev pub both_free_of : Schema → List Migration → Bool
both_free_of s [] = true
both_free_of s (m ∷ ms) =
    (are_free_of s m.upgrade && are_free_of s m.downgrade) && both_free_of s ms

abbrev with_losses : Option Schema → Schema → Option (List Difference)
with_losses none t = none
with_losses (some left) t = some (losses left t)

-- what is lost at each step, where nothing else is in the schema
abbrev losses_from : Schema → List Migration → List (Option (List Difference))
losses_from t [] = []
losses_from t (m ∷ ms) = elim (run m.upgrade t) [
  | none ↦ []
  | some t' ↦ with_losses (run m.downgrade t') t ∷ losses_from t' ms
]

abbrev all_known : List Migration → List (Option (List Difference))
all_known [] = []
all_known (m ∷ ms) = some (known_losses m) ∷ all_known ms

head_same : {A : Type 0} (x y : A) (xs ys : List A) → x ∷ xs ≡ y ∷ ys → x ≡ y
head_same x y xs ys e = cc

tail_same : {A : Type 0} (x y : A) (xs ys : List A) → x ∷ xs ≡ y ∷ ys → xs ≡ ys
tail_same x y xs ys e = cc

left_of :
    (r : Option Schema) (t : Schema) (known : List Difference)
    → with_losses r t ≡ some known
    → (left : Schema) × (r ≡ some left) × (losses left t ≡ known)
left_of none t known e = cc
left_of (some left) t known e = (left, refl, some_same (losses left t) known e)

module _ (others : Schema) where
  step-Restores :
      (m : Migration) (ms : List Migration) (t : Schema) (r : Option Schema)
      → run m.upgrade t ≡ r
      → are_free_of others m.upgrade ≡ true
      → are_free_of others m.downgrade ≡ true
      → ((t' : Schema) → losses_from t' ms ≡ all_known ms → Restores others t' ms)
      → elim r [ none ↦ [] | some t' ↦ with_losses (run m.downgrade t') t ∷ losses_from t' ms ]
        ≡ some (known_losses m) ∷ all_known ms
      → Restores others t (m ∷ ms)
  step-Restores m ms t none e up down rest h = cc
  step-Restores m ms t (some t') e up down rest h =
      let (left, back, same) =
        left_of (run m.downgrade t') t (known_losses m)
          (head_same _ _ (losses_from t' ms) (all_known ms) h) in
      (
        t',
        left,
        beside others (run m.upgrade t) _ t' e (run_frame others m.upgrade t up),
        beside others (run m.downgrade t') _ left back (run_frame others m.downgrade t' down),
        same,
        rest t' (tail_same (with_losses (run m.downgrade t') t) (some (known_losses m)) _ _ h),
      )

  all-Restores :
      (ms : List Migration) (t : Schema)
      → both_free_of others ms ≡ true
      → losses_from t ms ≡ all_known ms
      → Restores others t ms
  all-Restores [] t free h = tt
  all-Restores (m ∷ ms) t free h =
      let up = are_free_of others m.upgrade in
      let down = are_free_of others m.downgrade in
      let here = and_left (up && down) (both_free_of others ms) free in
      step-Restores m ms t (run m.upgrade t) refl (and_left up down here) (and_right up down here)
        (λ t'. all-Restores ms t' (and_right (up && down) (both_free_of others ms) free)) h

  -- On every database in which no name is in use that the history creates, all the way up: the
  -- downgrade of each migration, run right after its upgrade, succeeds, leaves the tables of others
  -- alone and gives back the tables that were there, with their columns, constraints and indexes;
  -- except that `28bba7523965` gives back two columns as nullable that were NOT NULL.
  pub versions-Restores : both_free_of others versions ≡ true → Restores others [] versions
  unfolding run
  versions-Restores free = all-Restores versions [] free refl
