-- ===== src/Tests/Schemas.antt =====
-- The theorems on the migrations, applied to sample schemas.
use event_saver.Prelude.{true, false, ◌≡◌, refl, inl, inr, Option, none, some, [], ◌∷◌}
use event_saver.Migrations.Schema.{Schema, Table, run, text_column, ascending}
use event_saver.Migrations.Versions.{versions, is_ordered, heads}
use event_saver.Migrations.Versions.Terms.{column, key, index}
use event_saver.Migrations.Versions.Projections.{projections}
use event_saver.Migrations.History.{upgrade_all}
use event_saver.Migrations.RoundTrip.{downgrade-upgrade}
use event_saver.Migrations.Restores.{Restores, versions-Restores}

-- Tables of another program.
abbrev foreign_table : Table
foreign_table = record {
  name = "settings";
  columns = column "name" text_column key none ∷ [];
  constraints = [];
  indexes = [];
}

abbrev others : Schema
others = foreign_table ∷ []

abbrev created : Option Schema → Schema
created none = []
created (some s) = s

abbrev with_projections : Schema
with_projections = created (run projections.upgrade others)

upgraded : run projections.upgrade others ≡ some with_projections
unfolding run
upgraded = refl

downgrade-upgrade_example : run projections.downgrade with_projections ≡ some others
downgrade-upgrade_example =
    downgrade-upgrade projections others with_projections (inr (inr (inr (inl refl)))) refl refl
      upgraded

versions-Restores_example : Restores others [] versions
versions-Restores_example = versions-Restores others refl

-- An index of another program takes the name of one of the service's: the upgrade fails.
abbrev taken : Schema
taken =
    record foreign_table {
      indexes = index "ix_bookings_last_seen_desc" (ascending "name" ∷ []) false none ∷ [];
    }
    ∷ []

upgrade_of_taken : upgrade_all versions taken ≡ none
unfolding upgrade_all
upgrade_of_taken = refl

versions_in_order : is_ordered [] versions ≡ true
versions_in_order = refl

-- The merges leave one head.
one_head : heads versions versions ≡ "d8f2a6c41b39" ∷ []
one_head = refl
