-- ===== src/Backfill/Fills.antt =====
-- What a cycle of the backfill may do to the database, and when.
use event_saver.Prelude.{
  and_right, ℕ, ◌≡◌, refl, ap, true, not, ◌&&◌, Option, none, some, List, [], ◌∷◌, is_some, nat_eq,
  if-either,
}
use event_saver.Env.{Env}
use event_saver.Db.Rows.{BookingRecord}
use event_saver.Db.Table.{update_where}
use event_saver.Db.Tables.{Db}
use event_saver.Db.Bookings.{RoleColumn, organizer_column, client_column, column_of, set_column}
use event_saver.Ingest.EventStore.{World}
use event_saver.Backfill.Queries.{fill_column}
use event_saver.Backfill.Cycle.{Resolver, run_once}
use event_saver.Backfill.Preserves.{run_once_keeps}

-- A column that is set keeps its value.
abbrev pub KeepsValue : Option ℕ → Option ℕ → Type 0
KeepsValue none after = Unit
KeepsValue (some u) after = after ≡ some u

-- A booking with some of its empty participant columns filled, and nothing else changed.
pub record IsFilled (b b' : BookingRecord) : Type 0 where
  pub rest :
      b' ≡ record b { organizer_user_id = b'.organizer_user_id; client_user_id = b'.client_user_id }
  pub organizer_user_id : KeepsValue b.organizer_user_id b'.organizer_user_id
  pub client_user_id : KeepsValue b.client_user_id b'.client_user_id

-- Row by row.
abbrev pub AreFilled : List BookingRecord → List BookingRecord → Type 0
AreFilled [] [] = Unit
AreFilled (b ∷ rows) (b' ∷ rows') = IsFilled b b' × AreFilled rows rows'
AreFilled _ _ = ⊥

-- All other tables are what they were.
pub record IsBackfilled (before after : Db) : Type 0 where
  pub rest : after ≡ record before { bookings = after.bookings }
  pub bookings : AreFilled before.bookings after.bookings

KeepsValue-refl : (o : Option ℕ) → KeepsValue o o
KeepsValue-refl none = tt
KeepsValue-refl (some u) = refl

AreFilled-refl : (rows : List BookingRecord) → AreFilled rows rows
AreFilled-refl [] = tt
AreFilled-refl (b ∷ rows) = (
  record {
    rest = refl;
    organizer_user_id = KeepsValue-refl b.organizer_user_id;
    client_user_id = KeepsValue-refl b.client_user_id;
  },
  AreFilled-refl rows,
)

pub IsBackfilled-refl : (db : Db) → IsBackfilled db db
IsBackfilled-refl db = record { rest = refl; bookings = AreFilled-refl db.bookings }

-- a value that the row has or gets where the column was empty
KeepsValue-empty :
    (o o' : Option ℕ) (u : ℕ) → KeepsValue o o' → not (is_some o') ≡ true → KeepsValue o (some u)
KeepsValue-empty none o' u h e = tt
KeepsValue-empty (some v) none u h e = cc
KeepsValue-empty (some v) (some w) u h e = cc

set_column-IsFilled :
    (k : RoleColumn) (u : ℕ) (b r : BookingRecord)
    → not (is_some (column_of k r)) ≡ true
    → IsFilled b r
    → IsFilled b (set_column k u r)
set_column-IsFilled organizer_column u b r empty h = record {
  rest = ap (λ (x : BookingRecord). record x { organizer_user_id = some u }) h.rest;
  organizer_user_id =
      KeepsValue-empty b.organizer_user_id r.organizer_user_id u h.organizer_user_id empty;
  client_user_id = h.client_user_id;
}
set_column-IsFilled client_column u b r empty h = record {
  rest = ap (λ (x : BookingRecord). record x { client_user_id = some u }) h.rest;
  organizer_user_id = h.organizer_user_id;
  client_user_id = KeepsValue-empty b.client_user_id r.client_user_id u h.client_user_id empty;
}

update-AreFilled :
    (k : RoleColumn) (id u : ℕ) (rows rows' : List BookingRecord)
    → AreFilled rows rows'
    → AreFilled rows
        (update_where (λ b. nat_eq b.id id && not (is_some (column_of k b))) (set_column k u) rows')
unfolding update_where
update-AreFilled k id u [] [] h = tt
update-AreFilled k id u [] (r ∷ rows') h = h
update-AreFilled k id u (b ∷ rows) [] h = h
update-AreFilled k id u (b ∷ rows) (r ∷ rows') (first, others) = (
  if-either (IsFilled b) (nat_eq r.id id && not (is_some (column_of k r)))
      (λ e. set_column-IsFilled k u b r (and_right _ _ e) first) (λ _. first),
  update-AreFilled k id u rows rows' others,
)

pub fill_column-IsBackfilled :
    (before : Db) (k : RoleColumn) (id u : ℕ) (db : Db)
    → IsBackfilled before db
    → IsBackfilled before (fill_column k id u db)
unfolding fill_column
fill_column-IsBackfilled before k id u db h = record {
  rest = ap (λ (d : Db). record d { bookings = (fill_column k id u db).bookings }) h.rest;
  bookings = update-AreFilled k id u before.bookings db.bookings h.bookings;
}

module _ (env : Env) (resolver : Resolver) (batch_size : ℕ) where
  -- Whatever the users service answers and however the database answers, a cycle changes the
  -- database only by filling empty participant columns of bookings.
  pub run_once-IsBackfilled :
      (w : World) → IsBackfilled w.committed (run_once env resolver batch_size w).1.committed
  run_once-IsBackfilled w =
      run_once_keeps env resolver batch_size (IsBackfilled w.committed) w
        (fill_column-IsBackfilled w.committed) (IsBackfilled-refl w.committed)
