-- ===== src/Backfill/Direct.antt =====
-- A cycle of the backfill that asks for every slot, as a reference for the one with a cache.
pub mod Simulation
use event_saver.Prelude.{
  and_true, ℕ, ◌≡◌, refl, sym, String, true, Bool, false, Option, none, some, List, [], ◌∷◌, length,
  is_some, eq_iff, ◌==◌, if◌then◌else◌,
}
use event_saver.Py.Exception.{Result, ok, raise}
use event_saver.Env.{Env}
use event_saver.Db.Rows.{BookingRecord}
use event_saver.Db.Session.{Session, Tx, statement}
use event_saver.Db.Bookings.{RoleColumn, organizer_column, client_column, column_of}
use event_saver.Ingest.Repositories.{text_of_role, execute_sql}
use event_saver.Ingest.EventStore.{World, open_session, close_session}
use event_saver.Backfill.Queries.{latest_email, fill_column}
use event_saver.Backfill.Cycle.{
  Cycle, Cy, Key, Resolver, BackfillSummary, return, in_session, proceed, ◌>>=◌, ◌>>◌, answered,
  cached_or_asked, resolve_cached, lookup, key_eq, fill_slot, with_email, backfill_slot,
  backfill_empty, backfill_row, backfill_rows, start_cycle, catch_unavailable, finish,
  after_candidates, candidates, run_once, count_missing_email,
}

-- A users service that does not change during a cycle.
abbrev pub Answers : Type 0
Answers = Key → Result (Option ℕ)

abbrev pub steady : Answers → Resolver
steady answer asked = answer

module _ (env : Env) (answer : Answers) where
  abbrev pub ask : Key → Cy (Option ℕ)
  ask key c = (answer key, c)

  abbrev pub direct_with_email : BookingRecord → RoleColumn → Option String → Cy (Unit {0})
  direct_with_email row column none = count_missing_email
  direct_with_email row column (some email) = do
    user_id ← ask (email, text_of_role column)
    fill_slot env (steady answer) row column user_id

  abbrev pub latest : BookingRecord → RoleColumn → Tx (Option String)
  latest row k = statement (λ db. ok (latest_email env row.booking_uid (text_of_role k) db, db))

  abbrev pub direct_slot : BookingRecord → RoleColumn → Cy (Unit {0})
  direct_slot row column = in_session (latest row column) >>= direct_with_email row column

  abbrev pub direct_empty : BookingRecord → RoleColumn → Cy (Unit {0})
  direct_empty row column =
      if is_some (column_of column row) then return tt else direct_slot row column

  unfoldable pub direct_rows : List BookingRecord → Cy (Unit {0})
  unfolding ◌>>=◌
  direct_rows [] = return tt
  direct_rows (row ∷ rows) =
      (direct_empty row organizer_column >> direct_empty row client_column) >> direct_rows rows

  -- `run_once`, asking for every slot
  abbrev pub after_direct :
      Result (List BookingRecord) × Session → World → Result BackfillSummary × World
  after_direct (raise e, s) w = let (r, w') = close_session (raise e) s w in (raise e, w')
  after_direct (ok rows, s) w =
      let (r, c) = direct_rows rows (start_cycle env (steady answer) s) in
      finish env (steady answer) (length rows) (catch_unavailable env (steady answer) r) c w

  abbrev pub direct_once : ℕ → World → Result BackfillSummary × World
  direct_once batch_size w =
      after_direct (candidates env (steady answer) batch_size (open_session w)) w
