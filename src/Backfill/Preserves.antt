-- ===== src/Backfill/Preserves.antt =====
-- Properties of the database that a cycle of the backfill keeps, whether it returns or raises.
use event_saver.Prelude.{ℕ, Bool, Option, none, some, List, [], ◌∷◌, ◌≡◌, refl, length}
use event_saver.Ingest.Consistency.{close_keeps}
use event_saver.Backfill.Walk.{Ends, Ensures, Steps, backfill_rows-Ensures}
use event_saver.Py.Exception.{Exception, Result, ok, raise}
use event_saver.Env.{Env}
use event_saver.Db.Rows.{BookingRecord}
use event_saver.Db.Tables.{Db}
use event_saver.Db.Session.{Reply, answers, fails, lost, reply_to, Session, Tx, statement}
use event_saver.Db.Bookings.{RoleColumn}
use event_saver.Db.Keeps.{Keeps, Keeps-statement}
use event_saver.Ingest.Repositories.{execute_sql}
use event_saver.Ingest.EventStore.{World, open_session}
use event_saver.Backfill.Queries.{fill_column, select_candidates}
use event_saver.Backfill.Cycle.{
  Cycle, Key, Resolver, in_session, answered, cached_or_asked, resolve_cached, backfill_rows,
  start_cycle, catch_unavailable, finish, after_candidates, candidates, run_once, lookup,
}

module _ (P : Db → Type 0) where
  -- `P` of the session's database
  abbrev OfSession : Cycle → Type 0
  OfSession c = P c.session.db

  abbrev OfRaised : Exception → Cycle → Type 0
  OfRaised e c = P c.session.db

  either_way : {A : Type 0} (p : Result A × Cycle) → P p.1.session.db → Ends OfSession OfRaised p
  either_way (ok a, c) h = h
  either_way (raise e, c) h = h

  of_ends : {A : Type 0} (p : Result A × Cycle) → Ends OfSession OfRaised p → P p.1.session.db
  of_ends (ok a, c) h = h
  of_ends (raise e, c) h = h

  session-Ensures : {A : Type 0} (m : Tx A) → Keeps P m → Ensures OfSession OfRaised (in_session m)
  unfolding in_session
  session-Ensures m kept = record { at = λ c h. either_way (in_session m c) (kept.at c.session h) }

  module _ (env : Env) (resolver : Resolver)
      (filled : (k : RoleColumn) (id u : ℕ) (db : Db) → P db → P (fill_column k id u db)) where
    answered-Ends :
        (key : Key) (r : Result (Option ℕ)) (c : Cycle)
        → P c.session.db
        → Ends OfSession OfRaised (answered env resolver key r c)
    answered-Ends key (ok v) c h = h
    answered-Ends key (raise e) c h = h

    asked-Ends :
        (key : Key) (o : Option (Option ℕ)) (c : Cycle)
        → P c.session.db
        → Ends OfSession OfRaised (cached_or_asked env resolver key o c)
    asked-Ends key (some v) c h = h
    asked-Ends key none c h = answered-Ends key (resolver c.asked key) c h

    steps : Steps env resolver OfSession OfRaised
    unfolding resolve_cached execute_sql
    steps = record {
      reads = λ row k. session-Ensures _ (Keeps-statement _ (λ db h. h));
      fills = λ row k u. session-Ensures _ (Keeps-statement _ (λ db h. filled k row.id u db h));
      resolves = λ key. record { at = λ c h. asked-Ends key (lookup key c.cache) c h };
      counts_resolved = record { at = λ c h. h };
      counts_unresolved = record { at = λ c h. h };
      counts_missing_email = record { at = λ c h. h };
    }

    backfill_rows_keeps :
        (rows : List BookingRecord) (c : Cycle)
        → P c.session.db
        → P (backfill_rows env resolver rows c).1.session.db
    backfill_rows_keeps rows c h =
        of_ends (backfill_rows env resolver rows c)
          ((backfill_rows-Ensures env resolver OfSession OfRaised steps rows).at c h)

-- A query gives its answer or raises, and changes nothing.
abbrev pub IsRead : {A : Type 0} → A → Db → Result A × Session → Type 0
IsRead a db (ok b, s) = (b ≡ a) × (s.db ≡ db)
IsRead a db (raise e, s) = s.db ≡ db

IsRead-reply :
    {A : Type 0} (f : Db → A) (replies : List Reply) (s : Session)
    → IsRead (f s.db) s.db (reply_to replies (λ db. ok (f db, db)) s)
IsRead-reply f [] s = (refl, refl)
IsRead-reply f (answers ∷ rest) s = (refl, refl)
IsRead-reply f (fails e ∷ rest) s = refl
IsRead-reply f (lost e ∷ rest) s = refl

pub statement-IsRead :
    {A : Type 0} (f : Db → A) (s : Session)
    → IsRead (f s.db) s.db (statement (λ db. ok (f db, db)) s)
unfolding statement
statement-IsRead f s = IsRead-reply f s.replies s

IsRead-db : {A : Type 0} (a : A) (db : Db) (p : Result A × Session) → IsRead a db p → p.1.db ≡ db
IsRead-db a db (ok b, s) h = h.1
IsRead-db a db (raise e, s) h = h

module _ (env : Env) (resolver : Resolver) (batch_size : ℕ) where
  pub candidates_db : (s : Session) → (candidates env resolver batch_size s).1.db ≡ s.db
  candidates_db s = IsRead-db _ s.db _ (statement-IsRead (select_candidates batch_size) s)

  finish_keeps :
      (P : Db → Type 0) (scanned : ℕ) (r : Result Bool) (c : Cycle) (w : World)
      → P c.session.db
      → P w.committed
      → P (finish env resolver scanned r c w).1.committed
  finish_keeps P scanned (ok aborted) c w h before = close_keeps P (ok tt) c.session w h before
  finish_keeps P scanned (raise e) c w h before = before

  after_keeps :
      (P : Db → Type 0) (p : Result (List BookingRecord) × Session) (w : World)
      → ((k : RoleColumn) (id u : ℕ) (db : Db) → P db → P (fill_column k id u db))
      → P p.1.db
      → P w.committed
      → P (after_candidates env resolver p w).1.committed
  after_keeps P (raise e, s) w filled h before = before
  after_keeps P (ok rows, s) w filled h before =
      let cycle = backfill_rows env resolver rows (start_cycle env resolver s) in
      finish_keeps P (length rows) (catch_unavailable env resolver cycle.0) cycle.1 w
        (backfill_rows_keeps P env resolver filled rows (start_cycle env resolver s) h) before

  -- what filling a column keeps, a cycle keeps
  pub run_once_keeps :
      (P : Db → Type 0) (w : World)
      → ((k : RoleColumn) (id u : ℕ) (db : Db) → P db → P (fill_column k id u db))
      → P w.committed
      → P (run_once env resolver batch_size w).1.committed
  unfolding run_once
  run_once_keeps P w filled before =
      after_keeps P (candidates env resolver batch_size (open_session w)) w filled
        (rw (candidates_db (open_session w)) before) before
