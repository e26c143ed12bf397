-- ===== src/Ingest/Consistency.antt =====
-- The database stays consistent, whatever is ingested and whatever fails.
use event_saver.Prelude.{ℕ, String, Option, none, some, List, [], ◌∷◌}
use event_saver.Py.Exception.{Result, ok, raise}
use event_saver.Env.{Env}
use event_saver.Domain.Models.{EventAttributes}
use event_saver.Db.Tables.{Db}
use event_saver.Db.Session.{Reply, answers, fails, lost, Session}
use event_saver.Db.Bookings.{RoleColumn}
use event_saver.Db.Statement.{Statement, run_statement}
use event_saver.Db.Keeps.{Keeps, KeepsResult, Keeps-statement, Keeps-pure, keeps_logic, IfOk}
use event_saver.Db.Consistency.{IsConsistent}
use event_saver.Db.Consistency.Statements.{
  insert_event-IsConsistent, upsert_booking-IsConsistent, update_client_row-IsConsistent,
  backfill_by_email-IsConsistent, insert_organizer_history-IsConsistent,
}
use event_saver.Db.Consistency.Projected.{run_statement-IsConsistent}
use event_saver.Ingest.Repositories.{
  find_by_booking_uid, execute_sql, update_client, save_organizer_history, backfill_sql,
}
use event_saver.Ingest.ProjectionExecutor.{run_result, without_row}
use event_saver.Ingest.Handlers.{projection_handlers}
use event_saver.Ingest.UseCase.{execute}
use event_saver.Ingest.EventStore.{World, open_session, commit_reply, close_session, save_event}
use event_saver.Ingest.Walk.{IsForStatements, execute-holds, projection_handlers-IsForHandlers}

pub without_row_keeps : (P : Db → Type 0) (r : Result Db) → IfOk P r → KeepsResult P (without_row r)
without_row_keeps P (ok db) h = h
without_row_keeps P (raise e) h = tt

pub run_result-Keeps :
    (P : Db → Type 0)
    → ((sql : Statement) (db : Db) → P db → IfOk P (run_statement sql db))
    → (o : Option Statement) → Keeps P (run_result o)
unfolding run_result
run_result-Keeps P kept none = Keeps-pure tt
run_result-Keeps P kept (some sql) =
    Keeps-statement _ (λ db h. without_row_keeps P (run_statement sql db) (kept sql db h))

commit_keeps :
    (P : Db → Type 0) (replies : List Reply) (s : Session) (w : World)
    → P s.db
    → P w.committed
    → P (commit_reply replies s w).1.committed
commit_keeps P [] s w hs hw = hs
commit_keeps P (answers ∷ rest) s w hs hw = hs
commit_keeps P (fails e ∷ rest) s w hs hw = hw
commit_keeps P (lost e ∷ rest) s w hs hw = hs

pub close_keeps :
    (P : Db → Type 0) (r : Result (Unit {0})) (s : Session) (w : World)
    → P s.db
    → P w.committed
    → P (close_session r s w).1.committed
close_keeps P (ok _) s w hs hw = commit_keeps P s.replies s w hs hw
close_keeps P (raise e) s w hs hw = hw

module _ (env : Env) where
  backfill_sql-IsConsistent :
      (k : RoleColumn) (email : Option String) (u : ℕ) (db : Db)
      → IsConsistent db
      → IsConsistent (backfill_sql env k email u db)
  backfill_sql-IsConsistent k none u db c = c
  backfill_sql-IsConsistent k (some email) u db c =
      backfill_by_email-IsConsistent env k _ email u db c

  consistency-IsForStatements : IsForStatements env (keeps_logic IsConsistent)
  unfolding find_by_booking_uid execute_sql update_client save_organizer_history
  consistency-IsForStatements = record {
    for_insert_event = λ e. Keeps-statement _ (insert_event-IsConsistent e);
    for_upsert_booking = λ d t o c. Keeps-statement _ (upsert_booking-IsConsistent d t o c);
    for_select_booking = λ uid. Keeps-statement _ (λ db h. h);
    for_update_client = λ ref client. Keeps-statement _ (update_client_row-IsConsistent ref client);
    for_backfill = λ k email u. Keeps-statement _ (backfill_sql-IsConsistent k email u);
    for_organizer_history =
        λ ref u e t. Keeps-statement _ (insert_organizer_history-IsConsistent ref u e t);
    for_projection = run_result-Keeps IsConsistent run_statement-IsConsistent;
  }

  -- Whatever event is saved and however the database answers, a consistent database stays
  -- consistent: all unique constraints hold and ids stay below their sequences.
  pub save_event-IsConsistent :
      (a : EventAttributes) (w : World)
      → IsConsistent w.committed
      → IsConsistent (save_event env (projection_handlers env) a w).1.committed
  unfolding save_event
  save_event-IsConsistent a w c =
      let run = execute env (projection_handlers env) w.now a (open_session w) in
      close_keeps IsConsistent run.0 run.1 w
        ((execute-holds consistency-IsForStatements (projection_handlers env)
            (projection_handlers-IsForHandlers env (keeps_logic IsConsistent)) w.now a).at
          (open_session w) c)
        c
