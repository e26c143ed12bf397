-- ===== src/System.antt =====
-- The whole service: the consumer of messages and the backfill run beside each other on one
-- database (event_saver/main.py starts both).
pub mod Log
use event_saver.Prelude.{
  ℕ, ◌+◌, ◌≡◌, refl, ap, ◌∙◌, String, Bool, true, false, any, Option, List, [], ◌∷◌, ◌++◌,
  if-either,
}
use event_saver.Py.Value.{Value}
use event_saver.Py.Exception.{Result, ok, raise}
use event_saver.Env.{Env}
use event_saver.Db.Rows.{Event}
use event_saver.Db.Table.{insert_or_ignore}
use event_saver.Db.Tables.{Db, events_clash}
use event_saver.Db.Session.{Reply}
use event_saver.Db.Events.{insert_event}
use event_saver.Db.Bookings.{
  RoleColumn, upsert_booking, update_client_row, backfill_by_email, insert_organizer_history,
}
use event_saver.Db.Keeps.{Keeps, KeepsResult, Keeps-statement, keeps_logic, IfOk}
use event_saver.Db.Statement.{Statement, run_statement}
use event_saver.Db.Statement.Frame.{IsProjectedFrom, run_statement_frame}
use event_saver.Db.Consistency.{IsConsistent}
use event_saver.Db.Consistency.Statements.{set_column-IsConsistent}
use event_saver.Domain.Models.{EventAttributes}
use event_saver.Ingest.Repositories.{
  find_by_booking_uid, execute_sql, update_client, save_organizer_history, backfill_sql,
}
use event_saver.Ingest.Handlers.{projection_handlers}
use event_saver.Ingest.UseCase.{execute}
use event_saver.Ingest.EventStore.{World, open_session, save_event}
use event_saver.Ingest.Walk.{IsForStatements, execute-holds, projection_handlers-IsForHandlers}
use event_saver.Ingest.Consistency.{save_event-IsConsistent, close_keeps, run_result-Keeps}
use event_saver.Consumer.{CloudEvent, RetryConfig, consume_event}
use event_saver.Consumer.Keeping.{consume_event_keeps}
use event_saver.Backfill.Queries.{fill_column}
use event_saver.Backfill.Cycle.{Resolver, run_once}
use event_saver.Backfill.Preserves.{run_once_keeps}

module _ (env : Env) (retry : RetryConfig) (batch_size : ℕ) where
  -- What may happen next: a message is consumed, a cycle of the backfill runs, time passes, or the
  -- database begins to answer otherwise.
  pub data Step : World → World → Type 0 where
    consumes :
        (queue_name : String) (event : Result CloudEvent) (w : World)
        → Step w (consume_event env (projection_handlers env) retry queue_name event w).1
    backfills : (resolver : Resolver) (w : World) → Step w (run_once env resolver batch_size w).1
    waits : (time : ℕ) (w : World) → Step w (record w { now = w.now + time })
    answers_with : (replies : List Reply) (w : World) → Step w (record w { replies = replies })

  pub data Reaches : World → World → Type 0 where
    here : (w : World) → Reaches w w
    next : (u v w : World) → Step u v → Reaches v w → Reaches u w

  -- A property that saving an event and filling a column keep.
  pub record IsKept (P : Db → Type 0) : Type 0 where
    pub saved :
        (a : EventAttributes) (w : World)
        → P w.committed
        → P (save_event env (projection_handlers env) a w).1.committed
    pub filled : (k : RoleColumn) (id u : ℕ) (db : Db) → P db → P (fill_column k id u db)

  step_keeps : (P : Db → Type 0) (u v : World) → IsKept P → Step u v → P u.committed → P v.committed
  step_keeps P u v k (consumes queue_name event _) h =
      consume_event_keeps env (projection_handlers env) retry P queue_name event u k.saved h
  step_keeps P u v k (backfills resolver _) h =
      run_once_keeps env resolver batch_size P u k.filled h
  step_keeps P u v k (waits time _) h = h
  step_keeps P u v k (answers_with replies _) h = h

  pub reaches_keeps :
      (P : Db → Type 0) (u w : World) → IsKept P → Reaches u w → P u.committed → P w.committed
  reaches_keeps P u w k (here _) h = h
  reaches_keeps P u w k (next _ v _ step rest) h =
      reaches_keeps P v w k rest (step_keeps P u v k step h)

  consistency-IsKept : IsKept IsConsistent
  unfolding fill_column
  consistency-IsKept = record {
    saved = save_event-IsConsistent env;
    filled = λ k id u db c. set_column-IsConsistent _ k u db c;
  }

  -- Every world that the service reaches from one with a consistent database, in whatever order
  -- messages, cycles of the backfill and outages come, has a consistent database.
  pub Reaches-IsConsistent :
      (u w : World) → Reaches u w → IsConsistent u.committed → IsConsistent w.committed
  Reaches-IsConsistent u w steps c = reaches_keeps IsConsistent u w consistency-IsKept steps c
