-- ===== src/System/Log.antt =====
-- The table `events` as an append-only log of distinct events: what the service as a whole promises
-- of it.
use event_saver.Prelude.{ℕ, ◌≡◌, String, false, any, Option, none, some, List, ◌∷◌, if-either}
use event_saver.Py.Exception.{Result, ok, raise}
use event_saver.Env.{Env}
use event_saver.Db.Rows.{Event}
use event_saver.Db.Table.{insert_or_ignore}
use event_saver.Db.Tables.{Db, events_clash}
use event_saver.Db.Events.{insert_event}
use event_saver.Domain.Models.{BookingData}
use event_saver.Py.Datetime.{Datetime}
use event_saver.Db.Bookings.{
  RoleColumn, upsert_booking, update_client_row, backfill_by_email, insert_organizer_history,
}
use event_saver.Db.Keeps.{KeepsResult, Keeps-statement, keeps_logic, IfOk}
use event_saver.Db.Statement.{run_statement}
use event_saver.Db.Statement.Frame.{IsProjectedFrom, run_statement_frame}
use event_saver.Domain.Models.{EventAttributes}
use event_saver.Ingest.Repositories.{
  find_by_booking_uid, execute_sql, update_client, save_organizer_history, backfill_sql,
}
use event_saver.Ingest.Handlers.{projection_handlers}
use event_saver.Ingest.UseCase.{execute}
use event_saver.Ingest.EventStore.{World, open_session, save_event}
use event_saver.Ingest.Walk.{IsForStatements, execute-holds, projection_handlers-IsForHandlers}
use event_saver.Ingest.Consistency.{close_keeps, run_result-Keeps}
use event_saver.Consumer.{RetryConfig}
use event_saver.Backfill.Queries.{fill_column}
use event_saver.System.{Reaches, IsKept, reaches_keeps}

-- The abstract log: it starts as `log`, and an event can only be added, when it clashes with none.
pub data IsAppended (log : List Event) : List Event → Type 0 where
  unchanged : IsAppended log log
  append :
      (e : Event) (later : List Event)
      → any (events_clash e) later ≡ false
      → IsAppended log later
      → IsAppended log (e ∷ later)

abbrev Logs : List Event → Db → Type 0
Logs log db = IsAppended log db.events

insert_or_ignore-IsAppended :
    (log : List Event) (e : Event) (later : List Event)
    → IsAppended log later
    → IsAppended log (insert_or_ignore events_clash e later)
unfolding insert_or_ignore
insert_or_ignore-IsAppended log e later h =
    if-either (IsAppended log) (any (events_clash e) later) (λ _. h) (λ new. append e later new h)

insert_event-Logs :
    (log : List Event) (e : Event) (db : Db)
    → Logs log db
    → KeepsResult (Logs log) (insert_event e db)
unfolding insert_event
insert_event-Logs log e db h = insert_or_ignore-IsAppended log e db.events h

upsert_booking-Logs :
    (log : List Event) (d : BookingData) (t : Datetime) (o c : Option ℕ) (db : Db)
    → Logs log db
    → KeepsResult (Logs log) (upsert_booking d t o c db)
unfolding upsert_booking
upsert_booking-Logs log d t o c db h = h

history-Logs :
    (log : List Event) (ref u : ℕ) (e : String) (t : Datetime) (db : Db)
    → Logs log db
    → Logs log (insert_organizer_history ref u e t db)
unfolding insert_organizer_history
history-Logs log ref u e t db h = if-either (Logs log) _ (λ _. h) (λ _. h)

projected-Logs :
    (log : List Event) (db : Db) (r : Result Db)
    → IfOk (IsProjectedFrom db) r
    → Logs log db
    → IfOk (Logs log) r
projected-Logs log db (ok after) same h = rw same.events h
projected-Logs log db (raise e) same h = tt

module _ (env : Env) where
  backfill_sql-Logs :
      (log : List Event) (k : RoleColumn) (email : Option String) (u : ℕ) (db : Db)
      → Logs log db
      → Logs log (backfill_sql env k email u db)
  unfolding backfill_by_email
  backfill_sql-Logs log k none u db h = h
  backfill_sql-Logs log k (some email) u db h = h

  Logs-IsForStatements : (log : List Event) → IsForStatements env (keeps_logic (Logs log))
  unfolding find_by_booking_uid execute_sql update_client save_organizer_history update_client_row
  Logs-IsForStatements log = record {
    for_insert_event = λ e. Keeps-statement _ (insert_event-Logs log e);
    for_upsert_booking = λ d t o c. Keeps-statement _ (upsert_booking-Logs log d t o c);
    for_select_booking = λ uid. Keeps-statement _ (λ db h. h);
    for_update_client = λ ref client. Keeps-statement _ (λ db h. h);
    for_backfill = λ k email u. Keeps-statement _ (backfill_sql-Logs log k email u);
    for_organizer_history = λ ref u e t. Keeps-statement _ (history-Logs log ref u e t);
    for_projection =
        run_result-Keeps (Logs log)
          (λ sql db h. projected-Logs log db (run_statement sql db) (run_statement_frame sql db) h);
  }

  save_event-Logs :
      (log : List Event) (a : EventAttributes) (w : World)
      → Logs log w.committed
      → Logs log (save_event env (projection_handlers env) a w).1.committed
  unfolding save_event
  save_event-Logs log a w h =
      let run = execute env (projection_handlers env) w.now a (open_session w) in
      close_keeps (Logs log) run.0 run.1 w
        ((execute-holds (Logs-IsForStatements log) (projection_handlers env)
            (projection_handlers-IsForHandlers env (keeps_logic (Logs log))) w.now a).at
          (open_session w) h)
        h

module _ (env : Env) (retry : RetryConfig) (batch_size : ℕ) where
  Logs-IsKept : (log : List Event) → IsKept env retry batch_size (Logs log)
  unfolding fill_column
  Logs-IsKept log = record { saved = save_event-Logs env log; filled = λ k id u db h. h }

  -- The service refines an append-only log of distinct events: in whatever order messages, cycles
  -- of the backfill and outages come, the table of events is only ever extended, by events that
  -- clash with none stored before, and no stored event is changed or lost.
  pub Reaches-IsAppended :
      (u w : World)
      → Reaches env retry batch_size u w
      → IsAppended u.committed.events w.committed.events
  Reaches-IsAppended u w steps =
      reaches_keeps env retry batch_size (Logs u.committed.events) u w
        (Logs-IsKept u.committed.events) steps unchanged
