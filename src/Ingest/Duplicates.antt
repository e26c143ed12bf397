-- ===== src/Ingest/Duplicates.antt =====
-- An event that is stored already is skipped, and an event that was ingested is stored.
use event_saver.Prelude.{
  ℕ, String, ◌≡◌, ◌≢◌, refl, Bool, true, false, Option, none, some, List, [], ◌∷◌, arith, any,
  eq_refl, if◌then◌else◌,
}
use event_saver.Py.Value.{Value, null, bool, datetime}
use event_saver.Py.Exception.{Result, ok, raise}
use event_saver.Env.{Env}
use event_saver.Domain.Models.{ParsedEvent, EventAttributes}
use event_saver.Domain.EventParser.{parse, parse_occurred_at}
use event_saver.Db.Rows.{Event}
use event_saver.Db.Table.{insert_or_ignore, any-insert_or_ignore}
use event_saver.Db.Tables.{Db, events_clash}
use event_saver.Db.Session.{Tx, pure, reply_to, continue, Reply, answers, fails, lost, Session}
use event_saver.Db.Events.{insert_event}
use event_saver.Db.Bookings.{
  RoleColumn, upsert_booking, update_client_row, backfill_by_email, insert_organizer_history,
}
use event_saver.Db.Statement.{
  Statement, upsert_meeting_link, delete_meeting_link, upsert_email_sent, upsert_email_status,
  insert_telegram_notification, insert_email_status_history, insert_chat_event, update_chat_read,
  insert_video_event, insert_lifecycle_event, run_statement, write_meeting_link,
  remove_meeting_link, write_email_sent, write_email_status, write_telegram_notification,
  write_email_status_history, write_chat_event, mark_chat_read, write_video_event,
  write_lifecycle_event, text_not_null, text_or_null,
}
use event_saver.Db.Keeps.{KeepsResult, Keeps-statement, keeps_logic, IfOk, IfOk-bind, if-IfOk}
use event_saver.Db.Logic.{holds_if}
use event_saver.Ingest.Repositories.{
  event_row, save, find_by_booking_uid, execute_sql, update_client, save_organizer_history,
  backfill_sql,
}
use event_saver.Ingest.ProjectionExecutor.{ProjectionHandler}
use event_saver.Ingest.UseCase.{execute}
use event_saver.Ingest.Walk.{IsForStatements, IsForHandlers, process_new-holds}
use event_saver.Ingest.Consistency.{run_result-Keeps}

-- The events table holds a row that the unique constraints set against `row`.
abbrev pub IsStored : Event → Db → Type 0
IsStored row db = any (events_clash row) db.events ≡ true

-- No projection touches the events.
run_statement-events :
    (P : List Event → Type 0) (sql : Statement) (db : Db)
    → P db.events
    → IfOk (λ d. P d.events) (run_statement sql db)
unfolding run_statement write_meeting_link remove_meeting_link write_email_sent write_email_status
    write_telegram_notification write_email_status_history write_chat_event mark_chat_read
    write_video_event write_lifecycle_event
run_statement-events P (upsert_meeting_link p) db h =
    IfOk-bind (λ d. P d.events) (text_not_null p.meeting_url) _ (λ _. h)
run_statement-events P (delete_meeting_link ref user) db h = h
run_statement-events P (upsert_email_sent p) db h = h
run_statement-events P (upsert_email_status p) db h = h
run_statement-events P (insert_telegram_notification row) db h = h
run_statement-events P (insert_email_status_history p) db h = h
run_statement-events P (insert_chat_event p) db h =
    IfOk-bind (λ d. P d.events) (text_not_null p.chat_event_type) _ (λ _. h)
run_statement-events P (update_chat_read p) db h =
    IfOk-bind (λ d. P d.events) (text_or_null p.last_read_message_id) _ (λ _. h)
run_statement-events P (insert_video_event p) db h =
    IfOk-bind (λ d. P d.events) (text_not_null p.video_event_type) _ (λ _. h)
run_statement-events P (insert_lifecycle_event row) db h = if-IfOk (λ d. P d.events) _ _ _ h

pub organizer_history_keeps :
    (P : List Event → Type 0) (b : Bool) (x y : Db)
    → P x.events
    → P y.events
    → P (if b then x else y).events
organizer_history_keeps P true x y hx hy = hx
organizer_history_keeps P false x y hx hy = hy

-- A property of the events that no new event ends.
abbrev Grows : (List Event → Type 0) → Type 0
Grows P = (e : Event) (rows : List Event) → P rows → P (insert_or_ignore events_clash e rows)

module _ (env : Env) (P : List Event → Type 0) (grows : Grows P) where
  insert_event_keeps :
      (e : Event) (db : Db) → P db.events → KeepsResult (λ d. P d.events) (insert_event e db)
  unfolding insert_event
  insert_event_keeps e db h = grows e db.events h

  backfill_sql_keeps :
      (k : RoleColumn) (email : Option String) (u : ℕ) (db : Db)
      → P db.events
      → P (backfill_sql env k email u db).events
  unfolding backfill_by_email
  backfill_sql_keeps k none u db h = h
  backfill_sql_keeps k (some email) u db h = h

  -- Events are never removed.
  pub events-IsForStatements : IsForStatements env (keeps_logic (λ db. P db.events))
  unfolding find_by_booking_uid execute_sql update_client save_organizer_history upsert_booking
      update_client_row insert_organizer_history
  events-IsForStatements = record {
    for_insert_event = λ e. Keeps-statement _ (insert_event_keeps e);
    for_upsert_booking = λ d t o c. Keeps-statement _ (λ db h. h);
    for_select_booking = λ uid. Keeps-statement _ (λ db h. h);
    for_update_client = λ ref client. Keeps-statement _ (λ db h. h);
    for_backfill = λ k email u. Keeps-statement _ (backfill_sql_keeps k email u);
    for_organizer_history =
        λ ref u e t. Keeps-statement _ (λ db h. organizer_history_keeps P _ _ _ h h);
    for_projection = run_result-Keeps (λ db. P db.events) (run_statement-events P);
  }

events_clash_self : (row : Event) → events_clash row row ≡ true
events_clash_self row = rw (eq_refl row.event_id)

insert_or_ignore-stored :
    (row : Event) (rows : List Event)
    → any (events_clash row) (insert_or_ignore events_clash row rows) ≡ true
unfolding insert_or_ignore
insert_or_ignore-stored row rows = ground (arith, events_clash_self row)

-- A session in which every statement is answered.
abbrev pub quiet : Db → Session
quiet db = record { db = db; replies = []; metrics = [] }

module _ (env : Env) (handlers : List ProjectionHandler) where
  module _ (P : List Event → Type 0) (grows : Grows P)
      (for_handlers : IsForHandlers (keeps_logic (λ db. P db.events)) handlers) where
    -- what holds once the event is inserted, holds after the run
    pub execute_keeps :
        (now : ℕ) (a : EventAttributes) (event : ParsedEvent) (db : Db)
        → parse env now a ≡ ok event
        → P (insert_or_ignore events_clash (event_row event) db.events)
        → P (execute env handlers now a (quiet db)).1.db.events
    unfolding execute save insert_event
    execute_keeps now a event db parsed inserted =
        let L = keeps_logic (λ d. P d.events) in
        rw parsed (
          (holds_if L _ _ _ _
              (process_new-holds (events-IsForStatements env P grows) handlers for_handlers
                a.queue_name event)
              (L.holds_pure _ tt)).at
            _ inserted)

  pub execute_stores :
      ((row : Event) → IsForHandlers (keeps_logic (IsStored row)) handlers)
      → (now : ℕ) (a : EventAttributes) (event : ParsedEvent) (db : Db) → parse env now a ≡ ok event
      → IsStored (event_row event) (execute env handlers now a (quiet db)).1.db
  execute_stores for_handlers now a event db parsed =
      let row = event_row event in
      execute_keeps (λ rows. any (events_clash row) rows ≡ true)
        (any-insert_or_ignore (events_clash row) events_clash) (for_handlers row) now a event db
        parsed (insert_or_ignore-stored row db.events)

  -- how saving a stored event can go
  abbrev Skips : Result Bool × Session → Db → Type 0
  Skips (ok inserted, s') db = (inserted ≡ false) × (s'.db ≡ db)
  Skips (raise _, s') db = s'.db ≡ db

  insert_event_stored :
      (row : Event) (db : Db) → IsStored row db → insert_event row db ≡ ok (false, db)
  unfolding insert_event
  insert_event_stored row db stored = rw stored

  save_stored :
      (row : Event) (replies : List Reply) (s : Session)
      → IsStored row s.db
      → Skips (reply_to replies (insert_event row) s) s.db
  save_stored row [] s stored = rw (insert_event_stored row s.db stored) (refl, refl)
  save_stored row (answers ∷ rest) s stored = rw (insert_event_stored row s.db stored) (refl, refl)
  save_stored row (fails e ∷ rest) s stored = refl
  save_stored row (lost e ∷ rest) s stored = refl

  skip_rest :
      (f : Bool → Tx (Unit {0})) (saved : Result Bool × Session) (db : Db)
      → f false ≡ pure tt
      → Skips saved db
      → (continue saved.0 f saved.1).1.db ≡ db
  unfolding pure
  skip_rest f (ok inserted, s') db stop (not_inserted, same) = rw (not_inserted, stop) same
  skip_rest f (raise e, s') db stop same = same

  -- A stored event is skipped: however the database answers, nothing is written.
  pub execute_stored :
      (now : ℕ) (a : EventAttributes) (event : ParsedEvent) (s : Session)
      → parse env now a ≡ ok event
      → IsStored (event_row event) s.db
      → (execute env handlers now a s).1.db ≡ s.db
  unfolding execute save
  execute_stored now a event s parsed stored =
      rw parsed (skip_rest _ _ s.db refl (save_stored (event_row event) s.replies s stored))

parse_occurred_at-now :
    (env : Env) (now now' : ℕ) (time : Value)
    → time ≢ null
    → parse_occurred_at env now time ≡ parse_occurred_at env now' time
unfolding parse_occurred_at
parse_occurred_at-now env now now' null h = absurd (h refl)
parse_occurred_at-now env now now' (datetime d) h = refl
parse_occurred_at-now env now now' (bool b) h = refl
parse_occurred_at-now env now now' _ h = refl

-- An event that brings its time is parsed alike whenever it is parsed.
pub parse-now :
    (env : Env) (now now' : ℕ) (a : EventAttributes)
    → a.time ≢ null
    → parse env now a ≡ parse env now' a
unfolding parse
parse-now env now now' a h = rw (parse_occurred_at-now env now now' a.time h)
