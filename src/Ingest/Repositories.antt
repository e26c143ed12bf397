-- ===== src/Ingest/Repositories.antt =====
-- `EventRepository` and `BookingRepository` (event_saver/infrastructure/persistence/repositories).
use event_saver.Prelude.{ℕ, String, Bool, Option, none, some, ◌==◌, if◌then◌else◌}
use event_saver.Py.Value.{Value, str, list, dict}
use event_saver.Py.Exception.{Result, ok, raise, runtime_error, type_error}
use event_saver.Py.Datetime.{Datetime, instant}
use event_saver.Env.{Env}
use event_saver.Domain.Models.{ParsedEvent, BookingData, Participants}
use event_saver.Db.Rows.{Event}
use event_saver.Db.Tables.{Db}
use event_saver.Db.Session.{Tx, pure, lift, statement, ◌>>=◌}
use event_saver.Db.Events.{insert_event}
use event_saver.Db.Statement.{text_or_null}
use event_saver.Db.Bookings.{
  RoleColumn, organizer_column, client_column, select_booking, upsert_booking, update_client_row,
  backfill_by_email, insert_organizer_history,
}

-- the parameters of `insert into events`
abbrev pub event_row : ParsedEvent → Event
event_row event = record {
  event_id = event.event_id;
  booking_id = event.booking_id;
  event_type = event.event_type;
  source = event.source;
  hash = event.payload_hash;
  occurred_at = instant event.occurred_at;
  payload = event.payload;
  idempotency_key = event.idempotency_key;
  trace_id = event.trace_id;
  span_id = event.span_id;
  dataschema = event.dataschema;
}

-- `EventRepository.save`: was the event inserted?
unfoldable pub save : ParsedEvent → Tx Bool
unfolding statement
save event = statement (insert_event (event_row event))

-- `if row is None: raise RuntimeError`
abbrev pub or_runtime_error : Option ℕ → Result ℕ
or_runtime_error none = raise runtime_error
or_runtime_error (some id) = ok id

-- `BookingRepository.upsert`
unfoldable pub upsert : BookingData → Datetime → Participants → Tx ℕ
unfolding ◌>>=◌
upsert booking_data occurred_at ps = do
  row ← statement (upsert_booking booking_data occurred_at ps.organizer_user_id ps.client_user_id)
  lift (or_runtime_error row)

-- `find_by_booking_uid`
unfoldable pub find_by_booking_uid : String → Tx (Option ℕ)
unfolding statement
find_by_booking_uid uid = statement (λ db. ok (select_booking uid db, db))

-- a statement that returns no row
unfoldable pub execute_sql : (Db → Db) → Tx (Unit {0})
unfolding statement
execute_sql sql = statement (λ db. ok (tt, sql db))

-- `update_client`
unfoldable pub update_client : ℕ → ℕ → Tx (Unit {0})
unfolding execute_sql
update_client booking_ref_id client_user_id =
    execute_sql (update_client_row booking_ref_id client_user_id)

-- `save_organizer_history`
unfoldable pub save_organizer_history : ℕ → ℕ → String → Datetime → Tx (Unit {0})
unfolding execute_sql
save_organizer_history booking_id organizer_user_id source_event_id occurred_at =
    execute_sql (insert_organizer_history booking_id organizer_user_id source_event_id occurred_at)

-- `_ROLE_COLUMNS.get(role)`; a list or a dict cannot be hashed
unfoldable pub role_column : Value → Result (Option RoleColumn)
role_column (list _) = raise type_error
role_column (dict _) = raise type_error
role_column (str role) =
    if role == "organizer"
    then ok (some organizer_column)
    else if role == "client"
    then ok (some client_column)
    else ok none
role_column _ = ok none

abbrev pub text_of_role : RoleColumn → String
text_of_role organizer_column = "organizer"
text_of_role client_column = "client"

module _ (env : Env) where
  -- `lower(NULL)` equals nothing
  abbrev pub backfill_sql : RoleColumn → Option String → ℕ → Db → Db
  backfill_sql column none user_id db = db
  backfill_sql column (some email) user_id db =
      backfill_by_email env column (text_of_role column) email user_id db

  abbrev pub backfill_column : Option RoleColumn → Value → ℕ → Tx (Unit {0})
  backfill_column none email user_id = pure tt
  backfill_column (some column) email user_id = do
    text ← lift (text_or_null email)
    execute_sql (backfill_sql column text user_id)

  -- `backfill_user_id_by_email`
  unfoldable pub backfill_user_id_by_email : Value → Value → ℕ → Tx (Unit {0})
  unfolding ◌>>=◌ execute_sql role_column
  backfill_user_id_by_email email role user_id = do
    column ← lift (role_column role)
    backfill_column column email user_id

  -- `get_or_none`: lifecycle events always force an upsert
  unfoldable pub get_or_none : String → String → Tx (Option ℕ)
  unfolding pure find_by_booking_uid
  get_or_none booking_id queue_name =
      if queue_name == env.booking_lifecycle_saver_queue
      then pure none
      else find_by_booking_uid booking_id
