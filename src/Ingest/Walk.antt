-- ===== src/Ingest/Walk.antt =====
-- A logic that holds of every SQL statement of the service holds of `IngestEventUseCase.execute`.
use event_saver.Prelude.{ℕ, String, Bool, Option, none, some, List, [], ◌∷◌}
use event_saver.Py.Value.{Value}
use event_saver.Py.Datetime.{Datetime}
use event_saver.Env.{Env}
use event_saver.Domain.Models.{ParsedEvent, EventAttributes, BookingData, Participants}
use event_saver.Db.Rows.{Event}
use event_saver.Db.Session.{statement}
use event_saver.Db.Logic.{Logic, holds_if}
use event_saver.Db.Events.{insert_event}
use event_saver.Db.Bookings.{RoleColumn, upsert_booking}
use event_saver.Db.Statement.{Statement}
use event_saver.Projections.Handling.{HandleArgs}
use event_saver.Projections.Lifecycle
use event_saver.Ingest.Repositories.{
  save, upsert, find_by_booking_uid, get_or_none, execute_sql, update_client,
  save_organizer_history, backfill_user_id_by_email, backfill_sql, backfill_column,
}
use event_saver.Ingest.ProjectionExecutor.{ProjectionHandler, run_result, execute_projections}
use event_saver.Ingest.Handlers.{projection_handlers}
use event_saver.Ingest.UseCase.{
  sync_user, history_for, assign_client, reassign_client, register_booking, booking_reference,
  process_booking, process_booking_id, process_new, execute,
}

-- A logic holds of every statement that the service can send.
pub record IsForStatements (env : Env) (L : Logic) : Type 0 where
  pub for_insert_event : (e : Event) → L.Holds Bool (statement (insert_event e))
  pub for_upsert_booking :
      (d : BookingData) (t : Datetime) (o c : Option ℕ)
      → L.Holds (Option ℕ) (statement (upsert_booking d t o c))
  pub for_select_booking : (uid : String) → L.Holds (Option ℕ) (find_by_booking_uid uid)
  pub for_update_client : (ref client : ℕ) → L.Holds Unit (update_client ref client)
  pub for_backfill :
      (k : RoleColumn) (email : Option String) (u : ℕ)
      → L.Holds Unit (execute_sql (backfill_sql env k email u))
  pub for_organizer_history :
      (ref u : ℕ) (e : String) (t : Datetime) → L.Holds Unit (save_organizer_history ref u e t)
  pub for_projection : (o : Option Statement) → L.Holds Unit (run_result o)

-- It holds of every handler of the list.
abbrev pub IsForHandlers : Logic → List ProjectionHandler → Type 0
IsForHandlers L [] = Unit
IsForHandlers L (h ∷ hs) =
    ((a : HandleArgs) → L.Holds (Option Statement) (h.handle a)) × IsForHandlers L hs

module _ {env : Env} {L : Logic} (sql : IsForStatements env L) where
  open L use {Holds, holds_pure, holds_lift, holds_count, holds_bind}

  save-holds : (event : ParsedEvent) → Holds Bool (save event)
  unfolding save
  save-holds event = sql.for_insert_event _

  upsert-holds : (d : BookingData) (t : Datetime) (ps : Participants) → Holds ℕ (upsert d t ps)
  unfolding upsert
  upsert-holds d t ps = holds_bind _ _ _ _ (sql.for_upsert_booking d t _ _) (λ row. holds_lift _ _)

  get_or_none-holds : (uid queue : String) → Holds _ (get_or_none env uid queue)
  unfolding get_or_none
  get_or_none-holds uid queue = holds_if L _ _ _ _ (holds_pure _ _) (sql.for_select_booking uid)

  backfill_column-holds :
      (k : Option RoleColumn) (email : Value) (u : ℕ) → Holds _ (backfill_column env k email u)
  backfill_column-holds none email u = holds_pure _ tt
  backfill_column-holds (some k) email u =
      holds_bind _ _ _ _ (holds_lift _ _) (λ text. sql.for_backfill k text u)

  backfill-holds :
      (email role : Value) (u : ℕ) → Holds _ (backfill_user_id_by_email env email role u)
  unfolding backfill_user_id_by_email
  backfill-holds email role u =
      holds_bind _ _ _ _ (holds_lift _ _) (λ k. backfill_column-holds k email u)

  sync_user-holds : (event : ParsedEvent) → Holds _ (sync_user env event)
  unfolding sync_user
  sync_user-holds event = search (holds_lift, holds_bind, backfill-holds) depth 12

  pub execute_projections-holds :
      (hs : List ProjectionHandler) (a : HandleArgs)
      → IsForHandlers L hs
      → Holds _ (execute_projections hs a)
  unfolding execute_projections
  execute_projections-holds [] a k = holds_pure _ tt
  execute_projections-holds (h ∷ hs) a k =
      let rest = execute_projections-holds hs a k.1 in
      holds_if L _ _ _ _
        (holds_bind _ _ _ _ (k.0 a) (λ o. holds_bind _ _ _ _ (sql.for_projection o) (λ _. rest)))
        rest

  pub history_for-holds :
      (event : ParsedEvent) (ref : ℕ) (o : Option ℕ) → Holds _ (history_for env event ref o)
  history_for-holds event ref none = holds_pure _ tt
  history_for-holds event ref (some u) =
      holds_if L _ _ _ _ (sql.for_organizer_history ref u _ _) (holds_pure _ tt)

  assign_client-holds :
      (ref : ℕ) (o : Option ℕ) (ps : Participants) → Holds _ (assign_client env ref o ps)
  assign_client-holds ref none ps = holds_pure _ ps
  assign_client-holds ref (some u) ps =
      holds_bind _ _ _ _ (sql.for_update_client ref u) (λ _. holds_pure _ _)

  pub reassign_client-holds :
      (event : ParsedEvent) (ref : ℕ) (ps : Participants)
      → Holds _ (reassign_client env event ref ps)
  unfolding reassign_client
  reassign_client-holds event ref ps =
      search (holds_pure, holds_lift, holds_if, holds_bind, assign_client-holds) depth 10

  register_booking-holds :
      (event : ParsedEvent) (uid : String) (ps : Participants)
      → Holds _ (register_booking env event uid ps)
  unfolding register_booking
  register_booking-holds event uid ps =
      search
        (holds_pure, holds_lift, holds_bind, upsert-holds, history_for-holds, reassign_client-holds)
        depth 12

  booking_reference-holds :
      (event : ParsedEvent) (uid : String) (ps : Participants) (o : Option ℕ)
      → Holds _ (booking_reference env event uid ps o)
  booking_reference-holds event uid ps (some ref) = holds_pure _ _
  booking_reference-holds event uid ps none = register_booking-holds event uid ps

  module _ (handlers : List ProjectionHandler) (for_handlers : IsForHandlers L handlers) where
    process_booking-holds :
        (queue : String) (event : ParsedEvent) (uid : String)
        → Holds _ (process_booking env handlers queue event uid)
    unfolding process_booking
    process_booking-holds queue event uid = holds_bind _ _ _ _ (holds_lift _ _) λ ps.
        holds_bind _ _ _ _ (get_or_none-holds uid queue) λ found.
          holds_bind _ _ _ _ (booking_reference-holds event uid ps found)
            λ r. execute_projections-holds handlers _ for_handlers

    process_booking_id-holds :
        (queue : String) (event : ParsedEvent) (o : Option String)
        → Holds _ (process_booking_id env handlers queue event o)
    process_booking_id-holds queue event none = holds_pure _ tt
    process_booking_id-holds queue event (some uid) = process_booking-holds queue event uid

    pub process_new-holds :
        (queue : String) (event : ParsedEvent) → Holds _ (process_new env handlers queue event)
    unfolding process_new
    process_new-holds queue event =
        search (holds_count, holds_if, holds_bind, sync_user-holds, process_booking_id-holds) depth
          8

    pub execute-holds : (now : ℕ) (a : EventAttributes) → Holds _ (execute env handlers now a)
    unfolding execute
    execute-holds now a =
        search (holds_pure, holds_lift, holds_if, holds_bind, save-holds, process_new-holds) depth 8

-- The handlers of the application send nothing themselves: they read the event and may count.
module _ (env : Env) (L : Logic) where
  lifecycle-holds :
      (a : HandleArgs) (o : Option String) → L.Holds _ (Lifecycle.handle_action env a o)
  lifecycle-holds a none = L.holds_pure _ _
  lifecycle-holds a (some action) =
      L.holds_bind _ _ _ _ (L.holds_lift _ _)
        λ details. L.holds_bind _ _ _ _ (L.holds_count _) λ _. L.holds_pure _ _

  handle_lifecycle-holds : (a : HandleArgs) → L.Holds _ (Lifecycle.handle env a)
  unfolding Lifecycle.handle
  handle_lifecycle-holds a = lifecycle-holds a _

  pub projection_handlers-IsForHandlers : IsForHandlers L (projection_handlers env)
  unfolding projection_handlers
  projection_handlers-IsForHandlers = (
    (λ a. L.holds_lift _ _),
    (
      (λ a. L.holds_lift _ _),
      (
        (λ a. L.holds_lift _ _),
        (
          (λ a. L.holds_lift _ _),
          (
            (λ a. L.holds_lift _ _),
            ((λ a. L.holds_lift _ _), ((λ a. L.holds_lift _ _), (handle_lifecycle-holds, tt))),
          ),
        ),
      ),
    ),
  )
