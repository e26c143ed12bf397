-- ===== src/Ingest/UseCase.antt =====
-- `IngestEventUseCase` of event_saver/application/use_cases/ingest_event.py
use event_saver.Prelude.{ℕ, String, Bool, ◌||◌, Option, none, some, List, ◌==◌, if◌then◌else◌}
use event_saver.Py.Value.{Value, end, null, str, dict, datetime, truthy, find_field, get, get_or}
use event_saver.Py.Exception.{
  Result, ok, raise, attribute_error, key_error, type_error, value_error,
}
use event_saver.Env.{Env}
use event_saver.Domain.Models.{ParsedEvent, EventAttributes, Participants}
use event_saver.Domain.EventParser.{parse}
use event_saver.Domain.BookingExtractor.{extract_booking}
use event_saver.Domain.ParticipantExtractor.{extract_participants}
use event_saver.Db.Session.{Tx, pure, lift, count, events_total, ◌>>=◌, ◌>>◌}
use event_saver.Ingest.Repositories.{
  save, upsert, get_or_none, update_client, save_organizer_history, backfill_user_id_by_email,
}
use event_saver.Ingest.ProjectionExecutor.{ProjectionHandler, execute_projections}

-- `original[key]`
abbrev pub or_key_error : Option Value → Result Value
or_key_error none = raise key_error
or_key_error (some v) = ok v

unfoldable pub item : Value → String → Result Value
item (dict fs) key = or_key_error (find_field key fs)
item _ key = raise type_error

abbrev or_value_error : Option ℕ → Result ℕ
or_value_error none = raise value_error
or_value_error (some u) = ok u

-- `event.booking_id` if it is truthy
abbrev pub non_empty : Option String → Option String
non_empty none = none
non_empty (some s) = if s == "" then none else some s

module _ (env : Env) where
  -- `uuid.UUID(v)`: a text is parsed; None and a datetime raise TypeError, and what has no method
  -- `replace` raises AttributeError
  unfoldable pub new_uuid : Value → Result ℕ
  new_uuid (str s) = or_value_error (env.uuid_of s)
  new_uuid null = raise type_error
  new_uuid (datetime _) = raise type_error
  new_uuid _ = raise attribute_error

  -- `try: ... except ValueError, AttributeError: None`
  abbrev catch_uuid : Result ℕ → Result (Option ℕ)
  catch_uuid (ok u) = ok (some u)
  catch_uuid (raise value_error) = ok none
  catch_uuid (raise attribute_error) = ok none
  catch_uuid (raise e) = raise e

  -- the branch of `user.synced`
  unfoldable pub sync_user : ParsedEvent → Tx (Unit {0})
  unfolding ◌>>=◌ new_uuid item
  sync_user event = do
    original ← lift (get_or event.payload "original" (dict end))
    email ← lift (item original "email")
    role ← lift (item original "role")
    raw_user_id ← lift (item original "user_id")
    user_id ← lift (new_uuid raw_user_id)
    backfill_user_id_by_email env email role user_id

  abbrev pub assigns_organizer : String → Bool
  assigns_organizer event_type =
      event_type == env.booking_created || event_type == env.booking_reassigned

  -- `if event.event_type in (...) and organizer_user_id: save_organizer_history(...)`
  abbrev pub history_for : ParsedEvent → ℕ → Option ℕ → Tx (Unit {0})
  history_for event ref none = pure tt
  history_for event ref (some organizer) =
      if assigns_organizer event.event_type
      then save_organizer_history ref organizer event.event_id event.occurred_at
      else pure tt

  abbrev pub assign_client : ℕ → Option ℕ → Participants → Tx Participants
  assign_client ref none ps = pure ps
  assign_client ref (some client) ps = do
    update_client ref client
    pure (record ps { client_user_id = some client })

  unfoldable pub new_client_of : Value → Result (Option ℕ)
  unfolding new_uuid
  new_client_of v = if truthy v then catch_uuid (new_uuid v) else ok none

  -- the branch of `booking.client_reassigned`; gives the participants to project with
  unfoldable pub reassign_client : ParsedEvent → ℕ → Participants → Tx Participants
  unfolding ◌>>=◌ new_client_of
  reassign_client event ref ps =
      if event.event_type == env.booking_client_reassigned
      then (do
        original ← lift (get_or event.payload "original" (dict end))
        new_client_id ← lift (get original "new_client_user_id")
        new_client ← lift (new_client_of new_client_id)
        assign_client ref new_client ps)
      else pure ps

  -- `if booking_ref_id is None:` upsert the booking, its organizer history and its client
  unfoldable pub register_booking : ParsedEvent → String → Participants → Tx (ℕ × Participants)
  unfolding reassign_client
  register_booking event booking_id ps = do
    booking_data ← lift (extract_booking env booking_id event.event_type event.payload)
    ref ← upsert booking_data event.occurred_at ps
    history_for event ref ps.organizer_user_id
    ps' ← reassign_client event ref ps
    pure (ref, ps')

  abbrev pub booking_reference :
      ParsedEvent → String → Participants → Option ℕ → Tx (ℕ × Participants)
  booking_reference event booking_id ps (some ref) = pure (ref, ps)
  booking_reference event booking_id ps none = register_booking event booking_id ps

  module _ (handlers : List ProjectionHandler) where
    unfoldable pub process_booking : String → ParsedEvent → String → Tx (Unit {0})
    unfolding register_booking
    process_booking queue_name event booking_id = do
      ps ← lift (extract_participants env event.payload)
      found ← get_or_none env booking_id queue_name
      (ref, ps') ← booking_reference event booking_id ps found
      execute_projections handlers (record {
        event = event;
        booking_ref_id = ref;
        participants = ps';
        queue_name = queue_name;
      })

    abbrev pub process_booking_id : String → ParsedEvent → Option String → Tx (Unit {0})
    process_booking_id queue_name event none = pure tt
    process_booking_id queue_name event (some booking_id) =
        process_booking queue_name event booking_id

    -- what follows a fresh insert
    unfoldable pub process_new : String → ParsedEvent → Tx (Unit {0})
    unfolding process_booking
    process_new queue_name event = do
      count (events_total event.event_type)
      if event.event_type == env.user_synced
          then sync_user event
          else process_booking_id queue_name event (non_empty event.booking_id)

    -- `IngestEventUseCase.execute`, at a reading of the clock
    unfoldable pub execute : ℕ → EventAttributes → Tx (Unit {0})
    unfolding ◌>>=◌ process_new
    execute now a = do
      event ← lift (parse env now a)
      is_inserted ← save event
      if is_inserted then process_new a.queue_name event else pure tt
