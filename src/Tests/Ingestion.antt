-- ===== src/Tests/Ingestion.antt =====
-- The theorems on ingestion and consumption, applied to the sample message.
use event_saver.Prelude.{◌≡◌, ◌≢◌, refl, ◌⊎◌, inl, true, none, some, [], ◌∷◌, any}
use event_saver.Py.Value.{null}
use event_saver.Py.Exception.{ok}
use event_saver.Py.Datetime.{aware, is_aware}
use event_saver.Domain.Models.{ParsedEvent}
use event_saver.Domain.EventParser.{parse}
use event_saver.Domain.EventParser.Laws.{parse-is_aware}
use event_saver.Db.Tables.{Db, empty_db}
use event_saver.Db.Consistency.{IsConsistent}
use event_saver.Db.Replays.{replays_logic}
use event_saver.Ingest.Repositories.{event_row}
use event_saver.Ingest.Handlers.{projection_handlers}
use event_saver.Ingest.UseCase.{execute}
use event_saver.Ingest.EventStore.{save_event}
use event_saver.Ingest.Walk.{projection_handlers-IsForHandlers}
use event_saver.Ingest.Consistency.{save_event-IsConsistent}
use event_saver.Ingest.Duplicates.{IsStored, quiet, execute_stored, parse-now}
use event_saver.Ingest.Registered.{IsRegistered}
use event_saver.Ingest.Registration.{Reached, execute-IsRegistered}
use event_saver.Ingest.Atomicity.{IsRolledBack, IsCommitted, save_event_atomic}
use event_saver.Consumer.{default_retry}
use event_saver.Consumer.ExactlyOnce.{
  IsUntouchedOrApplied, IsApplied, is_acked, deliver, deliver_exactly_once,
}
use event_saver.Tests.{
  test_env, created_payload, created_event, created, lifecycle_queue, flaky_world,
}

abbrev pub parsed : ParsedEvent
parsed = record {
  raw = record {
    event_id = "event-1";
    event_type = "booking.created";
    source = "booking";
    occurred_at = aware 1000;
    booking_id = some "booking-1";
    payload = created_payload;
    idempotency_key = some "key-1";
    trace_id = none;
    span_id = none;
    dataschema = none;
  };
  payload_hash = "?";
}

pub parse-created : parse test_env 5 created ≡ ok parsed
unfolding parse
parse-created = refl

pub parse_at_start : parse test_env 0 created ≡ ok parsed
unfolding parse
parse_at_start = refl

pub has_time : created.time ≢ null
has_time e = cc

pub empty_db-IsConsistent : IsConsistent empty_db
empty_db-IsConsistent = record {
  events = tt;
  bookings = tt;
  booking_ids = record { distinct = tt; below = refl };
  organizer_history_ids = record { distinct = tt; below = refl };
  meeting_links = tt;
  email_notifications = tt;
  email_notification_ids = record { distinct = tt; below = refl };
  telegram_notifications = tt;
  email_status_history = tt;
  chat_events = tt;
  video_events = tt;
  lifecycle_events = tt;
}

deliver_exactly_once_example :
    let (verdicts, w') =
      deliver test_env default_retry lifecycle_queue created_event 2 flaky_world in
    IsUntouchedOrApplied test_env created empty_db w'.committed
    × (any is_acked verdicts ≡ true → IsApplied test_env created empty_db w'.committed)
deliver_exactly_once_example =
    deliver_exactly_once test_env default_retry lifecycle_queue created_event has_time empty_db 2
      flaky_world (inl refl)

save_event_atomic_example :
    let handlers = projection_handlers test_env in
    let (r, w') = save_event test_env handlers created flaky_world in
    IsRolledBack r empty_db w'.committed
    ⊎ IsCommitted test_env handlers 5 created empty_db w'.committed
save_event_atomic_example =
    save_event_atomic test_env (projection_handlers test_env)
      (projection_handlers-IsForHandlers test_env replays_logic) created flaky_world

save_event-IsConsistent_example :
    IsConsistent
      (save_event test_env (projection_handlers test_env) created flaky_world).1.committed
save_event-IsConsistent_example =
    save_event-IsConsistent test_env created flaky_world empty_db-IsConsistent

-- A database that holds the event already.
abbrev stored_db : Db
stored_db = record empty_db { events = event_row parsed ∷ [] }

parsed-IsStored : IsStored (event_row parsed) stored_db
parsed-IsStored = refl

execute_stored_example :
    (execute test_env (projection_handlers test_env) 5 created (quiet stored_db)).1.db ≡ stored_db
execute_stored_example =
    execute_stored test_env (projection_handlers test_env) 5 created parsed (quiet stored_db)
      parse-created parsed-IsStored

parse-is_aware_example : is_aware (aware 1000) ≡ true
parse-is_aware_example = parse-is_aware test_env 5 created parsed parse-created

parse-now_example : parse test_env 5 created ≡ parse test_env 900 created
parse-now_example = parse-now test_env 5 900 created has_time

execute-IsRegistered_example :
    Reached
      (λ _. IsRegistered "booking-1")
      (execute test_env (projection_handlers test_env) 5 created (quiet empty_db))
execute-IsRegistered_example =
    execute-IsRegistered test_env 5 created parsed "booking-1" (quiet empty_db) parse-created refl
      refl refl
