-- ===== src/Tests/Outages.antt =====
-- The theorems on the retry loop and on rejected messages, applied to the sample message.
use event_saver.Prelude.{◌+◌, ◌*◌, ◌^◌, ◌≡◌, ◌⊎◌, refl, true, [], arith}
use event_saver.Py.Value.{str}
use event_saver.Py.Exception.{ok, raise, operational_error, value_error}
use event_saver.Domain.EventParser.{parse}
use event_saver.Db.Rows.{Event}
use event_saver.Db.Tables.{empty_db}
use event_saver.Ingest.Handlers.{projection_handlers}
use event_saver.Ingest.UseCase.{
  execute, process_new, process_booking, register_booking, reassign_client,
}
use event_saver.Ingest.EventStore.{World, save_event}
use event_saver.Ingest.Duplicates.{IsStored}
use event_saver.Ingest.Stored.{IsIn, IsRowOf, save_event_stores}
use event_saver.Ingest.Atomicity.{Succeeds}
use event_saver.Ingest.Repositories
use event_saver.Ingest.Repositories.{event_row, save, save_organizer_history, execute_sql}
use event_saver.Ingest.ProjectionExecutor.{execute_projections}
use event_saver.Db.Events.{insert_event}
use event_saver.Db.Bookings.{
  upsert_booking, select_booking, insert_organizer_history, latest_history,
}
use event_saver.Db.Statement.{run_statement, write_lifecycle_event}
use event_saver.Domain.BookingExtractor.{extract_booking}
use event_saver.Domain.ParticipantExtractor.{
  extract_participants, lookup_role, participant_step, set_role,
}
use event_saver.Projections.MeetingLink
use event_saver.Projections.Classifier.{is_jitsi_event_type}
use event_saver.Projections.Video
use event_saver.Projections.Lifecycle
use event_saver.Projections.Lifecycle.Details.{extract_details}
use event_saver.Projections.Lifecycle.Pick.{pick_fields}
use event_saver.Projections.Notification.{
  can_handle_email, can_handle_telegram, can_handle_status_history,
}
use event_saver.Projections.Chat.{can_handle_chat, can_handle_chat_read}
use event_saver.Consumer.{
  CloudEvent, acked, requeued, dead_lettered, attributes_of, default_retry, is_transient,
  save_with_retry, consume_event,
}
use event_saver.Consumer.ExactlyOnce.{applied}
use event_saver.Consumer.Outage.{outage, save_with_retry_gives_up, save_with_retry_recovers}
use event_saver.Consumer.Poison.{consume_event_rejects}
use event_saver.Tests.{test_env, created_event, created, lifecycle_queue, flaky_world}
use event_saver.Tests.Ingestion.{parsed, parse-created, parse_at_start, has_time}

operational_error-is_transient : is_transient operational_error ≡ true
unfolding is_transient
operational_error-is_transient = refl

abbrev world_in_outage : World
world_in_outage = record flaky_world { replies = outage operational_error 3 }

save_with_retry_gives_up_example :
    let (verdict, w') =
      save_with_retry test_env
        (projection_handlers test_env)
        default_retry
        created
        world_in_outage in
    (verdict ≡ requeued) × (w'.committed ≡ empty_db) × (w'.now + 500000 ≡ 5 + 500000 * 2 ^ 2)
save_with_retry_gives_up_example =
    save_with_retry_gives_up test_env (projection_handlers test_env) default_retry created parsed
      has_time parse_at_start operational_error operational_error-is_transient 2 world_in_outage
      refl refl

created-Succeeds : Succeeds test_env (projection_handlers test_env) 0 created empty_db
unfolding execute process_new process_booking register_booking parse save insert_event
    extract_participants projection_handlers lookup_role participant_step set_role extract_booking
    Repositories.upsert upsert_booking select_booking Repositories.get_or_none
    save_organizer_history execute_sql insert_organizer_history latest_history reassign_client
    execute_projections MeetingLink.can_handle can_handle_email can_handle_telegram
    can_handle_status_history can_handle_chat can_handle_chat_read Video.can_handle
    Lifecycle.can_handle Lifecycle.handle extract_details pick_fields run_statement
    write_lifecycle_event is_jitsi_event_type
created-Succeeds = refl

abbrev quiet_world : World
quiet_world = record flaky_world { replies = [] }

created-saved : (save_event test_env (projection_handlers test_env) created quiet_world).0 ≡ ok tt
unfolding save_event execute process_new process_booking register_booking parse save insert_event
    extract_participants projection_handlers lookup_role participant_step set_role extract_booking
    Repositories.upsert upsert_booking select_booking Repositories.get_or_none
    save_organizer_history execute_sql insert_organizer_history latest_history reassign_client
    execute_projections MeetingLink.can_handle can_handle_email can_handle_telegram
    can_handle_status_history can_handle_chat can_handle_chat_read Video.can_handle
    Lifecycle.can_handle Lifecycle.handle extract_details pick_fields run_statement
    write_lifecycle_event is_jitsi_event_type
created-saved = refl

save_event_stores_example :
    let w' = (save_event test_env (projection_handlers test_env) created quiet_world).1 in
    IsStored (event_row parsed) empty_db
    ⊎ ((row : Event) × IsIn row w'.committed.events × IsRowOf test_env created parsed row)
save_event_stores_example =
    save_event_stores test_env created parsed quiet_world parse-created created-saved

save_with_retry_recovers_example :
    let (verdict, w') =
      save_with_retry test_env (projection_handlers test_env) default_retry created flaky_world in
    (verdict ≡ acked) × (w'.committed ≡ applied test_env created empty_db)
save_with_retry_recovers_example =
    save_with_retry_recovers test_env default_retry created has_time operational_error
      operational_error-is_transient 1 flaky_world refl (omega arith) created-Succeeds

-- The sample message with a time that is no ISO text.
abbrev undated_event : CloudEvent
undated_event = record created_event { time = str "yesterday" }

undated-failed : parse test_env 5 (attributes_of lifecycle_queue undated_event) ≡ raise value_error
unfolding parse
undated-failed = refl

consume_event_rejects_example :
    let (verdict, w') =
      consume_event test_env
        (projection_handlers test_env)
        default_retry
        lifecycle_queue
        (ok undated_event)
        flaky_world in
    (verdict ≡ dead_lettered)
    × (w'.committed ≡ empty_db)
    × (w'.replies ≡ flaky_world.replies)
    × (w'.now ≡ 5)
consume_event_rejects_example =
    consume_event_rejects test_env (projection_handlers test_env) default_retry lifecycle_queue
      undated_event value_error 2 flaky_world undated-failed refl
