-- ===== src/Tests/Backfills.antt =====
-- The theorems on the backfill and on the service as a whole, applied to a sample database: one
-- booking without user ids, and the event that names its organizer's e-mail.
use event_saver.Prelude.{
  ◌+◌, ◌*◌, ◌≤◌, ◌≡◌, refl, true, false, none, some, [], ◌∷◌, length, is_some, ◌==◌, if◌then◌else◌,
}
use event_saver.Py.Value.{end, field, str, list, dict, nil, cons}
use event_saver.Py.Exception.{ok, raise, users_service_unavailable}
use event_saver.Db.Rows.{Event, BookingRecord}
use event_saver.Db.Tables.{empty_db}
use event_saver.Ingest.EventStore.{World, open_session}
use event_saver.Db.Consistency.{IsConsistent}
use event_saver.Consumer.{default_retry, consume_event}
use event_saver.Ingest.Handlers.{projection_handlers}
use event_saver.Backfill.Queries.{select_candidates, latest_email, fill_column}
use event_saver.Backfill.Resolver.{response, resolve}
use event_saver.Backfill.Resolver.Laws.{IsJustified, resolve_lem}
use event_saver.Backfill.Cycle.{Resolver, BackfillSummary, backfill_rows, start_cycle, run_once}
use event_saver.Backfill.Fills.{IsBackfilled, run_once-IsBackfilled}
use event_saver.Backfill.Answers.{IsRightDb}
use event_saver.Backfill.Answered.{run_once-IsRightDb}
use event_saver.Backfill.Counts.{Counts, run_once-Counts}
use event_saver.Backfill.Outcomes.{resolved}
use event_saver.Backfill.Served.{OnlyUnavailable, run_once_returns}
use event_saver.Backfill.Cache.{AreDistinct, backfill_rows-AreDistinct}
use event_saver.Backfill.Direct.{Answers, steady, direct_once}
use event_saver.Backfill.Direct.Simulation.{run_once-direct_once}
use event_saver.Backfill.Runner.{
  start_called, stop_called, after_calls, tasks_of, after_calls_lem, run_loop, run_loop_lem,
}
use event_saver.System.{Reaches, consumes, backfills, here, next, Reaches-IsConsistent}
use event_saver.System.Log.{IsAppended, Reaches-IsAppended}
use event_saver.Tests.{test_env, created_event, lifecycle_queue, flaky_world}
use event_saver.Tests.Ingestion.{empty_db-IsConsistent}

abbrev waiting : BookingRecord
waiting = record {
  id = 1;
  booking_uid = "booking-1";
  first_seen_at = 900;
  last_seen_at = 900;
  start_time = none;
  end_time = none;
  current_status = none;
  organizer_user_id = none;
  client_user_id = none;
}

abbrev naming : Event
naming = record {
  event_id = "event-1";
  booking_id = some "booking-1";
  event_type = "booking.created";
  source = "booking";
  hash = "hash";
  occurred_at = 900;
  payload = dict (
      field "normalized"
        (dict (
          field "participants"
            (list (
              cons (dict (field "role" (str "organizer") (field "email" (str "o@example.org") end)))
                nil))
            end))
        end);
  idempotency_key = none;
  trace_id = none;
  span_id = none;
  dataschema = none;
}

abbrev pub waiting_world : World
waiting_world = record {
  committed = record empty_db {
    events = naming ∷ [];
    bookings = waiting ∷ [];
    bookings_id_seq = 2;
  };
  replies = [];
  metrics = [];
  now = 1000;
}

abbrev pub answer : Answers
answer (email, role) = if email == "o@example.org" then ok (some 7) else ok none

run_once-resolves :
    (run_once test_env (steady answer) 100 waiting_world).0
    ≡ ok (record {
      scanned_bookings = 1;
      resolved = 1;
      unresolved = 0;
      missing_email = 1;
      aborted = false;
    })
unfolding run_once latest_email fill_column
run_once-resolves = refl

run_once-IsBackfilled_example :
    IsBackfilled waiting_world.committed
      (run_once test_env (steady answer) 100 waiting_world).1.committed
run_once-IsBackfilled_example = run_once-IsBackfilled test_env (steady answer) 100 waiting_world

run_once-IsRightDb_example :
    IsRightDb test_env
      (steady answer)
      waiting_world.committed
      (select_candidates 100 waiting_world.committed)
      (run_once test_env (steady answer) 100 waiting_world).1.committed
run_once-IsRightDb_example = run_once-IsRightDb test_env (steady answer) 100 waiting_world

run_once-Counts_example :
    let rows = select_candidates 100 waiting_world.committed in
    (length rows ≤ 100)
    × Counts test_env answer waiting_world.committed rows resolved
        (run_once test_env (steady answer) 100 waiting_world).0
run_once-Counts_example = run_once-Counts test_env answer resolved 100 waiting_world

-- The service fails at the first request and knows nobody afterwards.
abbrev failing : Resolver
failing [] key = raise users_service_unavailable
failing (_ ∷ _) key = ok none

failing-OnlyUnavailable : OnlyUnavailable failing
failing-OnlyUnavailable [] key e h = cc
failing-OnlyUnavailable (_ ∷ _) key e h = cc

run_once_returns_example :
    (s : BackfillSummary) × (run_once test_env failing 100 waiting_world).0 ≡ ok s
run_once_returns_example =
    run_once_returns test_env failing failing-OnlyUnavailable 100 waiting_world refl

backfill_rows-AreDistinct_example :
    AreDistinct
      (backfill_rows test_env failing
        (waiting ∷ waiting ∷ [])
        (start_cycle test_env failing (open_session waiting_world))).1.asked
backfill_rows-AreDistinct_example =
    backfill_rows-AreDistinct test_env failing (waiting ∷ waiting ∷ []) (open_session waiting_world)

run_once-direct_once_example :
    run_once test_env (steady answer) 100 waiting_world
    ≡ direct_once test_env answer 100 waiting_world
run_once-direct_once_example = run_once-direct_once test_env answer 100 waiting_world

after_calls_lem_example :
    let r = after_calls true (start_called ∷ stop_called ∷ start_called ∷ start_called ∷ []) in
    (r.alive ≡ tasks_of true r.task) × (is_some r.task ≡ true)
after_calls_lem_example =
    after_calls_lem true (start_called ∷ stop_called ∷ start_called ∷ start_called ∷ [])

run_loop_lem_example :
    ((run_loop test_env failing 100 300 2 waiting_world).now ≡ 1000 + 2 * 300)
    × IsBackfilled waiting_world.committed
        (run_loop test_env failing 100 300 2 waiting_world).committed
run_loop_lem_example = run_loop_lem test_env failing 100 300 2 waiting_world

resolve_lem_example :
    IsJustified test_env
      (response 404 (ok (dict end)))
      (resolve test_env (response 404 (ok (dict end))))
resolve_lem_example = resolve_lem test_env (response 404 (ok (dict end)))

abbrev consumed : World
consumed =
    (consume_event test_env (projection_handlers test_env) default_retry lifecycle_queue
      (ok created_event) flaky_world).1

abbrev backfilled : World
backfilled = (run_once test_env failing 100 consumed).1

steps : Reaches test_env default_retry 100 flaky_world backfilled
steps =
    next flaky_world consumed backfilled (consumes lifecycle_queue (ok created_event) flaky_world)
      (next consumed backfilled backfilled (backfills failing consumed) (here backfilled))

Reaches-IsConsistent_example : IsConsistent backfilled.committed
Reaches-IsConsistent_example =
    Reaches-IsConsistent test_env default_retry 100 flaky_world backfilled steps
      empty_db-IsConsistent

Reaches-IsAppended_example : IsAppended [] backfilled.committed.events
Reaches-IsAppended_example =
    Reaches-IsAppended test_env default_retry 100 flaky_world backfilled steps
