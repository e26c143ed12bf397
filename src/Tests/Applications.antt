-- ===== src/Tests/Applications.antt =====
-- The theorems on the settings, the header of Sentry and a starving backfill, applied
-- to sample values.
use event_saver.Prelude.{
  ◌≡◌, ◌<◌, ◌^◌, refl, inr, String, true, false, some, List, [], ◌∷◌, is_some, ◌==◌, if◌then◌else◌,
}
use event_saver.Py.Exception.{ok}
use event_saver.App.{validate_log_level, find_level, level_numbers}
use event_saver.App.Laws.{FixesLevels, validate_log_level_lem}
use event_saver.Telemetry.{SpanContext, extract}
use event_saver.Telemetry.Bounds.{extract_fits}
use event_saver.Ingest.EventStore.{World}
use event_saver.Backfill.Queries.{select_candidates, latest_email}
use event_saver.Backfill.Cycle.{run_once}
use event_saver.Backfill.Direct.{steady}
use event_saver.Backfill.Starved.{HaveNoEmail, run_once_starves}
use event_saver.Tests.{test_env}
use event_saver.Tests.Backfills.{waiting_world, answer}

abbrev test_upper : String → String
test_upper s = if s == "info" then "INFO" else s

test_upper-FixesLevels : FixesLevels test_upper
test_upper-FixesLevels = (refl, (refl, (refl, (refl, (refl, tt)))))

info_validated : validate_log_level test_upper "info" ≡ ok "INFO"
unfolding validate_log_level
info_validated = refl

validate_log_level_lem_example :
    (validate_log_level test_upper "INFO" ≡ ok "INFO")
    × (is_some (find_level "INFO" level_numbers) ≡ true)
validate_log_level_lem_example =
    validate_log_level_lem test_upper test_upper-FixesLevels "INFO" "info" info_validated

abbrev header : List String
header = "0000000000000000000000000000001f-00000000000000ab-1" ∷ []

abbrev read_span : SpanContext
read_span = record { trace_id = 31; span_id = 171; is_remote = true; is_sampled = true }

header-read : extract header ≡ some read_span
unfolding extract
header-read = refl

-- Not of the documented format, and read all the same.
odd_header-read :
    extract ("0x00000000000000000000000000001f-+0000000000000ab" ∷ [])
    ≡ some (record read_span { is_sampled = false })
unfolding extract
odd_header-read = refl

extract_fits_example : (31 < 2 ^ 128) × (171 < 2 ^ 64)
extract_fits_example = extract_fits header read_span header-read

-- The same booking, and no event that names an e-mail.
abbrev silent_world : World
silent_world = record waiting_world { committed = record waiting_world.committed { events = [] } }

silent_world-HaveNoEmail :
    HaveNoEmail test_env silent_world.committed (select_candidates 100 silent_world.committed)
unfolding select_candidates latest_email
silent_world-HaveNoEmail = (inr refl, inr refl, tt)

run_once_starves_example :
    ((run_once test_env (steady answer) 100 silent_world).1.committed ≡ silent_world.committed)
    × (select_candidates 100 (run_once test_env (steady answer) 100 silent_world).1.committed
        ≡ select_candidates 100 silent_world.committed)
run_once_starves_example =
    run_once_starves test_env (steady answer) 100 silent_world silent_world-HaveNoEmail
