-- ===== src/App.antt =====
-- The application around the consumer and the backfill: event_saver/config.py, event_saver/main.py,
-- and of event_saver/ioc.py the providers of the backfill.
pub mod Laws
use event_saver.Prelude.{
  ℕ, ◌≡◌, refl, sym, ap, ◌∙◌, String, Bool, true, false, ◌&&◌, ◌||◌, Option, none, some, List, [],
  ◌∷◌, any, is_some, eq_iff, ◌==◌, if◌then◌else◌,
}
use event_saver.Py.Exception.{Exception, Result, ok, raise, value_error}
use event_saver.Env.{Env}
use event_saver.Ingest.EventStore.{World}
use event_saver.Consumer.Runner as ConsumerRunner
use event_saver.Consumer.Runner.{QueueSpec, Runner}
use event_saver.Backfill.Cycle.{Resolver}
use event_saver.Backfill.Runner as TaskRunner
use event_saver.Backfill.Runner.{BackfillRunner, new_runner, run_loop}

-- `Settings`, as far as the service reads it itself
pub record Settings : Type 0 where
  pub log_level : String
  pub user_id_backfill_enabled : Bool
  pub user_id_backfill_interval_seconds : ℕ
  pub user_id_backfill_batch_size : ℕ
  pub event_users_api_url : String
  pub event_users_api_token : String

abbrev pub default_settings : Settings
default_settings = record {
  log_level = "INFO";
  user_id_backfill_enabled = false;
  user_id_backfill_interval_seconds = 300;
  user_id_backfill_batch_size = 100;
  event_users_api_url = "";
  event_users_api_token = "";
}

abbrev pub valid_levels : List String
valid_levels = "DEBUG" ∷ "INFO" ∷ "WARNING" ∷ "ERROR" ∷ "CRITICAL" ∷ []

-- `logging.getLevelNamesMapping()`
abbrev pub level_numbers : List (String × ℕ)
level_numbers =
    ("CRITICAL", 50)
    ∷ ("FATAL", 50)
    ∷ ("ERROR", 40)
    ∷ ("WARN", 30)
    ∷ ("WARNING", 30)
    ∷ ("INFO", 20)
    ∷ ("DEBUG", 10)
    ∷ ("NOTSET", 0)
    ∷ []

abbrev pub find_level : String → List (String × ℕ) → Option ℕ
find_level name [] = none
find_level name ((n, number) ∷ levels) =
    let rest = find_level name levels in if n == name then some number else rest

-- `getLevelNamesMapping().get(settings.log_level, logging.INFO)`
abbrev pub level_or_info : Option ℕ → ℕ
level_or_info none = 20
level_or_info (some number) = number

unfoldable pub log_level_of : Settings → ℕ
log_level_of settings = level_or_info (find_level settings.log_level level_numbers)

-- `str.upper` is given as a function.
module _ (upper : String → String) where
  unfoldable pub validate_log_level : String → Result String
  validate_log_level v =
      let u = upper v in if any (λ l. l == u) valid_levels then ok u else raise value_error

-- What the providers make of the settings; without a URL an enabled backfill is refused.
unfoldable pub provide_event_users_http_client : Settings → Result String
provide_event_users_http_client settings =
    if settings.user_id_backfill_enabled && settings.event_users_api_url == ""
    then raise value_error
    else ok settings.event_users_api_url

-- The task of the runner that is provided, for its first passes.
unfoldable pub provided_loop : Env → Resolver → Settings → ℕ → World → World
unfolding run_loop
provided_loop env resolver settings passes w =
    run_loop env resolver settings.user_id_backfill_batch_size
      settings.user_id_backfill_interval_seconds passes w

pub record App : Type 0 where
  pub consumer : Runner
  pub backfill : BackfillRunner
  pub is_closed : Bool

abbrev pub new_app : App
new_app = record {
  consumer = record { started = false; calls = [] };
  backfill = new_runner;
  is_closed = false;
}

module _ (events_dlx : String) (queue_specs : List QueueSpec) (settings : Settings) where
  -- `lifespan`, before `yield`
  unfoldable pub enter_lifespan : App → App
  unfolding ConsumerRunner.start TaskRunner.start
  enter_lifespan app = record app {
    consumer = ConsumerRunner.start events_dlx queue_specs app.consumer;
    backfill = TaskRunner.start settings.user_id_backfill_enabled app.backfill;
  }

  -- and after it
  unfoldable pub leave_lifespan : App → App
  unfolding ConsumerRunner.stop TaskRunner.stop
  leave_lifespan app = record app {
    backfill = TaskRunner.stop app.backfill;
    consumer = ConsumerRunner.stop events_dlx queue_specs app.consumer;
    is_closed = true;
  }

pub record JsonResponse : Type 0 where
  pub status_code : ℕ
  pub status : String
  pub checks_database : Option Bool

-- `_check_database`, by what its query gives
unfoldable pub check_database : Result (Unit {0}) → Bool
check_database (ok _) = true
check_database (raise e) = false

unfoldable pub ready : Result (Unit {0}) → JsonResponse
unfolding check_database
ready query =
    if check_database query
    then record { status_code = 200; status = "ready"; checks_database = some true }
    else record { status_code = 503; status = "not_ready"; checks_database = some false }

abbrev pub health : JsonResponse
health = record { status_code = 200; status = "ok"; checks_database = none }
