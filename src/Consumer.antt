-- ===== src/Consumer.antt =====
-- event_saver/adapters/consumer.py: one message from the broker to its acknowledgement.
pub mod Runner
pub mod Keeping
pub mod ExactlyOnce
pub mod Outage
pub mod Poison
use event_saver.Prelude.{
  ℕ, zero, suc, ◌+◌, ◌-◌, ◌*◌, ◌^◌, String, Bool, true, false, Option, none, some, List, ◌∷◌, ltb,
  if◌then◌else◌,
}
use event_saver.Py.Value.{Value, or_empty}
use event_saver.Py.Exception.{
  Exception, Result, ok, raise, attribute_error, key_error, type_error, value_error, runtime_error,
  operational_error, interface_error, sql_timeout_error, os_error, timeout_error, dbapi_error,
  http_error, users_service_unavailable,
}
use event_saver.Env.{Env}
use event_saver.Domain.Models.{EventAttributes}
use event_saver.Db.Session.{Metric, messages_processed_total}
use event_saver.Ingest.ProjectionExecutor.{ProjectionHandler}
use event_saver.Ingest.EventStore.{World, save_event}

-- `_is_transient`
unfoldable pub is_transient : Exception → Bool
is_transient operational_error = true
is_transient interface_error = true
is_transient sql_timeout_error = true
is_transient os_error = true
is_transient timeout_error = true
is_transient (dbapi_error connection_invalidated) = connection_invalidated
is_transient _ = false

-- `transient_retry_attempts` and `retry_backoff_seconds`, the latter in microseconds
pub record RetryConfig : Type 0 where
  pub transient_retry_attempts : ℕ
  pub retry_backoff : ℕ

-- `DEFAULT_TRANSIENT_RETRY_ATTEMPTS`, `DEFAULT_RETRY_BACKOFF_SECONDS`
abbrev pub default_retry : RetryConfig
default_retry = record { transient_retry_attempts = 3; retry_backoff = 500000 }

-- How `_save_with_retry` ends: it returns, or raises `NackMessage(requeue=True)` or
-- `RejectMessage`; for the broker, the message is acknowledged, requeued or dead-lettered.
pub data Verdict : Type 0 where
  acked requeued dead_lettered : Verdict

-- How `_attempt_save` ends: None, the transient error, or `RejectMessage`.
pub data Attempt : Type 0 where
  saved : Attempt
  transient : Exception → Attempt
  poison : Attempt

abbrev pub classify : Result (Unit {0}) → Attempt
classify (ok _) = saved
classify (raise e) = if is_transient e then transient e else poison

-- a CloudEvent as `_consume_message` reads it
pub record CloudEvent : Type 0 where
  pub id : String
  pub type : String
  pub source : String
  pub time : Value
  pub booking_id : Option String
  pub payload : Value
  pub idempotencykey : Option String
  pub traceid : Option String
  pub spanid : Option String
  pub dataschema : Option String

-- the keyword arguments of `save_event`
abbrev pub attributes_of : String → CloudEvent → EventAttributes
attributes_of queue_name event = record {
  queue_name = queue_name;
  event_id = event.id;
  event_type = event.type;
  source = event.source;
  time = event.time;
  booking_id = event.booking_id;
  payload = or_empty event.payload;
  idempotency_key = event.idempotencykey;
  trace_id = event.traceid;
  span_id = event.spanid;
  dataschema = event.dataschema;
}

-- `asyncio.sleep`
abbrev pub sleep : ℕ → World → World
sleep duration w = record w { now = w.now + duration }

abbrev pub outcome_of : Verdict → String
outcome_of acked = "ok"
outcome_of requeued = "retried"
outcome_of dead_lettered = "rejected"

-- `metrics.record_message`
abbrev pub record_message : String → String → Verdict → World → World
record_message queue event_type verdict w = record w {
  metrics = messages_processed_total queue event_type (outcome_of verdict) ∷ w.metrics;
}

-- What a pass of the loop does with the attempt's end, where `next` is the rest of the loop.
abbrev pub after_attempt : Attempt → World → (World → Verdict × World) → Verdict × World
after_attempt saved w next = (acked, w)
after_attempt poison w next = (dead_lettered, w)
after_attempt (transient _) w next = next w

module _ (env : Env) (handlers : List ProjectionHandler) (retry : RetryConfig) where
  -- `_attempt_save`
  unfoldable pub attempt_save : EventAttributes → World → Attempt × World
  unfolding is_transient
  attempt_save a w = let (r, w') = save_event env handlers a w in (classify r, w')

  -- `if attempt < self._transient_retry_attempts: await asyncio.sleep(backoff * 2 ** (attempt - 1))`
  abbrev pub back_off : ℕ → World → World
  back_off attempt w =
      if ltb attempt retry.transient_retry_attempts
      then sleep (retry.retry_backoff * 2 ^ (attempt - 1)) w
      else w

  -- the loop of `_save_with_retry`: the attempts left, and the number of the next one
  unfoldable pub retry_loop : ℕ → ℕ → EventAttributes → World → Verdict × World
  retry_loop zero attempt a w = (requeued, w)
  retry_loop (suc left) attempt a w =
      let (r, w') = attempt_save a w in
      after_attempt r w' (λ v. retry_loop left (attempt + 1) a (back_off attempt v))

  -- `_save_with_retry`
  unfoldable pub save_with_retry : EventAttributes → World → Verdict × World
  unfolding retry_loop
  save_with_retry a w = retry_loop retry.transient_retry_attempts 1 a w

  -- what `_consume_message` does with the outcome of `from_http`
  unfoldable pub consume_event : String → Result CloudEvent → World → Verdict × World
  unfolding save_with_retry
  consume_event queue_name (raise _) w =
      (dead_lettered, record_message queue_name "unknown" dead_lettered w)
  consume_event queue_name (ok event) w =
      let (verdict, w') = save_with_retry (attributes_of queue_name event) w in
      (verdict, record_message queue_name event.type verdict w')

  -- `_consume_message`; `from_http` is the CloudEvents library's
  unfoldable pub consume_message {ℓ} :
      {Message : Type ℓ}
      → (Message → Result CloudEvent)
      → Message
      → String
      → World
      → Verdict × World
  unfolding consume_event
  consume_message from_http message queue_name w = consume_event queue_name (from_http message) w
