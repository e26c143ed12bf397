-- ===== src/Consumer/Poison.antt =====
-- A message that does not parse, as `_consume_message` handles it.
use event_saver.Prelude.{ℕ, suc, ◌≡◌, refl, false, Option, none, some, List, String, arith}
use event_saver.Py.Value.{Value, null, datetime, or_empty}
use event_saver.Py.Exception.{Exception, Result, ok, raise, ◌>>=◌}
use event_saver.Py.Datetime.{Datetime}
use event_saver.Env.{Env}
use event_saver.Domain.Models.{EventAttributes}
use event_saver.Domain.EventParser.{
  parse, parse_occurred_at, compute_payload_hash, or_raise_value_error,
}
use event_saver.Ingest.ProjectionExecutor.{ProjectionHandler}
use event_saver.Ingest.UseCase.{execute}
use event_saver.Ingest.EventStore.{World, save_event}
use event_saver.Consumer.{
  RetryConfig, dead_lettered, CloudEvent, attributes_of, is_transient, attempt_save, retry_loop,
  save_with_retry, consume_event,
}

-- Errors of the parser are not transient.
abbrev IsFinal : {A : Type 0} → Result A → Type 0
IsFinal (ok _) = Unit
IsFinal (raise e) = is_transient e ≡ false

or_raise-IsFinal : (o : Option Datetime) → IsFinal (or_raise_value_error o)
unfolding is_transient
or_raise-IsFinal none = refl
or_raise-IsFinal (some d) = tt

occurred_at-IsFinal :
    (env : Env) (now : ℕ) (time : Value) → IsFinal (parse_occurred_at env now time)
unfolding parse_occurred_at
occurred_at-IsFinal env now null = tt
occurred_at-IsFinal env now (datetime d) = tt
occurred_at-IsFinal env now v = or_raise-IsFinal (env.from_iso_format (env.str_of v))

hash-IsFinal : (env : Env) (payload : Value) → IsFinal (compute_payload_hash env payload)
unfolding compute_payload_hash is_transient
hash-IsFinal env payload = go (env.dumps_sorted payload) refl
  where
    go :
        (o : Option String)
        → env.dumps_sorted payload ≡ o
        → IsFinal (compute_payload_hash env payload)
    go none e = rw (e, IsFinal) refl
    go (some text) e = rw (e, IsFinal) tt

bind-IsFinal :
    {A B : Type 0} (r : Result A) (f : A → Result B)
    → IsFinal r
    → ((x : A) → IsFinal (f x))
    → IsFinal (r >>= f)
bind-IsFinal (ok x) f h k = k x
bind-IsFinal (raise e) f h k = h

parse-IsFinal : (env : Env) (now : ℕ) (a : EventAttributes) → IsFinal (parse env now a)
unfolding parse
parse-IsFinal env now a =
    bind-IsFinal (parse_occurred_at env now a.time) _ (occurred_at-IsFinal env now a.time) (λ at.
      bind-IsFinal (compute_payload_hash env (or_empty a.payload)) _
        (hash-IsFinal env (or_empty a.payload)) (λ hash. tt))

final_of :
    {A : Type 0} (r : Result A) (e : Exception) → IsFinal r → r ≡ raise e → is_transient e ≡ false
final_of (ok x) e h same = cc
final_of (raise f) e h same = ground arith

module _ (env : Env) (handlers : List ProjectionHandler) (retry : RetryConfig) where
  save_event_raises :
      (a : EventAttributes) (e : Exception) (w : World)
      → parse env w.now a ≡ raise e
      → save_event env handlers a w ≡ (raise e, w)
  unfolding save_event execute
  save_event_raises a e w failed = rw failed

  -- If at least one attempt is allowed, a message that does not parse is dead-lettered at the
  -- first one: no statement is sent, nothing is committed and no back-off is waited for.
  pub consume_event_rejects :
      (queue_name : String) (event : CloudEvent) (e : Exception) (k : ℕ) (w : World)
      → parse env w.now (attributes_of queue_name event) ≡ raise e
      → retry.transient_retry_attempts ≡ suc k
      → let (verdict, w') = consume_event env handlers retry queue_name (ok event) w in
        (verdict ≡ dead_lettered)
        × (w'.committed ≡ w.committed)
        × (w'.replies ≡ w.replies)
        × (w'.now ≡ w.now)
  unfolding consume_event save_with_retry retry_loop attempt_save
  consume_event_rejects queue_name event e k w failed count =
      let a = attributes_of queue_name event in
      rw
        (
          count,
          save_event_raises a e w failed,
          final_of (parse env w.now a) e (parse-IsFinal env w.now a) failed,
        )
        (refl, refl, refl, refl)
