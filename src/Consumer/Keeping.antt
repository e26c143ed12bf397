-- ===== src/Consumer/Keeping.antt =====
-- What each call of `save_event` keeps, the consumer keeps.
use event_saver.Prelude.{ℕ, zero, suc, ◌+◌, ◌≡◌, String, List, arith}
use event_saver.Py.Exception.{Result, ok, raise}
use event_saver.Env.{Env}
use event_saver.Domain.Models.{EventAttributes}
use event_saver.Db.Tables.{Db}
use event_saver.Ingest.ProjectionExecutor.{ProjectionHandler}
use event_saver.Ingest.EventStore.{World, save_event}
use event_saver.Consumer.{
  RetryConfig, Verdict, Attempt, saved, transient, poison, classify, CloudEvent, attributes_of,
  attempt_save, back_off, after_attempt, retry_loop, consume_event,
}

module _ (env : Env) (handlers : List ProjectionHandler) (retry : RetryConfig) where
  -- a wait leaves the database alone
  pub back_off_committed :
      (attempt : ℕ) (w : World) → (back_off env handlers retry attempt w).committed ≡ w.committed
  back_off_committed attempt w = ground arith

  module _ (P : Db → Type 0) (a : EventAttributes)
      (kept : (w : World) → P w.committed → P (save_event env handlers a w).1.committed) where
    attempt_keeps :
        (r : Attempt) (w : World) (rest : World → Verdict × World)
        → P w.committed
        → ((v : World) → P v.committed → P (rest v).1.committed)
        → P (after_attempt r w rest).1.committed
    attempt_keeps saved w rest h next = h
    attempt_keeps poison w rest h next = h
    attempt_keeps (transient e) w rest h next = next w h

    pub retry_loop_keeps :
        (left attempt : ℕ) (w : World)
        → P w.committed
        → P (retry_loop env handlers retry left attempt a w).1.committed
    unfolding retry_loop attempt_save
    retry_loop_keeps zero attempt w h = h
    retry_loop_keeps (suc left) attempt w h =
        let (r, w') = save_event env handlers a w in
        attempt_keeps (classify r) w'
          (λ v.
            retry_loop env handlers retry left (attempt + 1) a
              (back_off env handlers retry attempt v))
          (kept w h)
          (λ v k.
            retry_loop_keeps left (attempt + 1) (back_off env handlers retry attempt v)
              (rw (back_off_committed attempt v) k))

  pub consume_event_keeps :
      (P : Db → Type 0) (queue_name : String) (event : Result CloudEvent) (w : World)
      → ((a : EventAttributes) (v : World)
          → P v.committed
          → P (save_event env handlers a v).1.committed)
      → P w.committed
      → P (consume_event env handlers retry queue_name event w).1.committed
  unfolding consume_event
  consume_event_keeps P queue_name (raise e) w kept h = h
  consume_event_keeps P queue_name (ok event) w kept h =
      retry_loop_keeps P (attributes_of queue_name event) (kept (attributes_of queue_name event))
        retry.transient_retry_attempts 1 w h
