-- ===== src/Consumer/ExactlyOnce.antt =====
-- Retries and redeliveries of a message apply it at most once, and an acknowledged message has
-- been applied.
use event_saver.Prelude.{
  ℕ, zero, suc, ◌+◌, ◌≡◌, ◌≢◌, refl, sym, ap, ◌∙◌, ◌⊎◌, inl, inr, String, Bool, true, false, List,
  [], ◌∷◌, any, ◌||◌, if◌then◌else◌,
}
use event_saver.Py.Value.{null}
use event_saver.Py.Exception.{Result, ok, raise}
use event_saver.Env.{Env}
use event_saver.Domain.Models.{ParsedEvent, EventAttributes}
use event_saver.Domain.EventParser.{parse}
use event_saver.Db.Tables.{Db}
use event_saver.Db.Session.{Reply, answers, fails, lost, Session}
use event_saver.Db.Replays.{replays_logic}
use event_saver.Db.Keeps.{keeps_logic}
use event_saver.Ingest.Repositories.{event_row}
use event_saver.Ingest.ProjectionExecutor.{ProjectionHandler}
use event_saver.Ingest.Handlers.{projection_handlers}
use event_saver.Ingest.UseCase.{execute}
use event_saver.Ingest.EventStore.{World, open_session, commit_reply, close_session, save_event}
use event_saver.Ingest.Walk.{projection_handlers-IsForHandlers}
use event_saver.Ingest.Duplicates.{IsStored, quiet, execute_stores, execute_stored, parse-now}
use event_saver.Ingest.Atomicity.{effect, Succeeds, IsRolledBack, IsCommitted, save_event_atomic}
use event_saver.Consumer.Keeping.{back_off_committed, retry_loop_keeps}
use event_saver.Consumer.{
  RetryConfig, Verdict, acked, requeued, dead_lettered, transient, poison, classify, CloudEvent,
  attributes_of, is_transient, attempt_save, back_off, after_attempt, retry_loop, consume_event,
}

module _ (env : Env) (a : EventAttributes) (before : Db) where
  -- The database after one undisturbed run. For an event with a time the clock does not matter.
  abbrev pub applied : Db
  applied = effect env (projection_handlers env) 0 a before

  -- The message has been applied once, by a run that succeeds.
  abbrev pub IsApplied : Db → Type 0
  IsApplied db = Succeeds env (projection_handlers env) 0 a before × (db ≡ applied)

  abbrev pub IsUntouchedOrApplied : Db → Type 0
  IsUntouchedOrApplied db = (db ≡ before) ⊎ IsApplied db

  -- What holds after the message has been handled, however it was.
  abbrev pub IsHandled : Verdict × World → Type 0
  IsHandled (verdict, w) =
      IsUntouchedOrApplied w.committed × (verdict ≡ acked → IsApplied w.committed)

module _ (env : Env) where
  abbrev handlers : List ProjectionHandler
  handlers = projection_handlers env

  pub execute-now :
      (now now' : ℕ) (a : EventAttributes) (s : Session)
      → a.time ≢ null
      → execute env handlers now a s ≡ execute env handlers now' a s
  unfolding execute
  execute-now now now' a s timed = rw (parse-now env now now' a timed)

  abbrev pub Parsed : ℕ → EventAttributes → Type 0
  Parsed now a = (event : ParsedEvent) × (parse env now a ≡ ok event)

  pub parse_result :
      (now : ℕ) (a : EventAttributes) (s : Session) (r : Result ParsedEvent)
      → parse env now a ≡ r
      → (execute env handlers now a s).0 ≡ ok tt
      → Parsed now a
  unfolding execute
  parse_result now a s (ok event) parsed ran = (event, parsed)
  parse_result now a s (raise e) parsed ran = cc (rw parsed at ran)

  commit_same :
      (replies : List Reply) (s : Session) (w : World)
      → s.db ≡ w.committed
      → (commit_reply replies s w).1.committed ≡ w.committed
  commit_same [] s w same = same
  commit_same (answers ∷ rest) s w same = same
  commit_same (fails e ∷ rest) s w same = refl
  commit_same (lost e ∷ rest) s w same = same

  close_same :
      (r : Result (Unit {0})) (s : Session) (w : World)
      → s.db ≡ w.committed
      → (close_session r s w).1.committed ≡ w.committed
  close_same (ok u) s w same = commit_same s.replies s w same
  close_same (raise e) s w same = refl

  -- A call for a stored event commits no change.
  save_event_stored :
      (a : EventAttributes) (event : ParsedEvent) (w : World)
      → parse env w.now a ≡ ok event
      → IsStored (event_row event) w.committed
      → (save_event env handlers a w).1.committed ≡ w.committed
  unfolding save_event
  save_event_stored a event w parsed stored =
      let run = execute env handlers w.now a (open_session w) in
      close_same run.0 run.1 w
        (execute_stored env handlers w.now a event (open_session w) parsed stored)

  module _ (a : EventAttributes) (timed : a.time ≢ null) (before : Db) where
    from_untouched :
        (r : Result (Unit {0})) (w : World) (after : Db)
        → w.committed ≡ before
        → IsRolledBack r w.committed after ⊎ IsCommitted env handlers w.now a w.committed after
        → IsUntouchedOrApplied env a before after × (r ≡ ok tt → IsApplied env a before after)
    from_untouched r w after e (inl (exc, raised, same)) = (inl (same ∙ e), λ returned. cc)
    from_untouched r w after e (inr (ran, same)) =
        let alike = execute-now 0 w.now a (quiet before) timed in
        let done : IsApplied env a before after = (
          rw alike (rw e at ran),
          same
              ∙ ap (effect env handlers w.now a) e
              ∙ ap (λ (p : Result (Unit {0}) × Session). p.1.db) (sym alike),
        ) in
        (inr done, λ _. done)

    applied_stored :
        (w : World)
        → IsApplied env a before w.committed
        → (save_event env handlers a w).1.committed ≡ w.committed
    applied_stored w (ran, same) =
        let (event, parsed) = parse_result 0 a (quiet before) (parse env 0 a) refl ran in
        save_event_stored a event w (parse-now env w.now 0 a timed ∙ parsed) (
          rw same (
            execute_stores env handlers
              (λ row. projection_handlers-IsForHandlers env (keeps_logic (IsStored row))) 0 a event
              before parsed))

    attempt_step :
        (w : World)
        → IsUntouchedOrApplied env a before w.committed
        → let (r, w') = save_event env handlers a w in
          IsUntouchedOrApplied env a before w'.committed
          × (r ≡ ok tt → IsApplied env a before w'.committed)
    attempt_step w (inl e) =
        from_untouched _ w _ e
          (save_event_atomic env handlers (projection_handlers-IsForHandlers env replays_logic) a w)
    attempt_step w (inr done) =
        let still : IsApplied env a before (save_event env handlers a w).1.committed =
          (done.0, applied_stored w done ∙ done.1) in
        (inr still, λ _. still)

    -- one pass of the loop, by how the attempt ended
    loop_step :
        (r : Result (Unit {0})) (w : World) (rest : World → Verdict × World)
        → IsUntouchedOrApplied env a before w.committed
          × (r ≡ ok tt → IsApplied env a before w.committed)
        → ((w : World)
            → IsUntouchedOrApplied env a before w.committed
            → IsHandled env a before (rest w))
        → IsHandled env a before (after_attempt (classify r) w rest)
    loop_step (ok u) w rest (stage, done) next = (stage, λ _. done refl)
    loop_step (raise e) w rest (stage, done) next = failed (is_transient e)
      where
        failed :
            (b : Bool)
            → IsHandled env a before (after_attempt (if b then transient e else poison) w rest)
        failed true = next w stage
        failed false = (stage, λ impossible. cc)

    module _ (retry : RetryConfig) where
      retry_loop-IsHandled :
          (left attempt : ℕ) (w : World)
          → IsUntouchedOrApplied env a before w.committed
          → IsHandled env a before (retry_loop env handlers retry left attempt a w)
      unfolding retry_loop attempt_save
      retry_loop-IsHandled zero attempt w stage = (stage, λ impossible. cc)
      retry_loop-IsHandled (suc left) attempt w stage =
          let (r, w') = save_event env handlers a w in
          loop_step r w'
            (λ v.
              retry_loop env handlers retry left (attempt + 1) a
                (back_off env handlers retry attempt v))
            (attempt_step w stage)
            (λ v stage'.
              retry_loop-IsHandled left (attempt + 1) (back_off env handlers retry attempt v)
                (rw (back_off_committed env handlers retry attempt v) stage'))

abbrev pub is_acked : Verdict → Bool
is_acked acked = true
is_acked _ = false

module _ (env : Env) (retry : RetryConfig) (queue_name : String) (event : CloudEvent) where
  -- The message is delivered `n` times, one delivery after the other.
  abbrev pub deliver : ℕ → World → List Verdict × World
  deliver zero w = ([], w)
  deliver (suc n) w =
      let (verdict, w') =
        consume_event env (projection_handlers env) retry queue_name (ok event) w in
      let (verdicts, w'') = deliver n w' in (verdict ∷ verdicts, w'')

  module _ (timed : event.time ≢ null) (before : Db) where
    abbrev Stage : Db → Type 0
    Stage = IsUntouchedOrApplied env (attributes_of queue_name event) before

    abbrev Done : Db → Type 0
    Done = IsApplied env (attributes_of queue_name event) before

    consume-Stage :
        (w : World)
        → Stage w.committed
        → IsHandled env
            (attributes_of queue_name event)
            before
            (consume_event env (projection_handlers env) retry queue_name (ok event) w)
    unfolding consume_event
    consume-Stage w h =
        retry_loop-IsHandled env (attributes_of queue_name event) timed before retry
          retry.transient_retry_attempts 1 w h

    consume-Done :
        (w : World)
        → Done w.committed
        → Done
            (consume_event env (projection_handlers env) retry queue_name (ok event) w).1.committed
    unfolding consume_event
    consume-Done w d =
        retry_loop_keeps env (projection_handlers env) retry Done (attributes_of queue_name event)
          (λ v h. (h.0, applied_stored env (attributes_of queue_name event) timed before v h ∙ h.1))
          retry.transient_retry_attempts 1 w d

    applied_stays : (n : ℕ) (w : World) → Done w.committed → Done (deliver n w).1.committed
    applied_stays zero w d = d
    applied_stays (suc n) w d = applied_stays n _ (consume-Done w d)

    first_or_later :
        (verdict : Verdict) (later : Bool) (db : Db)
        → (verdict ≡ acked → Done db)
        → (later ≡ true → Done db)
        → is_acked verdict || later ≡ true
        → Done db
    first_or_later acked later db first rest h = first refl
    first_or_later requeued later db first rest h = rest h
    first_or_later dead_lettered later db first rest h = rest h

    -- However often a message that brings its time is delivered, and however the database
    -- answers each time, the database is as it was or as one undisturbed run leaves it; it is the
    -- latter, and that run succeeds, once a delivery has been acknowledged.
    pub deliver_exactly_once :
        (n : ℕ) (w : World)
        → IsUntouchedOrApplied env (attributes_of queue_name event) before w.committed
        → let (verdicts, w') = deliver n w in
          IsUntouchedOrApplied env (attributes_of queue_name event) before w'.committed
          × (any is_acked verdicts ≡ true
              → IsApplied env (attributes_of queue_name event) before w'.committed)
    deliver_exactly_once zero w h = (h, λ none_acked. cc)
    deliver_exactly_once (suc n) w h =
        let (verdict, w') =
          consume_event env (projection_handlers env) retry queue_name (ok event) w in
        let (now_stage, now_done) = consume-Stage w h in
        let (later_stage, later_done) = deliver_exactly_once n w' now_stage in
        (
          later_stage,
          first_or_later verdict (any is_acked (deliver n w').0) (deliver n w').1.committed
              (λ e. applied_stays n w' (now_done e)) later_done,
        )
