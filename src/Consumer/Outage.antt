-- ===== src/Consumer/Outage.antt =====
-- The retry loop of `_save_with_retry` while the database fails, and a message that does not parse.
use event_saver.Prelude.{
  ℕ, zero, suc, ◌+◌, ◌-◌, ◌*◌, ◌^◌, ◌<◌, ◌≡◌, ◌≢◌, refl, sym, ap, ◌∙◌, true, false, List, [], ◌∷◌,
  arith, ltb,
}
use event_saver.Py.Value.{null}
use event_saver.Py.Exception.{Exception, Result, ok, raise}
use event_saver.Env.{Env}
use event_saver.Domain.Models.{ParsedEvent, EventAttributes}
use event_saver.Domain.EventParser.{parse}
use event_saver.Db.Session.{Reply, fails, Session}
use event_saver.Ingest.Repositories.{save}
use event_saver.Ingest.ProjectionExecutor.{ProjectionHandler}
use event_saver.Ingest.UseCase.{execute}
use event_saver.Ingest.EventStore.{World, open_session, roll_back, close_session, save_event}
use event_saver.Ingest.Handlers.{projection_handlers}
use event_saver.Ingest.Walk.{execute-holds, projection_handlers-IsForHandlers}
use event_saver.Ingest.Atomicity.{effect, Succeeds, replays-IsForStatements}
use event_saver.Db.Replays.{replays_logic}
use event_saver.Consumer.ExactlyOnce.{applied, execute-now, parse_result}
use event_saver.Ingest.Duplicates.{quiet, parse-now}
use event_saver.Consumer.{
  RetryConfig, Verdict, acked, requeued, is_transient, attempt_save, back_off, retry_loop,
  save_with_retry,
}

-- `n` failures of a statement with the error `e`, then none.
abbrev pub outage : Exception → ℕ → List Reply
outage e zero = []
outage e (suc n) = fails e ∷ outage e n

module _ (env : Env) (handlers : List ProjectionHandler) (retry : RetryConfig) where
  -- The first statement of an event that parses fails.
  save_event_fails :
      (a : EventAttributes) (event : ParsedEvent) (e : Exception) (rest : List Reply) (w : World)
      → parse env w.now a ≡ ok event
      → w.replies ≡ fails e ∷ rest
      → save_event env handlers a w ≡ (raise e, record w { replies = rest })
  unfolding save_event execute save
  save_event_fails a event e rest w parsed waiting = rw (parsed, waiting)

  -- the loop goes on after a transient failure
  retry_loop_fails :
      (left attempt : ℕ) (a : EventAttributes) (event : ParsedEvent) (e : Exception)
      (rest : List Reply) (w : World)
      → parse env w.now a ≡ ok event
      → w.replies ≡ fails e ∷ rest
      → is_transient e ≡ true
      → retry_loop env handlers retry (suc left) attempt a w
        ≡ retry_loop env handlers retry left
            (attempt + 1)
            a
            (back_off env handlers retry attempt (record w { replies = rest }))
  unfolding retry_loop attempt_save
  retry_loop_fails left attempt a event e rest w parsed waiting temporary =
      rw (save_event_fails a event e rest w parsed waiting, temporary)

  -- the clock as the back-offs move it
  two_pow_suc : (m : ℕ) → 2 ^ (suc m) ≡ 2 ^ m + 2 ^ m
  two_pow_suc m = omega arith

  pause_suc :
      (m : ℕ)
      → retry.retry_backoff * 2 ^ suc m ≡ retry.retry_backoff * 2 ^ m + retry.retry_backoff * 2 ^ m
  pause_suc m = rw (two_pow_suc m) (grind arith)

  plus_zero : (m : ℕ) → m + 0 ≡ m
  plus_zero m = omega arith

  save_with_retry_loop :
      (a : EventAttributes) (w : World) (n : ℕ)
      → retry.transient_retry_attempts ≡ n
      → save_with_retry env handlers retry a w ≡ retry_loop env handlers retry n 1 a w
  unfolding save_with_retry
  save_with_retry_loop a w n count = ap (λ i. retry_loop env handlers retry i 1 a w) count

  one_plus : (k : ℕ) → suc k ≡ suc 0 + k
  one_plus k = omega arith

  plus_one : (m : ℕ) → suc m + 1 ≡ suc (suc m)
  plus_one m = omega arith

  plus_suc : (m n : ℕ) → suc m + n ≡ m + suc n
  plus_suc m n = omega arith

  pred_suc : (m : ℕ) → suc m - 1 ≡ m
  pred_suc m = omega arith

  back_off_now :
      (m : ℕ) (w : World)
      → ltb (suc m) retry.transient_retry_attempts ≡ true
      → (back_off env handlers retry (suc m) w).now ≡ w.now + retry.retry_backoff * 2 ^ m
  back_off_now m w more = rw (more, pred_suc m)

  back_off_last :
      (m : ℕ) (w : World)
      → ltb (suc m) retry.transient_retry_attempts ≡ false
      → back_off env handlers retry (suc m) w ≡ w
  back_off_last m w last = rw last

  back_off_replies :
      (attempt : ℕ) (w : World) → (back_off env handlers retry attempt w).replies ≡ w.replies
  back_off_replies attempt w = ground arith

  back_off_committed :
      (attempt : ℕ) (w : World) → (back_off env handlers retry attempt w).committed ≡ w.committed
  back_off_committed attempt w = ground arith

  module _ (a : EventAttributes) (event : ParsedEvent) (timed : a.time ≢ null)
      (parsed : parse env 0 a ≡ ok event) (e : Exception) (temporary : is_transient e ≡ true) where
    parsed_at : (now : ℕ) → parse env now a ≡ ok event
    parsed_at now = parse-now env now 0 a timed ∙ parsed

    -- `m` attempts are over, and `suc left` are to come
    abbrev GivesUp : ℕ → ℕ → Verdict × World → World → Type 0
    GivesUp m left (verdict, w') w =
        (verdict ≡ requeued)
        × (w'.committed ≡ w.committed)
        × (w'.now + retry.retry_backoff * 2 ^ m ≡ w.now + retry.retry_backoff * 2 ^ (m + left))

    retry_loop-GivesUp :
        (left m : ℕ) (w : World)
        → retry.transient_retry_attempts ≡ suc m + left
        → w.replies ≡ outage e (suc left)
        → GivesUp m left (retry_loop env handlers retry (suc left) (suc m) a w) w
    unfolding retry_loop
    retry_loop-GivesUp zero m w count waiting =
        rw
          (
            retry_loop_fails zero (suc m) a event e [] w (parsed_at w.now) waiting temporary,
            back_off_last m (record w { replies = [] }) (ground arith),
          )
          (refl, refl, rw (plus_zero m))
    retry_loop-GivesUp (suc left) m w count waiting =
        let w1 : World = record w { replies = outage e (suc left) } in
        let w2 = back_off env handlers retry (suc m) w1 in
        let (verdict, same, clock) =
          retry_loop-GivesUp left (suc m) w2 (omega arith) (back_off_replies (suc m) w1) in
        rw
          (
            retry_loop_fails (suc left) (suc m) a event e (outage e (suc left)) w (parsed_at w.now)
                waiting temporary,
            plus_one m,
          )
          (
            verdict,
            same ∙ back_off_committed (suc m) w1,
            grind (arith, clock, pause_suc m, back_off_now m w1 (ground arith), plus_suc m left),
          )

    -- With `k + 1` attempts allowed, a transient error of the first statement in each of them makes
    -- a message that parses and brings its time be requeued: nothing is committed, and the
    -- back-offs have taken `2 ^ k - 1` times the configured one.
    pub save_with_retry_gives_up :
        (k : ℕ) (w : World)
        → retry.transient_retry_attempts ≡ suc k
        → w.replies ≡ outage e (suc k)
        → let (verdict, w') = save_with_retry env handlers retry a w in
          (verdict ≡ requeued)
          × (w'.committed ≡ w.committed)
          × (w'.now + retry.retry_backoff ≡ w.now + retry.retry_backoff * 2 ^ k)
    save_with_retry_gives_up k w count waiting =
        let (verdict, same, clock) = retry_loop-GivesUp k 0 w (count ∙ one_plus k) waiting in
        rw (save_with_retry_loop a w (suc k) count) (verdict, same, grind (arith, clock))

module _ (env : Env) (retry : RetryConfig) (a : EventAttributes) (timed : a.time ≢ null)
    (e : Exception) (temporary : is_transient e ≡ true) where
  abbrev handlers : List ProjectionHandler
  handlers = projection_handlers env

  close_quiet :
      (r : Result (Unit {0})) (s : Session) (w : World)
      → r ≡ ok tt
      → s.replies ≡ []
      → close_session r s w ≡ (ok tt, record (roll_back s w) { committed = s.db })
  close_quiet r s w ran quiet_left = rw (ran, quiet_left)

  -- A call without failures commits, if an undisturbed run returns.
  save_event_quiet :
      (w : World)
      → w.replies ≡ []
      → Succeeds env handlers w.now a w.committed
      → let (r, w') = save_event env handlers a w in
        (r ≡ ok tt) × (w'.committed ≡ effect env handlers w.now a w.committed)
  unfolding save_event
  save_event_quiet w waiting ran =
      let run = execute env handlers w.now a (open_session w) in
      let (returned, same, quiet_left) =
        (execute-holds (replays-IsForStatements env) handlers
            (projection_handlers-IsForHandlers env replays_logic) w.now a).at
          (quiet w.committed) (open_session w) refl waiting tt ran in
      rw (close_quiet run.0 run.1 w returned quiet_left) (refl, same)

  retry_loop_recovers :
      (n left attempt : ℕ) (w : World)
      → w.replies ≡ outage e n
      → n < left
      → Succeeds env handlers 0 a w.committed
      → let (verdict, w') = retry_loop env handlers retry left attempt a w in
        (verdict ≡ acked) × (w'.committed ≡ applied env a w.committed)
  unfolding retry_loop attempt_save
  retry_loop_recovers n zero attempt w waiting more ran = absurd (omega (arith, more))
  retry_loop_recovers zero (suc left) attempt w waiting more ran =
      let alike = execute-now env 0 w.now a (quiet w.committed) timed in
      let (returned, same) = save_event_quiet w waiting (rw alike at ran) in
      rw returned (refl, same ∙ ap (λ (p : Result (Unit {0}) × Session). p.1.db) (sym alike))
  retry_loop_recovers (suc n) (suc left) attempt w waiting more ran =
      let (event, parsed) = parse_result env 0 a (quiet w.committed) (parse env 0 a) refl ran in
      let w1 : World = record w { replies = outage e n } in
      let w2 = back_off env handlers retry attempt w1 in
      let same = back_off_committed env handlers retry attempt w1 in
      rw
        (retry_loop_fails env handlers retry left attempt a event e (outage e n) w
          (parse-now env w.now 0 a timed ∙ parsed) waiting temporary)
        (rw same at (
          retry_loop_recovers n left (attempt + 1) w2
            (back_off_replies env handlers retry attempt w1) (omega (arith, more)) (rw same ran)))

  -- A message that brings its time, whose undisturbed run returns, outlives an outage: if fewer
  -- attempts than are allowed meet a transient error of their first statement and then none does,
  -- the message is acknowledged, and the database is as one undisturbed run leaves it.
  pub save_with_retry_recovers :
      (n : ℕ) (w : World)
      → w.replies ≡ outage e n
      → n < retry.transient_retry_attempts
      → Succeeds env handlers 0 a w.committed
      → let (verdict, w') = save_with_retry env handlers retry a w in
        (verdict ≡ acked) × (w'.committed ≡ applied env a w.committed)
  unfolding save_with_retry
  save_with_retry_recovers n w waiting more ran =
      retry_loop_recovers n retry.transient_retry_attempts 1 w waiting more ran
