-- ===== src/Backfill/Runner.antt =====
-- `UserIdBackfillRunner` of event_saver/adapters/backfill_runner.py.
use event_saver.Prelude.{
  ℕ, zero, suc, ◌+◌, ◌*◌, ◌≡◌, refl, ◌∙◌, ap, Bool, true, false, not, Option, none, some, List, [],
  ◌∷◌, is_some, nat_eq, arith, nat_eq_iff, if◌then◌else◌,
}
use event_saver.Py.Exception.{Result, ok, raise}
use event_saver.Env.{Env}
use event_saver.Db.Rows.{BookingRecord}
use event_saver.Db.Session.{Reply, answers, fails, lost, Session}
use event_saver.Db.Table.{delete_where}
use event_saver.Ingest.EventStore.{World, open_session, commit_reply}
use event_saver.Backfill.Cycle.{
  Cycle, Resolver, backfill_rows, start_cycle, catch_unavailable, candidates, finish,
  after_candidates, run_once,
}
use event_saver.Backfill.Preserves.{run_once_keeps}
use event_saver.Backfill.Fills.{IsBackfilled, IsBackfilled-refl, fill_column-IsBackfilled}

-- `_task`, with what the event loop knows: the number for the next task, and the tasks alive.
pub record BackfillRunner : Type 0 where
  pub task : Option ℕ
  pub next_task : ℕ
  pub alive : List ℕ

abbrev pub new_runner : BackfillRunner
new_runner = record { task = none; next_task = 0; alive = [] }

-- `asyncio.create_task(self._loop())`
abbrev create_task : BackfillRunner → BackfillRunner
create_task r = record {
  task = some r.next_task;
  next_task = r.next_task + 1;
  alive = r.next_task ∷ r.alive;
}

unfoldable pub start : Bool → BackfillRunner → BackfillRunner
start enabled r = if not enabled then r else if is_some r.task then r else create_task r

-- `self._task.cancel()` and awaiting its end
abbrev cancel_task : Option ℕ → BackfillRunner → BackfillRunner
cancel_task none r = r
cancel_task (some t) r = record r { task = none; alive = delete_where (nat_eq t) r.alive }

unfoldable pub stop : BackfillRunner → BackfillRunner
unfolding delete_where
stop r = cancel_task r.task r

pub data Call : Type 0 where
  start_called stop_called : Call

module _ (enabled : Bool) where
  abbrev call : Call → BackfillRunner → BackfillRunner
  call start_called r = start enabled r
  call stop_called r = stop r

  -- the calls, the last first
  abbrev pub after_calls : List Call → BackfillRunner
  after_calls [] = new_runner
  after_calls (c ∷ calls) = call c (after_calls calls)

  abbrev pub should_run : List Call → Bool
  should_run [] = false
  should_run (start_called ∷ calls) = enabled
  should_run (stop_called ∷ calls) = false

  abbrev pub tasks_of : Option ℕ → List ℕ
  tasks_of none = []
  tasks_of (some t) = t ∷ []

  abbrev IsSound : Bool → BackfillRunner → Type 0
  IsSound runs r = (r.alive ≡ tasks_of r.task) × (is_some r.task ≡ runs)

  start-IsSound :
      (e runs : Bool) (t : Option ℕ) (n : ℕ) (alive : List ℕ)
      → IsSound runs (record { task = t; next_task = n; alive = alive })
      → (e ≡ false → runs ≡ false)
      → IsSound e (start e (record { task = t; next_task = n; alive = alive }))
  unfolding start
  start-IsSound false runs t n alive (a, r) off = (a, r ∙ off refl)
  start-IsSound true runs none n alive (a, r) off = (ap (λ l. n ∷ l) a, refl)
  start-IsSound true runs (some t) n alive (a, r) off = (a, refl)

  stop-IsSound :
      (runs : Bool) (t : Option ℕ) (n : ℕ) (alive : List ℕ)
      → IsSound runs (record { task = t; next_task = n; alive = alive })
      → IsSound false (stop (record { task = t; next_task = n; alive = alive }))
  unfolding stop delete_where
  stop-IsSound runs none n alive (a, r) = (a, refl)
  stop-IsSound runs (some t) n alive (a, r) = (rw (a, (nat_eq_iff t t).1 refl) refl, refl)

  never_when_disabled : (calls : List Call) → enabled ≡ false → should_run calls ≡ false
  never_when_disabled [] e = refl
  never_when_disabled (start_called ∷ calls) e = e
  never_when_disabled (stop_called ∷ calls) e = refl

  -- However often `start` and `stop` are called, and in whatever order, the tasks alive are the one
  -- that the runner holds, if any; and it holds one exactly when it is enabled and the last call was
  -- `start`.
  pub after_calls_lem :
      (calls : List Call)
      → ((after_calls calls).alive ≡ tasks_of (after_calls calls).task)
        × (is_some (after_calls calls).task ≡ should_run calls)
  after_calls_lem [] = (refl, refl)
  after_calls_lem (start_called ∷ calls) =
      start-IsSound enabled (should_run calls) _ _ _ (after_calls_lem calls)
        (never_when_disabled calls)
  after_calls_lem (stop_called ∷ calls) =
      stop-IsSound (should_run calls) _ _ _ (after_calls_lem calls)

module _ (env : Env) (resolver : Resolver) (batch_size : ℕ) (interval : ℕ) where
  -- `_run_cycle`: what `run_once` raises is logged
  abbrev pub run_cycle : World → World
  run_cycle w = (run_once env resolver batch_size w).1

  -- the first passes of `_loop`
  unfoldable pub run_loop : ℕ → World → World
  unfolding run_once
  run_loop zero w = w
  run_loop (suc passes) w =
      let w' = run_cycle w in run_loop passes (record w' { now = w'.now + interval })

  commit_now :
      (replies : List Reply) (s : Session) (w : World) → (commit_reply replies s w).1.now ≡ w.now
  commit_now [] s w = refl
  commit_now (answers ∷ rest) s w = refl
  commit_now (fails e ∷ rest) s w = refl
  commit_now (lost e ∷ rest) s w = refl

  finish_now :
      (n : ℕ) (r : Result Bool) (c : Cycle) (w : World)
      → (finish env resolver n r c w).1.now ≡ w.now
  finish_now n (ok aborted) c w = commit_now c.session.replies c.session w
  finish_now n (raise e) c w = refl

  after_now :
      (p : Result (List BookingRecord) × Session) (w : World)
      → (after_candidates env resolver p w).1.now ≡ w.now
  after_now (raise e, s) w = refl
  after_now (ok rows, s) w =
      finish_now _
        (catch_unavailable env resolver
          (backfill_rows env resolver rows (start_cycle env resolver s)).0)
        _ w

  run_cycle_now : (w : World) → (run_cycle w).now ≡ w.now
  unfolding run_once
  run_cycle_now w = after_now (candidates env resolver batch_size (open_session w)) w

  loop_step :
      (passes : ℕ) (before w : World)
      → IsBackfilled before.committed w.committed
      → ((run_loop passes w).now ≡ w.now + passes * interval)
        × IsBackfilled before.committed (run_loop passes w).committed
  unfolding run_loop
  loop_step zero before w h = (omega arith, h)
  loop_step (suc passes) before w h =
      let w' = run_cycle w in
      let (time, filled) =
        loop_step passes before (record w' { now = w'.now + interval })
          (run_once_keeps env resolver batch_size (IsBackfilled before.committed) w
            (fill_column-IsBackfilled before.committed) h) in
      (ground (arith, time, run_cycle_now w), filled)

  -- The loop goes on after whatever a cycle raises: after any number of passes as many intervals
  -- have passed, and the database differs only by participant columns that were empty.
  pub run_loop_lem :
      (passes : ℕ) (w : World)
      → ((run_loop passes w).now ≡ w.now + passes * interval)
        × IsBackfilled w.committed (run_loop passes w).committed
  run_loop_lem passes w = loop_step passes w w (IsBackfilled-refl w.committed)
