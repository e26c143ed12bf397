-- ===== src/Ingest/EventStore.antt =====
-- `CleanArchitectureEventStore.save_event` of
-- event_saver/infrastructure/persistence/event_store_facade.py. Sessions run one after another:
-- transactions of concurrent handlers are not interleaved.
use event_saver.Prelude.{ℕ, List, [], ◌∷◌}
use event_saver.Py.Exception.{Result, ok, raise}
use event_saver.Env.{Env}
use event_saver.Domain.Models.{EventAttributes}
use event_saver.Db.Tables.{Db}
use event_saver.Db.Session.{Reply, answers, fails, lost, Metric, Session}
use event_saver.Ingest.ProjectionExecutor.{ProjectionHandler}
use event_saver.Ingest.UseCase.{execute}

-- What outlives a session: the committed database, the answers still to come, the counters and
-- the clock.
pub record World : Type 0 where
  pub committed : Db
  pub replies : List Reply
  pub metrics : List Metric
  pub now : ℕ

abbrev pub open_session : World → Session
open_session w = record { db = w.committed; replies = w.replies; metrics = w.metrics }

-- Leaving the `async with` block without a commit rolls the transaction back.
abbrev pub roll_back : Session → World → World
roll_back s w = record w { replies = s.replies; metrics = s.metrics }

-- `await session.commit()`
abbrev pub commit_reply : List Reply → Session → World → Result (Unit {0}) × World
commit_reply [] s w = (ok tt, record (roll_back s w) { committed = s.db })
commit_reply (answers ∷ rest) s w =
    (ok tt, record (roll_back s w) { committed = s.db; replies = rest })
commit_reply (fails e ∷ rest) s w = (raise e, record (roll_back s w) { replies = rest })
commit_reply (lost e ∷ rest) s w =
    (raise e, record (roll_back s w) { committed = s.db; replies = rest })

abbrev pub close_session : Result (Unit {0}) → Session → World → Result (Unit {0}) × World
close_session (ok _) s w = commit_reply s.replies s w
close_session (raise e) s w = (raise e, roll_back s w)

module _ (env : Env) (handlers : List ProjectionHandler) where
  unfoldable pub save_event : EventAttributes → World → Result (Unit {0}) × World
  save_event a w = let (r, s) = execute env handlers w.now a (open_session w) in close_session r s w
