-- ===== src/Ingest/ProjectionExecutor.antt =====
-- event_saver/application/services/projection_executor.py
use event_saver.Prelude.{Bool, Option, none, some, List, [], ◌∷◌, if◌then◌else◌}
use event_saver.Py.Exception.{Result, ok, raise}
use event_saver.Domain.Models.{ParsedEvent}
use event_saver.Db.Tables.{Db}
use event_saver.Db.Session.{Tx, pure, statement, ◌>>=◌, ◌>>◌}
use event_saver.Db.Statement.{Statement, run_statement}
use event_saver.Projections.Handling.{HandleArgs}

-- `IProjectionHandler` (event_saver/interfaces/projection_handler.py)
pub record ProjectionHandler : Type 0 where
  pub can_handle : ParsedEvent → Bool
  pub handle : HandleArgs → Tx (Option Statement)

abbrev pub without_row : Result Db → Result (Unit {0} × Db)
without_row (ok db) = ok (tt, db)
without_row (raise e) = raise e

-- `if result is not None: sql, params = result; await self._sql.execute(sql, params)`
unfoldable pub run_result : Option Statement → Tx (Unit {0})
unfolding pure statement
run_result none = pure tt
run_result (some sql) = statement (λ db. without_row (run_statement sql db))

-- `ProjectionExecutor.execute_projections`. What a handler raises is logged and raised again.
unfoldable pub execute_projections : List ProjectionHandler → HandleArgs → Tx (Unit {0})
unfolding ◌>>=◌ run_result
execute_projections [] a = pure tt
execute_projections (handler ∷ handlers) a =
    let rest = execute_projections handlers a in
    if handler.can_handle a.event
    then (do result ← handler.handle a; run_result result; rest)
    else rest
