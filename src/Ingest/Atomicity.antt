-- ===== src/Ingest/Atomicity.antt =====
-- `save_event` is atomic: it commits what an undisturbed run writes, or nothing.
use event_saver.Prelude.{
  ℕ, ◌≡◌, refl, sym, ap, ◌∙◌, ◌⊎◌, inl, inr, Option, none, some, List, [], ◌∷◌,
}
use event_saver.Py.Exception.{Exception, Result, ok, raise}
use event_saver.Env.{Env}
use event_saver.Domain.Models.{EventAttributes}
use event_saver.Db.Tables.{Db}
use event_saver.Db.Session.{Reply, answers, fails, lost, Session}
use event_saver.Db.Replays.{Replays, Replays-statement, replays_logic}
use event_saver.Ingest.Repositories.{
  find_by_booking_uid, execute_sql, update_client, save_organizer_history,
}
use event_saver.Db.Statement.{Statement}
use event_saver.Ingest.ProjectionExecutor.{ProjectionHandler, run_result}
use event_saver.Ingest.UseCase.{execute}
use event_saver.Ingest.EventStore.{World, open_session, commit_reply, close_session, save_event}
use event_saver.Ingest.Walk.{IsForStatements, IsForHandlers, execute-holds}
use event_saver.Ingest.Duplicates.{quiet}

module _ (env : Env) where
  run_result-Replays : (o : Option Statement) → Replays (run_result o)
  unfolding run_result
  run_result-Replays none = replays_logic.holds_pure _ tt
  run_result-Replays (some sql) = Replays-statement _

  pub replays-IsForStatements : IsForStatements env replays_logic
  unfolding find_by_booking_uid execute_sql update_client save_organizer_history
  replays-IsForStatements = record {
    for_insert_event = λ e. Replays-statement _;
    for_upsert_booking = λ d t o c. Replays-statement _;
    for_select_booking = λ uid. Replays-statement _;
    for_update_client = λ ref client. Replays-statement _;
    for_backfill = λ k email u. Replays-statement _;
    for_organizer_history = λ ref u e t. Replays-statement _;
    for_projection = run_result-Replays;
  }

-- A call that began at `before` raised, and committed nothing.
abbrev pub IsRolledBack : Result (Unit {0}) → Db → Db → Type 0
IsRolledBack result before after = (e : Exception) × (result ≡ raise e) × (after ≡ before)

module _ (env : Env) (handlers : List ProjectionHandler) where
  -- The database that an undisturbed run of the use case leaves, and whether it returns.
  abbrev pub effect : ℕ → EventAttributes → Db → Db
  effect now a db = (execute env handlers now a (quiet db)).1.db

  abbrev pub Succeeds : ℕ → EventAttributes → Db → Type 0
  Succeeds now a db = (execute env handlers now a (quiet db)).0 ≡ ok tt

  -- It committed what an undisturbed run writes.
  abbrev pub IsCommitted : ℕ → EventAttributes → Db → Db → Type 0
  IsCommitted now a before after = Succeeds now a before × (after ≡ effect now a before)

  commit_outcome :
      (a : EventAttributes) (w : World) (s : Session) (replies : List Reply)
      → Succeeds w.now a w.committed
      → effect w.now a w.committed ≡ s.db
      → IsRolledBack (commit_reply replies s w).0 w.committed (commit_reply replies s w).1.committed
        ⊎ IsCommitted w.now a w.committed (commit_reply replies s w).1.committed
  commit_outcome a w s [] ran same = inr (ran, sym same)
  commit_outcome a w s (answers ∷ rest) ran same = inr (ran, sym same)
  commit_outcome a w s (fails e ∷ rest) ran same = inl (e, refl, refl)
  commit_outcome a w s (lost e ∷ rest) ran same = inr (ran, sym same)

  module _ (for_handlers : IsForHandlers replays_logic handlers) where
    close_outcome :
        (a : EventAttributes) (w : World) (r : Result (Unit {0})) (s : Session)
        → execute env handlers w.now a (open_session w) ≡ (r, s)
        → IsRolledBack (close_session r s w).0 w.committed (close_session r s w).1.committed
          ⊎ IsCommitted w.now a w.committed (close_session r s w).1.committed
    close_outcome a w (raise e) s ran = inl (e, refl, refl)
    close_outcome a w (ok u) s ran =
        let (returns, same, _) =
          (execute-holds (replays-IsForStatements env) handlers for_handlers w.now a).at
            (open_session w) (quiet w.committed) refl refl tt
            (ap (λ (p : Result (Unit {0}) × Session). p.0) ran) in
        commit_outcome a w s s.replies returns
          (same ∙ ap (λ (p : Result (Unit {0}) × Session). p.1.db) ran)

    -- For handlers that give, if they return, what they give when no statement fails: however the
    -- database answers, `save_event` raises and has committed nothing, or it has committed exactly
    -- what a run without failures writes, and that run returns.
    pub save_event_atomic :
        (a : EventAttributes) (w : World)
        → let (r, w') = save_event env handlers a w in
          IsRolledBack r w.committed w'.committed ⊎ IsCommitted w.now a w.committed w'.committed
    unfolding save_event
    save_event_atomic a w =
        let run = execute env handlers w.now a (open_session w) in
        close_outcome a w run.0 run.1 refl
