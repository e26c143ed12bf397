-- ===== src/Backfill/Served.antt =====
-- A cycle of the backfill while the database answers.
use event_saver.Prelude.{ℕ, ◌≡◌, refl, Option, none, some, List, [], length}
use event_saver.Py.Exception.{Exception, Result, ok, raise, users_service_unavailable}
use event_saver.Env.{Env}
use event_saver.Db.Rows.{BookingRecord}
use event_saver.Db.Tables.{Db}
use event_saver.Db.Session.{Session, statement}
use event_saver.Ingest.Repositories.{execute_sql}
use event_saver.Ingest.EventStore.{World, open_session}
use event_saver.Backfill.Cycle.{
  Cycle, Key, Resolver, BackfillSummary, in_session, answered, cached_or_asked, resolve_cached,
  lookup, start_cycle, catch_unavailable, finish, after_candidates, candidates, run_once,
}
use event_saver.Backfill.Queries.{select_candidates}
use event_saver.Backfill.Walk.{Ends, Steps, backfill_rows-Ensures}

-- The resolver raises nothing but `UsersServiceUnavailableError`.
abbrev pub OnlyUnavailable : Resolver → Type 0
OnlyUnavailable resolver =
    (asked : List Key) (key : Key) (e : Exception)
    → resolver asked key ≡ raise e
    → e ≡ users_service_unavailable

abbrev Quiet : Cycle → Type 0
Quiet c = c.session.replies ≡ []

abbrev Unavailable : Exception → Cycle → Type 0
Unavailable e c = (e ≡ users_service_unavailable) × Quiet c

statement-Quiet :
    {A : Type 0} (f : Db → A × Db) (c : Cycle)
    → Quiet c
    → Ends Quiet Unavailable (in_session (statement (λ db. ok (f db))) c)
unfolding in_session statement
statement-Quiet f c h = rw h refl

module _ (env : Env) (resolver : Resolver) (only : OnlyUnavailable resolver) where
  answered-Quiet :
      (key : Key) (r : Result (Option ℕ)) (c : Cycle)
      → ((e : Exception) → r ≡ raise e → e ≡ users_service_unavailable)
      → Quiet c
      → Ends Quiet Unavailable (answered env resolver key r c)
  answered-Quiet key (ok v) c raised h = h
  answered-Quiet key (raise e) c raised h = (raised e refl, h)

  asked-Quiet :
      (key : Key) (o : Option (Option ℕ)) (c : Cycle)
      → Quiet c
      → Ends Quiet Unavailable (cached_or_asked env resolver key o c)
  asked-Quiet key (some v) c h = h
  asked-Quiet key none c h = answered-Quiet key (resolver c.asked key) c (only c.asked key) h

  steps-Quiet : Steps env resolver Quiet Unavailable
  unfolding resolve_cached execute_sql
  steps-Quiet = record {
    reads = λ row k. record { at = statement-Quiet _ };
    fills = λ row k u. record { at = statement-Quiet _ };
    resolves = λ key. record { at = λ c h. asked-Quiet key (lookup key c.cache) c h };
    counts_resolved = record { at = λ c h. h };
    counts_unresolved = record { at = λ c h. h };
    counts_missing_email = record { at = λ c h. h };
  }

  caught :
      (rows : List BookingRecord) (r : Result (Unit {0})) (c : Cycle) (w : World)
      → Ends Quiet Unavailable (r, c)
      → (s : BackfillSummary) × (finish env resolver
            (length rows)
            (catch_unavailable env resolver r)
            c
            w).0
          ≡ ok s
  caught rows (ok _) c w h = rw h (_, refl)
  caught rows (raise e) c w (e_is, h) = rw (e_is, h) (_, refl)

  returned :
      (p : Result (List BookingRecord) × Session) (rows : List BookingRecord) (w : World)
      → p.0 ≡ ok rows
      → p.1.replies ≡ []
      → (s : BackfillSummary) × (after_candidates env resolver p w).0 ≡ ok s
  returned (ok read, s) rows w e quiet = caught read _ _ w (
      (backfill_rows-Ensures env resolver Quiet Unavailable steps-Quiet read).at
        (start_cycle env resolver s) quiet)
  returned (raise x, s) rows w e quiet = cc

  -- A cycle whose statements the database answers, with a resolver that raises nothing but
  -- `UsersServiceUnavailableError`, returns a summary.
  pub run_once_returns :
      (batch_size : ℕ) (w : World)
      → w.replies ≡ []
      → (s : BackfillSummary) × (run_once env resolver batch_size w).0 ≡ ok s
  unfolding run_once
  run_once_returns batch_size w quiet =
      returned (candidates env resolver batch_size (open_session w))
        (select_candidates batch_size w.committed) w (rw quiet refl) (rw quiet refl)
