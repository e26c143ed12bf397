-- ===== src/Backfill/Counts.antt =====
-- What each counter in the summary of a cycle counts.
use event_saver.Prelude.{
  ℕ, zero, suc, ◌≤◌, ◌≡◌, ◌⊎◌, inl, inr, refl, ap, Bool, true, false, List, [], ◌∷◌, take, length,
  arith,
}
use event_saver.Py.Exception.{Result, ok, raise, users_service_unavailable}
use event_saver.Env.{Env}
use event_saver.Db.Rows.{BookingRecord}
use event_saver.Db.Tables.{Db}
use event_saver.Db.Session.{Session}
use event_saver.Ingest.EventStore.{World, open_session}
use event_saver.Backfill.Queries.{select_candidates}
use event_saver.Backfill.Cycle.{
  Cycle, BackfillSummary, start_cycle, catch_unavailable, finish, run_once, summary_of, summarized,
}
use event_saver.Backfill.Preserves.{IsRead, statement-IsRead}
use event_saver.Backfill.Direct.{Answers, steady, after_direct}
use event_saver.Backfill.Direct.Simulation.{run_once-direct_once}
use event_saver.Backfill.Outcomes.{
  Outcome, resolved, unresolved, missing_email, counted, counter, outcomes, Counted, rows-Counted,
}

-- The summary of a cycle over `rows`: a counter is the number of columns with that outcome, or at
-- most that number if the cycle was aborted.
abbrev pub Counts :
    Env → Answers → Db → List BookingRecord → Outcome → Result BackfillSummary → Type 0
Counts env answer db rows o (raise e) = Unit
Counts env answer db rows o (ok s) =
    (s.scanned_bookings ≡ length rows)
    × (counted o s ≤ outcomes env answer o db rows)
    × ((s.aborted ≡ true) ⊎ (counted o s ≡ outcomes env answer o db rows))

length-take : {A : Type 0} (n : ℕ) (xs : List A) → length (take n xs) ≤ n
length-take zero xs = omega arith
length-take (suc n) [] = omega arith
length-take (suc n) (x ∷ xs) = omega (arith, length-take n xs)

module _ (env : Env) (answer : Answers) (o : Outcome) where
  counted-summary_of :
      (n : ℕ) (aborted : Bool) (c : Cycle)
      → counted o (summary_of env (steady answer) n aborted c) ≡ counter o c
  counted-summary_of n aborted c = by_outcome o
    where
      by_outcome :
          (p : Outcome) → counted p (summary_of env (steady answer) n aborted c) ≡ counter p c
      by_outcome resolved = refl
      by_outcome unresolved = refl
      by_outcome missing_email = refl

  counter_at_start : (s : Session) → counter o (start_cycle env (steady answer) s) ≡ 0
  counter_at_start s = by_outcome o
    where
      by_outcome : (p : Outcome) → counter p (start_cycle env (steady answer) s) ≡ 0
      by_outcome resolved = refl
      by_outcome unresolved = refl
      by_outcome missing_email = refl

  summarized-Counts :
      (db : Db) (rows : List BookingRecord) (aborted : Bool) (c : Cycle) (r : Result (Unit {0}))
      → counter o c ≤ outcomes env answer o db rows
      → (aborted ≡ true) ⊎ (counter o c ≡ outcomes env answer o db rows)
      → Counts env answer db rows o (
          summarized env (steady answer) r (summary_of env (steady answer) (length rows) aborted c))
  summarized-Counts db rows aborted c (ok _) most all = (
    refl,
    rw (counted-summary_of (length rows) aborted c) most,
    rw (counted-summary_of (length rows) aborted c) all,
  )
  summarized-Counts db rows aborted c (raise e) most all = tt

  finish-Counts :
      (db : Db) (rows : List BookingRecord) (r : Result (Unit {0})) (c : Cycle) (w : World)
      → Counted env answer db o (outcomes env answer o db rows) 0 (r, c)
      → Counts env answer db rows o
          (finish env (steady answer) (length rows) (catch_unavailable env (steady answer) r) c w).0
  finish-Counts db rows (ok _) c w (h, same) =
      summarized-Counts db rows false c _ (omega (arith, h)) (inr (omega (arith, h)))
  finish-Counts db rows (raise users_service_unavailable) c w h =
      summarized-Counts db rows true c _ (omega (arith, h)) (inl refl)
  finish-Counts db rows (raise e) c w h = tt

  after-Counts :
      (rows : List BookingRecord) (db : Db) (p : Result (List BookingRecord) × Session) (w : World)
      → IsRead rows db p
      → Counts env answer db rows o (after_direct env answer p w).0
  after-Counts rows db (raise e, s) w h = tt
  after-Counts rows db (ok read, s) w (same, unchanged) =
      let start = start_cycle env (steady answer) s in
      rw same (
        finish-Counts db rows _ _ w (
          rw (counter_at_start s) at
            (rows-Counted env answer db o rows start (ap (λ (d : Db). d.events) unchanged))))

  -- The summary of a cycle, if it gives one, with a users service that does not change during it:
  -- as many bookings are scanned as the database has candidates, at most the batch size. Each of the
  -- three counters is the number of their empty columns with that outcome: no latest e-mail in the
  -- events (`missing_email`), a latest e-mail for which the service answers with a user (`resolved`),
  -- one for which it answers with none (`unresolved`); if the cycle was aborted, it is at most that.
  pub run_once-Counts :
      (batch_size : ℕ) (w : World)
      → let rows = select_candidates batch_size w.committed in
        (length rows ≤ batch_size)
        × Counts env answer w.committed rows o (run_once env (steady answer) batch_size w).0
  unfolding select_candidates
  run_once-Counts batch_size w = (
    length-take batch_size _,
    rw (run_once-direct_once env answer batch_size w) (
        after-Counts (select_candidates batch_size w.committed) w.committed _ w
          (statement-IsRead (select_candidates batch_size) (open_session w))),
  )
