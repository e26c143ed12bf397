-- ===== src/Backfill/Walk.antt =====
-- What a cycle of the backfill keeps at each of its steps, and what holds when it raises.
use event_saver.Prelude.{ℕ, Option, none, some, List, [], ◌∷◌, String, is_some, if-either}
use event_saver.Py.Exception.{Exception, Result, ok, raise}
use event_saver.Env.{Env}
use event_saver.Db.Rows.{BookingRecord}
use event_saver.Db.Session.{statement}
use event_saver.Db.Bookings.{RoleColumn, organizer_column, client_column, column_of}
use event_saver.Ingest.Repositories.{text_of_role, execute_sql}
use event_saver.Backfill.Queries.{latest_email, fill_column}
use event_saver.Backfill.Cycle.{
  Cycle, Cy, Key, Resolver, return, in_session, proceed, ◌>>=◌, resolve_cached, fill_slot,
  with_email, backfill_slot, backfill_empty, backfill_row, backfill_rows, count_resolved,
  count_unresolved, count_missing_email,
}

module _ (P : Cycle → Type 0) (E : Exception → Cycle → Type 0) where
  abbrev pub Ends : {A : Type 0} → Result A × Cycle → Type 0
  Ends (ok a, c) = P c
  Ends (raise e, c) = E e c

  -- from a state with `P`, `m` returns in one with `P`, or raises in one with `E`
  pub record Ensures {A : Type 0} (m : Cy A) : Type 0 where
    pub at : (c : Cycle) → P c → Ends (m c)

  proceed-Ends :
      {A B : Type 0} (p : Result A × Cycle) (f : A → Cy B)
      → Ends p
      → ((a : A) → Ensures (f a))
      → Ends (proceed p.0 f p.1)
  proceed-Ends (ok a, c) f h next = (next a).at c h
  proceed-Ends (raise e, c) f h next = h

  Ensures-bind :
      {A B : Type 0} (m : Cy A) (f : A → Cy B)
      → Ensures m
      → ((a : A) → Ensures (f a))
      → Ensures (m >>= f)
  unfolding ◌>>=◌
  Ensures-bind m f first next = record { at = λ c h. proceed-Ends (m c) f (first.at c h) next }

-- What is to be known of the single steps.
pub record Steps (env : Env) (resolver : Resolver) (P : Cycle → Type 0)
    (E : Exception → Cycle → Type 0) : Type 0 where
  pub reads :
      (row : BookingRecord) (k : RoleColumn)
      → Ensures P E (
          in_session
            (statement (λ db. ok (latest_email env row.booking_uid (text_of_role k) db, db))))
  pub fills :
      (row : BookingRecord) (k : RoleColumn) (u : ℕ)
      → Ensures P E (in_session (execute_sql (fill_column k row.id u)))
  pub resolves : (key : Key) → Ensures P E (resolve_cached env resolver key)
  pub counts_resolved : Ensures P E count_resolved
  pub counts_unresolved : Ensures P E count_unresolved
  pub counts_missing_email : Ensures P E count_missing_email

module _ (env : Env) (resolver : Resolver) (P : Cycle → Type 0) (E : Exception → Cycle → Type 0)
    (step : Steps env resolver P E) where
  fill_slot-Ensures :
      (row : BookingRecord) (k : RoleColumn) (o : Option ℕ)
      → Ensures P E (fill_slot env resolver row k o)
  fill_slot-Ensures row k none = step.counts_unresolved
  fill_slot-Ensures row k (some u) =
      Ensures-bind P E _ _ (step.fills row k u) (λ _. step.counts_resolved)

  with_email-Ensures :
      (row : BookingRecord) (k : RoleColumn) (email : Option String)
      → Ensures P E (with_email env resolver row k email)
  with_email-Ensures row k none = step.counts_missing_email
  with_email-Ensures row k (some email) =
      Ensures-bind P E _ _ (step.resolves (email, text_of_role k)) (fill_slot-Ensures row k)

  backfill_slot-Ensures :
      (row : BookingRecord) (k : RoleColumn) → Ensures P E (backfill_slot env resolver row k)
  unfolding backfill_slot
  backfill_slot-Ensures row k = Ensures-bind P E _ _ (step.reads row k) (with_email-Ensures row k)

  backfill_empty-Ensures :
      (row : BookingRecord) (k : RoleColumn) → Ensures P E (backfill_empty env resolver row k)
  unfolding return
  backfill_empty-Ensures row k =
      if-either (Ensures P E) (is_some (column_of k row)) (λ _. record { at = λ c h. h })
        (λ _. backfill_slot-Ensures row k)

  pub backfill_rows-Ensures :
      (rows : List BookingRecord) → Ensures P E (backfill_rows env resolver rows)
  unfolding backfill_rows backfill_row return
  backfill_rows-Ensures [] = record { at = λ c h. h }
  backfill_rows-Ensures (row ∷ rows) =
      Ensures-bind P E _ _
        (Ensures-bind P E _ _ (backfill_empty-Ensures row organizer_column)
          (λ _. backfill_empty-Ensures row client_column))
        (λ _. backfill_rows-Ensures rows)
