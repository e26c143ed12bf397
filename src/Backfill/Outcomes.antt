-- ===== src/Backfill/Outcomes.antt =====
-- What becomes of the empty participant columns in a cycle that asks for every one.
use event_saver.Prelude.{
  ℕ, ◌+◌, ◌≤◌, ◌≡◌, refl, ap, ◌∙◌, String, Bool, true, false, Option, none, some, List, [], ◌∷◌,
  arith, is_some, if◌then◌else◌,
}
use event_saver.Py.Exception.{Result, ok, raise}
use event_saver.Env.{Env}
use event_saver.Db.Rows.{BookingRecord}
use event_saver.Db.Tables.{Db}
use event_saver.Db.Session.{Reply, answers, fails, lost, reply_to, Session, statement}
use event_saver.Db.Bookings.{RoleColumn, organizer_column, client_column, column_of}
use event_saver.Ingest.Repositories.{text_of_role, execute_sql}
use event_saver.Backfill.Queries.{latest_email, fill_column}
use event_saver.Backfill.Cycle.{
  Cycle, Cy, BackfillSummary, return, in_session, proceed, ◌>>=◌, fill_slot,
}
use event_saver.Backfill.Preserves.{IsRead, statement-IsRead}
use event_saver.Backfill.Direct.{
  Answers, steady, direct_with_email, latest, direct_slot, direct_empty, direct_rows,
}

-- What comes of an empty participant column.
pub data Outcome : Type 0 where
  resolved unresolved missing_email : Outcome

-- What the users service's answer makes of it: nothing is counted where the service fails.
abbrev pub outcome_of : Result (Option ℕ) → Option Outcome
outcome_of (ok (some u)) = some resolved
outcome_of (ok none) = some unresolved
outcome_of (raise e) = none

abbrev pub one : Outcome → Option Outcome → ℕ
one resolved (some resolved) = 1
one unresolved (some unresolved) = 1
one missing_email (some missing_email) = 1
one _ _ = 0

one-none : (o : Outcome) → one o none ≡ 0
one-none resolved = refl
one-none unresolved = refl
one-none missing_email = refl

-- the counter of the summary, and of the running cycle
abbrev pub counted : Outcome → BackfillSummary → ℕ
counted resolved s = s.resolved
counted unresolved s = s.unresolved
counted missing_email s = s.missing_email

abbrev pub counter : Outcome → Cycle → ℕ
counter resolved c = c.resolved
counter unresolved c = c.unresolved
counter missing_email c = c.missing_email

counter-session :
    (o : Outcome) (s : Session) (c : Cycle) → counter o (record c { session = s }) ≡ counter o c
counter-session resolved s c = refl
counter-session unresolved s c = refl
counter-session missing_email s c = refl

-- `one` more of an outcome is counted
abbrev counting : Outcome → Cycle → Cycle
counting resolved c = record c { resolved = c.resolved + 1 }
counting unresolved c = record c { unresolved = c.unresolved + 1 }
counting missing_email c = record c { missing_email = c.missing_email + 1 }

abbrev did : Cycle → Result (Unit {0}) × Cycle
did c = (ok tt, c)

abbrev filling : RoleColumn → ℕ → ℕ → Db → Result (Unit {0} × Db)
filling k id u db = ok (tt, fill_column k id u db)

counter-counting :
    (o p : Outcome) (c : Cycle) → counter o (counting p c) ≡ counter o c + one o (some p)
counter-counting resolved resolved c = refl
counter-counting resolved unresolved c = omega arith
counter-counting resolved missing_email c = omega arith
counter-counting unresolved resolved c = omega arith
counter-counting unresolved unresolved c = refl
counter-counting unresolved missing_email c = omega arith
counter-counting missing_email resolved c = omega arith
counter-counting missing_email unresolved c = omega arith
counter-counting missing_email missing_email c = refl

module _ (env : Env) (answer : Answers) where
  abbrev outcome_of_email : RoleColumn → Option String → Option Outcome
  outcome_of_email k none = some missing_email
  outcome_of_email k (some email) = outcome_of (answer (email, text_of_role k))

  -- What comes of a column: nothing of one that is filled; else by the latest e-mail in the events.
  abbrev pub column_outcome : Db → BookingRecord → RoleColumn → Option Outcome
  column_outcome db row k =
      if is_some (column_of k row)
      then none
      else outcome_of_email k (latest_email env row.booking_uid (text_of_role k) db)

  -- How many columns of the bookings have the outcome.
  abbrev pub outcomes : Outcome → Db → List BookingRecord → ℕ
  outcomes o db [] = 0
  outcomes o db (row ∷ rows) =
      (one o (column_outcome db row organizer_column) + one o (column_outcome db row client_column))
      + outcomes o db rows

  module _ (db : Db) (o : Outcome) where
    -- `n` columns have been counted since `t`, or fewer if something was raised; the events are
    -- those of `db`
    abbrev pub Counted : {A : Type 0} → ℕ → ℕ → Result A × Cycle → Type 0
    Counted n t (ok _, c) = (counter o c ≡ t + n) × (c.session.db.events ≡ db.events)
    Counted n t (raise _, c) = counter o c ≤ t + n

    Counted-add :
        {B : Type 0} (n k t u : ℕ) (p : Result B × Cycle)
        → u ≡ t + n
        → Counted k u p
        → Counted (n + k) t p
    Counted-add n k t u (ok b, c) e (h, same) = (omega (arith, h, e), same)
    Counted-add n k t u (raise x, c) e h = omega (arith, h, e)

    Counted-zero :
        {B : Type 0} (k t : ℕ) (p : Result B × Cycle) → Counted (0 + k) t p → Counted k t p
    Counted-zero k t (ok b, c) (h, same) = (omega (arith, h), same)
    Counted-zero k t (raise x, c) h = omega (arith, h)

    proceed-Counted :
        {A B : Type 0} (n k t : ℕ) (p : Result A × Cycle) (f : A → Cy B)
        → Counted n t p
        → ((a : A) (c : Cycle) → c.session.db.events ≡ db.events → Counted k (counter o c) (f a c))
        → Counted (n + k) t (proceed p.0 f p.1)
    proceed-Counted n k t (ok a, c) f (h, same) next =
        Counted-add n k t (counter o c) (f a c) h (next a c same)
    proceed-Counted n k t (raise e, c) f h next = omega (arith, h)

    counting-Counted :
        (p : Outcome) (c : Cycle)
        → c.session.db.events ≡ db.events
        → Counted (one o (some p)) (counter o c) (did (counting p c))
    counting-Counted resolved c same = (counter-counting o resolved c, same)
    counting-Counted unresolved c same = (counter-counting o unresolved c, same)
    counting-Counted missing_email c same = (counter-counting o missing_email c, same)

    -- a fill counts nothing yet and leaves the events alone
    fill-Counted :
        (row : BookingRecord) (k : RoleColumn) (u : ℕ) (c : Cycle) (replies : List Reply)
        → c.session.db.events ≡ db.events
        → let p = reply_to replies (filling k row.id u) c.session in
          Counted 0 (counter o c) (p.0, record c { session = p.1 })
    unfolding fill_column
    fill-Counted row k u c [] same = (omega (arith, counter-session o _ c), same)
    fill-Counted row k u c (answers ∷ rest) same = (omega (arith, counter-session o _ c), same)
    fill-Counted row k u c (fails e ∷ rest) same = omega (arith, counter-session o _ c)
    fill-Counted row k u c (lost e ∷ rest) same = omega (arith, counter-session o _ c)

    fill_slot-Counted :
        (row : BookingRecord) (k : RoleColumn) (v : Option ℕ) (c : Cycle)
        → c.session.db.events ≡ db.events
        → Counted
            (one o (outcome_of (ok v)))
            (counter o c)
            (fill_slot env (steady answer) row k v c)
    unfolding ◌>>=◌ in_session execute_sql statement
    fill_slot-Counted row k none c same = counting-Counted unresolved c same
    fill_slot-Counted row k (some u) c same =
        let p = reply_to c.session.replies (filling k row.id u) c.session in
        Counted-zero (one o (some resolved)) (counter o c) _ (
          proceed-Counted 0 (one o (some resolved)) (counter o c) (p.0, record c { session = p.1 })
            (λ _ c'. did (counting resolved c')) (fill-Counted row k u c c.session.replies same)
            (λ _ c' same'. counting-Counted resolved c' same'))

    asked-Counted :
        (row : BookingRecord) (k : RoleColumn) (r : Result (Option ℕ)) (c : Cycle)
        → c.session.db.events ≡ db.events
        → Counted
            (one o (outcome_of r))
            (counter o c)
            (proceed r (fill_slot env (steady answer) row k) c)
    asked-Counted row k (ok v) c same = fill_slot-Counted row k v c same
    asked-Counted row k (raise e) c same = omega arith

    with_email-Counted :
        (row : BookingRecord) (k : RoleColumn) (email : Option String) (c : Cycle)
        → c.session.db.events ≡ db.events
        → Counted
            (one o (outcome_of_email k email))
            (counter o c)
            (direct_with_email env answer row k email c)
    unfolding ◌>>=◌
    with_email-Counted row k none c same = counting-Counted missing_email c same
    with_email-Counted row k (some email) c same =
        asked-Counted row k (answer (email, text_of_role k)) c same

    abbrev email_of : BookingRecord → RoleColumn → Option String
    email_of row k = latest_email env row.booking_uid (text_of_role k) db

    read-Counted :
        (row : BookingRecord) (k : RoleColumn) (c : Cycle) (p : Result (Option String) × Session)
        → c.session.db.events ≡ db.events
        → IsRead (latest_email env row.booking_uid (text_of_role k) c.session.db) c.session.db p
        → Counted
            (one o (outcome_of_email k (email_of row k)))
            (counter o c)
            (proceed p.0 (direct_with_email env answer row k) (record c { session = p.1 }))
    unfolding latest_email
    read-Counted row k c (raise e, s) same read = omega (arith, counter-session o s c)
    read-Counted row k c (ok email, s) same (found, unchanged) =
        let c' = record c { session = s } in
        let events : s.db.events ≡ db.events = ap (λ (d : Db). d.events) unchanged ∙ same in
        let by_events : email ≡ email_of row k = found ∙ rw same refl in
        Counted-zero (one o (outcome_of_email k (email_of row k))) (counter o c) _ (
          Counted-add 0 (one o (outcome_of_email k (email_of row k))) (counter o c) (counter o c')
            (direct_with_email env answer row k email c') (omega (arith, counter-session o s c))
            (rw by_events (with_email-Counted row k (email_of row k) c' events)))

    column-Counted :
        (row : BookingRecord) (k : RoleColumn) (c : Cycle)
        → c.session.db.events ≡ db.events
        → Counted (one o (column_outcome db row k)) (counter o c) (direct_empty env answer row k c)
    unfolding return ◌>>=◌ in_session
    column-Counted row k c same = by_column (is_some (column_of k row))
      where
        by_column :
            (b : Bool)
            → Counted
                (one o (if b then none else outcome_of_email k (email_of row k)))
                (counter o c)
                ((if b then return tt else direct_slot env answer row k) c)
        by_column true = (omega (arith, one-none o), same)
        by_column false =
            read-Counted row k c (latest env answer row k c.session) same (
              statement-IsRead (λ d. latest_email env row.booking_uid (text_of_role k) d) c.session)

    pub rows-Counted :
        (rows : List BookingRecord) (c : Cycle)
        → c.session.db.events ≡ db.events
        → Counted (outcomes o db rows) (counter o c) (direct_rows env answer rows c)
    unfolding direct_rows return ◌>>=◌
    rows-Counted [] c same = (omega arith, same)
    rows-Counted (row ∷ rows) c same =
        let first = one o (column_outcome db row organizer_column) in
        let second = one o (column_outcome db row client_column) in
        proceed-Counted (first + second) (outcomes o db rows) (counter o c) _
          (λ _. direct_rows env answer rows)
          (proceed-Counted first second (counter o c) _
            (λ _. direct_empty env answer row client_column)
            (column-Counted row organizer_column c same) (λ _. column-Counted row client_column))
          (λ _. rows-Counted rows)
