-- ===== src/Backfill/Starved.antt =====
-- A batch of bookings without an e-mail.
use event_saver.Prelude.{
  ℕ, ◌≡◌, ◌⊎◌, inl, inr, refl, ap, ◌∙◌, String, Bool, true, false, Option, none, List, [], ◌∷◌,
  length, is_some, if◌then◌else◌,
}
use event_saver.Py.Exception.{Result, ok, raise}
use event_saver.Env.{Env}
use event_saver.Db.Rows.{BookingRecord}
use event_saver.Db.Tables.{Db}
use event_saver.Db.Session.{Session, statement}
use event_saver.Db.Bookings.{RoleColumn, organizer_column, client_column, column_of}
use event_saver.Ingest.Repositories.{text_of_role}
use event_saver.Ingest.EventStore.{World, open_session}
use event_saver.Ingest.Consistency.{close_keeps}
use event_saver.Backfill.Queries.{select_candidates, latest_email}
use event_saver.Backfill.Cycle.{
  Cycle, Cy, Resolver, return, in_session, proceed, ◌>>=◌, with_email, backfill_slot,
  backfill_empty, backfill_row, backfill_rows, start_cycle, catch_unavailable, finish,
  after_candidates, candidates, run_once,
}
use event_saver.Backfill.Preserves.{IsRead, statement-IsRead}

IsRead-at :
    {A : Type 0} {a b : A} {d d' : Db} (p : Result A × Session)
    → a ≡ b
    → d ≡ d'
    → IsRead a d p
    → IsRead b d' p
IsRead-at (ok x, s) e e' (same, same') = (same ∙ e, same' ∙ e')
IsRead-at (raise x, s) e e' same' = same' ∙ e'

module _ (env : Env) (db : Db) where
  -- The column is set, or no event names an e-mail for it.
  abbrev pub HasNoEmail : BookingRecord → RoleColumn → Type 0
  HasNoEmail row k =
      (is_some (column_of k row) ≡ true)
      ⊎ (latest_email env row.booking_uid (text_of_role k) db ≡ none)

  abbrev pub HaveNoEmail : List BookingRecord → Type 0
  HaveNoEmail [] = Unit
  HaveNoEmail (row ∷ rows) =
      HasNoEmail row organizer_column × HasNoEmail row client_column × HaveNoEmail rows

  -- whatever the outcome, the session's database is `db`
  abbrev Idle : {A : Type 0} → Cy A → Type 0
  Idle m = (c : Cycle) → c.session.db ≡ db → (m c).1.session.db ≡ db

  proceed-Idle :
      {A B : Type 0} (p : Result A × Cycle) (f : A → Cy B)
      → p.1.session.db ≡ db
      → ((a : A) → Idle (f a))
      → (proceed p.0 f p.1).1.session.db ≡ db
  proceed-Idle (ok a, c) f h next = next a c h
  proceed-Idle (raise e, c) f h next = h

  Idle-bind :
      {A B : Type 0} (m : Cy A) (f : A → Cy B) → Idle m → ((a : A) → Idle (f a)) → Idle (m >>= f)
  unfolding ◌>>=◌
  Idle-bind m f first next c h = proceed-Idle (m c) f (first c h) next

  module _ (resolver : Resolver) where
    read_none :
        (row : BookingRecord) (k : RoleColumn) (p : Result (Option String) × Session) (c : Cycle)
        → IsRead none db p
        → (proceed p.0 (with_email env resolver row k) (record c { session = p.1 })).1.session.db
          ≡ db
    read_none row k (ok email, s) c (is_none, same) = rw (is_none, same) refl
    read_none row k (raise e, s) c same = same

    slot-Idle :
        (row : BookingRecord) (k : RoleColumn)
        → latest_email env row.booking_uid (text_of_role k) db ≡ none
        → Idle (backfill_slot env resolver row k)
    unfolding backfill_slot ◌>>=◌ in_session
    slot-Idle row k no_email c h =
        let f = λ (d : Db). latest_email env row.booking_uid (text_of_role k) d in
        read_none row k (statement (λ d. ok (f d, d)) c.session) c
          (IsRead-at _ (ap f h ∙ no_email) h (statement-IsRead f c.session))

    empty-Idle :
        (row : BookingRecord) (k : RoleColumn)
        → HasNoEmail row k
        → Idle (backfill_empty env resolver row k)
    unfolding return
    empty-Idle row k no_email = by_column (is_some (column_of k row)) no_email
      where
        by_column :
            (b : Bool)
            → (b ≡ true) ⊎ (latest_email env row.booking_uid (text_of_role k) db ≡ none)
            → Idle (if b then return tt else backfill_slot env resolver row k)
        by_column true none_named = λ c h. h
        by_column false (inl e) = λ c h. cc
        by_column false (inr none_named) = slot-Idle row k none_named

    rows-Idle :
        (rows : List BookingRecord) → HaveNoEmail rows → Idle (backfill_rows env resolver rows)
    unfolding backfill_rows backfill_row return
    rows-Idle [] none_named = λ c h. h
    rows-Idle (row ∷ rows) (organizer, client, others) =
        Idle-bind (backfill_row env resolver row) (λ _. backfill_rows env resolver rows)
          (Idle-bind (backfill_empty env resolver row organizer_column)
            (λ _. backfill_empty env resolver row client_column)
            (empty-Idle row organizer_column organizer) (λ _. empty-Idle row client_column client))
          (λ _. rows-Idle rows others)

module _ (env : Env) (resolver : Resolver) (batch_size : ℕ) where
  finish_same :
      (n : ℕ) (r : Result Bool) (c : Cycle) (w : World)
      → c.session.db ≡ w.committed
      → (finish env resolver n r c w).1.committed ≡ w.committed
  finish_same n (ok aborted) c w h = close_keeps (λ d. d ≡ w.committed) (ok tt) c.session w h refl
  finish_same n (raise e) c w h = refl

  after_same :
      (p : Result (List BookingRecord) × Session) (rows : List BookingRecord) (w : World)
      → IsRead rows w.committed p
      → HaveNoEmail env w.committed rows
      → (after_candidates env resolver p w).1.committed ≡ w.committed
  after_same (raise e, s) rows w h none_named = refl
  after_same (ok read, s) rows w (same, db_same) none_named =
      finish_same (length read)
        (catch_unavailable env resolver
          (backfill_rows env resolver read (start_cycle env resolver s)).0)
        (backfill_rows env resolver read (start_cycle env resolver s)).1 w
        (rows-Idle env w.committed resolver read (rw same none_named) (start_cycle env resolver s)
          db_same)

  -- Where no event names an e-mail for the empty columns of the first `batch_size` incomplete
  -- bookings, a cycle changes nothing in the database, so that the next one selects the same bookings
  -- again.
  pub run_once_starves :
      (w : World)
      → HaveNoEmail env w.committed (select_candidates batch_size w.committed)
      → ((run_once env resolver batch_size w).1.committed ≡ w.committed)
        × (select_candidates batch_size (run_once env resolver batch_size w).1.committed
            ≡ select_candidates batch_size w.committed)
  unfolding run_once
  run_once_starves w none_named =
      let same =
        after_same (candidates env resolver batch_size (open_session w))
          (select_candidates batch_size w.committed) w
          (statement-IsRead (select_candidates batch_size) (open_session w)) none_named in
      (same, ap (select_candidates batch_size) same)
