-- ===== src/Backfill/Answered.antt =====
-- Where the user ids that a cycle of the backfill fills in come from.
use event_saver.Prelude.{
  ℕ, ◌≡◌, inl, inr, refl, sym, ◌∙◌, String, Bool, true, false, Option, none, some, List, [], ◌∷◌,
  length, is_some, some_same, if-either, if◌then◌else◌,
}
use event_saver.Py.Exception.{Result, ok, raise}
use event_saver.Env.{Env}
use event_saver.Db.Rows.{BookingRecord}
use event_saver.Db.Tables.{Db}
use event_saver.Db.Session.{Session, statement}
use event_saver.Db.Bookings.{RoleColumn, organizer_column, client_column, column_of}
use event_saver.Ingest.Repositories.{text_of_role, execute_sql}
use event_saver.Ingest.EventStore.{World, open_session}
use event_saver.Ingest.Consistency.{close_keeps}
use event_saver.Backfill.Queries.{select_candidates, latest_email, fill_column}
use event_saver.Backfill.Cycle.{
  Cycle, Cy, Key, Resolver, return, in_session, proceed, ◌>>=◌, answered, cached_or_asked,
  resolve_cached, lookup, key_eq, fill_slot, with_email, backfill_slot, backfill_empty,
  backfill_row, backfill_rows, start_cycle, catch_unavailable, finish, after_candidates, candidates,
  run_once,
}
use event_saver.Backfill.Preserves.{IsRead, statement-IsRead}
use event_saver.Backfill.Direct.Simulation.{key_eq_sound}
use event_saver.Db.Keeps.{Keeps-statement}
use event_saver.Backfill.Answers.{
  IsAmong, IsAnswered, IsRightDb, fill_column-IsRightDb, IsRightDb-refl,
}

module _ (env : Env) (resolver : Resolver) (db : Db) (scanned : List BookingRecord) where
  -- every entry of the cache was answered
  abbrev Known : List (Key × Option ℕ) → Type 0
  Known cache =
      (key : Key) (v : Option ℕ)
      → lookup key cache ≡ some v
      → (asked : List Key) × (resolver asked key ≡ ok v)

  abbrev Good : Cycle → Type 0
  Good c = IsRightDb env resolver db scanned c.session.db × Known c.cache

  abbrev Ends : {A : Type 0} → (A → Type 0) → Result A × Cycle → Type 0
  Ends q (ok a, c) = q a × Good c
  Ends q (raise e, c) = Good c

  -- from a good state to one, whatever is raised; what is returned has the property
  record Leads {A : Type 0} (q : A → Type 0) (m : Cy A) : Type 0 where
    pub at : (c : Cycle) → Good c → Ends q (m c)

  proceed-Ends :
      {A B : Type 0} (q : A → Type 0) (q' : B → Type 0) (p : Result A × Cycle) (f : A → Cy B)
      → Ends q p
      → ((a : A) → q a → Leads q' (f a))
      → Ends q' (proceed p.0 f p.1)
  proceed-Ends q q' (ok a, c) f (h, good) next = (next a h).at c good
  proceed-Ends q q' (raise e, c) f good next = good

  Leads-bind :
      {A B : Type 0} (q : A → Type 0) (q' : B → Type 0) (m : Cy A) (f : A → Cy B)
      → Leads q m
      → ((a : A) → q a → Leads q' (f a))
      → Leads q' (m >>= f)
  unfolding ◌>>=◌
  Leads-bind q q' m f first next = record {
    at = λ c good. proceed-Ends q q' (m c) f (first.at c good) next;
  }

  abbrev Done : Unit {0} → Type 0
  Done _ = Unit

  -- what `_SELECT_LATEST_EMAIL` gave
  abbrev IsLatest : BookingRecord → RoleColumn → Option String → Type 0
  IsLatest r k email = latest_email env r.booking_uid (text_of_role k) db ≡ email

  latest_same :
      (uid role : String) (after : Db)
      → after.events ≡ db.events
      → latest_email env uid role after ≡ latest_email env uid role db
  unfolding latest_email
  latest_same uid role after same = rw same refl

  read-Ends :
      (r : BookingRecord) (k : RoleColumn) (p : Result (Option String) × Session) (c : Cycle)
      → Good c
      → IsRead (latest_email env r.booking_uid (text_of_role k) c.session.db) c.session.db p
      → Ends (IsLatest r k) (p.0, record c { session = p.1 })
  read-Ends r k (ok email, s) c (right, known) (same, db_same) = (
    sym (latest_same r.booking_uid (text_of_role k) c.session.db right.events) ∙ sym same,
    (rw db_same right, known),
  )
  read-Ends r k (raise e, s) c (right, known) db_same = (rw db_same right, known)

  read-Leads :
      (r : BookingRecord) (k : RoleColumn)
      → Leads
          (IsLatest r k)
          (in_session (statement (λ d. ok (latest_email env r.booking_uid (text_of_role k) d, d))))
  unfolding in_session
  read-Leads r k = record {
    at = λ c good.
        read-Ends r k _ c good
          (statement-IsRead (latest_email env r.booking_uid (text_of_role k)) c.session);
  }

  session-Ends :
      (o : Result (Unit {0})) (s : Session) (c : Cycle)
      → IsRightDb env resolver db scanned s.db
      → Known c.cache
      → Ends Done (o, record c { session = s })
  session-Ends (ok u) s c right known = (tt, (right, known))
  session-Ends (raise e) s c right known = (right, known)

  fill-Leads :
      (r : BookingRecord) (k : RoleColumn) (u : ℕ)
      → IsAmong r scanned
      → IsAnswered env resolver db scanned r k u
      → Leads Done (in_session (execute_sql (fill_column k r.id u)))
  unfolding in_session execute_sql
  fill-Leads r k u among answer = record {
    at = λ c (right, known).
        session-Ends _ _ c
          ((Keeps-statement (λ d. ok (tt, fill_column k r.id u d))
              (λ d h. fill_column-IsRightDb env resolver db scanned k u r d among answer h)).at
            c.session right)
          known;
  }

  -- what a resolution gave
  abbrev IsGiven : Key → Option ℕ → Type 0
  IsGiven key v = (asked : List Key) × (resolver asked key ≡ ok v)

  added-Known :
      (key : Key) (v : Option ℕ) (cache : List (Key × Option ℕ))
      → IsGiven key v
      → Known cache
      → Known ((key, v) ∷ cache)
  unfolding lookup
  added-Known key v cache given known k o = by_test (key_eq k key) refl
    where
      by_test :
          (b : Bool)
          → key_eq k key ≡ b
          → (if b then some v else lookup k cache) ≡ some o
          → IsGiven k o
      by_test true e h = rw (key_eq_sound k key e, sym (some_same v o h)) given
      by_test false e h = known k o h

  answered-Ends :
      (key : Key) (o : Result (Option ℕ)) (c : Cycle)
      → resolver c.asked key ≡ o
      → Good c
      → Ends (IsGiven key) (answered env resolver key o c)
  answered-Ends key (ok v) c e (right, known) =
      ((c.asked, e), (right, added-Known key v c.cache (c.asked, e) known))
  answered-Ends key (raise x) c e good = good

  asked-Ends :
      (key : Key) (o : Option (Option ℕ)) (c : Cycle)
      → lookup key c.cache ≡ o
      → Good c
      → Ends (IsGiven key) (cached_or_asked env resolver key o c)
  asked-Ends key (some v) c found (right, known) = (known key v found, (right, known))
  asked-Ends key none c found good = answered-Ends key (resolver c.asked key) c refl good

  resolve-Leads : (key : Key) → Leads (IsGiven key) (resolve_cached env resolver key)
  unfolding resolve_cached
  resolve-Leads key = record { at = λ c good. asked-Ends key (lookup key c.cache) c refl good }

  fill_slot-Leads :
      (r : BookingRecord) (k : RoleColumn) (email : String) (v : Option ℕ)
      → IsAmong r scanned
      → IsLatest r k (some email)
      → IsGiven (email, text_of_role k) v
      → Leads Done (fill_slot env resolver r k v)
  fill_slot-Leads r k email none among latest given = record { at = λ c good. (tt, good) }
  fill_slot-Leads r k email (some u) among latest (asked, given) =
      Leads-bind Done Done _ _ (fill-Leads r k u among (email, asked, latest, given))
        (λ _ _. record { at = λ c good. (tt, good) })

  with_email-Leads :
      (r : BookingRecord) (k : RoleColumn) (email : Option String)
      → IsAmong r scanned
      → IsLatest r k email
      → Leads Done (with_email env resolver r k email)
  with_email-Leads r k none among latest = record { at = λ c good. (tt, good) }
  with_email-Leads r k (some email) among latest =
      Leads-bind (IsGiven (email, text_of_role k)) Done _ _ (resolve-Leads (email, text_of_role k))
        (λ v given. fill_slot-Leads r k email v among latest given)

  empty-Leads :
      (r : BookingRecord) (k : RoleColumn)
      → IsAmong r scanned
      → Leads Done (backfill_empty env resolver r k)
  unfolding return backfill_slot
  empty-Leads r k among =
      if-either (Leads Done) (is_some (column_of k r)) (λ _. record { at = λ c good. (tt, good) })
        (λ _.
          Leads-bind (IsLatest r k) Done _ _ (read-Leads r k)
            (λ email latest. with_email-Leads r k email among latest))

  rows-Leads :
      (rows : List BookingRecord)
      → ((r : BookingRecord) → IsAmong r rows → IsAmong r scanned)
      → Leads Done (backfill_rows env resolver rows)
  unfolding backfill_rows backfill_row return
  rows-Leads [] among = record { at = λ c good. (tt, good) }
  rows-Leads (r ∷ rows) among =
      Leads-bind Done Done _ _
        (Leads-bind Done Done _ _ (empty-Leads r organizer_column (among r (inl refl)))
          (λ _ _. empty-Leads r client_column (among r (inl refl))))
        (λ _ _. rows-Leads rows (λ s there. among s (inr there)))

  ended :
      (p : Result (Unit {0}) × Cycle)
      → Ends Done p
      → IsRightDb env resolver db scanned p.1.session.db
  ended (ok _, c) (_, (right, _)) = right
  ended (raise e, c) (right, _) = right

  start-Known : (s : Session) → Known (start_cycle env resolver s).cache
  unfolding lookup
  start-Known s key v h = cc

  finish-IsRightDb :
      (n : ℕ) (o : Result Bool) (c : Cycle) (w : World)
      → IsRightDb env resolver db scanned c.session.db
      → IsRightDb env resolver db scanned w.committed
      → IsRightDb env resolver db scanned (finish env resolver n o c w).1.committed
  finish-IsRightDb n (ok aborted) c w h before =
      close_keeps (IsRightDb env resolver db scanned) (ok tt) c.session w h before
  finish-IsRightDb n (raise e) c w h before = before

  scanned-IsRightDb :
      (s : Session) (w : World)
      → IsRightDb env resolver db scanned s.db
      → IsRightDb env resolver db scanned w.committed
      → IsRightDb env resolver db scanned
          (after_candidates env resolver (ok scanned, s) w).1.committed
  scanned-IsRightDb s w h before =
      let cycle = backfill_rows env resolver scanned (start_cycle env resolver s) in
      finish-IsRightDb (length scanned) (catch_unavailable env resolver cycle.0) cycle.1 w
        (ended cycle (
          (rows-Leads scanned (λ r there. there)).at (start_cycle env resolver s)
            (h, start-Known s)))
        before

module _ (env : Env) (resolver : Resolver) (batch_size : ℕ) where
  after-IsRightDb :
      (p : Result (List BookingRecord) × Session) (rows : List BookingRecord) (w : World)
      → IsRead rows w.committed p
      → IsRightDb env resolver w.committed rows (after_candidates env resolver p w).1.committed
  after-IsRightDb (raise e, s) rows w h = IsRightDb-refl env resolver w.committed rows
  after-IsRightDb (ok read, s) rows w (same, db_same) = rw same (
      scanned-IsRightDb env resolver w.committed rows s w
        (rw db_same (IsRightDb-refl env resolver w.committed rows))
        (IsRightDb-refl env resolver w.committed rows))

  -- After a cycle, however it and the database's answers went, each participant column of each
  -- booking is what it was, or it holds the user that the resolver gave for the latest e-mail of that
  -- participant in the events of the scanned booking with this id.
  pub run_once-IsRightDb :
      (w : World)
      → IsRightDb env resolver w.committed
          (select_candidates batch_size w.committed)
          (run_once env resolver batch_size w).1.committed
  unfolding run_once
  run_once-IsRightDb w =
      after-IsRightDb (candidates env resolver batch_size (open_session w))
        (select_candidates batch_size w.committed) w
        (statement-IsRead (select_candidates batch_size) (open_session w))
