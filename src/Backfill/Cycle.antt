-- ===== src/Backfill/Cycle.antt =====
-- `UserIdBackfillService` of event_saver/application/services/user_id_backfill.py.
use event_saver.Prelude.{
  ℕ, ◌+◌, String, Bool, true, false, ◌&&◌, Option, none, some, List, [], ◌∷◌, length, is_some, ◌==◌,
  if◌then◌else◌,
}
use event_saver.Py.Exception.{Result, ok, raise, users_service_unavailable}
use event_saver.Env.{Env}
use event_saver.Db.Rows.{BookingRecord}
use event_saver.Db.Bookings.{RoleColumn, organizer_column, client_column, column_of}
use event_saver.Db.Session.{Session, Tx, statement}
use event_saver.Ingest.Repositories.{text_of_role, execute_sql}
use event_saver.Ingest.EventStore.{World, open_session, close_session}
use event_saver.Backfill.Queries.{select_candidates, latest_email, fill_column}

-- `BackfillSummary`
pub record BackfillSummary : Type 0 where
  pub scanned_bookings : ℕ
  pub resolved : ℕ
  pub unresolved : ℕ
  pub missing_email : ℕ
  pub aborted : Bool

abbrev pub Key : Type 0
Key = String × String

-- The state of a cycle: its session, `_Counters`, the cache, and the requests made, the last first.
pub record Cycle : Type 0 where
  pub session : Session
  pub resolved : ℕ
  pub unresolved : ℕ
  pub missing_email : ℕ
  pub cache : List (Key × Option ℕ)
  pub asked : List Key

-- A coroutine of the cycle.
abbrev pub Cy : Type 0 → Type 0
Cy A = Cycle → Result A × Cycle

-- A resolver may answer by the requests made before, as the service behind it changes.
abbrev pub Resolver : Type 0
Resolver = List Key → Key → Result (Option ℕ)

module _ {A : Type 0} where
  unfoldable pub return : A → Cy A
  return a c = (ok a, c)

  -- a coroutine of the session
  unfoldable pub in_session : Tx A → Cy A
  in_session m c = let (r, s) = m c.session in (r, record c { session = s })

module _ {A B : Type 0} where
  abbrev pub proceed : Result A → (A → Cy B) → Cycle → Result B × Cycle
  proceed (ok a) f c = f a c
  proceed (raise e) f c = (raise e, c)

  infixl 10 ◌>>=◌ ◌>>◌
  unfoldable pub ◌>>=◌ : Cy A → (A → Cy B) → Cy B
  unfolding return in_session
  ◌>>=◌ m f c = let (r, c') = m c in proceed r f c'

  abbrev pub ◌>>◌ : Cy A → Cy B → Cy B
  m >> n = m >>= λ _. n

abbrev pub key_eq : Key → Key → Bool
key_eq (email, role) (email', role') = email == email' && role == role'

-- `cache[key]`, if it is there
unfoldable pub lookup : Key → List (Key × Option ℕ) → Option (Option ℕ)
lookup key [] = none
lookup key ((k, v) ∷ cache) = let rest = lookup key cache in if key_eq key k then some v else rest

abbrev pub count_resolved : Cy (Unit {0})
count_resolved c = (ok tt, record c { resolved = c.resolved + 1 })

abbrev pub count_unresolved : Cy (Unit {0})
count_unresolved c = (ok tt, record c { unresolved = c.unresolved + 1 })

abbrev pub count_missing_email : Cy (Unit {0})
count_missing_email c = (ok tt, record c { missing_email = c.missing_email + 1 })

module _ (env : Env) (resolver : Resolver) where
  -- `cache[key] = await self._resolver.resolve(...)`
  abbrev pub answered : Key → Result (Option ℕ) → Cy (Option ℕ)
  answered key (ok v) c = (ok v, record c { cache = (key, v) ∷ c.cache; asked = key ∷ c.asked })
  answered key (raise e) c = (raise e, record c { asked = key ∷ c.asked })

  abbrev pub cached_or_asked : Key → Option (Option ℕ) → Cy (Option ℕ)
  cached_or_asked key (some v) c = (ok v, c)
  cached_or_asked key none c = answered key (resolver c.asked key) c

  -- `if key not in cache: ...` and `cache[key]`
  unfoldable pub resolve_cached : Key → Cy (Option ℕ)
  unfolding lookup
  resolve_cached key c = cached_or_asked key (lookup key c.cache) c

  -- what follows a resolution
  abbrev pub fill_slot : BookingRecord → RoleColumn → Option ℕ → Cy (Unit {0})
  fill_slot row column none = count_unresolved
  fill_slot row column (some user_id) = do
    in_session (execute_sql (fill_column column row.id user_id))
    count_resolved

  abbrev pub with_email : BookingRecord → RoleColumn → Option String → Cy (Unit {0})
  with_email row column none = count_missing_email
  with_email row column (some email) = do
    user_id ← resolve_cached (email, text_of_role column)
    fill_slot row column user_id

  -- `_backfill_slot`
  unfoldable pub backfill_slot : BookingRecord → RoleColumn → Cy (Unit {0})
  unfolding ◌>>=◌ resolve_cached execute_sql statement
  backfill_slot row column = do
    email ←
        in_session
          (statement (λ db. ok (latest_email env row.booking_uid (text_of_role column) db, db)))
    with_email row column email

  -- one pass of the loop of `_backfill_row`
  abbrev pub backfill_empty : BookingRecord → RoleColumn → Cy (Unit {0})
  backfill_empty row column =
      if is_some (column_of column row) then return tt else backfill_slot row column

  -- `_backfill_row`
  unfoldable pub backfill_row : BookingRecord → Cy (Unit {0})
  unfolding ◌>>=◌ backfill_slot
  backfill_row row = backfill_empty row organizer_column >> backfill_empty row client_column

  -- `for row in rows`
  unfoldable pub backfill_rows : List BookingRecord → Cy (Unit {0})
  unfolding ◌>>=◌ backfill_row
  backfill_rows [] = return tt
  backfill_rows (row ∷ rows) = backfill_row row >> backfill_rows rows

  abbrev pub start_cycle : Session → Cycle
  start_cycle s = record {
    session = s;
    resolved = 0;
    unresolved = 0;
    missing_email = 0;
    cache = [];
    asked = [];
  }

  abbrev pub summary_of : ℕ → Bool → Cycle → BackfillSummary
  summary_of scanned aborted c = record {
    scanned_bookings = scanned;
    resolved = c.resolved;
    unresolved = c.unresolved;
    missing_email = c.missing_email;
    aborted = aborted;
  }

  -- `except UsersServiceUnavailableError: aborted = True`
  abbrev pub catch_unavailable : Result (Unit {0}) → Result Bool
  catch_unavailable (ok _) = ok false
  catch_unavailable (raise users_service_unavailable) = ok true
  catch_unavailable (raise e) = raise e

  abbrev pub summarized : Result (Unit {0}) → BackfillSummary → Result BackfillSummary
  summarized (ok _) summary = ok summary
  summarized (raise e) summary = raise e

  -- the end of `run_once`: commit, unless something else was raised
  abbrev pub finish : ℕ → Result Bool → Cycle → World → Result BackfillSummary × World
  finish scanned (raise e) c w = let (r, w') = close_session (raise e) c.session w in (raise e, w')
  finish scanned (ok aborted) c w =
      let (r, w') = close_session (ok tt) c.session w in
      (summarized r (summary_of scanned aborted c), w')

  abbrev pub after_candidates :
      Result (List BookingRecord) × Session → World → Result BackfillSummary × World
  after_candidates (raise e, s) w = let (r, w') = close_session (raise e) s w in (raise e, w')
  after_candidates (ok rows, s) w =
      let (r, c) = backfill_rows rows (start_cycle s) in
      finish (length rows) (catch_unavailable r) c w

  module _ (batch_size : ℕ) where
    abbrev pub candidates : Tx (List BookingRecord)
    candidates = statement (λ db. ok (select_candidates batch_size db, db))

    -- `run_once`
    unfoldable pub run_once : World → Result BackfillSummary × World
    unfolding backfill_rows statement select_candidates
    run_once w = after_candidates (candidates (open_session w)) w
