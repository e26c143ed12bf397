-- ===== src/Backfill/Direct/Simulation.antt =====
-- The cycle with the cache beside the one without.
use event_saver.Prelude.{
  and_true, ℕ, ◌≡◌, refl, sym, String, true, Bool, false, Option, none, some, List, [], ◌∷◌, length,
  is_some, eq_iff, ◌==◌, if◌then◌else◌,
}
use event_saver.Py.Exception.{Result, ok, raise}
use event_saver.Env.{Env}
use event_saver.Db.Rows.{BookingRecord}
use event_saver.Db.Session.{Session, Tx}
use event_saver.Db.Bookings.{RoleColumn, organizer_column, client_column, column_of}
use event_saver.Ingest.Repositories.{text_of_role, execute_sql}
use event_saver.Ingest.EventStore.{World, open_session}
use event_saver.Backfill.Queries.{fill_column}
use event_saver.Backfill.Cycle.{
  Cycle, Cy, Key, return, in_session, proceed, ◌>>=◌, answered, cached_or_asked, resolve_cached,
  lookup, key_eq, fill_slot, with_email, backfill_slot, backfill_empty, backfill_row, backfill_rows,
  start_cycle, catch_unavailable, finish, after_candidates, candidates, run_once,
}
use event_saver.Backfill.Direct.{
  Answers, steady, ask, direct_with_email, latest, direct_slot, direct_empty, direct_rows,
  after_direct, direct_once,
}

pub key_eq_sound : (key k : Key) → key_eq key k ≡ true → key ≡ k
key_eq_sound (email, role) (email', role') h =
    rw
      (
        (eq_iff email email').0 (and_true (email == email') (role == role') h).0,
        (eq_iff role role').0 (and_true (email == email') (role == role') h).1,
      )
      refl

module _ (env : Env) (answer : Answers) where
  -- the cycle without what the cache knows
  abbrev forget : Cycle → Cycle
  forget c = record c { cache = []; asked = [] }

  abbrev forgotten : {A : Type 0} → Result A × Cycle → Result A × Cycle
  forgotten (r, c) = (r, forget c)

  -- the cache holds answers of the service
  abbrev Truthful : Cycle → Type 0
  Truthful c = (key : Key) (v : Option ℕ) → lookup key c.cache ≡ some v → answer key ≡ ok v

  record Simulates {A : Type 0} (m n : Cy A) : Type 0 where
    pub same : (c : Cycle) → Truthful c → n (forget c) ≡ forgotten (m c)
    pub truthful : (c : Cycle) → Truthful c → Truthful (m c).1

  proceed-same :
      {A B : Type 0} (p q : Result A × Cycle) (f g : A → Cy B)
      → q ≡ forgotten p
      → Truthful p.1
      → ((a : A) → Simulates (f a) (g a))
      → proceed q.0 g q.1 ≡ forgotten (proceed p.0 f p.1)
  proceed-same (ok a, c) q f g e t next = rw e ((next a).same c t)
  proceed-same (raise x, c) q f g e t next = rw e refl

  proceed-Truthful :
      {A B : Type 0} (p : Result A × Cycle) (f g : A → Cy B)
      → Truthful p.1
      → ((a : A) → Simulates (f a) (g a))
      → Truthful (proceed p.0 f p.1).1
  proceed-Truthful (ok a, c) f g t next = (next a).truthful c t
  proceed-Truthful (raise x, c) f g t next = t

  Simulates-bind :
      {A B : Type 0} (m n : Cy A) (f g : A → Cy B)
      → Simulates m n
      → ((a : A) → Simulates (f a) (g a))
      → Simulates (m >>= f) (n >>= g)
  unfolding ◌>>=◌
  Simulates-bind m n f g first next = record {
    same = λ c t. proceed-same (m c) (n (forget c)) f g (first.same c t) (first.truthful c t) next;
    truthful = λ c t. proceed-Truthful (m c) f g (first.truthful c t) next;
  }

  Simulates-session : {A : Type 0} (m : Tx A) → Simulates (in_session m) (in_session m)
  unfolding in_session
  Simulates-session m = record { same = λ c t. refl; truthful = λ c t. t }

  added_truthful :
      (key k : Key) (u v : Option ℕ) (cache : List (Key × Option ℕ))
      → answer k ≡ ok u
      → (lookup key cache ≡ some v → answer key ≡ ok v)
      → lookup key ((k, u) ∷ cache) ≡ some v
      → answer key ≡ ok v
  unfolding lookup
  added_truthful key k u v cache new before = by_test (key_eq key k) refl
    where
      by_test :
          (b : Bool)
          → key_eq key k ≡ b
          → (if b then some u else lookup key cache) ≡ some v
          → answer key ≡ ok v
      by_test true e h = cc (key_eq_sound key k e)
      by_test false e h = before h

  answered-same :
      (key : Key) (r : Result (Option ℕ)) (c : Cycle)
      → (r, forget c) ≡ forgotten (answered env (steady answer) key r c)
  answered-same key (ok v) c = refl
  answered-same key (raise e) c = refl

  answered-Truthful :
      (key : Key) (r : Result (Option ℕ)) (c : Cycle)
      → answer key ≡ r
      → Truthful c
      → Truthful (answered env (steady answer) key r c).1
  answered-Truthful key (ok u) c new t k v = added_truthful k key u v c.cache new (t k v)
  answered-Truthful key (raise e) c new t k v = t k v

  cached-same :
      (key : Key) (o : Option (Option ℕ)) (c : Cycle)
      → lookup key c.cache ≡ o
      → Truthful c
      → ask env answer key (forget c) ≡ forgotten (cached_or_asked env (steady answer) key o c)
  cached-same key (some v) c found t = rw (t key v found) refl
  cached-same key none c found t = answered-same key (answer key) c

  cached-Truthful :
      (key : Key) (o : Option (Option ℕ)) (c : Cycle)
      → Truthful c
      → Truthful (cached_or_asked env (steady answer) key o c).1
  cached-Truthful key (some v) c t = t
  cached-Truthful key none c t = answered-Truthful key (answer key) c refl t

  resolve-Simulates :
      (key : Key) → Simulates (resolve_cached env (steady answer) key) (ask env answer key)
  unfolding resolve_cached
  resolve-Simulates key = record {
    same = λ c t. cached-same key (lookup key c.cache) c refl t;
    truthful = λ c t. cached-Truthful key (lookup key c.cache) c t;
  }

  fill_slot-Simulates :
      (row : BookingRecord) (k : RoleColumn) (o : Option ℕ)
      → Simulates (fill_slot env (steady answer) row k o) (fill_slot env (steady answer) row k o)
  fill_slot-Simulates row k none = record { same = λ c t. refl; truthful = λ c t. t }
  fill_slot-Simulates row k (some u) =
      Simulates-bind _ _ _ _ (Simulates-session (execute_sql (fill_column k row.id u)))
        (λ _. record { same = λ c t. refl; truthful = λ c t. t })

  with_email-Simulates :
      (row : BookingRecord) (k : RoleColumn) (email : Option String)
      → Simulates
          (with_email env (steady answer) row k email)
          (direct_with_email env answer row k email)
  with_email-Simulates row k none = record { same = λ c t. refl; truthful = λ c t. t }
  with_email-Simulates row k (some email) =
      Simulates-bind _ _ _ _ (resolve-Simulates (email, text_of_role k)) (fill_slot-Simulates row k)

  slot-Simulates :
      (row : BookingRecord) (k : RoleColumn)
      → Simulates (backfill_slot env (steady answer) row k) (direct_slot env answer row k)
  unfolding backfill_slot
  slot-Simulates row k =
      Simulates-bind _ _ _ _ (Simulates-session (latest env answer row k))
        (with_email-Simulates row k)

  empty-Simulates :
      (row : BookingRecord) (k : RoleColumn)
      → Simulates (backfill_empty env (steady answer) row k) (direct_empty env answer row k)
  unfolding return
  empty-Simulates row k = by_column (is_some (column_of k row))
    where
      by_column :
          (b : Bool)
          → Simulates
              (if b then return tt else backfill_slot env (steady answer) row k)
              (if b then return tt else direct_slot env answer row k)
      by_column true = record { same = λ c t. refl; truthful = λ c t. t }
      by_column false = slot-Simulates row k

  rows-Simulates :
      (rows : List BookingRecord)
      → Simulates (backfill_rows env (steady answer) rows) (direct_rows env answer rows)
  unfolding backfill_rows backfill_row direct_rows return
  rows-Simulates [] = record { same = λ c t. refl; truthful = λ c t. t }
  rows-Simulates (row ∷ rows) =
      Simulates-bind _ _ _ _
        (Simulates-bind _ _ _ _ (empty-Simulates row organizer_column)
          (λ _. empty-Simulates row client_column))
        (λ _. rows-Simulates rows)

  start-Truthful : (s : Session) → Truthful (start_cycle env (steady answer) s)
  unfolding lookup
  start-Truthful s key v h = cc

  finish-forget :
      (n : ℕ) (r : Result Bool) (c : Cycle) (w : World)
      → finish env (steady answer) n r (forget c) w ≡ finish env (steady answer) n r c w
  finish-forget n (ok aborted) c w = refl
  finish-forget n (raise e) c w = refl

  after-same :
      (p : Result (List BookingRecord) × Session) (w : World)
      → after_candidates env (steady answer) p w ≡ after_direct env answer p w
  after-same (raise e, s) w = refl
  after-same (ok rows, s) w =
      rw ((rows-Simulates rows).same (start_cycle env (steady answer) s) (start-Truthful s)) (
        sym (
          finish-forget (length rows)
            (catch_unavailable env (steady answer)
              (backfill_rows env (steady answer) rows (start_cycle env (steady answer) s)).0)
            (backfill_rows env (steady answer) rows (start_cycle env (steady answer) s)).1 w))

  -- With a users service that does not change during the cycle, the cache makes no difference: the
  -- cycle returns the same summary (or raises the same) and leaves the same world as one that asks
  -- for every slot, even where the service fails or the database does.
  pub run_once-direct_once :
      (batch_size : ℕ) (w : World)
      → run_once env (steady answer) batch_size w ≡ direct_once env answer batch_size w
  unfolding run_once
  run_once-direct_once batch_size w =
      after-same (candidates env (steady answer) batch_size (open_session w)) w
