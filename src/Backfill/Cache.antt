-- ===== src/Backfill/Cache.antt =====
-- The cache of a cycle of the backfill.
use event_saver.Prelude.{
  ℕ, ◌≡◌, refl, true, Bool, false, ◌||◌, Option, none, some, List, [], ◌∷◌, any, if◌then◌else◌,
}
use event_saver.Py.Exception.{Exception, Result, ok, raise}
use event_saver.Env.{Env}
use event_saver.Db.Rows.{BookingRecord}
use event_saver.Db.Session.{Session, Tx}
use event_saver.Ingest.Repositories.{execute_sql}
use event_saver.Backfill.Cycle.{
  Cycle, Key, Resolver, in_session, answered, cached_or_asked, resolve_cached, lookup, key_eq,
  backfill_rows, start_cycle,
}
use event_saver.Backfill.Walk.{Ends, Ensures, Steps, backfill_rows-Ensures}

-- No e-mail and role stands twice in the list.
abbrev pub AreDistinct : List Key → Type 0
AreDistinct [] = Unit
AreDistinct (key ∷ keys) = (any (key_eq key) keys ≡ false) × AreDistinct keys

-- what has been asked is in the cache
abbrev IsRemembered : Cycle → Type 0
IsRemembered c =
    AreDistinct c.asked
    × ((key : Key) → lookup key c.cache ≡ none → any (key_eq key) c.asked ≡ false)

abbrev AskedOnce : Exception → Cycle → Type 0
AskedOnce e c = AreDistinct c.asked

remembers :
    (key k : Key) (v : Option ℕ) (cache : List (Key × Option ℕ)) (asked : List Key)
    → (lookup key cache ≡ none → any (key_eq key) asked ≡ false)
    → lookup key ((k, v) ∷ cache) ≡ none
    → any (key_eq key) (k ∷ asked) ≡ false
unfolding lookup
remembers key k v cache asked before h = by_test (key_eq key k) h
  where
    by_test :
        (b : Bool)
        → (if b then some v else lookup key cache) ≡ none
        → b || any (key_eq key) asked ≡ false
    by_test true e = cc
    by_test false e = before e

with_session :
    {A : Type 0} (r : Result A) (s : Session) (c : Cycle)
    → IsRemembered c
    → Ends IsRemembered AskedOnce (r, record c { session = s })
with_session (ok a) s c h = h
with_session (raise e) s c h = h.0

in_session-Ensures : {A : Type 0} (m : Tx A) → Ensures IsRemembered AskedOnce (in_session m)
unfolding in_session
in_session-Ensures m = record { at = λ c h. with_session (m c.session).0 (m c.session).1 c h }

module _ (env : Env) (resolver : Resolver) where
  answered-Ends :
      (key : Key) (r : Result (Option ℕ)) (c : Cycle)
      → lookup key c.cache ≡ none
      → IsRemembered c
      → Ends IsRemembered AskedOnce (answered env resolver key r c)
  answered-Ends key (ok v) c new (distinct, before) =
      ((before key new, distinct), λ k. remembers k key v c.cache c.asked (before k))
  answered-Ends key (raise e) c new (distinct, before) = (before key new, distinct)

  cached-Ends :
      (key : Key) (o : Option (Option ℕ)) (c : Cycle)
      → lookup key c.cache ≡ o
      → IsRemembered c
      → Ends IsRemembered AskedOnce (cached_or_asked env resolver key o c)
  cached-Ends key (some v) c found h = h
  cached-Ends key none c new h = answered-Ends key (resolver c.asked key) c new h

  steps_remember : Steps env resolver IsRemembered AskedOnce
  unfolding resolve_cached execute_sql
  steps_remember = record {
    reads = λ row k. in_session-Ensures _;
    fills = λ row k u. in_session-Ensures _;
    resolves = λ key. record { at = λ c h. cached-Ends key (lookup key c.cache) c refl h };
    counts_resolved = record { at = λ c h. h };
    counts_unresolved = record { at = λ c h. h };
    counts_missing_email = record { at = λ c h. h };
  }

  distinct_at_end :
      (p : Result (Unit {0}) × Cycle) → Ends IsRemembered AskedOnce p → AreDistinct p.1.asked
  distinct_at_end (ok _, c) h = h.0
  distinct_at_end (raise e, c) h = h

  -- However the cycle ends, it has asked the users service at most once for each e-mail and role.
  pub backfill_rows-AreDistinct :
      (rows : List BookingRecord) (s : Session)
      → AreDistinct (backfill_rows env resolver rows (start_cycle env resolver s)).1.asked
  backfill_rows-AreDistinct rows s = distinct_at_end _ (
      (backfill_rows-Ensures env resolver IsRemembered AskedOnce steps_remember rows).at
        (start_cycle env resolver s) (tt, λ key _. refl))
