-- ===== src/Db/Session.antt =====
-- One database session, as `SqlExecutor` (event_saver/adapters/sql.py) sees it: statements run in
-- a transaction, and each may be answered by an error of the driver or the network instead.
use event_saver.Prelude.{String, List, [], ◌∷◌}
use event_saver.Py.Exception.{Exception, Result, ok, raise}
use event_saver.Db.Tables.{Db}

-- How the database answers: as it should; with an error, and nothing done; or, for a COMMIT, with
-- an error although the transaction was committed.
pub data Reply : Type 0 where
  answers : Reply
  fails : Exception → Reply
  lost : Exception → Reply

-- Increments of the Prometheus counters (event_saver/metrics.py).
pub data Metric : Type 0 where
  events_total : String → Metric
  booking_lifecycle_total : String → Metric
  messages_processed_total : String → String → String → Metric

-- `db` is what the transaction sees; `replies` are those to come, and after them all is well.
-- Counters live outside the database: a rollback does not take them back.
pub record Session : Type 0 where
  pub db : Db
  pub replies : List Reply
  pub metrics : List Metric

-- A coroutine that runs in a session. What it wrote stays when it raises; who owns the session
-- decides.
abbrev pub Tx : Type 0 → Type 0
Tx A = Session → Result A × Session

module _ {A : Type 0} where
  unfoldable pub pure : A → Tx A
  pure a s = (ok a, s)

  unfoldable pub lift : Result A → Tx A
  lift r s = (r, s)

  -- the statement's own outcome; one that raises has changed nothing
  abbrev pub answer : Result (A × Db) → Session → Result A × Session
  answer (ok (a, db')) s = (ok a, record s { db = db' })
  answer (raise e) s = (raise e, s)

  abbrev pub reply_to : List Reply → (Db → Result (A × Db)) → Session → Result A × Session
  reply_to [] sql s = answer (sql s.db) s
  reply_to (answers ∷ rest) sql s = answer (sql s.db) (record s { replies = rest })
  reply_to (fails e ∷ rest) sql s = (raise e, record s { replies = rest })
  reply_to (lost e ∷ rest) sql s = (raise e, record s { replies = rest })

  -- `self.session.execute(text(query), values)`
  unfoldable pub statement : (Db → Result (A × Db)) → Tx A
  statement sql s = reply_to s.replies sql s

unfoldable pub count : Metric → Tx (Unit {0})
count m s = (ok tt, record s { metrics = m ∷ s.metrics })

module _ {A B : Type 0} where
  abbrev pub continue : Result A → (A → Tx B) → Session → Result B × Session
  continue (ok a) f s = f a s
  continue (raise e) f s = (raise e, s)

  infixl 10 ◌>>=◌ ◌>>◌
  -- opening this opens `pure`, `lift`, `statement` and `count` too
  unfoldable pub ◌>>=◌ : Tx A → (A → Tx B) → Tx B
  unfolding pure lift statement count
  ◌>>=◌ m f s = let (r, s') = m s in continue r f s'

  abbrev pub ◌>>◌ : Tx A → Tx B → Tx B
  m >> n = m >>= λ _. n
