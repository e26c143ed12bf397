-- ===== src/Db/Keeps.antt =====
-- Properties of the database that a coroutine keeps, whether it returns or raises: one rule for
-- each way to build a coroutine.
use event_saver.Prelude.{Bool, true, false, List, [], ◌∷◌, if◌then◌else◌}
use event_saver.Py.Exception.{Exception, Result, ok, raise, ◌>>=◌ as bind}
use event_saver.Db.Tables.{Db}
use event_saver.Db.Logic.{Logic}
use event_saver.Db.Session.{
  Reply, answers, fails, lost, Metric, Session, Tx, pure, lift, answer, reply_to, statement, count,
  continue, ◌>>=◌,
}

-- `m` keeps `P`
pub record Keeps {A : Type 0} (P : Db → Type 0) (m : Tx A) : Type 0 where
  pub at : (s : Session) → P s.db → P (m s).1.db

-- what a statement leaves behind when it does not raise
abbrev pub KeepsResult : {A : Type 0} → (Db → Type 0) → Result (A × Db) → Type 0
KeepsResult P (ok (_, db)) = P db
KeepsResult P (raise _) = Unit

answer_keeps :
    {A : Type 0} (P : Db → Type 0) (r : Result (A × Db)) (s : Session)
    → KeepsResult P r
    → P s.db
    → P (answer r s).1.db
answer_keeps P (ok (a, db)) s k h = k
answer_keeps P (raise e) s k h = h

reply_keeps :
    {A : Type 0} (P : Db → Type 0) (sql : Db → Result (A × Db)) (replies : List Reply) (s : Session)
    → KeepsResult P (sql s.db)
    → P s.db
    → P (reply_to replies sql s).1.db
reply_keeps P sql [] s k h = answer_keeps P (sql s.db) s k h
reply_keeps P sql (answers ∷ rest) s k h =
    answer_keeps P (sql s.db) (record s { replies = rest }) k h
reply_keeps P sql (fails e ∷ rest) s k h = h
reply_keeps P sql (lost e ∷ rest) s k h = h

module _ {P : Db → Type 0} where
  pub Keeps-lift : {A : Type 0} (r : Result A) → Keeps P (lift r)
  unfolding lift
  Keeps-lift r = record { at = λ s kept. kept }

  pub Keeps-statement :
      {A : Type 0} (sql : Db → Result (A × Db))
      → ((db : Db) → P db → KeepsResult P (sql db))
      → Keeps P (statement sql)
  unfolding statement
  Keeps-statement sql k = record { at = λ s h. reply_keeps _ sql s.replies s (k s.db h) h }

  pub Keeps-count : (m : Metric) → Keeps P (count m)
  unfolding count
  Keeps-count m = record { at = λ s h. h }

  pub Keeps-pure : {A : Type 0} (a : A) → Keeps P (pure a)
  unfolding pure
  Keeps-pure a = record { at = λ start kept. kept }

  continue_keeps :
      {A B : Type 0} (r : Result A) (f : A → Tx B) (s : Session)
      → ((a : A) → Keeps P (f a))
      → P s.db
      → P (continue r f s).1.db
  continue_keeps (ok a) f s kf h = (kf a).at s h
  continue_keeps (raise e) f s kf h = h

  pub Keeps-bind :
      {A B : Type 0} (m : Tx A) (f : A → Tx B)
      → Keeps P m
      → ((a : A) → Keeps P (f a))
      → Keeps P (m >>= f)
  unfolding ◌>>=◌
  Keeps-bind m rest before after = record {
    at = λ start kept. continue_keeps (m start).0 rest (m start).1 after (before.at start kept);
  }

abbrev pub keeps_logic : (Db → Type 0) → Logic
keeps_logic P = record {
  Holds = λ A m. Keeps P m;
  holds_pure = λ A a. Keeps-pure a;
  holds_lift = λ A r. Keeps-lift r;
  holds_count = Keeps-count;
  holds_bind = λ A B m f hm hf. Keeps-bind m f hm hf;
}

-- A property of a database that a statement may or may not give.
abbrev pub IfOk : (Db → Type 0) → Result Db → Type 0
IfOk P (ok db) = P db
IfOk P (raise _) = Unit

pub IfOk-bind :
    {A : Type 0} (P : Db → Type 0) (r : Result A) (f : A → Result Db)
    → ((a : A) → IfOk P (f a))
    → IfOk P (bind r f)
IfOk-bind P (ok a) f h = h a
IfOk-bind P (raise e) f h = tt

pub if-IfOk :
    (P : Db → Type 0) (b : Bool) (db : Db) (e : Exception)
    → P db
    → IfOk P (if b then ok db else raise e)
if-IfOk P true db e h = h
if-IfOk P false db e h = tt
