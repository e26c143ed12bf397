-- ===== src/Db/Logic.antt =====
-- A logic of coroutines: a property with a rule for each way to build one. The use case is walked
-- through once, for every such logic (`Ingest.Walk`); `Keeps` and `Replays` are two of them.
use event_saver.Prelude.{Bool, true, false, if◌then◌else◌}
use event_saver.Py.Exception.{Result}
use event_saver.Db.Session.{Metric, Tx, pure, lift, count, ◌>>=◌}

pub record Logic : Type 1 where
  pub Holds : (A : Type 0) → Tx A → Type 0
  pub holds_pure : (A : Type 0) (a : A) → Holds A (pure a)
  pub holds_lift : (A : Type 0) (r : Result A) → Holds A (lift r)
  pub holds_count : (m : Metric) → Holds Unit (count m)
  pub holds_bind :
      (A B : Type 0) (m : Tx A) (f : A → Tx B)
      → Holds A m
      → ((a : A) → Holds B (f a))
      → Holds B (m >>= f)

module _ (L : Logic) where
  pub holds_if :
      (A : Type 0) (b : Bool) (m n : Tx A)
      → L.Holds A m
      → L.Holds A n
      → L.Holds A (if b then m else n)
  holds_if A true m n hm hn = hm
  holds_if A false m n hm hn = hn
