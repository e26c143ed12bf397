-- ===== src/Db/Replays.antt =====
-- A coroutine that returns in a session where statements may fail returns the same, and leaves
-- the same database, in a session where none does.
use event_saver.Prelude.{◌≡◌, refl, sym, ap, ◌∙◌, List, [], ◌∷◌}
use mathlib.Core.Path.{subst}
use event_saver.Py.Exception.{Result, ok, raise}
use event_saver.Db.Tables.{Db}
use event_saver.Db.Logic.{Logic}
use event_saver.Db.Session.{
  Reply, answers, fails, lost, Metric, Session, Tx, pure, lift, answer, reply_to, statement, count,
  continue, ◌>>=◌,
}

-- `t'` is what `s'` is, as far as the database shows, and no reply is waiting
abbrev pub SameRun : {A : Type 0} → A → Result A × Session → Session → Type 0
SameRun a (r, t') s' = (r ≡ ok a) × (t'.db ≡ s'.db) × (t'.replies ≡ [])

pub record Replays {A : Type 0} (m : Tx A) : Type 0 where
  pub at :
      (s t : Session)
      → t.db ≡ s.db
      → t.replies ≡ []
      → (a : A) → (m s).0 ≡ ok a
      → SameRun a (m t) (m s).1

pub Replays-pure : {A : Type 0} (a : A) → Replays (pure a)
unfolding pure
Replays-pure a = record { at = λ s t same quiet b h. (h, same, quiet) }

pub Replays-lift : {A : Type 0} (r : Result A) → Replays (lift r)
unfolding lift
Replays-lift r = record { at = λ s t same quiet b h. (h, same, quiet) }

pub Replays-count : (m : Metric) → Replays (count m)
unfolding count
Replays-count m = record { at = λ s t same quiet b h. (h, same, quiet) }

answer_replays :
    {A : Type 0} (r : Result (A × Db)) (s t : Session)
    → t.replies ≡ []
    → (a : A) → (answer r s).0 ≡ ok a
    → SameRun a (answer r t) (answer r s).1
answer_replays (ok (b, db)) s t quiet a h = (h, refl, quiet)
answer_replays (raise e) s t quiet a h = cc

reply_replays :
    {A : Type 0} (sql : Db → Result (A × Db)) (replies : List Reply) (s t : Session)
    → t.replies ≡ []
    → (a : A) → (reply_to replies sql s).0 ≡ ok a
    → SameRun a (answer (sql s.db) t) (reply_to replies sql s).1
reply_replays sql [] s t quiet a h = answer_replays (sql s.db) s t quiet a h
reply_replays sql (answers ∷ rest) s t quiet a h =
    answer_replays (sql s.db) (record s { replies = rest }) t quiet a h
reply_replays sql (fails e ∷ rest) s t quiet a h = cc
reply_replays sql (lost e ∷ rest) s t quiet a h = cc

reply_quiet :
    {A : Type 0} (sql : Db → Result (A × Db)) (replies : List Reply) (t : Session)
    → replies ≡ []
    → reply_to replies sql t ≡ answer (sql t.db) t
reply_quiet sql [] t e = refl
reply_quiet sql (r ∷ rest) t e = cc

pub Replays-statement : {A : Type 0} (sql : Db → Result (A × Db)) → Replays (statement sql)
unfolding statement
Replays-statement sql = record {
  at = λ s t same quiet a h.
      subst (λ run. SameRun a run (reply_to s.replies sql s).1)
        (sym (reply_quiet sql t.replies t quiet ∙ ap (λ db. answer (sql db) t) same))
        (reply_replays sql s.replies s t quiet a h);
}

continue-Replays :
    {A B : Type 0} (f : A → Tx B) (r : Result A) (s : Session) (p : Result A × Session)
    → ((a : A) → Replays (f a))
    → ((a : A) → r ≡ ok a → SameRun a p s)
    → (b : B) → (continue r f s).0 ≡ ok b
    → SameRun b (continue p.0 f p.1) (continue r f s).1
continue-Replays f (ok a) s p rf hm b h =
    let (e, same, quiet) = hm a refl in rw e ((rf a).at s p.1 same quiet b h)
continue-Replays f (raise e) s p rf hm b h = cc

pub Replays-bind :
    {A B : Type 0} (m : Tx A) (f : A → Tx B)
    → Replays m
    → ((a : A) → Replays (f a))
    → Replays (m >>= f)
unfolding ◌>>=◌
Replays-bind m f rm rf = record {
  at = λ s t same quiet b h.
      continue-Replays f (m s).0 (m s).1 (m t) rf (λ a e. rm.at s t same quiet a e) b h;
}

abbrev pub replays_logic : Logic
replays_logic = record {
  Holds = λ A m. Replays m;
  holds_pure = λ A a. Replays-pure a;
  holds_lift = λ A r. Replays-lift r;
  holds_count = Replays-count;
  holds_bind = λ A B m f hm hf. Replays-bind m f hm hf;
}
