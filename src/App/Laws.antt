-- ===== src/App/Laws.antt =====
-- What the settings and the lifespan of the application come to.
use event_saver.Prelude.{
  ◌≡◌, refl, sym, String, Bool, true, false, ◌||◌, List, [], ◌∷◌, ◌++◌, any, is_some, eq_iff, ◌==◌,
  if◌then◌else◌,
}
use event_saver.Py.Exception.{ok, raise, value_error}
use event_saver.Consumer.Runner as ConsumerRunner
use event_saver.Consumer.Runner.{QueueSpec}
use event_saver.Backfill.Runner as TaskRunner
use event_saver.Backfill.Runner.{new_runner}
use event_saver.Db.Table.{delete_where}
use event_saver.App.{
  Settings, valid_levels, level_numbers, find_level, validate_log_level, App, new_app,
  enter_lifespan, leave_lifespan,
}

-- Every entry of the list has the property.
abbrev AllHave : (String → Type 0) → List String → Type 0
AllHave P [] = Unit
AllHave P (x ∷ xs) = P x × AllHave P xs

one_has :
    (P : String → Type 0) (u : String) (xs : List String)
    → AllHave P xs
    → any (λ l. l == u) xs ≡ true
    → P u
one_has P u [] h e = cc
one_has P u (x ∷ xs) (first, others) e = by_test (x == u) refl (one_has P u xs others) e
  where
    by_test :
        (b : Bool)
        → x == u ≡ b
        → (any (λ l. l == u) xs ≡ true → P u)
        → b || any (λ l. l == u) xs ≡ true
        → P u
    by_test true same rest e' = rw (sym ((eq_iff x u).0 same)) first
    by_test false other rest e' = rest e'

-- `upper` leaves the names of the levels, which are in capitals, as they are.
abbrev pub FixesLevels : (String → String) → Type 0
FixesLevels upper = AllHave (λ l. upper l ≡ l) valid_levels

ok_same : {A : Type 0} (a b : A) → ok a ≡ ok b → a ≡ b
ok_same a b h = cc

module _ (upper : String → String) (fixes : FixesLevels upper) where
  -- A level that a validated setting names
  abbrev IsLevel : String → Type 0
  IsLevel l = (upper l ≡ l) × (is_some (find_level l level_numbers) ≡ true)

  levels-IsLevel : AllHave IsLevel valid_levels
  levels-IsLevel =
      let (d, (i, (w, (e, (c, _))))) = fixes in
      ((d, refl), ((i, refl), ((w, refl), ((e, refl), ((c, refl), tt)))))

  accepted :
      (u v : String) (b : Bool)
      → any (λ l. l == upper v) valid_levels ≡ b
      → (if b then ok (upper v) else raise value_error) ≡ ok u
      → any (λ l. l == u) valid_levels ≡ true
  accepted u v true e h = rw (sym (ok_same (upper v) u h)) e
  accepted u v false e h = cc

  -- A level that `validate_log_level` gives is validated to itself, and `lifespan` finds its number:
  -- the default `logging.INFO` is never taken for it.
  pub validate_log_level_lem :
      (u v : String)
      → validate_log_level upper v ≡ ok u
      → (validate_log_level upper u ≡ ok u) × (is_some (find_level u level_numbers) ≡ true)
  unfolding validate_log_level
  validate_log_level_lem u v h =
      let found = accepted u v (any (λ l. l == upper v) valid_levels) refl h in
      let (fixed, number) = one_has IsLevel u valid_levels levels-IsLevel found in
      (rw (fixed, found) refl, number)

task_lem :
    (enabled : Bool)
    → (is_some (TaskRunner.start enabled new_runner).task ≡ enabled)
      × ((TaskRunner.stop (TaskRunner.start enabled new_runner)).alive ≡ [])
unfolding TaskRunner.start TaskRunner.stop delete_where
task_lem true = (refl, refl)
task_lem false = (refl, refl)

module _ (events_dlx : String) (queue_specs : List QueueSpec) (settings : Settings) where
  abbrev entered : App
  entered = enter_lifespan events_dlx queue_specs settings new_app

  abbrev left : App
  left = leave_lifespan events_dlx queue_specs settings entered

  -- Within the lifespan of a new application the consumer is started, and the backfill has a task
  -- exactly when it is enabled; after it the broker has been stopped last, no task is alive, and the
  -- container is closed.
  pub lifespan_lem :
      (entered.consumer.started ≡ true)
      × (is_some entered.backfill.task ≡ settings.user_id_backfill_enabled)
      × (left.consumer.started ≡ false)
      × (left.consumer.calls ≡ entered.consumer.calls ++ ConsumerRunner.stop_broker ∷ [])
      × (left.backfill.alive ≡ [])
      × (left.is_closed ≡ true)
  unfolding enter_lifespan leave_lifespan delete_where
  lifespan_lem =
      let (runs, ends) = task_lem settings.user_id_backfill_enabled in
      (refl, runs, refl, refl, ends, refl)
