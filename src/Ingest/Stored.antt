-- ===== src/Ingest/Stored.antt =====
-- What `save_event` leaves in the events table: use_cases/ingest_event.py with event_store.py.
use event_saver.Prelude.{
  ℕ, ◌≡◌, refl, sym, ◌⊎◌, inl, inr, Bool, true, false, Bool-cases, List, [], ◌∷◌, any,
  if◌then◌else◌,
}
use event_saver.Py.Value.{or_empty}
use event_saver.Py.Exception.{Result, ok, raise, ◌>>=◌}
use event_saver.Py.Datetime.{instant}
use event_saver.Env.{Env}
use event_saver.Domain.Models.{EventAttributes, ParsedEvent}
use event_saver.Domain.EventParser.{parse, parse_occurred_at, compute_payload_hash}
use event_saver.Db.Rows.{Event}
use event_saver.Db.Table.{insert_or_ignore}
use event_saver.Db.Tables.{Db, events_clash}
use event_saver.Db.Keeps.{keeps_logic}
use event_saver.Db.Replays.{replays_logic}
use event_saver.Ingest.Repositories.{event_row}
use event_saver.Ingest.Handlers.{projection_handlers}
use event_saver.Ingest.Walk.{projection_handlers-IsForHandlers}
use event_saver.Ingest.EventStore.{World, save_event}
use event_saver.Ingest.Duplicates.{IsStored, execute_keeps}
use event_saver.Ingest.Atomicity.{IsRolledBack, IsCommitted, save_event_atomic}

abbrev pub IsIn : Event → List Event → Type 0
IsIn row [] = ⊥
IsIn row (e ∷ rows) = (row ≡ e) ⊎ IsIn row rows

-- The columns of the row are the attributes of the event, with its time, its payload (`{}` for none)
-- and the payload's hash as the parser gives them.
pub record IsRowOf (env : Env) (a : EventAttributes) (event : ParsedEvent) (row : Event)
    : Type 0 where
  pub event_id : row.event_id ≡ a.event_id
  pub booking_id : row.booking_id ≡ a.booking_id
  pub event_type : row.event_type ≡ a.event_type
  pub source : row.source ≡ a.source
  pub idempotency_key : row.idempotency_key ≡ a.idempotency_key
  pub trace_id : row.trace_id ≡ a.trace_id
  pub span_id : row.span_id ≡ a.span_id
  pub dataschema : row.dataschema ≡ a.dataschema
  pub occurred_at : row.occurred_at ≡ instant event.occurred_at
  pub payload : row.payload ≡ or_empty a.payload
  pub hash : compute_payload_hash env (or_empty a.payload) ≡ ok row.hash

abbrev IsRead : Env → EventAttributes → Result ParsedEvent → Type 0
IsRead env a (ok event) = IsRowOf env a event (event_row event)
IsRead env a (raise _) = Unit

module _ (env : Env) (a : EventAttributes) where
  IsRead-bind :
      {A : Type 0} (m : Result A) (f : A → Result ParsedEvent)
      → ((x : A) → m ≡ ok x → IsRead env a (f x))
      → IsRead env a (m >>= f)
  IsRead-bind (ok x) f h = h x refl
  IsRead-bind (raise e) f h = tt

  parse-IsRead : (now : ℕ) → IsRead env a (parse env now a)
  unfolding parse
  parse-IsRead now = IsRead-bind (parse_occurred_at env now a.time) _ λ t _.
      IsRead-bind (compute_payload_hash env (or_empty a.payload)) _ λ h hashed. record {
        event_id = refl;
        booking_id = refl;
        event_type = refl;
        source = refl;
        idempotency_key = refl;
        trace_id = refl;
        span_id = refl;
        dataschema = refl;
        occurred_at = refl;
        payload = refl;
        hash = hashed;
      }

  read_of :
      (r : Result ParsedEvent) (event : ParsedEvent)
      → IsRead env a r
      → r ≡ ok event
      → IsRowOf env a event (event_row event)
  read_of (ok e) event h same = ap_ok e event h (cc same)
    where
      ap_ok :
          (x y : ParsedEvent)
          → IsRowOf env a x (event_row x)
          → x ≡ y
          → IsRowOf env a y (event_row y)
      ap_ok x y r e = rw (sym e) r
  read_of (raise e) event h same = cc

  IsIn-insert_or_ignore :
      (row e : Event) (rows : List Event)
      → IsIn row rows
      → IsIn row (insert_or_ignore events_clash e rows)
  unfolding insert_or_ignore
  IsIn-insert_or_ignore row e rows there = by_clash (any (events_clash e) rows)
    where
      by_clash : (b : Bool) → IsIn row (if b then rows else e ∷ rows)
      by_clash true = there
      by_clash false = inr there

  IsIn-inserted :
      (row : Event) (rows : List Event)
      → any (events_clash row) rows ≡ false
      → IsIn row (insert_or_ignore events_clash row rows)
  unfolding insert_or_ignore
  IsIn-inserted row rows free = rw free (inl refl)

  returned :
      (r : Result (Unit {0})) (now : ℕ) (before after : Db)
      → r ≡ ok tt
      → IsRolledBack r before after ⊎ IsCommitted env (projection_handlers env) now a before after
      → IsCommitted env (projection_handlers env) now a before after
  returned r now before after done (inl (e, raised, _)) = cc
  returned r now before after done (inr committed) = committed

  -- When `save_event` returns, however the database has answered, then the events that are committed
  -- include a row whose columns are the event's attributes, its time, its payload (an empty object
  -- for none) and the payload's hash; unless a row was committed before that the unique constraints
  -- set against it.
  pub save_event_stores :
      (event : ParsedEvent) (w : World)
      → parse env w.now a ≡ ok event
      → (save_event env (projection_handlers env) a w).0 ≡ ok tt
      → IsStored (event_row event) w.committed
        ⊎ ((row : Event) × IsIn row
              (save_event env (projection_handlers env) a w).1.committed.events
            × IsRowOf env a event row)
  save_event_stores event w parsed done =
      let row = event_row event in
      let handlers = projection_handlers env in
      elim (Bool-cases (any (events_clash row) w.committed.events)) [
        | inl stored ↦ inl stored
        | inr free ↦
            let (_, after) = returned _ w.now w.committed _ done (
              save_event_atomic env handlers (projection_handlers-IsForHandlers env replays_logic) a
                w) in
            inr (
              row,
              rw after (
                  execute_keeps env handlers (IsIn row) (IsIn-insert_or_ignore row)
                    (projection_handlers-IsForHandlers env (keeps_logic (λ db. IsIn row db.events)))
                    w.now a event w.committed parsed (IsIn-inserted row w.committed.events free)),
              read_of (parse env w.now a) event (parse-IsRead w.now) parsed,
            )
      ]
