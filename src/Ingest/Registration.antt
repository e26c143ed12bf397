-- ===== src/Ingest/Registration.antt =====
-- `IngestEventUseCase.execute` registers the booking that an event names.
use event_saver.Prelude.{
  ℕ, String, ◌≡◌, refl, sym, ap, ◌∙◌, true, false, Option, none, some, List, [], ◌∷◌, any, ◌==◌,
  if-either,
}
use event_saver.Py.Exception.{Result, ok, raise}
use event_saver.Py.Datetime.{Datetime}
use event_saver.Env.{Env}
use event_saver.Domain.Models.{ParsedEvent, EventAttributes, BookingData, Participants}
use event_saver.Domain.EventParser.{parse}
use event_saver.Domain.BookingExtractor.{extract_booking}
use event_saver.Domain.ParticipantExtractor.{extract_participants}
use event_saver.Db.Rows.{BookingRecord}
use event_saver.Db.Table.{insert_or_ignore}
use event_saver.Db.Tables.{Db, events_clash}
use event_saver.Db.Session.{Reply, answers, fails, lost, reply_to, Tx, pure, continue, Session}
use event_saver.Db.Events.{insert_event}
use event_saver.Db.Bookings.{select_booking, id_of_booking}
use event_saver.Db.Bookings.Merged.{booking_of, upserted, upsert_booking-merged}
use event_saver.Db.Keeps.{keeps_logic}
use event_saver.Ingest.Repositories
use event_saver.Py.Value.{Value, Fields}
use event_saver.Ingest.Repositories.{
  event_row, save, find_by_booking_uid, get_or_none, execute_sql, update_client,
  save_organizer_history, backfill_sql,
}
use event_saver.Ingest.Handlers.{projection_handlers}
use event_saver.Ingest.UseCase.{
  register_booking, booking_reference, process_booking, process_new, execute, non_empty,
}
use event_saver.Ingest.Walk.{
  execute_projections-holds, history_for-holds, reassign_client-holds,
  projection_handlers-IsForHandlers,
}
use event_saver.Ingest.Registered.{
  IsRegistered, find-any, upsert_booking-IsRegistered, IsRegistered-IsForStatements,
}

-- What holds of the result and the database if the coroutine has returned.
abbrev pub Reached : {A : Type 0} → (A → Db → Type 0) → Result A × Session → Type 0
Reached Q (ok a, s) = Q a s.db
Reached Q (raise _, s) = Unit

bind-Reached :
    {A B : Type 0} (Q : A → Db → Type 0) (P : B → Db → Type 0) (r : Result A × Session)
    (f : A → Tx B)
    → Reached Q r
    → ((a : A) (s : Session) → Q a s.db → Reached P (f a s))
    → Reached P (continue r.0 f r.1)
bind-Reached Q P (ok a, s) f q next = next a s q
bind-Reached Q P (raise e, s) f q next = tt

any-Reached : {A : Type 0} (r : Result A × Session) → Reached (λ _ _. Unit) r
any-Reached (ok a, s) = tt
any-Reached (raise e, s) = tt

kept-Reached :
    {A : Type 0} (P : Db → Type 0) (r : Result A × Session) → P r.1.db → Reached (λ _. P) r
kept-Reached P (ok a, s) h = h
kept-Reached P (raise e, s) h = tt

reply-Reached :
    {A : Type 0} (Q : A → Db → Type 0) (replies : List Reply) (sql : Db → Result (A × Db)) (a : A)
    (db' : Db) (s : Session)
    → sql s.db ≡ ok (a, db')
    → Q a db'
    → Reached Q (reply_to replies sql s)
reply-Reached Q [] sql a db' s e q = rw e q
reply-Reached Q (answers ∷ rest) sql a db' s e q = rw e q
reply-Reached Q (fails x ∷ rest) sql a db' s e q = tt
reply-Reached Q (lost x ∷ rest) sql a db' s e q = tt

module _ (env : Env) (uid : String) where
  extract-Reached :
      (r : Result Fields) (event_type : String) (payload : Value) (s : Session)
      → env.unwrap_payload payload ≡ r
      → Reached (λ d _. d.booking_id ≡ uid) (extract_booking env uid event_type payload, s)
  unfolding extract_booking
  extract-Reached (ok original) event_type payload s e = rw e refl
  extract-Reached (raise x) event_type payload s e = rw e tt

  IsRegistered-as : (u : String) (db : Db) → u ≡ uid → IsRegistered u db → IsRegistered uid db
  IsRegistered-as u db e h = ap (λ v. any (λ b. b.booking_uid == v) db.bookings) (sym e) ∙ h

  upsert-Reached :
      (d : BookingData) (t : Datetime) (ps : Participants) (s : Session)
      → d.booking_id ≡ uid
      → Reached (λ _. IsRegistered uid) (Repositories.upsert d t ps s)
  unfolding Repositories.upsert
  upsert-Reached d t ps s e =
      bind-Reached (λ _. IsRegistered uid) (λ _. IsRegistered uid) _ _
        (reply-Reached _ s.replies _ _ (upserted d t ps.organizer_user_id ps.client_user_id s.db) s
          (upsert_booking-merged d t ps.organizer_user_id ps.client_user_id s.db).0
          (IsRegistered-as d.booking_id (upserted d t ps.organizer_user_id ps.client_user_id s.db) e
            (upsert_booking-IsRegistered d t ps.organizer_user_id ps.client_user_id s.db)))
        (λ row s' h. kept-Reached (IsRegistered uid) _ h)

  register-Reached :
      (event : ParsedEvent) (ps : Participants) (s : Session)
      → Reached (λ _. IsRegistered uid) (register_booking env event uid ps s)
  unfolding register_booking
  register-Reached event ps s =
      let L = keeps_logic (IsRegistered uid) in
      let sql = IsRegistered-IsForStatements env uid in
      bind-Reached (λ d _. d.booking_id ≡ uid) _ _ _
        (extract-Reached (env.unwrap_payload event.payload) event.event_type event.payload s refl)
        (λ d s1 named.
          bind-Reached (λ _. IsRegistered uid) _ _ _
            (upsert-Reached d event.occurred_at ps s1 named)
            (λ ref s2 h. kept-Reached (IsRegistered uid) _ (
              (L.holds_bind _ _ _ _ (history_for-holds sql event ref ps.organizer_user_id) (λ _.
                  L.holds_bind _ _ _ _ (reassign_client-holds sql event ref ps)
                    (λ ps'. L.holds_pure _ (ref, ps')))).at
                s2 h)))

  -- a reference that is found is a registered booking's
  abbrev IsFound : Option ℕ → Db → Type 0
  IsFound none db = Unit
  IsFound (some ref) db = IsRegistered uid db

  select-IsFound :
      (o : Option BookingRecord) (db : Db)
      → booking_of uid db.bookings ≡ o
      → IsFound (id_of_booking o) db
  select-IsFound none db e = tt
  select-IsFound (some b) db e = find-any (λ c. c.booking_uid == uid) db.bookings b e

  get_or_none-IsFound :
      (queue : String) (s : Session) → Reached IsFound (get_or_none env uid queue s)
  unfolding get_or_none find_by_booking_uid select_booking
  get_or_none-IsFound queue s =
      if-either (λ (m : Tx (Option ℕ)). Reached IsFound (m s))
        (queue == env.booking_lifecycle_saver_queue) (λ _. tt)
        (λ _.
          reply-Reached IsFound s.replies _ _ s.db s refl
            (select-IsFound (booking_of uid s.db.bookings) s.db refl))

  reference-Reached :
      (event : ParsedEvent) (ps : Participants) (found : Option ℕ) (s : Session)
      → IsFound found s.db
      → Reached (λ _. IsRegistered uid) (booking_reference env event uid ps found s)
  unfolding pure
  reference-Reached event ps none s h = register-Reached event ps s
  reference-Reached event ps (some ref) s h = h

  process-Reached :
      (queue : String) (event : ParsedEvent) (s : Session)
      → Reached
          (λ _. IsRegistered uid)
          (process_booking env (projection_handlers env) queue event uid s)
  unfolding process_booking
  process-Reached queue event s =
      bind-Reached (λ _ _. Unit) _ _ _ (any-Reached (extract_participants env event.payload, s))
        (λ ps s1 _. bind-Reached IsFound _ _ _ (get_or_none-IsFound queue s1) (λ found s2 h.
          bind-Reached (λ _. IsRegistered uid) _ _ _ (reference-Reached event ps found s2 h)
            (λ r s3 k. kept-Reached (IsRegistered uid) _ (
              (execute_projections-holds (IsRegistered-IsForStatements env uid)
                  (projection_handlers env) _
                  (projection_handlers-IsForHandlers env (keeps_logic (IsRegistered uid)))).at
                s3 k))))

module _ (env : Env) where
  save_new :
      (event : ParsedEvent) (s : Session)
      → any (events_clash (event_row event)) s.db.events ≡ false
      → Reached (λ inserted _. inserted ≡ true) (save event s)
  unfolding save insert_event
  save_new event s fresh =
      reply-Reached (λ inserted _. inserted ≡ true) s.replies _ true
        (record s.db { events = insert_or_ignore events_clash (event_row event) s.db.events }) s
        (rw fresh refl) refl

  process_new-Reached :
      (queue : String) (event : ParsedEvent) (uid : String) (s : Session)
      → event.event_type == env.user_synced ≡ false
      → non_empty event.booking_id ≡ some uid
      → Reached (λ _. IsRegistered uid) (process_new env (projection_handlers env) queue event s)
  unfolding process_new
  process_new-Reached queue event uid s other named =
      rw (other, named) (process-Reached env uid queue event _)

  -- For an event that parses, is not stored yet, names a booking and is no `user.synced`: if the
  -- use case returns, that booking is among the bookings, whatever the queue is and however the
  -- database answers.
  pub execute-IsRegistered :
      (now : ℕ) (a : EventAttributes) (event : ParsedEvent) (uid : String) (s : Session)
      → parse env now a ≡ ok event
      → any (events_clash (event_row event)) s.db.events ≡ false
      → event.event_type == env.user_synced ≡ false
      → non_empty event.booking_id ≡ some uid
      → Reached (λ _. IsRegistered uid) (execute env (projection_handlers env) now a s)
  unfolding execute
  execute-IsRegistered now a event uid s parsed fresh other named = rw parsed (
      bind-Reached (λ inserted _. inserted ≡ true) (λ _. IsRegistered uid) _ _
        (save_new event s fresh)
        (λ inserted s' e. rw e (process_new-Reached a.queue_name event uid s' other named)))
