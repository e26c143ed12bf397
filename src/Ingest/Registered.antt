-- ===== src/Ingest/Registered.antt =====
-- Bookings are never removed: a registered uid stays registered.
use event_saver.Prelude.{
  ℕ, String, ◌≡◌, refl, ap, ◌∙◌, Bool, true, Option, none, some, List, [], ◌∷◌, arith, any, find,
  ◌==◌, if-either, nat_eq,
}
use event_saver.Py.Exception.{Result, ok, raise}
use event_saver.Py.Datetime.{Datetime}
use event_saver.Env.{Env}
use event_saver.Domain.Models.{BookingData}
use event_saver.Db.Rows.{BookingRecord}
use event_saver.Db.Table.{upsert, update_where, any-update_where}
use event_saver.Db.Tables.{Db, bookings_clash}
use event_saver.Db.Events.{insert_event}
use event_saver.Db.Bookings.{
  RoleColumn, organizer_column, client_column, set_column, merge_booking, upsert_booking,
  update_client_row, insert_organizer_history, backfill_by_email,
}
use event_saver.Db.Bookings.Merged.{upserted, upsert_booking-merged}
use event_saver.Db.Statement.{run_statement}
use event_saver.Db.Statement.Frame.{IsProjectedFrom, run_statement_frame}
use event_saver.Db.Keeps.{Keeps-statement, keeps_logic, IfOk}
use event_saver.Ingest.Repositories.{
  find_by_booking_uid, execute_sql, update_client, save_organizer_history, backfill_sql,
}
use event_saver.Ingest.Walk.{IsForStatements}
use event_saver.Ingest.Consistency.{run_result-Keeps}

-- The bookings hold one of this uid.
abbrev pub IsRegistered : String → Db → Type 0
IsRegistered uid db = any (λ b. b.booking_uid == uid) db.bookings ≡ true

pub find-any :
    (p : BookingRecord → Bool) (rows : List BookingRecord) (b : BookingRecord)
    → find p rows ≡ some b
    → any p rows ≡ true
find-any p [] b e = cc
find-any p (r ∷ rows) b e = ground (arith, find-any p rows b)

any-update_uid :
    (uid : String) (p : BookingRecord → Bool) (f : BookingRecord → BookingRecord)
    (rows : List BookingRecord)
    → ((b : BookingRecord) → (f b).booking_uid ≡ b.booking_uid)
    → any (λ b. b.booking_uid == uid) rows ≡ true
    → any (λ b. b.booking_uid == uid) (update_where p f rows) ≡ true
any-update_uid uid p f rows same h =
    any-update_where (λ b. b.booking_uid == uid) p f rows (λ b _. ap (λ u. u == uid) (same b)) ∙ h

pub upsert_booking-IsRegistered :
    (d : BookingData) (t : Datetime) (o c : Option ℕ) (db : Db)
    → IsRegistered d.booking_id (upserted d t o c db)
upsert_booking-IsRegistered d t o c db =
    find-any (λ b. b.booking_uid == d.booking_id) (upserted d t o c db).bookings _
      (upsert_booking-merged d t o c db).1

upsert_keeps :
    (uid : String) (row : BookingRecord) (rows : List BookingRecord)
    → any (λ b. b.booking_uid == uid) rows ≡ true
    → any (λ b. b.booking_uid == uid) (upsert bookings_clash (merge_booking row) row rows) ≡ true
unfolding upsert merge_booking
upsert_keeps uid row rows h =
    if-either (λ (table : List BookingRecord). any (λ b. b.booking_uid == uid) table ≡ true)
      (any (bookings_clash row) rows)
      (λ _. any-update_uid uid (bookings_clash row) (merge_booking row) rows (λ b. refl) h)
      (λ _. ground (arith, h))

set_column-uid :
    (k : RoleColumn) (u : ℕ) (b : BookingRecord) → (set_column k u b).booking_uid ≡ b.booking_uid
set_column-uid organizer_column u b = refl
set_column-uid client_column u b = refl

frame_ok :
    (uid : String) (before : Db) (r : Result Db)
    → IsRegistered uid before
    → IfOk (IsProjectedFrom before) r
    → IfOk (IsRegistered uid) r
frame_ok uid before (ok after) h frame = rw frame.bookings h
frame_ok uid before (raise e) h frame = tt

module _ (env : Env) (uid : String) where
  backfill_keeps :
      (k : RoleColumn) (email : Option String) (u : ℕ) (db : Db)
      → IsRegistered uid db
      → IsRegistered uid (backfill_sql env k email u db)
  unfolding backfill_by_email
  backfill_keeps k none u db h = h
  backfill_keeps k (some email) u db h =
      any-update_uid uid _ (set_column k u) db.bookings (set_column-uid k u) h

  -- Bookings are never removed.
  pub IsRegistered-IsForStatements : IsForStatements env (keeps_logic (IsRegistered uid))
  unfolding insert_event find_by_booking_uid execute_sql update_client save_organizer_history
      upsert_booking update_client_row insert_organizer_history
  IsRegistered-IsForStatements = record {
    for_insert_event = λ e. Keeps-statement _ (λ db h. h);
    for_upsert_booking = λ d t o c. Keeps-statement _ (λ db h. upsert_keeps uid _ db.bookings h);
    for_select_booking = λ booking. Keeps-statement _ (λ db h. h);
    for_update_client = λ ref client. Keeps-statement _ (λ db h.
        any-update_uid uid (λ b. nat_eq b.id ref) (λ b. record b { client_user_id = some client })
          db.bookings (λ b. refl) h);
    for_backfill = λ k email u. Keeps-statement _ (backfill_keeps k email u);
    for_organizer_history = λ ref u e t.
        Keeps-statement _ (λ db h. if-either (λ (d : Db). IsRegistered uid d) _ (λ _. h) (λ _. h));
    for_projection =
        run_result-Keeps (IsRegistered uid)
          (λ sql db h. frame_ok uid db (run_statement sql db) h (run_statement_frame sql db));
  }
