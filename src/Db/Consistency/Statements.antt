-- ===== src/Db/Consistency/Statements.antt =====
-- Every statement of the repositories and the projections keeps the database consistent.
use event_saver.Prelude.{ℕ, ◌+◌, ◌≡◌, refl, String, Bool, true, false, Option, ◌∷◌, if◌then◌else◌}
use event_saver.Py.Datetime.{Datetime}
use event_saver.Env.{Env}
use event_saver.Domain.Models.{BookingData}
use event_saver.Db.Rows.{Event, BookingRecord, BookingOrganizerHistory}
use event_saver.Db.Table.{
  update_where, insert_or_ignore-IsUnique, update_where, update_where-IsUnique, upsert-IsUnique,
}
use event_saver.Db.Tables.{Db, events_clash, bookings_clash}
use event_saver.Db.Keeps.{KeepsResult}
use event_saver.Db.Events.{insert_event}
use event_saver.Db.Bookings.{
  RoleColumn, organizer_column, client_column, booking_row, upsert_booking, merge_booking,
  update_client_row, backfill_by_email, set_column, insert_organizer_history, organizer_history_row,
}
use event_saver.Db.Consistency.{
  IsConsistent, update_where-IsNumbered, upsert-IsNumbered, cons-IsNumbered,
}

-- `assumption` takes the constraints of the tables that a statement leaves alone from `c`.
pub insert_event-IsConsistent :
    (e : Event) (db : Db) → IsConsistent db → KeepsResult IsConsistent (insert_event e db)
unfolding insert_event
insert_event-IsConsistent e db c =
    assumption (insert_or_ignore-IsUnique events_clash e db.events c.events)

pub upsert_booking-IsConsistent :
    (d : BookingData) (t : Datetime) (o cl : Option ℕ) (db : Db)
    → IsConsistent db
    → KeepsResult IsConsistent (upsert_booking d t o cl db)
unfolding upsert_booking
upsert_booking-IsConsistent d t o cl db c =
    let row = booking_row db.bookings_id_seq d t o cl in
    let merge = merge_booking row in
    assumption (
      upsert-IsUnique bookings_clash merge row db.bookings (λ s u _. refl) (λ s u _. refl)
          c.bookings,
      upsert-IsNumbered (λ b. b.id) bookings_clash merge row db.bookings_id_seq db.bookings refl
          (λ s. refl) c.booking_ids,
    )

-- An update of bookings that changes neither uid nor id.
module _ (p : BookingRecord → Bool) (f : BookingRecord → BookingRecord)
    (same_uid : (b : BookingRecord) → (f b).booking_uid ≡ b.booking_uid)
    (same_id : (b : BookingRecord) → (f b).id ≡ b.id) where
  update_bookings-IsConsistent :
      (db : Db)
      → IsConsistent db
      → IsConsistent (record db { bookings = update_where p f db.bookings })
  update_bookings-IsConsistent db c = assumption (
    update_where-IsUnique bookings_clash p f db.bookings (λ r s _. rw (same_uid r))
        (λ r s _. rw (same_uid s)) c.bookings,
    update_where-IsNumbered (λ b. b.id) db.bookings_id_seq p f db.bookings same_id c.booking_ids,
  )

pub update_client_row-IsConsistent :
    (ref client : ℕ) (db : Db) → IsConsistent db → IsConsistent (update_client_row ref client db)
unfolding update_client_row
update_client_row-IsConsistent ref client db c =
    update_bookings-IsConsistent _ _ (λ b. refl) (λ b. refl) db c

set_column-uid :
    (k : RoleColumn) (u : ℕ) (b : BookingRecord) → (set_column k u b).booking_uid ≡ b.booking_uid
set_column-uid organizer_column u b = refl
set_column-uid client_column u b = refl

set_column-id : (k : RoleColumn) (u : ℕ) (b : BookingRecord) → (set_column k u b).id ≡ b.id
set_column-id organizer_column u b = refl
set_column-id client_column u b = refl

pub set_column-IsConsistent :
    (p : BookingRecord → Bool) (k : RoleColumn) (u : ℕ) (db : Db)
    → IsConsistent db
    → IsConsistent (record db { bookings = update_where p (set_column k u) db.bookings })
set_column-IsConsistent p k u db c =
    update_bookings-IsConsistent p (set_column k u) (set_column-uid k u) (set_column-id k u) db c

pub backfill_by_email-IsConsistent :
    (env : Env) (k : RoleColumn) (role email : String) (u : ℕ) (db : Db)
    → IsConsistent db
    → IsConsistent (backfill_by_email env k role email u db)
unfolding backfill_by_email
backfill_by_email-IsConsistent env k role email u db c = set_column-IsConsistent _ k u db c

add_organizer_history-IsConsistent :
    (h : BookingOrganizerHistory) (db : Db)
    → h.id ≡ db.organizer_history_id_seq
    → IsConsistent db
    → IsConsistent (record db {
      organizer_history = h ∷ db.organizer_history;
      organizer_history_id_seq = db.organizer_history_id_seq + 1;
    })
add_organizer_history-IsConsistent h db e c = assumption (
    cons-IsNumbered (λ i. i.id) h db.organizer_history_id_seq db.organizer_history e
      c.organizer_history_ids)

if-both : (P : Db → Type 0) (b : Bool) {x y : Db} → P x → P y → P (if b then x else y)
if-both P true hx hy = hx
if-both P false hx hy = hy

pub insert_organizer_history-IsConsistent :
    (ref u : ℕ) (e : String) (t : Datetime) (db : Db)
    → IsConsistent db
    → IsConsistent (insert_organizer_history ref u e t db)
unfolding insert_organizer_history
insert_organizer_history-IsConsistent ref u e t db c =
    if-both IsConsistent _
      (add_organizer_history-IsConsistent
        (organizer_history_row ref u e t db.organizer_history_id_seq) db refl c)
      c
