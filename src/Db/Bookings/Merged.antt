-- ===== src/Db/Bookings/Merged.antt =====
-- The row that `BookingRepository.upsert` leaves, from the one that was there.
use event_saver.Prelude.{
  ℕ, ◌≡◌, ◌≢◌, refl, ◌∙◌, String, true, false, Option, none, some, List, [], ◌∷◌, any, find, arith,
  eq_iff, eq_refl, max_of, ltb, ◌==◌, ◌⊎◌, inl, inr, Bool-cases,
}
use event_saver.Py.Exception.{ok, raise}
use event_saver.Py.Datetime.{Datetime}
use event_saver.Domain.Models.{BookingData}
use event_saver.Db.Rows.{BookingRecord}
use event_saver.Db.Table.{update_where, upsert}
use event_saver.Db.Tables.{Db, bookings_clash}
use event_saver.Db.Bookings.{booking_row, merge_booking, upsert_booking}

-- The booking that a uid names.
abbrev pub booking_of : String → List BookingRecord → Option BookingRecord
booking_of uid = find (λ b. b.booking_uid == uid)

-- The row that an upsert leaves, from the one that was there.
abbrev pub merged : BookingRecord → Option BookingRecord → BookingRecord
merged row none = row
merged row (some b) = merge_booking row b

module _ (f : BookingRecord → BookingRecord)
    (same : (b : BookingRecord) → (f b).booking_uid ≡ b.booking_uid) where
  abbrev map_booking : Option BookingRecord → Option BookingRecord
  map_booking none = none
  map_booking (some b) = some (f b)

  booking_of-update_self :
      (row : BookingRecord) (rows : List BookingRecord)
      → booking_of row.booking_uid (update_where (bookings_clash row) f rows)
        ≡ map_booking (booking_of row.booking_uid rows)
  unfolding update_where
  booking_of-update_self row [] = refl
  booking_of-update_self row (b ∷ rows) = ground (
    arith,
    same b,
    eq_iff row.booking_uid b.booking_uid,
    eq_iff b.booking_uid row.booking_uid,
    booking_of-update_self row rows,
  )

  booking_of-update_ne :
      (row : BookingRecord) (uid : String) (rows : List BookingRecord)
      → uid ≢ row.booking_uid
      → booking_of uid (update_where (bookings_clash row) f rows) ≡ booking_of uid rows
  unfolding update_where
  booking_of-update_ne row uid [] ne = refl
  booking_of-update_ne row uid (b ∷ rows) ne = ground (
    arith,
    same b,
    eq_iff row.booking_uid b.booking_uid,
    eq_iff b.booking_uid uid,
    booking_of-update_ne row uid rows,
  )

booking_of-fresh :
    (row : BookingRecord) (rows : List BookingRecord)
    → any (bookings_clash row) rows ≡ false
    → booking_of row.booking_uid rows ≡ none
booking_of-fresh row [] h = refl
booking_of-fresh row (b ∷ rows) h = ground (
  arith,
  eq_iff row.booking_uid b.booking_uid,
  eq_iff b.booking_uid row.booking_uid,
  booking_of-fresh row rows,
)

booking_of-taken :
    (row : BookingRecord) (rows : List BookingRecord)
    → any (bookings_clash row) rows ≡ true
    → (b : BookingRecord) × (booking_of row.booking_uid rows ≡ some b)
booking_of-taken row [] h = cc
booking_of-taken row (b ∷ rows) h = elim (Bool-cases (b.booking_uid == row.booking_uid)) [
  | inl same ↦ (b, rw same)
  | inr other ↦ rw other (
      booking_of-taken row rows (
        ground (arith, eq_iff row.booking_uid b.booking_uid, eq_iff b.booking_uid row.booking_uid)))
]

pub max_of-cases : (m n : ℕ) → (max_of m n ≡ m) ⊎ (max_of m n ≡ n)
max_of-cases m n = elim (Bool-cases (ltb m n)) [
  | inl e ↦ inr (ground arith)
  | inr e ↦ inl (ground arith)
]

merge_booking-uid : (row b : BookingRecord) → (merge_booking row b).booking_uid ≡ b.booking_uid
unfolding merge_booking
merge_booking-uid row b = refl

booking_of-upsert :
    (row : BookingRecord) (rows : List BookingRecord)
    → booking_of row.booking_uid (upsert bookings_clash (merge_booking row) row rows)
      ≡ some (merged row (booking_of row.booking_uid rows))
unfolding upsert
booking_of-upsert row rows = elim (Bool-cases (any (bookings_clash row) rows)) [
  | inl taken ↦
      let (b, found) = booking_of-taken row rows taken in
      rw taken
        (booking_of-update_self (merge_booking row) (merge_booking-uid row) row rows ∙ rw found)
  | inr free ↦ rw (free, eq_refl row.booking_uid, booking_of-fresh row rows free)
]

booking_of-upsert_ne :
    (row : BookingRecord) (uid : String) (rows : List BookingRecord)
    → uid ≢ row.booking_uid
    → booking_of uid (upsert bookings_clash (merge_booking row) row rows) ≡ booking_of uid rows
unfolding upsert
booking_of-upsert_ne row uid rows ne = elim (Bool-cases (any (bookings_clash row) rows)) [
  | inl taken ↦
      rw taken (booking_of-update_ne (merge_booking row) (merge_booking-uid row) row uid rows ne)
  | inr free ↦ rw free (ground (arith, eq_iff row.booking_uid uid))
]

-- The database and the id that an upsert gives.
abbrev pub upserted : BookingData → Datetime → Option ℕ → Option ℕ → Db → Db
upserted d t o c db = elim (upsert_booking d t o c db) [ ok (_, db') ↦ db' | raise _ ↦ db ]

pub upsert_booking-merged :
    (d : BookingData) (t : Datetime) (o c : Option ℕ) (db : Db)
    → let row = booking_row db.bookings_id_seq d t o c in
      let b = merged row (booking_of d.booking_id db.bookings) in
      let db' = upserted d t o c db in
      (upsert_booking d t o c db ≡ ok (some b.id, db'))
      × (booking_of d.booking_id db'.bookings ≡ some b)
      × ((uid : String)
          → uid ≢ d.booking_id
          → booking_of uid db'.bookings ≡ booking_of uid db.bookings)
unfolding upsert_booking
upsert_booking-merged d t o c db =
    let row = booking_row db.bookings_id_seq d t o c in
    (
      rw (booking_of-upsert row db.bookings),
      booking_of-upsert row db.bookings,
      λ uid ne. booking_of-upsert_ne row uid db.bookings ne,
    )
