-- ===== src/Db/Bookings/Upsert.antt =====
-- What `BookingRepository.upsert` does to the bookings.
use event_saver.Prelude.{ℕ, ◌≡◌, ◌≢◌, refl, String, Option, none, some, arith, coalesce, ◌⊎◌, ◌≤◌}
use event_saver.Py.Exception.{ok}
use event_saver.Py.Datetime.{Datetime, instant}
use event_saver.Domain.Models.{BookingData}
use event_saver.Db.Rows.{BookingRecord}
use event_saver.Db.Tables.{Db}
use event_saver.Db.Bookings.{booking_row, option_instant, merge_booking, upsert_booking}
use event_saver.Db.Bookings.Merged.{
  booking_of, merged, upserted, upsert_booking-merged, max_of-cases,
}

-- A column takes the event's value where the event has one, and is left alone where it has none.
abbrev pub Overwrites {ℓ} : {A : Type ℓ} → Option A → Option A → Option A → Type ℓ
Overwrites (some new) old after = after ≡ some new
Overwrites none old after = after ≡ old

coalesce-Overwrites {ℓ} : {A : Type ℓ} (new old : Option A) → Overwrites new old (coalesce new old)
coalesce-Overwrites (some a) old = refl
coalesce-Overwrites none old = refl

module _ (d : BookingData) (t : Datetime) (o c : Option ℕ) where
  -- how an event that is seen at `t` leaves a booking that is there
  pub record Overwritten (b b' : BookingRecord) : Type 0 where
    pub id : b'.id ≡ b.id
    pub booking_uid : b'.booking_uid ≡ b.booking_uid
    pub first_seen_at : b'.first_seen_at ≡ b.first_seen_at
    pub not_before : b.last_seen_at ≤ b'.last_seen_at
    pub not_before_event : instant t ≤ b'.last_seen_at
    pub last_seen_at : (b'.last_seen_at ≡ b.last_seen_at) ⊎ (b'.last_seen_at ≡ instant t)
    pub start_time : Overwrites (option_instant d.start_time) b.start_time b'.start_time
    pub end_time : Overwrites (option_instant d.end_time) b.end_time b'.end_time
    pub current_status : Overwrites d.status b.current_status b'.current_status
    pub organizer_user_id : Overwrites o b.organizer_user_id b'.organizer_user_id
    pub client_user_id : Overwrites c b.client_user_id b'.client_user_id

  -- the booking that an event brings into the table under a number
  pub record IsFresh (id : ℕ) (b : BookingRecord) : Type 0 where
    pub numbered : b.id ≡ id
    pub booking_uid : b.booking_uid ≡ d.booking_id
    pub first_seen_at : b.first_seen_at ≡ instant t
    pub last_seen_at : b.last_seen_at ≡ instant t
    pub start_time : b.start_time ≡ option_instant d.start_time
    pub end_time : b.end_time ≡ option_instant d.end_time
    pub current_status : b.current_status ≡ d.status
    pub organizer_user_id : b.organizer_user_id ≡ o
    pub client_user_id : b.client_user_id ≡ c

  abbrev pub Upserts : ℕ → Option BookingRecord → BookingRecord → Type 0
  Upserts id none b' = IsFresh id b'
  Upserts id (some b) b' = Overwritten b b'

  merged-Upserts :
      (id : ℕ) (there : Option BookingRecord)
      → Upserts id there (merged (booking_row id d t o c) there)
  unfolding merge_booking
  merged-Upserts id none = record {
    numbered = refl;
    booking_uid = refl;
    first_seen_at = refl;
    last_seen_at = refl;
    start_time = refl;
    end_time = refl;
    current_status = refl;
    organizer_user_id = refl;
    client_user_id = refl;
  }
  merged-Upserts id (some b) = record {
    id = refl;
    booking_uid = refl;
    first_seen_at = refl;
    not_before = ground arith;
    not_before_event = ground arith;
    last_seen_at = max_of-cases b.last_seen_at (instant t);
    start_time = coalesce-Overwrites (option_instant d.start_time) b.start_time;
    end_time = coalesce-Overwrites (option_instant d.end_time) b.end_time;
    current_status = coalesce-Overwrites d.status b.current_status;
    organizer_user_id = coalesce-Overwrites o b.organizer_user_id;
    client_user_id = coalesce-Overwrites c b.client_user_id;
  }

  -- After an upsert a booking of that uid is there and its id is given back. Where none was there
  -- before, it has the next number and the event's values. Where one was there, it keeps its id, its
  -- uid and `first_seen_at`, its `last_seen_at` is the later of its own and the event's, and its
  -- times, status and users are the event's where the event has them and the old ones where it has
  -- none. Every other booking is what it was.
  pub upsert_booking_lem :
      (db : Db)
      → let db' = upserted d t o c db in
        (b' : BookingRecord) × (upsert_booking d t o c db ≡ ok (some b'.id, db'))
        × (booking_of d.booking_id db'.bookings ≡ some b')
        × Upserts db.bookings_id_seq (booking_of d.booking_id db.bookings) b'
        × ((uid : String)
            → uid ≢ d.booking_id
            → booking_of uid db'.bookings ≡ booking_of uid db.bookings)
  upsert_booking_lem db =
      let there = booking_of d.booking_id db.bookings in
      let (returned, found, others) = upsert_booking-merged d t o c db in
      (
        merged (booking_row db.bookings_id_seq d t o c) there,
        returned,
        found,
        merged-Upserts db.bookings_id_seq there,
        others,
      )

-- What a booking keeps when it grows: its id and first sighting stay, the last
-- sighting does not go back, and a start, status or user that is set stays set.
abbrev pub StaysSet {ℓ} : {A : Type ℓ} → Option A → Option A → Type ℓ
StaysSet {A = A} (some _) after = (a : A) × (after ≡ some a)
StaysSet none after = Unit

pub record Grows (b b' : BookingRecord) : Type 0 where
  pub id : b'.id ≡ b.id
  pub first_seen_at : b'.first_seen_at ≡ b.first_seen_at
  pub last_seen_at : b.last_seen_at ≤ b'.last_seen_at
  pub start_time : StaysSet b.start_time b'.start_time
  pub end_time : StaysSet b.end_time b'.end_time
  pub current_status : StaysSet b.current_status b'.current_status
  pub organizer_user_id : StaysSet b.organizer_user_id b'.organizer_user_id
  pub client_user_id : StaysSet b.client_user_id b'.client_user_id
