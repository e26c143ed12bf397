-- ===== src/Tests/Extraction.antt =====
-- The theorems on bookings, participants and details, applied to sample values.
use event_saver.Prelude.{
  ◌≡◌, ◌≢◌, refl, String, none, some, [], ◌∷◌, any, find, ◌==◌, if◌then◌else◌,
}
use event_saver.Py.Value.{Fields, end, field, null, str, dict, as_dict, find_field, truthy}
use event_saver.Py.Exception.{ok, raise, attribute_error}
use event_saver.Py.Datetime.{aware}
use event_saver.Domain.Models.{BookingData}
use event_saver.Domain.ParticipantExtractor.{
  extract_participants, lookup_role, participant_step, set_role,
}
use event_saver.Domain.ParticipantExtractor.Laws.{
  last_participants, normalized_participants, extract_participants_lem,
}
use event_saver.Db.Rows.{BookingRecord}
use event_saver.Db.Tables.{Db, empty_db}
use event_saver.Db.Bookings.{organizer_column, upsert_booking, backfill_by_email}
use event_saver.Db.Bookings.Merged.{booking_of, upserted}
use event_saver.Db.Bookings.Upsert.{Upserts, upsert_booking_lem}
use event_saver.Db.Bookings.Backfill.{backfill_by_email_first}
use event_saver.Projections.Classifier.{
  extract_action, extract_action_by_queue, extract_action_by_source, extract_action_by_event_type,
}
use event_saver.Projections.Classifier.Laws.{value_or, extract_action_lem}
use event_saver.Projections.Lifecycle.Pick.{pick, present, fields_or_end, find_field-pick}
use event_saver.Tests.{test_env, created_payload}

abbrev known : BookingRecord
known = record {
  id = 1;
  booking_uid = "booking-1";
  first_seen_at = 500;
  last_seen_at = 2000;
  start_time = some 7000;
  end_time = none;
  current_status = some "created";
  organizer_user_id = some 1;
  client_user_id = none;
}

abbrev known_db : Db
known_db = record empty_db { bookings = known ∷ []; bookings_id_seq = 2 }

abbrev cancelled : BookingData
cancelled = record {
  booking_id = "booking-1";
  start_time = none;
  end_time = none;
  status = some "cancelled";
}

upsert_booking_lem_example :
    let db' = upserted cancelled (aware 1500) none (some 2) known_db in
    (b' : BookingRecord) × (upsert_booking cancelled (aware 1500) none (some 2) known_db
      ≡ ok (some b'.id, db'))
    × (booking_of "booking-1" db'.bookings ≡ some b')
    × Upserts cancelled (aware 1500) none (some 2) 2 (some known) b'
    × ((uid : String)
        → uid ≢ "booking-1"
        → booking_of uid db'.bookings ≡ booking_of uid known_db.bookings)
upsert_booking_lem_example = upsert_booking_lem cancelled (aware 1500) none (some 2) known_db

backfill_by_email_first_example :
    let once = backfill_by_email test_env organizer_column "organizer" "a@b" 2 known_db in
    backfill_by_email test_env organizer_column "organizer" "a@b" 5 once ≡ once
backfill_by_email_first_example =
    backfill_by_email_first test_env organizer_column "organizer" "a@b" 2 5 known_db

extract_participants_lem_example :
    extract_participants test_env created_payload ≡ elim (as_dict created_payload) [
      | none ↦ raise attribute_error
      | some fs ↦
          ok (last_participants test_env (normalized_participants (find_field "normalized" fs)))
    ]
extract_participants_lem_example = extract_participants_lem test_env created_payload

-- What the extractor finds in the sample: the last organizer, and the client.
extract_created :
    extract_participants test_env created_payload
    ≡ ok (record { organizer_user_id = some 1; client_user_id = some 2 })
unfolding extract_participants lookup_role participant_step set_role
extract_created = refl

abbrev original : Fields
original = field "start_time" (str "ten") (field "end_time" null end)

find_field-pick_example :
    find_field "start_time" (fields_or_end (pick original ("start_time" ∷ "end_time" ∷ []))) ≡ (
      if any (λ k. k == "start_time") ("start_time" ∷ "end_time" ∷ [])
      then present (find_field "start_time" original)
      else none)
find_field-pick_example = find_field-pick original ("start_time" ∷ "end_time" ∷ []) "start_time"

by_queue_of_created : extract_action_by_queue test_env "q" "booking.created" (dict end) ≡ ok null
unfolding extract_action_by_queue
by_queue_of_created = refl

by_source_of_created : extract_action_by_source test_env "booking" (dict end) ≡ ok null
unfolding extract_action_by_source
by_source_of_created = refl

extract_action_lem_example :
    let answers = null ∷ null ∷ extract_action_by_event_type test_env "booking.created" ∷ [] in
    extract_action test_env "q" "booking.created" "booking" (dict end)
    ≡ ok (value_or (find truthy answers) (str "booking.created"))
extract_action_lem_example =
    extract_action_lem test_env "q" "booking.created" "booking" (dict end) null null
      by_queue_of_created by_source_of_created
