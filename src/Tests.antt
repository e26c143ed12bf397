-- ===== src/Tests.antt =====
-- Sample values for the examples: an environment with the texts that the service is run with, and
-- one message.
pub mod Ingestion
pub mod Extraction
pub mod Outages
pub mod Statements
pub mod Backfills
pub mod Schemas
pub mod Applications
use event_saver.Prelude.{
  ℕ, String, Bool, true, false, Option, none, some, List, [], ◌∷◌, ◌==◌, if◌then◌else◌,
}
use event_saver.Py.Value.{
  Value, Items, Fields, nil, cons, end, field, null, str, list, dict, as_dict,
}
use event_saver.Py.Exception.{Result, ok, operational_error}
use event_saver.Py.Datetime.{Datetime, aware, naive}
use event_saver.Env.{Env, EventSchemas, Library}
use event_saver.Domain.Models.{EventAttributes}
use event_saver.Db.Tables.{Db, empty_db}
use event_saver.Db.Session.{Reply, fails, answers}
use event_saver.Ingest.EventStore.{World}
use event_saver.Consumer.{CloudEvent, attributes_of}

abbrev original_of : Value → Result Fields
original_of (dict (field k (dict fs) rest)) =
    ok (if k == "original" then fs else field k (dict fs) rest)
original_of (dict fs) = ok fs
original_of _ = ok end

abbrev pub test_schemas : EventSchemas
test_schemas = record {
  booking_created = "booking.created";
  booking_rescheduled = "booking.rescheduled";
  booking_reassigned = "booking.reassigned";
  booking_cancelled = "booking.cancelled";
  booking_rejected = "booking.rejected";
  booking_client_reassigned = "booking.client_reassigned";
  user_synced = "user.synced";
  chat_created = "chat.created";
  chat_deleted = "chat.deleted";
  chat_message_sent = "chat.message_sent";
  getstream_message_read = "getstream.message_read";
  meeting_url_created = "meeting.url_created";
  meeting_url_deleted = "meeting.url_deleted";
  notification_email_sent = "notification.email.message_sent";
  notification_telegram_sent = "notification.telegram.message_sent";
  unisender_status_created = "unisender.status.created";
  jitsi_audio_mute_status_changed = "jitsi.audio_mute_status_changed";
  jitsi_video_mute_status_changed = "jitsi.video_mute_status_changed";
  jitsi_device_list_changed = "jitsi.device_list_changed";
  jitsi_conference_joined = "jitsi.conference_joined";
  jitsi_conference_left = "jitsi.conference_left";
  event_types = "booking.created" ∷ "chat.created" ∷ [];
  source_booking = "booking";
  source_getstream = "getstream";
  source_jitsi = "jitsi";
  role_organizer = "organizer";
  role_client = "client";
  booking_lifecycle_saver_queue = "events.booking.lifecycle.saver";
  unwrap_payload = original_of;
}

abbrev test_uuid_of : String → Option ℕ
test_uuid_of s = if s == "user-1" then some 1 else if s == "user-2" then some 2 else none

abbrev test_from_iso_format : String → Option Datetime
test_from_iso_format s =
    if s == "2026-01-01T10:00:00+00:00"
    then some (aware 1000)
    else if s == "2026-01-01T10:00:00"
    then some (naive 1000)
    else none

abbrev test_str_of : Value → String
test_str_of (str s) = s
test_str_of _ = "?"

abbrev pub test_env : Env
test_env = record {
  schemas = test_schemas;
  library = record {
    uuid_of = test_uuid_of;
    from_iso_format = test_from_iso_format;
    str_of = test_str_of;
    dumps_sorted = λ v. some (test_str_of v);
    md5_hexdigest = λ s. s;
    lower = λ s. s;
    json_text = test_str_of;
  };
}

abbrev pub participant : String → String → Value
participant role user_id = dict (field "role" (str role) (field "user_id" (str user_id) end))

abbrev pub created_payload : Value
created_payload = dict (
    field "original"
      (dict (field "start_time" (str "2026-01-01T10:00:00") (field "end_time" null end)))
      (field "normalized"
        (dict (
          field "participants"
            (list (
              cons (participant "organizer" "user-2") (
                cons (participant "client" "user-2")
                  (cons (participant "organizer" "user-1") nil))))
            end))
        end))

abbrev pub created_event : CloudEvent
created_event = record {
  id = "event-1";
  type = "booking.created";
  source = "booking";
  time = str "2026-01-01T10:00:00+00:00";
  booking_id = some "booking-1";
  payload = created_payload;
  idempotencykey = some "key-1";
  traceid = none;
  spanid = none;
  dataschema = none;
}

abbrev pub lifecycle_queue : String
lifecycle_queue = "events.booking.lifecycle.saver"

abbrev pub created : EventAttributes
created = attributes_of lifecycle_queue created_event

-- A world with an empty database whose first statement fails.
abbrev pub flaky_world : World
flaky_world = record {
  committed = empty_db;
  replies = fails operational_error ∷ [];
  metrics = [];
  now = 5;
}
