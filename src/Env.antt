-- ===== src/Env.antt =====
-- What the service takes from code outside the repository: the package `event_schemas` (event
-- types, sources, roles, queue names, `unwrap_payload`) and
-- library functions of Python and PostgreSQL on texts.
use event_saver.Prelude.{ℕ, String, Option, List}
use event_saver.Py.Value.{Value, Fields}
use event_saver.Py.Exception.{Result}
use event_saver.Py.Datetime.{Datetime}

-- `event_schemas`: `EventType`, `SourceType`, `RecipientRole`, `queues`, `envelope`.
pub record EventSchemas : Type 0 where
  pub booking_created : String
  pub booking_rescheduled : String
  pub booking_reassigned : String
  pub booking_cancelled : String
  pub booking_rejected : String
  pub booking_client_reassigned : String
  pub user_synced : String
  pub chat_created : String
  pub chat_deleted : String
  pub chat_message_sent : String
  pub getstream_message_read : String
  pub meeting_url_created : String
  pub meeting_url_deleted : String
  pub notification_email_sent : String
  pub notification_telegram_sent : String
  pub unisender_status_created : String
  pub jitsi_audio_mute_status_changed : String
  pub jitsi_video_mute_status_changed : String
  pub jitsi_device_list_changed : String
  pub jitsi_conference_joined : String
  pub jitsi_conference_left : String
  -- the values of the whole enumeration `EventType`
  pub event_types : List String
  pub source_booking : String
  pub source_getstream : String
  pub source_jitsi : String
  pub role_organizer : String
  pub role_client : String
  -- `BOOKING_LIFECYCLE_SAVER_QUEUE.name`
  pub booking_lifecycle_saver_queue : String
  -- the dict of the original payload
  pub unwrap_payload : Value → Result Fields

-- Library functions; `none` stands for the `ValueError` (`TypeError` of `json.dumps`) they raise.
pub record Library : Type 0 where
  pub uuid_of : String → Option ℕ
  pub from_iso_format : String → Option Datetime
  pub str_of : Value → String
  -- `json.dumps(payload, sort_keys=True, ensure_ascii=False)`
  pub dumps_sorted : Value → Option String
  pub md5_hexdigest : String → String
  -- PostgreSQL's `lower`, and the text that `->>` gives for a JSON value that is no string
  pub lower : String → String
  pub json_text : Value → String

pub record Env : Type 0 where
  pub schemas : EventSchemas
  pub open schemas use *
  pub library : Library
  pub open library use *
