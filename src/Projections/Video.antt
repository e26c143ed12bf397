-- ===== src/Projections/Video.antt =====
-- event_saver/infrastructure/persistence/projections/video_projection.py
use event_saver.Prelude.{String, Bool, ◌||◌, Option, none, some, if◌then◌else◌}
use event_saver.Py.Value.{
  Value, end, field, null, bool, str, list, dict, get, as_str, as_dict, is_text, field_or_null,
  original_or_self,
}
use event_saver.Py.Exception.{Result, ok, raise, type_error, ◌>>=◌}
use event_saver.Py.Datetime.{Datetime}
use event_saver.Env.{Env}
use event_saver.Domain.Models.{ParsedEvent}
use event_saver.Domain.EventParser.{parse_iso_datetime}
use event_saver.Db.Bookings.{option_instant}
use event_saver.Db.Statement.{Statement, insert_video_event}
use event_saver.Projections.Classifier.{
  extract_action, remove_prefix, is_jitsi_event_type, jitsi_prefix,
}
use event_saver.Projections.Handling.{HandleArgs, user_id_for_role}

abbrev str_or_null : Option String → Value
str_or_null none = null
str_or_null (some s) = str s

-- `_extract_participant_role`
unfoldable pub extract_participant_role : Value → Result (Option String)
extract_participant_role payload = do
  original ← original_or_self payload
  context ← get original "context"
  ok (elim (as_dict context) [
    | none ↦ none
    | some ctx ↦ elim (as_dict (field_or_null "user" ctx)) [
      | none ↦ none
      | some user ↦ as_str (field_or_null "role" user)
    ]
  ])

-- `{"muted": muted} if isinstance(muted, bool) else {}`
abbrev project_muted : Value → Value
project_muted (bool b) = dict (field "muted" (bool b) end)
project_muted _ = dict end

-- `{"devices": devices} if isinstance(devices, dict) else {}`
abbrev project_devices : Value → Value
project_devices (dict fs) = dict (field "devices" (dict fs) end)
project_devices _ = dict end

module _ (env : Env) where
  -- the action of a Jitsi event type
  abbrev action_name : String → String
  action_name event_type = remove_prefix event_type jitsi_prefix

  -- `_extract_event_time`
  unfoldable pub extract_event_time : Value → Result (Option Datetime)
  extract_event_time payload = do
    original ← original_or_self payload
    time ← get original "time"
    ok (parse_iso_datetime env time)

  -- `_project_payload`; `_MUTE_ACTIONS`, `_DEVICE_ACTION` and `_CONFERENCE_ACTIONS` are its tests.
  -- A value that cannot be hashed is no candidate for membership in a set.
  unfoldable pub project_payload : Value → Value → Result Value
  project_payload (list _) payload = do original ← original_or_self payload; raise type_error
  project_payload (dict _) payload = do original ← original_or_self payload; raise type_error
  project_payload video_event_type payload = do
    original ← original_or_self payload
    if is_text video_event_type (action_name env.jitsi_audio_mute_status_changed)
          || is_text video_event_type (action_name env.jitsi_video_mute_status_changed)
        then (do muted ← get original "muted"; ok (project_muted muted))
        else if is_text video_event_type (action_name env.jitsi_device_list_changed)
        then (do devices ← get original "devices"; ok (project_devices devices))
        else if is_text video_event_type (action_name env.jitsi_conference_joined)
            || is_text video_event_type (action_name env.jitsi_conference_left)
        then ok (dict end)
        else ok original

  -- `VideoEventProjection.can_handle`
  unfoldable pub can_handle : ParsedEvent → Bool
  can_handle event = is_jitsi_event_type env event.event_type

  -- `VideoEventProjection.handle`
  unfoldable pub handle : HandleArgs → Result (Option Statement)
  unfolding extract_participant_role extract_event_time project_payload
  handle a = do
    video_event_type ←
        extract_action env a.queue_name a.event.event_type env.source_jitsi a.event.payload
    participant_role ← extract_participant_role a.event.payload
    event_time ← extract_event_time a.event.payload
    payload ← project_payload video_event_type a.event.payload
    ok (
        some (
          insert_video_event (record {
            booking_ref_id = a.booking_ref_id;
            raw_event_id = a.event.event_id;
            video_event_type = video_event_type;
            participant_role = participant_role;
            user_id = user_id_for_role env (str_or_null participant_role) a.participants;
            event_time = option_instant event_time;
            payload = payload;
          })))
