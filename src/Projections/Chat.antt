-- ===== src/Projections/Chat.antt =====
-- event_saver/infrastructure/persistence/projections/chat_projection.py
pub mod Laws
use event_saver.Prelude.{
  ℕ, zero, suc, String, Bool, false, true, ◌||◌, ◌&&◌, Option, none, some, ◌==◌, if◌then◌else◌,
}
use event_saver.Py.Value.{Value, get, as_str, as_dict, field_or_null, original_or_self}
use event_saver.Py.Exception.{Result, ok, ◌>>=◌}
use event_saver.Py.Datetime.{instant}
use event_saver.Env.{Env}
use event_saver.Domain.Models.{ParsedEvent}
use event_saver.Db.Statement.{Statement, insert_chat_event, update_chat_read}
use event_saver.Projections.Classifier.{extract_action}
use event_saver.Projections.Handling.{HandleArgs, first_participant_user_id}

-- `text[:n]`, by characters
unfoldable pub take_chars : ℕ → String → String
take_chars zero text = ""
take_chars (suc n) String.[] = ""
take_chars (suc n) (String.◌∷◌ c text) = String.◌∷◌ c (take_chars n text)

-- `message.get("id")` or `message.get("text")` if it is a text
abbrev pub message_text : Value → String → Option String
message_text message key = elim (as_dict message) [
  | none ↦ none
  | some fs ↦ as_str (field_or_null key fs)
]

-- `ChatEventProjection._extract_message_id`
unfoldable pub extract_message_id : Value → Result (Option String)
extract_message_id payload = do
  original ← original_or_self payload
  message_id ← get original "message_id"
  elim (as_str message_id) [
    | some id ↦ ok (some id)
    | none ↦ do message ← get original "message"; ok (message_text message "id")
  ]

abbrev pub preview_of : Option String → Option String
preview_of none = none
preview_of (some text) = some (take_chars 512 text)

-- `ChatEventProjection._extract_text_preview`
unfoldable pub extract_text_preview : Value → Result (Option String)
unfolding take_chars
extract_text_preview payload = do
  original ← original_or_self payload
  message ← get original "message"
  ok (preview_of (message_text message "text"))

module _ (env : Env) where
  -- `ChatEventProjection.can_handle`
  unfoldable pub can_handle_chat : ParsedEvent → Bool
  can_handle_chat event =
      if event.source == env.source_getstream
      then true
      else if event.source == env.source_booking
      then event.event_type == env.chat_created
        || (event.event_type == env.chat_deleted || event.event_type == env.chat_message_sent)
      else false

  -- `ChatEventProjection.handle`
  unfoldable pub handle_chat : HandleArgs → Result (Option Statement)
  unfolding extract_message_id extract_text_preview
  handle_chat a = do
    chat_event_type ←
        extract_action env a.queue_name a.event.event_type a.event.source a.event.payload
    message_id ← extract_message_id a.event.payload
    user_id ← first_participant_user_id env a.event.payload a.participants
    text_preview ← extract_text_preview a.event.payload
    ok (
        some (
          insert_chat_event (record {
            booking_ref_id = a.booking_ref_id;
            raw_event_id = a.event.event_id;
            provider = a.event.source;
            chat_event_type = chat_event_type;
            message_id = message_id;
            user_id = user_id;
            text_preview = text_preview;
            occurred_at = instant a.event.occurred_at;
          })))

  -- `ChatReadUpdateProjection.can_handle`
  unfoldable pub can_handle_chat_read : ParsedEvent → Bool
  can_handle_chat_read event =
      event.source == env.source_getstream && event.event_type == env.getstream_message_read

  -- `ChatReadUpdateProjection.handle`
  unfoldable pub handle_chat_read : HandleArgs → Result (Option Statement)
  handle_chat_read a = do
    reader ← first_participant_user_id env a.event.payload a.participants
    elim reader [
      | none ↦ ok none
      | some reader_user_id ↦ do
        original ← original_or_self a.event.payload
        last_read_message_id ← get original "last_read_message_id"
        ok (
            some (
              update_chat_read (record {
                booking_ref_id = a.booking_ref_id;
                reader_user_id = reader_user_id;
                last_read_message_id = last_read_message_id;
                read_occurred_at = instant a.event.occurred_at;
              })))
    ]
