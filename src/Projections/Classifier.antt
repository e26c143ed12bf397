-- ===== src/Projections/Classifier.antt =====
-- event_saver/adapters/event_classification.py
pub mod Laws
use text.Mathlib.Text.{starts_with}
use Prim.Native.Char.{code}
use event_saver.Prelude.{
  String, Bool, true, false, ◌&&◌, Option, none, some, List, any, keep, nat_eq, ◌==◌, if◌then◌else◌,
}
use event_saver.Py.Value.{Value, null, str, truthy, get, original_or_self}
use event_saver.Py.Exception.{Result, ok, raise, ◌>>=◌}
use event_saver.Env.{Env}

-- `text.removeprefix(prefix)`
unfoldable pub drop_chars : String → String → String
drop_chars String.[] text = text
drop_chars (String.◌∷◌ _ p) String.[] = ""
drop_chars (String.◌∷◌ _ p) (String.◌∷◌ _ t) = drop_chars p t

unfoldable pub remove_prefix : String → String → String
unfolding drop_chars
remove_prefix text prefix = if starts_with text prefix then drop_chars prefix text else text

abbrev pub jitsi_prefix : String
jitsi_prefix = "jitsi."

-- `a or b`, where `b` is computed only if needed
abbrev or_next : Value → Result Value → Result Value
or_next v next = if truthy v then ok v else next

module _ (env : Env) where
  -- `event_type in _JITSI_EVENT_TYPES`
  unfoldable pub is_jitsi_event_type : String → Bool
  is_jitsi_event_type event_type =
      any (λ t. t == event_type) (keep (λ t. starts_with t jitsi_prefix) env.event_types)

  unfoldable pub extract_action_by_queue_chat : Value → Result Value
  extract_action_by_queue_chat payload = do
    original ← original_or_self payload
    stream_type ← get original "type"
    ok (if truthy stream_type then stream_type else null)

  unfoldable pub extract_action_by_queue_jitsi : String → Value
  unfolding is_jitsi_event_type remove_prefix
  extract_action_by_queue_jitsi event_type =
      if is_jitsi_event_type event_type then str (remove_prefix event_type jitsi_prefix) else null

  unfoldable pub extract_action_by_source : String → Value → Result Value
  extract_action_by_source source payload =
      if source == env.source_getstream
      then (do original ← original_or_self payload; get original "type")
      else ok null

  unfoldable pub extract_action_by_event_type : String → Value
  extract_action_by_event_type event_type =
      if event_type == env.unisender_status_created then str "transactional.status" else null

  -- the extractor chosen by the queue's name
  unfoldable pub extract_action_by_queue : String → String → Value → Result Value
  unfolding extract_action_by_queue_chat extract_action_by_queue_jitsi
  extract_action_by_queue queue_name event_type payload =
      if queue_name == "events.chat"
      then extract_action_by_queue_chat payload
      else if queue_name == "events.jitsi"
      then ok (extract_action_by_queue_jitsi event_type)
      else ok null

  -- `BookingTimelineClassifier.extract_action`
  unfoldable pub extract_action : String → String → String → Value → Result Value
  unfolding extract_action_by_queue extract_action_by_source extract_action_by_event_type
  extract_action queue_name event_type source payload = do
    by_queue ← extract_action_by_queue queue_name event_type payload
    or_next by_queue (do
      by_source ← extract_action_by_source source payload
      or_next by_source (or_next (extract_action_by_event_type event_type) (ok (str event_type))))
