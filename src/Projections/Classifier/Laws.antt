-- ===== src/Projections/Classifier/Laws.antt =====
-- How `BookingTimelineClassifier.extract_action` chooses among its extractors.
use event_saver.Prelude.{
  ◌≡◌, refl, String, Bool, true, false, Option, none, some, List, [], ◌∷◌, find, if◌then◌else◌,
}
use event_saver.Py.Value.{Value, str, truthy}
use event_saver.Py.Exception.{ok}
use event_saver.Env.{Env}
use event_saver.Projections.Classifier.{
  or_next, extract_action_by_queue, extract_action_by_source, extract_action_by_event_type,
  extract_action,
}

abbrev pub value_or : Option Value → Value → Value
value_or none default_ = default_
value_or (some v) default_ = v

or_next-find :
    (v default_ : Value) (vs : List Value)
    → or_next v (ok (value_or (find truthy vs) default_))
      ≡ ok (value_or (find truthy (v ∷ vs)) default_)
or_next-find v default_ vs = go (truthy v)
  where
    go :
        (b : Bool)
        → (if b then ok v else ok (value_or (find truthy vs) default_))
          ≡ ok (value_or (if b then some v else find truthy vs) default_)
    go true = refl
    go false = refl

-- Where the extractors by queue and by source answer, the action is the first answer that is truthy,
-- of those by queue, by source and by event type in this order, and the event type where all three
-- are falsy.
pub extract_action_lem :
    (env : Env) (queue_name event_type source : String) (payload by_queue by_source : Value)
    → extract_action_by_queue env queue_name event_type payload ≡ ok by_queue
    → extract_action_by_source env source payload ≡ ok by_source
    → let by_event_type = extract_action_by_event_type env event_type in
      let answers = by_queue ∷ by_source ∷ by_event_type ∷ [] in
      extract_action env queue_name event_type source payload
      ≡ ok (value_or (find truthy answers) (str event_type))
unfolding extract_action
extract_action_lem env queue_name event_type source payload by_queue by_source asked_q asked_s =
    let by_event_type = extract_action_by_event_type env event_type in
    rw
      (
        asked_q,
        asked_s,
        or_next-find by_event_type (str event_type) [],
        or_next-find by_source (str event_type) (by_event_type ∷ []),
      )
      (or_next-find by_queue (str event_type) (by_source ∷ by_event_type ∷ []))
