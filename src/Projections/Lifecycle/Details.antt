-- ===== src/Projections/Lifecycle/Details.antt =====
-- `_extract_details` of lifecycle_projection.py
use event_saver.Prelude.{Option, none, some, [], ◌∷◌, ◌==◌, if◌then◌else◌}
use event_saver.Py.Value.{
  Value, Items, Fields, nil, cons, end, field, str, list, dict, get, get_or, is_text,
}
use event_saver.Py.Exception.{Result, ok, raise, type_error, attribute_error, ◌>>=◌}
use event_saver.Env.{Env}
use event_saver.Domain.Models.{ParsedEvent}
use event_saver.Projections.Lifecycle.Pick.{pick}

-- The values that `for p in participants` yields. The keys of a dict and the characters of a text
-- are texts, which have no `get`: the first pass of the loop raises.
abbrev pub iterate : Value → Result Items
iterate (list xs) = ok xs
iterate (dict end) = ok nil
iterate (dict (field _ _ _)) = raise attribute_error
iterate (str s) = if s == "" then ok nil else raise attribute_error
iterate _ = raise type_error

-- the loop over the participants of a reassigned booking
unfoldable pub find_previous_organizer : Items → Result (Option Fields)
find_previous_organizer nil = ok none
find_previous_organizer (cons p ps) = do
  role ← get p "role"
  if is_text role "previous_organizer"
      then (do user_id ← get p "user_id"; ok (some (field "previous_organizer" user_id end)))
      else find_previous_organizer ps

module _ (env : Env) where
  unfoldable pub extract_details : ParsedEvent → Result (Option Fields)
  unfolding find_previous_organizer pick
  extract_details event = do
    original ← env.unwrap_payload event.payload
    if event.event_type == env.booking_created
        then ok (pick original ("start_time" ∷ "end_time" ∷ []))
        else if event.event_type == env.booking_rescheduled
        then ok (
            pick original (
              "start_time" ∷ "end_time" ∷ "previous_start_time" ∷ "previous_booking_uid"
              ∷ "rescheduled_by" ∷ []))
        else if event.event_type == env.booking_reassigned
        then (do
          normalized ← get_or event.payload "normalized" (dict end)
          participants ← get_or normalized "participants" (list nil)
          items ← iterate participants
          find_previous_organizer items)
        else if event.event_type == env.booking_cancelled
        then ok (pick original ("cancellation_reason" ∷ "cancelled_by" ∷ []))
        else if event.event_type == env.booking_rejected
        then ok (
            pick original (
              "rejection_type" ∷ "rejection_reasons" ∷ "available_from" ∷ "has_active_booking"
              ∷ "active_booking_start" ∷ []))
        else if event.event_type == env.booking_client_reassigned
        then ok (pick original ("new_client_user_id" ∷ "requested_by" ∷ []))
        else ok none
