-- ===== src/Projections/Handling.antt =====
-- What handlers are given (projections/base.py) and the role lookups that they share.
use event_saver.Prelude.{ℕ, String, Option, none, some, if◌then◌else◌}
use event_saver.Py.Value.{
  Value, Items, nil, cons, list, get, get_or, as_dict, as_list, is_text, field_or_null,
}
use event_saver.Py.Exception.{Result, ok, ◌>>=◌}
use event_saver.Env.{Env}
use event_saver.Domain.Models.{ParsedEvent, Participants}

-- The keyword arguments of `handle`.
pub record HandleArgs : Type 0 where
  pub event : ParsedEvent
  pub booking_ref_id : ℕ
  pub participants : Participants
  pub open participants use *
  pub queue_name : String

module _ (env : Env) where
  -- `_user_id_for_role` of notification_projection.py, `_resolve_participant_user_id` of
  -- video_projection.py: the participant that plays a role
  unfoldable pub user_id_for_role : Value → Participants → Option ℕ
  user_id_for_role role ps =
      if is_text role env.role_organizer
      then ps.organizer_user_id
      else if is_text role env.role_client
      then ps.client_user_id
      else none

  abbrev first_participant : Items → Participants → Option ℕ
  first_participant nil ps = none
  first_participant (cons first _) ps = elim (as_dict first) [
    | none ↦ none
    | some fs ↦ user_id_for_role (field_or_null "role" fs) ps
  ]

  -- `_extract_participant_user_id` and `_extract_reader_user_id` of chat_projection.py, which are
  -- one text
  unfoldable pub first_participant_user_id : Value → Participants → Result (Option ℕ)
  unfolding user_id_for_role
  first_participant_user_id payload ps = do
    normalized ← get payload "normalized"
    elim (as_dict normalized) [
      | none ↦ ok none
      | some _ ↦ do
        participants ← get_or normalized "participants" (list nil)
        elim (as_list participants) [
          | none ↦ ok none
          | some items ↦ ok (first_participant items ps)
        ]
    ]
