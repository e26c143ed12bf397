-- ===== src/Domain/ParticipantExtractor.antt =====
-- event_saver/domain/services/participant_extractor.py
pub mod Laws
use event_saver.Prelude.{
  ℕ, String, Option, none, some, List, [], ◌∷◌, ◌||◌, not, Bool, ◌==◌, if◌then◌else◌,
}
use event_saver.Py.Value.{
  Value, Fields, Items, nil, cons, list, dict, uuid, str, get, or_else, find_field, field_or_null,
  as_dict, as_list, as_str, is_text,
}
use event_saver.Py.Exception.{Result, ok, raise, ◌>>=◌}
use event_saver.Env.{Env}
use event_saver.Domain.Models.{Participants}

-- `user_id_by_role`
abbrev pub UserIdByRole : Type 0
UserIdByRole = List (String × ℕ)

unfoldable pub lookup_role : String → UserIdByRole → Option ℕ
lookup_role role [] = none
lookup_role role ((r, u) ∷ m) = if r == role then some u else lookup_role role m

-- `user_id_by_role[role] = user_id`
unfoldable pub set_role : String → ℕ → UserIdByRole → UserIdByRole
set_role role user_id [] = (role, user_id) ∷ []
set_role role user_id ((r, u) ∷ m) =
    if r == role then (role, user_id) ∷ m else (r, u) ∷ set_role role user_id m

abbrev pub no_participants : Participants
no_participants = record { organizer_user_id = none; client_user_id = none }

module _ (env : Env) where
  -- `_parse_uuid`
  unfoldable pub parse_uuid : Value → Option ℕ
  parse_uuid (uuid u) = some u
  parse_uuid (str s) = env.uuid_of s
  parse_uuid _ = none

  abbrev pub is_participant_role : String → Bool
  is_participant_role role = role == env.role_organizer || role == env.role_client

  -- what one pass of the loop does with a dict's `role` and `user_id`
  unfoldable pub record_participant : Option String → Option ℕ → UserIdByRole → UserIdByRole
  record_participant (some role) (some user_id) m =
      if is_participant_role role then set_role role user_id m else m
  record_participant _ _ m = m

  abbrev pub participant_entry : Option Fields → UserIdByRole → UserIdByRole
  participant_entry none m = m
  participant_entry (some p) m =
      record_participant (as_str (field_or_null "role" p)) (parse_uuid (field_or_null "user_id" p))
        m

  unfoldable pub participant_step : Value → UserIdByRole → UserIdByRole
  unfolding parse_uuid record_participant
  participant_step p m = participant_entry (as_dict p) m

  unfoldable pub participant_loop : Items → UserIdByRole → UserIdByRole
  participant_loop nil m = m
  participant_loop (cons p ps) m = participant_loop ps (participant_step p m)

  abbrev pub participants_from : Option Items → Participants
  participants_from none = no_participants
  participants_from (some participants_data) =
      let user_id_by_role = participant_loop participants_data [] in
      record {
        organizer_user_id = lookup_role env.role_organizer user_id_by_role;
        client_user_id = lookup_role env.role_client user_id_by_role;
      }

  abbrev pub from_normalized : Option Fields → Participants
  from_normalized none = no_participants
  from_normalized (some normalized) =
      participants_from (as_list (or_else (find_field "participants" normalized) (list nil)))

  -- `ParticipantExtractor.extract`
  unfoldable pub extract_participants : Value → Result Participants
  unfolding participant_loop
  extract_participants payload = do
    normalized ← get payload "normalized"
    ok (from_normalized (as_dict normalized))
