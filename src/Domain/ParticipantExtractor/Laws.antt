-- ===== src/Domain/ParticipantExtractor/Laws.antt =====
-- What `ParticipantExtractor.extract` finds, told from the end of the list.
use event_saver.Prelude.{
  ℕ, ◌≡◌, refl, ◌∙◌, ap, String, true, Option, none, some, [], ◌∷◌, arith, coalesce, eq_iff,
  eq_refl, ◌==◌, if◌then◌else◌,
}
use event_saver.Py.Value.{
  Value, Items, Fields, nil, cons, null, list, dict, as_dict, as_str, as_list, or_else, find_field,
  field_or_null,
}
use event_saver.Py.Exception.{ok, raise, attribute_error}
use event_saver.Env.{Env}
use event_saver.Domain.Models.{Participants}
use event_saver.Domain.ParticipantExtractor.{
  UserIdByRole, lookup_role, set_role, parse_uuid, is_participant_role, record_participant,
  participant_entry, participants_from, from_normalized, participant_step, participant_loop,
  extract_participants,
}

lookup_role-set_role :
    (r role : String) (u : ℕ) (m : UserIdByRole)
    → lookup_role r (set_role role u m) ≡ (if role == r then some u else lookup_role r m)
unfolding lookup_role set_role
lookup_role-set_role r role u [] = refl
lookup_role-set_role r role u ((s, v) ∷ m) =
    ground (arith, eq_iff role r, eq_iff s role, eq_iff s r, lookup_role-set_role r role u m)

-- `normalized.participants`, or no entries if that is no list
abbrev pub list_or_nil : Option Value → Items
list_or_nil (some (list items)) = items
list_or_nil _ = nil

abbrev pub normalized_participants : Option Value → Items
normalized_participants (some (dict fs)) = list_or_nil (find_field "participants" fs)
normalized_participants _ = nil

module _ (env : Env) where
  -- the user that an entry names for a role
  abbrev pub user_of_text : String → Option String → Option ℕ → Option ℕ
  user_of_text r (some role) u = if role == r then u else none
  user_of_text r none u = none

  abbrev pub user_of_dict : String → Option Fields → Option ℕ
  user_of_dict r none = none
  user_of_dict r (some fs) =
      user_of_text r (as_str (field_or_null "role" fs))
        (parse_uuid env (field_or_null "user_id" fs))

  -- The last entry that names a user for the role decides.
  pub last_user_for : String → Items → Option ℕ
  last_user_for r nil = none
  last_user_for r (cons p ps) = coalesce (last_user_for r ps) (user_of_dict r (as_dict p))

  module _ (r : String) (participant : is_participant_role env r ≡ true) where
    record_lookup :
        (role : Option String) (u : Option ℕ) (m : UserIdByRole)
        → lookup_role r (record_participant env role u m)
          ≡ coalesce (user_of_text r role u) (lookup_role r m)
    unfolding record_participant
    record_lookup none u m = refl
    record_lookup (some role) none m = ground arith
    record_lookup (some role) (some u) m =
        ground (arith, lookup_role-set_role r role u m, eq_iff role r, participant)

    step_lookup :
        (o : Option Fields) (m : UserIdByRole)
        → lookup_role r (participant_entry env o m) ≡ coalesce (user_of_dict r o) (lookup_role r m)
    step_lookup none m = refl
    step_lookup (some fs) m = record_lookup _ _ m

    coalesce_assoc : (a b c : Option ℕ) → coalesce a (coalesce b c) ≡ coalesce (coalesce a b) c
    coalesce_assoc none b c = refl
    coalesce_assoc (some x) b c = refl

    loop_lookup :
        (ps : Items) (m : UserIdByRole)
        → lookup_role r (participant_loop env ps m)
          ≡ coalesce (last_user_for r ps) (lookup_role r m)
    unfolding participant_loop participant_step last_user_for
    loop_lookup nil m = refl
    loop_lookup (cons p ps) m =
        loop_lookup ps (participant_step env p m)
        ∙ ap (coalesce (last_user_for r ps)) (step_lookup (as_dict p) m)
        ∙ coalesce_assoc (last_user_for r ps) (user_of_dict r (as_dict p)) (lookup_role r m)

  coalesce-none : (o : Option ℕ) → coalesce o none ≡ o
  coalesce-none none = refl
  coalesce-none (some u) = refl

  loop_from_empty :
      (r : String) (ps : Items)
      → is_participant_role env r ≡ true
      → lookup_role r (participant_loop env ps []) ≡ last_user_for r ps
  unfolding lookup_role
  loop_from_empty r ps h = loop_lookup r h ps [] ∙ coalesce-none (last_user_for r ps)

  abbrev pub last_participants : Items → Participants
  last_participants items = record {
    organizer_user_id = last_user_for env.role_organizer items;
    client_user_id = last_user_for env.role_client items;
  }

  extract_from : (items : Items) → participants_from env (some items) ≡ last_participants items
  extract_from items = rw (
    loop_from_empty env.role_organizer items (rw (eq_refl env.role_organizer)),
    loop_from_empty env.role_client items (ground (arith, eq_refl env.role_client)),
  )

  from_value :
      (v : Value) → participants_from env (as_list v) ≡ last_participants (list_or_nil (some v))
  unfolding last_user_for
  from_value (list items) = extract_from items
  from_value null = refl
  from_value _ = refl

  from_entry :
      (o : Option Value)
      → participants_from env (as_list (or_else o (list nil))) ≡ last_participants (list_or_nil o)
  unfolding last_user_for
  from_entry (some v) = from_value v
  from_entry none = extract_from nil

  from_normalized_lem :
      (o : Option Value)
      → from_normalized env (as_dict (or_else o null))
        ≡ last_participants (normalized_participants o)
  unfolding last_user_for
  from_normalized_lem (some (dict fs)) = from_entry (find_field "participants" fs)
  from_normalized_lem (some null) = refl
  from_normalized_lem (some _) = refl
  from_normalized_lem none = refl

  -- From a payload that is a dict the extractor gives, for each of the two roles, the user of the
  -- last entry of `normalized.participants` that names a valid one, and nobody if there is none
  -- or if that is no list; any other payload raises AttributeError.
  pub extract_participants_lem :
      (payload : Value)
      → extract_participants env payload ≡ elim (as_dict payload) [
        | none ↦ raise attribute_error
        | some fs ↦ ok (last_participants (normalized_participants (find_field "normalized" fs)))
      ]
  unfolding extract_participants
  extract_participants_lem (dict fs) = ap ok (from_normalized_lem (find_field "normalized" fs))
  extract_participants_lem null = refl
  extract_participants_lem _ = refl
