-- ===== src/Projections/Lifecycle.antt =====
-- event_saver/infrastructure/persistence/projections/lifecycle_projection.py
pub mod Pick
pub mod Details
use event_saver.Prelude.{String, Bool, Option, none, some, is_some, ◌==◌, if◌then◌else◌}
use event_saver.Py.Datetime.{instant}
use event_saver.Env.{Env}
use event_saver.Domain.Models.{ParsedEvent}
use event_saver.Db.Session.{Tx, pure, lift, count, booking_lifecycle_total, ◌>>=◌, ◌>>◌}
use event_saver.Db.Statement.{Statement, insert_lifecycle_event}
use event_saver.Projections.Handling.{HandleArgs}
use Details.{extract_details}

module _ (env : Env) where
  -- `_ACTION_MAP.get(event_type)`, whose keys are `_LIFECYCLE_TYPES`
  unfoldable pub action_of : String → Option String
  action_of event_type =
      if event_type == env.booking_created
      then some "created"
      else if event_type == env.booking_rescheduled
      then some "rescheduled"
      else if event_type == env.booking_reassigned
      then some "reassigned"
      else if event_type == env.booking_cancelled
      then some "cancelled"
      else if event_type == env.booking_rejected
      then some "rejected"
      else if event_type == env.booking_client_reassigned
      then some "client_reassigned"
      else none

  -- `LifecycleProjection.can_handle`
  unfoldable pub can_handle : ParsedEvent → Bool
  unfolding action_of
  can_handle event = is_some (action_of event.event_type)

  abbrev pub handle_action : HandleArgs → Option String → Tx (Option Statement)
  handle_action a none = pure none
  handle_action a (some action) = do
    details ← lift (extract_details env a.event)
    count (booking_lifecycle_total action)
    pure (
        some (
          insert_lifecycle_event (record {
            booking_ref_id = a.booking_ref_id;
            raw_event_id = a.event.event_id;
            action = action;
            organizer_user_id = a.organizer_user_id;
            client_user_id = a.client_user_id;
            details = details;
            occurred_at = instant a.event.occurred_at;
          })))

  -- `LifecycleProjection.handle`
  unfoldable pub handle : HandleArgs → Tx (Option Statement)
  unfolding action_of extract_details
  handle a = handle_action a (action_of a.event.event_type)
