-- ===== src/Projections/MeetingLink.antt =====
-- event_saver/infrastructure/persistence/projections/meeting_projection.py
use event_saver.Prelude.{ℕ, Bool, ◌||◌, Option, none, some, coalesce, ◌==◌, if◌then◌else◌}
use event_saver.Py.Value.{get, original_or_self}
use event_saver.Py.Exception.{Result, ok, ◌>>=◌}
use event_saver.Py.Datetime.{instant}
use event_saver.Env.{Env}
use event_saver.Domain.Models.{ParsedEvent}
use event_saver.Db.Statement.{Statement, upsert_meeting_link, delete_meeting_link}
use event_saver.Projections.Handling.{HandleArgs}

-- `MeetingLinkProjection._handle_created`
unfoldable pub handle_created : ℕ → ℕ → ParsedEvent → Result (Option Statement)
handle_created booking_ref_id user_id event = do
  original ← original_or_self event.payload
  meeting_url ← get original "meeting_url"
  ok (
      some (
        upsert_meeting_link (record {
          booking_ref_id = booking_ref_id;
          user_id = user_id;
          meeting_url = meeting_url;
          source_event_id = event.event_id;
          occurred_at = instant event.occurred_at;
        })))

module _ (env : Env) where
  -- `MeetingLinkProjection.can_handle`
  unfoldable pub can_handle : ParsedEvent → Bool
  can_handle event =
      event.event_type == env.meeting_url_created || event.event_type == env.meeting_url_deleted

  abbrev handle_for : HandleArgs → Option ℕ → Result (Option Statement)
  handle_for a none = ok none
  handle_for a (some user_id) =
      if a.event.event_type == env.meeting_url_deleted
      then ok (some (delete_meeting_link a.booking_ref_id user_id))
      else handle_created a.booking_ref_id user_id a.event

  -- `MeetingLinkProjection.handle`
  unfoldable pub handle : HandleArgs → Result (Option Statement)
  unfolding handle_created
  handle a = handle_for a (coalesce a.organizer_user_id a.client_user_id)
