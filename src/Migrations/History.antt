-- ===== src/Migrations/History.antt =====
-- The whole history, from a database that uses none of the service's names.
use event_saver.Prelude.{Bool, true, false, ◌&&◌, Option, none, some, List, [], ◌∷◌}
use event_saver.Migrations.Schema.{Schema, Migration, run, and_then}
use event_saver.Migrations.Drift.{Difference, missing_column, extra_column, extra_constraint}
use event_saver.Migrations.Frame.{are_free_of}

abbrev schema_or_nothing : Option Schema → Schema
schema_or_nothing none = []
schema_or_nothing (some s) = s

abbrev is_done : Option Schema → Bool
is_done none = false
is_done (some s) = true

-- `alembic upgrade heads`
unfoldable pub upgrade_all : List Migration → Schema → Option Schema
unfolding run
upgrade_all [] s = some s
upgrade_all (m ∷ ms) s = and_then (run m.upgrade s) (λ s'. upgrade_all ms s')

abbrev pub all_free_of : Schema → List Migration → Bool
all_free_of s [] = true
all_free_of s (m ∷ ms) = are_free_of s m.upgrade && all_free_of s ms

-- `BookingOrganizerHistory.organizer_user_id` may be null in the database, and the models leave most
-- foreign keys undeclared.
abbrev pub known_drift : List Difference
known_drift =
    missing_column "booking_organizer_history" "organizer_user_id"
    ∷ extra_column "booking_organizer_history" "organizer_user_id"
    ∷ extra_constraint "booking_organizer_history" "booking_organizer_history_source_event_id_fkey"
    ∷ extra_constraint "booking_organizer_history" "booking_organizer_history_booking_ref_id_fkey"
    ∷ extra_constraint "booking_meeting_links" "booking_meeting_links_source_event_id_fkey"
    ∷ extra_constraint "booking_meeting_links" "booking_meeting_links_booking_ref_id_fkey"
    ∷ extra_constraint "booking_email_notifications"
        "booking_email_notifications_last_status_event_id_fkey"
    ∷ extra_constraint "booking_email_notifications"
        "booking_email_notifications_sent_event_id_fkey"
    ∷ extra_constraint "booking_email_notifications"
        "booking_email_notifications_booking_ref_id_fkey"
    ∷ extra_constraint "booking_telegram_notifications"
        "booking_telegram_notifications_source_event_id_fkey"
    ∷ extra_constraint "booking_telegram_notifications"
        "booking_telegram_notifications_booking_ref_id_fkey"
    ∷ extra_constraint "booking_email_status_history"
        "booking_email_status_history_source_event_id_fkey"
    ∷ extra_constraint "booking_email_status_history"
        "booking_email_status_history_notification_ref_id_fkey"
    ∷ extra_constraint "booking_chat_events" "booking_chat_events_raw_event_id_fkey"
    ∷ extra_constraint "booking_chat_events" "booking_chat_events_booking_ref_id_fkey"
    ∷ extra_constraint "booking_video_events" "booking_video_events_raw_event_id_fkey"
    ∷ extra_constraint "booking_video_events" "booking_video_events_booking_ref_id_fkey"
    ∷ []
