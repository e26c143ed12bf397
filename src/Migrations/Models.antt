-- ===== src/Migrations/Models.antt =====
-- The tables that event_saver/db/models.py declares.
pub mod Bookings
pub mod Notifications
pub mod Events
use event_saver.Prelude.{List, [], ◌∷◌}
use event_saver.Migrations.Schema.{Table}
use event_saver.Migrations.Models.Bookings.{
  events_model, bookings_model, booking_organizer_history_model, booking_meeting_links_model,
}
use event_saver.Migrations.Models.Notifications.{
  booking_email_notifications_model, booking_telegram_notifications_model,
  booking_email_status_history_model,
}
use event_saver.Migrations.Models.Events.{
  booking_chat_events_model, booking_video_events_model, booking_lifecycle_events_model,
  blacklist_entries_model,
}

-- `Base.metadata`
abbrev pub metadata : List Table
metadata =
    events_model ∷ bookings_model ∷ booking_organizer_history_model ∷ booking_meeting_links_model
    ∷ booking_email_notifications_model ∷ booking_telegram_notifications_model
    ∷ booking_email_status_history_model ∷ booking_chat_events_model ∷ booking_video_events_model
    ∷ booking_lifecycle_events_model ∷ blacklist_entries_model ∷ []
