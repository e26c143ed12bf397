-- ===== src/Ingest/Handlers.antt =====
-- `provide_projection_handlers` of event_saver/ioc.py: the handlers, in the order in which they run.
use event_saver.Prelude.{List, [], ◌∷◌}
use event_saver.Env.{Env}
use event_saver.Db.Session.{lift}
use event_saver.Projections.MeetingLink
use event_saver.Projections.Notification
use event_saver.Projections.Chat
use event_saver.Projections.Video
use event_saver.Projections.Lifecycle
use event_saver.Ingest.ProjectionExecutor.{ProjectionHandler}

module _ (env : Env) where
  abbrev pub meeting_link : ProjectionHandler
  meeting_link = record {
    can_handle = MeetingLink.can_handle env;
    handle = λ a. lift (MeetingLink.handle env a);
  }

  abbrev pub email_notification : ProjectionHandler
  email_notification = record {
    can_handle = Notification.can_handle_email env;
    handle = λ a. lift (Notification.handle_email env a);
  }

  abbrev pub telegram_notification : ProjectionHandler
  telegram_notification = record {
    can_handle = Notification.can_handle_telegram env;
    handle = λ a. lift (Notification.handle_telegram env a);
  }

  abbrev pub email_status_history : ProjectionHandler
  email_status_history = record {
    can_handle = Notification.can_handle_status_history env;
    handle = λ a. lift (Notification.handle_status_history env a);
  }

  abbrev pub chat_event : ProjectionHandler
  chat_event = record {
    can_handle = Chat.can_handle_chat env;
    handle = λ a. lift (Chat.handle_chat env a);
  }

  abbrev pub chat_read_update : ProjectionHandler
  chat_read_update = record {
    can_handle = Chat.can_handle_chat_read env;
    handle = λ a. lift (Chat.handle_chat_read env a);
  }

  abbrev pub video_event : ProjectionHandler
  video_event = record {
    can_handle = Video.can_handle env;
    handle = λ a. lift (Video.handle env a);
  }

  abbrev pub lifecycle : ProjectionHandler
  lifecycle = record { can_handle = Lifecycle.can_handle env; handle = Lifecycle.handle env }

  unfoldable pub projection_handlers : List ProjectionHandler
  projection_handlers =
      meeting_link ∷ email_notification ∷ telegram_notification ∷ email_status_history ∷ chat_event
      ∷ chat_read_update ∷ video_event ∷ lifecycle ∷ []
