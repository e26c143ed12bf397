-- ===== src/Projections.antt =====
-- event_saver/infrastructure/persistence/projections: handlers that turn an event into at most one
-- SQL statement, and the classifier of event_saver/adapters/event_classification.py.
pub mod Classifier
pub mod Handling
pub mod MeetingLink
pub mod Notification
pub mod Chat
pub mod Video
pub mod Lifecycle
