-- ===== src/Domain.antt =====
-- event_saver/domain: value objects and the services that parse events and read their payloads.
pub mod Models
pub mod EventParser
pub mod BookingExtractor
pub mod ParticipantExtractor
