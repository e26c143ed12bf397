-- ===== src/Migrations/Versions.antt =====
-- The migrations of alembic/versions, in an order in which each follows those it revises.
pub mod Terms
pub mod Early
pub mod BookingTables
pub mod NotificationTables
pub mod Projections
pub mod Roles
pub mod Accounts
pub mod UserIds
pub mod Recent
use event_saver.Prelude.{
  String, Bool, true, false, ◌&&◌, ◌||◌, List, [], ◌∷◌, any, ◌==◌, if◌then◌else◌,
}
use event_saver.Migrations.Schema.{Migration}
use event_saver.Migrations.Versions.Early.{events, hash, nullable_booking_id}
use event_saver.Migrations.Versions.Projections.{projections}
use event_saver.Migrations.Versions.Roles.{
  email_role, meeting_role, telegram_role, is_read, chat_updated_at, booking_times, tracing,
}
use event_saver.Migrations.Versions.Accounts.{
  admin_users, merge_admin, participant_user_id, blacklist,
}
use event_saver.Migrations.Versions.UserIds.{user_ids}
use event_saver.Migrations.Versions.Recent.{
  lifecycle, merge_lifecycle, recipient_email, merge_recipient_email, drop_dedup_index,
}

abbrev pub versions : List Migration
versions =
    events ∷ hash ∷ nullable_booking_id ∷ projections ∷ email_role ∷ meeting_role ∷ telegram_role
    ∷ is_read ∷ chat_updated_at ∷ booking_times ∷ tracing ∷ admin_users ∷ merge_admin
    ∷ participant_user_id ∷ user_ids ∷ lifecycle ∷ merge_lifecycle ∷ recipient_email
    ∷ merge_recipient_email ∷ drop_dedup_index ∷ blacklist ∷ []

abbrev all_in : List String → List String → Bool
all_in done [] = true
all_in done (r ∷ rs) = any (λ d. d == r) done && all_in done rs

-- Every migration stands behind those that it revises.
abbrev pub is_ordered : List String → List Migration → Bool
is_ordered done [] = true
is_ordered done (m ∷ ms) = all_in done m.down_revision && is_ordered (m.revision ∷ done) ms

abbrev pub is_revised : String → List Migration → Bool
is_revised revision [] = false
is_revised revision (m ∷ ms) = any (λ r. r == revision) m.down_revision || is_revised revision ms

-- `alembic heads`: the revisions of the first list that no migration of the second revises
abbrev pub heads : List Migration → List Migration → List String
heads [] all = []
heads (m ∷ ms) all = if is_revised m.revision all then heads ms all else m.revision ∷ heads ms all
