-- ===== src/Db/Statement/Links.antt =====
-- The meeting links as a map from a booking and a user, by the two statements of
-- meeting_projection.py.
use event_saver.Prelude.{
  ℕ, String, Bool, ◌&&◌, Option, some, List, find, nat_eq, sql_eq, if◌then◌else◌,
}
use event_saver.Db.Parameters.{MeetingLinkParams}
use event_saver.Db.Rows.{BookingMeetingLink}
use event_saver.Db.Tables.{Db}
use event_saver.Db.Statement.{meeting_link_row}

abbrev pub is_link_of : ℕ → ℕ → BookingMeetingLink → Bool
is_link_of ref user l = nat_eq l.booking_ref_id ref && sql_eq nat_eq l.user_id (some user)

-- the user's link to the meeting of a booking
abbrev pub link_of : ℕ → ℕ → List BookingMeetingLink → Option BookingMeetingLink
link_of ref user links = find (is_link_of ref user) links

module _ (p : MeetingLinkParams) (url : String) where
  abbrev written : BookingMeetingLink
  written = meeting_link_row p url

-- the link that is found under a key after one key's link has been set or removed
abbrev pub updated_at :
    ℕ → ℕ → Option BookingMeetingLink → List BookingMeetingLink → ℕ → ℕ → Option BookingMeetingLink
updated_at ref user link links ref' user' =
    if nat_eq ref ref' && nat_eq user user' then link else link_of ref' user' links
