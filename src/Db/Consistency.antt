-- ===== src/Db/Consistency.antt =====
-- The database's consistency: every unique constraint holds, and ids come from their sequences.
-- Each SQL statement of the service keeps it (`Statements`).
pub mod Statements
pub mod Projected
use event_saver.Prelude.{
  ℕ, ◌+◌, ◌≡◌, refl, String, Bool, true, false, ◌||◌, Option, none, some, List, [], ◌∷◌, any, find,
  arith, nat_eq, leb, eq_iff, if-either, ◌==◌, sql_eq, if◌then◌else◌,
}
use event_saver.Py.Value.{Value, str}
use event_saver.Py.Exception.{Result, ok, raise}
use event_saver.Py.Datetime.{Datetime}
use event_saver.Env.{Env}
use event_saver.Domain.Models.{BookingData}
use event_saver.Db.Rows.{
  Event, BookingRecord, BookingEmailNotification, BookingMeetingLink, BookingChatEvent,
}
use event_saver.Db.Table.{
  IsUnique, insert_or_ignore, update_where, upsert, delete_where, insert_or_ignore-IsUnique,
  update_where-IsUnique, upsert-IsUnique, delete_where-IsUnique,
}
use event_saver.Db.Tables.{
  Db, events_clash, bookings_clash, meeting_links_clash, email_notifications_clash,
  telegram_notifications_clash, email_status_history_clash, chat_events_clash, video_events_clash,
  lifecycle_events_clash,
}

-- In a table with an id column: no id is used twice, and the sequence is past all of them.
module _ {A : Type 0} (id_of : A → ℕ) where
  abbrev pub same_id : A → A → Bool
  same_id r s = nat_eq (id_of r) (id_of s)

  abbrev pub is_from : ℕ → A → Bool
  is_from seq r = leb seq (id_of r)

  pub record IsNumbered (seq : ℕ) (rows : List A) : Type 0 where
    pub distinct : IsUnique same_id rows
    pub below : any (is_from seq) rows ≡ false

  below-suc :
      (seq : ℕ) (rows : List A)
      → any (is_from seq) rows ≡ false
      → any (is_from (seq + 1)) rows ≡ false
  below-suc seq [] h = refl
  below-suc seq (r ∷ rows) h = ground (arith, below-suc seq rows)

  below_fresh :
      (r : A) (seq : ℕ) (rows : List A)
      → id_of r ≡ seq
      → any (is_from seq) rows ≡ false
      → any (same_id r) rows ≡ false
  below_fresh r seq [] e h = refl
  below_fresh r seq (s ∷ rows) e h = ground (arith, below_fresh r seq rows e)

  below-update_where :
      (seq : ℕ) (p : A → Bool) (f : A → A) (rows : List A)
      → ((r : A) → id_of (f r) ≡ id_of r)
      → any (is_from seq) rows ≡ false
      → any (is_from seq) (update_where p f rows) ≡ false
  unfolding update_where
  below-update_where seq p f [] same h = refl
  below-update_where seq p f (r ∷ rows) same h =
      ground (arith, same r, below-update_where seq p f rows same)

  pub update_where-IsNumbered :
      (seq : ℕ) (p : A → Bool) (f : A → A) (rows : List A)
      → ((r : A) → id_of (f r) ≡ id_of r)
      → IsNumbered seq rows
      → IsNumbered seq (update_where p f rows)
  update_where-IsNumbered seq p f rows same h = record {
    distinct =
        update_where-IsUnique same_id p f rows (λ r s _. ground (arith, same r))
          (λ r s _. ground (arith, same s)) h.distinct;
    below = below-update_where seq p f rows same h.below;
  }

  suc-IsNumbered : (seq : ℕ) (rows : List A) → IsNumbered seq rows → IsNumbered (seq + 1) rows
  suc-IsNumbered seq rows h = record { distinct = h.distinct; below = below-suc seq rows h.below }

  pub cons-IsNumbered :
      (r : A) (seq : ℕ) (rows : List A)
      → id_of r ≡ seq
      → IsNumbered seq rows
      → IsNumbered (seq + 1) (r ∷ rows)
  cons-IsNumbered r seq rows e h = record {
    distinct = (below_fresh r seq rows e h.below, h.distinct);
    below = ground (arith, below-suc seq rows h.below);
  }

  -- An upsert takes a value of the sequence whether it inserts or not.
  pub upsert-IsNumbered :
      (clash : A → A → Bool) (merge : A → A) (r : A) (seq : ℕ) (rows : List A)
      → id_of r ≡ seq
      → ((s : A) → id_of (merge s) ≡ id_of s)
      → IsNumbered seq rows
      → IsNumbered (seq + 1) (upsert clash merge r rows)
  unfolding upsert
  upsert-IsNumbered clash merge r seq rows e same h =
      if-either (IsNumbered (seq + 1)) (any (clash r) rows)
        (λ _.
          suc-IsNumbered seq (update_where (clash r) merge rows)
            (update_where-IsNumbered seq (clash r) merge rows same h))
        (λ _. cons-IsNumbered r seq rows e h)

pub record IsConsistent (db : Db) : Type 0 where
  pub events : IsUnique events_clash db.events
  pub bookings : IsUnique bookings_clash db.bookings
  pub booking_ids : IsNumbered (λ b. b.id) db.bookings_id_seq db.bookings
  pub organizer_history_ids :
      IsNumbered (λ h. h.id) db.organizer_history_id_seq db.organizer_history
  pub meeting_links : IsUnique meeting_links_clash db.meeting_links
  pub email_notifications : IsUnique email_notifications_clash db.email_notifications
  pub email_notification_ids :
      IsNumbered (λ n. n.id) db.email_notifications_id_seq db.email_notifications
  pub telegram_notifications : IsUnique telegram_notifications_clash db.telegram_notifications
  pub email_status_history : IsUnique email_status_history_clash db.email_status_history
  pub chat_events : IsUnique chat_events_clash db.chat_events
  pub video_events : IsUnique video_events_clash db.video_events
  pub lifecycle_events : IsUnique lifecycle_events_clash db.lifecycle_events
