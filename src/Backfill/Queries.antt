-- ===== src/Backfill/Queries.antt =====
-- The SQL texts of event_saver/application/services/user_id_backfill.py.
use event_saver.Prelude.{
  ℕ, String, Bool, not, ◌&&◌, ◌||◌, Option, none, some, List, [], ◌∷◌, keep, take, nat_eq, ltb, leb,
  is_some, sql_eq, ◌==◌, if◌then◌else◌,
}
use event_saver.Py.Value.{Value, Items, nil, cons}
use event_saver.Env.{Env}
use event_saver.Db.Rows.{Event, BookingRecord}
use event_saver.Db.Table.{update_where}
use event_saver.Db.Tables.{Db}
use event_saver.Db.Bookings.{RoleColumn, column_of, set_column, payload_participants, text_field}

-- `organizer_user_id is null or client_user_id is null`
abbrev pub is_incomplete : BookingRecord → Bool
is_incomplete b = not (is_some b.organizer_user_id) || not (is_some b.client_user_id)

-- `order by id`
unfoldable pub insert_by_id : BookingRecord → List BookingRecord → List BookingRecord
insert_by_id b [] = b ∷ []
insert_by_id b (c ∷ rows) =
    let rest = insert_by_id b rows in if leb b.id c.id then b ∷ c ∷ rows else c ∷ rest

unfoldable pub order_by_id : List BookingRecord → List BookingRecord
unfolding insert_by_id
order_by_id [] = []
order_by_id (b ∷ rows) = insert_by_id b (order_by_id rows)

-- `_SELECT_CANDIDATES`
unfoldable pub select_candidates : ℕ → Db → List BookingRecord
unfolding order_by_id
select_candidates batch_size db = take batch_size (order_by_id (keep is_incomplete db.bookings))

-- an e-mail with the time of the event that names it
abbrev pub later_email : ℕ → Option String → Option (ℕ × String) → Option (ℕ × String)
later_email time none rest = rest
later_email time (some email) none = some (time, email)
later_email time (some email) (some (t, other)) =
    if ltb time t then some (t, other) else some (time, email)

abbrev pub email_text : Option (ℕ × String) → Option String
email_text none = none
email_text (some (_, email)) = some email

abbrev non_empty_text : Option String → Option String
non_empty_text none = none
non_empty_text (some s) = if s == "" then none else some s

module _ (env : Env) where
  -- `participant ->> 'email'` where the conditions on `participant` hold
  unfoldable pub participant_email : String → Value → Option String
  unfolding text_field
  participant_email role p =
      if sql_eq ◌==◌ (text_field env p "role") (some role)
      then non_empty_text (text_field env p "email")
      else none

  unfoldable pub first_email : String → Items → Option String
  unfolding participant_email
  first_email role nil = none
  first_email role (cons p ps) =
      let rest = first_email role ps in
      elim (participant_email role p) [ none ↦ rest | some email ↦ some email ]

  unfoldable pub email_rows : String → String → List Event → Option (ℕ × String)
  unfolding first_email payload_participants
  email_rows uid role [] = none
  email_rows uid role (e ∷ events) =
      let rest = email_rows uid role events in
      if sql_eq ◌==◌ e.booking_id (some uid)
      then later_email e.occurred_at (first_email role (payload_participants e.payload)) rest
      else rest

  -- `_SELECT_LATEST_EMAIL`; where events or participants tie, PostgreSQL may choose, and the first
  -- is taken
  unfoldable pub latest_email : String → String → Db → Option String
  unfolding email_rows
  latest_email uid role db = email_text (email_rows uid role db.events)

-- `_UPDATE_TEMPLATE`
unfoldable pub fill_column : RoleColumn → ℕ → ℕ → Db → Db
unfolding update_where
fill_column column id user_id db = record db {
  bookings =
      update_where (λ b. nat_eq b.id id && not (is_some (column_of column b)))
        (set_column column user_id) db.bookings;
}
