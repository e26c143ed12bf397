-- ===== src/Db/Bookings.antt =====
-- The statements of event_saver/infrastructure/persistence/repositories/booking_repository.py.
pub mod Merged
pub mod Upsert
pub mod Backfill
pub mod History
use event_saver.Prelude.{
  ℕ, ◌+◌, String, Bool, true, false, not, ◌&&◌, ◌||◌, Option, none, some, List, [], ◌∷◌, any, find,
  nat_eq, ltb, max_of, coalesce, is_distinct, is_some, sql_eq, ◌==◌, if◌then◌else◌,
}
use event_saver.Py.Value.{
  Value, Items, nil, cons, null, bool, num, str, list, dict, datetime, uuid, find_field,
}
use event_saver.Py.Exception.{Result, ok}
use event_saver.Py.Datetime.{Datetime, instant}
use event_saver.Env.{Env}
use event_saver.Domain.Models.{BookingData}
use event_saver.Db.Rows.{Event, BookingRecord, BookingOrganizerHistory}
use event_saver.Db.Table.{upsert, update_where}
use event_saver.Db.Tables.{Db, bookings_clash}

abbrev pub option_instant : Option Datetime → Option ℕ
option_instant none = none
option_instant (some d) = some (instant d)

abbrev pub booking_row : ℕ → BookingData → Datetime → Option ℕ → Option ℕ → BookingRecord
booking_row id data_ occurred_at organizer client = record {
  id = id;
  booking_uid = data_.booking_id;
  first_seen_at = instant occurred_at;
  last_seen_at = instant occurred_at;
  start_time = option_instant data_.start_time;
  end_time = option_instant data_.end_time;
  current_status = data_.status;
  organizer_user_id = organizer;
  client_user_id = client;
}

-- `on conflict (booking_uid) do update set ...`, where `e` is `excluded`
unfoldable pub merge_booking : BookingRecord → BookingRecord → BookingRecord
merge_booking e b = record b {
  last_seen_at = max_of b.last_seen_at e.last_seen_at;
  start_time = coalesce e.start_time b.start_time;
  end_time = coalesce e.end_time b.end_time;
  current_status = coalesce e.current_status b.current_status;
  organizer_user_id = coalesce e.organizer_user_id b.organizer_user_id;
  client_user_id = coalesce e.client_user_id b.client_user_id;
}

abbrev pub id_of_booking : Option BookingRecord → Option ℕ
id_of_booking none = none
id_of_booking (some b) = some b.id

-- `select id from bookings where booking_uid = :booking_uid limit 1`
unfoldable pub select_booking : String → Db → Option ℕ
select_booking uid db = id_of_booking (find (λ b. b.booking_uid == uid) db.bookings)

-- `insert into bookings ... on conflict (booking_uid) do update ... returning id`. A conflicting
-- row has used up a value of the id sequence too.
unfoldable pub upsert_booking :
    BookingData → Datetime → Option ℕ → Option ℕ → Db → Result (Option ℕ × Db)
unfolding merge_booking select_booking upsert update_where
upsert_booking data_ occurred_at organizer client db =
    let row = booking_row db.bookings_id_seq data_ occurred_at organizer client in
    let db' : Db = record db {
      bookings = upsert bookings_clash (merge_booking row) row db.bookings;
      bookings_id_seq = db.bookings_id_seq + 1;
    } in
    ok (select_booking data_.booking_id db', db')

-- `update bookings set client_user_id = ... where id = ...`
unfoldable pub update_client_row : ℕ → ℕ → Db → Db
unfolding update_where
update_client_row ref client db = record db {
  bookings =
      update_where (λ b. nat_eq b.id ref) (λ b. record b { client_user_id = some client })
        db.bookings;
}

-- The two columns that `_ROLE_COLUMNS` allows.
pub data RoleColumn : Type 0 where
  organizer_column client_column : RoleColumn

abbrev pub column_of : RoleColumn → BookingRecord → Option ℕ
column_of organizer_column b = b.organizer_user_id
column_of client_column b = b.client_user_id

abbrev pub set_column : RoleColumn → ℕ → BookingRecord → BookingRecord
set_column organizer_column u b = record b { organizer_user_id = some u }
set_column client_column u b = record b { client_user_id = some u }

-- `v -> key` of jsonb, NULL on anything but an object that has the key
abbrev pub json_field : Value → String → Option Value
json_field (dict fs) k = find_field k fs
json_field _ _ = none

abbrev pub items_of : Option Value → Items
items_of (some (list xs)) = xs
items_of _ = nil

abbrev pub json_field_of : Option Value → String → Option Value
json_field_of none k = none
json_field_of (some v) k = json_field v k

-- `jsonb_array_elements(case when jsonb_typeof(...) = 'array' then ... else '[]' end)`
unfoldable pub payload_participants : Value → Items
payload_participants payload =
    items_of (json_field_of (json_field payload "normalized") "participants")

abbrev pub any_item : (Value → Bool) → Items → Bool
any_item p nil = false
any_item p (cons v vs) = p v || any_item p vs

module _ (env : Env) where
  -- `v ->> key`
  abbrev text_of : Option Value → Option String
  text_of none = none
  text_of (some null) = none
  text_of (some (str s)) = some s
  text_of (some v) = some (env.json_text v)

  unfoldable pub text_field : Value → String → Option String
  text_field v k = text_of (json_field v k)

  abbrev text_or_empty : Option String → String
  text_or_empty none = ""
  text_or_empty (some s) = s

  -- the condition on `p` in `_BACKFILL_BY_EMAIL`
  unfoldable pub is_participant : String → String → Value → Bool
  unfolding text_field
  is_participant role email p =
      sql_eq ◌==◌ (text_field p "role") (some role)
      && env.lower (text_or_empty (text_field p "email")) == env.lower email

  -- `exists (select 1 from events e cross join lateral ... where e.booking_id = b.booking_uid ...)`
  unfoldable pub has_participant : String → String → List Event → BookingRecord → Bool
  unfolding is_participant payload_participants
  has_participant role email events b =
      any
        (λ e.
          sql_eq ◌==◌ e.booking_id (some b.booking_uid)
          && any_item (is_participant role email) (payload_participants e.payload))
        events

  -- `_BACKFILL_BY_EMAIL`
  unfoldable pub backfill_by_email : RoleColumn → String → String → ℕ → Db → Db
  unfolding has_participant update_where
  backfill_by_email column role email user_id db = record db {
    bookings =
        update_where
          (λ b. not (is_some (column_of column b)) && has_participant role email db.events b)
          (set_column column user_id) db.bookings;
  }

-- the later of two rows by `(effective_from, id)`
abbrev pub is_later : BookingOrganizerHistory → BookingOrganizerHistory → Bool
is_later h i =
    ltb i.effective_from h.effective_from
    || (nat_eq i.effective_from h.effective_from && ltb i.id h.id)

abbrev pub later_of :
    BookingOrganizerHistory → Option BookingOrganizerHistory → BookingOrganizerHistory
later_of h none = h
later_of h (some i) = if is_later i h then i else h

-- `... where booking_ref_id = ... order by effective_from desc, id desc limit 1`
unfoldable pub latest_history : ℕ → List BookingOrganizerHistory → Option BookingOrganizerHistory
latest_history ref [] = none
latest_history ref (h ∷ rows) =
    let rest = latest_history ref rows in
    if nat_eq h.booking_ref_id ref then some (later_of h rest) else rest

abbrev pub organizer_of : Option BookingOrganizerHistory → Option ℕ
organizer_of none = none
organizer_of (some h) = some h.organizer_user_id

abbrev pub organizer_history_row : ℕ → ℕ → String → Datetime → ℕ → BookingOrganizerHistory
organizer_history_row ref organizer source_event_id occurred_at id = record {
  id = id;
  booking_ref_id = ref;
  organizer_user_id = organizer;
  source_event_id = some source_event_id;
  effective_from = instant occurred_at;
}

-- `insert into booking_organizer_history ... where (...) is distinct from :organizer_user_id`
unfoldable pub insert_organizer_history : ℕ → ℕ → String → Datetime → Db → Db
unfolding latest_history
insert_organizer_history ref organizer source_event_id occurred_at db =
    if is_distinct nat_eq (organizer_of (latest_history ref db.organizer_history)) (some organizer)
    then record db {
      organizer_history =
          organizer_history_row ref organizer source_event_id occurred_at
            db.organizer_history_id_seq
          ∷ db.organizer_history;
      organizer_history_id_seq = db.organizer_history_id_seq + 1;
    }
    else db
