-- ===== src/Backfill/Answers.antt =====
-- The tables after a cycle of the backfill, with where the user ids in them come from.
use event_saver.Prelude.{
  ℕ, ◌≡◌, ◌⊎◌, inl, inr, refl, sym, ◌∙◌, and_left, String, true, not, ◌&&◌, some, List, [], ◌∷◌,
  is_some, nat_eq, nat_eq_iff, if-either,
}
use event_saver.Py.Exception.{ok}
use event_saver.Env.{Env}
use event_saver.Db.Rows.{BookingRecord}
use event_saver.Db.Table.{update_where}
use event_saver.Db.Tables.{Db}
use event_saver.Db.Bookings.{RoleColumn, organizer_column, client_column, column_of, set_column}
use event_saver.Ingest.Repositories.{text_of_role}
use event_saver.Backfill.Queries.{latest_email, fill_column}
use event_saver.Backfill.Cycle.{Key, Resolver}

-- The booking is one of these.
abbrev pub IsAmong : BookingRecord → List BookingRecord → Type 0
IsAmong r [] = ⊥
IsAmong r (s ∷ rows) = (r ≡ s) ⊎ IsAmong r rows

module _ (env : Env) (resolver : Resolver) (db : Db) (scanned : List BookingRecord) where
  -- The resolver gave this user for the latest e-mail of the booking's participant.
  abbrev pub IsAnswered : BookingRecord → RoleColumn → ℕ → Type 0
  IsAnswered r k u =
      (email : String) × (asked : List Key) × (latest_email env r.booking_uid (text_of_role k) db
        ≡ some email)
      × (resolver asked (email, text_of_role k) ≡ ok (some u))

  -- The column is what it was, or holds what was answered for the scanned booking with this id.
  abbrev pub IsRight : RoleColumn → BookingRecord → BookingRecord → Type 0
  IsRight k b b' =
      (column_of k b' ≡ column_of k b)
      ⊎ ((r : BookingRecord) × (u : ℕ) × IsAmong r scanned
          × (r.id ≡ b.id)
          × (column_of k b' ≡ some u)
          × IsAnswered r k u)

  pub record IsRightRow (b b' : BookingRecord) : Type 0 where
    pub id : b'.id ≡ b.id
    pub organizer_user_id : IsRight organizer_column b b'
    pub client_user_id : IsRight client_column b b'

  abbrev pub AreRight : List BookingRecord → List BookingRecord → Type 0
  AreRight [] [] = Unit
  AreRight (b ∷ rows) (b' ∷ rows') = IsRightRow b b' × AreRight rows rows'
  AreRight _ _ = ⊥

  pub record IsRightDb (after : Db) : Type 0 where
    pub events : after.events ≡ db.events
    pub bookings : AreRight db.bookings after.bookings

  set_column-IsRightRow :
      (k : RoleColumn) (u : ℕ) (r b b' : BookingRecord)
      → IsAmong r scanned
      → IsAnswered r k u
      → nat_eq b'.id r.id ≡ true
      → IsRightRow b b'
      → IsRightRow b (set_column k u b')
  set_column-IsRightRow organizer_column u r b b' among answer same h = record {
    id = h.id;
    organizer_user_id =
        inr (r, u, among, sym ((nat_eq_iff b'.id r.id).0 same) ∙ h.id, refl, answer);
    client_user_id = h.client_user_id;
  }
  set_column-IsRightRow client_column u r b b' among answer same h = record {
    id = h.id;
    organizer_user_id = h.organizer_user_id;
    client_user_id = inr (r, u, among, sym ((nat_eq_iff b'.id r.id).0 same) ∙ h.id, refl, answer);
  }

  update-AreRight :
      (k : RoleColumn) (u : ℕ) (r : BookingRecord) (rows rows' : List BookingRecord)
      → IsAmong r scanned
      → IsAnswered r k u
      → AreRight rows rows'
      → AreRight rows (
          update_where
            (λ b. nat_eq b.id r.id && not (is_some (column_of k b)))
            (set_column k u)
            rows')
  unfolding update_where
  update-AreRight k u r [] [] among answer h = tt
  update-AreRight k u r [] (b' ∷ rows') among answer h = h
  update-AreRight k u r (b ∷ rows) [] among answer h = h
  update-AreRight k u r (b ∷ rows) (b' ∷ rows') among answer (first, others) = (
    if-either (IsRightRow b) (nat_eq b'.id r.id && not (is_some (column_of k b')))
        (λ e. set_column-IsRightRow k u r b b' among answer (and_left _ _ e) first) (λ _. first),
    update-AreRight k u r rows rows' among answer others,
  )

  pub fill_column-IsRightDb :
      (k : RoleColumn) (u : ℕ) (r : BookingRecord) (after : Db)
      → IsAmong r scanned
      → IsAnswered r k u
      → IsRightDb after
      → IsRightDb (fill_column k r.id u after)
  unfolding fill_column
  fill_column-IsRightDb k u r after among answer h = record {
    events = h.events;
    bookings = update-AreRight k u r db.bookings after.bookings among answer h.bookings;
  }

  AreRight-refl : (rows : List BookingRecord) → AreRight rows rows
  AreRight-refl [] = tt
  AreRight-refl (b ∷ rows) = (
    record { id = refl; organizer_user_id = inl refl; client_user_id = inl refl },
    AreRight-refl rows,
  )

  pub IsRightDb-refl : IsRightDb db
  IsRightDb-refl = record { events = refl; bookings = AreRight-refl db.bookings }
