-- ===== src/Db/Bookings/History.antt =====
-- What `BookingRepository.save_organizer_history` does to the organizer history.
use event_saver.Prelude.{
  ℕ, ◌≡◌, ◌≢◌, refl, ap, ◌∙◌, false, String, Option, none, some, List, [], ◌∷◌, any, arith, nat_eq,
  nat_eq_iff, is_distinct, if-either, ◌<◌, ◌≤◌, Bool-cases, inl, inr,
}
use event_saver.Py.Datetime.{Datetime, instant}
use event_saver.Db.Rows.{BookingOrganizerHistory}
use event_saver.Db.Tables.{Db}
use event_saver.Db.Consistency.{IsConsistent, is_from}
use event_saver.Db.Bookings.{
  is_later, later_of, latest_history, organizer_of, organizer_history_row, insert_organizer_history,
}

-- The id of a row that may be there is below the sequence's next value.
abbrev IsBelow : ℕ → Option BookingOrganizerHistory → Type 0
IsBelow seq none = Unit
IsBelow seq (some i) = i.id < seq

-- A row that may be there does not start after `t`.
abbrev pub IsNotAfter : ℕ → Option BookingOrganizerHistory → Type 0
IsNotAfter t none = Unit
IsNotAfter t (some i) = i.effective_from ≤ t

later_of-IsBelow :
    (seq : ℕ) (h : BookingOrganizerHistory) (o : Option BookingOrganizerHistory)
    → h.id < seq
    → IsBelow seq o
    → IsBelow seq (some (later_of h o))
later_of-IsBelow seq h none low rest = low
later_of-IsBelow seq h (some i) low rest =
    if-either (λ (r : BookingOrganizerHistory). r.id < seq) (is_later i h) (λ _. rest) (λ _. low)

below-cons :
    (seq : ℕ) (h : BookingOrganizerHistory) (rows : List BookingOrganizerHistory)
    → any (is_from (λ r. r.id) seq) (h ∷ rows) ≡ false
    → (h.id < seq) × (any (is_from (λ r. r.id) seq) rows ≡ false)
below-cons seq h rows low = ground arith

latest_history-IsBelow :
    (seq ref : ℕ) (rows : List BookingOrganizerHistory)
    → any (is_from (λ h. h.id) seq) rows ≡ false
    → IsBelow seq (latest_history ref rows)
unfolding latest_history
latest_history-IsBelow seq ref [] low = tt
latest_history-IsBelow seq ref (h ∷ rows) low =
    let (first, others) = below-cons seq h rows low in
    let rest = latest_history-IsBelow seq ref rows others in
    if-either (IsBelow seq) (nat_eq h.booking_ref_id ref)
      (λ _. later_of-IsBelow seq h (latest_history ref rows) first rest) (λ _. rest)

-- a row with a fresh id that does not start before the latest one is the latest
later_of_new :
    (h : BookingOrganizerHistory) (o : Option BookingOrganizerHistory)
    → IsBelow h.id o
    → IsNotAfter h.effective_from o
    → later_of h o ≡ h
later_of_new h none low early = refl
later_of_new h (some i) low early = ground arith

not_distinct : (o : Option ℕ) (u : ℕ) → is_distinct nat_eq o (some u) ≡ false → o ≡ some u
not_distinct none u e = cc
not_distinct (some v) u e = ground (arith, nat_eq_iff v u)

latest_history-cons_other :
    (other : ℕ) (h : BookingOrganizerHistory) (rows : List BookingOrganizerHistory)
    → h.booking_ref_id ≢ other
    → latest_history other (h ∷ rows) ≡ latest_history other rows
unfolding latest_history
latest_history-cons_other other h rows ne = ground (arith, nat_eq_iff h.booking_ref_id other)

latest_history-cons_self :
    (ref : ℕ) (h : BookingOrganizerHistory) (rows : List BookingOrganizerHistory)
    → h.booking_ref_id ≡ ref
    → latest_history ref (h ∷ rows) ≡ some (later_of h (latest_history ref rows))
unfolding latest_history
latest_history-cons_self ref h rows e = ground (arith, nat_eq_iff h.booking_ref_id ref)

module _ (ref organizer : ℕ) (source_event_id : String) (t : Datetime) where
  abbrev latest : ℕ → Db → Option BookingOrganizerHistory
  latest r db = latest_history r db.organizer_history

  -- In a consistent database, saving an organizer from an event that is not older than the
  -- booking's latest history row makes that organizer the latest one of the booking, and leaves
  -- the latest row of every other booking.
  pub insert_organizer_history_lem :
      (db : Db)
      → IsConsistent db
      → IsNotAfter (instant t) (latest_history ref db.organizer_history)
      → let db' = insert_organizer_history ref organizer source_event_id t db in
        (organizer_of (latest_history ref db'.organizer_history) ≡ some organizer)
        × ((other : ℕ)
            → ref ≢ other
            → latest_history other db'.organizer_history
              ≡ latest_history other db.organizer_history)
  unfolding insert_organizer_history
  insert_organizer_history_lem db c early =
      let row = organizer_history_row ref organizer source_event_id t db.organizer_history_id_seq in
      let newest =
        later_of_new row (latest ref db)
          (latest_history-IsBelow db.organizer_history_id_seq ref db.organizer_history
            c.organizer_history_ids.below)
          early in
      elim (Bool-cases (is_distinct nat_eq (organizer_of (latest ref db)) (some organizer))) [
        | inl changed ↦ rw changed (
          ap organizer_of
              (latest_history-cons_self ref row db.organizer_history refl ∙ ap some newest),
          λ other ne. latest_history-cons_other other row db.organizer_history ne,
        )
        | inr same ↦ rw same (not_distinct _ organizer same, λ other ne. refl)
      ]
