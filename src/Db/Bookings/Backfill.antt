-- ===== src/Db/Bookings/Backfill.antt =====
-- `backfill_user_id_by_email` fills empty columns only.
use event_saver.Prelude.{ℕ, ◌≡◌, refl, ap, String, Bool, false, some, List, [], ◌∷◌, arith}
use event_saver.Env.{Env}
use event_saver.Db.Rows.{BookingRecord}
use event_saver.Db.Table.{update_where}
use event_saver.Db.Tables.{Db}
use event_saver.Db.Bookings.{
  RoleColumn, organizer_column, client_column, column_of, set_column, backfill_by_email,
}

column_of-set_column :
    (k : RoleColumn) (u : ℕ) (b : BookingRecord) → column_of k (set_column k u b) ≡ some u
column_of-set_column organizer_column u b = refl
column_of-set_column client_column u b = refl

-- an update that makes the condition false leaves nothing to a later one under that condition
update_where_first :
    (p : BookingRecord → Bool) (f g : BookingRecord → BookingRecord) (rows : List BookingRecord)
    → ((b : BookingRecord) → p (f b) ≡ false)
    → update_where p g (update_where p f rows) ≡ update_where p f rows
unfolding update_where
update_where_first p f g [] stop = refl
update_where_first p f g (b ∷ rows) stop =
    ground (arith, stop b, update_where_first p f g rows stop)

module _ (env : Env) (k : RoleColumn) (role email : String) where
  -- The first user that `backfill_user_id_by_email` writes for a role and an e-mail stays: with any
  -- other user for them it changes nothing afterwards.
  pub backfill_by_email_first :
      (u later : ℕ) (db : Db)
      → let once = backfill_by_email env k role email u db in
        backfill_by_email env k role email later once ≡ once
  unfolding backfill_by_email
  backfill_by_email_first u later db =
      ap (λ rows. record db { bookings = rows })
        (update_where_first _ (set_column k u) (set_column k later) db.bookings
          (λ b. rw (column_of-set_column k u b)))
