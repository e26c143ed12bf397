-- ===== src/Db/Statement/Emails.antt =====
-- The two upserts of notification_projection.py on one row of an e-mail job.
use event_saver.Prelude.{
  ◌+◌, ◌≡◌, refl, sym, ap, ◌∙◌, Bool, true, false, Option, none, some, List, [], ◌∷◌, any, arith,
  coalesce, eq_iff, ◌==◌,
}
use event_saver.Db.Rows.{BookingEmailNotification}
use event_saver.Db.Table.{upsert, update_where}
use event_saver.Db.Tables.{Db, email_notifications_clash}
use event_saver.Db.Statement.{
  EmailSentParams, EmailStatusParams, email_sent_row, email_status_row, merge_email_sent,
  merge_email_status, write_email_sent, write_email_status,
}

update_where_none :
    {A : Type 0} (p : A → Bool) (f : A → A) (rows : List A)
    → any p rows ≡ false
    → update_where p f rows ≡ rows
unfolding update_where
update_where_none p f [] free = refl
update_where_none p f (r ∷ rows) free = ground (arith, update_where_none p f rows)

-- an upsert of a row that clashes with none, then one of a row that clashes with it alone
upsert_twice :
    (r s : BookingEmailNotification) (f g : BookingEmailNotification → BookingEmailNotification)
    (rows : List BookingEmailNotification)
    → s.job_id == r.job_id ≡ true
    → any (email_notifications_clash r) rows ≡ false
    → any (email_notifications_clash s) rows ≡ false
    → upsert email_notifications_clash g s (upsert email_notifications_clash f r rows) ≡ g r ∷ rows
unfolding upsert update_where
upsert_twice r s f g rows same free_r free_s =
    rw (free_r, same) (ap (λ rest. g r ∷ rest) (update_where_none _ g rows free_s))

coalesce-none {ℓ} : {A : Type ℓ} (o : Option A) → coalesce o none ≡ o
coalesce-none none = refl
coalesce-none (some a) = refl

-- Where no row of the e-mail's job exists, the statements for "sent" and for a delivery status of
-- one booking's e-mail to one recipient give the same database in either order.
pub write_email_comm :
    (p : EmailSentParams) (q : EmailStatusParams) (db : Db)
    → p.job_id ≡ q.job_id
    → p.booking_ref_id ≡ q.booking_ref_id
    → p.recipient_email ≡ q.recipient_email
    → any (λ n. p.job_id == n.job_id) db.email_notifications ≡ false
    → write_email_status q (write_email_sent p db) ≡ write_email_sent p (write_email_status q db)
unfolding write_email_sent write_email_status
write_email_comm p q db job ref recipient free =
    let sent = email_sent_row db.email_notifications_id_seq p in
    let status = email_status_row db.email_notifications_id_seq q in
    let free' : any (λ n. q.job_id == n.job_id) db.email_notifications ≡ false = rw job at free in
    let rows = db.email_notifications in
    ap
      (λ table. record db {
        email_notifications = table;
        email_notifications_id_seq = db.email_notifications_id_seq + 1 + 1;
      })
      (upsert_twice sent (email_status_row (db.email_notifications_id_seq + 1) q) _
          (merge_email_status status) rows ((eq_iff q.job_id p.job_id).1 (sym job)) free free'
        ∙ ap (λ row. row ∷ rows)
            (rw (job, ref, recipient, coalesce-none q.last_clicked_url, coalesce-none p.user_id))
        ∙ sym (
            upsert_twice status (email_sent_row (db.email_notifications_id_seq + 1) p) _
              (merge_email_sent sent) rows ((eq_iff p.job_id q.job_id).1 job) free' free))
