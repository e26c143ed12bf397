-- ===== src/Db/Statement/Reads.antt =====
-- The read update of chat_projection.py.
use event_saver.Prelude.{
  ℕ, ◌≡◌, ◌≢◌, refl, sym, ap, ◌∙◌, Bool, true, false, String, Option, none, some, List, [], ◌∷◌,
  arith, nat_eq_iff, nat_eq, eq_iff, is_distinct, if-either, ◌&&◌, ◌⊎◌, inl, inr,
}
use event_saver.Py.Exception.{Result, ok, raise}
use event_saver.Db.Rows.{BookingChatEvent}
use event_saver.Db.Table.{update_where}
use event_saver.Db.Tables.{Db}
use event_saver.Db.Statement.{ChatReadParams, is_read_by, mark_chat_read, text_or_null}

abbrev read_row : BookingChatEvent → BookingChatEvent
read_row c = record c { is_read = some true }

-- an update that leaves its own condition as it is, and does nothing more the second time
update_where_twice :
    {A : Type 0} (p : A → Bool) (f : A → A) (rows : List A)
    → ((r : A) → p (f r) ≡ p r)
    → ((r : A) → f (f r) ≡ f r)
    → update_where p f (update_where p f rows) ≡ update_where p f rows
unfolding update_where
update_where_twice p f [] same once = refl
update_where_twice p f (r ∷ rows) same once =
    ground (arith, same r, once r, update_where_twice p f rows same once)

-- A message of this booking that is not the reader's own.
abbrev pub IsOthersMessage : ChatReadParams → BookingChatEvent → Type 0
IsOthersMessage p c =
    (c.booking_ref_id ≡ p.booking_ref_id)
    × (c.chat_event_type ≡ "message.new")
    × (c.user_id ≢ some p.reader_user_id)

-- Row by row, the second table is the first, but that some such messages are marked as read.
abbrev pub OnlyReads : ChatReadParams → List BookingChatEvent → List BookingChatEvent → Type 0
OnlyReads p [] [] = Unit
OnlyReads p (c ∷ cs) (d ∷ ds) =
    ((d ≡ c) ⊎ (IsOthersMessage p c × (d ≡ read_row c))) × OnlyReads p cs ds
OnlyReads p _ _ = ⊥

distinct_ne : (o : Option ℕ) (u : ℕ) → is_distinct nat_eq o (some u) ≡ true → o ≢ some u
distinct_ne none u h e = cc
distinct_ne (some v) u h e = ground (arith, nat_eq_iff v u)

and_split : (a b : Bool) → a && b ≡ true → (a ≡ true) × (b ≡ true)
and_split true b h = (refl, h)
and_split false b h = cc

is_read_by-IsOthersMessage :
    (p : ChatReadParams) (last : Option String) (c : BookingChatEvent)
    → is_read_by p last c ≡ true
    → IsOthersMessage p c
unfolding is_read_by
is_read_by-IsOthersMessage p last c h =
    let (booking, rest) = and_split _ _ h in
    let (message, others) = and_split _ _ rest in
    (
      (nat_eq_iff c.booking_ref_id p.booking_ref_id).0 booking,
      (eq_iff c.chat_event_type "message.new").0 message,
      distinct_ne c.user_id p.reader_user_id (and_split _ _ others).0,
    )

update_where-OnlyReads :
    (p : ChatReadParams) (last : Option String) (rows : List BookingChatEvent)
    → OnlyReads p rows (update_where (is_read_by p last) read_row rows)
unfolding update_where
update_where-OnlyReads p last [] = tt
update_where-OnlyReads p last (c ∷ rows) = (
  if-either (λ d. (d ≡ c) ⊎ (IsOthersMessage p c × (d ≡ read_row c))) (is_read_by p last c)
      (λ h. inr (is_read_by-IsOthersMessage p last c h, refl)) (λ _. inl refl),
  update_where-OnlyReads p last rows,
)

abbrev read_by : ChatReadParams → Option String → Db → Db
read_by p last db = record db {
  chat_events = update_where (is_read_by p last) read_row db.chat_events;
}

read_by-twice :
    (p : ChatReadParams) (last : Option String) (db : Db)
    → read_by p last (read_by p last db) ≡ read_by p last db
unfolding is_read_by
read_by-twice p last db =
    ap (λ rows. record db { chat_events = rows })
      (update_where_twice (is_read_by p last) read_row db.chat_events (λ c. refl) (λ c. refl))

mark_chat_read-text :
    (p : ChatReadParams) (last : Option String) (db : Db)
    → text_or_null p.last_read_message_id ≡ ok last
    → mark_chat_read p db ≡ ok (read_by p last db)
unfolding mark_chat_read
mark_chat_read-text p last db text = rw text

mark_chat_read-ok :
    (p : ChatReadParams) (r : Result (Option String)) (db db' : Db)
    → text_or_null p.last_read_message_id ≡ r
    → mark_chat_read p db ≡ ok db'
    → (last : Option String) × (r ≡ ok last) × (db' ≡ read_by p last db)
unfolding mark_chat_read
mark_chat_read-ok p (ok last) db db' e done = (last, refl, ground arith)
mark_chat_read-ok p (raise x) db db' e done = cc (rw e at done)

-- When the read update succeeds, it has changed the chat rows only by marking messages of its
-- booking as read, none of them the reader's own, and running it again changes nothing.
pub mark_chat_read_lem :
    (p : ChatReadParams) (db db' : Db)
    → mark_chat_read p db ≡ ok db'
    → OnlyReads p db.chat_events db'.chat_events × (mark_chat_read p db' ≡ ok db')
mark_chat_read_lem p db db' done =
    let (last, text, e) =
      mark_chat_read-ok p (text_or_null p.last_read_message_id) db db' refl done in
    (
      rw e (update_where-OnlyReads p last db.chat_events),
      ap (mark_chat_read p) e
          ∙ mark_chat_read-text p last (read_by p last db) text
          ∙ ap ok (read_by-twice p last db ∙ sym e),
    )
