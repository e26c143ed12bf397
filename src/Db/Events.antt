-- ===== src/Db/Events.antt =====
-- The statement of `EventRepository.save`
-- (event_saver/infrastructure/persistence/repositories/event_repository.py).
use event_saver.Prelude.{Bool, true, false, any, if◌then◌else◌}
use event_saver.Py.Exception.{Result, ok}
use event_saver.Db.Rows.{Event}
use event_saver.Db.Table.{insert_or_ignore}
use event_saver.Db.Tables.{Db, events_clash}

-- `insert into events ... on conflict do nothing returning event_id`: is there a row?
unfoldable pub insert_event : Event → Db → Result (Bool × Db)
unfolding insert_or_ignore
insert_event e db = ok (
  (if any (events_clash e) db.events then false else true),
  record db { events = insert_or_ignore events_clash e db.events },
)
