-- ===== src/Commit.antt =====
-- internal/repository/postgres/state_events.go and the cursors of state_cursor.go: the transaction
-- that applies the events of a batch and moves the cursors of their (peer region, table). A cursor's
-- key is saved as JSON in a column of type JSONB, which need not give back the bytes that were saved:
-- what the column makes of a key is a parameter, in the record of the database.
pub mod Spec
pub mod Positions
pub mod Redelivery
use transmogr.Base.{
  ℕ, String, Bool, true, false, Option, none, some, List, [], ◌∷◌, ◌++◌, if◌then◌else◌, Result, ok,
  err, ◌>>=◌,
}
use transmogr.Base.Int.{ℤ, pos, ltb_ℤ}
use transmogr.Base.Order.{is_le}
use transmogr.Base.Tables.{Table, put, no_rows}
use transmogr.Models.Events.{ReplicationEvent, ApplyMode}
use transmogr.Models.PrimaryKey.{PrimaryKey, compare_primary_keys}
use transmogr.Models.State.{Scope, scope_eq, StateCursor}
use transmogr.Apply.Rows.{ApplyError}
use transmogr.Apply.Batches.{Store, scope_of, apply_events_batch}

abbrev pub Cursors : Type 0
Cursors = Table Scope StateCursor

-- The application tables, the table `peer_cursors`, and what is read of a key that was saved there
-- (json.Marshal, the JSONB column, and json.Unmarshal).
pub record Db : Type 0 where
  pub stored_key : PrimaryKey → PrimaryKey
  pub store : Store
  pub cursors : Cursors

abbrev pub first_cursor : Scope → StateCursor
first_cursor k = record {
  peer_region = k.peer_region;
  table = k.table;
  last_event_id = "";
  last_version = pos 0;
  last_primary_key = [];
}

-- GetStateCursor
or_first : Scope → Option StateCursor → StateCursor
or_first k none = first_cursor k
or_first k (some c) = c

unfoldable pub get_state_cursor : Scope → Cursors → StateCursor
unfolding or_first
get_state_cursor k t = or_first k (t k)

-- INSERT … ON CONFLICT DO NOTHING
ensured : Scope → Option StateCursor → Cursors → Cursors
ensured k none t = put k (first_cursor k) t
ensured k (some c) t = t

unfoldable pub ensure_cursor_row : Scope → Cursors → Cursors
unfolding ensured
ensure_cursor_row k t = ensured k (t k) t

unfoldable pub get_state_cursor_for_update : Scope → Cursors → Cursors × StateCursor
unfolding ensure_cursor_row get_state_cursor
get_state_cursor_for_update k t =
    (ensure_cursor_row k t, get_state_cursor k (ensure_cursor_row k t))

abbrev pub as_stored : (PrimaryKey → PrimaryKey) → StateCursor → StateCursor
as_stored stored_key c = record c { last_primary_key = stored_key c.last_primary_key }

unfoldable pub save_state_cursor : (PrimaryKey → PrimaryKey) → StateCursor → Cursors → Cursors
save_state_cursor stored_key c =
    put (record { peer_region = c.peer_region; table = c.table }) (as_stored stored_key c)

-- The first loop: lock each cursor once. `locked` is the Go map.
lock_new : Scope → Option StateCursor → Cursors × Cursors → Cursors × Cursors
unfolding get_state_cursor_for_update
lock_new k none (t, locked) = let (t', c) = get_state_cursor_for_update k t in (t', put k c locked)
lock_new k (some c) (t, locked) = (t, locked)

unfoldable pub lock_cursors : List ReplicationEvent → Cursors × Cursors → Cursors × Cursors
unfolding lock_new
lock_cursors [] s = s
lock_cursors (e ∷ es) s = lock_cursors es (lock_new (scope_of e) (s.1 (scope_of e)) s)

unfoldable pub is_stale_cursor_position : ℤ → PrimaryKey → StateCursor → Bool
is_stale_cursor_position version pk c =
    if ltb_ℤ version c.last_version
    then true
    else if ltb_ℤ c.last_version version
    then false
    else is_le (compare_primary_keys pk c.last_primary_key)

abbrev pub cursor_at : ReplicationEvent → StateCursor
cursor_at e = record {
  peer_region = e.peer_region;
  table = e.table;
  last_event_id = e.event_id;
  last_version = e.version;
  last_primary_key = e.primary_key;
}

-- The second loop: `toApply`, `runningCursors` and `finalCursors`.
pub record Scan : Type 0 where
  pub to_apply : List ReplicationEvent
  pub running : Cursors
  pub final : Cursors

-- A key that the Go map misses reads as the zero StateCursor.
abbrev pub or_blank : Option StateCursor → StateCursor
or_blank none = first_cursor (record { peer_region = ""; table = "" })
or_blank (some c) = c

abbrev pub stale_at : ReplicationEvent → Option StateCursor → Bool
stale_at e o = is_stale_cursor_position e.version e.primary_key (or_blank o)

unfoldable pub visit : ReplicationEvent → Scan → Scan
visit e s = if stale_at e (s.running (scope_of e)) then s else (record {
  to_apply = s.to_apply ++ e ∷ [];
  running = put (scope_of e) (cursor_at e) s.running;
  final = put (scope_of e) (cursor_at e) s.final;
})

unfoldable pub scan : List ReplicationEvent → Scan → Scan
unfolding visit
scan [] s = s
scan (e ∷ es) s = scan es (visit e s)

-- The last loop saves each cursor of the map under its own key, so the order does not count.
or_kept : (PrimaryKey → PrimaryKey) → Option StateCursor → Option StateCursor → Option StateCursor
or_kept stored_key none o = o
or_kept stored_key (some c) o = some (as_stored stored_key c)

unfoldable pub save_final_cursors : (PrimaryKey → PrimaryKey) → Cursors → Cursors → Cursors
unfolding or_kept
save_final_cursors stored_key final t k = or_kept stored_key (final k) (t k)

-- The body of the transaction.
unfoldable pub commit_body : List ReplicationEvent → ApplyMode → Db → Result ApplyError Db
unfolding lock_cursors scan save_final_cursors
commit_body es mode db =
    let (t, locked) = lock_cursors es (db.cursors, no_rows) in
    let found = scan es (record { to_apply = []; running = locked; final = no_rows }) in
    apply_events_batch found.to_apply mode db.store >>= λ store.
    ok (record db { store = store; cursors = save_final_cursors db.stored_key found.final t })

-- WithTx: an error rolls the transaction back.
unfoldable pub with_tx : Result ApplyError Db → Db → Db × Option ApplyError
with_tx (ok db') db = (db', none)
with_tx (err e) db = (db, some e)

unfoldable pub commit_state_applied_transaction :
    List ReplicationEvent → ApplyMode → Db → Db × Option ApplyError
unfolding commit_body with_tx
commit_state_applied_transaction es mode db = with_tx (commit_body es mode db) db
