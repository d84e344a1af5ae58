-- ===== src/Replication.antt =====
-- internal/service/replication/service.go: what the receiver does with a batch of a peer, and which
-- tables it asks a snapshot for. Metrics and logs are left out.
pub mod Batches
pub mod Atomic
use transmogr.Base.{
  ℕ, String, Bool, true, false, not, ◌&&◌, Option, none, some, List, [], ◌∷◌, keep, is_empty,
  if◌then◌else◌, ◌==◌, string_eq, Result, ok, err, ◌>>=◌, ◌>>◌, fail_if,
}
use transmogr.Base.Order.{Ordering, then_cmp, cmp_ℤ}
use transmogr.Base.Sorting.{sort_by}
use transmogr.Base.Tables.{Table}
use transmogr.Base.Text.{cmp_str}
use transmogr.Models.Events.{ReplicationEvent, Operation, ApplyMode}
use transmogr.Models.PrimaryKey.{PrimaryKey, compare_primary_keys}
use transmogr.Models.State.{Scope, scope_eq, StateCursor, StateSnapshotJob}
use transmogr.Apply.Rows.{ApplyError}
use transmogr.Commit.{Db, Cursors, commit_state_applied_transaction, get_state_cursor}

abbrev pub is_insert : Operation → Bool
is_insert Operation.insert = true
is_insert _ = false

abbrev pub is_delete : Operation → Bool
is_delete Operation.delete = true
is_delete _ = false

unfoldable pub apply_allowed : ApplyMode → Operation → Bool
apply_allowed ApplyMode.insert_only op = is_insert op
apply_allowed ApplyMode.upsert op = not (is_delete op)
apply_allowed _ op = true

-- NewService: the mode of a service that is given none.
unfoldable pub configured_mode : ApplyMode → ApplyMode
configured_mode ApplyMode.unset = ApplyMode.upsert
configured_mode mode = mode

unfoldable pub compare_cursor_ordered_events : ReplicationEvent → ReplicationEvent → Ordering
compare_cursor_ordered_events l r = then_cmp (cmp_str l.peer_region r.peer_region) (
    then_cmp (cmp_str l.table r.table)
      (then_cmp (cmp_ℤ l.version r.version) (compare_primary_keys l.primary_key r.primary_key)))

pub data BatchError : Type 0 where
  region_required table_required event_id_required primary_key_required : BatchError
  apply_failed : ApplyError → BatchError

unfoldable pub check_event : ReplicationEvent → Result BatchError (Unit {0})
check_event e = do
  fail_if (e.peer_region == "") region_required
  fail_if (e.table == "") table_required
  fail_if (e.event_id == "") event_id_required
  fail_if (is_empty e.primary_key) primary_key_required
  ok tt

or_upsert : Operation → Operation
or_upsert Operation.unset = Operation.upsert
or_upsert op = op

unfoldable pub with_operation : ReplicationEvent → ReplicationEvent
unfolding or_upsert
with_operation e = record e { operation = or_upsert e.operation }

-- The loop of applyBatch, which returns at the first event that is not valid.
unfoldable pub prepare :
    ApplyMode → List ReplicationEvent → Result BatchError (List ReplicationEvent)
prepare mode [] = ok []
prepare mode (e ∷ es) = do
  check_event e
  later ← prepare mode es
  let e' = with_operation e
  ok (if apply_allowed mode e'.operation then e' ∷ later else later)

failed : Option ApplyError → Option BatchError
failed none = none
failed (some e) = some (apply_failed e)

unfoldable pub commit_prepared : ApplyMode → List ReplicationEvent → Db → Db × Option BatchError
unfolding failed
commit_prepared mode [] db = (db, none)
commit_prepared mode (e ∷ es) db =
    let (db', error) = commit_state_applied_transaction (e ∷ es) mode db in (db', failed error)

unfoldable pub in_cursor_order : Bool → List ReplicationEvent → List ReplicationEvent
in_cursor_order true es = sort_by compare_cursor_ordered_events es
in_cursor_order false es = es

apply_prepared :
    ApplyMode → Bool → Result BatchError (List ReplicationEvent) → Db → Db × Option BatchError
unfolding commit_prepared
apply_prepared mode sorts (err e) db = (db, some e)
apply_prepared mode sorts (ok es) db = commit_prepared mode (in_cursor_order sorts es) db

unfoldable pub apply_batch : ApplyMode → Bool → List ReplicationEvent → Db → Db × Option BatchError
unfolding apply_prepared
apply_batch mode sorts es db = apply_prepared mode sorts (prepare mode es) db

unfoldable pub apply_event_batch : ApplyMode → List ReplicationEvent → Db → Db × Option BatchError
apply_event_batch mode = apply_batch mode true

unfoldable pub apply_transaction_batch :
    ApplyMode → List ReplicationEvent → Db → Db × Option BatchError
apply_transaction_batch mode = apply_batch mode false

-- QueueSnapshotRequests, with a store and a stream that answer: the requests that it sends.
pub record SnapshotRequest : Type 0 where
  pub table : String
  pub after_primary_key : PrimaryKey

unfoldable pub queue_snapshot_requests :
    List String → String → Cursors → (Scope → StateSnapshotJob) → List SnapshotRequest
queue_snapshot_requests [] region cursors jobs = []
queue_snapshot_requests (t ∷ ts) region cursors jobs =
    let later = queue_snapshot_requests ts region cursors jobs in
    let k : Scope = record { peer_region = region; table = t } in
    if not ((get_state_cursor k cursors).last_event_id == "")
    then later
    else if (jobs k).is_finished
    then later
    else (record { table = t; after_primary_key = (jobs k).last_primary_key }) ∷ later
