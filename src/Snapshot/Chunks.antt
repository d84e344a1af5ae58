-- ===== src/Snapshot/Chunks.antt =====
-- `ApplySnapshotChunk` of internal/repository/postgres/snapshot.go: one statement for a chunk. A
-- payload decodes as the parameter `object` says; the literal `null` is no object.
pub mod Owned
use transmogr.Base.{
  String, Bool, true, false, ◌&&◌, Option, none, some, List, [], ◌∷◌, if◌then◌else◌, contains, ◌==◌,
  string_eq, list_eq, nat_eq, Result, ok, err, ◌>>=◌, ◌>>◌, fail_if,
}
use transmogr.Models.Events.{Fields}
use transmogr.Models.Json.{Bytes}
use transmogr.Models.State.{SnapshotRow}
use transmogr.Apply.Rows.{
  TableSpec, Row, Rows, ApplyError, empty_payload, row_affected_twice, build_upsert_payload,
  build_batch_upsert_query, UpsertQuery, upsert_row, selected, record_row, row_key,
  owner_region_condition,
}
use transmogr.Apply.Batches.{Store, write, table_spec}

unfoldable pub or_refused : Option Fields → Result ApplyError Fields
or_refused none = err empty_payload
or_refused (some fs) = ok fs

-- buildUpsertPayload of each row, as fields.
unfoldable pub chunk_payloads :
    (Bytes → Option Fields)
    → TableSpec
    → String
    → List SnapshotRow
    → Result ApplyError (List Fields)
unfolding or_refused
chunk_payloads object spec region [] = ok []
chunk_payloads object spec region (r ∷ rs) = do
  fs ← or_refused (object r.payload)
  rest ← chunk_payloads object spec region rs
  ok (build_upsert_payload spec region fs ∷ rest)

-- Whether the statement inserts or updates the row of this key.
unfoldable pub affects : TableSpec → UpsertQuery → Row → Option (List Bytes) → Rows → Bool
affects spec q src none rows = false
affects spec q src (some key) rows = elim (rows key) [
  | none ↦ true
  | some target ↦ owner_region_condition spec target (src spec.region_field)
]

abbrev pub is_touched : List (List Bytes) → Option (List Bytes) → Bool
is_touched touched none = false
is_touched touched (some key) = contains key touched

abbrev pub touch : Bool → Option (List Bytes) → List (List Bytes) → List (List Bytes)
touch affected none touched = touched
touch affected (some key) touched = if affected then key ∷ touched else touched

-- INSERT … ON CONFLICT DO UPDATE cannot affect a row a second time: `touched` holds the keys of the
-- rows that it affected.
unfoldable pub upsert_chunk :
    TableSpec → UpsertQuery → List (List Bytes) → List Fields → Rows → Result ApplyError Rows
unfolding affects
upsert_chunk spec q touched [] rows = ok rows
upsert_chunk spec q touched (p ∷ ps) rows = do
  let src = selected q.columns (record_row p)
  let key = row_key spec src
  fail_if (q.does_update && is_touched touched key) row_affected_twice
  rows' ← upsert_row spec q p rows
  upsert_chunk spec q (touch (affects spec q src key rows) key touched) ps rows'

-- The first row chooses the columns.
unfoldable pub apply_snapshot_chunk :
    (Bytes → Option Fields) → String → String → List SnapshotRow → Store → Result ApplyError Store
unfolding or_refused chunk_payloads upsert_chunk
apply_snapshot_chunk object region table [] s = ok s
apply_snapshot_chunk object region table (r ∷ rs) s = do
  spec ← table_spec table s
  sample ← or_refused (object r.payload)
  q ← build_batch_upsert_query spec (build_upsert_payload spec region sample) true
  payloads ← chunk_payloads object spec region (r ∷ rs)
  rows ← upsert_chunk spec q [] payloads (s.rows table)
  ok (write table rows s)
