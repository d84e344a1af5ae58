-- ===== src/Snapshot/Source.antt =====
-- `ReadSnapshotChunk` of internal/repository/postgres/snapshot.go. A row of the database is its
-- `to_jsonb` payload; the order of each key column's SQL type is a parameter, as is the decoding of a
-- JSON object.
pub mod Order
pub mod Keys
use transmogr.Base.{
  ℕ, String, Bool, true, false, ◌&&◌, ◌||◌, Option, none, some, List, [], ◌∷◌, map, keep, is_empty,
  take, length, ltb, if◌then◌else◌, ◌==◌, string_eq, Result, ok, err, ◌>>=◌,
}
use transmogr.Base.Int.{pos}
use transmogr.Base.Order.{Ordering, then_cmp}
use transmogr.Base.Sorting.{sort_by}
use transmogr.Base.Tables.{Table}
use transmogr.Models.Events.{Fields}
use transmogr.Models.Json.{Bytes, json_string}
use transmogr.Models.PrimaryKey.{
  PrimaryKey, PrimaryKeyType, MissingColumn, primary_key_parts_from_map,
}
use transmogr.Models.State.{SnapshotRow, SnapshotChunk}
use transmogr.Apply.Rows.{TableSpec, Row, field, record_row, same_value}
use transmogr.Apply.Batches.{pk_fields}

-- The database of the sender, and what its code takes from PostgreSQL and encoding/json.
pub record Source : Type 0 where
  pub specs : Table String TableSpec
  pub types : String → Table String PrimaryKeyType
  pub tables : String → List Bytes
  pub object : Bytes → Option Fields
  pub order : String → Bytes → Bytes → Ordering

pub record SnapshotReadRequest : Type 0 where
  pub table : String
  pub after_primary_key : PrimaryKey
  pub limit : ℕ
  pub local_region : String

pub data ReadError : Type 0 where
  not_configured not_an_object : ReadError
  missing_column : String → ReadError

abbrev pub object_or_empty : Option Fields → Fields
object_or_empty none = []
object_or_empty (some fs) = fs

abbrev pub row_of : Source → Bytes → Row
row_of src payload = record_row (object_or_empty (src.object payload))

-- ORDER BY: NULLs come last.
abbrev pub cmp_value : (Bytes → Bytes → Ordering) → Option Bytes → Option Bytes → Ordering
cmp_value order none none = Ordering.eq
cmp_value order none (some w) = Ordering.gt
cmp_value order (some v) none = Ordering.lt
cmp_value order (some v) (some w) = order v w

unfoldable pub cmp_rows : (String → Bytes → Bytes → Ordering) → List String → Row → Row → Ordering
cmp_rows order [] t u = Ordering.eq
cmp_rows order (c ∷ cs) t u = then_cmp (cmp_value (order c) (t c) (u c)) (cmp_rows order cs t u)

-- (t.a, t.b, …) > (cursor.a, cursor.b, …): a NULL that is compared gives no truth.
abbrev pub decide_gt : Ordering → Bool → Bool
decide_gt Ordering.gt rest = true
decide_gt Ordering.eq rest = rest
decide_gt Ordering.lt rest = false

abbrev pub gt_value : (Bytes → Bytes → Ordering) → Option Bytes → Option Bytes → Bool → Bool
gt_value order none w rest = false
gt_value order (some v) none rest = false
gt_value order (some v) (some w) rest = decide_gt (order v w) rest

unfoldable pub row_gt : (String → Bytes → Bytes → Ordering) → List String → Row → Row → Bool
row_gt order [] t u = false
row_gt order (c ∷ cs) t u = gt_value (order c) (t c) (u c) (row_gt order cs t u)

-- The two parts of the WHERE clause.
unfoldable pub in_region : TableSpec → String → Row → Bool
in_region spec local_region t =
    spec.region_field == ""
    || local_region == ""
    || same_value (t spec.region_field) (some (json_string local_region))

unfoldable pub is_after : Source → TableSpec → PrimaryKey → Row → Bool
unfolding row_gt
is_after src spec after t =
    is_empty after || row_gt src.order spec.primary_key t (record_row (pk_fields after))

unfoldable pub is_selected : Source → TableSpec → String → PrimaryKey → Bytes → Bool
unfolding in_region is_after
is_selected src spec local_region after payload =
    in_region spec local_region (row_of src payload) && is_after src spec after (row_of src payload)

abbrev pub cmp_payloads : Source → TableSpec → Bytes → Bytes → Ordering
cmp_payloads src spec a b = cmp_rows src.order spec.primary_key (row_of src a) (row_of src b)

-- SELECT … WHERE … ORDER BY primary key
unfoldable pub select_after : Source → TableSpec → String → PrimaryKey → List Bytes → List Bytes
unfolding is_selected
select_after src spec local_region after payloads =
    sort_by (cmp_payloads src spec) (keep (is_selected src spec local_region after) payloads)

scanned : Bytes → Result MissingColumn PrimaryKey → Result ReadError SnapshotRow
scanned payload (ok key) =
    ok (record { primary_key = key; payload = payload; metadata = []; version = pos 0 })
scanned payload (err e) = err (missing_column e.column)

-- PrimaryKeyPartsFromPayload
scan_object :
    TableSpec → Table String PrimaryKeyType → Bytes → Option Fields → Result ReadError SnapshotRow
unfolding scanned
scan_object spec types payload none = err not_an_object
scan_object spec types payload (some fs) =
    scanned payload (primary_key_parts_from_map (λ c. field c fs) spec.primary_key types)

unfoldable pub scan_row :
    Source → TableSpec → Table String PrimaryKeyType → Bytes → Result ReadError SnapshotRow
unfolding scan_object
scan_row src spec types payload = scan_object spec types payload (src.object payload)

unfoldable pub scan_rows :
    Source
    → TableSpec
    → Table String PrimaryKeyType
    → List Bytes
    → Result ReadError (List SnapshotRow)
unfolding scan_row
scan_rows src spec types [] = ok []
scan_rows src spec types (p ∷ ps) = do
  row ← scan_row src spec types p
  rows ← scan_rows src spec types ps
  ok (row ∷ rows)

found_spec : Option TableSpec → Result ReadError TableSpec
found_spec none = err not_configured
found_spec (some spec) = ok spec

unfoldable pub table_spec : Source → String → Result ReadError TableSpec
unfolding found_spec
table_spec src table = found_spec (src.specs table)

unfoldable pub read_snapshot_chunk : Source → SnapshotReadRequest → Result ReadError SnapshotChunk
unfolding table_spec select_after scan_rows
read_snapshot_chunk src req = do
  spec ← table_spec src req.table
  rows ← scan_rows src spec (src.types req.table) (
      take req.limit
        (select_after src spec req.local_region req.after_primary_key (src.tables req.table)))
  ok (record { rows = rows; last = ltb (length rows) req.limit; watermark = 0 })
