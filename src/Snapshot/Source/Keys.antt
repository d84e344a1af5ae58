-- ===== src/Snapshot/Source/Keys.antt =====
-- The rows that a query reads: their keys, and where a later query goes on from.
use transmogr.Base.{
  String, ◌≡◌, refl, true, Option, none, some, List, [], ◌∷◌, ◌++◌, map, arith, All, contains,
  if◌then◌else◌, string_eq, eq_iff, beq_refl, ok,
}
use transmogr.Base.Int.{pos}
use transmogr.Base.Order.{Ordering}
use transmogr.Base.Tables.{Table}
use transmogr.Models.Events.{Fields}
use transmogr.Models.Json.{Bytes}
use transmogr.Models.PrimaryKey.{
  PrimaryKey, PrimaryKeyType, or_unspecified, cons_part, primary_key_parts_from_map,
}
use transmogr.Models.State.{SnapshotRow}
use transmogr.Apply.Rows.{TableSpec, Row, field, record_row, sql_value}
use transmogr.Apply.Batches.{pk_fields}
use transmogr.Snapshot.Source.{Source, object_or_empty, scan_rows, row_gt}
use transmogr.Snapshot.Source.Order.{IsFull}

-- A row of the database decodes as an object, and none of its key columns is NULL.
pub record IsReadable (src : Source) (spec : TableSpec) (payload : Bytes) : Type 0 where
  pub fields : Fields
  pub decoded : src.object payload ≡ some fields
  pub keyed : IsFull spec.primary_key (record_row fields)

abbrev value_or_empty : Option Bytes → Bytes
value_or_empty none = []
value_or_empty (some v) = v

unfoldable pub key_parts : Table String PrimaryKeyType → Fields → List String → PrimaryKey
key_parts types fs [] = []
key_parts types fs (c ∷ cs) =
    (record {
      column = c;
      key_type = or_unspecified (types c);
      value = value_or_empty (field c fs);
    })
    ∷ key_parts types fs cs

field_of_full :
    (c : String) (fs : Fields) (v : Bytes) → record_row fs c ≡ some v → field c fs ≡ some v
field_of_full c fs v e = sql (field c fs) e
  where
    sql : (o : Option Bytes) → sql_value o ≡ some v → o ≡ some v
    sql none e = cc
    sql (some w) e = ground arith

parts-key_parts :
    (types : Table String PrimaryKeyType) (fs : Fields) (cs : List String)
    → IsFull cs (record_row fs)
    → primary_key_parts_from_map (λ c. field c fs) cs types ≡ ok (key_parts types fs cs)
unfolding primary_key_parts_from_map key_parts cons_part
parts-key_parts types fs [] h = refl
parts-key_parts types fs (c ∷ cs) h =
    let (v, e) = h.0 in ground (arith, field_of_full c fs v e, parts-key_parts types fs cs h.1)

abbrev or_else : Option Bytes → Option Bytes → Option Bytes
or_else none o = o
or_else (some v) o = some v

field-append :
    (c : String) (xs ys : Fields) → field c (xs ++ ys) ≡ or_else (field c xs) (field c ys)
field-append c [] ys = refl
field-append c ((d, v) ∷ xs) ys = ground (arith, field-append c xs ys)

field-key_parts :
    (types : Table String PrimaryKeyType) (fs : Fields) (cs : List String) (c : String)
    → IsFull cs (record_row fs)
    → field c (pk_fields (key_parts types fs cs)) ≡ (if contains c cs then field c fs else none)
unfolding key_parts pk_fields
field-key_parts types fs [] c h = refl
field-key_parts types fs (d ∷ cs) c h =
    let (v, e) = h.0 in
    ground (
      arith,
      field_of_full d fs v e,
      field-append c (pk_fields (key_parts types fs cs)) ((d, value_or_empty (field d fs)) ∷ []),
      field-key_parts types fs cs c h.1,
      eq_iff d c,
    )

row_gt_congr :
    (order : String → Bytes → Bytes → Ordering) (cs : List String) (t u w : Row)
    → All (λ c. u c ≡ w c) cs
    → row_gt order cs t u ≡ row_gt order cs t w
unfolding row_gt
row_gt_congr order [] t u w h = refl
row_gt_congr order (c ∷ cs) t u w h = rw (h.0, row_gt_congr order cs t u w h.1) refl

same_columns :
    (types : Table String PrimaryKeyType) (fs : Fields) (cs ds : List String)
    → IsFull cs (record_row fs)
    → All (λ c. contains c cs ≡ true) ds
    → All (λ c. record_row (pk_fields (key_parts types fs cs)) c ≡ record_row fs c) ds
same_columns types fs cs [] h k = tt
same_columns types fs cs (d ∷ ds) h k =
    (rw (field-key_parts types fs cs d h, k.0) refl, same_columns types fs cs ds h k.1)

contains-later :
    (d : String) (cs ds : List String)
    → All (λ c. contains c cs ≡ true) ds
    → All (λ c. contains c (d ∷ cs) ≡ true) ds
contains-later d cs [] h = tt
contains-later d cs (x ∷ xs) h = (ground (arith, h.0), contains-later d cs xs h.1)

contains_all : (cs : List String) → All (λ c. contains c cs ≡ true) cs
contains_all [] = tt
contains_all (c ∷ cs) = (rw (beq_refl c) refl, contains-later c cs cs (contains_all cs))

-- The cursor that is made of a row's key stands for the row.
pub cursor-row_gt :
    (order : String → Bytes → Bytes → Ordering) (types : Table String PrimaryKeyType) (fs : Fields)
    (cs : List String) (t : Row)
    → IsFull cs (record_row fs)
    → row_gt order cs t (record_row (pk_fields (key_parts types fs cs)))
      ≡ row_gt order cs t (record_row fs)
cursor-row_gt order types fs cs t h =
    row_gt_congr order cs t _ _ (same_columns types fs cs cs h (contains_all cs))

module _ (src : Source) (spec : TableSpec) (types : Table String PrimaryKeyType) where
  unfoldable pub snapshot_row : Bytes → SnapshotRow
  unfolding key_parts
  snapshot_row payload = record {
    primary_key = key_parts types (object_or_empty (src.object payload)) spec.primary_key;
    payload = payload;
    metadata = [];
    version = pos 0;
  }

  -- A query whose rows are readable returns all of them, with their keys.
  pub scan_rows-readable :
      (payloads : List Bytes)
      → All (IsReadable src spec) payloads
      → scan_rows src spec types payloads ≡ ok (map snapshot_row payloads)
  unfolding scan_rows snapshot_row
  scan_rows-readable [] h = refl
  scan_rows-readable (p ∷ ps) h =
      rw
        (
          h.0.decoded,
          parts-key_parts types h.0.fields spec.primary_key h.0.keyed,
          scan_rows-readable ps h.1,
        )
        refl
