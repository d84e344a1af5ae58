-- ===== src/Snapshot/Transfer.antt =====
-- `SendToPeer` hands over every row of the table once: the next query continues where the chunk ended.
pub mod Rounds
pub mod Complete
pub mod Leased
use transmogr.Base.{
  ℕ, zero, suc, ◌+◌, ◌<◌, ◌≤◌, String, ◌≡◌, refl, sym, ap, ◌∙◌, Bool, true, false, ◌&&◌, Option,
  none, some, List, [], ◌∷◌, ◌++◌, map, arith, All, keep, take, drop, length, last?, is_empty, ltb,
  if◌then◌else◌, Result, ok, err, Bool-cases, inl, inr, length-take, length-drop, take-append-drop,
}
use transmogr.Base.Order.{Ordering, Lawful, Lawful-on, Any, is_lt}
use transmogr.Base.Sorting.{sort_by, sort_by-All}
use transmogr.Base.Sorting.Strict.{
  IsApart, keep-IsApart, sort_by-IsStrict, keep-sort_by, keep-above_last, last-All,
}
use transmogr.Models.Json.{Bytes}
use transmogr.Models.PrimaryKey.{PrimaryKey}
use transmogr.Models.State.{SnapshotChunk, SnapshotRow}
use transmogr.Apply.Rows.{TableSpec, Row, record_row}
use transmogr.Apply.Batches.{pk_fields}
use transmogr.Snapshot.Source.{
  Source, row_of, object_or_empty, in_region, is_after, is_selected, cmp_payloads, select_after,
  row_gt, read_snapshot_chunk, table_spec,
}
use transmogr.Snapshot.Source.Order.{IsFull, cmp_rows-Lawful, row_gt-cmp_rows, row_gt_trans}
use transmogr.Snapshot.Source.Keys.{
  IsReadable, key_parts, snapshot_row, scan_rows-readable, cursor-row_gt,
}
use transmogr.Snapshot.Sender.{
  Service, Calls, Transfer, SendError, region_of, last_key, send_loop, read_local_chunk, send_chunk,
  answered,
}

-- The table is configured with a primary key, by which its rows differ, and each key column's order
-- is a total preorder.
pub record IsServed (src : Source) (table : String) (spec : TableSpec) : Type 0 where
  pub configured : src.specs table ≡ some spec
  pub has_key : is_empty spec.primary_key ≡ false
  pub readable : All (IsReadable src spec) (src.tables table)
  pub apart : IsApart (cmp_payloads src spec) (src.tables table)
  pub lawful : (c : String) → Lawful Any (src.order c)

keep-keep {ℓ} :
    {A : Type ℓ} (f g h : A → Bool) (xs : List A)
    → All (λ x. f x ≡ (g x && h x)) xs
    → keep f xs ≡ keep h (keep g xs)
keep-keep f g h [] e = refl
keep-keep f g h (x ∷ xs) e = ground (arith, e.0, keep-keep f g h xs e.1)

pub last-map {ℓ κ} :
    {A : Type ℓ} {B : Type κ} (f : A → B) (xs : List A) (b : B)
    → last? (map f xs) ≡ some b
    → (a : A) × (last? xs ≡ some a) × (b ≡ f a)
last-map f [] b e = cc
last-map f (x ∷ []) b e = (x, refl, cc)
last-map f (x ∷ y ∷ ys) b e = last-map f (y ∷ ys) b e

module _ (src : Source) (table : String) (spec : TableSpec) (served : IsServed src table spec)
    (local_region : String) where
  cmp_payloads-Lawful : Lawful Any (cmp_payloads src spec)
  cmp_payloads-Lawful =
      Lawful-on Any _ (row_of src) (cmp_rows-Lawful src.order served.lawful spec.primary_key)

  abbrev pub rows_after : PrimaryKey → List Bytes
  rows_after after = select_after src spec local_region after (src.tables table)

  abbrev pub key_of : Bytes → PrimaryKey
  key_of p = key_parts (src.types table) (object_or_empty (src.object p)) spec.primary_key

  row-IsFull : (p : Bytes) → IsReadable src spec p → IsFull spec.primary_key (row_of src p)
  row-IsFull p h = rw h.decoded h.keyed

  has_parts : (p : Bytes) → is_empty (key_of p) ≡ false
  unfolding key_parts
  has_parts p = some_columns spec.primary_key served.has_key
    where
      some_columns :
          (cs : List String)
          → is_empty cs ≡ false
          → is_empty (key_parts (src.types table) (object_or_empty (src.object p)) cs) ≡ false
      some_columns [] h = cc
      some_columns (c ∷ cs) h = refl

  -- After the key of a row that was selected, the query selects the rows above it.
  selected_after_row :
      (after : PrimaryKey) (p q : Bytes)
      → IsReadable src spec p
      → is_selected src spec local_region after p ≡ true
      → IsReadable src spec q
      → is_selected src spec local_region (key_of p) q
        ≡ (is_selected src spec local_region after q && is_lt (cmp_payloads src spec p q))
  unfolding is_selected is_after
  selected_after_row after p q hp sp hq = ground (
    arith,
    has_parts p,
    cursor-row_gt src.order (src.types table) (object_or_empty (src.object p)) spec.primary_key
        (row_of src q) (row-IsFull p hp),
    row_gt-cmp_rows src.order served.lawful spec.primary_key (row_of src q) (row_of src p)
        (row-IsFull q hq) (row-IsFull p hp),
    row_gt_trans src.order served.lawful spec.primary_key (row_of src q) (row_of src p)
        (record_row (pk_fields after)) (row-IsFull q hq) (row-IsFull p hp),
  )

  abbrev pub IsChosen : PrimaryKey → Bytes → Type 0
  IsChosen after p = IsReadable src spec p × (is_selected src spec local_region after p ≡ true)

  kept-IsChosen :
      (after : PrimaryKey) (ps : List Bytes)
      → All (IsReadable src spec) ps
      → All (IsChosen after) (keep (is_selected src spec local_region after) ps)
  kept-IsChosen after [] h = tt
  kept-IsChosen after (p ∷ ps) h = elim (Bool-cases (is_selected src spec local_region after p)) [
    | inl e ↦ rw e ((h.0, e), kept-IsChosen after ps h.1)
    | inr e ↦ rw e (kept-IsChosen after ps h.1)
  ]

  pub rows_after-IsChosen : (after : PrimaryKey) → All (IsChosen after) (rows_after after)
  unfolding select_after
  rows_after-IsChosen after =
      sort_by-All (cmp_payloads src spec) (IsChosen after) _
        (kept-IsChosen after (src.tables table) served.readable)

  All-Any : (ps : List Bytes) → All Any ps
  All-Any [] = tt
  All-Any (p ∷ ps) = (tt, All-Any ps)

  select-keep :
      (after : PrimaryKey) (p : Bytes) (ps : List Bytes)
      → IsChosen after p
      → All (IsReadable src spec) ps
      → All
          (λ q.
            is_selected src spec local_region (key_of p) q
            ≡ (is_selected src spec local_region after q && is_lt (cmp_payloads src spec p q)))
          ps
  select-keep after p [] c h = tt
  select-keep after p (q ∷ qs) c h =
      (selected_after_row after p q c.0 c.1 h.0, select-keep after p qs c h.1)

  -- The next query returns what this one left.
  pub rows_after_chunk :
      (after : PrimaryKey) (n : ℕ) (p : Bytes)
      → last? (take n (rows_after after)) ≡ some p
      → rows_after (key_of p) ≡ drop n (rows_after after)
  unfolding select_after
  rows_after_chunk after n p e =
      let chosen : IsChosen after p =
        last-All (cmp_payloads src spec) cmp_payloads-Lawful (IsChosen after) n (rows_after after) p
          (rows_after-IsChosen after) e in
      let kept = keep (is_selected src spec local_region after) (src.tables table) in
      let above = λ (q : Bytes). is_lt (cmp_payloads src spec p q) in
      ap (sort_by (cmp_payloads src spec)) (
        keep-keep _ _ above (src.tables table)
          (select-keep after p (src.tables table) chosen served.readable))
      ∙ sym (keep-sort_by Any (cmp_payloads src spec) cmp_payloads-Lawful above kept (All-Any kept))
      ∙ keep-above_last (cmp_payloads src spec) cmp_payloads-Lawful n _ p
          (sort_by-IsStrict (cmp_payloads src spec) cmp_payloads-Lawful kept
            (keep-IsApart (cmp_payloads src spec) _ (src.tables table) served.apart))
          e
