-- ===== src/Apply/Ownership.antt =====
-- A peer's events never change a row that another region owns.
pub mod Batches
use transmogr.Base.{
  ℕ, String, Bool, true, false, not, ◌&&◌, Option, none, some, List, [], ◌∷◌, ◌≡◌, ◌≢◌, ◌⊎◌, inl,
  inr, refl, sym, ◌∙◌, arith, All, All-keep, keep, if◌then◌else◌, ◌==◌, string_eq, list_eq, nat_eq,
  Result, ok, err, ◌>>=◌, ◌>>◌, fail_if, eq_iff, list_beq_iff, Bool-cases, Option-cases, contains,
}
use transmogr.Base.Tables.{Table, put, remove}
use transmogr.Base.Text.{codes}
use transmogr.Models.Events.{ReplicationEvent, Operation, ApplyMode, Fields}
use transmogr.Models.Json.{Bytes, json_string}
use transmogr.Models.State.{Scope, scope_eq, scope_beq_iff}
use transmogr.Apply.Rows.{
  TableSpec, Row, Rows, ApplyError, field, record_row, row_key, selected, owner_region_condition,
  build_upsert_payload, UpsertQuery, insert_at, update_at, delete_at, upsert_row, upsert_rows,
  update_row, update_rows, delete_row, delete_rows,
}

-- One table: the row `target` under `key` belongs to the region whose encoded name is `owner`, and
-- the events come from another region.
module _ (spec : TableSpec) (region : String) (owner : Bytes) (key : List Bytes) (target : Row)
    (named : (spec.region_field == "") ≡ false) (owned : target spec.region_field ≡ some owner)
    (foreign : json_string region ≢ owner) where
  abbrev pub KeepsRow : Result ApplyError Rows → Type 0
  KeepsRow (ok rows) = rows key ≡ some target
  KeepsRow (err e) = Unit

  -- The region that the payload carries is the sender's.
  abbrev pub IsForeign : Fields → Type 0
  IsForeign p = record_row p spec.region_field ≡ some (json_string region)

  insert_at-KeepsRow :
      (q : UpsertQuery) (src : Row) (at : Option (List Bytes)) (rows : Rows)
      → (src spec.region_field ≡ none) ⊎ (src spec.region_field ≡ some (json_string region))
      → rows key ≡ some target
      → KeepsRow (insert_at spec q src at rows)
  unfolding insert_at owner_region_condition
  insert_at-KeepsRow q src none rows f h = tt
  insert_at-KeepsRow q src (some k) rows f h =
      ground (arith, list_beq_iff k key, list_beq_iff owner (json_string region))

  selected_region :
      (columns : List String) (p : Fields)
      → IsForeign p
      → (selected columns (record_row p) spec.region_field ≡ none)
        ⊎ (selected columns (record_row p) spec.region_field ≡ some (json_string region))
  selected_region columns p f = elim (Bool-cases (contains spec.region_field columns)) [
    | inl e ↦ inr (rw e f)
    | inr e ↦ inl (rw e)
  ]

  pub upsert_row-KeepsRow :
      (q : UpsertQuery) (p : Fields) (rows : Rows)
      → IsForeign p
      → rows key ≡ some target
      → KeepsRow (upsert_row spec q p rows)
  unfolding upsert_row
  upsert_row-KeepsRow q p rows f h =
      insert_at-KeepsRow q (selected q.columns (record_row p)) _ rows
        (selected_region q.columns p f) h

  update_at-KeepsRow :
      (assigned : List String) (src : Row) (at : Option (List Bytes)) (rows : Rows)
      → rows key ≡ some target
      → update_at spec region assigned src at rows key ≡ some target
  unfolding update_at
  update_at-KeepsRow assigned src none rows h = h
  update_at-KeepsRow assigned src (some k) rows h =
      ground (arith, list_beq_iff k key, list_beq_iff owner (json_string region))

  delete_at-KeepsRow :
      (at : Option (List Bytes)) (rows : Rows)
      → rows key ≡ some target
      → delete_at spec region at rows key ≡ some target
  unfolding delete_at owner_region_condition
  delete_at-KeepsRow none rows h = h
  delete_at-KeepsRow (some k) rows h =
      ground (arith, list_beq_iff k key, list_beq_iff owner (json_string region))

  pub continue :
      (k : Rows → Result ApplyError Rows) (r : Result ApplyError Rows)
      → KeepsRow r
      → ((rows : Rows) → rows key ≡ some target → KeepsRow (k rows))
      → KeepsRow (r >>= k)
  continue k (ok rows) h next = next rows h
  continue k (err e) h next = tt

  pub upsert_rows-KeepsRow :
      (q : UpsertQuery) (ps : List Fields) (rows : Rows)
      → All IsForeign ps
      → rows key ≡ some target
      → KeepsRow (upsert_rows spec q ps rows)
  unfolding upsert_rows
  upsert_rows-KeepsRow q [] rows f h = h
  upsert_rows-KeepsRow q (p ∷ ps) rows f h =
      continue (upsert_rows spec q ps) (upsert_row spec q p rows)
        (upsert_row-KeepsRow q p rows f.0 h) (λ rows' k. upsert_rows-KeepsRow q ps rows' f.1 k)

  pub update_rows-KeepsRow :
      (assigned : List String) (ps : List Fields) (rows : Rows)
      → rows key ≡ some target
      → update_rows spec region assigned ps rows key ≡ some target
  unfolding update_rows update_row
  update_rows-KeepsRow assigned [] rows h = h
  update_rows-KeepsRow assigned (p ∷ ps) rows h =
      update_rows-KeepsRow assigned ps _ (update_at-KeepsRow assigned (record_row p) _ rows h)

  pub delete_rows-KeepsRow :
      (ps : List Fields) (rows : Rows)
      → rows key ≡ some target
      → delete_rows spec region ps rows key ≡ some target
  unfolding delete_rows delete_row
  delete_rows-KeepsRow [] rows h = h
  delete_rows-KeepsRow (p ∷ ps) rows h = delete_rows-KeepsRow ps _ (delete_at-KeepsRow _ rows h)
