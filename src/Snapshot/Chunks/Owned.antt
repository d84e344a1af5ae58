-- ===== src/Snapshot/Chunks/Owned.antt =====
-- The ownership of a row through the chunks of a snapshot.
use mathlib.Core.Path.{subst}
use transmogr.Base.{
  String, ◌≡◌, ◌≢◌, Bool, true, false, Option, some, List, [], ◌∷◌, All, ◌==◌, string_eq, list_eq,
  nat_eq, Result, ok, err, ◌>>=◌, ◌>>◌, fail_if,
}
use transmogr.Models.Events.{Fields}
use transmogr.Models.Json.{Bytes, json_string}
use transmogr.Models.State.{SnapshotRow}
use transmogr.Apply.Rows.{
  TableSpec, Row, Rows, ApplyError, row_affected_twice, build_upsert_payload,
  build_batch_upsert_query, UpsertQuery, upsert_row, selected, record_row, row_key,
}
use transmogr.Apply.Batches.{Store, table_spec}
use transmogr.Apply.Invariants.{Keeps, ok-Keeps, bind-Keeps}
use transmogr.Apply.Ownership.{KeepsRow, IsForeign, continue, upsert_row-KeepsRow}
use transmogr.Apply.Ownership.Batches.{
  Owned, RowAfter, Holds, write-Holds, same_spec, payload-IsForeign, kept_rows, kept_row,
}
use transmogr.Snapshot.Chunks.{
  or_refused, chunk_payloads, touch, affects, upsert_chunk, apply_snapshot_chunk,
}

module _ (table : String) (key : List Bytes) (target : Row) (spec : TableSpec) (owner : Bytes)
    (named : (spec.region_field == "") ≡ false) (owned : target spec.region_field ≡ some owner)
    (region : String) (foreign : json_string region ≢ owner)
    (has_region : (region == "") ≡ false) where
  abbrev Kept : Result ApplyError Rows → Type 0
  Kept = KeepsRow spec region owner key target named owned foreign

  abbrev AllForeign : Result ApplyError (List Fields) → Type 0
  AllForeign (ok ps) = All (IsForeign spec region owner key target named owned foreign) ps
  AllForeign (err e) = Unit

  add_foreign :
      (fs : Fields) (r : Result ApplyError (List Fields))
      → AllForeign r
      → AllForeign (r >>= λ rest. ok (build_upsert_payload spec region fs ∷ rest))
  add_foreign fs (ok ps) h =
      (payload-IsForeign table key target spec owner named owned region foreign fs has_region, h)
  add_foreign fs (err e) h = tt

  decoded_foreign :
      (d : Result ApplyError Fields) (later : Result ApplyError (List Fields))
      → AllForeign later
      → AllForeign (d >>= λ fs. later >>= λ rest. ok (build_upsert_payload spec region fs ∷ rest))
  decoded_foreign (ok fs) later h = add_foreign fs later h
  decoded_foreign (err e) later h = tt

  payloads-AllForeign :
      (object : Bytes → Option Fields) (rows : List SnapshotRow)
      → AllForeign (chunk_payloads object spec region rows)
  unfolding chunk_payloads
  payloads-AllForeign object [] = tt
  payloads-AllForeign object (r ∷ rs) =
      decoded_foreign (or_refused (object r.payload)) (chunk_payloads object spec region rs)
        (payloads-AllForeign object rs)

  guarded :
      (b : Bool) (m : Result ApplyError Rows) → Kept m → Kept (fail_if b row_affected_twice >> m)
  guarded true m h = tt
  guarded false m h = h

  upsert_chunk-Kept :
      (q : UpsertQuery) (touched : List (List Bytes)) (ps : List Fields) (rows : Rows)
      → All (IsForeign spec region owner key target named owned foreign) ps
      → rows key ≡ some target
      → Kept (upsert_chunk spec q touched ps rows)
  unfolding upsert_chunk
  upsert_chunk-Kept q touched [] rows f h = h
  upsert_chunk-Kept q touched (p ∷ ps) rows f h = guarded _ _ (
      continue spec region owner key target named owned foreign _ (upsert_row spec q p rows)
        (upsert_row-KeepsRow spec region owner key target named owned foreign q p rows f.0 h)
        λ rows' h'.
          let key = row_key spec (selected q.columns (record_row p)) in
          upsert_chunk-Kept q
            (touch (affects spec q (selected q.columns (record_row p)) key rows) key touched) ps
            rows' f.1 h')

  all_foreign :
      (r : Result ApplyError (List Fields)) (ps : List Fields)
      → AllForeign r
      → r ≡ ok ps
      → All (IsForeign spec region owner key target named owned foreign) ps
  all_foreign (ok qs) ps h e =
      subst (All (IsForeign spec region owner key target named owned foreign)) (cc) h
  all_foreign (err x) ps h e = cc

  abbrev Stays : Store → Type 0
  Stays = Holds table key target spec owner named owned

  -- The statement on the rows of the table itself.
  upserted :
      (object : Bytes → Option Fields) (t : String) (found : TableSpec) (q : UpsertQuery)
      (chunk : List SnapshotRow) (ps : List Fields) (s : Store) (rows : Rows)
      → Stays s
      → found ≡ spec
      → t ≡ table
      → chunk_payloads object found region chunk ≡ ok ps
      → upsert_chunk found q [] ps (s.rows t) ≡ ok rows
      → rows key ≡ some target
  upserted object t found q chunk ps s rows h same_spec same_table e f =
      let decoded : chunk_payloads object spec region chunk ≡ ok ps =
        subst (λ x. chunk_payloads object x region chunk ≡ ok ps) same_spec e in
      let written : upsert_chunk spec q [] ps (s.rows table) ≡ ok rows =
        subst (λ x. upsert_chunk x q [] ps (s.rows table) ≡ ok rows) same_spec
          (subst (λ x. upsert_chunk found q [] ps (s.rows x) ≡ ok rows) same_table f) in
      kept_rows table key target spec owner named owned region foreign
        (upsert_chunk spec q [] ps (s.rows table)) rows
        (upsert_chunk-Kept q [] ps (s.rows table)
          (all_foreign _ ps (payloads-AllForeign object chunk) decoded) h.1)
        written

  chunk-Stays :
      (object : Bytes → Option Fields) (t : String) (chunk : List SnapshotRow) (s : Store)
      → Stays s
      → Keeps Stays (apply_snapshot_chunk object region t chunk s)
  unfolding apply_snapshot_chunk
  chunk-Stays object t [] s h = ok-Keeps Stays s h
  chunk-Stays object t (r ∷ rs) s h = bind-Keeps Stays (table_spec t s) _ λ found e₁.
      bind-Keeps Stays (or_refused (object r.payload)) _ λ sample e₂.
        bind-Keeps Stays
          (build_batch_upsert_query found (build_upsert_payload found region sample) true) _
          λ q e₃. bind-Keeps Stays (chunk_payloads object found region (r ∷ rs)) _ λ ps e₄.
            bind-Keeps Stays (upsert_chunk found q [] ps (s.rows t)) _ λ rows e₅. ok-Keeps Stays _ (
              write-Holds table key target spec owner named owned t rows s h λ same.
                upserted object t found q (r ∷ rs) ps s rows h
                  (same_spec table key target spec owner named owned t s found h same e₁) same e₄
                  e₅)

-- A chunk from a region other than the owner of a row leaves that row as it is, in a table with a
-- region column: a snapshot never overwrites what another region owns, whatever its rows say.
pub apply_snapshot_chunk-Owned :
    (object : Bytes → Option Fields) (region t : String) (chunk : List SnapshotRow) (s : Store)
    (table : String) (key : List Bytes) (target : Row) (o : Owned s table key target)
    → (region == "") ≡ false
    → json_string region ≢ o.owner
    → RowAfter (apply_snapshot_chunk object region t chunk s) table key target
apply_snapshot_chunk-Owned object region t chunk s table key target o has_region foreign =
    kept_row table key target o.spec o.owner o.named o.owned
      (apply_snapshot_chunk object region t chunk s)
      (chunk-Stays table key target o.spec o.owner o.named o.owned region foreign has_region object
        t chunk s (o.configured, o.present))
