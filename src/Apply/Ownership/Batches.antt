-- ===== src/Apply/Ownership/Batches.antt =====
-- The ownership of a row through `applyEventsBatch`.
use mathlib.Core.Path.{subst}
use transmogr.Base.{
  String, true, false, not, some, List, [], ◌∷◌, ◌≡◌, ◌≢◌, inl, inr, refl, sym, arith, All, keep,
  ◌==◌, string_eq, list_eq, nat_beq, is_empty, Result, ok, err, Bool-cases, contains, beq→eq,
  beq_refl,
}
use transmogr.Models.Events.{ReplicationEvent, ApplyMode, Fields}
use transmogr.Models.Json.{Bytes, json_string}
use transmogr.Models.State.{scope_eq}
use transmogr.Apply.Rows.{
  TableSpec, Row, Rows, ApplyError, empty_payload, argument_count, build_upsert_payload,
  build_batch_upsert_query, upsert_rows, update_rows, delete_rows, names, UpsertQuery,
}
use transmogr.Apply.Batches.{
  Store, part_eq, write, payloads, table_spec, apply_upsert_batch, apply_partial_update_group,
  apply_delete_batch, apply_events_batch, is_delete, is_insert_only, has_empty, parameters,
  arguments, pk_payloads, all_fields,
}
use transmogr.Apply.Invariants.{
  Keeps, ok-Keeps, bind-Keeps, guard-Keeps, IsKept, apply_events_batch-Keeps,
}
use transmogr.Apply.Ownership.{
  upsert_rows-KeepsRow, update_rows-KeepsRow, delete_rows-KeepsRow, KeepsRow, IsForeign,
}

-- The row `target` stands in the table under `key`, and is owned by the region encoded as `owner`.
pub record Owned (s : Store) (table : String) (key : List Bytes) (target : Row) : Type 0 where
  pub spec : TableSpec
  pub owner : Bytes
  pub configured : s.specs table ≡ some spec
  pub named : (spec.region_field == "") ≡ false
  pub owned : target spec.region_field ≡ some owner
  pub present : s.rows table key ≡ some target

-- The event names its region, which is not `owner`.
abbrev pub IsFromOther : Bytes → ReplicationEvent → Type 0
IsFromOther owner e = ((e.peer_region == "") ≡ false) × (json_string e.peer_region ≢ owner)

-- What the batch leaves at the place of the row, where it succeeds.
abbrev pub RowAfter : Result ApplyError Store → String → List Bytes → Row → Type 0
RowAfter (ok s) table key target = s.rows table key ≡ some target
RowAfter (err e) table key target = Unit

module _ (table : String) (key : List Bytes) (target : Row) (spec : TableSpec) (owner : Bytes)
    (named : (spec.region_field == "") ≡ false)
    (owned : target spec.region_field ≡ some owner) where
  abbrev pub Holds : Store → Type 0
  Holds s = (s.specs table ≡ some spec) × (s.rows table key ≡ some target)

  pub write-Holds :
      (t : String) (rows : Rows) (s : Store)
      → Holds s
      → (t ≡ table → rows key ≡ some target)
      → Holds (write t rows s)
  write-Holds t rows s h f = elim (Bool-cases (t == table)) [
    | inl e ↦ (h.0, rw e (f (beq→eq t table e)))
    | inr e ↦ (h.0, rw e h.1)
  ]

  pub same_spec :
      (t : String) (s : Store) (found : TableSpec)
      → Holds s
      → t ≡ table
      → table_spec t s ≡ ok found
      → found ≡ spec
  unfolding table_spec
  same_spec t s found h e f = ground (arith, h.0)

  pub payload-IsForeign :
      (region : String) (foreign : json_string region ≢ owner) (fs : Fields)
      → (region == "") ≡ false
      → IsForeign spec region owner key target named owned foreign
          (build_upsert_payload spec region fs)
  unfolding build_upsert_payload json_string
  payload-IsForeign region foreign fs h = rw (named, h) (rw (beq_refl spec.region_field) refl)

  payloads-IsForeign :
      (region : String) (foreign : json_string region ≢ owner) (es : List ReplicationEvent)
      → (region == "") ≡ false
      → All (IsForeign spec region owner key target named owned foreign) (payloads spec region es)
  unfolding payloads
  payloads-IsForeign region foreign [] h = tt
  payloads-IsForeign region foreign (e ∷ es) h =
      (payload-IsForeign region foreign e.fields h, payloads-IsForeign region foreign es h)

  pub kept_rows :
      (region : String) (foreign : json_string region ≢ owner) (r : Result ApplyError Rows)
      (rows : Rows)
      → KeepsRow spec region owner key target named owned foreign r
      → r ≡ ok rows
      → rows key ≡ some target
  kept_rows region foreign (ok x) rows h e = ground arith
  kept_rows region foreign (err x) rows h e = ground arith

  upserted :
      (region : String) (foreign : json_string region ≢ owner) (t : String) (found : TableSpec)
      (q : UpsertQuery) (es : List ReplicationEvent) (s : Store) (rows : Rows)
      → (region == "") ≡ false
      → Holds s
      → found ≡ spec
      → t ≡ table
      → upsert_rows found q (payloads found region es) (s.rows t) ≡ ok rows
      → rows key ≡ some target
  upserted region foreign t found q es s rows n h p same e =
      kept_rows region foreign (upsert_rows spec q (payloads spec region es) (s.rows table)) rows
        (upsert_rows-KeepsRow spec region owner key target named owned foreign q
          (payloads spec region es) (s.rows table) (payloads-IsForeign region foreign es n) h.1)
        (subst (λ x. upsert_rows x q (payloads x region es) (s.rows table) ≡ ok rows) p
          (subst (λ x. upsert_rows found q (payloads found region es) (s.rows x) ≡ ok rows) same e))

  upsert-Keeps :
      (es : List ReplicationEvent) (mode : ApplyMode) (s : Store)
      → All (IsFromOther owner) es
      → Holds s
      → Keeps Holds (apply_upsert_batch es mode s)
  unfolding apply_upsert_batch
  upsert-Keeps [] mode s f h = ok-Keeps Holds s h
  upsert-Keeps (e ∷ es) mode s f h = bind-Keeps Holds (table_spec e.table s) _ λ found e₁.
      guard-Keeps Holds (has_empty (e ∷ es)) empty_payload _ λ _.
        bind-Keeps Holds
          (build_batch_upsert_query found (build_upsert_payload found e.peer_region e.fields)
            (not (is_insert_only mode)))
          _
          λ q _. bind-Keeps Holds (upsert_rows _ _ _ _) _ λ rows e₄. ok-Keeps Holds _ (
            write-Holds e.table rows s h λ same.
              upserted e.peer_region f.0.1 e.table found q (e ∷ es) s rows f.0.0 h
                (same_spec e.table s found h same e₁) same e₄)

  -- The rows after a statement that changes the table as `change` does, whatever the table's state.
  changed :
      (t : String) (s : Store) (found : TableSpec) (change : TableSpec → Rows → Rows)
      → ((rows : Rows) → rows key ≡ some target → change spec rows key ≡ some target)
      → Holds s
      → table_spec t s ≡ ok found
      → Holds (write t (change found (s.rows t)) s)
  changed t s found change keeps h e = write-Holds t (change found (s.rows t)) s h λ same.
      subst (λ x. change x (s.rows t) key ≡ some target) (sym (same_spec t s found h same e))
        (subst (λ x. change spec (s.rows x) key ≡ some target) (sym same)
          (keeps (s.rows table) h.1))

  without_operation :
      (es : List ReplicationEvent)
      → All (λ e. IsFromOther owner e × (is_delete e.operation ≡ true)) es
      → All (IsFromOther owner) es
  without_operation [] h = tt
  without_operation (e ∷ es) h = (h.0.0, without_operation es h.1)

  delete-Keeps :
      (es : List ReplicationEvent) (s : Store)
      → All (IsFromOther owner) es
      → Holds s
      → Keeps Holds (apply_delete_batch es s)
  unfolding apply_delete_batch
  delete-Keeps [] s f h = ok-Keeps Holds s h
  delete-Keeps (e ∷ es) s f h = bind-Keeps Holds (table_spec e.table s) _ λ found e₁.
      ok-Keeps Holds _ (
        changed e.table s found (λ x rows. delete_rows x e.peer_region (pk_payloads (e ∷ es)) rows)
          (λ rows k.
            delete_rows-KeepsRow spec e.peer_region owner key target named owned f.0.1 _ rows k)
          h e₁)

  update_group-Keeps :
      (es : List ReplicationEvent) (s : Store)
      → All (IsFromOther owner) es
      → Holds s
      → Keeps Holds (apply_partial_update_group es s)
  unfolding apply_partial_update_group
  update_group-Keeps [] s f h = ok-Keeps Holds s h
  update_group-Keeps (e ∷ es) s f h = bind-Keeps Holds (table_spec e.table s) _ λ found e₁.
      guard-Keeps Holds (is_empty e.fields) empty_payload _ λ _.
        guard-Keeps Holds
          (not (
            nat_beq
              (parameters found (keep (λ c. not (contains c found.primary_key)) (names e.fields)))
              (arguments found e.peer_region)))
          argument_count _
          λ _. ok-Keeps Holds _ (
            changed e.table s found
              (λ x rows.
                update_rows x e.peer_region
                  (keep (λ c. not (contains c x.primary_key)) (names e.fields))
                  (all_fields (e ∷ es)) rows)
              (λ rows k.
                update_rows-KeepsRow spec e.peer_region owner key target named owned f.0.1 _ _ rows
                  k)
              h e₁)

  statements-IsKept : (mode : ApplyMode) → IsKept mode (IsFromOther owner) Holds
  statements-IsKept mode = record {
    upserts = λ es s f h. upsert-Keeps es mode s f h;
    updates = λ es s n f h. update_group-Keeps es s f h;
    deletes = λ es s f h. delete-Keeps es s (without_operation es f) h;
  }

  pub kept_row : (r : Result ApplyError Store) → Keeps Holds r → RowAfter r table key target
  unfolding Keeps
  kept_row (ok s) h = h.1
  kept_row (err e) h = tt

-- A batch whose events name regions other than the owner of a row leaves that row as it is, in a
-- table with a region column, in every mode and for every mix of operations, tables and regions.
pub apply_events_batch-Owned :
    (table : String) (key : List Bytes) (target : Row) (es : List ReplicationEvent)
    (mode : ApplyMode) (s : Store) (o : Owned s table key target)
    → All (IsFromOther o.owner) es
    → RowAfter (apply_events_batch es mode s) table key target
apply_events_batch-Owned table key target es mode s o f =
    kept_row table key target o.spec o.owner o.named o.owned (apply_events_batch es mode s) (
      apply_events_batch-Keeps (IsFromOther o.owner) mode _
        (statements-IsKept table key target o.spec o.owner o.named o.owned mode) es s f
        (o.configured, o.present))
