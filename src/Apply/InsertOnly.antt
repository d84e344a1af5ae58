-- ===== src/Apply/InsertOnly.antt =====
-- The mode `insert_only`: what is in a table stays as it is.
use mathlib.Core.Path.{subst}
use transmogr.Base.{
  String, true, false, none, some, Option, List, [], ◌∷◌, ◌≡◌, inl, inr, sym, arith, All, ◌==◌,
  string_eq, list_eq, nat_eq, Result, ok, err, ◌>>=◌, list_beq_iff, Bool-cases, beq→eq,
}
use transmogr.Models.Events.{ReplicationEvent, ApplyMode, Fields}
use transmogr.Models.Json.{Bytes}
use transmogr.Apply.Rows.{
  TableSpec, Row, Rows, ApplyError, empty_payload, UpsertQuery, build_batch_upsert_query,
  build_upsert_payload, insert_at, upsert_row, upsert_rows,
}
use transmogr.Apply.Batches.{
  Store, write, table_spec, payloads, has_empty, is_insert_only, is_delete, apply_upsert_batch,
  apply_delete_batch, apply_events_batch,
}
use transmogr.Apply.Invariants.{
  Keeps, ok-Keeps, bind-Keeps, guard-Keeps, IsKept, apply_events_batch-Keeps,
}
use transmogr.Apply.Ownership.Batches.{RowAfter}

abbrev pub IsInsert : ReplicationEvent → Type 0
IsInsert e = is_delete e.operation ≡ false

module _ (key : List Bytes) (target : Row) where
  abbrev HasTarget : Result ApplyError Rows → Type 0
  HasTarget (ok rows) = rows key ≡ some target
  HasTarget (err e) = Unit

  insert_at-HasTarget :
      (spec : TableSpec) (q : UpsertQuery) (src : Row) (at : Option (List Bytes)) (rows : Rows)
      → q.does_update ≡ false
      → rows key ≡ some target
      → HasTarget (insert_at spec q src at rows)
  unfolding insert_at
  insert_at-HasTarget spec q src none rows u h = tt
  insert_at-HasTarget spec q src (some k) rows u h = ground (arith, list_beq_iff k key, u, h)

  continue_HasTarget :
      (k : Rows → Result ApplyError Rows) (r : Result ApplyError Rows)
      → HasTarget r
      → ((rows : Rows) → rows key ≡ some target → HasTarget (k rows))
      → HasTarget (r >>= k)
  continue_HasTarget k (ok rows) h next = next rows h
  continue_HasTarget k (err e) h next = tt

  upsert_rows-HasTarget :
      (spec : TableSpec) (q : UpsertQuery) (ps : List Fields) (rows : Rows)
      → q.does_update ≡ false
      → rows key ≡ some target
      → HasTarget (upsert_rows spec q ps rows)
  unfolding upsert_rows upsert_row
  upsert_rows-HasTarget spec q [] rows u h = h
  upsert_rows-HasTarget spec q (p ∷ ps) rows u h =
      continue_HasTarget (upsert_rows spec q ps) (upsert_row spec q p rows)
        (insert_at-HasTarget spec q _ _ rows u h)
        λ rows' k. upsert_rows-HasTarget spec q ps rows' u k

  kept_target :
      (r : Result ApplyError Rows) (rows : Rows)
      → HasTarget r
      → r ≡ ok rows
      → rows key ≡ some target
  kept_target (ok x) rows h e = ground arith
  kept_target (err x) rows h e = ground arith

-- The query of a batch that may not update.
no_update :
    (spec : TableSpec) (sample : Fields) (q : UpsertQuery)
    → build_batch_upsert_query spec sample false ≡ ok q
    → q.does_update ≡ false
unfolding build_batch_upsert_query
no_update spec sample q e = ground (arith, e)

-- The row `target` stands in the table under `key`.
module _ (table : String) (key : List Bytes) (target : Row) where
  abbrev HasRow : Store → Type 0
  HasRow s = s.rows table key ≡ some target

  write-HasRow :
      (t : String) (rows : Rows) (s : Store)
      → HasRow s
      → (t ≡ table → rows key ≡ some target)
      → HasRow (write t rows s)
  write-HasRow t rows s h f = elim (Bool-cases (t == table)) [
    | inl e ↦ rw e (f (beq→eq t table e))
    | inr e ↦ rw e h
  ]

  inserted :
      (t : String) (spec : TableSpec) (q : UpsertQuery) (ps : List Fields) (s : Store) (rows : Rows)
      → q.does_update ≡ false
      → HasRow s
      → upsert_rows spec q ps (s.rows t) ≡ ok rows
      → t ≡ table
      → rows key ≡ some target
  inserted t spec q ps s rows u h e same =
      kept_target key target (upsert_rows spec q ps (s.rows t)) rows
        (upsert_rows-HasTarget key target spec q ps (s.rows t) u
          (subst (λ x. s.rows x key ≡ some target) (sym same) h))
        e

  insert-HasRow :
      (es : List ReplicationEvent) (s : Store)
      → HasRow s
      → Keeps HasRow (apply_upsert_batch es ApplyMode.insert_only s)
  unfolding apply_upsert_batch is_insert_only
  insert-HasRow [] s h = ok-Keeps HasRow s h
  insert-HasRow (e ∷ es) s h = bind-Keeps HasRow (table_spec e.table s) _ λ spec _.
      guard-Keeps HasRow (has_empty (e ∷ es)) empty_payload _ λ _.
        bind-Keeps HasRow
          (build_batch_upsert_query spec (build_upsert_payload spec e.peer_region e.fields) false) _
          λ q e₃. bind-Keeps HasRow (upsert_rows _ _ _ _) _ λ rows e₄. ok-Keeps HasRow _ (
            write-HasRow e.table rows s h (
              inserted e.table spec q (payloads spec e.peer_region (e ∷ es)) s rows
                (no_update spec (build_upsert_payload spec e.peer_region e.fields) q e₃) h e₄))

  no_deletes :
      (es : List ReplicationEvent) (s : Store)
      → All (λ e. IsInsert e × (is_delete e.operation ≡ true)) es
      → HasRow s
      → Keeps HasRow (apply_delete_batch es s)
  unfolding apply_delete_batch
  no_deletes [] s f h = ok-Keeps HasRow s h
  no_deletes (e ∷ es) s f h = absurd (ground (arith, f.0.0, f.0.1))

  insert_only-IsKept : IsKept ApplyMode.insert_only IsInsert HasRow
  unfolding is_insert_only
  insert_only-IsKept = record {
    upserts = λ es s f h. insert-HasRow es s h;
    updates = λ es s n f h. absurd (ground (arith, n));
    deletes = λ es s f h. no_deletes es s f h;
  }

  has_row : (r : Result ApplyError Store) → Keeps HasRow r → RowAfter r table key target
  unfolding Keeps
  has_row (ok s) h = h
  has_row (err e) h = tt

-- In the mode `insert_only` a batch without deletions, as the service passes it on, changes no row that
-- is there: each stays as it is, in every table, whatever the events of the batch say about it.
pub insert_only-RowAfter :
    (table : String) (key : List Bytes) (target : Row) (es : List ReplicationEvent) (s : Store)
    → All IsInsert es
    → s.rows table key ≡ some target
    → RowAfter (apply_events_batch es ApplyMode.insert_only s) table key target
insert_only-RowAfter table key target es s f h =
    has_row table key target (apply_events_batch es ApplyMode.insert_only s) (
      apply_events_batch-Keeps IsInsert ApplyMode.insert_only _
        (insert_only-IsKept table key target) es s f h)
