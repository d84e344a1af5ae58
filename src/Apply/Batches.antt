-- ===== src/Apply/Batches.antt =====
-- `applyEventsBatch` and the batches of one (peer region, table): grouping, the last event of each
-- primary key, and the three statements of a group. The Go code keys events by their encoded primary
-- key; here a key is the primary key itself.
use transmogr.Base.{
  ℕ, String, Bool, true, false, not, ◌&&◌, none, some, List, [], ◌∷◌, ◌++◌, keep, is_empty, ◌≡◌,
  ◌↔◌, arith, nat_beq, contains, if◌then◌else◌, ◌==◌, string_eq, list_eq, nat_eq, Result, ok, err,
  ◌>>=◌, ◌>>◌, fail_if, Eq, eq_iff, list_beq_iff,
}
use transmogr.Base.Sorting.{sort_by}
use transmogr.Base.Tables.{Table}
use transmogr.Base.Text.{cmp_str}
use transmogr.Models.Events.{ReplicationEvent, Operation, ApplyMode, Fields}
use transmogr.Models.PrimaryKey.{PrimaryKey, PrimaryKeyPart}
use transmogr.Models.State.{Scope, scope_eq}
use transmogr.Apply.Rows.{
  TableSpec, Rows, ApplyError, not_configured, empty_payload, argument_count, names,
  build_upsert_payload, build_batch_upsert_query, upsert_rows, update_rows, delete_rows,
}

abbrev part_beq : PrimaryKeyPart → PrimaryKeyPart → Bool
part_beq a b = a.column == b.column && a.key_type == b.key_type && a.value == b.value

pub part_beq_iff : (a b : PrimaryKeyPart) → (part_beq a b ≡ true) ↔ (a ≡ b)
part_beq_iff a b =
    ground
      (arith, eq_iff a.column b.column, eq_iff a.key_type b.key_type, list_beq_iff a.value b.value)

instance abbrev pub part_eq : Eq PrimaryKeyPart
part_eq = record { beq = part_beq; beq_iff = part_beq_iff }

-- The configured tables, and the rows of each.
pub record Store : Type 0 where
  pub specs : Table String TableSpec
  pub rows : String → Rows

abbrev pub Step : Type 0
Step = Store → Result ApplyError Store

abbrev pub write : String → Rows → Store → Store
write table rows s = record s { rows = λ t. if table == t then rows else s.rows t }

abbrev pub scope_of : ReplicationEvent → Scope
scope_of e = record { peer_region = e.peer_region; table = e.table }

-- `byPK` with `pkOrder`: the position of the first event of a key, and the value of its last.
unfoldable pub put_event : ReplicationEvent → List ReplicationEvent → List ReplicationEvent
put_event e [] = e ∷ []
put_event e (x ∷ xs) = if x.primary_key == e.primary_key then e ∷ xs else x ∷ put_event e xs

abbrev pub Groups : Type 0
Groups = List (Scope × List ReplicationEvent)

unfoldable pub put_group : ReplicationEvent → Groups → Groups
unfolding put_event
put_group e [] = (scope_of e, e ∷ []) ∷ []
put_group e ((s, es) ∷ gs) =
    if s == scope_of e then (s, put_event e es) ∷ gs else (s, es) ∷ put_group e gs

unfoldable pub group_events : List ReplicationEvent → Groups → Groups
unfolding put_group
group_events [] gs = gs
group_events (e ∷ es) gs = group_events es (put_group e gs)

unfoldable pub table_spec : String → Store → Result ApplyError TableSpec
table_spec table s = elim (s.specs table) [ none ↦ err not_configured | some spec ↦ ok spec ]

unfoldable pub is_insert_only : ApplyMode → Bool
is_insert_only ApplyMode.insert_only = true
is_insert_only _ = false

unfoldable pub payloads : TableSpec → String → List ReplicationEvent → List Fields
payloads spec region [] = []
payloads spec region (e ∷ es) = build_upsert_payload spec region e.fields ∷ payloads spec region es

unfoldable pub has_empty : List ReplicationEvent → Bool
has_empty [] = false
has_empty (e ∷ es) = let rest = has_empty es in if is_empty e.fields then true else rest

-- applyUpsertBatch: the first event chooses the region, and its payload the columns. A payload that
-- is empty does not decode once the region is to be added, and as the first one never does.
unfoldable pub apply_upsert_batch : List ReplicationEvent → ApplyMode → Step
unfolding table_spec is_insert_only payloads has_empty
apply_upsert_batch [] mode s = ok s
apply_upsert_batch (e ∷ es) mode s = do
  spec ← table_spec e.table s
  fail_if (has_empty (e ∷ es)) empty_payload
  let ps = payloads spec e.peer_region (e ∷ es)
  q ←
      build_batch_upsert_query spec (build_upsert_payload spec e.peer_region e.fields)
        (not (is_insert_only mode))
  rows ← upsert_rows spec q ps (s.rows e.table)
  ok (write e.table rows s)

-- The sorted names of the fields, by which partial updates are grouped.
unfoldable pub sorted_field_keys : Fields → List String
sorted_field_keys fs = sort_by cmp_str (names fs)

unfoldable pub put_columns :
    ReplicationEvent
    → List (List String × List ReplicationEvent)
    → List (List String × List ReplicationEvent)
unfolding sorted_field_keys
put_columns e [] = (sorted_field_keys e.fields, e ∷ []) ∷ []
put_columns e ((cols, es) ∷ gs) =
    if cols == sorted_field_keys e.fields
    then (cols, es ++ e ∷ []) ∷ gs
    else (cols, es) ∷ put_columns e gs

unfoldable pub group_columns :
    List ReplicationEvent
    → List (List String × List ReplicationEvent)
    → List (List String × List ReplicationEvent)
unfolding put_columns
group_columns [] gs = gs
group_columns (e ∷ es) gs = group_columns es (put_columns e gs)

unfoldable pub all_fields : List ReplicationEvent → List Fields
all_fields [] = []
all_fields (e ∷ es) = e.fields ∷ all_fields es

-- applyPartialUpdateGroup. With no column beside the key the statement is `SELECT 1 … WHERE false`,
-- which has no parameter. The driver refuses a statement with another number of arguments.
unfoldable pub parameters : TableSpec → List String → ℕ
parameters spec [] = 0
parameters spec (c ∷ cs) = if spec.region_field == "" then 1 else 2

unfoldable pub arguments : TableSpec → String → ℕ
arguments spec region = if not (spec.region_field == "") && not (region == "") then 2 else 1

unfoldable pub apply_partial_update_group : List ReplicationEvent → Step
unfolding table_spec all_fields parameters arguments
apply_partial_update_group [] s = ok s
apply_partial_update_group (e ∷ es) s = do
  spec ← table_spec e.table s
  fail_if (is_empty e.fields) empty_payload
  let assigned = keep (λ c. not (contains c spec.primary_key)) (names e.fields)
  fail_if (not (nat_beq (parameters spec assigned) (arguments spec e.peer_region))) argument_count
  ok (
      write e.table (update_rows spec e.peer_region assigned (all_fields (e ∷ es)) (s.rows e.table))
        s)

unfoldable pub apply_column_groups : List (List String × List ReplicationEvent) → Step
unfolding apply_partial_update_group
apply_column_groups [] s = ok s
apply_column_groups ((cols, es) ∷ gs) s = apply_partial_update_group es s >>= apply_column_groups gs

unfoldable pub apply_partial_update_batch : List ReplicationEvent → ApplyMode → Step
unfolding is_insert_only
apply_partial_update_batch es mode s =
    let changed = apply_column_groups (group_columns es []) s in
    if is_insert_only mode then ok s else changed

-- primaryKeyPayload: the key as an object by column; of two parts with one column the last counts.
unfoldable pub pk_fields : PrimaryKey → Fields
pk_fields [] = []
pk_fields (p ∷ ps) = pk_fields ps ++ (p.column, p.value) ∷ []

unfoldable pub pk_payloads : List ReplicationEvent → List Fields
unfolding pk_fields
pk_payloads [] = []
pk_payloads (e ∷ es) = pk_fields e.primary_key ∷ pk_payloads es

unfoldable pub apply_delete_batch : List ReplicationEvent → Step
unfolding table_spec pk_payloads
apply_delete_batch [] s = ok s
apply_delete_batch (e ∷ es) s = do
  spec ← table_spec e.table s
  ok (write e.table (delete_rows spec e.peer_region (pk_payloads (e ∷ es)) (s.rows e.table)) s)

abbrev pub is_delete : Operation → Bool
is_delete Operation.delete = true
is_delete _ = false

abbrev pub is_update : Operation → Bool
is_update Operation.update = true
is_update _ = false

abbrev pub is_upsert : Operation → Bool
is_upsert o = not (is_delete o) && not (is_update o)

unfoldable pub apply_group : List ReplicationEvent → ApplyMode → Step
apply_group es mode s = do
  s₁ ← apply_upsert_batch (keep (λ e. is_upsert e.operation) es) mode s
  s₂ ← apply_partial_update_batch (keep (λ e. is_update e.operation) es) mode s₁
  apply_delete_batch (keep (λ e. is_delete e.operation) es) s₂

unfoldable pub apply_groups : Groups → ApplyMode → Step
unfolding apply_group
apply_groups [] mode s = ok s
apply_groups ((key, es) ∷ gs) mode s = apply_group es mode s >>= apply_groups gs mode

unfoldable pub apply_events_batch : List ReplicationEvent → ApplyMode → Step
unfolding group_events apply_groups
apply_events_batch es mode = apply_groups (group_events es []) mode
