-- ===== src/Witnesses/Commit.antt =====
-- Batches of a peer that arrive, fail, and arrive again.
use transmogr.Base.{
  ℕ, String, ◌≡◌, ◌⊎◌, refl, true, none, some, List, [], ◌∷◌, arith, All, string_eq, eq_iff,
}
use transmogr.Base.Int.{ℤ, pos}
use transmogr.Base.Order.{is_le, cmp_ℤ, cmp_ℕ, cmp_lists}
use transmogr.Base.Tables.{Table, put, no_rows}
use transmogr.Base.Text.{codes, cmp_str}
use transmogr.Models.Events.{ReplicationEvent, Operation, ApplyMode}
use transmogr.Models.Json.{unmarshal_int64}
use transmogr.Models.PrimaryKey.{PrimaryKeyPart, compare_primary_keys}
use transmogr.Models.PrimaryKey.Order.{IsDecodable, AllDecodable}
use transmogr.Models.State.{Scope, scope_eq, StateCursor}
use transmogr.Apply.Rows.{
  TableSpec, Rows, build_batch_upsert_query, build_upsert_payload, upsert_rows, update_rows,
  argument_count,
}
use transmogr.Apply.Batches.{
  apply_events_batch, apply_upsert_batch, apply_partial_update_batch, apply_column_groups,
  group_columns, apply_delete_batch,
}
use transmogr.Commit.{Db, commit_state_applied_transaction, is_stale_cursor_position, with_tx}
use transmogr.Commit.Spec.{commit_spec, commit-commit_spec, advance}
use transmogr.Commit.Positions.{IsTypedEvent, AllTyped, put-AllTyped, cmp_position, position}
use transmogr.Commit.Redelivery.{
  Attempt, attempt, attempts, commit_redelivered, attempts_never_move_back,
}
use transmogr.Replication.{BatchError, apply_batch, commit_prepared, in_cursor_order}
use transmogr.Replication.Batches.{
  IsValid, accepted, apply_batch_validates, IsFresh, IsCovered, polled_events-IsCovered,
}

abbrev part : String → PrimaryKeyPart
part v = record { column = "id"; key_type = "integer"; value = codes v }

abbrev event : String → ℕ → ReplicationEvent
event v version = record {
  peer_region = "us";
  table = "users";
  event_id = "e";
  primary_key = part v ∷ [];
  operation = Operation.insert;
  version = pos version;
  fields = ("id", codes v) ∷ [];
  metadata = [];
}

abbrev users : TableSpec
users = record { name = "users"; primary_key = "id" ∷ []; region_field = "" }

abbrev no_table_rows : String → Rows
no_table_rows table = no_rows

abbrev specs : Table String TableSpec
specs = put "users" users no_rows

abbrev db : Db
db = record {
  stored_key = λ key. key;
  store = record { specs = specs; rows = no_table_rows };
  cursors = no_rows;
}

abbrev batch : List ReplicationEvent
batch = event "9" 1 ∷ event "10" 1 ∷ []

abbrev first : Attempt
first = record { events = batch; mode = ApplyMode.upsert }

abbrev second : Attempt
second = record { events = event "9" 2 ∷ []; mode = ApplyMode.upsert }

part-IsDecodable : (v : String) (z : ℤ) → unmarshal_int64 (codes v) ≡ some z → IsDecodable (part v)
part-IsDecodable v z h = record {
  integer = λ e. (z, h);
  boolean = λ e. absurd (ground (arith, e, eq_iff "integer" "boolean"));
}

nine : AllDecodable (part "9" ∷ [])
unfolding unmarshal_int64
nine = (part-IsDecodable "9" (pos 9) refl, tt)

ten : AllDecodable (part "10" ∷ [])
unfolding unmarshal_int64
ten = (part-IsDecodable "10" (pos 10) refl, tt)

batch-typed : All IsTypedEvent batch
batch-typed = (nine, (ten, tt))

no_cursors-AllTyped : AllTyped no_rows
no_cursors-AllTyped k c e = cc

first_succeeds : (commit_state_applied_transaction batch ApplyMode.upsert db).1 ≡ none
unfolding commit_state_applied_transaction is_stale_cursor_position apply_events_batch
    compare_primary_keys cmp_str cmp_ℤ cmp_lists cmp_ℕ unmarshal_int64 apply_upsert_batch
    build_batch_upsert_query build_upsert_payload upsert_rows apply_partial_update_batch
    apply_column_groups group_columns apply_delete_batch
first_succeeds = refl

commit_redelivered_example :
    commit_state_applied_transaction batch ApplyMode.full_sync
      (attempts (second ∷ []) (attempt first db))
    ≡ (attempts (second ∷ []) (attempt first db), none)
commit_redelivered_example =
    commit_redelivered first (second ∷ []) ApplyMode.full_sync db (batch-typed, (refl, (refl, tt)))
      (((nine, tt), (refl, tt)), tt) no_cursors-AllTyped first_succeeds

commit-commit_spec_example :
    commit_state_applied_transaction batch ApplyMode.upsert db
    ≡ with_tx (commit_spec batch ApplyMode.upsert db) db
commit-commit_spec_example = commit-commit_spec batch ApplyMode.upsert db

abbrev cursor : StateCursor
cursor = record {
  peer_region = "us";
  table = "users";
  last_event_id = "e";
  last_version = pos 1;
  last_primary_key = part "10" ∷ [];
}

abbrev scope : Scope
scope = record { peer_region = "us"; table = "users" }

abbrev moved_db : Db
moved_db = record {
  store = record { specs = specs; rows = no_table_rows };
  stored_key = λ key. key;
  cursors = put scope cursor no_rows;
}

attempts_never_move_back_example :
    (d : StateCursor) × ((attempts (first ∷ second ∷ []) moved_db).cursors scope ≡ some d)
    × (is_le (cmp_position (position cursor) (position d)) ≡ true)
attempts_never_move_back_example =
    attempts_never_move_back (first ∷ second ∷ []) moved_db scope cursor
      ((batch-typed, (refl, (refl, tt))), (((nine, tt), (refl, tt)), tt))
      (put-AllTyped scope cursor no_rows ten no_cursors-AllTyped) refl

apply_batch_validates_example :
    (All IsValid batch
      × (apply_batch ApplyMode.upsert true batch db
          ≡ commit_prepared ApplyMode.upsert
              (in_cursor_order true (accepted ApplyMode.upsert batch))
              db))
    ⊎ ((¬ All IsValid batch)
        × ((b : BatchError) × (apply_batch ApplyMode.upsert true batch db ≡ (db, some b))))
apply_batch_validates_example = apply_batch_validates ApplyMode.upsert true batch db

polled_events-IsCovered_example :
    All
      (λ x. IsFresh no_rows x → IsCovered (advance (in_cursor_order true batch) no_rows).0 x)
      batch
polled_events-IsCovered_example = polled_events-IsCovered batch no_rows batch-typed

-- A batch that inserts a row and then updates it: the update takes the place of the insertion, and
-- finds no row.
abbrev then_update : List ReplicationEvent
then_update =
    (record (event "9" 1) { fields = ("id", codes "9") ∷ ("name", codes "1") ∷ [] })
    ∷ (record (event "9" 2) {
      operation = Operation.update;
      fields = ("id", codes "9") ∷ ("name", codes "2") ∷ [];
    })
    ∷ []

insert_then_update_is_lost :
    (commit_state_applied_transaction then_update ApplyMode.upsert db).0.store.rows "users"
      (codes "9" ∷ [])
    ≡ none
unfolding commit_state_applied_transaction apply_events_batch is_stale_cursor_position
    apply_upsert_batch apply_partial_update_batch apply_column_groups group_columns
    apply_delete_batch update_rows
insert_then_update_is_lost = refl

-- An update that carries the key alone fails, and the batch with it.
abbrev key_only : List ReplicationEvent
key_only = (record (event "9" 1) { operation = Operation.update }) ∷ []

key_only_update_fails :
    (commit_state_applied_transaction key_only ApplyMode.upsert db).1 ≡ some argument_count
unfolding commit_state_applied_transaction apply_events_batch is_stale_cursor_position
    apply_upsert_batch apply_partial_update_batch apply_column_groups group_columns
    apply_delete_batch update_rows
key_only_update_fails = refl
