-- ===== src/Models/State.antt =====
-- internal/models/state.go, changefeed.go, lease.go and snapshot.go: the rows of the state tables
-- and the messages of a snapshot. A time is a number of instants; zero is Go's zero time.
use transmogr.Base.{ℕ, String, ◌≡◌, ◌↔◌, Bool, true, ◌&&◌, List, arith, Eq, ◌==◌, string_eq, eq_iff}
use transmogr.Base.Int.{ℤ}
use transmogr.Models.Json.{Bytes}
use transmogr.Models.PrimaryKey.{PrimaryKey}
use transmogr.Models.Events.{Operation, Fields}

-- The key (peer_region, table_name) of the cursors, jobs and sequences.
pub record Scope : Type 0 where
  pub peer_region : String
  pub table : String

abbrev scope_beq : Scope → Scope → Bool
scope_beq a b = a.peer_region == b.peer_region && a.table == b.table

pub scope_beq_iff : (a b : Scope) → (scope_beq a b ≡ true) ↔ (a ≡ b)
scope_beq_iff a b = ground (arith, eq_iff a.peer_region b.peer_region, eq_iff a.table b.table)

instance abbrev pub scope_eq : Eq Scope
scope_eq = record { beq = scope_beq; beq_iff = scope_beq_iff }

pub record StateCursor : Type 0 where
  pub peer_region : String
  pub table : String
  pub last_event_id : String
  pub last_version : ℤ
  pub last_primary_key : PrimaryKey

pub record ChangefeedChange : Type 0 where
  pub table : String
  pub primary_key : PrimaryKey
  pub operation : Operation
  pub version : ℤ
  pub payload : Bytes

pub record ChangefeedBatch : Type 0 where
  pub tx_id : String
  pub changes : List ChangefeedChange

pub record ChangefeedCursor : Type 0 where
  pub table : String
  pub source : String
  pub last_version : ℤ
  pub last_primary_key : PrimaryKey

pub data SnapshotJobStatus : Type 0 where
  unset pending snapshotting catching_up finished : SnapshotJobStatus

pub record StateSnapshotJob : Type 0 where
  pub peer_region : String
  pub table : String
  pub status : SnapshotJobStatus
  pub last_primary_key : PrimaryKey
  pub watermark_at : ℕ
  pub is_finished : Bool

pub record SnapshotRow : Type 0 where
  pub primary_key : PrimaryKey
  pub payload : Bytes
  pub metadata : Fields
  pub version : ℤ

pub record SnapshotChunk : Type 0 where
  pub rows : List SnapshotRow
  pub last : Bool
  pub watermark : ℕ

-- The key of a lease row. The column `table_scope` reads a missing table as the empty text.
pub record LeaseKey : Type 0 where
  pub kind : String
  pub region : String
  pub peer_region : String
  pub table : String

abbrev lease_key_beq : LeaseKey → LeaseKey → Bool
lease_key_beq a b =
    a.kind == b.kind && a.region == b.region && a.peer_region == b.peer_region && a.table == b.table

pub lease_key_beq_iff : (a b : LeaseKey) → (lease_key_beq a b ≡ true) ↔ (a ≡ b)
lease_key_beq_iff a b = ground (
  arith,
  eq_iff a.kind b.kind,
  eq_iff a.region b.region,
  eq_iff a.peer_region b.peer_region,
  eq_iff a.table b.table,
)

instance abbrev pub lease_key_eq : Eq LeaseKey
lease_key_eq = record { beq = lease_key_beq; beq_iff = lease_key_beq_iff }

pub record Lease : Type 0 where
  pub key : LeaseKey
  pub owner_id : String
  pub generation : ℕ
  pub expires_at : ℕ
  pub updated_at : ℕ
