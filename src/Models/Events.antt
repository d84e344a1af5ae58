-- ===== src/Models/Events.antt =====
-- internal/models/replication.go and outbox.go: events, modes and outbound batches.
use transmogr.Base.{
  ℕ, String, Option, none, some, List, is_empty, last?, nat_beq, ◌==◌, string_eq, Result, ok, ◌>>◌,
  fail_if,
}
use transmogr.Base.Int.{ℤ}
use transmogr.Models.Json.{Bytes}
use transmogr.Models.PrimaryKey.{PrimaryKey}

-- Go string types: `unset` is the empty string, and `other` a text that the code does not name.
pub data Operation : Type 0 where
  unset insert update upsert delete : Operation
  other : String → Operation

pub data ApplyMode : Type 0 where
  unset insert_only upsert full_sync : ApplyMode
  other : String → ApplyMode

pub data BroadcastMode : Type 0 where
  unset insert_only upsert full_sync : BroadcastMode
  other : String → BroadcastMode

-- A Go map from column or metadata names, as its entries.
abbrev pub Fields : Type 0
Fields = List (String × Bytes)

pub record ReplicationEvent : Type 0 where
  pub peer_region : String
  pub table : String
  pub event_id : String
  pub primary_key : PrimaryKey
  pub operation : Operation
  pub version : ℤ
  pub fields : Fields
  pub metadata : Fields

pub record OutboxBatch : Type 0 where
  pub id : ℕ
  pub peer_region : String
  pub table : String
  pub sequence : ℕ
  pub events : List ReplicationEvent
  pub created_at : ℕ
  pub tx_id : String

abbrev pub event_id_or_empty : Option ReplicationEvent → String
event_id_or_empty none = ""
event_id_or_empty (some e) = e.event_id

-- OutboxBatch.LastEventID
unfoldable pub last_event_id : OutboxBatch → String
last_event_id b = event_id_or_empty (last? b.events)

pub data BatchError : Type 0 where
  region_required sequence_not_positive no_events event_id_required : BatchError
  sequence_taken : BatchError  -- not of Validate, but of the INSERT: the primary key

-- OutboxBatch.Validate
unfoldable pub validate : OutboxBatch → Result BatchError (Unit {0})
unfolding last_event_id
validate b = do
  fail_if (b.peer_region == "") region_required
  fail_if (nat_beq b.sequence 0) sequence_not_positive
  fail_if (is_empty b.events) no_events
  fail_if (last_event_id b == "") event_id_required
  ok tt
