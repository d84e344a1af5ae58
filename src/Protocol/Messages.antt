-- ===== src/Protocol/Messages.antt =====
-- The stream messages of internal/models/stream.go and `ToProtoMessage` of
-- internal/transport/grpc/protocol/messages.go. A time is a number of instants, zero for Go's zero.
use transmogr.Base.{ℕ, String, Bool, Option, none, some, List, nat_beq, if◌then◌else◌}
use transmogr.Models.Events.{ReplicationEvent}
use transmogr.Models.State.{SnapshotRow}
use transmogr.Protocol.{
  Codec, HandshakeMessage, ProtoEvent, ProtoSnapshotRow, to_proto_events, to_proto_snapshot_rows,
}

pub record SnapshotChunkMessage : Type 0 where
  pub table : String
  pub rows : List SnapshotRow
  pub last : Bool
  pub watermark : ℕ

pub record EventBatchMessage : Type 0 where
  pub sequence : ℕ
  pub events : List ReplicationEvent

pub record TransactionBatchMessage : Type 0 where
  pub tx_id : String
  pub sequence : ℕ
  pub events : List ReplicationEvent

pub record AckMessage : Type 0 where
  pub table : String
  pub last_event_id : String

-- SnapshotCompleteMessage is its table, and PingMessage its time.
pub record StreamMessage : Type 0 where
  pub peer_region : String
  pub handshake : Option HandshakeMessage
  pub snapshot_chunk : Option SnapshotChunkMessage
  pub snapshot_complete : Option String
  pub event_batch : Option EventBatchMessage
  pub transaction_batch : Option TransactionBatchMessage
  pub ack : Option AckMessage
  pub ping : Option ℕ

-- ConsumeResponse, by its oneof; a snapshot chunk has a watermark only if the sender had one.
pub data ConsumeResponse : Type 0 where
  handshake : HandshakeMessage → ConsumeResponse
  snapshot_chunk : String → List ProtoSnapshotRow → Bool → Option ℕ → ConsumeResponse
  snapshot_complete : String → ConsumeResponse
  event_batch : ℕ → List ProtoEvent → ConsumeResponse
  transaction_batch : String → ℕ → List ProtoEvent → ConsumeResponse
  heartbeat : ℕ → ConsumeResponse

abbrev pub watermark_of : ℕ → Option ℕ
watermark_of w = if nat_beq w 0 then none else some w

-- The cases of the switch, in their order.
module _ (codec : Codec) where
  of_ping : Option ℕ → Option ConsumeResponse
  of_ping none = none
  of_ping (some at) = some (heartbeat at)

  of_transaction : Option TransactionBatchMessage → Option ConsumeResponse → Option ConsumeResponse
  of_transaction none rest = rest
  of_transaction (some b) rest =
      some (transaction_batch b.tx_id b.sequence (to_proto_events codec b.events))

  of_events : Option EventBatchMessage → Option ConsumeResponse → Option ConsumeResponse
  of_events none rest = rest
  of_events (some b) rest = some (event_batch b.sequence (to_proto_events codec b.events))

  of_complete : Option String → Option ConsumeResponse → Option ConsumeResponse
  of_complete none rest = rest
  of_complete (some table) rest = some (snapshot_complete table)

  of_chunk : Option SnapshotChunkMessage → Option ConsumeResponse → Option ConsumeResponse
  of_chunk none rest = rest
  of_chunk (some c) rest = some (
      snapshot_chunk c.table (to_proto_snapshot_rows codec c.rows) c.last
        (watermark_of c.watermark))

  of_handshake : Option HandshakeMessage → Option ConsumeResponse → Option ConsumeResponse
  of_handshake none rest = rest
  of_handshake (some h) rest = some (handshake h)

  unfoldable pub to_proto_message : StreamMessage → Option ConsumeResponse
  unfolding of_ping of_transaction of_events of_complete of_chunk of_handshake
  to_proto_message m = of_handshake m.handshake (
      of_chunk m.snapshot_chunk (
        of_complete m.snapshot_complete
          (of_events m.event_batch (of_transaction m.transaction_batch (of_ping m.ping)))))

abbrev pub empty_message : String → StreamMessage
empty_message region = record {
  peer_region = region;
  handshake = none;
  snapshot_chunk = none;
  snapshot_complete = none;
  event_batch = none;
  transaction_batch = none;
  ack = none;
  ping = none;
}

unfoldable pub new_heartbeat_message : ℕ → ConsumeResponse
new_heartbeat_message now = heartbeat now
