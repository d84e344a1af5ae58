-- ===== src/Protocol.antt =====
-- internal/transport/grpc/protocol: the messages of the wire and the models, in both directions. The
-- protobuf types are records and data; gRPC carries them unchanged. What the code takes of
-- encoding/json for texts and objects is a parameter.
pub mod RoundTrip
pub mod Messages
pub mod Handshake
use transmogr.Base.{
  ℕ, String, Bool, true, false, Option, none, some, List, [], ◌∷◌, map, last?, if◌then◌else◌, ◌==◌,
  string_eq, nat_beq, Result, ok, err, ◌>>=◌,
}
use transmogr.Base.Int.{ℤ, pos}
use transmogr.Models.Events.{ReplicationEvent, Operation, Fields}
use transmogr.Models.Json.{Bytes, unmarshal_int64, unmarshal_bool, json_string}
use transmogr.Models.Json.Integers.{json_int64, json_bool}
use transmogr.Models.PrimaryKey.{
  PrimaryKey, PrimaryKeyPart, PrimaryKeyType, string_type, integer_type, boolean_type,
}
use transmogr.Models.State.{SnapshotRow}
use transmogr.Replication.{SnapshotRequest}

-- json.Unmarshal into a string, string(bytes), PayloadToFields and FieldsToPayload.
pub record Codec : Type 0 where
  pub unmarshal_string : Bytes → Option String
  pub text_of : Bytes → String
  pub payload_to_fields : Bytes → Option Fields
  pub fields_to_payload : Fields → Bytes

-- peerv1.PrimaryKeyPart and its oneof.
pub data ProtoValue : Type 0 where
  missing : ProtoValue
  integer_value : ℤ → ProtoValue
  boolean_value : Bool → ProtoValue
  string_value : String → ProtoValue

pub record ProtoPart : Type 0 where
  pub column : String
  pub value : ProtoValue

-- Event_Operation; an open enum keeps numbers that it does not name.
pub data ProtoOperation : Type 0 where
  unspecified insert update delete : ProtoOperation
  unrecognized : ℕ → ProtoOperation

pub record ProtoEvent : Type 0 where
  pub event_id : String
  pub origin_region : String
  pub table : String
  pub primary_key : List ProtoPart
  pub fields : Fields
  pub metadata : Fields
  pub version : ℤ
  pub operation : ProtoOperation

pub record ProtoSnapshotRow : Type 0 where
  pub primary_key : List ProtoPart
  pub fields : Fields
  pub metadata : Fields

pub record ProtoSnapshotRequest : Type 0 where
  pub table : String
  pub after_primary_key : List ProtoPart

pub record ConsumeRequest : Type 0 where
  pub region : String
  pub version : String
  pub configuration : String
  pub snapshot_requests : List ProtoSnapshotRequest

pub record HandshakeMessage : Type 0 where
  pub region : String
  pub version : String
  pub configuration : String

pub data DecodeError : Type 0 where
  missing_value : String → DecodeError

unfoldable pub to_proto_operation : Operation → ProtoOperation
to_proto_operation Operation.insert = ProtoOperation.insert
to_proto_operation Operation.update = ProtoOperation.update
to_proto_operation Operation.delete = ProtoOperation.delete
to_proto_operation _ = unspecified

unfoldable pub from_proto_operation : ProtoOperation → Operation
from_proto_operation ProtoOperation.insert = Operation.insert
from_proto_operation ProtoOperation.update = Operation.update
from_proto_operation ProtoOperation.delete = Operation.delete
from_proto_operation _ = Operation.upsert

module _ (codec : Codec) where
  -- The typed value, or the bytes as text where they do not decode at their type.
  typed {ℓ} : {A : Type ℓ} → (A → ProtoValue) → Option A → Bytes → ProtoValue
  typed f (some a) raw = f a
  typed f none raw = string_value (codec.text_of raw)

  unfoldable pub assign_proto_primary_key_value : PrimaryKeyPart → ProtoValue
  unfolding typed
  assign_proto_primary_key_value part =
      if part.key_type == integer_type
      then typed integer_value (unmarshal_int64 part.value) part.value
      else if part.key_type == boolean_type
      then typed boolean_value (unmarshal_bool part.value) part.value
      else typed string_value (codec.unmarshal_string part.value) part.value

  unfoldable pub to_proto_primary_key : PrimaryKey → List ProtoPart
  unfolding assign_proto_primary_key_value
  to_proto_primary_key [] = []
  to_proto_primary_key (p ∷ ps) =
      (record { column = p.column; value = assign_proto_primary_key_value p })
      ∷ to_proto_primary_key ps

  unfoldable pub to_proto_events : List ReplicationEvent → List ProtoEvent
  unfolding to_proto_primary_key to_proto_operation
  to_proto_events [] = []
  to_proto_events (e ∷ es) =
      (record {
        event_id = e.event_id;
        origin_region = e.peer_region;
        table = e.table;
        primary_key = to_proto_primary_key e.primary_key;
        fields = e.fields;
        metadata = e.metadata;
        version = e.version;
        operation = to_proto_operation e.operation;
      })
      ∷ to_proto_events es

  fields_or_nil : Option Fields → Fields
  fields_or_nil none = []
  fields_or_nil (some fs) = fs

  unfoldable pub to_proto_snapshot_rows : List SnapshotRow → List ProtoSnapshotRow
  unfolding to_proto_primary_key fields_or_nil
  to_proto_snapshot_rows [] = []
  to_proto_snapshot_rows (r ∷ rs) =
      (record {
        primary_key = to_proto_primary_key r.primary_key;
        fields = fields_or_nil (codec.payload_to_fields r.payload);
        metadata = r.metadata;
      })
      ∷ to_proto_snapshot_rows rs

  unfoldable pub to_proto_requests : List SnapshotRequest → List ProtoSnapshotRequest
  unfolding to_proto_primary_key
  to_proto_requests [] = []
  to_proto_requests (q ∷ qs) =
      (record { table = q.table; after_primary_key = to_proto_primary_key q.after_primary_key })
      ∷ to_proto_requests qs

  unfoldable pub new_consume_request : HandshakeMessage → List SnapshotRequest → ConsumeRequest
  unfolding to_proto_requests
  new_consume_request handshake requests = record {
    region = handshake.region;
    version = handshake.version;
    configuration = handshake.configuration;
    snapshot_requests = to_proto_requests requests;
  }

unfoldable pub infer_primary_key_type : ProtoValue → PrimaryKeyType
infer_primary_key_type missing = ""
infer_primary_key_type (integer_value z) = integer_type
infer_primary_key_type (boolean_value b) = boolean_type
infer_primary_key_type (string_value s) = string_type

unfoldable pub from_proto_primary_key_value : ProtoPart → Result DecodeError Bytes
from_proto_primary_key_value part = elim part.value [
  | missing ↦ err (missing_value part.column)
  | integer_value z ↦ ok (json_int64 z)
  | boolean_value b ↦ ok (json_bool b)
  | string_value s ↦ ok (json_string s)
]

unfoldable pub from_proto_primary_key : List ProtoPart → Result DecodeError PrimaryKey
unfolding infer_primary_key_type from_proto_primary_key_value
from_proto_primary_key [] = ok []
from_proto_primary_key (part ∷ parts) = do
  value ← from_proto_primary_key_value part
  rest ← from_proto_primary_key parts
  ok (
      (record { column = part.column; key_type = infer_primary_key_type part.value; value = value })
      ∷ rest)

unfoldable pub to_replication_events : List ProtoEvent → Result DecodeError (List ReplicationEvent)
unfolding from_proto_primary_key from_proto_operation
to_replication_events [] = ok []
to_replication_events (e ∷ es) = do
  key ← from_proto_primary_key e.primary_key
  rest ← to_replication_events es
  ok (
      (record {
        peer_region = e.origin_region;
        table = e.table;
        event_id = e.event_id;
        primary_key = key;
        operation = from_proto_operation e.operation;
        version = e.version;
        fields = e.fields;
        metadata = e.metadata;
      })
      ∷ rest)

unfoldable pub to_snapshot_rows :
    Codec → List ProtoSnapshotRow → Result DecodeError (List SnapshotRow)
unfolding from_proto_primary_key
to_snapshot_rows codec [] = ok []
to_snapshot_rows codec (r ∷ rs) = do
  key ← from_proto_primary_key r.primary_key
  rest ← to_snapshot_rows codec rs
  ok (
      (record {
        primary_key = key;
        payload = codec.fields_to_payload r.fields;
        metadata = r.metadata;
        version = pos 0;
      })
      ∷ rest)

-- A key that does not decode counts as none.
key_or_nil : Result DecodeError PrimaryKey → PrimaryKey
key_or_nil (ok key) = key
key_or_nil (err e) = []

unfoldable pub requests_of : List ProtoSnapshotRequest → List SnapshotRequest
unfolding from_proto_primary_key key_or_nil
requests_of [] = []
requests_of (q ∷ qs) =
    (record {
      table = q.table;
      after_primary_key = key_or_nil (from_proto_primary_key q.after_primary_key);
    })
    ∷ requests_of qs

unfoldable pub snapshot_requests_from_consume : Option ConsumeRequest → List SnapshotRequest
unfolding requests_of
snapshot_requests_from_consume none = []
snapshot_requests_from_consume (some req) = requests_of req.snapshot_requests

-- LastProtoEventID
proto_id_or_empty : Option ProtoEvent → String
proto_id_or_empty none = ""
proto_id_or_empty (some e) = e.event_id

unfoldable pub last_proto_event_id : List ProtoEvent → String
unfolding proto_id_or_empty
last_proto_event_id es = proto_id_or_empty (last? es)
