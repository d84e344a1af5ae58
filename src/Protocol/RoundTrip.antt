-- ===== src/Protocol/RoundTrip.antt =====
-- What a peer receives of what was sent: events, rows and requests through the wire and back.
use transmogr.Base.{
  String, ◌≡◌, ◌≢◌, ◌↔◌, refl, sym, ap, ◌∙◌, Bool, some, List, [], ◌∷◌, map, All, string_eq, ok,
  bind-eq-ok,
}
use transmogr.Base.Int.{ℤ}
use transmogr.Models.Events.{ReplicationEvent, Operation}
use transmogr.Models.Json.{Bytes, unmarshal_int64, unmarshal_bool, json_string}
use transmogr.Models.Json.Integers.{
  json_int64, json_bool, IsInt64, unmarshal_int64-json_int64, unmarshal_bool-json_bool,
}
use transmogr.Models.PrimaryKey.{
  PrimaryKey, PrimaryKeyPart, string_type, integer_type, boolean_type,
}
use transmogr.Protocol.{
  Codec, ProtoPart, ProtoValue, missing, integer_value, boolean_value, string_value, ProtoEvent,
  assign_proto_primary_key_value, to_proto_primary_key, to_proto_operation, from_proto_operation,
  to_proto_events, infer_primary_key_type, from_proto_primary_key_value, from_proto_primary_key,
  to_replication_events,
}

-- A key part as the database's rows give it: the JSON of an int64, a bool or a text, by its type.
pub data IsCanonical (codec : Codec) (p : PrimaryKeyPart) : Type 0 where
  integer :
      (z : ℤ) → IsInt64 z → p.key_type ≡ integer_type → p.value ≡ json_int64 z → IsCanonical codec p
  boolean : (b : Bool) → p.key_type ≡ boolean_type → p.value ≡ json_bool b → IsCanonical codec p
  text :
      (s : String)
      → p.key_type ≡ string_type
      → p.value ≡ json_string s
      → codec.unmarshal_string (json_string s) ≡ some s
      → IsCanonical codec p

module _ (codec : Codec) where
  assign-integer :
      (p : PrimaryKeyPart) (z : ℤ)
      → p.key_type ≡ integer_type
      → unmarshal_int64 p.value ≡ some z
      → assign_proto_primary_key_value codec p ≡ integer_value z
  unfolding assign_proto_primary_key_value
  assign-integer p z e f = rw (e, f) refl

  assign-boolean :
      (p : PrimaryKeyPart) (b : Bool)
      → p.key_type ≡ boolean_type
      → unmarshal_bool p.value ≡ some b
      → assign_proto_primary_key_value codec p ≡ boolean_value b
  unfolding assign_proto_primary_key_value
  assign-boolean p b e f = rw (e, f) refl

  assign-text :
      (p : PrimaryKeyPart) (s : String)
      → p.key_type ≡ string_type
      → codec.unmarshal_string p.value ≡ some s
      → assign_proto_primary_key_value codec p ≡ string_value s
  unfolding assign_proto_primary_key_value
  assign-text p s e f = rw (e, f) refl

  -- A part comes back with its type and value.
  part-canonical :
      (p : PrimaryKeyPart)
      → IsCanonical codec p
      → (v : ProtoValue) × (assign_proto_primary_key_value codec p ≡ v)
        × (from_proto_primary_key_value (record { column = p.column; value = v }) ≡ ok p.value)
        × (infer_primary_key_type v ≡ p.key_type)
  unfolding from_proto_primary_key_value infer_primary_key_type
  part-canonical p (integer z h e f) = (
    integer_value z,
    assign-integer p z e (ap unmarshal_int64 f ∙ unmarshal_int64-json_int64 z h),
    ap ok (sym f),
    sym e,
  )
  part-canonical p (boolean b e f) = (
    boolean_value b,
    assign-boolean p b e (ap unmarshal_bool f ∙ unmarshal_bool-json_bool b),
    ap ok (sym f),
    sym e,
  )
  part-canonical p (text s e f c) =
      (string_value s, assign-text p s e (ap codec.unmarshal_string f ∙ c), ap ok (sym f), sym e)

  pub key-canonical :
      (key : PrimaryKey)
      → All (IsCanonical codec) key
      → from_proto_primary_key (to_proto_primary_key codec key) ≡ ok key
  unfolding from_proto_primary_key to_proto_primary_key
  key-canonical [] h = refl
  key-canonical (p ∷ ps) h =
      let (v, sent, value, type) = part-canonical p h.0 in
      rw (sent, value, type, key-canonical ps h.1) refl

-- The operation that the receiver sees: all that is no insert, update or delete is an upsert.
unfoldable pub received_operation : Operation → Operation
received_operation Operation.insert = Operation.insert
received_operation Operation.update = Operation.update
received_operation Operation.delete = Operation.delete
received_operation _ = Operation.upsert

operation_back :
    (o : Operation) → from_proto_operation (to_proto_operation o) ≡ received_operation o
unfolding to_proto_operation from_proto_operation received_operation
operation_back Operation.insert = refl
operation_back Operation.unset = refl
operation_back Operation.update = refl
operation_back Operation.upsert = refl
operation_back Operation.delete = refl
operation_back (Operation.other s) = refl

abbrev pub received : ReplicationEvent → ReplicationEvent
received e = record e { operation = received_operation e.operation }

-- Events whose key parts hold the JSON of an int64, a bool or a text, by their types, arrive as they
-- were sent, in order, with every field, but that every operation other than insert, update and
-- delete arrives as an upsert.
pub to_replication_events-to_proto_events :
    (codec : Codec) (es : List ReplicationEvent)
    → All (λ e. All (IsCanonical codec) e.primary_key) es
    → to_replication_events (to_proto_events codec es) ≡ ok (map received es)
unfolding to_replication_events to_proto_events
to_replication_events-to_proto_events codec [] h = refl
to_replication_events-to_proto_events codec (e ∷ es) h =
    rw
      (
        key-canonical codec e.primary_key h.0,
        to_replication_events-to_proto_events codec es h.1,
        operation_back e.operation,
      )
      refl

-- A part whose oneof is set.
abbrev pub HasValue : ProtoPart → Type 0
HasValue part = part.value ≢ missing

value_of_set :
    (v : ProtoValue) (column : String)
    → v ≢ missing
    → (raw : Bytes) × (from_proto_primary_key_value (record { column = column; value = v })
        ≡ ok raw)
unfolding from_proto_primary_key_value
value_of_set missing column h = absurd (h refl)
value_of_set (integer_value z) column h = (json_int64 z, refl)
value_of_set (boolean_value b) column h = (json_bool b, refl)
value_of_set (string_value s) column h = (json_string s, refl)

key_of_set :
    (parts : List ProtoPart)
    → All HasValue parts
    → (key : PrimaryKey) × (from_proto_primary_key parts ≡ ok key)
unfolding from_proto_primary_key
key_of_set [] h = ([], refl)
key_of_set (p ∷ ps) h =
    let (raw, e) = value_of_set p.value p.column h.0 in
    let (key, f) = key_of_set ps h.1 in
    let part : PrimaryKeyPart = record {
      column = p.column;
      key_type = infer_primary_key_type p.value;
      value = raw;
    } in
    (part ∷ key, rw (e, f) refl)

set_of_value :
    (v : ProtoValue) (column : String) (raw : Bytes)
    → from_proto_primary_key_value (record { column = column; value = v }) ≡ ok raw
    → v ≢ missing
unfolding from_proto_primary_key_value
set_of_value missing column raw e = cc
set_of_value (integer_value z) column raw e = λ f. cc
set_of_value (boolean_value b) column raw e = λ f. cc
set_of_value (string_value s) column raw e = λ f. cc

set_of_key :
    (parts : List ProtoPart) (key : PrimaryKey)
    → from_proto_primary_key parts ≡ ok key
    → All HasValue parts
unfolding from_proto_primary_key
set_of_key [] key h = tt
set_of_key (p ∷ ps) key h =
    let (raw, e, rest) = bind-eq-ok (from_proto_primary_key_value p) _ key h in
    let (later, f, same) = bind-eq-ok (from_proto_primary_key ps) _ key rest in
    (set_of_value p.value p.column raw e, set_of_key ps later f)

events_of_set :
    (es : List ProtoEvent)
    → All (λ e. All HasValue e.primary_key) es
    → (out : List ReplicationEvent) × (to_replication_events es ≡ ok out)
unfolding to_replication_events
events_of_set [] h = ([], refl)
events_of_set (e ∷ es) h =
    let (key, f) = key_of_set e.primary_key h.0 in
    let (out, g) = events_of_set es h.1 in
    let event : ReplicationEvent = record {
      peer_region = e.origin_region;
      table = e.table;
      event_id = e.event_id;
      primary_key = key;
      operation = from_proto_operation e.operation;
      version = e.version;
      fields = e.fields;
      metadata = e.metadata;
    } in
    (event ∷ out, rw (f, g) refl)

set_of_events :
    (es : List ProtoEvent) (out : List ReplicationEvent)
    → to_replication_events es ≡ ok out
    → All (λ e. All HasValue e.primary_key) es
unfolding to_replication_events
set_of_events [] out h = tt
set_of_events (e ∷ es) out h =
    let (key, f, rest) = bind-eq-ok (from_proto_primary_key e.primary_key) _ out h in
    let (later, g, same) = bind-eq-ok (to_replication_events es) _ out rest in
    (set_of_key e.primary_key key f, set_of_events es later g)

-- Received events decode exactly when every part of every key carries a value; one part without a
-- value, which the protocol allows, fails the whole batch.
pub to_replication_events_iff :
    (es : List ProtoEvent)
    → ((out : List ReplicationEvent) × (to_replication_events es ≡ ok out))
      ↔ All (λ e. All HasValue e.primary_key) es
to_replication_events_iff es = (λ (out, e). set_of_events es out e, events_of_set es)
