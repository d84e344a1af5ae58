-- ===== src/Witnesses/Protocol.antt =====
-- Events, rows and requests through the wire, and two handshakes.
use transmogr.Base.{
  String, ◌≡◌, ◌↔◌, refl, Option, none, some, List, [], ◌∷◌, map, arith, All, if◌then◌else◌, ◌==◌,
  list_eq, nat_eq, string_eq, ok,
}
use transmogr.Base.Int.{pos}
use transmogr.Base.Text.{codes}
use transmogr.Models.Events.{ReplicationEvent, Operation, Fields}
use transmogr.Models.Json.{Bytes, json_string}
use transmogr.Models.Json.Integers.{json_int64}
use transmogr.Models.PrimaryKey.{PrimaryKeyPart}
use transmogr.Protocol.{Codec, ProtoEvent, HandshakeMessage, to_proto_events, to_replication_events}
use transmogr.Protocol.RoundTrip.{
  IsCanonical, integer, text, HasValue, received, to_replication_events-to_proto_events,
  to_replication_events_iff,
}
use transmogr.Protocol.Handshake.{
  HandshakeConfig, HandshakeTable, Agrees, check_handshake_compatibility,
  check_handshake_compatibility_iff,
}

-- A decoder of the two texts that the tests send, and of the objects of a single column.
abbrev text_of_bytes : Bytes → Option String
text_of_bytes raw =
    if raw == json_string "eu"
    then some "eu"
    else if raw == json_string "ap"
    then some "ap"
    else none

abbrev or_no_text : Option String → String
or_no_text none = ""
or_no_text (some s) = s

abbrev first_value : Fields → Bytes
first_value [] = []
first_value ((name, value) ∷ fs) = value

abbrev pub codec : Codec
codec = record {
  unmarshal_string = text_of_bytes;
  text_of = λ raw. or_no_text (text_of_bytes raw);
  payload_to_fields = λ raw. some (("id", raw) ∷ []);
  fields_to_payload = first_value;
}

abbrev pub number_part : PrimaryKeyPart
number_part = record { column = "id"; key_type = "integer"; value = json_int64 (pos 7) }

abbrev text_part : PrimaryKeyPart
text_part = record { column = "region"; key_type = "string"; value = json_string "eu" }

abbrev pub sent_event : Operation → ReplicationEvent
sent_event op = record {
  peer_region = "us";
  table = "users";
  event_id = "e";
  primary_key = number_part ∷ [];
  operation = op;
  version = pos 1;
  fields = ("id", codes "7") ∷ [];
  metadata = ("source", codes "1") ∷ [];
}

pub number_part-IsCanonical : IsCanonical codec number_part
number_part-IsCanonical = integer (pos 7) (omega arith) refl refl

text_part-IsCanonical : IsCanonical codec text_part
unfolding json_string
text_part-IsCanonical = text "eu" refl refl refl

abbrev sent_events : List ReplicationEvent
sent_events =
    sent_event Operation.unset
    ∷ (record (sent_event Operation.delete) { primary_key = number_part ∷ text_part ∷ [] })
    ∷ []

to_replication_events-to_proto_events_example :
    to_replication_events (to_proto_events codec sent_events) ≡ ok (map received sent_events)
to_replication_events-to_proto_events_example =
    to_replication_events-to_proto_events codec sent_events
      ((number_part-IsCanonical, tt), ((number_part-IsCanonical, (text_part-IsCanonical, tt)), tt))

abbrev pub local_message : HandshakeMessage
local_message = record { region = "eu"; version = "1"; configuration = "{}" }

abbrev received_events : List ProtoEvent
received_events = to_proto_events codec sent_events

to_replication_events_iff_example :
    ((out : List ReplicationEvent) × (to_replication_events received_events ≡ ok out))
    ↔ All (λ e. All HasValue e.primary_key) received_events
to_replication_events_iff_example = to_replication_events_iff received_events

abbrev table_named : String → HandshakeTable
table_named name = record { name = name; primary_key = "id" ∷ []; region_field = ""; columns = [] }

-- A parser of two configurations, which name the same tables in two orders.
abbrev pub parse : String → Option HandshakeConfig
parse input =
    if input == "{}"
    then some (record { source = "a"; tables = table_named "users" ∷ table_named "orders" ∷ [] })
    else if input == "{ }"
    then some (record { source = "b"; tables = table_named "orders" ∷ table_named "users" ∷ [] })
    else none

abbrev pub peer_message : HandshakeMessage
peer_message = record { region = "us"; version = "1"; configuration = "{ }" }

check_handshake_compatibility_iff_example :
    (check_handshake_compatibility parse local_message peer_message ≡ ok tt)
    ↔ Agrees parse local_message peer_message
check_handshake_compatibility_iff_example =
    check_handshake_compatibility_iff parse local_message peer_message
