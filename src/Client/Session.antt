-- ===== src/Client/Session.antt =====
-- internal/transport/grpc/client/recv.go: what a session makes of the messages that it receives. The
-- pipeline of transformers is a parameter, as is what the peer answers to an acknowledgement. A
-- session's trace lists what it did.
pub mod Traces
pub mod Accounts
use transmogr.Base.{
  ℕ, String, Bool, true, false, ◌||◌, Option, none, some, List, [], ◌∷◌, ◌++◌, if◌then◌else◌,
  Result, ok, err,
}
use transmogr.Models.Events.{ReplicationEvent, ApplyMode, Fields}
use transmogr.Models.PrimaryKey.{PrimaryKey}
use transmogr.Models.Json.{Bytes}
use transmogr.Models.State.{Scope, SnapshotRow}
use transmogr.Apply.Batches.{Store}
use transmogr.Commit.{Db, Cursors}
use transmogr.Replication.{
  BatchError, SnapshotRequest, apply_event_batch, apply_transaction_batch, queue_snapshot_requests,
}
use transmogr.Snapshot.Jobs.{Jobs, get_state_snapshot_job}
use transmogr.Snapshot.Receiver.{
  State, SnapshotError, apply_incoming_chunk, complete_incoming_snapshot,
}
use transmogr.Protocol.{
  Codec, ProtoEvent, ProtoSnapshotRow, HandshakeMessage, DecodeError, to_replication_events,
  to_snapshot_rows, last_proto_event_id, ConsumeRequest, new_consume_request,
}
use transmogr.Protocol.Handshake.{HandshakeConfig, HandshakeError, check_handshake_compatibility}
use transmogr.Protocol.Messages.{
  ConsumeResponse, handshake, snapshot_chunk, snapshot_complete, event_batch, transaction_batch,
  heartbeat,
}

-- The database of the receiver.
pub record Receiver : Type 0 where
  pub store : Store
  pub cursors : Cursors
  pub stored_key : PrimaryKey → PrimaryKey
  pub jobs : Jobs
  pub faults : List Bool

pub record AckRequest : Type 0 where
  pub region : String
  pub table : String
  pub last_event_id : String

-- The manager, for one peer.
pub record Session : Type 0 where
  pub local_region : String
  pub peer_region : String
  pub local_handshake : HandshakeMessage
  pub mode : ApplyMode
  pub codec : Codec
  pub parse : String → Option HandshakeConfig
  pub prepare_events : List ReplicationEvent → Result String (List ReplicationEvent)
  pub prepare_rows : String → List SnapshotRow → Result String (List SnapshotRow)
  pub ack : AckRequest → Option String

pub data SessionError : Type 0 where
  handshake_failed : HandshakeError → SessionError
  decode_failed : DecodeError → SessionError
  prepare_failed ack_failed : String → SessionError
  apply_failed : BatchError → SessionError
  snapshot_failed : SnapshotError → SessionError
  stream_closed : Option String → SessionError
  open_failed : String → SessionError

pub data Action : Type 0 where
  shakes_hands : Action
  applies : List ReplicationEvent → Action
  applies_chunk completes : String → Action
  acknowledges : AckRequest → Action

-- The database after a message, what was done, and the error that ends the session.
pub record Step : Type 0 where
  pub receiver : Receiver
  pub actions : List Action
  pub error : Option SessionError

abbrev pub stopped : Receiver → SessionError → Step
stopped r e = record { receiver = r; actions = []; error = some e }

unfoldable pub handled_handshake : Receiver → Result HandshakeError (Unit {0}) → Step
handled_handshake r (ok x) = record { receiver = r; actions = shakes_hands ∷ []; error = none }
handled_handshake r (err e) = stopped r (handshake_failed e)

unfoldable pub handle_handshake : Session → HandshakeMessage → Receiver → Step
unfolding handled_handshake
handle_handshake s hs r =
    handled_handshake r (check_handshake_compatibility s.parse s.local_handshake hs)

-- sendAck, after the events are applied.
unfoldable pub acked : List ReplicationEvent → AckRequest → Receiver → Option String → Step
acked events request r none = record {
  receiver = r;
  actions = applies events ∷ acknowledges request ∷ [];
  error = none;
}
acked events request r (some e) = record {
  receiver = r;
  actions = applies events ∷ acknowledges request ∷ [];
  error = some (ack_failed e);
}

abbrev pub db_of : Receiver → Db
db_of r = record { stored_key = r.stored_key; store = r.store; cursors = r.cursors }

abbrev pub with_db : Receiver → Db → Receiver
with_db r db = record r { stored_key = db.stored_key; store = db.store; cursors = db.cursors }

unfoldable pub applied_batch :
    Session → List ReplicationEvent → AckRequest → Receiver → Db × Option BatchError → Step
unfolding acked
applied_batch s events request r (db, some e) = stopped (with_db r db) (apply_failed e)
applied_batch s events request r (db, none) = acked events request (with_db r db) (s.ack request)

abbrev pub first_table : List ReplicationEvent → String
first_table [] = ""
first_table (e ∷ es) = e.table

abbrev pub request_for : Session → String → List ProtoEvent → AckRequest
request_for s table events = record {
  region = s.local_region;
  table = table;
  last_event_id = last_proto_event_id events;
}

-- PrepareEvents, and what follows: the batch, and the acknowledgement of its last event.
unfoldable pub prepared_batch :
    Session → Bool → List ProtoEvent → Receiver → Result String (List ReplicationEvent) → Step
unfolding applied_batch
prepared_batch s is_transaction raw r (err e) = stopped r (prepare_failed e)
prepared_batch s true raw r (ok events) =
    applied_batch s events (request_for s "" raw) r
      (apply_transaction_batch s.mode events (db_of r))
prepared_batch s false raw r (ok events) =
    applied_batch s events (request_for s (first_table events) raw) r
      (apply_event_batch s.mode events (db_of r))

unfoldable pub decoded_batch :
    Session → Bool → List ProtoEvent → Receiver → Result DecodeError (List ReplicationEvent) → Step
unfolding prepared_batch
decoded_batch s is_transaction raw r (err e) = stopped r (decode_failed e)
decoded_batch s is_transaction raw r (ok events) =
    prepared_batch s is_transaction raw r (s.prepare_events events)

unfoldable pub handle_event_batch : Session → List ProtoEvent → Receiver → Step
unfolding decoded_batch
handle_event_batch s raw r = decoded_batch s false raw r (to_replication_events raw)

unfoldable pub handle_transaction_batch : Session → List ProtoEvent → Receiver → Step
unfolding decoded_batch
handle_transaction_batch s raw r = decoded_batch s true raw r (to_replication_events raw)

abbrev pub state_of : Receiver → State
state_of r = record { store = r.store; jobs = r.jobs; faults = r.faults }

abbrev pub with_state : Receiver → State → Receiver
with_state r s = record r { store = s.store; jobs = s.jobs; faults = s.faults }

unfoldable pub finished_step : Receiver → Action → State × Result SnapshotError (Unit {0}) → Step
finished_step r done (s, ok x) = record {
  receiver = with_state r s;
  actions = done ∷ [];
  error = none;
}
finished_step r done (s, err e) = stopped (with_state r s) (snapshot_failed e)

abbrev pub scope_in : Session → String → Scope
scope_in s table = record { peer_region = s.peer_region; table = table }

abbrev pub or_zero : Option ℕ → ℕ
or_zero none = 0
or_zero (some w) = w

unfoldable pub prepared_rows :
    Session → String → Bool → Option ℕ → Receiver → Result String (List SnapshotRow) → Step
unfolding finished_step
prepared_rows s table last watermark r (err e) = stopped r (prepare_failed e)
prepared_rows s table last watermark r (ok rows) = finished_step r (applies_chunk table) (
    apply_incoming_chunk s.codec.payload_to_fields (scope_in s table)
      (record { rows = rows; last = last; watermark = or_zero watermark }) (state_of r))

unfoldable pub decoded_rows :
    Session → String → Bool → Option ℕ → Receiver → Result DecodeError (List SnapshotRow) → Step
unfolding prepared_rows
decoded_rows s table last watermark r (err e) = stopped r (decode_failed e)
decoded_rows s table last watermark r (ok rows) =
    prepared_rows s table last watermark r (s.prepare_rows table rows)

-- One message once the handshake is done.
unfoldable pub handle_message : Session → ConsumeResponse → Receiver → Step
unfolding decoded_rows finished_step
handle_message s (handshake hs) r = handle_handshake s hs r
handle_message s (snapshot_chunk table rows last watermark) r =
    decoded_rows s table last watermark r (to_snapshot_rows s.codec rows)
handle_message s (snapshot_complete table) r =
    finished_step r (completes table) (complete_incoming_snapshot (scope_in s table) (state_of r))
handle_message s (event_batch sequence events) r = handle_event_batch s events r
handle_message s (transaction_batch tx sequence events) r = handle_transaction_batch s events r
handle_message s (heartbeat at) r = record { receiver = r; actions = []; error = none }

-- The error ends the loop; otherwise the next message is read.
unfoldable pub prepend : List Action → Step → Step
prepend actions later = record later { actions = actions ++ later.actions }

unfoldable pub after_step : Option SessionError → Step → (Receiver → Step) → Step
unfolding prepend
after_step none step more = prepend step.actions (more step.receiver)
after_step (some e) step more = step

abbrev pub is_handshake : ConsumeResponse → Bool
is_handshake (handshake hs) = true
is_handshake _ = false

-- The messages of the stream, which then ends with an error, or without one (io.EOF). Messages before
-- the handshake are dropped.
unfoldable pub recv_loop : Session → Option String → Bool → List ConsumeResponse → Receiver → Step
unfolding after_step
recv_loop s ending shaken [] r = stopped r (stream_closed ending)
recv_loop s ending shaken (m ∷ ms) r =
    let dropped = recv_loop s ending false ms r in
    let step = handle_message s m r in
    if shaken || is_handshake m
    then after_step step.error step (λ r'. recv_loop s ending true ms r')
    else dropped

-- The end of a stream is no error of the session.
abbrev unless_eof : Option SessionError → Option SessionError
unless_eof (some (stream_closed none)) = none
unless_eof e = e

abbrev session_of : Session → Receiver → Result String (List ConsumeResponse × Option String) → Step
session_of s r (err e) = stopped r (open_failed e)
session_of s r (ok (messages, ending)) =
    let step = recv_loop s ending false messages r in record step { error = unless_eof step.error }

-- runPeerSession: the requests of this region's tables, the stream that the peer opens, and the loop.
unfoldable pub run_peer_session :
    Session
    → List String
    → (ConsumeRequest → Result String (List ConsumeResponse × Option String))
    → Receiver
    → Step
unfolding recv_loop
run_peer_session s tables consume r =
    let requests =
      queue_snapshot_requests tables s.peer_region r.cursors
        (λ k. get_state_snapshot_job k r.jobs) in
    session_of s r (consume (new_consume_request s.codec s.local_handshake requests))
