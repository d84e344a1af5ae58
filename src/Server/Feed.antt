-- ===== src/Server/Feed.antt =====
-- internal/transport/grpc/server/handlers.go: `Consume` after the consumer is accepted, `Ack`, and the
-- messages between. Other instances' work on the leases during a snapshot is a parameter, and so are
-- the transformers and the answers of the clock; the context stays alive, and the outbox answers.
pub mod Copies
pub mod Handoff
use transmogr.Base.{
  ℕ, zero, suc, String, Bool, true, false, not, ◌&&◌, ◌||◌, Option, none, some, List, [], ◌∷◌, ◌++◌,
  map, keep, is_empty, length, ltb, nat_beq, if◌then◌else◌, ◌==◌, string_eq, Result, ok, err,
}
use transmogr.Models.Events.{OutboxBatch}
use transmogr.Models.State.{SnapshotRow, SnapshotChunk}
use transmogr.Leases.{Leases}
use transmogr.Outbox.{OutboxDb, outbox_ack}
use transmogr.Outbox.Paging.{replay_pending_batches}
use transmogr.Protocol.{Codec, HandshakeMessage, to_proto_snapshot_rows, to_proto_events}
use transmogr.Protocol.Messages.{
  ConsumeResponse, handshake, snapshot_chunk, snapshot_complete, event_batch, transaction_batch,
  watermark_of,
}
use transmogr.Replication.{SnapshotRequest}
use transmogr.Server.Access.{Handler, Connection, AccessError, validate_remote_region}
use transmogr.Snapshot.Sender.{Service, Calls, Session, SendError, Transfer, send_to_peer}

pub record Server : Type 0 where
  pub codec : Codec
  pub local_handshake : HandshakeMessage
  pub snapshots : Service
  pub prepare_batch : OutboxBatch → Result String OutboxBatch
  pub prepare_rows : String → List SnapshotRow → Result String (List SnapshotRow)
  pub query : List SnapshotChunk → Option String
  pub lease_session : Session

pub data FeedError : Type 0 where
  out_of_fuel : FeedError
  encode_failed : String → FeedError
  snapshot_failed : SendError → FeedError

-- The messages in the order in which they enter the send queue, and the error that ends them.
pub record Sent : Type 0 where
  pub messages : List ConsumeResponse
  pub error : Option FeedError

abbrev pub done : List ConsumeResponse → Sent
done ms = record { messages = ms; error = none }

and_then : Option FeedError → List ConsumeResponse → Sent → Sent
and_then none ms later = record later { messages = ms ++ later.messages }
and_then (some e) ms later = record { messages = ms; error = some e }

unfoldable pub then_send : Sent → Sent → Sent
unfolding and_then
then_send first later = and_then first.error first.messages later

-- batchToProto: a transaction, or events without one.
unfoldable pub prepared_message : Codec → OutboxBatch → ConsumeResponse
prepared_message codec b =
    if b.tx_id == ""
    then event_batch b.sequence (to_proto_events codec b.events)
    else transaction_batch b.tx_id b.sequence (to_proto_events codec b.events)

of_prepared : Codec → Result String OutboxBatch → Result String ConsumeResponse
unfolding prepared_message
of_prepared codec (err e) = err e
of_prepared codec (ok b) = ok (prepared_message codec b)

unfoldable pub batch_to_proto : Server → OutboxBatch → Result String ConsumeResponse
unfolding of_prepared
batch_to_proto s b = of_prepared s.codec (s.prepare_batch b)

send_one : Result String ConsumeResponse → Sent → Sent
send_one (err e) later = record { messages = []; error = some (encode_failed e) }
send_one (ok m) later = record later { messages = m ∷ later.messages }

unfoldable pub send_batches : Server → List OutboxBatch → Sent
unfolding send_one
send_batches s [] = done []
send_batches s (b ∷ bs) = send_one (batch_to_proto s b) (send_batches s bs)

replayed : Server → Option (List OutboxBatch) → Sent
unfolding send_batches
replayed s none = record { messages = []; error = some out_of_fuel }
replayed s (some bs) = send_batches s bs

-- replayPendingBatches, with the pages of the outbox.
unfoldable pub replay : Server → ℕ → String → ℕ → ℕ → OutboxDb → Sent
unfolding replayed
replay s fuel region lower upper db = replayed s (replay_pending_batches fuel region lower upper db)

-- forwardLiveBatches: what the subscription delivers, without the batches that the replay covers.
abbrev pub is_live : ℕ → OutboxBatch → Bool
is_live lower b = nat_beq b.created_at 0 || ltb lower b.created_at

unfoldable pub forward_live_batches : Server → ℕ → List OutboxBatch → Sent
unfolding send_batches
forward_live_batches s lower batches = send_batches s (keep (is_live lower) batches)

-- sendSnapshot: each chunk carries the watermark of the feed.
chunk_message : Codec → String → ℕ → Bool → Result String (List SnapshotRow) → List ConsumeResponse
chunk_message codec table watermark last (err e) = []
chunk_message codec table watermark last (ok rows) =
    snapshot_chunk table (to_proto_snapshot_rows codec rows) last (watermark_of watermark) ∷ []

chunk_messages : Server → String → ℕ → List SnapshotChunk → List ConsumeResponse
unfolding chunk_message
chunk_messages s table watermark [] = []
chunk_messages s table watermark (c ∷ cs) =
    chunk_message s.codec table watermark c.last (s.prepare_rows table c.rows)
    ++ chunk_messages s table watermark cs

unfoldable pub error_of : Result String (List SnapshotRow) → Option String
error_of (ok rows) = none
error_of (err e) = some e

abbrev pub calls_of : Server → String → Calls
calls_of s table = record {
  query = s.query;
  callback = λ sent c. error_of (s.prepare_rows table c.rows);
}

abbrev feed_error : Option SendError → Option FeedError
feed_error none = none
feed_error (some e) = some (snapshot_failed e)

unfoldable pub send_snapshot : Server → ℕ → String → ℕ → SnapshotRequest → Leases → Leases × Sent
unfolding chunk_messages error_of
send_snapshot s fuel region watermark q t =
    let (t', transfer) =
      send_to_peer fuel s.snapshots (calls_of s q.table) s.lease_session region q.table
        q.after_primary_key t in
    (
      t',
      record {
        messages = chunk_messages s q.table watermark transfer.chunks;
        error = feed_error transfer.error;
      },
    )

unfoldable pub send_snapshots :
    Server → ℕ → String → ℕ → List SnapshotRequest → Leases → Leases × Sent
unfolding send_snapshot then_send
send_snapshots s fuel region watermark [] t = (t, done [])
send_snapshots s fuel region watermark (q ∷ qs) t =
    let (t', first) = send_snapshot s fuel region watermark q t in
    let (t'', later) = send_snapshots s fuel region watermark qs t' in (t'', then_send first later)

abbrev pub completions : List SnapshotRequest → List ConsumeResponse
completions = map λ (q : SnapshotRequest). snapshot_complete q.table

-- The two watermarks of the clock, the outbox at the replays, and what the subscription delivers.
pub record Course : Type 0 where
  pub fuel : ℕ
  pub snapshot_watermark : ℕ
  pub live_watermark : ℕ
  pub outbox : OutboxDb
  pub live : List OutboxBatch

unfoldable pub replays : Server → Course → String → List SnapshotRequest → Sent
unfolding replay then_send
replays s c region [] = replay s c.fuel region 0 c.live_watermark c.outbox
replays s c region (q ∷ qs) = then_send (replay s c.fuel region 0 c.snapshot_watermark c.outbox) (
    then_send (replay s c.fuel region c.snapshot_watermark c.live_watermark c.outbox)
      (done (completions (q ∷ qs))))

-- Consume: the handshake, the snapshots, the pending batches, the completions, the live batches.
unfoldable pub consume : Server → Course → String → List SnapshotRequest → Leases → Leases × Sent
unfolding send_snapshots replays forward_live_batches then_send
consume s c region requests t =
    let (t', snapshots) = send_snapshots s c.fuel region c.snapshot_watermark requests t in
    (
      t',
      then_send (done (handshake s.local_handshake ∷ [])) (
          then_send snapshots (
            then_send (replays s c region requests)
              (forward_live_batches s c.live_watermark c.live))),
    )

checked_ack :
    Result AccessError (Unit {0}) → OutboxDb × Bool → OutboxDb → OutboxDb × Option AccessError
checked_ack (err e) acked db = (db, some e)
checked_ack (ok x) acked db = (acked.0, none)

-- Ack
unfoldable pub ack :
    Handler → Connection → String → String → String → OutboxDb → OutboxDb × Option AccessError
unfolding checked_ack
ack h conn region table event_id db =
    checked_ack (validate_remote_region h conn region) (outbox_ack region table event_id db) db
