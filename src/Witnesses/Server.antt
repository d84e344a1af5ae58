-- ===== src/Witnesses/Server.antt =====
-- A consumer that is accepted, and the feed of a region.
use transmogr.Base.{List, ◌≡◌, ◌↔◌, none, some, [], ◌∷◌, ok}
use transmogr.Protocol.{ConsumeRequest}
use transmogr.Protocol.Handshake.{Agrees}
use transmogr.Server.Access.{
  Connection, tls, Handler, handshake_of, IsAdmitted, handle_consume_request,
  handle_consume_request_iff,
}
use transmogr.Server.Feed.{Server, Course}
use transmogr.Replication.{SnapshotRequest}
use transmogr.Witnesses.Outbox.{batch, full}
use transmogr.Witnesses.Protocol.{codec, parse, local_message}
use transmogr.Witnesses.Snapshot.{service, peer_session}

abbrev handler : Handler
handler = record { local_region = "eu"; allowed_peer_regions = "us" ∷ "ap" ∷ [] }

abbrev connection : Connection
connection = tls (
    some (
      (record { scheme = "spiffe"; host = "mesh"; region = "x" })
      ∷ (record { scheme = "transmogr"; host = "region"; region = "us" })
      ∷ []))

abbrev request : ConsumeRequest
request = record { region = "us"; version = "1"; configuration = "{ }"; snapshot_requests = [] }

handle_consume_request_iff_example :
    (handle_consume_request parse handler connection local_message request ≡ ok "us") ↔ (
      Agrees parse local_message (handshake_of request)
      × IsAdmitted handler connection request.region
      × ("us" ≡ request.region))
handle_consume_request_iff_example =
    handle_consume_request_iff parse handler connection local_message request "us"

abbrev server : Server
server = record {
  codec = codec;
  local_handshake = local_message;
  snapshots = service;
  prepare_batch = ok;
  prepare_rows = λ table. ok;
  query = λ sent. none;
  lease_session = peer_session;
}

abbrev course : Course
course = record {
  fuel = 2;
  snapshot_watermark = 3;
  live_watermark = 5;
  outbox = full;
  live = (record (batch "eu" "d") { created_at = 6 }) ∷ [];
}

abbrev requests : List SnapshotRequest
requests = (record { table = "orders"; after_primary_key = [] }) ∷ []
