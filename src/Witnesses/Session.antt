-- ===== src/Witnesses/Session.antt =====
-- A peer whose handshake is refused, and one whose batches are applied.
use transmogr.Base.{◌≡◌, refl, false, none, List, [], ◌∷◌, ok, err}
use transmogr.Base.Sorting.{sort_by}
use transmogr.Base.Text.{cmp_str}
use transmogr.Base.Order.{cmp_ℕ}
use transmogr.Base.Tables.{no_rows}
use transmogr.Models.Events.{Operation, ApplyMode}
use transmogr.Protocol.{HandshakeMessage, to_proto_events}
use transmogr.Protocol.Handshake.{check_handshake_compatibility, versions_differ}
use transmogr.Protocol.Messages.{ConsumeResponse, handshake, event_batch, snapshot_complete}
use transmogr.Client.Session.{Session, Receiver, recv_loop}
use transmogr.Client.Session.Traces.{HasNoEffect, recv_loop-HasNoEffect}
use transmogr.Client.Session.Accounts.{Accounts, recv_loop-Accounts}
use transmogr.Witnesses.Apply.{store}
use transmogr.Witnesses.Protocol.{codec, parse, local_message, peer_message, sent_event}

abbrev pub client : Session
client = record {
  local_region = "eu";
  peer_region = "us";
  local_handshake = local_message;
  mode = ApplyMode.upsert;
  codec = codec;
  parse = parse;
  prepare_events = ok;
  prepare_rows = λ table. ok;
  ack = λ q. none;
}

abbrev pub receiver : Receiver
receiver = record {
  store = store;
  cursors = no_rows;
  stored_key = λ key. key;
  jobs = no_rows;
  faults = [];
}

abbrev other_version : HandshakeMessage
other_version = record peer_message { version = "2" }

abbrev sent_batch : ConsumeResponse
sent_batch = event_batch 1 (to_proto_events codec (sent_event Operation.insert ∷ []))

refused :
    check_handshake_compatibility parse local_message other_version ≡ err (versions_differ "1" "2")
unfolding check_handshake_compatibility sort_by cmp_str cmp_ℕ
refused = refl

recv_loop-HasNoEffect_example :
    HasNoEffect receiver
      (recv_loop client none false (sent_batch ∷ handshake other_version ∷ []) receiver)
recv_loop-HasNoEffect_example =
    recv_loop-HasNoEffect client none (sent_batch ∷ handshake other_version ∷ []) receiver
      (tt, ((versions_differ "1" "2", refused), tt))

abbrev welcome : List ConsumeResponse
welcome = handshake peer_message ∷ sent_batch ∷ snapshot_complete "users" ∷ []

recv_loop-Accounts_example :
    Accounts client false welcome receiver
      (recv_loop client none false welcome receiver).actions
      (recv_loop client none false welcome receiver).receiver
recv_loop-Accounts_example = recv_loop-Accounts client none false welcome receiver
