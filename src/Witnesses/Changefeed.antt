-- ===== src/Witnesses/Changefeed.antt =====
-- A transaction of three changes for two peers, in chunks of two.
use transmogr.Base.{
  ℕ, String, map, false, string_eq, nat_beq, if◌then◌else◌, ◌==◌, ◌≡◌, refl, Option, none, some,
  List, [], ◌∷◌, arith, All, ok,
}
use transmogr.Base.Int.{ℤ, pos, pos_part}
use transmogr.Base.Tables.{no_rows}
use transmogr.Base.Text.{codes}
use transmogr.Models.Events.{
  ReplicationEvent, Operation, BroadcastMode, Fields, OutboxBatch, validate,
}
use transmogr.Models.Json.{Bytes}
use transmogr.Models.State.{ChangefeedChange, ChangefeedBatch}
use transmogr.Outbox.{outbox_next_sequence, outbox_enqueue}
use transmogr.Outbox.Delivery.{Content}
use transmogr.Outbox.Service.{State, enqueue_batch}
use transmogr.Changefeed.{
  ServiceConfig, Codecs, Feed, Saves, broadcast_allowed, events_of, table_key, enqueue_events,
  handle_batch,
}
use transmogr.Changefeed.Chunks.{IsSplit, enqueue_events-IsSplit}
use transmogr.Changefeed.Held.{
  AllHeld, AllToldChunks, chunks_of, chunks_for, enqueue_events-AllHeld,
}
use transmogr.Changefeed.Peers.{HasEvents, handle_batch-HasEvents}

abbrev config : ServiceConfig
config = record {
  source = "cdc";
  local_region = "us";
  broadcast_mode = BroadcastMode.full_sync;
  max_batch_events = 2;
}

abbrev one_field : Bytes → Option Fields
one_field payload = some (("payload", payload) ∷ [])

abbrev id_at : ℤ → String
id_at z = if nat_beq (pos_part z) 3 then "c" else if nat_beq (pos_part z) 2 then "b" else "a"

abbrev id_of : ChangefeedChange → String
id_of change = id_at change.version

abbrev codecs : Codecs
codecs = record { payload_to_fields = one_field; event_id = id_of }

abbrev change : ℕ → ChangefeedChange
change version = record {
  table = "users";
  primary_key = [];
  operation = Operation.update;
  version = pos version;
  payload = codes "1";
}

abbrev batch : ChangefeedBatch
batch = record { tx_id = "7"; changes = change 1 ∷ change 2 ∷ change 3 ∷ [] }

abbrev event : ℕ → ReplicationEvent
event version = record {
  peer_region = "us";
  table = "users";
  event_id = id_at (pos version);
  primary_key = [];
  operation = Operation.update;
  version = pos version;
  fields = ("payload", codes "1") ∷ [];
  metadata = [];
}

abbrev events : List ReplicationEvent
events = event 1 ∷ event 2 ∷ event 3 ∷ []

abbrev start : State
start = record {
  db = record { sequences = no_rows; rows = []; next_id = 1 };
  next_id = 0;
  subs = [];
  sends = [];
  panicked = false;
  cleanup_deleted = 0;
  cleanup_deleted_by_age = 0;
  cleanup_deleted_by_count = 0;
}

abbrev feed : Feed
feed = record { outbox = start; cursors = no_rows }

abbrev clock : ℕ → ℕ
clock n = 5

abbrev saves : Saves
saves = record { tables = "users" ∷ []; fails = λ table. false }

abbrev peers : List String
peers = "eu" ∷ "ap" ∷ []

events_of_runs : events_of config codecs batch.changes ≡ ok events
unfolding events_of broadcast_allowed
events_of_runs = refl

handle_batch_runs : (handle_batch saves clock config codecs peers batch feed).1 ≡ none
unfolding handle_batch broadcast_allowed enqueue_batch outbox_enqueue validate outbox_next_sequence
handle_batch_runs = refl

-- What the keys of the two chunks stand for.
abbrev content : Content
content region table id =
    if id == "b" then event 1 ∷ event 2 ∷ [] else if id == "c" then event 3 ∷ [] else []

chunks_told :
    (region : String)
    → AllToldChunks content region (table_key "7" events) (chunks_for config events)
unfolding chunks_of table_key
chunks_told region = (refl, (refl, tt))

handle_batch-HasEvents_example :
    All
      (HasEvents events (handle_batch saves clock config codecs peers batch feed).0.outbox.db)
      peers
handle_batch-HasEvents_example =
    handle_batch-HasEvents saves content clock config codecs peers batch events feed
      (chunks_told "eu", (chunks_told "ap", tt)) tt (omega arith) events_of_runs handle_batch_runs

enqueue_events-IsSplit_example :
    IsSplit 2 "eu"
      (table_key "7" events)
      "7"
      events
      (enqueue_events clock config "eu" "7" events start)
enqueue_events-IsSplit_example =
    enqueue_events-IsSplit clock config "eu" "7" events start (omega arith)

enqueue_events-AllHeld_example : AllHeld (enqueue_events clock config "eu" "7" events start)
enqueue_events-AllHeld_example =
    enqueue_events-AllHeld content clock config "eu" "7" events start (chunks_told "eu") tt

-- The third event stands in a row of its own.
third_is_stored :
    map
      (λ (b : OutboxBatch). b.events)
      (enqueue_events clock config "eu" "7" events start).outbox.db.rows
    ≡ (event 1 ∷ event 2 ∷ []) ∷ (event 3 ∷ []) ∷ []
unfolding enqueue_events enqueue_batch outbox_enqueue validate outbox_next_sequence
third_is_stored = refl
