-- ===== src/Changefeed.antt =====
-- internal/service/changefeed/service.go: local changes on their way to the outbox of each peer, and the
-- changefeed cursors. The payload is decoded by encoding/json, a parameter; so is the event id, a SHA-256
-- of the change. The peers are served one after the other, where the code starts them together: each
-- writes its own rows and sequences. Metrics and logs are left out.
pub mod Chunks
pub mod Held
pub mod Cursors
pub mod Peers
use transmogr.Base.{
  ℕ, zero, suc, String, Bool, true, false, not, ◌&&◌, Option, none, some, List, [], ◌∷◌, ◌++◌, take,
  drop, length, is_empty, if◌then◌else◌, ◌==◌, string_eq, Result, ok, err, ◌>>=◌, ◌>>◌, fail_if,
}
use transmogr.Base.Int.{ℤ, pos}
use transmogr.Base.Tables.{Table, put, no_rows}
use transmogr.Models.Events.{
  ReplicationEvent, Operation, BroadcastMode, Fields, OutboxBatch, BatchError,
}
use transmogr.Models.Json.{Bytes}
use transmogr.Models.State.{Scope, ChangefeedChange, ChangefeedBatch, ChangefeedCursor}
use transmogr.Outbox.{outbox_next_sequence}
use transmogr.Outbox.Service.{State, enqueue_batch}
use transmogr.Replication.{is_insert, is_delete}

pub record ServiceConfig : Type 0 where
  pub source : String
  pub local_region : String
  pub broadcast_mode : BroadcastMode
  pub max_batch_events : ℕ

-- encoding/json on a payload, and eventIDFromChange.
pub record Codecs : Type 0 where
  pub payload_to_fields : Bytes → Option Fields
  pub event_id : ChangefeedChange → String

pub data FeedError : Type 0 where
  decode_failed : String → FeedError
  enqueue_failed : String → BatchError → FeedError
  out_of_fuel : FeedError
  source_mismatch save_failed : String → FeedError

unfoldable pub broadcast_allowed : BroadcastMode → Operation → Bool
broadcast_allowed BroadcastMode.insert_only op = is_insert op
broadcast_allowed BroadcastMode.upsert op = not (is_delete op)
broadcast_allowed _ op = true

event_of : ServiceConfig → Codecs → ChangefeedChange → Fields → ReplicationEvent
event_of cfg c change fields = record {
  peer_region = cfg.local_region;
  table = change.table;
  event_id = c.event_id change;
  primary_key = change.primary_key;
  operation = change.operation;
  version = change.version;
  fields = fields;
  metadata = [];
}

decoded : String → Option Fields → Result FeedError Fields
decoded table none = err (decode_failed table)
decoded table (some fields) = ok fields

-- The loop of HandleBatch.
unfoldable pub events_of :
    ServiceConfig → Codecs → List ChangefeedChange → Result FeedError (List ReplicationEvent)
unfolding event_of decoded
events_of cfg c [] = ok []
events_of cfg c (x ∷ xs) =
    let rest = events_of cfg c xs in
    if broadcast_allowed cfg.broadcast_mode x.operation
    then (do
      fields ← decoded x.table (c.payload_to_fields x.payload)
      later ← rest
      ok (event_of cfg c x fields ∷ later))
    else rest

unfoldable pub table_key : String → List ReplicationEvent → String
table_key tx_id [] = ""
table_key tx_id (e ∷ es) = if tx_id == "" then e.table else ""

abbrev pub batch_of : String → String → String → ℕ → List ReplicationEvent → OutboxBatch
batch_of region table tx_id sequence chunk = record {
  id = 0;
  peer_region = region;
  table = table;
  sequence = sequence;
  events = chunk;
  created_at = 0;
  tx_id = tx_id;
}

-- What a call has handed to the outbox, the outbox, and how the call ended.
pub record Sent : Type 0 where
  pub batches : List OutboxBatch
  pub outbox : State
  pub error : Option FeedError

abbrev before : OutboxBatch → Sent → Sent
before b s = record s { batches = b ∷ s.batches }

stop_on : String → OutboxBatch → State → Option BatchError → Sent → Sent
stop_on region b s none rest = before b rest
stop_on region b s (some e) rest = record {
  batches = b ∷ [];
  outbox = s;
  error = some (enqueue_failed region e);
}

-- The loop of enqueueBatch; `clock` is the time of the database in a round.
unfoldable pub enqueue_chunks :
    ℕ → (ℕ → ℕ) → ℕ → String → String → String → List ReplicationEvent → State → Sent
unfolding stop_on
enqueue_chunks fuel clock max region table tx_id [] s = record {
  batches = [];
  outbox = s;
  error = none;
}
enqueue_chunks zero clock max region table tx_id (e ∷ es) s = record {
  batches = [];
  outbox = s;
  error = some out_of_fuel;
}
enqueue_chunks (suc fuel) clock max region table tx_id (e ∷ es) s =
    let chunk = take max (e ∷ es) in
    let (db, sequence) =
      outbox_next_sequence (record { peer_region = region; table = table }) s.db in
    let b = batch_of region table tx_id sequence chunk in
    let (s', error) = enqueue_batch (clock fuel) b (record s { db = db }) in
    stop_on region b s' error
      (enqueue_chunks fuel clock max region table tx_id (drop max (e ∷ es)) s')

unfoldable pub enqueue_events :
    (ℕ → ℕ) → ServiceConfig → String → String → List ReplicationEvent → State → Sent
unfolding enqueue_chunks table_key
enqueue_events clock cfg region tx_id events s =
    enqueue_chunks (length events) clock cfg.max_batch_events region (table_key tx_id events) tx_id
      events s

-- The goroutines of HandleBatch: one for each peer.
next_peers : Option FeedError → Sent → Sent → Sent
next_peers none s rest = rest
next_peers (some e) s rest = s

unfoldable pub enqueue_to_peers :
    (ℕ → ℕ) → ServiceConfig → String → List ReplicationEvent → List String → State → Sent
unfolding enqueue_events next_peers
enqueue_to_peers clock cfg tx_id events [] s = record { batches = []; outbox = s; error = none }
enqueue_to_peers clock cfg tx_id events (p ∷ ps) s =
    let sent = enqueue_events clock cfg p tx_id events s in
    next_peers sent.error sent (enqueue_to_peers clock cfg tx_id events ps sent.outbox)

abbrev pub FeedCursors : Type 0
FeedCursors = Table String ChangefeedCursor

abbrev pub cursor_of : ServiceConfig → ChangefeedChange → ChangefeedCursor
cursor_of cfg x = record {
  table = x.table;
  source = cfg.source;
  last_version = x.version;
  last_primary_key = x.primary_key;
}

-- The first loop of saveCursor: of the changes of a table the last one counts.
unfoldable pub latest_by_table : ServiceConfig → List ChangefeedChange → FeedCursors → FeedCursors
latest_by_table cfg [] t = t
latest_by_table cfg (x ∷ xs) t = latest_by_table cfg xs (put x.table (cursor_of cfg x) t)

-- How the second loop goes: the keys of the Go map in the order in which it gives them, and which of
-- the statements fail.
pub record Saves : Type 0 where
  pub tables : List String
  pub fails : String → Bool

-- SaveChangefeedCursor, of a key of the map.
save_found : String → Option ChangefeedCursor → FeedCursors → FeedCursors
save_found table none t = t
save_found table (some c) t = put table c t

unfoldable pub save_latest :
    List String → (String → Bool) → FeedCursors → FeedCursors → FeedCursors × Option FeedError
unfolding save_found
save_latest [] fails latest t = (t, none)
save_latest (x ∷ xs) fails latest t =
    let rest = save_latest xs fails latest (save_found x (latest x) t) in
    if fails x then (t, some (save_failed x)) else rest

unfoldable pub save_cursor :
    Saves → ServiceConfig → List ChangefeedChange → FeedCursors → FeedCursors × Option FeedError
unfolding latest_by_table save_latest
save_cursor saves cfg changes t =
    save_latest saves.tables saves.fails (latest_by_table cfg changes no_rows) t

pub record Feed : Type 0 where
  pub outbox : State
  pub cursors : FeedCursors

move_on :
    Saves
    → Option FeedError
    → ServiceConfig
    → ChangefeedBatch
    → State
    → FeedCursors
    → Feed × Option FeedError
unfolding save_cursor
move_on saves (some e) cfg batch s cursors = (record { outbox = s; cursors = cursors }, some e)
move_on saves none cfg batch s cursors =
    let (t, error) = save_cursor saves cfg batch.changes cursors in
    (record { outbox = s; cursors = t }, error)

moved : Saves → ServiceConfig → ChangefeedBatch → Sent → FeedCursors → Feed × Option FeedError
unfolding move_on
moved saves cfg batch s cursors = move_on saves s.error cfg batch s.outbox cursors

handled :
    Saves
    → (ℕ → ℕ)
    → ServiceConfig
    → List String
    → ChangefeedBatch
    → Result FeedError (List ReplicationEvent)
    → Feed
    → Feed × Option FeedError
unfolding moved enqueue_to_peers
handled saves clock cfg peers batch (err e) f = (f, some e)
handled saves clock cfg peers batch (ok []) f = (f, none)
handled saves clock cfg peers batch (ok (e ∷ es)) f =
    moved saves cfg batch (enqueue_to_peers clock cfg batch.tx_id (e ∷ es) peers f.outbox) f.cursors

unfoldable pub handle_batch :
    Saves
    → (ℕ → ℕ)
    → ServiceConfig
    → Codecs
    → List String
    → ChangefeedBatch
    → Feed
    → Feed × Option FeedError
unfolding handled events_of
handle_batch saves clock cfg c peers batch f =
    handled saves clock cfg peers batch (events_of cfg c batch.changes) f

-- restoreCursors, for a table that has no row as for one whose source is empty.
unfoldable pub first_feed_cursor : String → ChangefeedCursor
first_feed_cursor table = record {
  table = table;
  source = "";
  last_version = pos 0;
  last_primary_key = [];
}

or_feed_cursor : String → Option ChangefeedCursor → ChangefeedCursor
unfolding first_feed_cursor
or_feed_cursor table none = first_feed_cursor table
or_feed_cursor table (some c) = c

unfoldable pub restore_cursor : ServiceConfig → String → FeedCursors → Result FeedError FeedCursors
unfolding or_feed_cursor
restore_cursor cfg table t =
    let c = or_feed_cursor table (t table) in
    if not (c.source == "") && not (c.source == cfg.source)
    then err (source_mismatch table)
    else if c.source == ""
    then ok (put table (record c { table = table; source = cfg.source }) t)
    else ok t

restored :
    Result FeedError FeedCursors
    → (FeedCursors → FeedCursors × Option FeedError)
    → FeedCursors
    → FeedCursors × Option FeedError
restored (ok t') rest t = rest t'
restored (err e) rest t = (t, some e)

-- The rows that were initialised before a mismatch stay.
unfoldable pub restore_cursors :
    ServiceConfig → List String → FeedCursors → FeedCursors × Option FeedError
unfolding restore_cursor restored
restore_cursors cfg [] t = (t, none)
restore_cursors cfg (x ∷ xs) t = restored (restore_cursor cfg x t) (restore_cursors cfg xs) t
