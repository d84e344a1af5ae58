-- ===== src/Changefeed/Held.antt =====
-- The events of the chunks in the rows of the outbox.
use transmogr.Base.{
  ℕ, zero, suc, String, ◌≡◌, Option, none, some, List, [], ◌∷◌, All, take, drop, length, last?,
}
use transmogr.Models.Events.{
  ReplicationEvent, OutboxBatch, BatchError, last_event_id, event_id_or_empty,
}
use transmogr.Outbox.{OutboxDb, outbox_next_sequence}
use transmogr.Outbox.Pending.{IsPending}
use transmogr.Outbox.Delivery.{IsHeld, Content, IsTold, enqueue-IsTold, IsPending-IsHeld}
use transmogr.Outbox.Service.{State, enqueue_batch}
use transmogr.Changefeed.{
  ServiceConfig, Sent, stop_on, batch_of, table_key, enqueue_chunks, enqueue_events,
}
use transmogr.Changefeed.Chunks.{enqueue_events-AllPending}

-- The chunks, as the events are cut.
unfoldable pub chunks_of : ℕ → ℕ → List ReplicationEvent → List (List ReplicationEvent)
chunks_of fuel max [] = []
chunks_of zero max (e ∷ es) = []
chunks_of (suc fuel) max (e ∷ es) = take max (e ∷ es) ∷ chunks_of fuel max (drop max (e ∷ es))

-- The key of each chunk stands for the events of that chunk.
abbrev pub AllToldChunks : Content → String → String → List (List ReplicationEvent) → Type 0
AllToldChunks content region table = All λ (chunk : List ReplicationEvent).
    content region table (event_id_or_empty (last? chunk)) ≡ chunk

module _ (content : Content) where
  IsTold-stop :
      (region : String) (b : OutboxBatch) (s : State) (error : Option BatchError) (rest : Sent)
      → All (IsTold content) s.db.rows
      → All (IsTold content) rest.outbox.db.rows
      → All (IsTold content) (stop_on region b s error rest).outbox.db.rows
  unfolding stop_on
  IsTold-stop region b s none rest h k = k
  IsTold-stop region b s (some e) rest h k = h

  batches-stop :
      (region : String) (b : OutboxBatch) (s : State) (error : Option BatchError) (rest : Sent)
      → IsTold content b
      → All (IsTold content) rest.batches
      → All (IsTold content) (stop_on region b s error rest).batches
  unfolding stop_on
  batches-stop region b s none rest h k = (h, k)
  batches-stop region b s (some e) rest h k = (h, tt)

  chunks-IsTold :
      (fuel : ℕ) (clock : ℕ → ℕ) (max : ℕ) (region table tx_id : String)
      (events : List ReplicationEvent) (s : State)
      → AllToldChunks content region table (chunks_of fuel max events)
      → All (IsTold content) s.db.rows
      → All
          (IsTold content)
          (enqueue_chunks fuel clock max region table tx_id events s).outbox.db.rows
        × All (IsTold content) (enqueue_chunks fuel clock max region table tx_id events s).batches
  unfolding enqueue_chunks chunks_of outbox_next_sequence last_event_id
  chunks-IsTold fuel clock max region table tx_id [] s t h = (h, tt)
  chunks-IsTold zero clock max region table tx_id (e ∷ es) s t h = (h, tt)
  chunks-IsTold (suc fuel) clock max region table tx_id (e ∷ es) s t h =
      let (db, n) = outbox_next_sequence (record { peer_region = region; table = table }) s.db in
      let b = batch_of region table tx_id n (take max (e ∷ es)) in
      let (s', error) = enqueue_batch (clock fuel) b (record s { db = db }) in
      let rest = enqueue_chunks fuel clock max region table tx_id (drop max (e ∷ es)) s' in
      let first = enqueue-IsTold content (clock fuel) b (record s { db = db }) h t.0 in
      let later =
        chunks-IsTold fuel clock max region table tx_id (drop max (e ∷ es)) s' t.1 first in
      (
        IsTold-stop region b s' error rest first later.0,
        batches-stop region b s' error rest t.0 later.1,
      )

-- What the outbox holds of the chunks of a call, and of what it held before.
abbrev pub AllHeld : Sent → Type 0
AllHeld r = r.error ≡ none → All (λ b. IsHeld b r.outbox.db.rows) r.batches

pending-held :
    (content : Content) (db : OutboxDb) (bs : List OutboxBatch)
    → All (λ b. IsPending b db) bs
    → All (IsTold content) db.rows
    → All (IsTold content) bs
    → All (λ b. IsHeld b db.rows) bs
pending-held content db [] p told h = tt
pending-held content db (b ∷ bs) p told h =
    (IsPending-IsHeld content b db p.0 told h.0, pending-held content db bs p.1 told h.1)

-- The chunks that a call makes of the events.
abbrev pub chunks_for : ServiceConfig → List ReplicationEvent → List (List ReplicationEvent)
chunks_for cfg events = chunks_of (length events) cfg.max_batch_events events

pub enqueue_events-IsTold :
    (content : Content) (clock : ℕ → ℕ) (cfg : ServiceConfig) (region tx_id : String)
    (events : List ReplicationEvent) (s : State)
    → AllToldChunks content region (table_key tx_id events) (chunks_for cfg events)
    → All (IsTold content) s.db.rows
    → All (IsTold content) (enqueue_events clock cfg region tx_id events s).outbox.db.rows
      × All (IsTold content) (enqueue_events clock cfg region tx_id events s).batches
unfolding enqueue_events
enqueue_events-IsTold content clock cfg region tx_id events s t h =
    chunks-IsTold content (length events) clock cfg.max_batch_events region (table_key tx_id events)
      tx_id events s t h

-- A call that succeeds leaves, for every one of its chunks, a row of the outbox with its key and its
-- events, provided that keys identify content: rows of the outbox and chunks of the call that share
-- their peer, table and last event id carry the same events, as a batch that is handed over again
-- does. Otherwise the outbox drops a chunk whose key it has.
pub enqueue_events-AllHeld :
    (content : Content) (clock : ℕ → ℕ) (cfg : ServiceConfig) (region tx_id : String)
    (events : List ReplicationEvent) (s : State)
    → AllToldChunks content region (table_key tx_id events) (chunks_for cfg events)
    → All (IsTold content) s.db.rows
    → AllHeld (enqueue_events clock cfg region tx_id events s)
enqueue_events-AllHeld content clock cfg region tx_id events s t h e =
    let sent = enqueue_events clock cfg region tx_id events s in
    let (rows, batches) = enqueue_events-IsTold content clock cfg region tx_id events s t h in
    pending-held content sent.outbox.db sent.batches
      (enqueue_events-AllPending clock cfg region tx_id events s e) rows batches
