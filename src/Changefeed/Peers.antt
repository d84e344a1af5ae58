-- ===== src/Changefeed/Peers.antt =====
-- Which events are in the outbox of which peer when the changefeed goes on.
use transmogr.Base.{ℕ, ◌<◌, String, ◌≡◌, refl, Option, none, some, List, [], ◌∷◌, arith, All, ok}
use transmogr.Models.Events.{ReplicationEvent, OutboxBatch}
use transmogr.Models.State.{ChangefeedBatch}
use transmogr.Outbox.{OutboxDb}
use transmogr.Outbox.Pending.{IsPending}
use transmogr.Outbox.Service.{State}
use transmogr.Changefeed.{
  ServiceConfig, Codecs, FeedError, Sent, Feed, FeedCursors, table_key, next_peers, move_on, Saves,
  moved, handled, handle_batch, events_of, enqueue_events, enqueue_to_peers,
}
use transmogr.Outbox.Delivery.{IsHeld, Content, IsTold, IsPending-IsHeld}
use transmogr.Changefeed.Chunks.{
  carried, IsChunk, enqueue_events-IsSplit, enqueue_events_keeps, enqueue_events-AllPending,
}
use transmogr.Changefeed.Held.{AllToldChunks, chunks_for, enqueue_events-IsTold}

-- The outbox holds batches for the peer that carry the events.
pub record HasEvents (events : List ReplicationEvent) (db : OutboxDb) (peer : String) : Type 0 where
  pub batches : List OutboxBatch
  pub carries : carried batches ≡ events
  pub pending : All (λ b. (b.peer_region ≡ peer) × IsHeld b db.rows) batches

module _ (content : Content) (clock : ℕ → ℕ) (cfg : ServiceConfig) (tx_id : String)
    (events : List ReplicationEvent) where
  next-keeps :
      (x : OutboxBatch) (error : Option FeedError) (s rest : Sent)
      → IsPending x s.outbox.db
      → (IsPending x s.outbox.db → IsPending x rest.outbox.db)
      → IsPending x (next_peers error s rest).outbox.db
  unfolding next_peers
  next-keeps x none s rest h k = k h
  next-keeps x (some e) s rest h k = h

  peers-keep :
      (x : OutboxBatch) (peers : List String) (s : State)
      → IsPending x s.db
      → IsPending x (enqueue_to_peers clock cfg tx_id events peers s).outbox.db
  unfolding enqueue_to_peers
  peers-keep x [] s h = h
  peers-keep x (p ∷ ps) s h =
      let sent = enqueue_events clock cfg p tx_id events s in
      next-keeps x sent.error sent (enqueue_to_peers clock cfg tx_id events ps sent.outbox)
        (enqueue_events_keeps clock cfg p tx_id events s x h) λ k. peers-keep x ps sent.outbox k

  -- The batches of one peer, seen after the other peers were served.
  kept_batches :
      (max : ℕ) (peer table : String) (db later : OutboxDb) (bs : List OutboxBatch)
      → ((x : OutboxBatch) → IsPending x db → IsPending x later)
      → All (IsChunk max peer table tx_id) bs
      → All (λ b. IsPending b db) bs
      → All (IsTold content) later.rows
      → All (IsTold content) bs
      → All (λ b. (b.peer_region ≡ peer) × IsHeld b later.rows) bs
  kept_batches max peer table db later [] keeps c p told h = tt
  kept_batches max peer table db later (b ∷ bs) keeps c p told h = (
    (c.0.2, IsPending-IsHeld content b later (keeps b p.0) told h.0),
    kept_batches max peer table db later bs keeps c.1 p.1 told h.1,
  )

  -- Each peer's chunks, by their keys.
  abbrev pub AllTold : List String → Type 0
  AllTold =
      All λ (p : String). AllToldChunks content p (table_key tx_id events) (chunks_for cfg events)

  next-IsTold :
      (error : Option FeedError) (s rest : Sent)
      → All (IsTold content) s.outbox.db.rows
      → All (IsTold content) rest.outbox.db.rows
      → All (IsTold content) (next_peers error s rest).outbox.db.rows
  unfolding next_peers
  next-IsTold none s rest h k = k
  next-IsTold (some e) s rest h k = h

  peers-IsTold :
      (peers : List String) (s : State)
      → AllTold peers
      → All (IsTold content) s.db.rows
      → All (IsTold content) (enqueue_to_peers clock cfg tx_id events peers s).outbox.db.rows
  unfolding enqueue_to_peers
  peers-IsTold [] s t h = h
  peers-IsTold (p ∷ ps) s t h =
      let sent = enqueue_events clock cfg p tx_id events s in
      let first = (enqueue_events-IsTold content clock cfg p tx_id events s t.0 h).0 in
      next-IsTold sent.error sent (enqueue_to_peers clock cfg tx_id events ps sent.outbox) first
        (peers-IsTold ps sent.outbox t.1 first)

  next-HasEvents :
      (p : String) (ps : List String) (error : Option FeedError) (s rest : Sent)
      → (error ≡ none → HasEvents events rest.outbox.db p)
      → (rest.error ≡ none → All (HasEvents events rest.outbox.db) ps)
      → s.error ≡ error
      → (next_peers error s rest).error ≡ none
      → All (HasEvents events (next_peers error s rest).outbox.db) (p ∷ ps)
  unfolding next_peers
  next-HasEvents p ps none s rest first later same e = (first refl, later e)
  next-HasEvents p ps (some x) s rest first later same e = absurd (ground (arith, same, e))

  peers-HasEvents :
      (peers : List String) (s : State)
      → AllTold peers
      → All (IsTold content) s.db.rows
      → 0 < cfg.max_batch_events
      → (enqueue_to_peers clock cfg tx_id events peers s).error ≡ none
      → All (HasEvents events (enqueue_to_peers clock cfg tx_id events peers s).outbox.db) peers
  unfolding enqueue_to_peers
  peers-HasEvents [] s t rows h e = tt
  peers-HasEvents (p ∷ ps) s t rows h e =
      let sent = enqueue_events clock cfg p tx_id events s in
      let rest = enqueue_to_peers clock cfg tx_id events ps sent.outbox in
      let split = enqueue_events-IsSplit clock cfg p tx_id events s h in
      let told = enqueue_events-IsTold content clock cfg p tx_id events s t.0 rows in
      next-HasEvents p ps sent.error sent rest
        (λ done. record {
          batches = sent.batches;
          carries = split.complete done;
          pending =
              kept_batches cfg.max_batch_events p (table_key tx_id events) sent.outbox.db
                rest.outbox.db sent.batches (λ x k. peers-keep x ps sent.outbox k) split.chunks
                (enqueue_events-AllPending clock cfg p tx_id events s done)
                (peers-IsTold ps sent.outbox t.1 told.0) told.1;
        })
        (peers-HasEvents ps sent.outbox t.1 told.0 h) refl e

moved-HasEvents :
    (saves : Saves) (events : List ReplicationEvent) (peers : List String)
    (error : Option FeedError) (cfg : ServiceConfig) (batch : ChangefeedBatch) (s : State)
    (cursors : FeedCursors)
    → (error ≡ none → All (HasEvents events s.db) peers)
    → (move_on saves error cfg batch s cursors).1 ≡ none
    → All (HasEvents events (move_on saves error cfg batch s cursors).0.outbox.db) peers
unfolding move_on
moved-HasEvents saves events peers none cfg batch s cursors h e = h refl
moved-HasEvents saves events peers (some x) cfg batch s cursors h e = cc

nothing_to_carry : (db : OutboxDb) (peers : List String) → All (HasEvents [] db) peers
nothing_to_carry db [] = tt
nothing_to_carry db (p ∷ ps) =
    (record { batches = []; carries = refl; pending = tt }, nothing_to_carry db ps)

handled-HasEvents :
    (saves : Saves) (content : Content) (clock : ℕ → ℕ) (cfg : ServiceConfig) (peers : List String)
    (batch : ChangefeedBatch) (events : List ReplicationEvent) (f : Feed)
    → AllTold content clock cfg batch.tx_id events peers
    → All (IsTold content) f.outbox.db.rows
    → 0 < cfg.max_batch_events
    → (handled saves clock cfg peers batch (ok events) f).1 ≡ none
    → All (HasEvents events (handled saves clock cfg peers batch (ok events) f).0.outbox.db) peers
unfolding handled moved
handled-HasEvents saves content clock cfg peers batch [] f t rows h e =
    nothing_to_carry f.outbox.db peers
handled-HasEvents saves content clock cfg peers batch (x ∷ xs) f t rows h e =
    let s = enqueue_to_peers clock cfg batch.tx_id (x ∷ xs) peers f.outbox in
    moved-HasEvents saves (x ∷ xs) peers s.error cfg batch s.outbox f.cursors
      (peers-HasEvents content clock cfg batch.tx_id (x ∷ xs) peers f.outbox t rows h) e

-- When HandleBatch succeeds, the outbox holds, for each of the peers, the events of the changes that
-- the mode broadcasts: chunks that together are exactly these events, in order, and for each chunk a
-- row of the peer with its key and its events. The limit on a batch is positive, and keys identify
-- content: rows of the outbox and chunks that share their peer, table and last event id carry the
-- same events. Otherwise the outbox drops a chunk whose key it has.
pub handle_batch-HasEvents :
    (saves : Saves) (content : Content) (clock : ℕ → ℕ) (cfg : ServiceConfig) (c : Codecs)
    (peers : List String) (batch : ChangefeedBatch) (events : List ReplicationEvent) (f : Feed)
    → AllTold content clock cfg batch.tx_id events peers
    → All (IsTold content) f.outbox.db.rows
    → 0 < cfg.max_batch_events
    → events_of cfg c batch.changes ≡ ok events
    → (handle_batch saves clock cfg c peers batch f).1 ≡ none
    → All (HasEvents events (handle_batch saves clock cfg c peers batch f).0.outbox.db) peers
unfolding handle_batch
handle_batch-HasEvents saves content clock cfg c peers batch events f t rows h found e =
    rw (handle_batch, found)
      (handled-HasEvents saves content clock cfg peers batch events f t rows h
        (rw (handle_batch, found) at e))
