-- ===== src/Changefeed/Chunks.antt =====
-- A batch of local changes in the outbox of a peer: cut into chunks, with nothing lost.
use mathlib.Core.Path.{subst}
use transmogr.Base.{
  ℕ, zero, suc, ◌<◌, ◌≤◌, String, ◌≡◌, ◌≢◌, refl, ap, Option, none, some, List, [], ◌∷◌, ◌++◌,
  arith, All, take, drop, length, length-take, length-drop, take-append-drop,
}
use transmogr.Models.Events.{ReplicationEvent, OutboxBatch, BatchError}
use transmogr.Outbox.{outbox_next_sequence}
use transmogr.Outbox.Pending.{IsPending}
use transmogr.Outbox.Delivery.{enqueue_keeps, enqueue_succeeds}
use transmogr.Outbox.Service.{State, enqueue_batch}
use transmogr.Changefeed.{
  ServiceConfig, out_of_fuel, Sent, stop_on, batch_of, table_key, enqueue_chunks, enqueue_events,
}

abbrev pub carried : List OutboxBatch → List ReplicationEvent
carried [] = []
carried (b ∷ bs) = b.events ++ carried bs

-- One chunk: some events, at most as many as are configured, for this peer, table and transaction.
abbrev pub IsChunk : ℕ → String → String → String → OutboxBatch → Type 0
IsChunk max region table tx_id b =
    (0 < length b.events)
    × (length b.events ≤ max)
    × (b.peer_region ≡ region)
    × (b.table ≡ table)
    × (b.tx_id ≡ tx_id)

-- What a call hands over: chunks, which carry all of the events where the call succeeds.
pub record IsSplit (max : ℕ) (region table tx_id : String) (events : List ReplicationEvent)
    (r : Sent) : Type 0 where
  pub ends : r.error ≢ some out_of_fuel
  pub chunks : All (IsChunk max region table tx_id) r.batches
  pub complete : r.error ≡ none → carried r.batches ≡ events

stop-IsSplit :
    (max : ℕ) (region table tx_id : String) (n : ℕ) (chunk later : List ReplicationEvent)
    (s : State) (error : Option BatchError) (rest : Sent)
    → 0 < length chunk
    → length chunk ≤ max
    → IsSplit max region table tx_id later rest
    → IsSplit max region table tx_id
        (chunk ++ later)
        (stop_on region (batch_of region table tx_id n chunk) s error rest)
unfolding stop_on
stop-IsSplit max region table tx_id n chunk later s none rest h l r = record {
  ends = r.ends;
  chunks = ((h, l, refl, refl, refl), r.chunks);
  complete = λ e. ap (◌++◌ chunk) (r.complete e);
}
stop-IsSplit max region table tx_id n chunk later s (some e) rest h l r = record {
  ends = λ p. ground (arith, p);
  chunks = ((h, l, refl, refl, refl), tt);
  complete = λ p. cc;
}

chunks-IsSplit :
    (fuel : ℕ) (clock : ℕ → ℕ) (max : ℕ) (region table tx_id : String)
    (events : List ReplicationEvent) (s : State)
    → 0 < max
    → length events ≤ fuel
    → IsSplit max region table tx_id events
        (enqueue_chunks fuel clock max region table tx_id events s)
unfolding enqueue_chunks
chunks-IsSplit fuel clock max region table tx_id [] s h l = record {
  ends = λ p. ground (arith, p);
  chunks = tt;
  complete = λ p. refl;
}
chunks-IsSplit zero clock max region table tx_id (e ∷ es) s h l = absurd (omega (arith, l))
chunks-IsSplit (suc fuel) clock max region table tx_id (e ∷ es) s h l =
    let (db, n) = outbox_next_sequence (record { peer_region = region; table = table }) s.db in
    let chunk = take max (e ∷ es) in
    let b = batch_of region table tx_id n chunk in
    let (s', error) = enqueue_batch (clock fuel) b (record s { db = db }) in
    let rest = enqueue_chunks fuel clock max region table tx_id (drop max (e ∷ es)) s' in
    let later =
      chunks-IsSplit fuel clock max region table tx_id (drop max (e ∷ es)) s' h
        (omega (arith, l, h, length-drop max (e ∷ es))) in
    subst (λ all. IsSplit max region table tx_id all (stop_on region b s' error rest))
      (take-append-drop max (e ∷ es))
      (stop-IsSplit max region table tx_id n chunk (drop max (e ∷ es)) s' error rest
        (omega (arith, h, length-take max (e ∷ es))) (omega (arith, length-take max (e ∷ es)))
        later)

-- With a positive limit the loop over the chunks ends; each chunk is not empty, within the limit and
-- for the peer; and where no call of the outbox fails, the chunks hold exactly the events, in order.
pub enqueue_events-IsSplit :
    (clock : ℕ → ℕ) (cfg : ServiceConfig) (region tx_id : String) (events : List ReplicationEvent)
    (s : State)
    → 0 < cfg.max_batch_events
    → IsSplit cfg.max_batch_events region
        (table_key tx_id events)
        tx_id
        events
        (enqueue_events clock cfg region tx_id events s)
unfolding enqueue_events
enqueue_events-IsSplit clock cfg region tx_id events s h =
    chunks-IsSplit (length events) clock cfg.max_batch_events region (table_key tx_id events) tx_id
      events s h (omega arith)

-- Success means that every chunk is in the outbox of its peer.
abbrev pub AllPending : Sent → Type 0
AllPending r = r.error ≡ none → All (λ b. IsPending b r.outbox.db) r.batches

-- What was pending before stays so.
abbrev KeepsPending : OutboxBatch → Sent → Type 0
KeepsPending x r = IsPending x r.outbox.db

keeps-stop :
    (x : OutboxBatch) (region : String) (b : OutboxBatch) (s : State) (error : Option BatchError)
    (rest : Sent)
    → IsPending x s.db
    → (IsPending x s.db → KeepsPending x rest)
    → KeepsPending x (stop_on region b s error rest)
unfolding stop_on
keeps-stop x region b s none rest h k = k h
keeps-stop x region b s (some e) rest h k = h

chunks-KeepsPending :
    (x : OutboxBatch) (fuel : ℕ) (clock : ℕ → ℕ) (max : ℕ) (region table tx_id : String)
    (events : List ReplicationEvent) (s : State)
    → IsPending x s.db
    → KeepsPending x (enqueue_chunks fuel clock max region table tx_id events s)
unfolding enqueue_chunks outbox_next_sequence
chunks-KeepsPending x fuel clock max region table tx_id [] s h = h
chunks-KeepsPending x zero clock max region table tx_id (e ∷ es) s h = h
chunks-KeepsPending x (suc fuel) clock max region table tx_id (e ∷ es) s h =
    let (db, n) = outbox_next_sequence (record { peer_region = region; table = table }) s.db in
    let b = batch_of region table tx_id n (take max (e ∷ es)) in
    let (s', error) = enqueue_batch (clock fuel) b (record s { db = db }) in
    let rest = enqueue_chunks fuel clock max region table tx_id (drop max (e ∷ es)) s' in
    keeps-stop x region b s' error rest (enqueue_keeps (clock fuel) b x (record s { db = db }) h)
      λ k. chunks-KeepsPending x fuel clock max region table tx_id (drop max (e ∷ es)) s' k

pending-stop :
    (region : String) (b : OutboxBatch) (s : State) (error : Option BatchError) (rest : Sent)
    → (error ≡ none → IsPending b s.db)
    → (IsPending b s.db → KeepsPending b rest)
    → AllPending rest
    → AllPending (stop_on region b s error rest)
unfolding stop_on
pending-stop region b s none rest first keeps later = λ e. (keeps (first refl), later e)
pending-stop region b s (some x) rest first keeps later = λ e. cc

chunks-AllPending :
    (fuel : ℕ) (clock : ℕ → ℕ) (max : ℕ) (region table tx_id : String)
    (events : List ReplicationEvent) (s : State)
    → AllPending (enqueue_chunks fuel clock max region table tx_id events s)
unfolding enqueue_chunks
chunks-AllPending fuel clock max region table tx_id [] s = λ e. tt
chunks-AllPending zero clock max region table tx_id (e ∷ es) s = λ e. tt
chunks-AllPending (suc fuel) clock max region table tx_id (e ∷ es) s =
    let (db, n) = outbox_next_sequence (record { peer_region = region; table = table }) s.db in
    let b = batch_of region table tx_id n (take max (e ∷ es)) in
    let (s', error) = enqueue_batch (clock fuel) b (record s { db = db }) in
    let rest = enqueue_chunks fuel clock max region table tx_id (drop max (e ∷ es)) s' in
    pending-stop region b s' error rest (enqueue_succeeds (clock fuel) b (record s { db = db }))
      (λ k. chunks-KeepsPending b fuel clock max region table tx_id (drop max (e ∷ es)) s' k)
      (chunks-AllPending fuel clock max region table tx_id (drop max (e ∷ es)) s')

pub enqueue_events_keeps :
    (clock : ℕ → ℕ) (cfg : ServiceConfig) (region tx_id : String) (events : List ReplicationEvent)
    (s : State) (x : OutboxBatch)
    → IsPending x s.db
    → IsPending x (enqueue_events clock cfg region tx_id events s).outbox.db
unfolding enqueue_events
enqueue_events_keeps clock cfg region tx_id events s x h =
    chunks-KeepsPending x (length events) clock cfg.max_batch_events region (table_key tx_id events)
      tx_id events s h

pub enqueue_events-AllPending :
    (clock : ℕ → ℕ) (cfg : ServiceConfig) (region tx_id : String) (events : List ReplicationEvent)
    (s : State)
    → AllPending (enqueue_events clock cfg region tx_id events s)
unfolding enqueue_events
enqueue_events-AllPending clock cfg region tx_id events s =
    chunks-AllPending (length events) clock cfg.max_batch_events region (table_key tx_id events)
      tx_id events s
