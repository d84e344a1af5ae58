-- ===== src/Outbox/Service.antt =====
-- internal/service/outbox/service.go: the subscribers' channels, the live hand-off and the counters.
-- A lock guards the subscribers; publishLive holds it only while it collects the channels, and its
-- sends are steps of their own, which other calls can come between. A channel is what it holds, and
-- whether it is closed; a send that would block is dropped, and one to a closed channel panics.
use transmogr.Base.{
  ℕ, zero, suc, ◌+◌, ◌%◌, ◌^◌, String, ◌≡◌, Bool, true, false, not, ◌&&◌, Option, none, some, List,
  [], ◌∷◌, ◌++◌, map, All, length, ltb, nat_beq, if◌then◌else◌, ◌==◌, string_eq, Result, ok, err,
}
use transmogr.Base.Int.{ℤ}
use transmogr.Models.Events.{OutboxBatch, BatchError}
use transmogr.Outbox.{OutboxDb, outbox_enqueue, outbox_cleanup}

abbrev pub live_replication_buffer_size : ℕ
live_replication_buffer_size = 128

pub record Subscriber : Type 0 where
  pub id : ℕ
  pub peer_region : String
  pub buffer : List OutboxBatch
  pub is_closed : Bool

pub record State : Type 0 where
  pub db : OutboxDb
  pub next_id : ℕ
  pub subs : List Subscriber
  pub sends : List (OutboxBatch × ℕ)  -- of publishLive, still to do
  pub panicked : Bool
  pub cleanup_deleted : ℕ
  pub cleanup_deleted_by_age : ℕ
  pub cleanup_deleted_by_count : ℕ

-- An increment of a uint64.
abbrev next_uint64 : ℕ → ℕ
next_uint64 n = (n + 1) % 2 ^ 64

unfoldable pub subscribe : String → State → State × ℕ
subscribe region s =
    let id = next_uint64 s.next_id in
    (
      record s {
        next_id = id;
        subs = (record { id = id; peer_region = region; buffer = []; is_closed = false }) ∷ s.subs;
      },
      id,
    )

-- The function that Subscribe returns: no longer a subscriber, with a closed channel; what the channel
-- holds can still be received.
closed_by : String → ℕ → Subscriber → Subscriber
closed_by region id u =
    if u.peer_region == region && nat_beq u.id id then record u { is_closed = true } else u

unfoldable pub unsubscribe : String → ℕ → State → State
unfolding closed_by
unsubscribe region id s = record s { subs = map (closed_by region id) s.subs }

-- publishLive under the lock: the channels of the batch's region.
targets : OutboxBatch → List Subscriber → List (OutboxBatch × ℕ)
targets b [] = []
targets b (u ∷ us) =
    let rest = targets b us in
    if u.peer_region == b.peer_region && not u.is_closed then (b, u.id) ∷ rest else rest

unfoldable pub publish_live : OutboxBatch → State → State
unfolding targets
publish_live b s = record s { sends = s.sends ++ targets b s.subs }

-- publishLive after the lock, for one channel: the select with a default.
offer : OutboxBatch → ℕ → Subscriber → Subscriber
offer b id u =
    if nat_beq u.id id && ltb (length u.buffer) live_replication_buffer_size
    then record u { buffer = u.buffer ++ b ∷ [] }
    else u

has_closed : ℕ → List Subscriber → Bool
has_closed id [] = false
has_closed id (u ∷ us) =
    let rest = has_closed id us in if nat_beq u.id id && u.is_closed then true else rest

unfoldable pub send : OutboxBatch × ℕ → State → State
unfolding offer has_closed
send (b, id) s =
    if has_closed id s.subs
    then record s { panicked = true }
    else record s { subs = map (offer b id) s.subs }

-- One of the sends that are to do, by its place.
unfoldable pub send_at : ℕ → List (OutboxBatch × ℕ) → State → State
unfolding send
send_at n [] s = s
send_at zero (x ∷ xs) s = send x (record s { sends = xs })
send_at (suc n) (x ∷ xs) s = let s' = send_at n xs s in record s' { sends = x ∷ s'.sends }

unfoldable pub published :
    State → OutboxDb × Result BatchError (Option OutboxBatch) → State × Option BatchError
unfolding publish_live
published s (db, err e) = (record s { db = db }, some e)
published s (db, ok none) = (record s { db = db }, none)
published s (db, ok (some b)) = (publish_live b (record s { db = db }), none)

-- Enqueue
unfoldable pub enqueue_batch : ℕ → OutboxBatch → State → State × Option BatchError
unfolding published
enqueue_batch now b s = published s (outbox_enqueue now b s.db)

-- Cleanup, with the counters of a uint64.
unfoldable pub cleanup_outbox : ℕ → ℤ → ℤ → State → State × ℕ
cleanup_outbox now age pending s =
    let (db, by_age, by_count) = outbox_cleanup now age pending s.db in
    (
      record s {
        db = db;
        cleanup_deleted = (s.cleanup_deleted + (by_age + by_count)) % 2 ^ 64;
        cleanup_deleted_by_age = (s.cleanup_deleted_by_age + by_age) % 2 ^ 64;
        cleanup_deleted_by_count = (s.cleanup_deleted_by_count + by_count) % 2 ^ 64;
      },
      by_age + by_count,
    )

-- A batch is taken from the channel of a subscriber.
abbrev rest_of : List OutboxBatch → List OutboxBatch
rest_of [] = []
rest_of (b ∷ bs) = bs

take_one : ℕ → Subscriber → Subscriber
take_one id u = if nat_beq u.id id then record u { buffer = rest_of u.buffer } else u

unfoldable pub receive : ℕ → State → State
unfolding take_one
receive id s = record s { subs = map (take_one id) s.subs }

pub data Call : Type 0 where
  subscribes : String → Call
  unsubscribes : String → ℕ → Call
  enqueues : ℕ → OutboxBatch → Call
  sends_next receives : ℕ → Call
  cleans : ℕ → ℤ → ℤ → Call

unfoldable pub call : Call → State → State
call (subscribes region) s = (subscribe region s).0
call (unsubscribes region id) s = unsubscribe region id s
call (enqueues now b) s = (enqueue_batch now b s).0
call (sends_next n) s = send_at n s.sends s
call (receives id) s = receive id s
call (cleans now age pending) s = (cleanup_outbox now age pending s).0

unfoldable pub calls : List Call → State → State
calls [] s = s
calls (c ∷ cs) s = calls cs (call c s)

-- Every call but the cancelling of a subscription.
abbrev pub NeverCancels : Call → Type 0
NeverCancels (unsubscribes region id) = ⊥
NeverCancels _ = Unit

abbrev pub AllOpen : State → Type 0
AllOpen s = All (λ (u : Subscriber). u.is_closed ≡ false) s.subs

abbrev IsCalm : State → Type 0
IsCalm s = AllOpen s × (s.panicked ≡ false)
