-- ===== src/Witnesses/Outbox.antt =====
-- Two peers' batches in the outbox.
use transmogr.Base.{◌<◌, String, ◌≡◌, refl, true, false, some, err, List, [], ◌∷◌, arith, keep}
use transmogr.Base.Int.{pos}
use transmogr.Base.Tables.{no_rows}
use transmogr.Base.Text.{codes}
use transmogr.Models.Events.{ReplicationEvent, Operation, OutboxBatch, BatchError, validate}
use transmogr.Models.State.{Scope}
use transmogr.Outbox.{
  OutboxDb, OutboxOp, next_sequence, enqueue, ack, run, in_window, outbox_next_sequence,
  outbox_enqueue, outbox_cleanup, delete_old,
}
use transmogr.Outbox.Invariant.{IsWellFormed, run-IsWellFormed}
use transmogr.Outbox.Paging.{replay_pending_batches, replay_pending_batches-All}
use transmogr.Outbox.Pending.{next_sequence_increases}
use transmogr.Outbox.Stored.{Answered, enqueued_stays-Answered}
use transmogr.Outbox.Retention.{of_peer, newest, cleanup_keeps_newest}
use transmogr.Outbox.Service.{
  State, subscribes, unsubscribes, enqueues, sends_next, call, calls, subscribe, unsubscribe,
  enqueue_batch, publish_live, send_at,
}

abbrev event : String → ReplicationEvent
event id = record {
  peer_region = "us";
  table = "users";
  event_id = id;
  primary_key = (record { column = "id"; key_type = "integer"; value = codes "7" }) ∷ [];
  operation = Operation.insert;
  version = pos 1;
  fields = [];
  metadata = [];
}

abbrev pub batch : String → String → OutboxBatch
batch region id = record {
  id = 0;
  peer_region = region;
  table = "users";
  sequence = 1;
  events = event id ∷ [];
  created_at = 0;
  tx_id = "";
}

abbrev empty : OutboxDb
empty = record { sequences = no_rows; rows = []; next_id = 1 }

abbrev ops : List OutboxOp
ops =
    enqueue 1 (batch "eu" "a")
    ∷ enqueue 2 (batch "ap" "b")
    ∷ enqueue 3 (batch "eu" "c")
    ∷ ack "ap" "users" "b"
    ∷ []

run-IsWellFormed_example : IsWellFormed (run ops empty)
run-IsWellFormed_example = run-IsWellFormed ops empty tt

abbrev stored : OutboxBatch
stored = record (batch "eu" "a") { id = 1; created_at = 1 }

abbrev pub full : OutboxDb
full = record { sequences = no_rows; rows = stored ∷ []; next_id = 2 }

pub full-IsWellFormed : IsWellFormed full
full-IsWellFormed = (omega arith, tt, tt)

replay_pending_batches-All_example :
    replay_pending_batches 2 "eu" 0 9 full ≡ some (keep (in_window "eu" 0 9) (stored ∷ []))
replay_pending_batches-All_example =
    replay_pending_batches-All "eu" 0 9 full full-IsWellFormed (omega arith, tt)

abbrev later_ops : List OutboxOp
later_ops =
    next_sequence (record { peer_region = "eu"; table = "users" })
    ∷ enqueue 5 (batch "ap" "b")
    ∷ enqueue 6 (batch "eu" "c")
    ∷ []

enqueued_stays-Answered_example :
    Answered 1
      (batch "eu" "a")
      empty
      (run later_ops (outbox_enqueue 1 (batch "eu" "a") empty).0).rows
      (outbox_enqueue 1 (batch "eu" "a") empty)
enqueued_stays-Answered_example =
    enqueued_stays-Answered 1 (batch "eu" "a") later_ops empty (tt, (tt, (tt, tt)))

-- A second batch of the sequence number is refused.
sequence_is_taken : (outbox_enqueue 6 (batch "eu" "c") full).1 ≡ err BatchError.sequence_taken
unfolding outbox_enqueue validate
sequence_is_taken = refl

abbrev scope : Scope
scope = record { peer_region = "eu"; table = "users" }

next_sequence_increases_example :
    (outbox_next_sequence scope empty).1
    < (outbox_next_sequence scope (run ops (outbox_next_sequence scope empty).0)).1
next_sequence_increases_example = next_sequence_increases scope ops empty

cleanup_keeps_newest_example :
    of_peer "eu" (outbox_cleanup 9 (pos 4) (pos 1) full).0.rows
    ≡ newest 1 (of_peer "eu" (delete_old 9 (pos 4) full.rows))
cleanup_keeps_newest_example = cleanup_keeps_newest 9 (pos 4) 0 "eu" full

abbrev start : State
start = record {
  db = empty;
  next_id = 0;
  subs = [];
  sends = [];
  panicked = false;
  cleanup_deleted = 0;
  cleanup_deleted_by_age = 0;
  cleanup_deleted_by_count = 0;
}

-- The subscription is cancelled between the lock and the send.
cancelled_send_panics :
    (calls
      (subscribes "eu" ∷ enqueues 1 (batch "eu" "a") ∷ unsubscribes "eu" 1 ∷ sends_next 0 ∷ [])
      start).panicked
    ≡ true
unfolding calls subscribe enqueue_batch outbox_enqueue validate publish_live unsubscribe send_at
    call
cancelled_send_panics = refl
