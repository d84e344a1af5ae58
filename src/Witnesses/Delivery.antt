-- ===== src/Witnesses/Delivery.antt =====
-- A batch of one insertion that is delivered and acknowledged.
use transmogr.Base.{◌≡◌, refl, none, [], ◌∷◌}
use transmogr.Base.Tables.{no_rows}
use transmogr.Models.Events.{ReplicationEvent, OutboxBatch, Operation, last_event_id}
use transmogr.Commit.{Db, commit_state_applied_transaction, is_stale_cursor_position}
use transmogr.Base.Sorting.{sort_by}
use transmogr.Apply.Batches.{
  apply_events_batch, apply_upsert_batch, apply_partial_update_batch, apply_column_groups,
  apply_delete_batch, group_columns,
}
use transmogr.Apply.Rows.{build_batch_upsert_query, build_upsert_payload, upsert_rows}
use transmogr.Replication.{
  apply_event_batch, apply_batch, prepare, check_event, in_cursor_order, apply_allowed,
  with_operation,
}
use transmogr.Outbox.{OutboxDb, outbox_ack}
use transmogr.Protocol.RoundTrip.{received_operation}
use transmogr.Server.Feed.{prepared_message}
use transmogr.Client.Session.{handle_message}
use transmogr.Delivery.{Delivers, IsRemoved, ack_of, commit_of, handle_message-outbox_ack}
use transmogr.Witnesses.Protocol.{codec, sent_event, number_part-IsCanonical}
use transmogr.Witnesses.Session.{client, receiver}

abbrev order_event : ReplicationEvent
order_event = record (sent_event Operation.insert) { table = "orders" }

abbrev order_batch : OutboxBatch
order_batch = record {
  id = 4;
  peer_region = "eu";
  table = "orders";
  sequence = 1;
  events = order_event ∷ [];
  created_at = 9;
  tx_id = "";
}

abbrev after : Db
after = (commit_of client order_batch (order_event ∷ []) receiver).0

order_commits : commit_of client order_batch (order_event ∷ []) receiver ≡ (after, none)
unfolding apply_event_batch apply_batch sort_by apply_events_batch is_stale_cursor_position
    apply_upsert_batch build_batch_upsert_query build_upsert_payload upsert_rows
    apply_partial_update_batch apply_column_groups apply_delete_batch prepare check_event
    in_cursor_order apply_allowed with_operation commit_state_applied_transaction group_columns
order_commits = refl

abbrev outbox : OutboxDb
outbox = record {
  sequences = no_rows;
  rows = order_batch ∷ record order_batch { id = 5; table = "users" } ∷ [];
  next_id = 6;
}

handle_message-outbox_ack_example :
    Delivers receiver
      (order_event ∷ [])
      (ack_of client order_batch (order_event ∷ []))
      after
      (handle_message client (prepared_message codec order_batch) receiver)
    × IsRemoved order_batch outbox (outbox_ack "eu" "orders" "e" outbox).0
unfolding received_operation last_event_id
handle_message-outbox_ack_example =
    handle_message-outbox_ack codec client order_batch (order_event ∷ [])
      ((number_part-IsCanonical, tt), tt) refl receiver after order_commits outbox refl refl
