-- ===== src/Client/Session/Accounts.antt =====
-- What the trace of a session says of the database: each change of it, and each acknowledgement, is
-- that of one message of the stream.
use mathlib.Core.Path.{subst}
use transmogr.Base.{
  sym, ℕ, String, ◌≡◌, refl, Bool, true, false, Option, none, some, List, [], ◌∷◌, Result, ok, err,
}
use transmogr.Models.Events.{ReplicationEvent}
use transmogr.Models.State.{SnapshotRow}
use transmogr.Commit.{Db}
use transmogr.Replication.{BatchError, apply_event_batch, apply_transaction_batch}
use transmogr.Replication.Atomic.{RolledBack, apply_batch-RolledBack}
use transmogr.Snapshot.Receiver.{
  State, SnapshotError, apply_incoming_chunk, complete_incoming_snapshot,
}
use transmogr.Protocol.{
  ProtoSnapshotRow, HandshakeMessage, DecodeError, ProtoEvent, to_replication_events,
  to_snapshot_rows,
}
use transmogr.Protocol.Handshake.{HandshakeError, check_handshake_compatibility}
use transmogr.Protocol.Messages.{
  ConsumeResponse, handshake, snapshot_chunk, snapshot_complete, event_batch, transaction_batch,
  heartbeat,
}
use transmogr.Client.Session.{
  scope_in, or_zero, state_of, Session, Receiver, Step, Action, shakes_hands, applies,
  applies_chunk, completes, acknowledges, handled_handshake, acked, applied_batch, prepared_batch,
  decoded_batch, finished_step, prepared_rows, decoded_rows, handle_handshake, handle_message,
  handle_event_batch, handle_transaction_batch, after_step, prepend, is_handshake, recv_loop, db_of,
  with_db, with_state, request_for, first_table,
}

-- A message with a batch.
abbrev pub message_of : Bool → String → ℕ → List ProtoEvent → ConsumeResponse
message_of true tx sequence raw = transaction_batch tx sequence raw
message_of false tx sequence raw = event_batch sequence raw

-- How such a batch is applied, and the table that its acknowledgement names.
abbrev pub applied_to : Session → Bool → List ReplicationEvent → Receiver → Db × Option BatchError
applied_to s true events r = apply_transaction_batch s.mode events (db_of r)
applied_to s false events r = apply_event_batch s.mode events (db_of r)

abbrev pub table_of : Bool → List ReplicationEvent → String
table_of true events = ""
table_of false events = first_table events

-- The events of a message, decoded and prepared, are committed to the database of the receiver.
pub record IsApplied (s : Session) (is_transaction : Bool) (raw : List ProtoEvent) (r : Receiver)
    (events : List ReplicationEvent) (db : Db) : Type 0 where
  pub arrived : List ReplicationEvent
  pub decodes : to_replication_events raw ≡ ok arrived
  pub prepares : s.prepare_events arrived ≡ ok events
  pub commits : applied_to s is_transaction events r ≡ (db, none)

-- A chunk of a message, decoded and prepared, and what the snapshot service makes of it.
pub record IsTaken (s : Session) (table : String) (raw : List ProtoSnapshotRow) (last : Bool)
    (watermark : Option ℕ) (r : Receiver) (outcome : State × Result SnapshotError (Unit {0}))
    : Type 0 where
  pub arrived : List SnapshotRow
  pub rows : List SnapshotRow
  pub decodes : to_snapshot_rows s.codec raw ≡ ok arrived
  pub prepares : s.prepare_rows table arrived ≡ ok rows
  pub takes :
      apply_incoming_chunk s.codec.payload_to_fields
        (scope_in s table)
        (record { rows = rows; last = last; watermark = or_zero watermark })
        (state_of r)
      ≡ outcome

abbrev pub completed : Session → String → Receiver → State × Result SnapshotError (Unit {0})
completed s table r = complete_incoming_snapshot (scope_in s table) (state_of r)

-- The account of a session whose handshake is done or not: the messages of the stream, what was done
-- for them in their order, and the receiver before and after.
pub data Accounts (s : Session)
    : Bool → List ConsumeResponse → Receiver → List Action → Receiver → Type 0 where
  -- the session ends, and leaves the messages
  unread : {b : Bool} {ms : List ConsumeResponse} {r : Receiver} → Accounts s b ms r [] r
  dropped :
      {ms : List ConsumeResponse} {r r' : Receiver} {xs : List Action} (m : ConsumeResponse)
      → is_handshake m ≡ false
      → Accounts s false ms r xs r'
      → Accounts s false (m ∷ ms) r xs r'
  beat :
      {ms : List ConsumeResponse} {r r' : Receiver} {xs : List Action} (at : ℕ)
      → Accounts s true ms r xs r'
      → Accounts s true (heartbeat at ∷ ms) r xs r'
  shake :
      {b : Bool} {ms : List ConsumeResponse} {r r' : Receiver} {xs : List Action}
      (hs : HandshakeMessage)
      → check_handshake_compatibility s.parse s.local_handshake hs ≡ ok tt
      → Accounts s true ms r xs r'
      → Accounts s b (handshake hs ∷ ms) r (shakes_hands ∷ xs) r'
  batch :
      {ms : List ConsumeResponse} {r r' : Receiver} {xs : List Action} (is_transaction : Bool)
      (tx : String) (sequence : ℕ) (raw : List ProtoEvent) (events : List ReplicationEvent)
      (db : Db)
      → IsApplied s is_transaction raw r events db
      → Accounts s true ms (with_db r db) xs r'
      → Accounts s true
          (message_of is_transaction tx sequence raw ∷ ms)
          r
          (applies events ∷ acknowledges (request_for s (table_of is_transaction events) raw) ∷ xs)
          r'
  chunk :
      {ms : List ConsumeResponse} {r r' : Receiver} {xs : List Action} (table : String)
      (raw : List ProtoSnapshotRow) (last : Bool) (w : Option ℕ) (st : State)
      → IsTaken s table raw last w r (st, ok tt)
      → Accounts s true ms (with_state r st) xs r'
      → Accounts s true (snapshot_chunk table raw last w ∷ ms) r (applies_chunk table ∷ xs) r'
  chunk_fails :
      {ms : List ConsumeResponse} {r : Receiver} (table : String) (raw : List ProtoSnapshotRow)
      (last : Bool) (w : Option ℕ) (st : State) (e : SnapshotError)
      → IsTaken s table raw last w r (st, err e)
      → Accounts s true (snapshot_chunk table raw last w ∷ ms) r [] (with_state r st)
  complete :
      {ms : List ConsumeResponse} {r r' : Receiver} {xs : List Action} (table : String) (st : State)
      → completed s table r ≡ (st, ok tt)
      → Accounts s true ms (with_state r st) xs r'
      → Accounts s true (snapshot_complete table ∷ ms) r (completes table ∷ xs) r'
  complete_fails :
      {ms : List ConsumeResponse} {r : Receiver} (table : String) (st : State) (e : SnapshotError)
      → completed s table r ≡ (st, err e)
      → Accounts s true (snapshot_complete table ∷ ms) r [] (with_state r st)

module _ (s : Session) (ms : List ConsumeResponse) (more : Receiver → Step)
    (explained : (m : Receiver) → Accounts s true ms m (more m).actions (more m).receiver) where
  -- The step of a message, and what follows it, explained.
  Explains : ConsumeResponse → Receiver → Step → Type 0
  Explains m r step =
      Accounts s true (m ∷ ms) r (after_step step.error step more).actions
        (after_step step.error step more).receiver

  acked-Explains :
      (is_transaction : Bool) (tx : String) (sequence : ℕ) (raw : List ProtoEvent)
      (events : List ReplicationEvent) (r : Receiver) (db : Db) (answer : Option String)
      → IsApplied s is_transaction raw r events db
      → Explains
          (message_of is_transaction tx sequence raw)
          r
          (acked events (request_for s (table_of is_transaction events) raw) (with_db r db) answer)
  unfolding acked Explains after_step prepend
  acked-Explains is_transaction tx sequence raw events r db none h =
      batch is_transaction tx sequence raw events db h (explained (with_db r db))
  acked-Explains is_transaction tx sequence raw events r db (some e) h =
      batch is_transaction tx sequence raw events db h unread

  -- A batch that failed leaves the receiver as it was.
  failed_leaves :
      (m : ConsumeResponse) (r : Receiver) (db : Db)
      → db ≡ db_of r
      → Accounts s true (m ∷ ms) r [] (with_db r db)
  failed_leaves m r db h =
      subst (λ (x : Db). Accounts s true (m ∷ ms) r [] (with_db r x)) (sym h) unread

  applied_batch-Explains :
      (is_transaction : Bool) (tx : String) (sequence : ℕ) (raw : List ProtoEvent)
      (events : List ReplicationEvent) (r : Receiver) (outcome : Db × Option BatchError)
      → RolledBack (db_of r) outcome
      → ((db : Db) → outcome ≡ (db, none) → IsApplied s is_transaction raw r events db)
      → Explains
          (message_of is_transaction tx sequence raw)
          r
          (applied_batch s events (request_for s (table_of is_transaction events) raw) r outcome)
  unfolding applied_batch Explains after_step
  applied_batch-Explains is_transaction tx sequence raw events r (db, some e) back h =
      failed_leaves (message_of is_transaction tx sequence raw) r db back
  applied_batch-Explains is_transaction tx sequence raw events r (db, none) back h =
      acked-Explains is_transaction tx sequence raw events r db
        (s.ack (request_for s (table_of is_transaction events) raw)) (h db refl)

  prepared_batch-Explains :
      (is_transaction : Bool) (tx : String) (sequence : ℕ) (raw : List ProtoEvent) (r : Receiver)
      (arrived : List ReplicationEvent) (prepared : Result String (List ReplicationEvent))
      → to_replication_events raw ≡ ok arrived
      → s.prepare_events arrived ≡ prepared
      → Explains
          (message_of is_transaction tx sequence raw)
          r
          (prepared_batch s is_transaction raw r prepared)
  unfolding prepared_batch Explains after_step apply_event_batch apply_transaction_batch
  prepared_batch-Explains is_transaction tx sequence raw r arrived (err e) d p = unread
  prepared_batch-Explains true tx sequence raw r arrived (ok events) d p =
      applied_batch-Explains true tx sequence raw events r
        (apply_transaction_batch s.mode events (db_of r))
        (apply_batch-RolledBack s.mode false events (db_of r))
        λ db e. record { arrived = arrived; decodes = d; prepares = p; commits = e }
  prepared_batch-Explains false tx sequence raw r arrived (ok events) d p =
      applied_batch-Explains false tx sequence raw events r
        (apply_event_batch s.mode events (db_of r))
        (apply_batch-RolledBack s.mode true events (db_of r))
        λ db e. record { arrived = arrived; decodes = d; prepares = p; commits = e }

  decoded_batch-Explains :
      (is_transaction : Bool) (tx : String) (sequence : ℕ) (raw : List ProtoEvent) (r : Receiver)
      (decoded : Result DecodeError (List ReplicationEvent))
      → to_replication_events raw ≡ decoded
      → Explains
          (message_of is_transaction tx sequence raw)
          r
          (decoded_batch s is_transaction raw r decoded)
  unfolding decoded_batch Explains after_step
  decoded_batch-Explains is_transaction tx sequence raw r (err e) d = unread
  decoded_batch-Explains is_transaction tx sequence raw r (ok arrived) d =
      prepared_batch-Explains is_transaction tx sequence raw r arrived (s.prepare_events arrived) d
        refl

  taken-Explains :
      (table : String) (raw : List ProtoSnapshotRow) (last : Bool) (w : Option ℕ) (r : Receiver)
      (outcome : State × Result SnapshotError (Unit {0}))
      → IsTaken s table raw last w r outcome
      → Explains (snapshot_chunk table raw last w) r (finished_step r (applies_chunk table) outcome)
  unfolding finished_step Explains after_step prepend
  taken-Explains table raw last w r (st, ok x) h =
      chunk table raw last w st h (explained (with_state r st))
  taken-Explains table raw last w r (st, err e) h = chunk_fails table raw last w st e h

  prepared_rows-Explains :
      (table : String) (raw : List ProtoSnapshotRow) (last : Bool) (w : Option ℕ) (r : Receiver)
      (arrived : List SnapshotRow) (prepared : Result String (List SnapshotRow))
      → to_snapshot_rows s.codec raw ≡ ok arrived
      → s.prepare_rows table arrived ≡ prepared
      → Explains (snapshot_chunk table raw last w) r (prepared_rows s table last w r prepared)
  unfolding prepared_rows Explains after_step
  prepared_rows-Explains table raw last w r arrived (err e) d p = unread
  prepared_rows-Explains table raw last w r arrived (ok rows) d p =
      taken-Explains table raw last w r
        (apply_incoming_chunk s.codec.payload_to_fields (scope_in s table)
          (record { rows = rows; last = last; watermark = or_zero w }) (state_of r))
        (record { arrived = arrived; rows = rows; decodes = d; prepares = p; takes = refl })

  decoded_rows-Explains :
      (table : String) (raw : List ProtoSnapshotRow) (last : Bool) (w : Option ℕ) (r : Receiver)
      (decoded : Result DecodeError (List SnapshotRow))
      → to_snapshot_rows s.codec raw ≡ decoded
      → Explains (snapshot_chunk table raw last w) r (decoded_rows s table last w r decoded)
  unfolding decoded_rows Explains after_step
  decoded_rows-Explains table raw last w r (err e) d = unread
  decoded_rows-Explains table raw last w r (ok arrived) d =
      prepared_rows-Explains table raw last w r arrived (s.prepare_rows table arrived) d refl

  completed-Explains :
      (table : String) (r : Receiver) (outcome : State × Result SnapshotError (Unit {0}))
      → completed s table r ≡ outcome
      → Explains (snapshot_complete table) r (finished_step r (completes table) outcome)
  unfolding finished_step Explains after_step prepend
  completed-Explains table r (st, ok x) h = complete table st h (explained (with_state r st))
  completed-Explains table r (st, err e) h = complete_fails table st e h

  handled_handshake-Explains :
      (b : Bool) (hs : HandshakeMessage) (r : Receiver) (checked : Result HandshakeError (Unit {0}))
      → check_handshake_compatibility s.parse s.local_handshake hs ≡ checked
      → let step = handled_handshake r checked in
        Accounts s b
          (handshake hs ∷ ms)
          r
          (after_step step.error step more).actions
          (after_step step.error step more).receiver
  unfolding handled_handshake after_step prepend
  handled_handshake-Explains b hs r (ok x) h = shake hs h (explained r)
  handled_handshake-Explains b hs r (err e) h = unread

  handle_message-Explains :
      (m : ConsumeResponse) (r : Receiver) → Explains m r (handle_message s m r)
  unfolding handle_message handle_handshake handle_event_batch handle_transaction_batch Explains
      after_step prepend
  handle_message-Explains (handshake hs) r =
      handled_handshake-Explains true hs r
        (check_handshake_compatibility s.parse s.local_handshake hs) refl
  handle_message-Explains (snapshot_chunk table rows last w) r =
      decoded_rows-Explains table rows last w r (to_snapshot_rows s.codec rows) refl
  handle_message-Explains (snapshot_complete table) r =
      completed-Explains table r (completed s table r) refl
  handle_message-Explains (event_batch sequence raw) r =
      decoded_batch-Explains false "" sequence raw r (to_replication_events raw) refl
  handle_message-Explains (transaction_batch tx sequence raw) r =
      decoded_batch-Explains true tx sequence raw r (to_replication_events raw) refl
  handle_message-Explains (heartbeat at) r = beat at (explained r)

-- The trace of a session accounts for the database that it leaves, whatever the peer sends and however
-- the stream ends. Message by message, in the order of the stream: before the handshake messages are
-- dropped without effect; the events that are listed as applied are those of one batch, decoded and
-- prepared, which were committed to the database as it then was, followed at once by the
-- acknowledgement with that message's last event id; a chunk or a completion leaves exactly what the
-- snapshot service makes of it, also where it fails, which ends the session; a batch that fails ends
-- it and changes nothing. The tables, cursors and jobs change in no other way, and nothing else is
-- acknowledged.
pub recv_loop-Accounts :
    (s : Session) (ending : Option String) (shaken : Bool) (messages : List ConsumeResponse)
    (r : Receiver)
    → Accounts s shaken messages r
        (recv_loop s ending shaken messages r).actions
        (recv_loop s ending shaken messages r).receiver
unfolding recv_loop Explains handle_message handle_handshake
recv_loop-Accounts s ending shaken [] r = unread
recv_loop-Accounts s ending true (m ∷ ms) r =
    handle_message-Explains s ms (λ r'. recv_loop s ending true ms r')
      (λ r'. recv_loop-Accounts s ending true ms r') m r
recv_loop-Accounts s ending false (handshake hs ∷ ms) r =
    handled_handshake-Explains s ms (λ r'. recv_loop s ending true ms r')
      (λ r'. recv_loop-Accounts s ending true ms r') false hs r
      (check_handshake_compatibility s.parse s.local_handshake hs) refl
recv_loop-Accounts s ending false (snapshot_chunk table rows last w ∷ ms) r =
    dropped (snapshot_chunk table rows last w) refl (recv_loop-Accounts s ending false ms r)
recv_loop-Accounts s ending false (snapshot_complete table ∷ ms) r =
    dropped (snapshot_complete table) refl (recv_loop-Accounts s ending false ms r)
recv_loop-Accounts s ending false (event_batch sequence raw ∷ ms) r =
    dropped (event_batch sequence raw) refl (recv_loop-Accounts s ending false ms r)
recv_loop-Accounts s ending false (transaction_batch tx sequence raw ∷ ms) r =
    dropped (transaction_batch tx sequence raw) refl (recv_loop-Accounts s ending false ms r)
recv_loop-Accounts s ending false (heartbeat at ∷ ms) r =
    dropped (heartbeat at) refl (recv_loop-Accounts s ending false ms r)
