-- ===== src/Delivery.antt =====
-- A batch on its way: from the outbox of the sender, through `batchToProto` of
-- internal/transport/grpc/server/handlers.go and the session of internal/transport/grpc/client/recv.go,
-- to the acknowledgement that the sender's `Ack` gives to the outbox.
use mathlib.Core.Path.{subst}
use transmogr.Base.{
  String, ◌≡◌, refl, sym, false, not, Option, none, some, List, [], ◌∷◌, map, keep, last?, All,
  if◌then◌else◌, ◌==◌, string_eq, ok, Bool-cases, inl, inr,
}
use transmogr.Models.Events.{ReplicationEvent, OutboxBatch, last_event_id, event_id_or_empty}
use transmogr.Outbox.{OutboxDb, outbox_ack, same_batch, has_batch}
use transmogr.Commit.{Db}
use transmogr.Replication.{BatchError, apply_event_batch, apply_transaction_batch}
use transmogr.Protocol.{Codec, to_proto_events, last_proto_event_id}
use transmogr.Protocol.RoundTrip.{IsCanonical, received, to_replication_events-to_proto_events}
use transmogr.Server.Feed.{prepared_message}
use transmogr.Client.Session.{
  Session, Receiver, Step, applies, acknowledges, AckRequest, acked, applied_batch, prepared_batch,
  decoded_batch, handle_message, handle_event_batch, handle_transaction_batch, db_of, with_db,
  first_table,
}

last_proto_event_id-to_proto_events :
    (codec : Codec) (es : List ReplicationEvent)
    → last_proto_event_id (to_proto_events codec es) ≡ event_id_or_empty (last? es)
unfolding last_proto_event_id to_proto_events
last_proto_event_id-to_proto_events codec [] = refl
last_proto_event_id-to_proto_events codec (e ∷ []) = refl
last_proto_event_id-to_proto_events codec (e ∷ e' ∷ es) =
    last_proto_event_id-to_proto_events codec (e' ∷ es)

-- What the receiver commits of a batch, and the table that it names in its acknowledgement.
abbrev pub commit_of :
    Session → OutboxBatch → List ReplicationEvent → Receiver → Db × Option BatchError
commit_of s b events r =
    if b.tx_id == ""
    then apply_event_batch s.mode events (db_of r)
    else apply_transaction_batch s.mode events (db_of r)

abbrev pub table_acked : OutboxBatch → List ReplicationEvent → String
table_acked b events = if b.tx_id == "" then first_table events else ""

abbrev pub ack_of : Session → OutboxBatch → List ReplicationEvent → AckRequest
ack_of s b events = record {
  region = s.local_region;
  table = table_acked b events;
  last_event_id = last_event_id b;
}

-- A step that applies the events, leaves the database `db`, and acknowledges.
abbrev pub Delivers : Receiver → List ReplicationEvent → AckRequest → Db → Step → Type 0
Delivers r events q db step =
    (step.receiver ≡ with_db r db) × (step.actions ≡ applies events ∷ acknowledges q ∷ [])

acked-Delivers :
    (r : Receiver) (events : List ReplicationEvent) (q : AckRequest) (db : Db)
    (answer : Option String)
    → Delivers r events q db (acked events q (with_db r db) answer)
unfolding acked
acked-Delivers r events q db none = (refl, refl)
acked-Delivers r events q db (some e) = (refl, refl)

applied_batch-Delivers :
    (s : Session) (r : Receiver) (events : List ReplicationEvent) (q : AckRequest) (db : Db)
    (outcome : Db × Option BatchError)
    → outcome ≡ (db, none)
    → Delivers r events q db (applied_batch s events q r outcome)
unfolding applied_batch
applied_batch-Delivers s r events q db outcome h = rw h (acked-Delivers r events q db (s.ack q))

module _ (codec : Codec) (s : Session) (b : OutboxBatch) (events : List ReplicationEvent)
    (canonical : All (λ e. All (IsCanonical codec) e.primary_key) b.events)
    (prepares : s.prepare_events (map received b.events) ≡ ok events) (r : Receiver) (db : Db) where
  handle_message-Delivers :
      commit_of s b events r ≡ (db, none)
      → Delivers r events (ack_of s b events) db (handle_message s (prepared_message codec b) r)
  unfolding handle_message prepared_message handle_event_batch handle_transaction_batch
      decoded_batch prepared_batch applied_batch last_event_id
  handle_message-Delivers commits = elim (Bool-cases (b.tx_id == "")) [
    | inl e ↦
        rw
          (
            e,
            to_replication_events-to_proto_events codec b.events canonical,
            prepares,
            last_proto_event_id-to_proto_events codec b.events,
          )
          (applied_batch-Delivers s r events
            (record (ack_of s b events) { table = first_table events }) db
            (apply_event_batch s.mode events (db_of r)) (rw e at commits))
    | inr e ↦
        rw
          (
            e,
            to_replication_events-to_proto_events codec b.events canonical,
            prepares,
            last_proto_event_id-to_proto_events codec b.events,
          )
          (applied_batch-Delivers s r events (record (ack_of s b events) { table = "" }) db
            (apply_transaction_batch s.mode events (db_of r)) (rw e at commits))
  ]

keep_none :
    (region table event_id : String) (bs : List OutboxBatch)
    → has_batch region table event_id (keep (λ b. not (same_batch region table event_id b)) bs)
      ≡ false
unfolding has_batch
keep_none region table event_id [] = refl
keep_none region table event_id (b ∷ bs) = elim (Bool-cases (same_batch region table event_id b)) [
  | inl e ↦ rw e (keep_none region table event_id bs)
  | inr e ↦ rw (e, e) (keep_none region table event_id bs)
]

-- The outbox after an acknowledgement of the batch: it is gone, and nothing but its key is.
abbrev pub IsRemoved : OutboxBatch → OutboxDb → OutboxDb → Type 0
IsRemoved b before after =
    (has_batch b.peer_region b.table (last_event_id b) after.rows ≡ false)
    × (after.rows
        ≡ keep (λ x. not (same_batch b.peer_region b.table (last_event_id b) x)) before.rows)

acked-IsRemoved :
    (b : OutboxBatch) (q : AckRequest) (outbox : OutboxDb)
    → q ≡ (record { region = b.peer_region; table = b.table; last_event_id = last_event_id b })
    → IsRemoved b outbox (outbox_ack q.region q.table q.last_event_id outbox).0
unfolding outbox_ack
acked-IsRemoved b q outbox h =
    subst
      (λ (x : AckRequest).
        IsRemoved b outbox (outbox_ack x.region x.table x.last_event_id outbox).0)
      (sym h) (keep_none b.peer_region b.table (last_event_id b) outbox.rows, refl)

-- A batch that the sender's pipeline leaves as it is, whose keys are canonical, and whose events the
-- receiver prepares and commits without an error: the message that the sender makes of it leads the
-- receiver to exactly that commit of the events in their received form, and to one acknowledgement;
-- where the receiver is the peer of the batch, and the batch has the table that is acknowledged, that
-- acknowledgement removes the batch from the sender's outbox, and no batch with another key.
pub handle_message-outbox_ack :
    (codec : Codec) (s : Session) (b : OutboxBatch) (events : List ReplicationEvent)
    (canonical : All (λ e. All (IsCanonical codec) e.primary_key) b.events)
    (prepares : s.prepare_events (map received b.events) ≡ ok events) (r : Receiver) (db : Db)
    (commits : commit_of s b events r ≡ (db, none)) (outbox : OutboxDb)
    → s.local_region ≡ b.peer_region
    → table_acked b events ≡ b.table
    → Delivers r events (ack_of s b events) db (handle_message s (prepared_message codec b) r)
      × IsRemoved b outbox
          (outbox_ack
            (ack_of s b events).region
            (ack_of s b events).table
            (ack_of s b events).last_event_id
            outbox).0
handle_message-outbox_ack codec s b events canonical prepares r db commits outbox peer table = (
  handle_message-Delivers codec s b events canonical prepares r db commits,
  acked-IsRemoved b (ack_of s b events) outbox
      λ i. record { region = peer i; table = table i; last_event_id = last_event_id b },
)
