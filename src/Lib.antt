-- ===== src/Lib.antt =====
-- A model of transmogr, which replicates tables between the PostgreSQL databases of several regions.
--
-- A change of a local table goes through the changefeed service into the outbox of every peer region;
-- the peer's stream replays what is pending there; the receiver validates a batch, applies its events
-- to its own tables in one transaction, moves the cursors of their (peer region, table), and
-- acknowledges the batch. A peer that has no cursor yet asks for a snapshot of the table first, which
-- comes in chunks by primary key. Leases elect the instance that runs a changefeed or sends a snapshot.
--
-- State is passed explicitly: a database table is a function from its key to the row, if there is one,
-- or a list of rows in the order of their ids; a statement is a function on the tables, which PostgreSQL
-- runs atomically. A Go error is a constructor of an error type. Times are natural numbers. Names are
-- those of the code in snake case.
--
--   Base            numbers, lists, results, comparison functions, stable sorting
--   Models          internal/models: primary keys and their order, events, batches, cursors, leases;
--                   Models/Json has the decoders of encoding/json that primary_key.go calls
--   Leases          internal/repository/postgres/state_leases.go, with every interleaving of the
--                   statements of several instances as a list (`run`); Leases/Service is RunWithLease
--                   of internal/service/lease/service.go, with the answers of its environment as rounds
--   Apply           internal/repository/postgres/events.go, and the queries of snapshot.go that it uses,
--                   as functions on the rows of the application tables; Apply/Invariants lifts what
--                   each statement keeps to the batch
--   Commit          internal/repository/postgres/state_events.go, state_cursor.go and tx.go; Commit/Spec
--                   is its contract, one pass over the events
--   Replication     internal/service/replication/service.go: validation, modes and order of a batch
--   Outbox          internal/repository/postgres/outbox.go; Outbox/Service is
--                   internal/service/outbox/service.go, and Outbox/Paging the replay of
--                   internal/transport/grpc/server/handlers.go
--   Changefeed      internal/service/changefeed/service.go, on the outbox above
--   Snapshot        internal/service/snapshot/service.go, state_snapshots.go, and the reading and writing
--                   of chunks in snapshot.go, both of internal/repository/postgres: Snapshot/Sender and
--                   Snapshot/Transfer send a table, Snapshot/Receiver takes its chunks
--   Protocol        internal/transport/grpc/protocol: the messages of the wire, and the comparison of
--                   two handshakes
--   Server          internal/transport/grpc/server: Server/Access accepts a consumer (handshake.go), and
--                   Server/Feed is `Consume` and `Ack` (handlers.go) on the outbox and the sender above
--   Client          internal/transport/grpc/client: the delay of backoff.go, and in Client/Session the
--                   receive loop of recv.go and the session of session.go on the receivers above
--   Transformers    internal/replication/transformers: the chains, and the crypto transformers of events,
--                   with the crypto service as a parameter
--   Delivery        the way of one batch through the sender, the receiver and back to the outbox
--   Witnesses       the theorems at concrete inputs, and runs of the code
--
-- Fuel: the replay of the outbox takes one round more than there are rows, and the loop that cuts a
-- batch into chunks as many rounds as there are events; a snapshot takes one round more than the table
-- has rows. All three are proved to be enough. All other loops run over a list.
--
-- Parameters: the decoding of a payload by encoding/json and the event id, a SHA-256, are arguments of
-- the changefeed; the JSON of texts and objects, the parser of a handshake's configuration, and the
-- pipeline of transformers are arguments of the protocol, the server and the session. PostgreSQL's
-- comparison of the values of a key column is a parameter of the snapshot's source. What the JSONB
-- column of `peer_cursors` gives back of a key that was saved there is part of the database of Commit;
-- where a theorem needs it to be the key itself, it says so. Which statements fail is part of the
-- receiver's state for snapshots, and a parameter of the cursors of the changefeed and of the release
-- of a snapshot's lease. Elsewhere the database answers, and the keys in `snapshot_jobs` and
-- `changefeed_cursors`, and the events in `outbound_batches`, are read as they were written.
--
-- Not modelled: commits that fail and the wrap-around of PostgreSQL's bigint; the peer loop of the
-- client; the send queue of the server and the stream bus, which pass messages on; the capture and
-- polling adapters, whose input is PostgreSQL's logical decoding; the transformers of snapshot rows
-- and of metadata, and the crypto service with its keys; configuration, migrations, metrics and logs.
pub mod Apply
pub mod Base
pub mod Changefeed
pub mod Client
pub mod Commit
pub mod Delivery
pub mod Leases
pub mod Models
pub mod Outbox
pub mod Protocol
pub mod Replication
pub mod Server
pub mod Snapshot
pub mod Transformers
pub mod Witnesses
