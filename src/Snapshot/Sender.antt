-- ===== src/Snapshot/Sender.antt =====
-- internal/service/snapshot/service.go: `SendToPeer`, with the lease under which it runs. What the
-- queries and the callback answer is given by the chunks that were sent before, and what happens to
-- the table of leases meanwhile as the statements of other instances between two renewals.
use transmogr.Base.{
  ℕ, zero, suc, String, Bool, true, false, ◌||◌, Option, none, some, List, [], ◌∷◌, ◌++◌, is_empty,
  last?, if◌then◌else◌, ◌==◌, string_eq, Result, ok, err,
}
use transmogr.Base.Int.{ℤ, pos, pos_part, leb_ℤ}
use transmogr.Models.PrimaryKey.{PrimaryKey}
use transmogr.Models.State.{SnapshotRow, SnapshotChunk, Lease, LeaseKey}
use transmogr.Leases.{
  Leases, Clocks, LeaseError, LeaseOp, Outcome, try_state_acquire_lease, renew_state_lease,
  release_state_lease, run,
}
use transmogr.Snapshot.Source.{Source, ReadError, read_snapshot_chunk}

pub record LeaseConfig : Type 0 where
  pub local_region : String
  pub instance_id : String
  pub ttl : ℤ
  pub renew_interval : ℤ

unfoldable pub normalized_lease_config : Option LeaseConfig → Option LeaseConfig
normalized_lease_config none = none
normalized_lease_config (some cfg) =
    if cfg.local_region == ""
      || cfg.instance_id == ""
      || leb_ℤ cfg.ttl (pos 0)
      || leb_ℤ cfg.renew_interval (pos 0)
    then none
    else some cfg

-- StateService
pub record Service : Type 0 where
  pub source : Source
  pub chunk_size : ℕ
  pub lease : Option LeaseConfig

-- NewServiceWithPipelineAndLeases
unfoldable pub new_service : Source → ℤ → Option LeaseConfig → Service
unfolding normalized_lease_config
new_service source chunk_size lease = record {
  source = source;
  chunk_size = if leb_ℤ chunk_size (pos 0) then 1000 else pos_part chunk_size;
  lease = normalized_lease_config lease;
}

pub data SendError : Type 0 where
  out_of_fuel lease_not_acquired : SendError
  read_failed : ReadError → SendError
  query_failed callback_failed : String → SendError
  lease_failed : LeaseError → SendError

-- The chunks that were handed to the callback, and the error that ended the transfer.
pub record Transfer : Type 0 where
  pub chunks : List SnapshotChunk
  pub error : Option SendError

-- What fails, given the chunks that were sent before.
pub record Calls : Type 0 where
  pub query : List SnapshotChunk → Option String
  pub callback : List SnapshotChunk → SnapshotChunk → Option String

abbrev pub region_of : Option LeaseConfig → String
region_of none = ""
region_of (some cfg) = cfg.local_region

abbrev read : Service → String → PrimaryKey → Result ReadError SnapshotChunk
read s table after = read_snapshot_chunk s.source (record {
  table = table;
  after_primary_key = after;
  limit = s.chunk_size;
  local_region = region_of s.lease;
})

queried : Option String → Result ReadError SnapshotChunk → Result SendError SnapshotChunk
queried (some e) r = err (query_failed e)
queried none (err e) = err (read_failed e)
queried none (ok chunk) = ok chunk

-- readLocalChunk
unfoldable pub read_local_chunk :
    Service → Calls → List SnapshotChunk → String → PrimaryKey → Result SendError SnapshotChunk
unfolding queried
read_local_chunk s calls sent table after = queried (calls.query sent) (read s table after)

abbrev pub prepend : SnapshotChunk → Transfer → Transfer
prepend chunk t = record { chunks = chunk ∷ t.chunks; error = t.error }

abbrev pub key_or_empty : Option SnapshotRow → PrimaryKey
key_or_empty none = []
key_or_empty (some row) = row.primary_key

abbrev pub last_key : List SnapshotRow → PrimaryKey
last_key rows = key_or_empty (last? rows)

-- One round after the read: the callback, the test for the end, and the key to go on from.
unfoldable pub answered : SnapshotChunk → Option String → (PrimaryKey → Transfer) → Transfer
answered chunk (some e) more = record { chunks = chunk ∷ []; error = some (callback_failed e) }
answered chunk none more =
    if chunk.last || is_empty chunk.rows
    then record { chunks = chunk ∷ []; error = none }
    else prepend chunk (more (last_key chunk.rows))

unfoldable pub send_chunk :
    Calls
    → List SnapshotChunk
    → Result SendError SnapshotChunk
    → (List SnapshotChunk → PrimaryKey → Transfer)
    → Transfer
unfolding answered
send_chunk calls sent (err e) more = record { chunks = []; error = some e }
send_chunk calls sent (ok chunk) more =
    answered chunk (calls.callback sent chunk) (more (sent ++ chunk ∷ []))

unfoldable pub send_loop : ℕ → Service → Calls → String → List SnapshotChunk → PrimaryKey → Transfer
unfolding read_local_chunk send_chunk
send_loop zero s calls table sent after = record { chunks = []; error = some out_of_fuel }
send_loop (suc fuel) s calls table sent after =
    send_chunk calls sent (read_local_chunk s calls sent table after)
      (λ sent' after'. send_loop fuel s calls table sent' after')

-- Between two renewals: the statements of other instances, and then the clocks of the renewal.
pub record Tick : Type 0 where
  pub others : List LeaseOp
  pub clocks : Clocks

-- renewLeaseLoop: what it leaves of the leases, and whether it cancelled the work.
renewed : Outcome → (Leases → Leases × Bool) → Leases × Bool
renewed (t, ok (some l)) more = more t
renewed (t, ok none) more = (t, true)
renewed (t, err e) more = (t, true)

unfoldable pub renew_lease_loop : LeaseConfig → Lease → List Tick → Leases → Leases × Bool
unfolding renewed
renew_lease_loop cfg l [] t = (t, false)
renew_lease_loop cfg l (tick ∷ ticks) t =
    renewed
      (renew_state_lease tick.clocks l.key cfg.instance_id l.generation cfg.ttl (run tick.others t))
      (λ t'. renew_lease_loop cfg l ticks t')

pub record Session : Type 0 where
  pub clocks : Clocks
  pub ticks : List Tick
  pub others : List LeaseOp  -- after the last renewal, before the release
  pub release_fails : Bool

-- The release, whose error is ignored.
unfoldable pub released : Bool → LeaseConfig → Lease → Leases → Leases
released true cfg l t = t
released false cfg l t = (release_state_lease l.key cfg.instance_id l.generation t).0

-- Under the lease: the work, beside it the renewals, and then the release.
unfoldable pub under_lease : LeaseConfig → Session → Outcome → Transfer → Leases × Transfer
unfolding renew_lease_loop released
under_lease cfg session (t, err e) work = (t, record { chunks = []; error = some (lease_failed e) })
under_lease cfg session (t, ok none) work =
    (t, record { chunks = []; error = some lease_not_acquired })
under_lease cfg session (t, ok (some l)) work =
    let (t', cancelled) = renew_lease_loop cfg l session.ticks t in
    (released session.release_fails cfg l (run session.others t'), work)

abbrev pub snapshot_key : LeaseConfig → String → String → LeaseKey
snapshot_key cfg peer_region table = record {
  kind = "snapshot";
  region = cfg.local_region;
  peer_region = peer_region;
  table = table;
}

-- withLease
unfoldable pub with_lease :
    Option LeaseConfig → String → String → Session → Leases → Transfer → Leases × Transfer
unfolding under_lease
with_lease none peer_region table session t work = (t, work)
with_lease (some cfg) peer_region table session t work =
    under_lease cfg session
      (try_state_acquire_lease session.clocks (snapshot_key cfg peer_region table) cfg.instance_id
        cfg.ttl t)
      work

unfoldable pub send_to_peer :
    ℕ → Service → Calls → Session → String → String → PrimaryKey → Leases → Leases × Transfer
unfolding send_loop with_lease
send_to_peer fuel s calls session peer_region table after t =
    with_lease s.lease peer_region table session t (send_loop fuel s calls table [] after)
