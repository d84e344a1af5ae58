-- ===== src/Snapshot/Transfer/Leased.antt =====
-- `SendToPeer` under its lease: the rows that it hands over where the lease is granted, and the lease
-- afterwards.
use mathlib.Core.Path.{subst}
use transmogr.Base.{
  sym, ℕ, ◌<◌, ◌≤◌, String, ◌≡◌, refl, Bool, true, false, Option, none, some, List, [], arith,
  length, keep, length-keep-le, string_eq, eq_iff, Result, ok, err,
}
use transmogr.Base.Int.{ℤ}
use transmogr.Base.Sorting.{length-sort_by}
use transmogr.Models.Json.{Bytes}
use transmogr.Models.PrimaryKey.{PrimaryKey}
use transmogr.Models.State.{Lease, LeaseKey, lease_key_eq, lease_key_beq_iff}
use transmogr.Apply.Rows.{TableSpec}
use transmogr.Leases.{
  Leases, LeaseError, Outcome, try_state_acquire_lease, release_state_lease, run,
}
use transmogr.Snapshot.Source.{Source, select_after, cmp_payloads, is_selected}
use transmogr.Snapshot.Sender.{
  Service, LeaseConfig, Calls, Session, Transfer, lease_not_acquired, lease_failed, region_of,
  new_service, snapshot_key, send_loop, with_lease, under_lease, send_to_peer, renew_lease_loop,
  released,
}
use transmogr.Snapshot.Transfer.{IsServed}
use transmogr.Snapshot.Transfer.Rounds.{IsComplete, NeverFails}
use transmogr.Snapshot.Transfer.Complete.{loop-IsComplete}

-- The transfer, by what the lease's acquisition answered.
abbrev pub Granted : Result LeaseError (Option Lease) → Transfer → Type 0 → Type 0
Granted (ok (some l)) transfer Done = Done
Granted (ok none) transfer Done = transfer ≡ record { chunks = []; error = some lease_not_acquired }
Granted (err e) transfer Done = transfer ≡ record { chunks = []; error = some (lease_failed e) }

abbrev pub Answered :
    Option LeaseConfig → Session → String → String → Leases → Transfer → Type 0 → Type 0
Answered none session peer_region table t transfer Done = Done
Answered (some cfg) session peer_region table t transfer Done =
    Granted
      (try_state_acquire_lease session.clocks (snapshot_key cfg peer_region table) cfg.instance_id
        cfg.ttl t).1
      transfer Done

-- The service's limit is positive, whatever was configured.
new_service-positive :
    (source : Source) (chunk_size : ℤ) (lease : Option LeaseConfig)
    → 0 < (new_service source chunk_size lease).chunk_size
unfolding new_service
new_service-positive source chunk_size lease = ground arith

length-select_after :
    (source : Source) (spec : TableSpec) (local_region : String) (after : PrimaryKey)
    (payloads : List Bytes)
    → length (select_after source spec local_region after payloads) ≤ length payloads
unfolding select_after
length-select_after source spec local_region after payloads = omega (
  arith,
  length-sort_by (cmp_payloads source spec)
      (keep (is_selected source spec local_region after) payloads),
  length-keep-le (is_selected source spec local_region after) payloads,
)

under_lease-Granted :
    (cfg : LeaseConfig) (session : Session) (o : Outcome) (work : Transfer)
    (Done : Transfer → Type 0)
    → Done work
    → Granted o.1 (under_lease cfg session o work).1 (Done (under_lease cfg session o work).1)
unfolding under_lease
under_lease-Granted cfg session (t, ok (some l)) work Done h = h
under_lease-Granted cfg session (t, ok none) work Done h = refl
under_lease-Granted cfg session (t, err e) work Done h = refl

with_lease-Answered :
    (lease : Option LeaseConfig) (session : Session) (peer_region table : String) (t : Leases)
    (work : Transfer) (Done : Transfer → Type 0)
    → Done work
    → Answered lease session peer_region table t
        (with_lease lease peer_region table session t work).1
        (Done (with_lease lease peer_region table session t work).1)
unfolding with_lease
with_lease-Answered none session peer_region table t work Done h = h
with_lease-Answered (some cfg) session peer_region table t work Done h =
    under_lease-Granted cfg session
      (try_state_acquire_lease session.clocks (snapshot_key cfg peer_region table) cfg.instance_id
        cfg.ttl t)
      work Done h

-- Where neither a query nor the callback fails, and the fuel exceeds the rows of a table that is
-- served, `send_to_peer` ends without an error. It has then handed over, in the order of the primary
-- key, exactly the rows of the local region after the given key, each once, in chunks of at most the
-- configured size (1000 if that is not positive), of which only the one at the end is marked as the
-- last. With leases configured, this is so where the lease is granted; where it is refused or its
-- statement fails, nothing is handed over and the error says which.
pub send_to_peer-IsComplete :
    (source : Source) (table : String) (spec : TableSpec) (served : IsServed source table spec)
    (calls : Calls) (sound : NeverFails calls) (fuel : ℕ) (chunk_size : ℤ)
    (lease : Option LeaseConfig) (session : Session) (peer_region : String) (after : PrimaryKey)
    (t : Leases)
    → length (source.tables table) < fuel
    → let s = new_service source chunk_size lease in
      let transfer = (send_to_peer fuel s calls session peer_region table after t).1 in
      Answered s.lease session peer_region table t transfer (
        IsComplete s.chunk_size
          (select_after source spec (region_of s.lease) after (source.tables table))
          transfer)
unfolding send_to_peer new_service
send_to_peer-IsComplete source table spec served calls sound fuel chunk_size lease session
      peer_region after t enough =
    let s = new_service source chunk_size lease in
    with_lease-Answered s.lease session peer_region table t (send_loop fuel s calls table [] after)
      (IsComplete s.chunk_size
        (select_after source spec (region_of s.lease) after (source.tables table)))
      (loop-IsComplete s table spec served calls sound fuel [] after
        (new_service-positive source chunk_size lease)
        (omega (
          arith,
          enough,
          length-select_after source spec (region_of s.lease) after (source.tables table),
        )))

-- Some instance holds this generation of the lease.
abbrev pub IsHeld : LeaseKey → String → ℕ → Leases → Type 0
IsHeld key owner generation t =
    (l : Lease) × (t key ≡ some l) × (l.owner_id ≡ owner) × (l.generation ≡ generation)

released-IsHeld :
    (key : LeaseKey) (owner : String) (generation : ℕ) (t : Leases)
    → ¬ IsHeld key owner generation (release_state_lease key owner generation t).0
unfolding release_state_lease
released-IsHeld key owner generation t (l, e, o, g) =
    ground (arith, e, o, g, lease_key_beq_iff key key, eq_iff l.owner_id owner)

-- After the release, by whether its statement failed: the lease is not held, or the table is as the
-- renewals and the other instances left it.
abbrev pub AfterRelease : Bool → String → Lease → Leases → Leases → Type 0
AfterRelease false owner l left afterwards = ¬ IsHeld l.key owner l.generation afterwards
AfterRelease true owner l left afterwards = afterwards ≡ left

-- The table of leases after the call, by what the acquisition left and answered.
abbrev pub Released : LeaseConfig → Session → Outcome → Leases → Type 0
Released cfg session (t, ok (some l)) afterwards =
    AfterRelease session.release_fails cfg.instance_id l
      (run session.others (renew_lease_loop cfg l session.ticks t).0) afterwards
Released cfg session (t, ok none) afterwards = afterwards ≡ t
Released cfg session (t, err e) afterwards = afterwards ≡ t

released-AfterRelease :
    (fails : Bool) (cfg : LeaseConfig) (l : Lease) (left : Leases)
    → AfterRelease fails cfg.instance_id l left (released fails cfg l left)
unfolding released
released-AfterRelease false cfg l left = released-IsHeld l.key cfg.instance_id l.generation left
released-AfterRelease true cfg l left = refl

under_lease-Released :
    (cfg : LeaseConfig) (session : Session) (o : Outcome) (work : Transfer)
    → Released cfg session o (under_lease cfg session o work).0
unfolding under_lease
under_lease-Released cfg session (t, ok (some l)) work =
    released-AfterRelease session.release_fails cfg l
      (run session.others (renew_lease_loop cfg l session.ticks t).0)
under_lease-Released cfg session (t, ok none) work = refl
under_lease-Released cfg session (t, err e) work = refl

-- However the transfer ends, whatever it renewed and whatever other instances did meanwhile: after
-- `send_to_peer` this instance no longer holds the generation of the lease that it was granted, unless
-- the statement of the release failed, whose error is ignored; the table is then as the renewals and
-- the other instances left it. Where the lease was not granted, it is as the acquisition left it.
pub send_to_peer-Released :
    (fuel : ℕ) (s : Service) (cfg : LeaseConfig) (calls : Calls) (session : Session)
    (peer_region table : String) (after : PrimaryKey) (t : Leases)
    → s.lease ≡ some cfg
    → Released cfg session
        (try_state_acquire_lease session.clocks
          (snapshot_key cfg peer_region table)
          cfg.instance_id
          cfg.ttl
          t)
        (send_to_peer fuel s calls session peer_region table after t).0
unfolding send_to_peer with_lease
send_to_peer-Released fuel s cfg calls session peer_region table after t e =
    let acquired =
      try_state_acquire_lease session.clocks (snapshot_key cfg peer_region table) cfg.instance_id
        cfg.ttl t in
    let work = send_loop fuel s calls table [] after in
    subst
      (λ lease. Released cfg session acquired (with_lease lease peer_region table session t work).0)
      (sym e) (under_lease-Released cfg session acquired work)
