-- ===== src/Witnesses/Snapshot.antt =====
-- Snapshots: a table of three rows, a receiver whose job was finished, and a foreign row.
use transmogr.Base.{
  String, ◌≡◌, refl, true, false, ◌==◌, Bool-cases, inl, inr, Option, none, some, List, [], ◌∷◌,
  arith, string_eq, list_eq, nat_eq,
}
use transmogr.Base.Int.{pos}
use transmogr.Base.Order.{cmp_lists, cmp_ℕ}
use transmogr.Base.Sorting.Strict.{IsApart}
use transmogr.Base.Tables.{put, no_rows}
use transmogr.Base.Text.{codes, compare_bytes, compare_bytes-Lawful}
use transmogr.Models.Events.{Fields}
use transmogr.Models.Json.{Bytes, json_string}
use transmogr.Models.State.{Scope, scope_eq, StateSnapshotJob, SnapshotJobStatus, SnapshotRow}
use transmogr.Leases.{Leases, try_state_acquire_lease}
use transmogr.Apply.Ownership.Batches.{RowAfter}
use transmogr.Apply.Batches.{pk_fields}
use transmogr.Base.Sorting.{sort_by}
use transmogr.Models.PrimaryKey.{primary_key_parts_from_map}
use transmogr.Snapshot.Source.{Source, read_snapshot_chunk, select_after, cmp_rows, cmp_payloads}
use transmogr.Snapshot.Sender.{
  LeaseConfig, Service, Session, Calls, new_service, region_of, snapshot_key, send_to_peer,
}
use transmogr.Snapshot.Transfer.{IsServed}
use transmogr.Snapshot.Transfer.Rounds.{NeverFails, IsComplete, payloads_sent}
use transmogr.Snapshot.Transfer.Leased.{
  Answered, Released, send_to_peer-IsComplete, send_to_peer-Released,
}
use transmogr.Snapshot.Chunks.{apply_snapshot_chunk}
use transmogr.Snapshot.Chunks.Owned.{apply_snapshot_chunk-Owned}
use transmogr.Snapshot.Jobs.{Jobs}
use transmogr.Snapshot.Receiver.{State, apply_incoming_chunk}
use transmogr.Snapshot.Receiver.Rules.{Post}
use transmogr.Snapshot.Receiver.Applied.{Succeeds, Fails, apply_incoming_chunk-Post}
use transmogr.Snapshot.Receiver.Statuses.{
  IsConsistent, Call, chunk, complete, request, run_calls, run_calls-IsConsistent,
}
use transmogr.Witnesses.Apply.{orders, store, store_owned, key, target, us_is_not_eu}

-- A payload is the bytes of an id here, and its object has that id and a region.
abbrev object : Bytes → Option Fields
object payload = some (("id", payload) ∷ ("region", codes "\"eu\"") ∷ [])

abbrev order_payloads : List Bytes
order_payloads = codes "3" ∷ codes "1" ∷ codes "2" ∷ []

abbrev source : Source
source = record {
  specs = put "orders" orders no_rows;
  types = λ table. put "id" "integer" no_rows;
  tables = λ table. order_payloads;
  object = object;
  order = λ column. compare_bytes;
}

payloads_differ : IsApart (cmp_payloads source orders) order_payloads
unfolding cmp_rows compare_bytes cmp_lists cmp_ℕ
payloads_differ = (((λ e. cc), ((λ e. cc), tt)), (((λ e. cc), tt), (tt, tt)))

abbrev fields_of : Bytes → Fields
fields_of p = ("id", p) ∷ ("region", codes "\"eu\"") ∷ []

served : IsServed source "orders" orders
served = record {
  configured = refl;
  has_key = refl;
  readable = (
    record { fields = fields_of (codes "3"); decoded = refl; keyed = ((codes "3", refl), tt) },
    (
      record { fields = fields_of (codes "1"); decoded = refl; keyed = ((codes "1", refl), tt) },
      (
        record { fields = fields_of (codes "2"); decoded = refl; keyed = ((codes "2", refl), tt) },
        tt,
      ),
    ),
  );
  apart = payloads_differ;
  lawful = λ c. compare_bytes-Lawful;
}

abbrev pub calls : Calls
calls = record { query = λ sent. none; callback = λ sent c. none }

sound : NeverFails calls
sound = record { query = λ sent. refl; callback = λ sent c. refl }

abbrev lease : LeaseConfig
lease = record { local_region = "eu"; instance_id = "a"; ttl = pos 30; renew_interval = pos 10 }

abbrev pub peer_session : Session
peer_session = record {
  clocks = record { local = 1; db = 1 };
  ticks = (record { others = []; clocks = record { local = 5; db = 5 } }) ∷ [];
  others = [];
  release_fails = false;
}

abbrev pub leases : Leases
leases = no_rows

abbrev pub service : Service
service = record { source = source; chunk_size = 2; lease = some lease }

send_to_peer-IsComplete_example :
    let s = new_service source (pos 2) (some lease) in
    let transfer = (send_to_peer 5 s calls peer_session "us" "orders" [] leases).1 in
    Answered s.lease peer_session "us" "orders" leases transfer (
      IsComplete s.chunk_size
        (select_after source orders (region_of s.lease) [] (source.tables "orders"))
        transfer)
send_to_peer-IsComplete_example =
    send_to_peer-IsComplete source "orders" orders served calls sound 5 (pos 2) (some lease)
      peer_session "us" [] leases (omega arith)

send_to_peer-Released_example :
    Released lease peer_session
      (try_state_acquire_lease peer_session.clocks
        (snapshot_key lease "us" "orders")
        "a"
        (pos 30)
        leases)
      (send_to_peer 5 service calls peer_session "us" "orders" [] leases).0
send_to_peer-Released_example =
    send_to_peer-Released 5 service lease calls peer_session "us" "orders" [] leases refl

abbrev us_orders : Scope
us_orders = record { peer_region = "us"; table = "orders" }

abbrev done_job : StateSnapshotJob
done_job = record {
  peer_region = "us";
  table = "orders";
  status = SnapshotJobStatus.finished;
  last_primary_key = [];
  watermark_at = 7;
  is_finished = true;
}

abbrev jobs : Jobs
jobs = put us_orders done_job no_rows

abbrev state : State
state = record { store = store; jobs = jobs; faults = false ∷ false ∷ [] }

abbrev rows : List SnapshotRow
rows =
    (record {
      primary_key = (record { column = "id"; key_type = "integer"; value = codes "7" }) ∷ [];
      payload = codes "7";
      metadata = [];
      version = pos 0;
    })
    ∷ []

apply_incoming_chunk-Post_example :
    Post
      (Succeeds (apply_snapshot_chunk object "us" "orders") us_orders rows true 9 state)
      (Fails (apply_snapshot_chunk object "us" "orders") rows state)
      (apply_incoming_chunk object us_orders
        (record { rows = rows; last = true; watermark = 9 })
        state)
apply_incoming_chunk-Post_example = apply_incoming_chunk-Post object us_orders rows true 9 state

jobs-IsConsistent : IsConsistent jobs
jobs-IsConsistent k = elim (Bool-cases (us_orders == k)) [
  | inl e ↦ rw e ((λ f. refl), (λ f. refl))
  | inr e ↦ rw e tt
]

abbrev some_calls : List Call
some_calls =
    chunk us_orders (record { rows = rows; last = false; watermark = 9 })
    ∷ chunk us_orders (record { rows = []; last = true; watermark = 0 })
    ∷ complete us_orders
    ∷ request us_orders
    ∷ []

run_calls-IsConsistent_example : IsConsistent (run_calls object some_calls state).jobs
run_calls-IsConsistent_example = run_calls-IsConsistent object some_calls state jobs-IsConsistent

abbrev us : String
us = "us"

has_a_region : (us == "") ≡ false
has_a_region = refl

apply_snapshot_chunk-Owned_example :
    RowAfter (apply_snapshot_chunk object "us" "orders" rows store) "orders" key target
apply_snapshot_chunk-Owned_example =
    apply_snapshot_chunk-Owned object "us" "orders" rows store "orders" key target store_owned
      has_a_region us_is_not_eu

-- What the chunks hold, in key order.
sends_in_order :
    payloads_sent (send_to_peer 5 service calls peer_session "us" "orders" [] leases).1.chunks
    ≡ codes "1" ∷ codes "2" ∷ codes "3" ∷ []
unfolding send_to_peer json_string try_state_acquire_lease read_snapshot_chunk sort_by cmp_rows
    compare_bytes cmp_ℕ primary_key_parts_from_map pk_fields
sends_in_order = refl
