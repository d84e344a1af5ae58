-- ===== src/Witnesses/Apply.antt =====
-- A row of the region `eu`, and a batch of `us` that would change and delete it.
use transmogr.Base.{String, ◌≢◌, refl, string_eq, nat_eq, list_eq, List, [], ◌∷◌, arith}
use transmogr.Base.Int.{pos}
use transmogr.Base.Tables.{Table, put, no_rows}
use transmogr.Base.Text.{codes}
use transmogr.Models.Events.{ReplicationEvent, Operation, ApplyMode, Fields}
use transmogr.Models.Json.{Bytes, json_string}
use transmogr.Apply.Rows.{TableSpec, Row, Rows, record_row}
use transmogr.Apply.Batches.{Store, apply_events_batch}
use transmogr.Apply.InsertOnly.{insert_only-RowAfter}
use transmogr.Apply.Ownership.Batches.{Owned, RowAfter, apply_events_batch-Owned}

abbrev pub orders : TableSpec
orders = record { name = "orders"; primary_key = "id" ∷ []; region_field = "region" }

abbrev fields : Fields
fields = ("id", codes "7") ∷ ("region", codes "\"eu\"") ∷ ("total", codes "5") ∷ []

abbrev pub target : Row
target = record_row fields

abbrev pub key : List Bytes
key = codes "7" ∷ []

abbrev rows : String → Rows
rows table = put key target no_rows

abbrev specs : Table String TableSpec
specs = put "orders" orders no_rows

abbrev pub store : Store
store = record { specs = specs; rows = rows }

abbrev event : Operation → ReplicationEvent
event op = record {
  peer_region = "us";
  table = "orders";
  event_id = "e";
  primary_key = (record { column = "id"; key_type = "integer"; value = codes "7" }) ∷ [];
  operation = op;
  version = pos 1;
  fields = ("id", codes "7") ∷ ("total", codes "9") ∷ [];
  metadata = [];
}

abbrev pub store_owned : Owned store "orders" key target
store_owned = record {
  spec = orders;
  owner = codes "\"eu\"";
  configured = refl;
  named = refl;
  owned = refl;
  present = refl;
}

pub us_is_not_eu : json_string "us" ≢ codes "\"eu\""
unfolding json_string
us_is_not_eu e = ground (arith, e)

apply_events_batch-Owned_example :
    RowAfter
      (apply_events_batch
        (event Operation.upsert ∷ event Operation.delete ∷ [])
        ApplyMode.full_sync
        store)
      "orders"
      key
      target
apply_events_batch-Owned_example =
    apply_events_batch-Owned "orders" key target
      (event Operation.upsert ∷ event Operation.delete ∷ []) ApplyMode.full_sync store store_owned
      ((refl, us_is_not_eu), ((refl, us_is_not_eu), tt))

insert_only-RowAfter_example :
    RowAfter
      (apply_events_batch
        (event Operation.upsert ∷ event Operation.insert ∷ [])
        ApplyMode.insert_only
        store)
      "orders"
      key
      target
insert_only-RowAfter_example =
    insert_only-RowAfter "orders" key target (event Operation.upsert ∷ event Operation.insert ∷ [])
      store (refl, (refl, tt)) refl
