-- ===== src/Outbox.antt =====
-- internal/repository/postgres/outbox.go: the tables `outbound_sequences` and `outbound_batches`. The
-- rows of the latter stand in the order of their ids, which a serial gives out; an INSERT that meets a
-- conflict uses its id up. The events of a row are stored as JSON, which gives them back, and the last
-- event id of the row is that of its events. The database answers, and is read by one clock.
pub mod Invariant
pub mod Paging
pub mod Pending
pub mod Stored
pub mod Retention
pub mod Service
pub mod Delivery
use transmogr.Base.{
  ℕ, suc, ◌+◌, ◌-◌, String, Bool, true, false, not, ◌&&◌, ◌||◌, Option, none, some, List, [], ◌∷◌,
  ◌++◌, keep, take, length, ltb, leb, nat_beq, if◌then◌else◌, ◌==◌, string_eq, Result, ok, err,
}
use transmogr.Base.Int.{ℤ, pos, pos_part, leb_ℤ}
use transmogr.Base.Tables.{Table, put}
use transmogr.Models.Events.{OutboxBatch, last_event_id, BatchError, validate}
use transmogr.Models.State.{Scope, scope_eq}

pub record OutboxDb : Type 0 where
  pub sequences : Table Scope ℕ
  pub rows : List OutboxBatch
  pub next_id : ℕ

-- INSERT … 1 … ON CONFLICT DO UPDATE SET next_sequence = next_sequence + 1 RETURNING next_sequence
after_sequence : Option ℕ → ℕ
after_sequence none = 1
after_sequence (some n) = n + 1

unfoldable pub outbox_next_sequence : Scope → OutboxDb → OutboxDb × ℕ
unfolding after_sequence
outbox_next_sequence k db =
    let n = after_sequence (db.sequences k) in (record db { sequences = put k n db.sequences }, n)

-- The key of the unique index.
abbrev pub same_batch : String → String → String → OutboxBatch → Bool
same_batch region table event_id b =
    b.peer_region == region && b.table == table && last_event_id b == event_id

unfoldable pub has_batch : String → String → String → List OutboxBatch → Bool
has_batch region table event_id [] = false
has_batch region table event_id (b ∷ bs) =
    let rest = has_batch region table event_id bs in
    if same_batch region table event_id b then true else rest

-- The primary key (peer_region, table_name, sequence).
unfoldable pub has_sequence : String → String → ℕ → List OutboxBatch → Bool
has_sequence region table sequence [] = false
has_sequence region table sequence (b ∷ bs) =
    let rest = has_sequence region table sequence bs in
    if b.peer_region == region && b.table == table && nat_beq b.sequence sequence
    then true
    else rest

-- ON CONFLICT names the unique index, which is looked at first; a violation of the primary key is an
-- error. Each uses an id up.
insert_batch : ℕ → OutboxBatch → OutboxDb → OutboxDb × Result BatchError (Option OutboxBatch)
unfolding has_batch has_sequence
insert_batch now b db =
    let stored = record b { id = db.next_id; created_at = now } in
    if has_batch b.peer_region b.table (last_event_id b) db.rows
    then (record db { next_id = suc db.next_id }, ok none)
    else if has_sequence b.peer_region b.table b.sequence db.rows
    then (record db { next_id = suc db.next_id }, err BatchError.sequence_taken)
    else (record db { rows = db.rows ++ stored ∷ []; next_id = suc db.next_id }, ok (some stored))

-- `none` is a batch that was there already.
enqueue_checked :
    ℕ
    → OutboxBatch
    → Result BatchError (Unit {0})
    → OutboxDb
    → OutboxDb × Result BatchError (Option OutboxBatch)
unfolding insert_batch
enqueue_checked now b (err e) db = (db, err e)
enqueue_checked now b (ok u) db = insert_batch now b db

unfoldable pub outbox_enqueue :
    ℕ → OutboxBatch → OutboxDb → OutboxDb × Result BatchError (Option OutboxBatch)
unfolding enqueue_checked
outbox_enqueue now b db = enqueue_checked now b (validate b) db

unfoldable pub outbox_list_pending : String → ℤ → OutboxDb → List OutboxBatch
outbox_list_pending region limit db =
    let found = keep (λ b. b.peer_region == region) db.rows in
    if leb_ℤ limit (pos 0) then found else take (pos_part limit) found

-- The WHERE clause of a window; a bound of zero is Go's zero time, and no bound.
abbrev pub in_window : String → ℕ → ℕ → OutboxBatch → Bool
in_window region lower upper b =
    b.peer_region == region
    && (nat_beq lower 0 || ltb lower b.created_at)
    && (nat_beq upper 0 || leb b.created_at upper)

abbrev pub page_size : ℤ → ℕ
page_size limit = if leb_ℤ limit (pos 0) then 256 else pos_part limit

unfoldable pub outbox_list_pending_window : String → ℕ → ℕ → ℕ → ℤ → OutboxDb → List OutboxBatch
outbox_list_pending_window region lower upper after_id limit db =
    take (page_size limit) (keep (λ b. in_window region lower upper b && ltb after_id b.id) db.rows)

unfoldable pub outbox_ack : String → String → String → OutboxDb → OutboxDb × Bool
unfolding has_batch
outbox_ack region table event_id db = (
  record db { rows = keep (λ b. not (same_batch region table event_id b)) db.rows },
  has_batch region table event_id db.rows,
)

-- row_number() OVER (PARTITION BY peer_region ORDER BY id DESC), of the row before `later`
unfoldable pub row_number : OutboxBatch → List OutboxBatch → ℕ
row_number b later = suc (length (keep (λ x. x.peer_region == b.peer_region) later))

unfoldable pub keep_newest : ℕ → List OutboxBatch → List OutboxBatch
unfolding row_number
keep_newest n [] = []
keep_newest n (b ∷ bs) =
    let rest = keep_newest n bs in if ltb n (row_number b bs) then rest else b ∷ rest

unfoldable pub delete_old : ℕ → ℤ → List OutboxBatch → List OutboxBatch
delete_old now max_age rows =
    if leb_ℤ max_age (pos 0)
    then rows
    else keep (λ b. not (ltb (b.created_at + pos_part max_age) now)) rows

unfoldable pub delete_excess : ℤ → List OutboxBatch → List OutboxBatch
unfolding keep_newest
delete_excess max_pending rows =
    if leb_ℤ max_pending (pos 0) then rows else keep_newest (pos_part max_pending) rows

-- The counts of the two DELETE statements, by age and by number.
unfoldable pub outbox_cleanup : ℕ → ℤ → ℤ → OutboxDb → OutboxDb × ℕ × ℕ
unfolding delete_old delete_excess
outbox_cleanup now max_age max_pending db =
    let young = delete_old now max_age db.rows in
    let kept = delete_excess max_pending young in
    (record db { rows = kept }, length db.rows - length young, length young - length kept)

-- COUNT(*) and the age of the oldest row.
unfoldable pub oldest : List OutboxBatch → Option ℕ
oldest [] = none
oldest (b ∷ bs) =
    let rest = oldest bs in
    elim rest [
      | none ↦ some b.created_at
      | some t ↦ some (if ltb b.created_at t then b.created_at else t)
    ]

unfoldable pub outbox_load_metrics_snapshot : ℕ → OutboxDb → ℕ × ℕ
unfolding oldest
outbox_load_metrics_snapshot now db =
    (length db.rows, elim (oldest db.rows) [ none ↦ 0 | some t ↦ now - t ])

-- A statement of some caller, and a history of them.
pub data OutboxOp : Type 0 where
  next_sequence : Scope → OutboxOp
  enqueue : ℕ → OutboxBatch → OutboxOp
  ack : String → String → String → OutboxOp
  cleanup : ℕ → ℤ → ℤ → OutboxOp

unfoldable pub step : OutboxOp → OutboxDb → OutboxDb
step (next_sequence k) db = (outbox_next_sequence k db).0
step (enqueue now b) db = (outbox_enqueue now b db).0
step (ack region table event_id) db = (outbox_ack region table event_id db).0
step (cleanup now age pending) db = (outbox_cleanup now age pending db).0

unfoldable pub run : List OutboxOp → OutboxDb → OutboxDb
run [] db = db
run (op ∷ ops) db = run ops (step op db)
