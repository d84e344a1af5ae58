-- ===== src/Outbox/Pending.antt =====
-- What stays pending, and the sequence numbers.
use transmogr.Base.{
  ℕ, ◌<◌, ◌≤◌, String, ◌≡◌, inl, inr, true, not, Option, none, some, List, [], ◌∷◌, ◌++◌, arith,
  All, keep, string_eq, eq_iff, Result, ok, err, Bool-cases,
}
use transmogr.Models.Events.{OutboxBatch, last_event_id, BatchError, validate}
use transmogr.Models.State.{Scope, scope_eq, scope_beq_iff}
use transmogr.Outbox.{
  OutboxDb, after_sequence, outbox_next_sequence, same_batch, has_batch, has_sequence, insert_batch,
  enqueue_checked, outbox_enqueue, outbox_ack, outbox_cleanup, OutboxOp, next_sequence, enqueue,
  ack, cleanup, step, run,
}

has-snoc :
    (region table event_id : String) (bs : List OutboxBatch) (x : OutboxBatch)
    → has_batch region table event_id bs ≡ true
    → has_batch region table event_id (bs ++ x ∷ []) ≡ true
unfolding has_batch
has-snoc region table event_id [] x h = cc
has-snoc region table event_id (b ∷ bs) x h = ground (arith, h, has-snoc region table event_id bs x)

pub has-last :
    (region table event_id : String) (bs : List OutboxBatch) (x : OutboxBatch)
    → same_batch region table event_id x ≡ true
    → has_batch region table event_id (bs ++ x ∷ []) ≡ true
unfolding has_batch
has-last region table event_id [] x h = ground (arith, h)
has-last region table event_id (b ∷ bs) x h = ground (arith, has-last region table event_id bs x h)

-- An acknowledgement of another batch.
abbrev pub IsOther : String → String → String → OutboxBatch → Type 0
IsOther r t e b = ¬ ((r ≡ b.peer_region) × (t ≡ b.table) × (e ≡ last_event_id b))

has-keep :
    (b : OutboxBatch) (r t e : String) (bs : List OutboxBatch)
    → IsOther r t e b
    → has_batch b.peer_region b.table (last_event_id b) bs ≡ true
    → has_batch b.peer_region b.table (last_event_id b) (keep (λ x. not (same_batch r t e x)) bs)
      ≡ true
unfolding has_batch
has-keep b r t e [] o h = h
has-keep b r t e (x ∷ xs) o h = ground (
  arith,
  h,
  has-keep b r t e xs o,
  eq_iff x.peer_region r,
  eq_iff x.table t,
  eq_iff (last_event_id x) e,
  eq_iff x.peer_region b.peer_region,
  eq_iff x.table b.table,
  eq_iff (last_event_id x) (last_event_id b),
)

-- The statement is neither the acknowledgement of this batch nor a cleanup.
abbrev pub IsHarmless : OutboxBatch → OutboxOp → Type 0
IsHarmless b (next_sequence k) = Unit
IsHarmless b (enqueue now x) = Unit
IsHarmless b (ack r t e) = IsOther r t e b
IsHarmless b (cleanup now age pending) = ⊥

abbrev pub IsPending : OutboxBatch → OutboxDb → Type 0
IsPending b db = has_batch b.peer_region b.table (last_event_id b) db.rows ≡ true

insert-IsPending :
    (now : ℕ) (x b : OutboxBatch) (db : OutboxDb)
    → IsPending b db
    → IsPending b (insert_batch now x db).0
unfolding insert_batch
insert-IsPending now x b db h =
    elim (Bool-cases (has_batch x.peer_region x.table (last_event_id x) db.rows)) [
      | inl e ↦ rw e h
      | inr e ↦ elim (Bool-cases (has_sequence x.peer_region x.table x.sequence db.rows)) [
        | inl f ↦ rw (e, f) h
        | inr f ↦ rw (e, f) (has-snoc _ _ _ db.rows _ h)
      ]
    ]

checked-IsPending :
    (now : ℕ) (x b : OutboxBatch) (r : Result BatchError (Unit {0})) (db : OutboxDb)
    → IsPending b db
    → IsPending b (enqueue_checked now x r db).0
unfolding enqueue_checked
checked-IsPending now x b (err e) db h = h
checked-IsPending now x b (ok u) db h = insert-IsPending now x b db h

pub run-IsPending :
    (b : OutboxBatch) (ops : List OutboxOp) (db : OutboxDb)
    → All (IsHarmless b) ops
    → IsPending b db
    → IsPending b (run ops db)
unfolding run step outbox_next_sequence outbox_enqueue outbox_ack
run-IsPending b [] db f h = h
run-IsPending b (next_sequence k ∷ ops) db f h = run-IsPending b ops _ f.1 h
run-IsPending b (enqueue now x ∷ ops) db f h =
    run-IsPending b ops _ f.1 (checked-IsPending now x b (validate x) db h)
run-IsPending b (ack r t e ∷ ops) db f h =
    run-IsPending b ops _ f.1 (has-keep b r t e db.rows f.0 h)
run-IsPending b (cleanup now age pending ∷ ops) db f h = absurd f.0

-- Numbers of one scope.
abbrev IsAtLeast : ℕ → Option ℕ → Type 0
IsAtLeast n none = ⊥
IsAtLeast n (some m) = n ≤ m

step-IsAtLeast :
    (k : Scope) (n : ℕ) (op : OutboxOp) (db : OutboxDb)
    → IsAtLeast n (db.sequences k)
    → IsAtLeast n ((step op db).sequences k)
unfolding step outbox_next_sequence outbox_enqueue enqueue_checked insert_batch outbox_ack
    outbox_cleanup after_sequence
step-IsAtLeast k n (next_sequence j) db h = ground (arith, h, scope_beq_iff j k)
step-IsAtLeast k n (enqueue now x) db h = ground (arith, h)
step-IsAtLeast k n (ack r t e) db h = h
step-IsAtLeast k n (cleanup now age pending) db h = h

run-IsAtLeast :
    (k : Scope) (n : ℕ) (ops : List OutboxOp) (db : OutboxDb)
    → IsAtLeast n (db.sequences k)
    → IsAtLeast n ((run ops db).sequences k)
unfolding run
run-IsAtLeast k n [] db h = h
run-IsAtLeast k n (op ∷ ops) db h = run-IsAtLeast k n ops (step op db) (step-IsAtLeast k n op db h)

-- Each number that a scope is given is larger than every earlier one, whatever happens between them.
pub next_sequence_increases :
    (k : Scope) (ops : List OutboxOp) (db : OutboxDb)
    → (outbox_next_sequence k db).1
      < (outbox_next_sequence k (run ops (outbox_next_sequence k db).0)).1
unfolding outbox_next_sequence after_sequence
next_sequence_increases k ops db =
    let n = (outbox_next_sequence k db).1 in
    let first : IsAtLeast n ((outbox_next_sequence k db).0.sequences k) =
      ground (arith, scope_beq_iff k k) in
    let later = run-IsAtLeast k n ops (outbox_next_sequence k db).0 first in ground (arith, later)
