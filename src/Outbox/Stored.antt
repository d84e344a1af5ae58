-- ===== src/Outbox/Stored.antt =====
-- What an enqueueing answers, and how long what it stored stays.
use transmogr.Base.{
  ℕ, String, ◌≡◌, ◌⊎◌, ◌∙◌, ap, suc, inl, inr, refl, true, false, not, Option, none, some, List, [],
  ◌∷◌, ◌++◌, arith, All, keep, string_eq, eq_iff, Result, ok, err, Bool-cases,
}
use transmogr.Models.Events.{OutboxBatch, last_event_id, BatchError, validate}
use transmogr.Models.State.{scope_eq}
use transmogr.Outbox.{
  OutboxDb, outbox_next_sequence, same_batch, has_batch, has_sequence, insert_batch,
  enqueue_checked, outbox_enqueue, outbox_ack, OutboxOp, next_sequence, enqueue, ack, cleanup, step,
  run,
}
use transmogr.Outbox.Pending.{IsOther, IsHarmless}

stored-IsHarmless :
    (now : ℕ) (b : OutboxBatch) (db : OutboxDb) (ops : List OutboxOp)
    → All (IsHarmless b) ops
    → All (IsHarmless (record b { id = db.next_id; created_at = now })) ops
unfolding last_event_id
stored-IsHarmless now b db [] f = tt
stored-IsHarmless now b db (next_sequence k ∷ ops) f = (tt, stored-IsHarmless now b db ops f.1)
stored-IsHarmless now b db (enqueue t x ∷ ops) f = (tt, stored-IsHarmless now b db ops f.1)
stored-IsHarmless now b db (ack r t e ∷ ops) f = (f.0, stored-IsHarmless now b db ops f.1)
stored-IsHarmless now b db (cleanup t age pending ∷ ops) f =
    (f.0, stored-IsHarmless now b db ops f.1)

-- A row of this content is there.
abbrev pub IsStored : OutboxBatch → List OutboxBatch → Type 0
IsStored b [] = ⊥
IsStored b (x ∷ xs) = (x ≡ b) ⊎ IsStored b xs

IsStored-snoc :
    (b x : OutboxBatch) (bs : List OutboxBatch) → IsStored b bs → IsStored b (bs ++ x ∷ [])
IsStored-snoc b x [] h = absurd h
IsStored-snoc b x (y ∷ ys) (inl e) = inl e
IsStored-snoc b x (y ∷ ys) (inr h) = inr (IsStored-snoc b x ys h)

IsStored-last : (x : OutboxBatch) (bs : List OutboxBatch) → IsStored x (bs ++ x ∷ [])
IsStored-last x [] = inl refl
IsStored-last x (y ∷ ys) = inr (IsStored-last x ys)

other_key : (r t e : String) (b : OutboxBatch) → IsOther r t e b → same_batch r t e b ≡ false
other_key r t e b o =
    ground (arith, o, eq_iff b.peer_region r, eq_iff b.table t, eq_iff (last_event_id b) e)

IsStored-keep :
    (b : OutboxBatch) (r t e : String) (bs : List OutboxBatch)
    → IsOther r t e b
    → IsStored b bs
    → IsStored b (keep (λ x. not (same_batch r t e x)) bs)
IsStored-keep b r t e [] o h = h
IsStored-keep b r t e (x ∷ xs) o (inl same) =
    let kept : same_batch r t e x ≡ false = ap (same_batch r t e) same ∙ other_key r t e b o in
    rw kept (inl same)
IsStored-keep b r t e (x ∷ xs) o (inr h) = elim (Bool-cases (same_batch r t e x)) [
  | inl p ↦ rw p (IsStored-keep b r t e xs o h)
  | inr p ↦ rw p (inr (IsStored-keep b r t e xs o h))
]

insert-IsStored :
    (now : ℕ) (x b : OutboxBatch) (db : OutboxDb)
    → IsStored b db.rows
    → IsStored b (insert_batch now x db).0.rows
unfolding insert_batch
insert-IsStored now x b db h =
    elim (Bool-cases (has_batch x.peer_region x.table (last_event_id x) db.rows)) [
      | inl e ↦ rw e h
      | inr e ↦ elim (Bool-cases (has_sequence x.peer_region x.table x.sequence db.rows)) [
        | inl f ↦ rw (e, f) h
        | inr f ↦ rw (e, f) (IsStored-snoc b _ db.rows h)
      ]
    ]

checked-IsStored :
    (now : ℕ) (x b : OutboxBatch) (r : Result BatchError (Unit {0})) (db : OutboxDb)
    → IsStored b db.rows
    → IsStored b (enqueue_checked now x r db).0.rows
unfolding enqueue_checked
checked-IsStored now x b (err e) db h = h
checked-IsStored now x b (ok u) db h = insert-IsStored now x b db h

run-IsStored :
    (b : OutboxBatch) (ops : List OutboxOp) (db : OutboxDb)
    → All (IsHarmless b) ops
    → IsStored b db.rows
    → IsStored b (run ops db).rows
unfolding run step outbox_next_sequence outbox_enqueue outbox_ack
run-IsStored b [] db f h = h
run-IsStored b (next_sequence k ∷ ops) db f h = run-IsStored b ops _ f.1 h
run-IsStored b (enqueue now x ∷ ops) db f h =
    run-IsStored b ops _ f.1 (checked-IsStored now x b (validate x) db h)
run-IsStored b (ack r t e ∷ ops) db f h =
    run-IsStored b ops _ f.1 (IsStored-keep b r t e db.rows f.0 h)
run-IsStored b (cleanup now age pending ∷ ops) db f h = absurd f.0

-- What an enqueueing answers, and what it leaves.
abbrev pub stored_as : ℕ → OutboxBatch → OutboxDb → OutboxBatch
stored_as now b db = record b { id = db.next_id; created_at = now }

-- The batch is stored as it is; or its key is there already; or it is refused and nothing is stored.
abbrev pub Answered :
    ℕ
    → OutboxBatch
    → OutboxDb
    → List OutboxBatch
    → OutboxDb × Result BatchError (Option OutboxBatch)
    → Type 0
Answered now b db later (db', ok (some x)) = (x ≡ stored_as now b db) × IsStored x later
Answered now b db later (db', ok none) =
    (has_batch b.peer_region b.table (last_event_id b) db.rows ≡ true) × (db'.rows ≡ db.rows)
Answered now b db later (db', err e) =
    ((¬ (validate b ≡ ok tt)) ⊎ (has_sequence b.peer_region b.table b.sequence db.rows ≡ true))
    × (db'.rows ≡ db.rows)

inserted-Answered :
    (now : ℕ) (b : OutboxBatch) (ops : List OutboxOp) (db : OutboxDb)
    → All (IsHarmless b) ops
    → Answered now b db (run ops (insert_batch now b db).0).rows (insert_batch now b db)
unfolding insert_batch
inserted-Answered now b ops db f =
    elim (Bool-cases (has_batch b.peer_region b.table (last_event_id b) db.rows)) [
      | inl e ↦ rw e (e, refl)
      | inr e ↦ elim (Bool-cases (has_sequence b.peer_region b.table b.sequence db.rows)) [
        | inl p ↦ rw (e, p) (inr p, refl)
        | inr p ↦
            rw (e, p)
              (
                refl,
                run-IsStored (stored_as now b db) ops
                    (record db {
                      rows = db.rows ++ stored_as now b db ∷ [];
                      next_id = suc db.next_id;
                    })
                    (stored-IsHarmless now b db ops f) (IsStored-last (stored_as now b db) db.rows),
              )
      ]
    ]

-- `enqueue` answers truly, and what it stored stays. Where it answers with a row, that row is the
-- batch with all its events, and is in the outbox whatever else is enqueued, numbered and
-- acknowledged, until an acknowledgement of its own key or a cleanup. Where it answers with none, a
-- batch of its key was there, and with an error, the batch is not valid or its sequence number is
-- taken; then the rows are as before.
pub enqueued_stays-Answered :
    (now : ℕ) (b : OutboxBatch) (ops : List OutboxOp) (db : OutboxDb)
    → All (IsHarmless b) ops
    → Answered now b db (run ops (outbox_enqueue now b db).0).rows (outbox_enqueue now b db)
unfolding outbox_enqueue enqueue_checked
enqueued_stays-Answered now b ops db f = answered (validate b) refl
  where
    answered :
        (v : Result BatchError (Unit {0}))
        → validate b ≡ v
        → Answered now b db
            (run ops (enqueue_checked now b v db).0).rows
            (enqueue_checked now b v db)
    answered (err e) h = (inl (λ g. cc), refl)
    answered (ok u) h = inserted-Answered now b ops db f
