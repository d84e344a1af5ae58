-- ===== src/Outbox/Invariant.antt =====
-- What every sequence of statements keeps true of the outbox.
use transmogr.Base.{
  ℕ, suc, ◌+◌, ◌<◌, ◌≡◌, inl, inr, refl, Bool, false, not, List, [], ◌∷◌, ◌++◌, arith, All,
  All-append, All-keep, keep, ltb, string_eq, eq_iff, Result, ok, err, Bool-cases,
}
use transmogr.Base.Int.{ℤ, pos_part}
use transmogr.Models.Events.{OutboxBatch, last_event_id, BatchError, validate}
use transmogr.Models.State.{scope_eq}
use transmogr.Outbox.{
  OutboxDb, outbox_next_sequence, same_batch, has_batch, has_sequence, insert_batch, outbox_enqueue,
  enqueue_checked, outbox_ack, row_number, keep_newest, delete_old, delete_excess, outbox_cleanup,
  OutboxOp, next_sequence, enqueue, ack, cleanup, step, run,
}

-- The rows have increasing ids below the next one, and no two are for one peer, table and last event.
abbrev pub Differs : OutboxBatch → OutboxBatch → Type 0
Differs b x = (b.id < x.id) × (same_batch b.peer_region b.table (last_event_id b) x ≡ false)

abbrev pub Rows : ℕ → List OutboxBatch → Type 0
Rows next [] = Unit
Rows next (b ∷ bs) = (b.id < next) × All (Differs b) bs × Rows next bs

abbrev pub IsWellFormed : OutboxDb → Type 0
IsWellFormed db = Rows db.next_id db.rows

Rows-keep :
    (next : ℕ) (p : OutboxBatch → Bool) (bs : List OutboxBatch)
    → Rows next bs
    → Rows next (keep p bs)
Rows-keep next p [] h = tt
Rows-keep next p (b ∷ bs) h = elim (Bool-cases (p b)) [
  | inl e ↦ rw e (h.0, All-keep (Differs b) p bs h.1, Rows-keep next p bs h.2)
  | inr e ↦ rw e (Rows-keep next p bs h.2)
]

newest-All :
    (P : OutboxBatch → Type 0) (n : ℕ) (bs : List OutboxBatch) → All P bs → All P (keep_newest n bs)
unfolding keep_newest
newest-All P n [] h = tt
newest-All P n (b ∷ bs) h = elim (Bool-cases (ltb n (row_number b bs))) [
  | inl e ↦ rw e (newest-All P n bs h.1)
  | inr e ↦ rw e (h.0, newest-All P n bs h.1)
]

Rows-newest : (next n : ℕ) (bs : List OutboxBatch) → Rows next bs → Rows next (keep_newest n bs)
unfolding keep_newest
Rows-newest next n [] h = tt
Rows-newest next n (b ∷ bs) h = elim (Bool-cases (ltb n (row_number b bs))) [
  | inl e ↦ rw e (Rows-newest next n bs h.2)
  | inr e ↦ rw e (h.0, newest-All (Differs b) n bs h.1, Rows-newest next n bs h.2)
]

Rows-later : (next : ℕ) (bs : List OutboxBatch) → Rows next bs → Rows (suc next) bs
Rows-later next [] h = tt
Rows-later next (b ∷ bs) h = (omega (arith, h.0), h.1, Rows-later next bs h.2)

Rows-snoc :
    (next : ℕ) (bs : List OutboxBatch) (x : OutboxBatch)
    → x.id ≡ next
    → has_batch x.peer_region x.table (last_event_id x) bs ≡ false
    → Rows next bs
    → Rows (suc next) (bs ++ x ∷ [])
unfolding has_batch
Rows-snoc next [] x e n h = (omega (arith, e), tt, tt)
Rows-snoc next (b ∷ bs) x e n h = (
  omega (arith, h.0),
  All-append (Differs b) bs (x ∷ []) h.1 (
    (
      omega (arith, h.0, e),
      ground (
        arith,
        n,
        eq_iff b.peer_region x.peer_region,
        eq_iff x.peer_region b.peer_region,
        eq_iff b.table x.table,
        eq_iff x.table b.table,
        eq_iff (last_event_id b) (last_event_id x),
        eq_iff (last_event_id x) (last_event_id b),
      ),
    ),
    tt,
  ),
  Rows-snoc next bs x e (ground (arith, n)) h.2,
)

insert-IsWellFormed :
    (now : ℕ) (b : OutboxBatch) (db : OutboxDb)
    → IsWellFormed db
    → IsWellFormed (insert_batch now b db).0
unfolding insert_batch last_event_id
insert-IsWellFormed now b db h =
    elim (Bool-cases (has_batch b.peer_region b.table (last_event_id b) db.rows)) [
      | inl e ↦ rw e (Rows-later db.next_id db.rows h)
      | inr e ↦ elim (Bool-cases (has_sequence b.peer_region b.table b.sequence db.rows)) [
        | inl f ↦ rw (e, f) (Rows-later db.next_id db.rows h)
        | inr f ↦
            rw (e, f)
              (Rows-snoc db.next_id db.rows (record b { id = db.next_id; created_at = now }) refl e
                h)
      ]
    ]

checked-IsWellFormed :
    (now : ℕ) (b : OutboxBatch) (r : Result BatchError (Unit {0})) (db : OutboxDb)
    → IsWellFormed db
    → IsWellFormed (enqueue_checked now b r db).0
unfolding enqueue_checked
checked-IsWellFormed now b (err e) db h = h
checked-IsWellFormed now b (ok u) db h = insert-IsWellFormed now b db h

cleanup-rows :
    (now : ℕ) (age pending : ℤ) (next : ℕ) (rows : List OutboxBatch)
    → Rows next rows
    → Rows next (delete_excess pending (delete_old now age rows))
unfolding delete_excess delete_old
cleanup-rows now age pending next rows h = ground (
  arith,
  h,
  Rows-keep next (λ b. not (ltb (b.created_at + pos_part age) now)) rows,
  Rows-newest next (pos_part pending) rows,
  Rows-newest next (pos_part pending)
      (keep (λ b. not (ltb (b.created_at + pos_part age) now)) rows),
)

step-IsWellFormed : (op : OutboxOp) (db : OutboxDb) → IsWellFormed db → IsWellFormed (step op db)
unfolding step outbox_next_sequence outbox_ack outbox_cleanup outbox_enqueue
step-IsWellFormed (next_sequence k) db h = h
step-IsWellFormed (enqueue now b) db h = checked-IsWellFormed now b (validate b) db h
step-IsWellFormed (ack region table event_id) db h =
    Rows-keep db.next_id (λ b. not (same_batch region table event_id b)) db.rows h
step-IsWellFormed (cleanup now age pending) db h = cleanup-rows now age pending db.next_id db.rows h

-- Every sequence of statements keeps the outbox well formed: its rows stand in the order of their ids,
-- all below the next id, and no two rows have the same peer, table and last event.
pub run-IsWellFormed :
    (ops : List OutboxOp) (db : OutboxDb) → IsWellFormed db → IsWellFormed (run ops db)
unfolding run
run-IsWellFormed [] db h = h
run-IsWellFormed (op ∷ ops) db h = run-IsWellFormed ops (step op db) (step-IsWellFormed op db h)
