-- ===== src/Outbox/Delivery.antt =====
-- What a call of the service leaves pending in the repository.
use mathlib.Core.Path.{subst}
use transmogr.Base.{
  ℕ, String, ◌≡◌, ◌⊎◌, refl, sym, ◌∙◌, true, Option, none, some, List, [], ◌∷◌, ◌++◌, All, arith,
  eq_iff, beq_refl, Bool-cases, inl, inr, Result, ok, err,
}
use transmogr.Models.Events.{ReplicationEvent, OutboxBatch, last_event_id, BatchError, validate}
use transmogr.Outbox.{
  OutboxDb, enqueue, step, run, same_batch, has_batch, has_sequence, insert_batch, enqueue_checked,
  outbox_enqueue,
}
use transmogr.Outbox.Pending.{IsPending, run-IsPending, has-last}
use transmogr.Outbox.Service.{State, published, enqueue_batch}

published-db :
    (s : State) (r : OutboxDb × Result BatchError (Option OutboxBatch)) → (published s r).0.db ≡ r.0
unfolding published
published-db s (db, err e) = refl
published-db s (db, ok none) = refl
published-db s (db, ok (some b)) = refl

pub enqueue_keeps :
    (now : ℕ) (b x : OutboxBatch) (s : State)
    → IsPending x s.db
    → IsPending x (enqueue_batch now b s).0.db
unfolding enqueue_batch run step
enqueue_keeps now b x s h =
    subst (IsPending x) (sym (published-db s (outbox_enqueue now b s.db)))
      (run-IsPending x (enqueue now b ∷ []) s.db (tt, tt) h)

inserted-IsPending :
    (now : ℕ) (b : OutboxBatch) (s : State)
    → (published s (insert_batch now b s.db)).1 ≡ none
    → IsPending b (insert_batch now b s.db).0
unfolding insert_batch last_event_id published
inserted-IsPending now b s h =
    elim (Bool-cases (has_batch b.peer_region b.table (last_event_id b) s.db.rows)) [
      | inl e ↦ rw e e
      | inr e ↦ elim (Bool-cases (has_sequence b.peer_region b.table b.sequence s.db.rows)) [
        | inl f ↦ absurd (ground (arith, e, f, h))
        | inr f ↦
            rw (e, f)
              (has-last b.peer_region b.table (last_event_id b) s.db.rows
                (record b { id = s.db.next_id; created_at = now })
                (rw (beq_refl b.peer_region, beq_refl b.table, beq_refl (last_event_id b)) refl))
      ]
    ]

checked-IsPending :
    (now : ℕ) (b : OutboxBatch) (s : State) (v : Result BatchError (Unit {0}))
    → (published s (enqueue_checked now b v s.db)).1 ≡ none
    → IsPending b (enqueue_checked now b v s.db).0
unfolding published enqueue_checked
checked-IsPending now b s (err e) h = cc
checked-IsPending now b s (ok u) h = inserted-IsPending now b s h

pub enqueue_succeeds :
    (now : ℕ) (b : OutboxBatch) (s : State)
    → (enqueue_batch now b s).1 ≡ none
    → IsPending b (enqueue_batch now b s).0.db
unfolding enqueue_batch outbox_enqueue
enqueue_succeeds now b s h =
    subst (IsPending b) (sym (published-db s (outbox_enqueue now b s.db)))
      (checked-IsPending now b s (validate b) h)

-- A row with the key of the batch, and with its events.
abbrev pub IsHeld : OutboxBatch → List OutboxBatch → Type 0
IsHeld b [] = ⊥
IsHeld b (x ∷ xs) =
    ((same_batch b.peer_region b.table (last_event_id b) x ≡ true) × (x.events ≡ b.events))
    ⊎ IsHeld b xs

-- The events that a key stands for: of two batches with one key, neither can stand for the other
-- unless they carry the same events.
abbrev pub Content : Type 0
Content = String → String → String → List ReplicationEvent

module _ (content : Content) where
  abbrev pub IsTold : OutboxBatch → Type 0
  IsTold b = content b.peer_region b.table (last_event_id b) ≡ b.events

  IsTold-snoc :
      (bs : List OutboxBatch) (x : OutboxBatch)
      → All IsTold bs
      → IsTold x
      → All IsTold (bs ++ x ∷ [])
  IsTold-snoc [] x h t = (t, tt)
  IsTold-snoc (b ∷ bs) x h t = (h.0, IsTold-snoc bs x h.1 t)

  inserted-IsTold :
      (now : ℕ) (b : OutboxBatch) (db : OutboxDb)
      → All IsTold db.rows
      → IsTold b
      → All IsTold (insert_batch now b db).0.rows
  unfolding insert_batch last_event_id
  inserted-IsTold now b db h t =
      elim (Bool-cases (has_batch b.peer_region b.table (last_event_id b) db.rows)) [
        | inl e ↦ rw e h
        | inr e ↦ elim (Bool-cases (has_sequence b.peer_region b.table b.sequence db.rows)) [
          | inl f ↦ rw (e, f) h
          | inr f ↦
              rw (e, f) (IsTold-snoc db.rows (record b { id = db.next_id; created_at = now }) h t)
        ]
      ]

  checked-IsTold :
      (now : ℕ) (b : OutboxBatch) (db : OutboxDb) (v : Result BatchError (Unit {0}))
      → All IsTold db.rows
      → IsTold b
      → All IsTold (enqueue_checked now b v db).0.rows
  unfolding enqueue_checked
  checked-IsTold now b db (err e) h t = h
  checked-IsTold now b db (ok u) h t = inserted-IsTold now b db h t

  pub enqueue-IsTold :
      (now : ℕ) (b : OutboxBatch) (s : State)
      → All IsTold s.db.rows
      → IsTold b
      → All IsTold (enqueue_batch now b s).0.db.rows
  unfolding enqueue_batch outbox_enqueue
  enqueue-IsTold now b s h t =
      subst (λ (db : OutboxDb). All IsTold db.rows)
        (sym (published-db s (outbox_enqueue now b s.db)))
        (checked-IsTold now b s.db (validate b) h t)

  same-content :
      (b x : OutboxBatch)
      → same_batch b.peer_region b.table (last_event_id b) x ≡ true
      → content x.peer_region x.table (last_event_id x)
        ≡ content b.peer_region b.table (last_event_id b)
  same-content b x h = ground (
    arith,
    h,
    eq_iff x.peer_region b.peer_region,
    eq_iff x.table b.table,
    eq_iff (last_event_id x) (last_event_id b),
  )

  held :
      (b : OutboxBatch) (rows : List OutboxBatch)
      → has_batch b.peer_region b.table (last_event_id b) rows ≡ true
      → All IsTold rows
      → IsTold b
      → IsHeld b rows
  unfolding has_batch
  held b [] h told t = cc
  held b (x ∷ xs) h told t =
      elim (Bool-cases (same_batch b.peer_region b.table (last_event_id b) x)) [
        | inl e ↦ inl (e, sym told.0 ∙ same-content b x e ∙ t)
        | inr e ↦ inr (held b xs (rw e at h) told.1 t)
      ]

  pub IsPending-IsHeld :
      (b : OutboxBatch) (db : OutboxDb)
      → IsPending b db
      → All IsTold db.rows
      → IsTold b
      → IsHeld b db.rows
  IsPending-IsHeld b db h told t = held b db.rows h told t
