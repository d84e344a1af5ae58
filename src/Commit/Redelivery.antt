-- ===== src/Commit/Redelivery.antt =====
-- At-least-once delivery: batches that arrive again, and the progress of the cursors.
use mathlib.Core.Path.{subst}
use transmogr.Base.{
  ◌≡◌, sym, refl, ◌∙◌, ap, true, none, some, List, [], ◌∷◌, All, Result, ok, err, ◌>>=◌,
}
use transmogr.Base.Order.{is_le, cmp_refl}
use transmogr.Models.Events.{ReplicationEvent, ApplyMode}
use transmogr.Models.State.{Scope, StateCursor}
use transmogr.Apply.Rows.{ApplyError}
use transmogr.Apply.Batches.{Store, apply_events_batch, apply_groups, group_events}
use transmogr.Commit.{Db, Cursors, commit_state_applied_transaction, with_tx}
use transmogr.Commit.Spec.{
  advance, advance_stored, ensure_all, commit_spec, commit-commit_spec, IsStable,
  advance_stored-advance,
}
use transmogr.Commit.Positions.{
  Position, IsTyped, cmp_position, cmp_position-Lawful, position, Reached, ReachedBy, IsTypedEvent,
  AllTyped, advance-Reached, ensure_all-Reached, ensure_all-AllTyped, ensure_all-HasRows,
  advance-ReachedBy, advance-nothing, ensure_all-nothing,
}

-- One attempt to apply a batch, and a history of attempts.
pub record Attempt : Type 0 where
  pub events : List ReplicationEvent
  pub mode : ApplyMode

abbrev pub attempt : Attempt → Db → Db
attempt a db = (commit_state_applied_transaction a.events a.mode db).0

abbrev pub attempts : List Attempt → Db → Db
attempts [] db = db
attempts (a ∷ as') db = attempts as' (attempt a db)

-- Keys are typed, and stored as they are.
abbrev pub IsTypedAttempt : Db → Attempt → Type 0
IsTypedAttempt db a = All IsTypedEvent a.events × All (IsStable db) a.events

with_tx-stored_key :
    (r : Result ApplyError Store) (t : Cursors) (db : Db)
    → (with_tx (r >>= λ store. ok (record db { store = store; cursors = t })) db).0.stored_key
      ≡ db.stored_key
unfolding with_tx
with_tx-stored_key (ok s) t db = refl
with_tx-stored_key (err e) t db = refl

attempt-stored_key : (a : Attempt) (db : Db) → (attempt a db).stored_key ≡ db.stored_key
unfolding commit_spec
attempt-stored_key a db =
    rw (attempt, commit-commit_spec a.events a.mode db)
      (with_tx-stored_key
        (apply_events_batch
          (advance_stored db.stored_key a.events (ensure_all a.events db.cursors)
            (ensure_all a.events db.cursors)).0
          a.mode db.store)
        (advance_stored db.stored_key a.events (ensure_all a.events db.cursors)
          (ensure_all a.events db.cursors)).1
        db)

stored-IsTyped :
    (a : Attempt) (as' : List Attempt) (db : Db)
    → All (IsTypedAttempt db) as'
    → All (IsTypedAttempt (attempt a db)) as'
stored-IsTyped a as' db h =
    subst
      (λ stored_key.
        All
          (λ (b : Attempt).
            All IsTypedEvent b.events
            × All (λ (e : ReplicationEvent). stored_key e.primary_key ≡ e.primary_key) b.events)
          as')
      (sym (attempt-stored_key a db)) h

-- What a property of the cursors needs to hold after an attempt.
module _ (P : Cursors → Type 0) where
  with_tx-cursors :
      (r : Result ApplyError Store) (t : Cursors) (db : Db)
      → P db.cursors
      → P t
      → P (with_tx (r >>= λ store. ok (record db { store = store; cursors = t })) db).0.cursors
  unfolding with_tx
  with_tx-cursors (ok s) t db h k = k
  with_tx-cursors (err e) t db h k = h

  with_tx-moved :
      (r : Result ApplyError Store) (t : Cursors) (db : Db)
      → P t
      → (with_tx (r >>= λ store. ok (record db { store = store; cursors = t })) db).1 ≡ none
      → P (with_tx (r >>= λ store. ok (record db { store = store; cursors = t })) db).0.cursors
  unfolding with_tx
  with_tx-moved (ok s) t db k e = k
  with_tx-moved (err x) t db k e = cc

  attempt-cursors :
      (a : Attempt) (db : Db)
      → All (IsStable db) a.events
      → P db.cursors
      → P (advance a.events (ensure_all a.events db.cursors)).1
      → P (attempt a db).cursors
  unfolding commit_spec
  attempt-cursors a db stable h k =
      rw
        (
          attempt,
          commit-commit_spec a.events a.mode db,
          advance_stored-advance db a.events (ensure_all a.events db.cursors) stable,
        )
        (with_tx-cursors (apply_events_batch _ a.mode db.store) _ db h k)

  attempt-moved :
      (a : Attempt) (db : Db)
      → All (IsStable db) a.events
      → P (advance a.events (ensure_all a.events db.cursors)).1
      → (commit_state_applied_transaction a.events a.mode db).1 ≡ none
      → P (attempt a db).cursors
  unfolding commit_spec
  attempt-moved a db stable k e =
      let faithful = advance_stored-advance db a.events (ensure_all a.events db.cursors) stable in
      rw (attempt, commit-commit_spec a.events a.mode db, faithful)
        (with_tx-moved (apply_events_batch _ a.mode db.store) _ db k
          (rw (commit-commit_spec a.events a.mode db, faithful) at e))

attempts-Reached :
    (as' : List Attempt) (db : Db) (k : Scope) (p : Position)
    → All (IsTypedAttempt db) as'
    → IsTyped p
    → Reached db.cursors k p
    → Reached (attempts as' db).cursors k p
attempts-Reached [] db k p h tp r = r
attempts-Reached (a ∷ as') db k p h tp r =
    attempts-Reached as' (attempt a db) k p (stored-IsTyped a as' db h.1) tp (
      attempt-cursors (λ t. Reached t k p) a db h.0.1 r
        (advance-Reached a.events _ k p h.0.0 tp (ensure_all-Reached a.events db.cursors k p r)))

-- A cursor never moves back: whatever batches are attempted, with typed keys that the database gives
-- back as they were saved, and whether or not they fail, a cursor of the table stays in it, at its
-- position or a later one.
pub attempts_never_move_back :
    (as' : List Attempt) (db : Db) (k : Scope) (c : StateCursor)
    → All (IsTypedAttempt db) as'
    → AllTyped db.cursors
    → db.cursors k ≡ some c
    → (d : StateCursor) × ((attempts as' db).cursors k ≡ some d)
      × (is_le (cmp_position (position c) (position d)) ≡ true)
attempts_never_move_back as' db k c h typed there =
    let start : Reached db.cursors k (position c) = record {
      cursor = c;
      row = there;
      typed = typed k c there;
      reached = ap is_le (cmp_refl cmp_position-Lawful (position c) (typed k c there));
    } in
    let r = attempts-Reached as' db k (position c) h (typed k c there) start in
    (r.cursor, r.row, r.reached)

All-attempts-ReachedBy :
    (as' : List Attempt) (db : Db) (es : List ReplicationEvent)
    → All (IsTypedAttempt db) as'
    → All IsTypedEvent es
    → All (ReachedBy db.cursors) es
    → All (ReachedBy (attempts as' db).cursors) es
All-attempts-ReachedBy as' db [] h f r = tt
All-attempts-ReachedBy as' db (e ∷ es) h f r =
    (attempts-Reached as' db _ _ h f.0 r.0, All-attempts-ReachedBy as' db es h f.1 r.1)

attempts-IsStable :
    (as' : List Attempt) (db : Db) (es : List ReplicationEvent)
    → All (IsStable db) es
    → All (IsStable (attempts as' db)) es
attempts-IsStable [] db es h = h
attempts-IsStable (a ∷ as') db es h = attempts-IsStable as' (attempt a db) es (
    subst
      (λ stored_key. All (λ (e : ReplicationEvent). stored_key e.primary_key ≡ e.primary_key) es)
      (sym (attempt-stored_key a db)) h)

redelivered :
    (es : List ReplicationEvent) (mode : ApplyMode) (db : Db)
    → All (IsStable db) es
    → All (ReachedBy db.cursors) es
    → with_tx (commit_spec es mode db) db ≡ (db, none)
unfolding commit_spec with_tx apply_events_batch apply_groups group_events
redelivered es mode db stable r =
    rw
      (
        ensure_all-nothing es db.cursors r,
        advance_stored-advance db es db.cursors stable,
        advance-nothing es db.cursors r,
      )
      refl

-- A batch that was committed can arrive again at any time: once a batch has been applied, and after
-- any further attempts, in any order and whether or not they fail, applying it again succeeds, in any
-- mode, and changes neither the application tables nor the cursors. Keys are typed, and the database
-- gives them back as they were saved, which a JSONB column does not do for every text.
pub commit_redelivered :
    (a : Attempt) (as' : List Attempt) (mode : ApplyMode) (db : Db)
    → IsTypedAttempt db a
    → All (IsTypedAttempt db) as'
    → AllTyped db.cursors
    → (commit_state_applied_transaction a.events a.mode db).1 ≡ none
    → commit_state_applied_transaction a.events mode (attempts as' (attempt a db))
      ≡ (attempts as' (attempt a db), none)
commit_redelivered a as' mode db f h typed success =
    let es = a.events in
    let first : All (ReachedBy (attempt a db).cursors) es =
      attempt-moved (λ t. All (ReachedBy t) es) a db f.1
        (advance-ReachedBy es (ensure_all es db.cursors) f.0
          (ensure_all-AllTyped es db.cursors typed) (ensure_all-HasRows es db.cursors))
        success in
    let later = stored-IsTyped a as' db h in
    commit-commit_spec es mode (attempts as' (attempt a db))
    ∙ redelivered es mode (attempts as' (attempt a db))
        (attempts-IsStable as' (attempt a db) es (stored-IsTyped a (a ∷ []) db (f, tt)).0.1)
        (All-attempts-ReachedBy as' (attempt a db) es later f.0 first)
