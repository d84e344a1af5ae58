-- ===== src/Commit/Spec.antt =====
-- The contract of the transaction: the events in order, each skipped where it is not after its cursor.
use transmogr.Base.{
  ◌≡◌, ◌⊎◌, inl, inr, refl, sym, ◌∙◌, ap, fun_ext, true, false, Option, none, some, List, [], ◌∷◌,
  ◌++◌, arith, All, if◌then◌else◌, ◌==◌, Result, ok, ◌>>=◌, Bool-cases,
}
use mathlib.Core.Path.{subst}
use mathlib.Core.List.{append_assoc, append-nil}
use transmogr.Base.Tables.{put, no_rows}
use transmogr.Models.Events.{ReplicationEvent, ApplyMode}
use transmogr.Models.PrimaryKey.{PrimaryKey}
use transmogr.Models.State.{Scope, scope_eq, scope_beq_iff, StateCursor}
use transmogr.Apply.Rows.{ApplyError}
use transmogr.Apply.Batches.{scope_of, apply_events_batch}
use transmogr.Commit.{
  Db, Cursors, Scan, ensured, ensure_cursor_row, or_first, or_kept, get_state_cursor,
  get_state_cursor_for_update, lock_new, lock_cursors, stale_at, cursor_at, as_stored, visit, scan,
  save_final_cursors, commit_body, commit_state_applied_transaction, with_tx,
}

-- A row for each scope of the batch.
unfoldable pub ensure_all : List ReplicationEvent → Cursors → Cursors
ensure_all [] t = t
ensure_all (e ∷ es) t = ensure_all es (ensure_cursor_row (scope_of e) t)

-- One event after the other: the events that count, and the cursors that they leave.
unfoldable pub advance : List ReplicationEvent → Cursors → List ReplicationEvent × Cursors
advance [] t = ([], t)
advance (e ∷ es) t =
    if stale_at e (t (scope_of e))
    then advance es t
    else (let (later, t') = advance es (put (scope_of e) (cursor_at e) t) in (e ∷ later, t'))

-- The same, with the table beside the cursors in memory: events are compared with the latter, and the
-- former gets each key as it is stored.
unfoldable pub advance_stored :
    (PrimaryKey → PrimaryKey)
    → List ReplicationEvent
    → Cursors
    → Cursors
    → List ReplicationEvent × Cursors
advance_stored stored_key [] t saved = ([], saved)
advance_stored stored_key (e ∷ es) t saved =
    if stale_at e (t (scope_of e))
    then advance_stored stored_key es t saved
    else (let (later, saved') =
          advance_stored stored_key es (put (scope_of e) (cursor_at e) t)
            (put (scope_of e) (as_stored stored_key (cursor_at e)) saved) in
        (e ∷ later, saved'))

unfoldable pub commit_spec : List ReplicationEvent → ApplyMode → Db → Result ApplyError Db
unfolding advance_stored ensure_all
commit_spec es mode db =
    let t = ensure_all es db.cursors in
    let (fresh, saved) = advance_stored db.stored_key es t t in
    apply_events_batch fresh mode db.store >>= λ store.
    ok (record db { store = store; cursors = saved })

-- A key that the database gives back as it was saved.
abbrev pub IsStable : Db → ReplicationEvent → Type 0
IsStable db e = db.stored_key e.primary_key ≡ e.primary_key

pub advance_stored-advance :
    (db : Db) (es : List ReplicationEvent) (t : Cursors)
    → All (IsStable db) es
    → advance_stored db.stored_key es t t ≡ advance es t
unfolding advance_stored advance
advance_stored-advance db [] t h = refl
advance_stored-advance db (e ∷ es) t h = elim (Bool-cases (stale_at e (t (scope_of e)))) [
  | inl p ↦ rw p (advance_stored-advance db es t h.1)
  | inr p ↦ rw (p, h.0, advance_stored-advance db es (put (scope_of e) (cursor_at e) t) h.1) refl
]

-- The map of locked cursors shows what the table holds, and its rows are never blank.
abbrev Agrees : Cursors × Cursors → Type 0
Agrees s = (k : Scope) → (s.1 k ≡ none) ⊎ ((s.1 k ≡ s.0 k) × ((c : StateCursor) × (s.1 k ≡ some c)))

ensured-row :
    (k : Scope) (o : Option StateCursor) (t : Cursors)
    → t k ≡ o
    → ensured k o t k ≡ some (or_first k o)
unfolding ensured or_first
ensured-row k none t e = ground (arith, scope_beq_iff k k)
ensured-row k (some c) t e = e

ensured-other :
    (k j : Scope) (o : Option StateCursor) (t : Cursors) (c : StateCursor)
    → t k ≡ o
    → t j ≡ some c
    → ensured k o t j ≡ some c
unfolding ensured
ensured-other k j none t c e h = ground (arith, scope_beq_iff k j)
ensured-other k j (some d) t c e h = h

pub ensure-row : (k : Scope) (t : Cursors) → (c : StateCursor) × (ensure_cursor_row k t k ≡ some c)
unfolding ensure_cursor_row
ensure-row k t = (or_first k (t k), ensured-row k (t k) t refl)

pub ensure-keeps :
    (k j : Scope) (t : Cursors) (c : StateCursor) → t j ≡ some c → ensure_cursor_row k t j ≡ some c
unfolding ensure_cursor_row
ensure-keeps k j t c h = ensured-other k j (t k) t c refl h

pub ensure-known :
    (k : Scope) (t : Cursors) (c : StateCursor) → t k ≡ some c → ensure_cursor_row k t ≡ t
unfolding ensure_cursor_row ensured
ensure-known k t c h = rw h refl

locked-table :
    (k : Scope) (o : Option StateCursor) (s : Cursors × Cursors)
    → s.1 k ≡ o
    → Agrees s
    → (lock_new k o s).0 ≡ ensure_cursor_row k s.0
unfolding lock_new get_state_cursor_for_update
locked-table k none s h a = refl
locked-table k (some c) s h a = elim (a k) [
  | inl e ↦ cc
  | inr e ↦ sym (ensure-known k s.0 c (sym e.0 ∙ h))
]

locked-Agrees :
    (k : Scope) (o : Option StateCursor) (s : Cursors × Cursors)
    → s.1 k ≡ o
    → Agrees s
    → Agrees (lock_new k o s)
unfolding lock_new get_state_cursor_for_update get_state_cursor or_first
locked-Agrees k (some c) s h a j = a j
locked-Agrees k none s h a j = elim (Bool-cases (k == j)) [
  | inl e ↦
      let (c, there) = ensure-row k s.0 in
      inr (
        ground (arith, scope_beq_iff k j, there),
        (get_state_cursor k (ensure_cursor_row k s.0), rw e refl),
      )
  | inr e ↦ elim (a j) [
    | inl n ↦ inl (rw e n)
    | inr (same, (c, there)) ↦
        inr (rw e (there ∙ sym (ensure-keeps k j s.0 c (sym same ∙ there))), (c, rw e there))
  ]
]

-- A lock stays, and a scope is locked after its step.
locked-row :
    (k j : Scope) (o : Option StateCursor) (s : Cursors × Cursors) (c : StateCursor)
    → s.1 k ≡ o
    → s.1 j ≡ some c
    → (lock_new k o s).1 j ≡ some c
unfolding lock_new
locked-row k j (some d) s c h e = e
locked-row k j none s c h e = ground (arith, scope_beq_iff k j)

locked_self :
    (k : Scope) (o : Option StateCursor) (s : Cursors × Cursors)
    → s.1 k ≡ o
    → (c : StateCursor) × ((lock_new k o s).1 k ≡ some c)
unfolding lock_new get_state_cursor_for_update
locked_self k (some c) s h = (c, h)
locked_self k none s h =
    (get_state_cursor k (ensure_cursor_row k s.0), ground (arith, scope_beq_iff k k))

lock-row :
    (es : List ReplicationEvent) (j : Scope) (s : Cursors × Cursors) (c : StateCursor)
    → s.1 j ≡ some c
    → (lock_cursors es s).1 j ≡ some c
unfolding lock_cursors
lock-row [] j s c h = h
lock-row (e ∷ es) j s c h =
    lock-row es j (lock_new (scope_of e) (s.1 (scope_of e)) s) c
      (locked-row (scope_of e) j _ s c refl h)

lock-Agrees :
    (es : List ReplicationEvent) (s : Cursors × Cursors) → Agrees s → Agrees (lock_cursors es s)
unfolding lock_cursors
lock-Agrees [] s a = a
lock-Agrees (e ∷ es) s a = lock-Agrees es _ (locked-Agrees (scope_of e) _ s refl a)

lock-table :
    (es : List ReplicationEvent) (s : Cursors × Cursors)
    → Agrees s
    → (lock_cursors es s).0 ≡ ensure_all es s.0
unfolding lock_cursors ensure_all
lock-table [] s a = refl
lock-table (e ∷ es) s a =
    lock-table es _ (locked-Agrees (scope_of e) _ s refl a)
    ∙ ap (ensure_all es) (locked-table (scope_of e) _ s refl a)

abbrev SameAt : Cursors → Cursors → List ReplicationEvent → Type 0
SameAt r t = All λ e. r (scope_of e) ≡ t (scope_of e)

agreed :
    (k : Scope) (s : Cursors × Cursors) (c : StateCursor)
    → Agrees s
    → s.1 k ≡ some c
    → s.1 k ≡ s.0 k
agreed k s c a h = elim (a k) [ inl e ↦ cc | inr e ↦ e.0 ]

lock-SameAt :
    (es : List ReplicationEvent) (s : Cursors × Cursors)
    → Agrees s
    → SameAt (lock_cursors es s).1 (lock_cursors es s).0 es
unfolding lock_cursors
lock-SameAt [] s a = tt
lock-SameAt (e ∷ es) s a =
    let s' = lock_new (scope_of e) (s.1 (scope_of e)) s in
    let (c, here) = locked_self (scope_of e) (s.1 (scope_of e)) s refl in
    let a' = locked-Agrees (scope_of e) (s.1 (scope_of e)) s refl a in
    (
      agreed (scope_of e) (lock_cursors es s') c (lock-Agrees es s' a')
          (lock-row es (scope_of e) s' c here),
      lock-SameAt es s' a',
    )

put-SameAt :
    (k : Scope) (c : StateCursor) (r t : Cursors) (es : List ReplicationEvent)
    → SameAt r t es
    → SameAt (put k c r) (put k c t) es
put-SameAt k c r t [] h = tt
put-SameAt k c r t (e ∷ es) h = (ground arith, put-SameAt k c r t es h.1)

-- What the scan leaves is what `advance` gives, on the table that its final cursors overlay.
save-put :
    (stored_key : PrimaryKey → PrimaryKey) (k : Scope) (c : StateCursor) (f t : Cursors)
    → save_final_cursors stored_key (put k c f) t
      ≡ put k (as_stored stored_key c) (save_final_cursors stored_key f t)
unfolding save_final_cursors or_kept
save-put stored_key k c f t = fun_ext λ j. ground arith

abbrev IsScanned :
    (PrimaryKey → PrimaryKey)
    → Scan
    → Cursors
    → List ReplicationEvent
    → List ReplicationEvent × Cursors
    → Type 0
IsScanned stored_key s base before (later, saved) =
    (s.to_apply ≡ before ++ later) × (save_final_cursors stored_key s.final base ≡ saved)

abbrev taken : ReplicationEvent → Scan → Scan
taken e s = record {
  to_apply = s.to_apply ++ e ∷ [];
  running = put (scope_of e) (cursor_at e) s.running;
  final = put (scope_of e) (cursor_at e) s.final;
}

visit-stale :
    (e : ReplicationEvent) (s : Scan) → stale_at e (s.running (scope_of e)) ≡ true → visit e s ≡ s
unfolding visit
visit-stale e s p = rw p refl

visit-fresh :
    (e : ReplicationEvent) (s : Scan)
    → stale_at e (s.running (scope_of e)) ≡ false
    → visit e s ≡ taken e s
unfolding visit
visit-fresh e s p = rw p refl

module _ (stored_key : PrimaryKey → PrimaryKey) where
  scan-advance :
      (es : List ReplicationEvent) (s : Scan) (base t saved : Cursors)
      → SameAt s.running t es
      → save_final_cursors stored_key s.final base ≡ saved
      → IsScanned stored_key (scan es s) base s.to_apply (advance_stored stored_key es t saved)
  unfolding scan advance_stored
  scan-advance [] s base t saved h f = (sym (append-nil s.to_apply), f)
  scan-advance (e ∷ es) s base t saved h f = elim (Bool-cases (stale_at e (t (scope_of e)))) [
    | inl p ↦ rw p (
        subst
          (λ x.
            IsScanned stored_key (scan es x) base s.to_apply (advance_stored stored_key es t saved))
          (sym (visit-stale e s (ap (stale_at e) h.0 ∙ p))) (scan-advance es s base t saved h.1 f))
    | inr p ↦
        let t' = put (scope_of e) (cursor_at e) t in
        let saved' = put (scope_of e) (as_stored stored_key (cursor_at e)) saved in
        let (events, cursors) =
          scan-advance es (taken e s) base t' saved'
            (put-SameAt (scope_of e) (cursor_at e) s.running t es h.1)
            (save-put stored_key (scope_of e) (cursor_at e) s.final base
              ∙ ap (put (scope_of e) (as_stored stored_key (cursor_at e))) f) in
        rw p (
          subst
            (λ x. IsScanned stored_key (scan es x) base s.to_apply (
              e ∷ (advance_stored stored_key es t' saved').0,
              (advance_stored stored_key es t' saved').1,
            ))
            (sym (visit-fresh e s (ap (stale_at e) h.0 ∙ p)))
            (events ∙ append_assoc s.to_apply (e ∷ []) _, cursors))
  ]

-- The transaction with its three loops and its maps does what one pass over the events does, event by
-- event, on a table with a row for each scope: it applies the events that are after their cursor, in
-- order, moves each cursor to the last of them, with the key as the database stores it, and changes
-- nothing where the batch fails. Within the batch, events are compared with the keys as they came.
pub commit-commit_spec :
    (es : List ReplicationEvent) (mode : ApplyMode) (db : Db)
    → commit_state_applied_transaction es mode db ≡ with_tx (commit_spec es mode db) db
unfolding commit_state_applied_transaction commit_body commit_spec
commit-commit_spec es mode db =
    let s : Cursors × Cursors = (db.cursors, no_rows) in
    let a : Agrees s = λ k. inl refl in
    let (events, cursors) =
      scan-advance db.stored_key es
        (record { to_apply = []; running = (lock_cursors es s).1; final = no_rows })
        (lock_cursors es s).0 (lock_cursors es s).0 (lock_cursors es s).0 (lock-SameAt es s a)
        refl in
    rw (events, cursors, lock-table es s a) refl
