-- ===== src/Replication/Batches.antt =====
-- What the receiver makes of a batch: its validation, and the order of polled events.
use mathlib.Core.Path.{subst}
use transmogr.Base.{
  some, ◌≡◌, ◌⊎◌, inl, inr, refl, ap, Bool, true, false, some, List, [], ◌∷◌, map, keep, arith, All,
  ◌==◌, string_eq, Result, ok, err, Bool-cases,
}
use transmogr.Base.Order.{
  Ordering, is_le, Lawful, Lawful-then, Lawful-on, Lawful-weaken, Any, cmp_ℤ, cmp_ℤ-Lawful,
  cmp_refl,
}
use transmogr.Base.Sorting.{sort_by, sort_by-IsSortedBy, sort_by-All, All-sort_by, IsSortedBy}
use transmogr.Base.Tables.{put}
use transmogr.Base.Text.{cmp_str, cmp_str-Lawful}
use transmogr.Models.Events.{ReplicationEvent, ApplyMode}
use transmogr.Models.PrimaryKey.{compare_primary_keys}
use transmogr.Models.PrimaryKey.Order.{AllDecodable, compare_primary_keys-Lawful}
use transmogr.Models.State.{Scope, scope_eq, scope_beq_iff}
use transmogr.Apply.Batches.{scope_of}
use transmogr.Commit.{Db, Cursors, stale_at, cursor_at}
use transmogr.Commit.Spec.{advance}
use transmogr.Commit.Positions.{
  IsTypedEvent, Position, cmp_position, cmp_position-Lawful, stale-position,
}
use transmogr.Replication.{
  apply_allowed, compare_cursor_ordered_events, BatchError, check_event, with_operation, prepare,
  apply_prepared, commit_prepared, apply_batch, in_cursor_order,
}

-- An event that the loop does not refuse.
abbrev pub IsValid : ReplicationEvent → Type 0
IsValid e = check_event e ≡ ok tt

abbrev pub accepted : ApplyMode → List ReplicationEvent → List ReplicationEvent
accepted mode es = keep (λ e. apply_allowed mode e.operation) (map with_operation es)

prepare_valid :
    (mode : ApplyMode) (es : List ReplicationEvent)
    → All IsValid es
    → prepare mode es ≡ ok (accepted mode es)
unfolding prepare
prepare_valid mode [] h = refl
prepare_valid mode (e ∷ es) h = rw (h.0, prepare_valid mode es h.1) refl

-- The batch is refused at its first event that is not valid.
abbrev pub IsRefused : ApplyMode → List ReplicationEvent → Type 0
IsRefused mode es = (¬ All IsValid es) × ((b : BatchError) × (prepare mode es ≡ err b))

later_cases :
    (mode : ApplyMode) (e : ReplicationEvent) (es : List ReplicationEvent)
    → IsValid e
    → All IsValid es ⊎ IsRefused mode es
    → All IsValid (e ∷ es) ⊎ IsRefused mode (e ∷ es)
unfolding prepare
later_cases mode e es v (inl h) = inl (v, h)
later_cases mode e es v (inr (n, (b, h))) = inr (λ a. n a.1, (b, rw (v, h) refl))

first_cases :
    (mode : ApplyMode) (e : ReplicationEvent) (es : List ReplicationEvent)
    (r : Result BatchError (Unit {0}))
    → check_event e ≡ r
    → All IsValid es ⊎ IsRefused mode es
    → All IsValid (e ∷ es) ⊎ IsRefused mode (e ∷ es)
unfolding prepare
first_cases mode e es (ok u) h later = later_cases mode e es h later
first_cases mode e es (err b) h later = inr (λ a. ground (arith, h, a.0), (b, rw h refl))

prepare_cases : (mode : ApplyMode) (es : List ReplicationEvent) → All IsValid es ⊎ IsRefused mode es
prepare_cases mode [] = inl tt
prepare_cases mode (e ∷ es) = first_cases mode e es (check_event e) refl (prepare_cases mode es)

-- A batch is applied only as a whole: where every event is valid, those that the mode accepts are
-- committed together, and else the call returns an error and changes nothing.
pub apply_batch_validates :
    (mode : ApplyMode) (sorts : Bool) (es : List ReplicationEvent) (db : Db)
    → (All IsValid es
        × (apply_batch mode sorts es db
            ≡ commit_prepared mode (in_cursor_order sorts (accepted mode es)) db))
      ⊎ ((¬ All IsValid es) × ((b : BatchError) × (apply_batch mode sorts es db ≡ (db, some b))))
unfolding apply_batch apply_prepared
apply_batch_validates mode sorts es db = elim (prepare_cases mode es) [
  | inl h ↦ inl (h, rw (prepare_valid mode es h) refl)
  | inr (n, (b, h)) ↦ inr (n, (b, rw h refl))
]

-- The order of polled events.
cursor_order-Lawful : Lawful IsTypedEvent compare_cursor_ordered_events
unfolding compare_cursor_ordered_events
cursor_order-Lawful =
    Lawful-then IsTypedEvent _ _
      (Lawful-weaken Any IsTypedEvent (λ l r. cmp_str l.peer_region r.peer_region) (λ e _. tt)
        (Lawful-on Any cmp_str (λ (e : ReplicationEvent). e.peer_region) cmp_str-Lawful))
      (Lawful-then IsTypedEvent _ _
        (Lawful-weaken Any IsTypedEvent (λ l r. cmp_str l.table r.table) (λ e _. tt)
          (Lawful-on Any cmp_str (λ (e : ReplicationEvent). e.table) cmp_str-Lawful))
        (Lawful-then IsTypedEvent _ _
          (Lawful-weaken Any IsTypedEvent (λ l r. cmp_ℤ l.version r.version) (λ e _. tt)
            (Lawful-on Any cmp_ℤ (λ (e : ReplicationEvent). e.version) cmp_ℤ-Lawful))
          (Lawful-on AllDecodable compare_primary_keys (λ (e : ReplicationEvent). e.primary_key)
            compare_primary_keys-Lawful)))

abbrev event_position : ReplicationEvent → Position
event_position e = (e.version, e.primary_key)

order-position :
    (l r : ReplicationEvent)
    → scope_of l ≡ scope_of r
    → compare_cursor_ordered_events l r ≡ cmp_position (event_position l) (event_position r)
unfolding compare_cursor_ordered_events cmp_position
order-position l r h =
    rw (ap (λ (k : Scope). k.peer_region) h, ap (λ (k : Scope). k.table) h)
      (ground (arith, cmp_refl cmp_str-Lawful r.peer_region tt, cmp_refl cmp_str-Lawful r.table tt))

-- Two events of one scope at one position.
abbrev pub IsSamePlace : ReplicationEvent → ReplicationEvent → Type 0
IsSamePlace e x =
    (scope_of e ≡ scope_of x)
    × (cmp_position (e.version, e.primary_key) (x.version, x.primary_key) ≡ Ordering.eq)

abbrev pub IsCovered : List ReplicationEvent → ReplicationEvent → Type 0
IsCovered [] x = ⊥
IsCovered (e ∷ es) x = IsSamePlace e x ⊎ IsCovered es x

abbrev pub IsFresh : Cursors → ReplicationEvent → Type 0
IsFresh t e = stale_at e (t (scope_of e)) ≡ false

-- After a fresh event, an event that is no smaller is fresh as before, or at its place.
still-IsFresh :
    (e x : ReplicationEvent) (t : Cursors)
    → IsTypedEvent e
    → IsTypedEvent x
    → is_le (compare_cursor_ordered_events e x) ≡ true
    → IsFresh t x
    → IsSamePlace e x ⊎ IsFresh (put (scope_of e) (cursor_at e) t) x
still-IsFresh e x t p q le f = elim (Bool-cases (scope_of e == scope_of x)) [
  | inr n ↦ inr (rw n f)
  | inl y ↦
      let same = (scope_beq_iff (scope_of e) (scope_of x)).0 y in
      elim (Bool-cases (stale_at x (some (cursor_at e)))) [
        | inr n ↦ inr (rw y n)
        | inl s ↦ inl (
          same,
          ground (
            arith,
            stale-position x (cursor_at e),
            order-position e x same,
            cmp_position-Lawful.swap (event_position e) (event_position x) p q,
          ),
        )
      ]
]

IsCovered-cons :
    (e x : ReplicationEvent) (t t' : Cursors) (later : List ReplicationEvent)
    → (IsFresh t x → IsSamePlace e x ⊎ IsFresh t' x)
    → (IsFresh t' x → IsCovered later x)
    → IsFresh t x
    → IsCovered (e ∷ later) x
IsCovered-cons e x t t' later h ih f = elim (h f) [ inl s ↦ inl s | inr g ↦ inr (ih g) ]

IsCovered-later :
    (e : ReplicationEvent) (es : List ReplicationEvent) (t : Cursors)
    (later : List ReplicationEvent)
    → IsTypedEvent e
    → All IsTypedEvent es
    → All (λ x. is_le (compare_cursor_ordered_events e x) ≡ true) es
    → All (λ x. IsFresh (put (scope_of e) (cursor_at e) t) x → IsCovered later x) es
    → All (λ x. IsFresh t x → IsCovered (e ∷ later) x) es
IsCovered-later e [] t later p q s ih = tt
IsCovered-later e (x ∷ xs) t later p q s ih = (
  IsCovered-cons e x t (put (scope_of e) (cursor_at e) t) later (still-IsFresh e x t p q.0 s.0)
      ih.0,
  IsCovered-later e xs t later p q.1 s.1 ih.1,
)

AllCovered : List ReplicationEvent → Cursors → List ReplicationEvent → Type 0
AllCovered applied t = All λ x. IsFresh t x → IsCovered applied x

advance-fresh_event :
    (e : ReplicationEvent) (es : List ReplicationEvent) (t : Cursors)
    → IsFresh t e
    → e ∷ (advance es (put (scope_of e) (cursor_at e) t)).0 ≡ (advance (e ∷ es) t).0
unfolding advance
advance-fresh_event e es t n = rw n refl

advance-stale_event :
    (e : ReplicationEvent) (es : List ReplicationEvent) (t : Cursors)
    → stale_at e (t (scope_of e)) ≡ true
    → (advance es t).0 ≡ (advance (e ∷ es) t).0
unfolding advance
advance-stale_event e es t y = rw y refl

advance-AllCovered :
    (es : List ReplicationEvent) (t : Cursors)
    → All IsTypedEvent es
    → IsSortedBy compare_cursor_ordered_events es
    → AllCovered (advance es t).0 t es
unfolding AllCovered
advance-AllCovered [] t h s = tt
advance-AllCovered (e ∷ es) t h s = elim (Bool-cases (stale_at e (t (scope_of e)))) [
  | inl y ↦
      subst (λ applied. All (λ x. IsFresh t x → IsCovered applied x) (e ∷ es))
        (advance-stale_event e es t y)
        (λ f. absurd (ground (arith, y, f)), advance-AllCovered es t h.1 s.1)
  | inr n ↦
      let t' = put (scope_of e) (cursor_at e) t in
      subst (λ applied. All (λ x. IsFresh t x → IsCovered applied x) (e ∷ es))
        (advance-fresh_event e es t n)
        (
          λ f. inl (refl, cmp_refl cmp_position-Lawful (event_position e) h.0),
          IsCovered-later e es t (advance es t').0 h.0 h.1 s.0 (advance-AllCovered es t' h.1 s.1),
        )
]

-- In whatever order the events of a polled batch come, the order into which the service brings them
-- makes none of them stale: each event that is after its cursor passes the test against the cursors
-- as they move within the batch, or another event of its scope at its position does, so the cursor
-- test withholds none from the statements that apply the rest. What those make of several events of
-- one row is not said here. Keys are typed.
pub polled_events-IsCovered :
    (es : List ReplicationEvent) (t : Cursors)
    → All IsTypedEvent es
    → All (λ x. IsFresh t x → IsCovered (advance (in_cursor_order true es) t).0 x) es
unfolding in_cursor_order AllCovered
polled_events-IsCovered es t h =
    let sorted = sort_by compare_cursor_ordered_events es in
    All-sort_by compare_cursor_ordered_events (λ x. IsFresh t x → IsCovered (advance sorted t).0 x)
      es
      (advance-AllCovered sorted t (sort_by-All compare_cursor_ordered_events IsTypedEvent es h)
        (sort_by-IsSortedBy IsTypedEvent compare_cursor_ordered_events cursor_order-Lawful es h))
