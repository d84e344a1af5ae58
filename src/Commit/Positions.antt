-- ===== src/Commit/Positions.antt =====
-- Positions, and what one pass over the events of a batch leaves in the cursors.
use mathlib.Core.Path.{subst}
use transmogr.Base.{
  ◌≡◌, inl, inr, refl, sym, ◌∙◌, ap, true, false, Option, none, some, List, [], ◌∷◌, arith, All,
  ◌==◌, Bool-cases, beq→eq,
}
use transmogr.Base.Int.{ℤ}
use transmogr.Base.Order.{
  Ordering, is_le, then_cmp, Lawful, Lawful-then, Lawful-on, Lawful-weaken, Any, cmp_ℤ,
  cmp_ℤ-Lawful, cmp_refl, le_lt_trans,
}
use transmogr.Base.Tables.{put}
use transmogr.Models.Events.{ReplicationEvent}
use transmogr.Models.PrimaryKey.{PrimaryKey, compare_primary_keys}
use transmogr.Models.PrimaryKey.Order.{AllDecodable, compare_primary_keys-Lawful}
use transmogr.Models.State.{Scope, scope_eq, scope_beq_iff, StateCursor}
use transmogr.Apply.Batches.{scope_of}
use transmogr.Commit.{
  Cursors, stale_at, cursor_at, first_cursor, is_stale_cursor_position, ensure_cursor_row, ensured,
}
use transmogr.Commit.Spec.{advance, ensure_all, ensure-row, ensure-keeps, ensure-known}

-- Where an event, or a cursor, stands in the order of its scope.
abbrev pub Position : Type 0
Position = ℤ × PrimaryKey

unfoldable pub cmp_position : Position → Position → Ordering
cmp_position p q = then_cmp (cmp_ℤ p.0 q.0) (compare_primary_keys p.1 q.1)

abbrev pub position : StateCursor → Position
position c = (c.last_version, c.last_primary_key)

abbrev pub IsTyped : Position → Type 0
IsTyped p = AllDecodable p.1

pub cmp_position-Lawful : Lawful IsTyped cmp_position
unfolding cmp_position
cmp_position-Lawful =
    Lawful-then IsTyped _ _
      (Lawful-weaken Any IsTyped (λ p q. cmp_ℤ p.0 q.0) (λ p _. tt)
        (Lawful-on Any cmp_ℤ (λ (p : Position). p.0) cmp_ℤ-Lawful))
      (Lawful-on AllDecodable compare_primary_keys (λ (p : Position). p.1)
        compare_primary_keys-Lawful)

pub stale-position :
    (e : ReplicationEvent) (c : StateCursor)
    → stale_at e (some c) ≡ is_le (cmp_position (e.version, e.primary_key) (position c))
unfolding is_stale_cursor_position cmp_position cmp_ℤ
stale-position e c = ground arith

-- The cursor of the scope stands, and is at the position or after it.
pub record Reached (t : Cursors) (k : Scope) (p : Position) : Type 0 where
  pub cursor : StateCursor
  pub row : t k ≡ some cursor
  pub typed : AllDecodable cursor.last_primary_key
  pub reached : is_le (cmp_position p (position cursor)) ≡ true

abbrev pub ReachedBy : Cursors → ReplicationEvent → Type 0
ReachedBy t e = Reached t (scope_of e) (e.version, e.primary_key)

abbrev pub IsTypedEvent : ReplicationEvent → Type 0
IsTypedEvent e = AllDecodable e.primary_key

put-Reached :
    (t : Cursors) (k : Scope) (p : Position) (e : ReplicationEvent)
    → IsTypedEvent e
    → IsTyped p
    → stale_at e (t (scope_of e)) ≡ false
    → Reached t k p
    → Reached (put (scope_of e) (cursor_at e) t) k p
put-Reached t k p e te tp fresh r = elim (Bool-cases (scope_of e == k)) [
  | inr n ↦ record { cursor = r.cursor; row = rw n r.row; typed = r.typed; reached = r.reached }
  | inl y ↦
      let same = beq→eq (scope_of e) k y in
      let behind : stale_at e (some r.cursor) ≡ false =
        subst (λ o. stale_at e o ≡ false) (ap t same ∙ r.row) fresh in
      record {
        cursor = cursor_at e;
        row = rw y refl;
        typed = te;
        reached = ground (
          arith,
          stale-position e r.cursor,
          behind,
          r.reached,
          cmp_position-Lawful.swap (e.version, e.primary_key) (position r.cursor) te r.typed,
          le_lt_trans IsTyped cmp_position cmp_position-Lawful p (position r.cursor)
              (e.version, e.primary_key) tp r.typed te,
        );
      }
]

pub advance-Reached :
    (es : List ReplicationEvent) (t : Cursors) (k : Scope) (p : Position)
    → All IsTypedEvent es
    → IsTyped p
    → Reached t k p
    → Reached (advance es t).1 k p
unfolding advance
advance-Reached [] t k p h tp r = r
advance-Reached (e ∷ es) t k p h tp r = elim (Bool-cases (stale_at e (t (scope_of e)))) [
  | inl y ↦ rw y (advance-Reached es t k p h.1 tp r)
  | inr n ↦ rw n (
      advance-Reached es (put (scope_of e) (cursor_at e) t) k p h.1 tp
        (put-Reached t k p e h.0 tp n r))
]

ensure-Reached :
    (k j : Scope) (t : Cursors) (p : Position) → Reached t j p → Reached (ensure_cursor_row k t) j p
ensure-Reached k j t p r = record {
  cursor = r.cursor;
  row = ensure-keeps k j t r.cursor r.row;
  typed = r.typed;
  reached = r.reached;
}

pub ensure_all-Reached :
    (es : List ReplicationEvent) (t : Cursors) (k : Scope) (p : Position)
    → Reached t k p
    → Reached (ensure_all es t) k p
unfolding ensure_all
ensure_all-Reached [] t k p r = r
ensure_all-Reached (e ∷ es) t k p r =
    ensure_all-Reached es _ k p (ensure-Reached (scope_of e) k t p r)

-- Every cursor of the table has a typed key.
abbrev pub AllTyped : Cursors → Type 0
AllTyped t = (k : Scope) (c : StateCursor) → t k ≡ some c → AllDecodable c.last_primary_key

RowTyped : Option StateCursor → Type 0
RowTyped none = Unit
RowTyped (some c) = AllDecodable c.last_primary_key

pub put-AllTyped :
    (k : Scope) (c : StateCursor) (t : Cursors)
    → AllDecodable c.last_primary_key
    → AllTyped t
    → AllTyped (put k c t)
unfolding RowTyped
put-AllTyped k c t d h j x e = elim (Bool-cases (k == j)) [
  | inl y ↦ subst RowTyped (rw y at e) d
  | inr n ↦ h j x (rw n at e)
]

ensured-AllTyped :
    (k : Scope) (o : Option StateCursor) (t : Cursors) → AllTyped t → AllTyped (ensured k o t)
unfolding ensured
ensured-AllTyped k (some c) t h = h
ensured-AllTyped k none t h = put-AllTyped k (first_cursor k) t tt h

pub ensure_all-AllTyped :
    (es : List ReplicationEvent) (t : Cursors) → AllTyped t → AllTyped (ensure_all es t)
unfolding ensure_all ensure_cursor_row
ensure_all-AllTyped [] t h = h
ensure_all-AllTyped (e ∷ es) t h = ensure_all-AllTyped es _ (ensured-AllTyped (scope_of e) _ t h)

pub advance-AllTyped :
    (es : List ReplicationEvent) (t : Cursors)
    → All IsTypedEvent es
    → AllTyped t
    → AllTyped (advance es t).1
unfolding advance
advance-AllTyped [] t f h = h
advance-AllTyped (e ∷ es) t f h = elim (Bool-cases (stale_at e (t (scope_of e)))) [
  | inl y ↦ rw y (advance-AllTyped es t f.1 h)
  | inr n ↦ rw n (advance-AllTyped es _ f.1 (put-AllTyped (scope_of e) (cursor_at e) t f.0 h))
]

-- A row for each event's scope.
abbrev pub HasRows : Cursors → List ReplicationEvent → Type 0
HasRows t = All λ e. (c : StateCursor) × (t (scope_of e) ≡ some c)

put-HasRows :
    (k : Scope) (c : StateCursor) (t : Cursors) (es : List ReplicationEvent)
    → HasRows t es
    → HasRows (put k c t) es
put-HasRows k c t [] h = tt
put-HasRows k c t (e ∷ es) h = (
  elim (Bool-cases (k == scope_of e)) [ inl y ↦ (c, rw y refl) | inr n ↦ (h.0.0, rw n h.0.1) ],
  put-HasRows k c t es h.1,
)

ensure_all-row :
    (es : List ReplicationEvent) (t : Cursors) (k : Scope) (c : StateCursor)
    → t k ≡ some c
    → ensure_all es t k ≡ some c
unfolding ensure_all
ensure_all-row [] t k c h = h
ensure_all-row (e ∷ es) t k c h = ensure_all-row es _ k c (ensure-keeps (scope_of e) k t c h)

pub ensure_all-HasRows : (es : List ReplicationEvent) (t : Cursors) → HasRows (ensure_all es t) es
unfolding ensure_all
ensure_all-HasRows [] t = tt
ensure_all-HasRows (e ∷ es) t =
    let (c, there) = ensure-row (scope_of e) t in
    ((c, ensure_all-row es _ (scope_of e) c there), ensure_all-HasRows es _)

advance-stale :
    (e : ReplicationEvent) (es : List ReplicationEvent) (t : Cursors)
    → stale_at e (t (scope_of e)) ≡ true
    → (advance es t).1 ≡ (advance (e ∷ es) t).1
unfolding advance
advance-stale e es t y = rw y refl

advance-fresh :
    (e : ReplicationEvent) (es : List ReplicationEvent) (t : Cursors)
    → stale_at e (t (scope_of e)) ≡ false
    → (advance es (put (scope_of e) (cursor_at e) t)).1 ≡ (advance (e ∷ es) t).1
unfolding advance
advance-fresh e es t n = rw n refl

-- After the pass, each event is at or behind the cursor of its scope.
pub advance-ReachedBy :
    (es : List ReplicationEvent) (t : Cursors)
    → All IsTypedEvent es
    → AllTyped t
    → HasRows t es
    → All (ReachedBy (advance es t).1) es
advance-ReachedBy [] t f h r = tt
advance-ReachedBy (e ∷ es) t f h r = elim (Bool-cases (stale_at e (t (scope_of e)))) [
  | inl y ↦
      let (c, there) = r.0 in
      let here : ReachedBy t e = record {
        cursor = c;
        row = there;
        typed = h (scope_of e) c there;
        reached = sym (stale-position e c) ∙ (ap (stale_at e) (sym there) ∙ y);
      } in
      subst (λ x. All (ReachedBy x) (e ∷ es)) (advance-stale e es t y)
        (
          advance-Reached es t (scope_of e) (e.version, e.primary_key) f.1 f.0 here,
          advance-ReachedBy es t f.1 h r.1,
        )
  | inr n ↦
      let t' = put (scope_of e) (cursor_at e) t in
      let here : ReachedBy t' e = record {
        cursor = cursor_at e;
        row = ground (arith, scope_beq_iff (scope_of e) (scope_of e));
        typed = f.0;
        reached = ap is_le (cmp_refl cmp_position-Lawful (e.version, e.primary_key) f.0);
      } in
      subst (λ x. All (ReachedBy x) (e ∷ es)) (advance-fresh e es t n)
        (
          advance-Reached es t' (scope_of e) (e.version, e.primary_key) f.1 f.0 here,
          advance-ReachedBy es t' f.1 (put-AllTyped (scope_of e) (cursor_at e) t f.0 h)
              (put-HasRows (scope_of e) (cursor_at e) t es r.1),
        )
]

-- A batch whose events are all behind their cursors.
pub advance-nothing :
    (es : List ReplicationEvent) (t : Cursors) → All (ReachedBy t) es → advance es t ≡ ([], t)
unfolding advance
advance-nothing [] t h = refl
advance-nothing (e ∷ es) t h =
    rw (ap (stale_at e) h.0.row ∙ (stale-position e h.0.cursor ∙ h.0.reached))
      (advance-nothing es t h.1)

pub ensure_all-nothing :
    (es : List ReplicationEvent) (t : Cursors) → All (ReachedBy t) es → ensure_all es t ≡ t
unfolding ensure_all
ensure_all-nothing [] t h = refl
ensure_all-nothing (e ∷ es) t h =
    rw (ensure-known (scope_of e) t h.0.cursor h.0.row) (ensure_all-nothing es t h.1)
