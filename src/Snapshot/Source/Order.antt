-- ===== src/Snapshot/Source/Order.antt =====
-- The order of the rows of a table by their key columns, and the comparison with a cursor.
use transmogr.Base.{String, ◌≡◌, refl, Bool, true, Option, none, some, List, [], ◌∷◌, arith, All}
use transmogr.Base.Order.{Ordering, Lawful, Lawful-then, Lawful-on, Any, flip, is_lt}
use transmogr.Models.Json.{Bytes}
use transmogr.Apply.Rows.{Row}
use transmogr.Snapshot.Source.{cmp_value, cmp_rows, gt_value, row_gt}

-- No key column is NULL.
abbrev pub IsFull : List String → Row → Type 0
IsFull columns t = All (λ c. (v : Bytes) × (t c ≡ some v)) columns

module _ (order : Bytes → Bytes → Ordering) (l : Lawful Any order) where
  value_swap : (v w : Option Bytes) → cmp_value order w v ≡ flip (cmp_value order v w)
  value_swap none none = refl
  value_swap none (some w) = refl
  value_swap (some v) none = refl
  value_swap (some v) (some w) = l.swap v w tt tt

  value_trans :
      (u v w : Option Bytes)
      → cmp_value order u v ≡ Ordering.lt
      → cmp_value order v w ≡ Ordering.lt
      → cmp_value order u w ≡ Ordering.lt
  value_trans none none w h k = cc
  value_trans none (some v) w h k = cc
  value_trans (some u) none none h k = cc
  value_trans (some u) none (some w) h k = cc
  value_trans (some u) (some v) none h k = refl
  value_trans (some u) (some v) (some w) h k = l.trans u v w tt tt tt h k

  value_congr :
      (u v w : Option Bytes)
      → cmp_value order u v ≡ Ordering.eq
      → cmp_value order u w ≡ cmp_value order v w
  value_congr none none w h = refl
  value_congr none (some v) w h = cc
  value_congr (some u) none w h = cc
  value_congr (some u) (some v) none h = refl
  value_congr (some u) (some v) (some w) h = l.congr u v w tt tt tt h

  pub cmp_value-Lawful : Lawful Any (cmp_value order)
  cmp_value-Lawful = record {
    swap = λ u v p q. value_swap u v;
    trans = λ u v w p q r. value_trans u v w;
    congr = λ u v w p q r. value_congr u v w;
  }

  gt_value_trans :
      (v x : Bytes) (w : Option Bytes) (first second both : Bool)
      → gt_value order (some v) (some x) first ≡ true
      → gt_value order (some x) w second ≡ true
      → (first ≡ true → second ≡ true → both ≡ true)
      → gt_value order (some v) w both ≡ true
  gt_value_trans v x none first second both h k next = cc
  gt_value_trans v x (some w) first second both h k next = ground (
    arith,
    l.swap v x tt tt,
    l.swap x w tt tt,
    l.swap v w tt tt,
    l.trans w x v tt tt tt,
    l.congr x v w tt tt tt,
    l.congr v x w tt tt tt,
    l.congr w x v tt tt tt,
    l.congr x w v tt tt tt,
  )

module _ (order : String → Bytes → Bytes → Ordering) (l : (c : String) → Lawful Any (order c)) where
  pub cmp_rows-Lawful : (columns : List String) → Lawful Any (cmp_rows order columns)
  unfolding cmp_rows
  cmp_rows-Lawful [] = record {
    swap = λ t u p q. refl;
    trans = λ t u w p q r h k. h;
    congr = λ t u w p q r h. refl;
  }
  cmp_rows-Lawful (c ∷ cs) =
      Lawful-then Any _ _
        (Lawful-on Any (cmp_value (order c)) (λ (t : Row). t c) (cmp_value-Lawful (order c) (l c)))
        (cmp_rows-Lawful cs)

  -- Between rows without NULL in the key, `>` of SQL is the order of ORDER BY.
  pub row_gt-cmp_rows :
      (columns : List String) (t u : Row)
      → IsFull columns t
      → IsFull columns u
      → row_gt order columns t u ≡ is_lt (cmp_rows order columns u t)
  unfolding row_gt cmp_rows
  row_gt-cmp_rows [] t u p q = refl
  row_gt-cmp_rows (c ∷ cs) t u p q =
      let (v, ev) = p.0 in
      let (w, ew) = q.0 in
      rw (ev, ew) (ground (arith, (l c).swap v w tt tt, row_gt-cmp_rows cs t u p.1 q.1))

  pub row_gt_trans :
      (columns : List String) (t u w : Row)
      → IsFull columns t
      → IsFull columns u
      → row_gt order columns t u ≡ true
      → row_gt order columns u w ≡ true
      → row_gt order columns t w ≡ true
  unfolding row_gt
  row_gt_trans [] t u w p q h k = h
  row_gt_trans (c ∷ cs) t u w p q h k =
      let (v, ev) = p.0 in
      let (x, ex) = q.0 in
      let first : gt_value (order c) (some v) (some x) (row_gt order cs t u) ≡ true =
        ground (arith, h, ev, ex) in
      let second : gt_value (order c) (some x) (w c) (row_gt order cs u w) ≡ true =
        ground (arith, k, ex) in
      rw ev (
        gt_value_trans (order c) (l c) v x (w c) (row_gt order cs t u) (row_gt order cs u w)
          (row_gt order cs t w) first second (row_gt_trans cs t u w p.1 q.1))
