-- ===== src/Base/Order.antt =====
-- Comparison functions: Go's negative, zero and positive results as `lt`, `eq` and `gt`.
-- A comparison is lawful on the values that satisfy a predicate, since some are so only on those.
use Prim.Native.Nat.{compare}
pub use Prim.Native.Nat.{Ordering}
use transmogr.Base.{ℕ, ◌+◌, ◌≡◌, refl, List, [], ◌∷◌, Bool, true, false, arith, All}
use transmogr.Base.Int.{ℤ, pos_part, neg_part, eq_of_parts}

abbrev pub flip : Ordering → Ordering
flip Ordering.lt = Ordering.gt
flip Ordering.eq = Ordering.eq
flip Ordering.gt = Ordering.lt

-- The second comparison decides where the first finds no difference.
abbrev pub then_cmp : Ordering → Ordering → Ordering
then_cmp Ordering.eq o = o
then_cmp Ordering.lt o = Ordering.lt
then_cmp Ordering.gt o = Ordering.gt

abbrev pub is_le : Ordering → Bool
is_le Ordering.gt = false
is_le _ = true

abbrev pub is_lt : Ordering → Bool
is_lt Ordering.lt = true
is_lt _ = false

-- A total preorder, on the values that satisfy `P`.
pub record Lawful {ℓ} {A : Type ℓ} (P : A → Type 0) (cmp : A → A → Ordering) : Type ℓ where
  pub swap : (a b : A) → P a → P b → cmp b a ≡ flip (cmp a b)
  pub trans :
      (a b c : A)
      → P a
      → P b
      → P c
      → cmp a b ≡ Ordering.lt
      → cmp b c ≡ Ordering.lt
      → cmp a c ≡ Ordering.lt
  pub congr : (a b c : A) → P a → P b → P c → cmp a b ≡ Ordering.eq → cmp a c ≡ cmp b c

abbrev pub Any {ℓ} : {A : Type ℓ} → A → Type 0
Any a = Unit

module _ {ℓ} {A : Type ℓ} {P : A → Type 0} {cmp : A → A → Ordering} (l : Lawful P cmp) where
  eq_of_flip : (o : Ordering) → o ≡ flip o → o ≡ Ordering.eq
  eq_of_flip Ordering.lt e = cc
  eq_of_flip Ordering.eq e = refl
  eq_of_flip Ordering.gt e = cc

  pub cmp_refl : (a : A) → P a → cmp a a ≡ Ordering.eq
  cmp_refl a p = eq_of_flip (cmp a a) (l.swap a a p p)

module _ {ℓ} {A : Type ℓ} (P : A → Type 0) (cmp : A → A → Ordering) (l : Lawful P cmp) where
  congr_right : (a b c : A) → P a → P b → P c → cmp b c ≡ Ordering.eq → cmp a b ≡ cmp a c
  congr_right a b c p q r e = ground (arith, l.swap b a q p, l.swap c a r p, l.congr b c a q r p e)

  -- `a ≤ b` and `b < c` give `a < c`.
  pub le_lt_trans :
      (a b c : A)
      → P a
      → P b
      → P c
      → is_le (cmp a b) ≡ true
      → cmp b c ≡ Ordering.lt
      → cmp a c ≡ Ordering.lt
  le_lt_trans a b c p q r h k = ground (arith, l.trans a b c p q r, l.congr a b c p q r)

  -- `a < b` and `b ≤ c` give `a < c`.
  pub lt_le_trans :
      (a b c : A)
      → P a
      → P b
      → P c
      → cmp a b ≡ Ordering.lt
      → is_le (cmp b c) ≡ true
      → cmp a c ≡ Ordering.lt
  lt_le_trans a b c p q r h k = ground (arith, l.trans a b c p q r, congr_right a b c p q r)

  pub le_trans :
      (a b c : A)
      → P a
      → P b
      → P c
      → is_le (cmp a b) ≡ true
      → is_le (cmp b c) ≡ true
      → is_le (cmp a c) ≡ true
  le_trans a b c p q r h k =
      ground (arith, l.trans a b c p q r, l.congr a b c p q r, congr_right a b c p q r)

module _ {ℓ κ} {A : Type ℓ} {B : Type κ} (P : B → Type 0) (cmp : B → B → Ordering) (f : A → B) where
  pub Lawful-on : Lawful P cmp → Lawful (λ a. P (f a)) (λ a b. cmp (f a) (f b))
  Lawful-on l = record {
    swap = λ a b. l.swap (f a) (f b);
    trans = λ a b c. l.trans (f a) (f b) (f c);
    congr = λ a b c. l.congr (f a) (f b) (f c);
  }

module _ {ℓ} {A : Type ℓ} (P : A → Type 0) (c d : A → A → Ordering) where
  -- Lexicographic: the second need only be lawful where the first finds no difference.
  pub Lawful-then : Lawful P c → Lawful P d → Lawful P (λ a b. then_cmp (c a b) (d a b))
  Lawful-then l m = record {
    swap = λ x y p q. ground (arith, l.swap x y p q, m.swap x y p q);
    trans = λ x y z p q r. ground (
      arith,
      l.trans x y z p q r,
      l.congr x y z p q r,
      congr_right P c l x y z p q r,
      m.trans x y z p q r,
    );
    congr = λ x y z p q r. ground (arith, l.congr x y z p q r, m.congr x y z p q r);
  }

module _ {ℓ} {A : Type ℓ} (P Q : A → Type 0) (c : A → A → Ordering) where
  pub Lawful-weaken : ((a : A) → Q a → P a) → Lawful P c → Lawful Q c
  Lawful-weaken h l = record {
    swap = λ a b p q. l.swap a b (h a p) (h b q);
    trans = λ x y z p q r. l.trans x y z (h x p) (h y q) (h z r);
    congr = λ x y z p q r. l.congr x y z (h x p) (h y q) (h z r);
  }

module _ {ℓ} {A : Type ℓ} (P : A → Type 0) (c d : A → A → Ordering) where
  pub Lawful-ext : ((a b : A) → P a → P b → c a b ≡ d a b) → Lawful P d → Lawful P c
  Lawful-ext h l = record {
    swap = λ a b p q. ground (arith, h a b p q, h b a q p, l.swap a b p q);
    trans = λ x y z p q r. ground (arith, h x y p q, h y z q r, h x z p r, l.trans x y z p q r);
    congr = λ x y z p q r. ground (arith, h x y p q, h y z q r, h x z p r, l.congr x y z p q r);
  }

-- int64 comparison.
unfoldable pub cmp_ℤ : ℤ → ℤ → Ordering
cmp_ℤ a b = compare (pos_part a + neg_part b) (pos_part b + neg_part a)

pub cmp_ℤ-Lawful : Lawful Any cmp_ℤ
unfolding cmp_ℤ
cmp_ℤ-Lawful = record {
  swap = λ a b p q. ground arith;
  trans = λ a b c p q r. ground arith;
  congr = λ a b c p q r. ground arith;
}

pub cmp_ℤ-eq : (a b : ℤ) → cmp_ℤ a b ≡ Ordering.eq → a ≡ b
unfolding cmp_ℤ
cmp_ℤ-eq a b h = eq_of_parts a b (ground arith)

-- cmp.Compare on numbers.
unfoldable pub cmp_ℕ : ℕ → ℕ → Ordering
cmp_ℕ = compare

pub cmp_ℕ-Lawful : Lawful Any cmp_ℕ
unfolding cmp_ℕ
cmp_ℕ-Lawful = record {
  swap = λ a b p q. ground arith;
  trans = λ a b c p q r. ground arith;
  congr = λ a b c p q r. ground arith;
}

pub cmp_ℕ-eq : (a b : ℕ) → cmp_ℕ a b ≡ Ordering.eq → a ≡ b
unfolding cmp_ℕ
cmp_ℕ-eq a b h = ground arith

-- Item by item; where one list ends first it is the smaller.
module _ {ℓ} {A : Type ℓ} where
  unfoldable pub cmp_lists : (A → A → Ordering) → List A → List A → Ordering
  cmp_lists cmp [] [] = Ordering.eq
  cmp_lists cmp [] (y ∷ ys) = Ordering.lt
  cmp_lists cmp (x ∷ xs) [] = Ordering.gt
  cmp_lists cmp (x ∷ xs) (y ∷ ys) = then_cmp (cmp x y) (cmp_lists cmp xs ys)

module _ {ℓ} {A : Type ℓ} (P : A → Type 0) (cmp : A → A → Ordering) (l : Lawful P cmp) where
  lists_swap :
      (xs ys : List A) → All P xs → All P ys → cmp_lists cmp ys xs ≡ flip (cmp_lists cmp xs ys)
  unfolding cmp_lists
  lists_swap [] [] p q = refl
  lists_swap [] (y ∷ ys) p q = refl
  lists_swap (x ∷ xs) [] p q = refl
  lists_swap (x ∷ xs) (y ∷ ys) p q = ground (arith, l.swap x y p.0 q.0, lists_swap xs ys p.1 q.1)

  lists_congr :
      (xs ys zs : List A)
      → All P xs
      → All P ys
      → All P zs
      → cmp_lists cmp xs ys ≡ Ordering.eq
      → cmp_lists cmp xs zs ≡ cmp_lists cmp ys zs
  unfolding cmp_lists
  lists_congr [] [] zs p q r e = refl
  lists_congr [] (y ∷ ys) zs p q r e = cc
  lists_congr (x ∷ xs) [] zs p q r e = cc
  lists_congr (x ∷ xs) (y ∷ ys) [] p q r e = refl
  lists_congr (x ∷ xs) (y ∷ ys) (z ∷ zs) p q r e =
      ground (arith, l.congr x y z p.0 q.0 r.0, lists_congr xs ys zs p.1 q.1 r.1)

  lists_trans :
      (xs ys zs : List A)
      → All P xs
      → All P ys
      → All P zs
      → cmp_lists cmp xs ys ≡ Ordering.lt
      → cmp_lists cmp ys zs ≡ Ordering.lt
      → cmp_lists cmp xs zs ≡ Ordering.lt
  unfolding cmp_lists
  lists_trans [] ys [] p q r h k = ground arith
  lists_trans [] ys (z ∷ zs) p q r h k = refl
  lists_trans (x ∷ xs) [] zs p q r h k = cc
  lists_trans (x ∷ xs) (y ∷ ys) [] p q r h k = cc
  lists_trans (x ∷ xs) (y ∷ ys) (z ∷ zs) p q r h k = ground (
    arith,
    l.trans x y z p.0 q.0 r.0,
    l.congr x y z p.0 q.0 r.0,
    congr_right P cmp l x y z p.0 q.0 r.0,
    lists_trans xs ys zs p.1 q.1 r.1,
  )

  pub cmp_lists-Lawful : Lawful (All P) (cmp_lists cmp)
  cmp_lists-Lawful = record { swap = lists_swap; trans = lists_trans; congr = lists_congr }
