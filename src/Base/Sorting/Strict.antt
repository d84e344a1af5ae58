-- ===== src/Base/Sorting/Strict.antt =====
-- Sorted lists in which no two items compare equal, and the choice of items before and after sorting.
use mathlib.Core.Path.{subst}
use transmogr.Base.{
  ℕ, zero, suc, ◌≡◌, ◌≢◌, refl, some, List, [], ◌∷◌, Bool, true, false, if◌then◌else◌, arith, All,
  All-keep, keep, take, drop, last?, Bool-cases, inl, inr,
}
use transmogr.Base.Order.{Ordering, Lawful, Any, is_le, is_lt, cmp_refl}
use transmogr.Base.Sorting.{
  insert_by, sort_by, IsSortedBy, insert_by-All, sort_by-All, le-All, sort_by-IsSortedBy,
}

-- Choosing rows and sorting them: the order of the two steps does not count.
module _ {ℓ} {A : Type ℓ} (P : A → Type 0) (cmp : A → A → Ordering) (l : Lawful P cmp)
    (test : A → Bool) where
  insert_by-front :
      (a : A) (xs : List A) → All (λ y. is_le (cmp a y) ≡ true) xs → insert_by cmp a xs ≡ a ∷ xs
  unfolding insert_by
  insert_by-front a [] h = refl
  insert_by-front a (x ∷ xs) h = rw h.0 refl

  keep-insert_by :
      (a : A) (xs : List A)
      → P a
      → All P xs
      → IsSortedBy cmp xs
      → keep test (insert_by cmp a xs)
        ≡ (if test a then insert_by cmp a (keep test xs) else keep test xs)
  unfolding insert_by
  keep-insert_by a [] p q s = ground arith
  keep-insert_by a (x ∷ xs) p q s = elim (Bool-cases (is_le (cmp a x))) [
    | inl e ↦ ground (
      arith,
      insert_by-front a (x ∷ keep test xs) (
        e,
        All-keep (λ y. is_le (cmp a y) ≡ true) test xs (le-All P cmp l a x xs p q.0 q.1 e s.0),
      ),
      insert_by-front a (keep test xs)
          (All-keep (λ y. is_le (cmp a y) ≡ true) test xs (le-All P cmp l a x xs p q.0 q.1 e s.0)),
    )
    | inr e ↦ ground (arith, keep-insert_by a xs p q.1 s.1)
  ]

  pub keep-sort_by :
      (xs : List A) → All P xs → keep test (sort_by cmp xs) ≡ sort_by cmp (keep test xs)
  unfolding sort_by
  keep-sort_by [] h = refl
  keep-sort_by (x ∷ xs) h = ground (
    arith,
    keep-insert_by x (sort_by cmp xs) h.0 (sort_by-All cmp P xs h.1)
        (sort_by-IsSortedBy P cmp l xs h.1),
    keep-sort_by xs h.1,
  )

module _ {ℓ} {A : Type ℓ} (cmp : A → A → Ordering) where
  -- No two items compare equal.
  abbrev pub IsApart : List A → Type 0
  IsApart [] = Unit
  IsApart (x ∷ xs) = All (λ y. cmp x y ≢ Ordering.eq) xs × IsApart xs

  -- Each item is below every later one.
  abbrev pub IsStrict : List A → Type 0
  IsStrict [] = Unit
  IsStrict (x ∷ xs) = All (λ y. cmp x y ≡ Ordering.lt) xs × IsStrict xs

  pub keep-IsApart : (test : A → Bool) (xs : List A) → IsApart xs → IsApart (keep test xs)
  keep-IsApart test [] h = tt
  keep-IsApart test (x ∷ xs) h = elim (Bool-cases (test x)) [
    | inl e ↦ rw e (All-keep (λ y. cmp x y ≢ Ordering.eq) test xs h.0, keep-IsApart test xs h.1)
    | inr e ↦ rw e (keep-IsApart test xs h.1)
  ]

  pub keep-IsStrict : (test : A → Bool) (xs : List A) → IsStrict xs → IsStrict (keep test xs)
  keep-IsStrict test [] h = tt
  keep-IsStrict test (x ∷ xs) h = elim (Bool-cases (test x)) [
    | inl e ↦ rw e (All-keep (λ y. cmp x y ≡ Ordering.lt) test xs h.0, keep-IsStrict test xs h.1)
    | inr e ↦ rw e (keep-IsStrict test xs h.1)
  ]

module _ {ℓ} {A : Type ℓ} (cmp : A → A → Ordering) (l : Lawful Any cmp) where
  lt-All :
      (a x : A) (xs : List A)
      → cmp a x ≡ Ordering.lt
      → All (λ y. cmp x y ≡ Ordering.lt) xs
      → All (λ y. cmp a y ≡ Ordering.lt) xs
  lt-All a x [] h k = tt
  lt-All a x (y ∷ ys) h k = (l.trans a x y tt tt tt h k.0, lt-All a x ys h k.1)

  insert_by-IsStrict :
      (a : A) (xs : List A)
      → All (λ y. cmp a y ≢ Ordering.eq) xs
      → IsStrict cmp xs
      → IsStrict cmp (insert_by cmp a xs)
  unfolding insert_by
  insert_by-IsStrict a [] h s = (tt, tt)
  insert_by-IsStrict a (x ∷ xs) h s = elim (Bool-cases (is_le (cmp a x))) [
    | inl e ↦
        let below : cmp a x ≡ Ordering.lt = ground (arith, h.0) in
        rw e ((below, lt-All a x xs below s.0), s)
    | inr e ↦ rw e (
      insert_by-All cmp (λ y. cmp x y ≡ Ordering.lt) a xs (ground (arith, l.swap a x tt tt)) s.0,
      insert_by-IsStrict a xs h.1 s.1,
    )
  ]

  pub sort_by-IsStrict : (xs : List A) → IsApart cmp xs → IsStrict cmp (sort_by cmp xs)
  unfolding sort_by
  sort_by-IsStrict [] h = tt
  sort_by-IsStrict (x ∷ xs) h =
      insert_by-IsStrict x (sort_by cmp xs) (sort_by-All cmp (λ y. cmp x y ≢ Ordering.eq) xs h.0)
        (sort_by-IsStrict xs h.1)

  keep-all : (test : A → Bool) (xs : List A) → All (λ y. test y ≡ true) xs → keep test xs ≡ xs
  keep-all test [] h = refl
  keep-all test (x ∷ xs) h = rw (h.0, keep-all test xs h.1) refl

  above-All :
      (k : A) (xs : List A)
      → All (λ y. cmp k y ≡ Ordering.lt) xs
      → All (λ y. is_lt (cmp k y) ≡ true) xs
  above-All k [] h = tt
  above-All k (y ∷ ys) h = (rw h.0 refl, above-All k ys h.1)

  pub last-All {κ} :
      (P : A → Type κ) (n : ℕ) (xs : List A) (k : A) → All P xs → last? (take n xs) ≡ some k → P k
  last-All P zero xs k h e = cc
  last-All P (suc n) [] k h e = cc
  last-All P (suc zero) (x ∷ xs) k h e = subst P (cc) h.0
  last-All P (suc (suc n)) (x ∷ []) k h e = subst P (cc) h.0
  last-All P (suc (suc n)) (x ∷ y ∷ ys) k h e = last-All P (suc n) (y ∷ ys) k h.1 e

  first_last :
      (x k : A) (xs : List A)
      → All (λ y. cmp x y ≡ Ordering.lt) xs
      → some x ≡ some k
      → keep (λ y. is_lt (cmp k y)) (x ∷ xs) ≡ xs
  first_last x k xs s e =
      let same : x ≡ k = cc in
      let rest : keep (λ y. is_lt (cmp x y)) (x ∷ xs) ≡ xs =
        ground (arith, cmp_refl l x tt, keep-all (λ y. is_lt (cmp x y)) xs (above-All x xs s)) in
      subst (λ z. keep (λ y. is_lt (cmp z y)) (x ∷ xs) ≡ xs) same rest

  -- What lies above the last of the first `n` items is what follows them.
  pub keep-above_last :
      (n : ℕ) (xs : List A) (k : A)
      → IsStrict cmp xs
      → last? (take n xs) ≡ some k
      → keep (λ y. is_lt (cmp k y)) xs ≡ drop n xs
  keep-above_last zero xs k s e = cc
  keep-above_last (suc n) [] k s e = refl
  keep-above_last (suc zero) (x ∷ xs) k s e = first_last x k xs s.0 e
  keep-above_last (suc (suc n)) (x ∷ []) k s e = first_last x k [] tt e
  keep-above_last (suc (suc n)) (x ∷ y ∷ ys) k s e =
      let below : cmp x k ≡ Ordering.lt =
        last-All (λ z. cmp x z ≡ Ordering.lt) (suc n) (y ∷ ys) k s.0 e in
      let not_above : is_lt (cmp k x) ≡ false = ground (arith, l.swap x k tt tt) in
      rw not_above (keep-above_last (suc n) (y ∷ ys) k s.1 e)
