-- ===== src/Base/Sorting.antt =====
-- slices.SortStableFunc and slices.Sort: the stable order by a comparison, computed by insertion.
pub mod Strict
pub mod Unique
use mathlib.Core.List.{Perm}
use mathlib.Core.List.Perm
use transmogr.Base.{
  suc, length, ◌≡◌, refl, List, [], ◌∷◌, Bool, true, false, if◌then◌else◌, arith, All, keep,
  Bool-cases, inl, inr,
}
use transmogr.Base.Order.{Ordering, Lawful, is_le, le_trans}

abbrev is_eq : Ordering → Bool
is_eq Ordering.eq = true
is_eq _ = false

module _ {ℓ} {A : Type ℓ} (cmp : A → A → Ordering) where
  unfoldable pub insert_by : A → List A → List A
  insert_by a [] = a ∷ []
  insert_by a (x ∷ xs) =
      let rest = insert_by a xs in if is_le (cmp a x) then a ∷ x ∷ xs else x ∷ rest

  unfoldable pub sort_by : List A → List A
  unfolding insert_by
  sort_by [] = []
  sort_by (x ∷ xs) = insert_by x (sort_by xs)

  -- Each item is at most every later one.
  abbrev pub IsSortedBy : List A → Type 0
  IsSortedBy [] = Unit
  IsSortedBy (x ∷ xs) = All (λ y. is_le (cmp x y) ≡ true) xs × IsSortedBy xs

  insert_by-perm : (a : A) (xs : List A) → Perm (insert_by a xs) (a ∷ xs)
  unfolding insert_by
  insert_by-perm a [] = Perm.refl (a ∷ [])
  insert_by-perm a (x ∷ xs) = elim (Bool-cases (is_le (cmp a x))) [
    | inl e ↦ rw e (Perm.refl (a ∷ x ∷ xs))
    | inr e ↦ rw e (Perm.trans (Perm.cons x (insert_by-perm a xs)) (Perm.swap a x xs))
  ]

  pub sort_by-perm : (xs : List A) → Perm (sort_by xs) xs
  unfolding sort_by
  sort_by-perm [] = Perm.refl []
  sort_by-perm (x ∷ xs) = Perm.trans (insert_by-perm x (sort_by xs)) (Perm.cons x (sort_by-perm xs))

  length-insert_by : (a : A) (xs : List A) → length (insert_by a xs) ≡ suc (length xs)
  unfolding insert_by
  length-insert_by a [] = refl
  length-insert_by a (x ∷ xs) = ground (arith, length-insert_by a xs)

  pub length-sort_by : (xs : List A) → length (sort_by xs) ≡ length xs
  unfolding sort_by
  length-sort_by [] = refl
  length-sort_by (x ∷ xs) = omega (arith, length-insert_by x (sort_by xs), length-sort_by xs)

  module _ {κ} (P : A → Type κ) where
    pub insert_by-All : (a : A) (xs : List A) → P a → All P xs → All P (insert_by a xs)
    unfolding insert_by
    insert_by-All a [] p h = (p, tt)
    insert_by-All a (x ∷ xs) p h = elim (Bool-cases (is_le (cmp a x))) [
      | inl e ↦ rw e (p, h)
      | inr e ↦ rw e (h.0, insert_by-All a xs p h.1)
    ]

    pub sort_by-All : (xs : List A) → All P xs → All P (sort_by xs)
    unfolding sort_by
    sort_by-All [] h = tt
    sort_by-All (x ∷ xs) h = insert_by-All x (sort_by xs) h.0 (sort_by-All xs h.1)

  module _ {κ} (P : A → Type κ) where
    All-insert_by : (a : A) (xs : List A) → All P (insert_by a xs) → P a × All P xs
    unfolding insert_by
    All-insert_by a [] h = h
    All-insert_by a (x ∷ xs) h = elim (Bool-cases (is_le (cmp a x))) [
      | inl e ↦ rw e at h
      | inr e ↦
          let later : All P (x ∷ insert_by a xs) = rw e at h in
          let rest = All-insert_by a xs later.1 in (rest.0, (later.0, rest.1))
    ]

    pub All-sort_by : (xs : List A) → All P (sort_by xs) → All P xs
    unfolding sort_by
    All-sort_by [] h = tt
    All-sort_by (x ∷ xs) h =
        let rest = All-insert_by x (sort_by xs) h in (rest.0, All-sort_by xs rest.1)

module _ {ℓ} {A : Type ℓ} (P : A → Type 0) (cmp : A → A → Ordering) (l : Lawful P cmp) where
  pub le-All :
      (a x : A) (xs : List A)
      → P a
      → P x
      → All P xs
      → is_le (cmp a x) ≡ true
      → All (λ y. is_le (cmp x y) ≡ true) xs
      → All (λ y. is_le (cmp a y) ≡ true) xs
  le-All a x [] p q r h k = tt
  le-All a x (y ∷ ys) p q r h k =
      (le_trans P cmp l a x y p q r.0 h k.0, le-All a x ys p q r.1 h k.1)

  pub insert_by-IsSortedBy :
      (a : A) (xs : List A)
      → P a
      → All P xs
      → IsSortedBy cmp xs
      → IsSortedBy cmp (insert_by cmp a xs)
  unfolding insert_by
  insert_by-IsSortedBy a [] p q s = (tt, tt)
  insert_by-IsSortedBy a (x ∷ xs) p q s = elim (Bool-cases (is_le (cmp a x))) [
    | inl e ↦ rw e ((e, le-All a x xs p q.0 q.1 e s.0), s)
    | inr e ↦ rw e (
      insert_by-All cmp (λ y. is_le (cmp x y) ≡ true) a xs (ground (arith, l.swap a x p q.0)) s.0,
      insert_by-IsSortedBy a xs p q.1 s.1,
    )
  ]

  pub sort_by-IsSortedBy : (xs : List A) → All P xs → IsSortedBy cmp (sort_by cmp xs)
  unfolding sort_by
  sort_by-IsSortedBy [] h = tt
  sort_by-IsSortedBy (x ∷ xs) h =
      insert_by-IsSortedBy x (sort_by cmp xs) h.0 (sort_by-All cmp P xs h.1)
        (sort_by-IsSortedBy xs h.1)

  -- Items that compare equal keep their order.
  insert_by-stable :
      (b a : A) (xs : List A)
      → P b
      → P a
      → All P xs
      → keep (λ x. is_eq (cmp b x)) (insert_by cmp a xs) ≡ keep (λ x. is_eq (cmp b x)) (a ∷ xs)
  unfolding insert_by
  insert_by-stable b a [] p q r = refl
  insert_by-stable b a (x ∷ xs) p q r = ground (
    arith,
    insert_by-stable b a xs p q r.1,
    l.congr b a x p q r.0,
    l.swap b x p r.0,
    l.swap b a p q,
  )

  pub sort_by-stable :
      (b : A) (xs : List A)
      → P b
      → All P xs
      → keep (λ x. is_eq (cmp b x)) (sort_by cmp xs) ≡ keep (λ x. is_eq (cmp b x)) xs
  unfolding sort_by
  sort_by-stable b [] p r = refl
  sort_by-stable b (x ∷ xs) p r = ground (
    arith,
    insert_by-stable b x (sort_by cmp xs) p r.0 (sort_by-All cmp P xs r.1),
    sort_by-stable b xs p r.1,
  )
