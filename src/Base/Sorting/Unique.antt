-- ===== src/Base/Sorting/Unique.antt =====
-- Sorting by an order in which only equal items compare equal: the order of the input does not count.
use mathlib.Core.Path.{subst}
use mathlib.Core.List.{Perm, foldr}
use mathlib.Core.List.Perm
use transmogr.Base.{◌≡◌, ◌↔◌, refl, sym, ◌∙◌, List, [], ◌∷◌, arith}
use transmogr.Base.Order.{Ordering, Lawful, Any, le_trans}
use transmogr.Base.Sorting.{insert_by, sort_by, sort_by-perm}

module _ {ℓ} {A : Type ℓ} (cmp : A → A → Ordering) (l : Lawful Any cmp)
    (same : (a b : A) → cmp a b ≡ Ordering.eq → a ≡ b) (set : IsSet A) where
  insert_comm :
      (a b : A) (xs : List A)
      → insert_by cmp a (insert_by cmp b xs) ≡ insert_by cmp b (insert_by cmp a xs)
  unfolding insert_by
  insert_comm a b [] = ground (arith, l.swap a b tt tt, same a b, same b a)
  insert_comm a b (x ∷ xs) = ground (
    arith,
    l.swap a b tt tt,
    l.swap a x tt tt,
    l.swap b x tt tt,
    same a b,
    le_trans Any cmp l a b x tt tt tt,
    le_trans Any cmp l b a x tt tt tt,
    insert_comm a b xs,
  )

  sort-foldr : (xs : List A) → sort_by cmp xs ≡ foldr (insert_by cmp) [] xs
  unfolding sort_by
  sort-foldr [] = refl
  sort-foldr (x ∷ xs) = rw (sort-foldr xs) refl

  pub sort_by-eq_iff : (xs ys : List A) → (sort_by cmp xs ≡ sort_by cmp ys) ↔ Perm xs ys
  sort_by-eq_iff xs ys = (
    λ e.
        Perm.trans (Perm.symm (sort_by-perm cmp xs))
          (subst (λ s. Perm s ys) (sym e) (sort_by-perm cmp ys)),
    λ p.
        sort-foldr xs
        ∙ Perm.foldr-eq (hlevel) (insert_by cmp) insert_comm p []
        ∙ sym (sort-foldr ys),
  )
