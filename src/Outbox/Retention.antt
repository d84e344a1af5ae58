-- ===== src/Outbox/Retention.antt =====
-- What the cleanup keeps.
use transmogr.Base.{
  ℕ, zero, suc, ◌-◌, ◌<◌, ◌≤◌, String, ◌≡◌, refl, sym, ◌∙◌, ap, inl, inr, true, false, List, [],
  ◌∷◌, arith, keep, drop, length, ltb, ◌==◌, string_eq, eq_iff, Bool-cases,
}
use transmogr.Models.Events.{OutboxBatch}
use transmogr.Outbox.{OutboxDb, row_number, keep_newest, delete_old, delete_excess, outbox_cleanup}
use transmogr.Base.Int.{ℤ, pos}

abbrev pub of_peer : String → List OutboxBatch → List OutboxBatch
of_peer region = keep λ b. b.peer_region == region

row_number-of_peer :
    (b : OutboxBatch) (region : String) (bs : List OutboxBatch)
    → (b.peer_region == region) ≡ true
    → row_number b bs ≡ suc (length (of_peer region bs))
unfolding row_number
row_number-of_peer b region bs e = rw ((eq_iff b.peer_region region).0 e) refl

-- The last n.
abbrev pub newest : ℕ → List OutboxBatch → List OutboxBatch
newest n xs = drop (length xs - n) xs

abbrev no_batches : List OutboxBatch
no_batches = []

drop_all_zero : (n : ℕ) → drop n no_batches ≡ no_batches
drop_all_zero zero = refl
drop_all_zero (suc n) = refl

drop_none : (m : ℕ) (xs : List OutboxBatch) → m ≡ 0 → drop m xs ≡ xs
drop_none m xs h = rw h refl

newest-fits :
    (n : ℕ) (b : OutboxBatch) (xs : List OutboxBatch)
    → length xs < n
    → newest n (b ∷ xs) ≡ b ∷ newest n xs
newest-fits n b xs h =
    drop_none (suc (length xs) - n) (b ∷ xs) (omega (arith, h))
    ∙ ap (λ ys. b ∷ ys) (sym (drop_none (length xs - n) xs (omega (arith, h))))

newest-full :
    (n : ℕ) (b : OutboxBatch) (xs : List OutboxBatch)
    → n ≤ length xs
    → newest n (b ∷ xs) ≡ newest n xs
newest-full n b xs h =
    let e : suc (length xs) - n ≡ suc (length xs - n) = omega (arith, h) in
    ap (λ m. drop m (b ∷ xs)) e

of_peer-row :
    (region : String) (b : OutboxBatch) (xs : List OutboxBatch)
    → (b.peer_region == region) ≡ true
    → of_peer region (b ∷ xs) ≡ b ∷ of_peer region xs
of_peer-row region b xs e = rw e refl

of_peer-other :
    (region : String) (b : OutboxBatch) (xs : List OutboxBatch)
    → (b.peer_region == region) ≡ false
    → of_peer region (b ∷ xs) ≡ of_peer region xs
of_peer-other region b xs e = rw e refl

newest-row :
    (n : ℕ) (region : String) (b : OutboxBatch) (bs : List OutboxBatch)
    → (b.peer_region == region) ≡ true
    → of_peer region (keep_newest n bs) ≡ newest n (of_peer region bs)
    → of_peer region (keep_newest n (b ∷ bs)) ≡ newest n (b ∷ of_peer region bs)
unfolding keep_newest
newest-row n region b bs y ih = elim (Bool-cases (ltb n (row_number b bs))) [
  | inl e ↦ rw e (
      ih
      ∙ sym (
          newest-full n b (of_peer region bs)
            (ground (arith, e, row_number-of_peer b region bs y))))
  | inr e ↦ rw e (
      of_peer-row region b (keep_newest n bs) y
      ∙ (ap (λ ys. b ∷ ys) ih
          ∙ sym (
              newest-fits n b (of_peer region bs)
                (ground (arith, e, row_number-of_peer b region bs y)))))
]

other_row :
    (n : ℕ) (region : String) (b : OutboxBatch) (bs : List OutboxBatch)
    → (b.peer_region == region) ≡ false
    → of_peer region (keep_newest n (b ∷ bs)) ≡ of_peer region (keep_newest n bs)
unfolding keep_newest
other_row n region b bs o = ground (arith, o)

keep_newest-of_peer :
    (n : ℕ) (region : String) (bs : List OutboxBatch)
    → of_peer region (keep_newest n bs) ≡ newest n (of_peer region bs)
unfolding keep_newest
keep_newest-of_peer n region [] = sym (drop_all_zero (0 - n))
keep_newest-of_peer n region (b ∷ bs) = elim (Bool-cases (b.peer_region == region)) [
  | inl y ↦
      newest-row n region b bs y (keep_newest-of_peer n region bs)
      ∙ ap (newest n) (sym (of_peer-row region b bs y))
  | inr o ↦
      other_row n region b bs o
      ∙ (keep_newest-of_peer n region bs ∙ ap (newest n) (sym (of_peer-other region b bs o)))
]

excess_positive :
    (most : ℕ) (rows : List OutboxBatch)
    → delete_excess (pos (suc most)) rows ≡ keep_newest (suc most) rows
unfolding delete_excess
excess_positive most rows = ground arith

-- A cleanup keeps, of each peer, the last rows by id, at most as many as are configured, out of those
-- that are not older than the configured age.
pub cleanup_keeps_newest :
    (now : ℕ) (age : ℤ) (most : ℕ) (region : String) (db : OutboxDb)
    → of_peer region (outbox_cleanup now age (pos (suc most)) db).0.rows
      ≡ newest (suc most) (of_peer region (delete_old now age db.rows))
unfolding outbox_cleanup
cleanup_keeps_newest now age most region db =
    ap (of_peer region) (excess_positive most (delete_old now age db.rows))
    ∙ keep_newest-of_peer (suc most) region (delete_old now age db.rows)
