-- ===== src/Server/Feed/Copies.antt =====
-- How often a batch, by its id, is in a list.
use mathlib.Core.Path.{subst}
use transmogr.Base.{
  ℕ, ◌+◌, ◌<◌, ◌≡◌, inl, inr, refl, ap, Bool, List, [], ◌∷◌, ◌++◌, keep, arith, All, nat_beq,
  if◌then◌else◌, Bool-cases,
}
use transmogr.Models.Events.{OutboxBatch}
use transmogr.Outbox.Invariant.{Differs, Rows}
use transmogr.Outbox.Stored.{IsStored}

unfoldable pub copies : ℕ → List OutboxBatch → ℕ
copies id [] = 0
copies id (b ∷ bs) = (if nat_beq b.id id then 1 else 0) + copies id bs

pub copies-append :
    (id : ℕ) (xs ys : List OutboxBatch) → copies id (xs ++ ys) ≡ copies id xs + copies id ys
unfolding copies
copies-append id [] ys = omega arith
copies-append id (x ∷ xs) ys = omega (arith, copies-append id xs ys)

-- Every batch of this id is this batch.
abbrev pub IsAlone : OutboxBatch → List OutboxBatch → Type 0
IsAlone b = All λ (x : OutboxBatch). x.id ≡ b.id → x ≡ b

pub copies-keep :
    (b : OutboxBatch) (p : OutboxBatch → Bool) (bs : List OutboxBatch)
    → IsAlone b bs
    → copies b.id (keep p bs) ≡ (if p b then copies b.id bs else 0)
unfolding copies
copies-keep b p [] h = ground arith
copies-keep b p (x ∷ xs) h = elim (Bool-cases (nat_beq x.id b.id)) [
  | inl e ↦
      let same : p x ≡ p b = ap p (h.0 (ground (arith, e))) in
      ground (arith, e, same, copies-keep b p xs h.1)
  | inr e ↦ ground (arith, e, copies-keep b p xs h.1)
]

later-copies :
    (b : OutboxBatch) (bs : List OutboxBatch)
    → All (Differs b) bs
    → (copies b.id bs ≡ 0) × IsAlone b bs
unfolding copies
later-copies b [] h = (refl, tt)
later-copies b (x ∷ xs) h =
    let (none_later, apart) = later-copies b xs h.1 in
    (ground (arith, h.0.0, none_later), ((λ e. absurd (omega (arith, h.0.0, e))), apart))

stored_after :
    (b y : OutboxBatch) (ys : List OutboxBatch) → All (Differs y) ys → IsStored b ys → y.id < b.id
stored_after b y [] d h = absurd h
stored_after b y (x ∷ xs) d (inl e) = subst (λ (z : OutboxBatch). y.id < z.id) e d.0.0
stored_after b y (x ∷ xs) d (inr h) = stored_after b y xs d.1 h

-- A row of a well-formed outbox is in it once.
pub stored-copies :
    (next : ℕ) (b : OutboxBatch) (rows : List OutboxBatch)
    → Rows next rows
    → IsStored b rows
    → (copies b.id rows ≡ 1) × IsAlone b rows
unfolding copies
stored-copies next b [] r h = absurd h
stored-copies next b (y ∷ ys) r (inl e) =
    subst (λ (z : OutboxBatch). (copies z.id (y ∷ ys) ≡ 1) × IsAlone z (y ∷ ys)) e
      (let (none_later, apart) = later-copies y ys r.1 in
        (ground (arith, none_later), ((λ p. refl), apart)))
stored-copies next b (y ∷ ys) r (inr h) =
    let (once, apart) = stored-copies next b ys r.2 h in
    let before = stored_after b y ys r.1 h in
    (ground (arith, once, before), ((λ p. absurd (omega (arith, before, p))), apart))
