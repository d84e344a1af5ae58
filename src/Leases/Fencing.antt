-- ===== src/Leases/Fencing.antt =====
-- Generations: a session whose lease was taken over cannot touch the row again.
use transmogr.Base.{
  ◌<◌, String, ◌≡◌, ◌≢◌, ◌⊎◌, refl, Option, none, some, List, [], ◌∷◌, arith, All, eq_iff, inr,
  false, ok,
}
use transmogr.Base.Int.{ℤ}
use transmogr.Models.State.{Lease, LeaseKey, lease_key_eq, lease_key_beq_iff}
use transmogr.Leases.{
  Leases, Clocks, LeaseOp, acquire, renew, release, cleanup, step, run, try_state_acquire_lease,
  renew_state_lease, release_state_lease,
}

-- Acquisitions and renewals by anyone, and releases of other keys: the row of `key` stays.
abbrev pub KeepsRow : LeaseKey → LeaseOp → Type 0
KeepsRow key (acquire at k owner ttl) = Unit
KeepsRow key (renew at k owner generation ttl) = Unit
KeepsRow key (release k owner generation) = k ≢ key
KeepsRow key (cleanup now) = ⊥

-- `m` may stand in the row after `l`: the generation grew with each new owner.
abbrev pub Follows : Lease → Lease → Type 0
Follows l m =
    (l.generation < m.generation) ⊎ ((m.generation ≡ l.generation) × (m.owner_id ≡ l.owner_id))

-- The row that `op` leaves where `l` stood.
abbrev row_or : Lease → Option Lease → Lease
row_or l none = l
row_or l (some m) = m

abbrev IsLater : Lease → Option Lease → Type 0
IsLater l o = (o ≡ some (row_or l o)) × Follows l (row_or l o)

step-IsLater :
    (key : LeaseKey) (l : Lease) (op : LeaseOp) (t : Leases)
    → t key ≡ some l
    → KeepsRow key op
    → IsLater l (step op t key)
unfolding step try_state_acquire_lease renew_state_lease release_state_lease
step-IsLater key l (acquire at k owner ttl) t h r =
    ground (arith, lease_key_beq_iff k key, eq_iff l.owner_id owner)
step-IsLater key l (renew at k owner generation ttl) t h r =
    ground (arith, lease_key_beq_iff k key, eq_iff l.owner_id owner)
step-IsLater key l (release k owner generation) t h r =
    ground (arith, lease_key_beq_iff k key, eq_iff l.owner_id owner)
step-IsLater key l (cleanup now) t h r = absurd r

Follows-trans : (l m n : Lease) → Follows l m → Follows m n → Follows l n
Follows-trans l m n h k = ground arith

run-IsLater :
    (key : LeaseKey) (l m : Lease) (ops : List LeaseOp) (t : Leases)
    → t key ≡ some m
    → Follows l m
    → All (KeepsRow key) ops
    → (n : Lease) × (run ops t key ≡ some n) × Follows l n
unfolding run
run-IsLater key l m [] t h f k = (m, h, f)
run-IsLater key l m (op ∷ ops) t h f k =
    let (there, after) = step-IsLater key m op t h k.0 in
    run-IsLater key l (row_or m (step op t key)) ops (step op t) there
      (Follows-trans l m (row_or m (step op t key)) f after) k.1

-- What a takeover leaves in the row: the new owner under a larger generation.
takeover_row :
    (at : Clocks) (key : LeaseKey) (rival : String) (ttl : ℤ) (t : Leases) (l m : Lease)
    → t key ≡ some l
    → rival ≢ l.owner_id
    → (try_state_acquire_lease at key rival ttl t).1 ≡ ok (some m)
    → ((try_state_acquire_lease at key rival ttl t).0 key ≡ some m) × (l.generation < m.generation)
unfolding try_state_acquire_lease
takeover_row at key rival ttl t l m h ne e =
    ground (arith, lease_key_beq_iff key key, eq_iff l.owner_id rival)

-- What a session can still do to the table under its owner and generation.
abbrev pub IsLockedOut : LeaseKey → Lease → Leases → Type 0
IsLockedOut key l t =
    ((at : Clocks) (ttl : ℤ) → (renew_state_lease at key l.owner_id l.generation ttl t).0 ≡ t)
    × (release_state_lease key l.owner_id l.generation t ≡ (t, false))

locked_out :
    (key : LeaseKey) (l n : Lease) (t : Leases)
    → t key ≡ some n
    → l.generation < n.generation
    → IsLockedOut key l t
unfolding renew_state_lease release_state_lease
locked_out key l n t h lt = (λ at ttl. ground arith, ground arith)

-- Once another owner has taken an expired lease over, no renewal or release by the old session
-- changes the table, after any further acquisitions and renewals, and any releases of other keys.
pub takeover_locks_out :
    (at : Clocks) (key : LeaseKey) (rival : String) (ttl : ℤ) (t : Leases) (l m : Lease)
    (ops : List LeaseOp)
    → t key ≡ some l
    → rival ≢ l.owner_id
    → (try_state_acquire_lease at key rival ttl t).1 ≡ ok (some m)
    → All (KeepsRow key) ops
    → IsLockedOut key l (run ops (try_state_acquire_lease at key rival ttl t).0)
takeover_locks_out at key rival ttl t l m ops h ne e k =
    let (there, grew) = takeover_row at key rival ttl t l m h ne e in
    let (n, last, follows) = run-IsLater key m m ops _ there (inr (refl, refl)) k in
    locked_out key l n _ last (omega arith)
