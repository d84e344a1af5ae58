-- ===== src/Leases/Exclusion.antt =====
-- Mutual exclusion by leases, over every interleaving of the statements of the instances.
use transmogr.Base.{
  ℕ, ◌+◌, ◌<◌, String, ◌≡◌, ◌≢◌, ◌⊎◌, ◌↔◌, refl, Option, none, some, List, [], ◌∷◌, arith, All,
  eq_iff, ok,
}
use transmogr.Base.Int.{pos}
use transmogr.Models.State.{Lease, LeaseKey, lease_key_eq, lease_key_beq_iff}
use transmogr.Leases.{
  Leases, Clocks, LeaseOp, acquire, renew, release, cleanup, step, run, lease_expiry, claim,
  try_state_acquire_lease, renew_state_lease, release_state_lease, cleanup_expired_state_leases,
}

-- The statement is not one of the holder of `l`, or is about another key, and comes before `l` expires.
abbrev pub IsRival : LeaseKey → Lease → LeaseOp → Type 0
IsRival key l (acquire at k owner ttl) = (k ≢ key) ⊎ ((owner ≢ l.owner_id) × (at.db < l.expires_at))
IsRival key l (renew at k owner generation ttl) = (k ≢ key) ⊎ (owner ≢ l.owner_id)
IsRival key l (release k owner generation) = (k ≢ key) ⊎ (owner ≢ l.owner_id)
IsRival key l (cleanup now) = now < l.expires_at

step-keeps :
    (key : LeaseKey) (l : Lease) (op : LeaseOp) (t : Leases)
    → t key ≡ some l
    → IsRival key l op
    → step op t key ≡ some l
unfolding step try_state_acquire_lease renew_state_lease release_state_lease
    cleanup_expired_state_leases
step-keeps key l (acquire at k owner ttl) t h r =
    ground (arith, lease_key_beq_iff k key, eq_iff l.owner_id owner)
step-keeps key l (renew at k owner generation ttl) t h r =
    ground (arith, lease_key_beq_iff k key, eq_iff l.owner_id owner)
step-keeps key l (release k owner generation) t h r =
    ground (arith, lease_key_beq_iff k key, eq_iff l.owner_id owner)
step-keeps key l (cleanup now) t h r = rw h (ground arith)

-- While a lease has not expired by the clock of the database, no sequence of statements of other
-- owners, of statements about other keys and of cleanups changes its row.
pub run-keeps :
    (key : LeaseKey) (l : Lease) (ops : List LeaseOp) (t : Leases)
    → t key ≡ some l
    → All (IsRival key l) ops
    → run ops t key ≡ some l
unfolding run
run-keeps key l [] t h r = h
run-keeps key l (op ∷ ops) t h r = run-keeps key l ops (step op t) (step-keeps key l op t h r.0) r.1

lease_expiry_positive : (ttl local : ℕ) → 0 < ttl → lease_expiry (pos ttl) local ≡ ok (local + ttl)
unfolding lease_expiry
lease_expiry_positive ttl local h = ground arith

claim_refused_iff :
    (key : LeaseKey) (owner : String) (expires now : ℕ) (o : Option Lease) (t : Leases)
    → ((claim key owner expires now o t).1 ≡ ok none)
      ↔ ((l : Lease) × (o ≡ some l) × (now < l.expires_at) × (owner ≢ l.owner_id))
unfolding claim
claim_refused_iff key owner expires now none t = (λ e. cc, λ (l, e, _, _). cc)
claim_refused_iff key owner expires now (some l) t = (
  λ e. (l, refl, ground (arith, eq_iff l.owner_id owner), ground (arith, eq_iff l.owner_id owner)),
  λ (x, e, alive, other). ground (arith, eq_iff l.owner_id owner),
)

-- A request with a positive TTL is refused exactly when another owner holds the lease and it has not
-- expired by the clock of the database.
pub acquire_refused_iff :
    (at : Clocks) (key : LeaseKey) (owner : String) (ttl : ℕ) (t : Leases)
    → 0 < ttl
    → ((try_state_acquire_lease at key owner (pos ttl) t).1 ≡ ok none)
      ↔ ((l : Lease) × (t key ≡ some l) × (at.db < l.expires_at) × (owner ≢ l.owner_id))
unfolding try_state_acquire_lease
acquire_refused_iff at key owner ttl t h =
    rw (lease_expiry_positive ttl at.local h, try_state_acquire_lease)
      (claim_refused_iff key owner (at.local + ttl) at.db (t key) t)
