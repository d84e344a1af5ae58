-- ===== src/Leases.antt =====
-- internal/repository/postgres/state_leases.go: the table `leases` and its statements, each of which
-- PostgreSQL runs atomically. The expiry is computed from the clock of the instance, and compared with
-- the clock of the database, so each call takes both. A generation stays below 2^63.
pub mod Exclusion
pub mod Fencing
pub mod Service
use transmogr.Base.{
  ℕ, ◌+◌, String, Bool, true, false, ◌&&◌, ◌||◌, Option, none, some, leb, ltb, nat_beq,
  if◌then◌else◌, ◌==◌, string_eq, Result, ok, err, List, [], ◌∷◌,
}
use transmogr.Base.Int.{ℤ, pos, pos_part, leb_ℤ}
use transmogr.Base.Tables.{Table, put, remove, delete_where}
use transmogr.Models.State.{Lease, LeaseKey, lease_key_eq}

abbrev pub Leases : Type 0
Leases = Table LeaseKey Lease

pub record Clocks : Type 0 where
  pub local : ℕ  -- time.Now() of the instance
  pub db : ℕ  -- NOW() of the database

pub data LeaseError : Type 0 where
  ttl_not_positive : LeaseError

unfoldable pub lease_expiry : ℤ → ℕ → Result LeaseError ℕ
lease_expiry ttl local =
    if leb_ℤ ttl (pos 0) then err ttl_not_positive else ok (local + pos_part ttl)

-- What a statement leaves in the table, with its result; `none` is the Go result `false`.
abbrev pub Outcome : Type 0
Outcome = Leases × Result LeaseError (Option Lease)

abbrev store : LeaseKey → Lease → Leases → Outcome
store key l t = (put key l t, ok (some l))

-- INSERT … ON CONFLICT … DO UPDATE … WHERE expires_at <= NOW() OR owner_id = EXCLUDED.owner_id
claim : LeaseKey → String → ℕ → ℕ → Option Lease → Leases → Outcome
claim key owner expires now none t =
    store key
      (record {
        key = key;
        owner_id = owner;
        generation = 1;
        expires_at = expires;
        updated_at = now;
      })
      t
claim key owner expires now (some l) t =
    if leb l.expires_at now || l.owner_id == owner
    then store key
        (record {
          key = key;
          owner_id = owner;
          generation = if l.owner_id == owner then l.generation else l.generation + 1;
          expires_at = expires;
          updated_at = now;
        })
        t
    else (t, ok none)

unfoldable pub try_state_acquire_lease : Clocks → LeaseKey → String → ℤ → Leases → Outcome
unfolding claim lease_expiry
try_state_acquire_lease at key owner ttl t = elim (lease_expiry ttl at.local) [
  | err e ↦ (t, err e)
  | ok expires ↦ claim key owner expires at.db (t key) t
]

-- The WHERE clause of the UPDATE.
extend : LeaseKey → String → ℕ → ℕ → ℕ → Option Lease → Leases → Outcome
extend key owner generation expires now none t = (t, ok none)
extend key owner generation expires now (some l) t =
    if l.owner_id == owner && nat_beq l.generation generation && ltb now l.expires_at
    then store key (record l { expires_at = expires; updated_at = now }) t
    else (t, ok none)

unfoldable pub renew_state_lease : Clocks → LeaseKey → String → ℕ → ℤ → Leases → Outcome
unfolding extend lease_expiry
renew_state_lease at key owner generation ttl t = elim (lease_expiry ttl at.local) [
  | err e ↦ (t, err e)
  | ok expires ↦ extend key owner generation expires at.db (t key) t
]

drop_owned : LeaseKey → String → ℕ → Option Lease → Leases → Leases × Bool
drop_owned key owner generation none t = (t, false)
drop_owned key owner generation (some l) t =
    if l.owner_id == owner && nat_beq l.generation generation
    then (remove key t, true)
    else (t, false)

unfoldable pub release_state_lease : LeaseKey → String → ℕ → Leases → Leases × Bool
unfolding drop_owned
release_state_lease key owner generation t = drop_owned key owner generation (t key) t

-- A missing row is the zero Lease in Go.
unfoldable pub get_state_lease : LeaseKey → Leases → Option Lease
get_state_lease key t = t key

unfoldable pub cleanup_expired_state_leases : ℕ → Leases → Leases
cleanup_expired_state_leases now = delete_where (λ l. leb l.expires_at now)

-- A statement that some instance sends, and a history of them.
pub data LeaseOp : Type 0 where
  acquire : Clocks → LeaseKey → String → ℤ → LeaseOp
  renew : Clocks → LeaseKey → String → ℕ → ℤ → LeaseOp
  release : LeaseKey → String → ℕ → LeaseOp
  cleanup : ℕ → LeaseOp

unfoldable pub step : LeaseOp → Leases → Leases
step (acquire at key owner ttl) t = (try_state_acquire_lease at key owner ttl t).0
step (renew at key owner generation ttl) t = (renew_state_lease at key owner generation ttl t).0
step (release key owner generation) t = (release_state_lease key owner generation t).0
step (cleanup now) t = cleanup_expired_state_leases now t

unfoldable pub run : List LeaseOp → Leases → Leases
run [] t = t
run (op ∷ ops) t = run ops (step op t)
