-- ===== src/Witnesses/Leases.antt =====
-- Leases: a holder, a rival, and sessions of the service.
use transmogr.Base.{
  ℕ, ◌<◌, String, ◌≡◌, ◌≢◌, ◌↔◌, inr, refl, true, false, none, some, List, [], ◌∷◌, arith, All,
  eq_iff, ok,
}
use transmogr.Base.Int.{pos}
use transmogr.Base.Tables.{put, no_rows}
use transmogr.Models.State.{Lease, LeaseKey, lease_key_eq}
use transmogr.Leases.{
  Leases, Clocks, LeaseOp, acquire, renew, cleanup, run, try_state_acquire_lease,
}
use transmogr.Leases.Exclusion.{IsRival, run-keeps, acquire_refused_iff}
use transmogr.Leases.Fencing.{IsLockedOut, takeover_locks_out}
use transmogr.Leases.Service.{Config, Round, running, transient, run_with_lease}
use transmogr.Leases.Service.Sessions.{
  IsPaired, IsQuiet, IsFatal, run_with_lease-IsPaired, run_with_lease_goes_on,
  run_with_lease-IsFatal,
}

abbrev feed_key : LeaseKey
feed_key = record { kind = "changefeed"; region = "eu"; peer_region = ""; table = "" }

abbrev held : Lease
held = record { key = feed_key; owner_id = "a"; generation = 4; expires_at = 10; updated_at = 1 }

abbrev table : Leases
table = put feed_key held no_rows

abbrev at_time : ℕ → Clocks
at_time n = record { local = n; db = n }

abbrev rivals : List LeaseOp
rivals =
    acquire (at_time 5) feed_key "b" (pos 30)
    ∷ renew (at_time 6) feed_key "b" 4 (pos 30)
    ∷ cleanup 7
    ∷ []

abbrev rival : String
rival = "b"

b_is_not_a : rival ≢ "a"
b_is_not_a e = ground (arith, e, eq_iff "b" "a")

All-rivals : All (IsRival feed_key held) rivals
All-rivals = (inr (b_is_not_a, omega arith), (inr b_is_not_a, (omega arith, tt)))

run-keeps_example : run rivals table feed_key ≡ some held
run-keeps_example = run-keeps feed_key held rivals table refl All-rivals

acquire_refused_iff_example :
    ((try_state_acquire_lease (at_time 5) feed_key "b" (pos 30) table).1 ≡ ok none)
    ↔ ((l : Lease) × (table feed_key ≡ some l) × (5 < l.expires_at) × ("b" ≢ l.owner_id))
acquire_refused_iff_example = acquire_refused_iff (at_time 5) feed_key "b" 30 table (omega arith)

-- After the expiry another owner takes over, and renews.
abbrev taken_over : Lease
taken_over = record {
  key = feed_key;
  owner_id = "b";
  generation = 5;
  expires_at = 50;
  updated_at = 20;
}

taken_over_runs :
    (try_state_acquire_lease (at_time 20) feed_key "b" (pos 30) table).1 ≡ ok (some taken_over)
unfolding try_state_acquire_lease
taken_over_runs = refl

abbrev later_ops : List LeaseOp
later_ops =
    renew (at_time 30) feed_key "b" 5 (pos 30) ∷ acquire (at_time 40) feed_key "a" (pos 30) ∷ []

takeover_locks_out_example :
    IsLockedOut feed_key held
      (run later_ops (try_state_acquire_lease (at_time 20) feed_key "b" (pos 30) table).0)
takeover_locks_out_example =
    takeover_locks_out (at_time 20) feed_key "b" (pos 30) table held taken_over later_ops refl
      b_is_not_a taken_over_runs (tt, (tt, tt))

abbrev config : Config
config = record {
  key = feed_key;
  owner_id = "a";
  ttl = pos 30;
  renew_interval = pos 10;
  has_metrics = true;
}

-- A round whose renewal is lost, and whose work fails.
abbrev lost_round : Round
lost_round = record {
  is_cancelled = false;
  grant = ok (some held);
  ticks = ok true ∷ ok false ∷ [];
  work = some (transient "connection reset");
  is_cancelled_after = false;
  timer_first = true;
}

run_with_lease-IsPaired_example :
    IsPaired "a" none (run_with_lease config (lost_round ∷ lost_round ∷ [])).0
run_with_lease-IsPaired_example = run_with_lease-IsPaired config (lost_round ∷ lost_round ∷ [])

lost_round-IsQuiet : IsQuiet lost_round
lost_round-IsQuiet = record {
  alive = refl;
  alive_after = refl;
  timer = refl;
  answers = (some held, refl);
  same_source = λ e. ground (arith, e);
}

run_with_lease_goes_on_example : (run_with_lease config (lost_round ∷ lost_round ∷ [])).1 ≡ running
run_with_lease_goes_on_example =
    run_with_lease_goes_on config (lost_round ∷ lost_round ∷ [])
      (lost_round-IsQuiet, (lost_round-IsQuiet, tt))

run_with_lease-IsFatal_example : IsFatal (run_with_lease config (lost_round ∷ [])).1
run_with_lease-IsFatal_example = run_with_lease-IsFatal config (lost_round ∷ [])
