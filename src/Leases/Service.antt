-- ===== src/Leases/Service.antt =====
-- internal/service/lease/service.go: `RunWithLease` and its renewal loop. What the store, the work
-- under the lease, the timers and the context answer in one round of the loop is a `Round`; a run is
-- the list of rounds, and its trace lists what the service did.
pub mod Sessions
use transmogr.Base.{
  ℕ, String, Bool, true, false, Option, none, some, List, [], ◌∷◌, ◌++◌, if◌then◌else◌, Result, ok,
  err,
}
use transmogr.Base.Int.{ℤ, pos, leb_ℤ}
use transmogr.Models.State.{Lease, LeaseKey}

pub record Config : Type 0 where
  pub key : LeaseKey
  pub owner_id : String
  pub ttl : ℤ
  pub renew_interval : ℤ
  pub has_metrics : Bool

pub data StoreError : Type 0 where
  store_error : String → StoreError

-- What `fn` returns when it fails: an error that wraps context.Canceled, one that wraps
-- ErrChangefeedCursorSourceMismatch, or any other.
pub data WorkError : Type 0 where
  canceled source_mismatch : WorkError
  transient : String → WorkError

pub record Round : Type 0 where
  pub is_cancelled : Bool  -- ctx.Err() != nil at the top of the loop
  pub grant : Result StoreError (Option Lease)  -- TryStateAcquireLease
  pub ticks : List (Result StoreError Bool)  -- RenewStateLease at each tick until the session ends
  pub work : Option WorkError  -- fn, with `none` for nil
  pub is_cancelled_after : Bool  -- ctx.Err() != nil after the session
  pub timer_first : Bool  -- the timer of the sleep fires before ctx.Done()

pub data Action : Type 0 where
  acquire_ok acquire_miss acquire_error renew_ok renew_lost renew_error : Action
  works : Lease → Action
  cancels_session : Action
  releases : LeaseKey → String → ℕ → Action

pub data Exit : Type 0 where
  running returns_nil : Exit
  returns_store : StoreError → Exit
  returns_work : WorkError → Exit

abbrev record_metric : Config → Action → List Action
record_metric cfg a = if cfg.has_metrics then a ∷ [] else []

-- sleepWithContext
unfoldable pub sleep_with_context : ℤ → Bool → Bool → Bool
sleep_with_context delay is_alive timer_first =
    if leb_ℤ delay (pos 0) then is_alive else timer_first

-- renewLeaseLoop: it cancels the session on the first failed or refused renewal.
unfoldable pub renew_lease_loop : Config → List (Result StoreError Bool) → List Action
renew_lease_loop cfg [] = []
renew_lease_loop cfg (err e ∷ ticks) = record_metric cfg renew_error ++ cancels_session ∷ []
renew_lease_loop cfg (ok false ∷ ticks) = record_metric cfg renew_lost ++ cancels_session ∷ []
renew_lease_loop cfg (ok true ∷ ticks) = record_metric cfg renew_ok ++ renew_lease_loop cfg ticks

-- One session: the work, the renewals beside it, and the release.
unfoldable pub session : Config → Lease → Round → List Action
unfolding renew_lease_loop
session cfg l r =
    record_metric cfg acquire_ok
    ++ (works l ∷ (renew_lease_loop cfg r.ticks ++ releases l.key cfg.owner_id l.generation ∷ []))

abbrev after : List Action → List Action × Exit → List Action × Exit
after done (later, exit) = (done ++ later, exit)

-- What follows a session that ended with the error of `fn`.
next_round :
    Config → Round → List Action → Option WorkError → List Action × Exit → List Action × Exit
unfolding sleep_with_context
next_round cfg r done none rest =
    if r.is_cancelled_after then (done, returns_nil) else after done rest
next_round cfg r done (some canceled) rest =
    if r.is_cancelled_after then (done, returns_nil) else after done rest
next_round cfg r done (some source_mismatch) rest = (done, returns_work source_mismatch)
next_round cfg r done (some (transient e)) rest =
    if sleep_with_context cfg.renew_interval (if r.is_cancelled_after then false else true)
      r.timer_first
    then after done rest
    else (done, returns_nil)

granted :
    Config → Round → Result StoreError (Option Lease) → List Action × Exit → List Action × Exit
unfolding next_round session sleep_with_context
granted cfg r (err e) rest = (record_metric cfg acquire_error, returns_store e)
granted cfg r (ok none) rest =
    if sleep_with_context cfg.renew_interval (if r.is_cancelled_after then false else true)
      r.timer_first
    then after (record_metric cfg acquire_miss) rest
    else (record_metric cfg acquire_miss, returns_nil)
granted cfg r (ok (some l)) rest = next_round cfg r (session cfg l r) r.work rest

unfoldable pub run_with_lease : Config → List Round → List Action × Exit
unfolding granted
run_with_lease cfg [] = ([], running)
run_with_lease cfg (r ∷ rs) =
    let rest = run_with_lease cfg rs in
    if r.is_cancelled then ([], returns_nil) else granted cfg r r.grant rest
