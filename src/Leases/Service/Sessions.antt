-- ===== src/Leases/Service/Sessions.antt =====
-- What `RunWithLease` guarantees over every sequence of rounds.
use transmogr.Base.{
  String, ◌≡◌, ◌≢◌, refl, ◌∙◌, inl, inr, Bool, true, false, Option, none, some, List, [], ◌∷◌, ◌++◌,
  arith, All, if◌then◌else◌, Result, ok, err, string_eq, Bool-cases,
}
use mathlib.Core.Path.{subst}
use mathlib.Core.List.{append_assoc, append-nil}
use transmogr.Base.Int.{ℤ}
use transmogr.Models.State.{Lease, lease_key_eq}
use transmogr.Leases.Service.{
  Config, StoreError, source_mismatch, Round, Action, works, releases, Exit, running, returns_work,
  sleep_with_context, renew_lease_loop, session, next_round, granted, run_with_lease,
}

-- The lease under which the work runs, along a trace: the work starts while no lease is in use, and
-- the trace ends, or the next work starts, only after the release of that lease by its owner, at its
-- generation.
abbrev pub IsPaired : String → Option Lease → List Action → Type 0
IsPaired owner none [] = Unit
IsPaired owner (some l) [] = ⊥
IsPaired owner none (works l ∷ rest) = IsPaired owner (some l) rest
IsPaired owner (some m) (works l ∷ rest) = ⊥
IsPaired owner none (releases key o g ∷ rest) = ⊥
IsPaired owner (some l) (releases key o g ∷ rest) =
    (key ≡ l.key) × (o ≡ owner) × (g ≡ l.generation) × IsPaired owner none rest
IsPaired owner s (a ∷ rest) = IsPaired owner s rest

renewals-IsPaired :
    (cfg : Config) (l : Lease) (ticks : List (Result StoreError Bool)) (rest : List Action)
    → IsPaired cfg.owner_id (some l) rest
    → IsPaired cfg.owner_id (some l) (renew_lease_loop cfg ticks ++ rest)
unfolding renew_lease_loop
renewals-IsPaired cfg l [] rest h = h
renewals-IsPaired cfg l (err e ∷ ts) rest h = ground arith
renewals-IsPaired cfg l (ok false ∷ ts) rest h = ground arith
renewals-IsPaired cfg l (ok true ∷ ts) rest h = ground (arith, renewals-IsPaired cfg l ts rest h)

work-IsPaired :
    (cfg : Config) (l : Lease) (r : Round) (rest : List Action)
    → IsPaired cfg.owner_id none rest
    → IsPaired cfg.owner_id
        (some l)
        ((renew_lease_loop cfg r.ticks ++ releases l.key cfg.owner_id l.generation ∷ []) ++ rest)
work-IsPaired cfg l r rest h =
    rw append_assoc (renewals-IsPaired cfg l r.ticks _ (refl, refl, refl, h))

session-IsPaired :
    (cfg : Config) (l : Lease) (r : Round) (rest : List Action)
    → IsPaired cfg.owner_id none rest
    → IsPaired cfg.owner_id none (session cfg l r ++ rest)
unfolding session
session-IsPaired cfg l r rest h = elim (Bool-cases cfg.has_metrics) [
  | inl e ↦ simp e (work-IsPaired cfg l r rest h)
  | inr e ↦ simp e (work-IsPaired cfg l r rest h)
]

-- A session that is the last of its trace.
session_end-IsPaired :
    (cfg : Config) (l : Lease) (r : Round) → IsPaired cfg.owner_id none (session cfg l r)
session_end-IsPaired cfg l r =
    subst (IsPaired cfg.owner_id none) (append-nil (session cfg l r))
      (session-IsPaired cfg l r [] tt)

granted-IsPaired :
    (cfg : Config) (r : Round) (g : Result StoreError (Option Lease)) (rest : List Action × Exit)
    → IsPaired cfg.owner_id none rest.0
    → IsPaired cfg.owner_id none (granted cfg r g rest).0
unfolding granted next_round
granted-IsPaired cfg r (err e) rest h = ground arith
granted-IsPaired cfg r (ok none) rest h = ground arith
granted-IsPaired cfg r (ok (some l)) rest h =
    ground (arith, session_end-IsPaired cfg l r, session-IsPaired cfg l r rest.0 h)

-- Whatever the store, the work, the timers and the context answer, the work never runs twice at a
-- time, and each run is followed by the release of the lease under which it ran, by this owner and at
-- its generation, before the next run and before the service returns.
pub run_with_lease-IsPaired :
    (cfg : Config) (rounds : List Round) → IsPaired cfg.owner_id none (run_with_lease cfg rounds).0
unfolding run_with_lease
run_with_lease-IsPaired cfg [] = tt
run_with_lease-IsPaired cfg (r ∷ rs) =
    let later =
      granted-IsPaired cfg r r.grant (run_with_lease cfg rs) (run_with_lease-IsPaired cfg rs) in
    elim (Bool-cases r.is_cancelled) [ inl e ↦ rw e tt | inr e ↦ rw e later ]

-- The context is alive, sleeps end by their timers, the store answers, and the work never reports a
-- source mismatch.
pub record IsQuiet (r : Round) : Type 0 where
  pub alive : r.is_cancelled ≡ false
  pub alive_after : r.is_cancelled_after ≡ false
  pub timer : r.timer_first ≡ true
  pub answers : (g : Option Lease) × (r.grant ≡ ok g)
  pub same_source : r.work ≢ some source_mismatch

quiet_sleep :
    (delay : ℤ) (r : Round)
    → IsQuiet r
    → sleep_with_context delay (if r.is_cancelled_after then false else true) r.timer_first ≡ true
unfolding sleep_with_context
quiet_sleep delay r q = ground arith

granted_quiet :
    (cfg : Config) (r : Round) (g : Option Lease) (rest : List Action × Exit)
    → IsQuiet r
    → (granted cfg r (ok g) rest).1 ≡ rest.1
unfolding granted next_round
granted_quiet cfg r none rest q = ground (arith, quiet_sleep cfg.renew_interval r q)
granted_quiet cfg r (some l) rest q = ground (arith, quiet_sleep cfg.renew_interval r q)

-- While the context lives and the store answers, lost leases and transient failures of the work
-- never end the service.
pub run_with_lease_goes_on :
    (cfg : Config) (rounds : List Round)
    → All IsQuiet rounds
    → (run_with_lease cfg rounds).1 ≡ running
unfolding run_with_lease
run_with_lease_goes_on cfg [] h = refl
run_with_lease_goes_on cfg (r ∷ rs) h =
    let (g, answer) = h.0.answers in
    rw (h.0.alive, answer)
      (granted_quiet cfg r g (run_with_lease cfg rs) h.0 ∙ run_with_lease_goes_on cfg rs h.1)

-- An error that the service returns is one of the store on acquisition, or a source mismatch.
abbrev pub IsFatal : Exit → Type 0
IsFatal (returns_work e) = e ≡ source_mismatch
IsFatal e = Unit

granted-IsFatal :
    (cfg : Config) (r : Round) (g : Result StoreError (Option Lease)) (rest : List Action × Exit)
    → IsFatal rest.1
    → IsFatal (granted cfg r g rest).1
unfolding granted next_round
granted-IsFatal cfg r (err e) rest h = tt
granted-IsFatal cfg r (ok none) rest h = ground arith
granted-IsFatal cfg r (ok (some l)) rest h = ground arith

-- The service never returns an error of the work other than a source mismatch: neither a
-- cancellation nor a transient failure.
pub run_with_lease-IsFatal :
    (cfg : Config) (rounds : List Round) → IsFatal (run_with_lease cfg rounds).1
unfolding run_with_lease
run_with_lease-IsFatal cfg [] = tt
run_with_lease-IsFatal cfg (r ∷ rs) =
    let later =
      granted-IsFatal cfg r r.grant (run_with_lease cfg rs) (run_with_lease-IsFatal cfg rs) in
    elim (Bool-cases r.is_cancelled) [ inl e ↦ rw e tt | inr e ↦ rw e later ]
