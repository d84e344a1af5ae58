-- ===== src/Snapshot/Receiver/Rules.antt =====
-- What holds after a call of the receiver, by its result: rules for each way to build a call.
use transmogr.Base.{◌≡◌, refl, Bool, true, false, List, [], ◌∷◌, Result, ok, err}
use transmogr.Apply.Batches.{Store}
use transmogr.Snapshot.Jobs.{Jobs}
use transmogr.Snapshot.Receiver.{
  State, SnapshotError, M, continue, ◌>>=◌, require, statement, run_unless,
}

-- `Good` holds of the result and the tables after success, `Bad` of the tables after an error.
abbrev pub Post :
    {A : Type 0}
    → (A → Store → Jobs → Type 0)
    → (Store → Jobs → Type 0)
    → State × Result SnapshotError A
    → Type 0
Post Good Bad (s, ok a) = Good a s.store s.jobs
Post Good Bad (s, err e) = Bad s.store s.jobs

module _ (Bad : Store → Jobs → Type 0) where
  pub bind-Post :
      {A B : Type 0} (Middle : A → Store → Jobs → Type 0) (Good : B → Store → Jobs → Type 0)
      (m : M A) (f : A → M B) (s : State)
      → Post Middle Bad (m s)
      → ((a : A) (s' : State) → Middle a s'.store s'.jobs → Post Good Bad (f a s'))
      → Post Good Bad ((m >>= f) s)
  bind-Post Middle Good m f s h next = go (m s) h
    where
      go : (r : State × Result SnapshotError _) → Post Middle Bad r → Post Good Bad (continue r f)
      go (s', ok a) h = next a s' h
      go (s', err e) h = h

  pub statement-Post :
      {A : Type 0} (Good : A → Store → Jobs → Type 0) (m : M A) (s : State)
      → Bad s.store s.jobs
      → ((faults : List Bool) → Post Good Bad (m (record s { faults = faults })))
      → Post Good Bad (statement m s)
  statement-Post Good m s bad h = go s.faults
    where
      go : (fs : List Bool) → Post Good Bad (run_unless fs m s)
      go [] = h s.faults
      go (true ∷ fs) = bad
      go (false ∷ fs) = h fs

  pub require-Post :
      (Good : Unit {0} → Store → Jobs → Type 0) (b : Bool) (e : SnapshotError) (s : State)
      → Bad s.store s.jobs
      → (b ≡ true → Good tt s.store s.jobs)
      → Post Good Bad (require b e s)
  require-Post Good true e s bad h = h refl
  require-Post Good false e s bad h = bad

  pub weaken-Post :
      {A : Type 0} (Good Better : A → Store → Jobs → Type 0) (r : State × Result SnapshotError A)
      → Post Better Bad r
      → ((a : A) (store : Store) (jobs : Jobs) → Better a store jobs → Good a store jobs)
      → Post Good Bad r
  weaken-Post Good Better (s, ok a) h f = f a s.store s.jobs h
  weaken-Post Good Better (s, err e) h f = h
