-- ===== src/Snapshot/Receiver/Restart.antt =====
-- A checkpoint that a finished job refuses, and the restart of the job.
use mathlib.Core.Path.{subst}
use transmogr.Base.{ℕ, ◌≡◌, inl, inr, refl, [], arith, string_eq}
use transmogr.Models.PrimaryKey.{PrimaryKey}
use transmogr.Models.State.{Scope, scope_eq, SnapshotJobStatus}
use transmogr.Apply.Batches.{Store}
use transmogr.Snapshot.Jobs.{Jobs, CheckpointResult}
use transmogr.Snapshot.Receiver.{State, ensure_requested, save_checkpoint, restart}
use transmogr.Snapshot.Receiver.Rules.{Post, bind-Post}
use transmogr.Snapshot.Receiver.Progress.{
  Recorded, Answers, updated, refused, Recorded-open, Recorded-trans, coalesce_zero,
  ensure_requested-Post, save_checkpoint-Post,
}

after_pending :
    (k : Scope) (before : Jobs) (key : PrimaryKey) (watermark : ℕ) (middle : Jobs)
    (r : CheckpointResult) (jobs : Jobs)
    → Recorded k before SnapshotJobStatus.pending [] 0 middle
    → Answers k middle SnapshotJobStatus.snapshotting key watermark r jobs
    → Recorded k before SnapshotJobStatus.snapshotting key watermark jobs
unfolding Answers
after_pending k before key watermark middle r jobs h (inl (same, h')) =
    Recorded-trans k before SnapshotJobStatus.pending SnapshotJobStatus.snapshotting [] key 0
      watermark middle jobs h h' (coalesce_zero watermark)
after_pending k before key watermark middle r jobs h (inr (same, unchanged, done)) =
    absurd (ground (arith, done, Recorded-open k before SnapshotJobStatus.pending [] 0 middle h))

module _ (Bad : Store → Jobs → Type 0) where
  abbrev pub Saved : Scope → PrimaryKey → ℕ → State → Jobs → Unit {0} → Store → Jobs → Type 0
  Saved k key watermark s before x store jobs =
      (store ≡ s.store) × Recorded k before SnapshotJobStatus.snapshotting key watermark jobs

  abbrev Requested : Scope → State → Unit {0} → Store → Jobs → Type 0
  Requested k s x store jobs =
      (store ≡ s.store) × Recorded k s.jobs SnapshotJobStatus.pending [] 0 jobs

  -- A finished job is requested again, and then takes the checkpoint.
  again-Post :
      (k : Scope) (key : PrimaryKey) (watermark : ℕ) (s : State)
      → ((jobs : Jobs) → Bad s.store jobs)
      → Post (Saved k key watermark s s.jobs) Bad (restart k key watermark refused s)
  unfolding restart refused
  again-Post k key watermark s bad =
      bind-Post Bad (Requested k s) (Saved k key watermark s s.jobs) (ensure_requested k) _ s
        (ensure_requested-Post Bad (Requested k s) k s (bad s.jobs) (λ jobs h. (refl, h)))
        λ x s₁ h.
          bind-Post Bad (λ r. Saved k key watermark s s.jobs tt) (Saved k key watermark s s.jobs)
            (save_checkpoint k key watermark) _ s₁
            (save_checkpoint-Post Bad (λ r. Saved k key watermark s s.jobs tt) k key watermark s₁
              (rw h.0 (bad s₁.jobs))
              (λ r jobs a. (h.0, after_pending k s.jobs key watermark s₁.jobs r jobs h.1 a)))
            λ r s₂ h₂. h₂

  -- The checkpoint, and its second try where the job was finished.
  pub restart-Post :
      (k : Scope) (before : Jobs) (key : PrimaryKey) (watermark : ℕ) (r : CheckpointResult)
      (s : State)
      → ((jobs : Jobs) → Bad s.store jobs)
      → Answers k before SnapshotJobStatus.snapshotting key watermark r s.jobs
      → Post (Saved k key watermark s before) Bad (restart k key watermark r s)
  unfolding restart Answers updated refused
  restart-Post k before key watermark r s bad (inl (same, h)) = rw same (refl, h)
  restart-Post k before key watermark r s bad (inr (same, unchanged, done)) = rw same (
      subst (λ b. Post (Saved k key watermark s b) Bad (restart k key watermark refused s))
        unchanged (again-Post k key watermark s bad))
