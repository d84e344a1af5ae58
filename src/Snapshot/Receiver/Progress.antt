-- ===== src/Snapshot/Receiver/Progress.antt =====
-- Checkpoints of a snapshot job: what the statements write, and what they refuse.
use transmogr.Base.{
  ℕ, ◌≡◌, ◌⊎◌, inl, inr, refl, ap, ◌∙◌, Bool, true, false, not, some, [], arith, ◌==◌, string_eq,
  Bool-cases, Option-cases,
}
use transmogr.Base.Tables.{put}
use transmogr.Models.PrimaryKey.{PrimaryKey}
use transmogr.Models.State.{Scope, scope_eq, scope_beq_iff, SnapshotJobStatus}
use transmogr.Apply.Batches.{Store}
use transmogr.Snapshot.Jobs.{
  Jobs, CheckpointResult, no_reason, snapshot_done, coalesce, or_snapshotting,
  get_state_snapshot_job, upsert_state_snapshot_job, commit_state_snapshot_checkpoint,
}
use transmogr.Snapshot.Receiver.{
  State, region_required, table_required, M, ◌>>◌, require, upsert_job, commit_checkpoint, job_at,
  require_scope, ensure_requested, save_checkpoint,
}
use transmogr.Snapshot.Receiver.Rules.{Post, statement-Post}

-- The job of `k` is as written, and no other job has changed.
abbrev pub Recorded : Scope → Jobs → SnapshotJobStatus → PrimaryKey → ℕ → Jobs → Type 0
Recorded k before status key watermark jobs =
    (jobs k
      ≡ some
          (job_at k status key (coalesce watermark (get_state_snapshot_job k before).watermark_at)))
    × ((j : Scope) → (k == j) ≡ false → jobs j ≡ before j)

unfoldable pub updated : CheckpointResult
updated = record { is_updated = true; reason = no_reason }

unfoldable pub refused : CheckpointResult
refused = record { is_updated = false; reason = snapshot_done }

-- What a checkpoint with a status answers: it is refused only by a job that is finished.
unfoldable pub Answers :
    Scope → Jobs → SnapshotJobStatus → PrimaryKey → ℕ → CheckpointResult → Jobs → Type 0
Answers k before status key watermark result jobs =
    ((result ≡ updated) × Recorded k before status key watermark jobs)
    ⊎ ((result ≡ refused)
        × (jobs ≡ before)
        × ((get_state_snapshot_job k before).is_finished ≡ true))

pub upsert-Recorded :
    (k : Scope) (jobs : Jobs) (status : SnapshotJobStatus) (key : PrimaryKey) (watermark : ℕ)
    → Recorded k jobs status key watermark
        (upsert_state_snapshot_job (job_at k status key watermark) jobs)
unfolding upsert_state_snapshot_job get_state_snapshot_job
upsert-Recorded k jobs status key watermark =
    (ground (arith, scope_beq_iff k k), λ j e. ground arith)

pub put-Recorded :
    (k : Scope) (jobs : Jobs) (status : SnapshotJobStatus) (key : PrimaryKey) (watermark : ℕ)
    → Recorded k jobs status key watermark (
        put k
          (job_at k status key (coalesce watermark (get_state_snapshot_job k jobs).watermark_at))
          jobs)
put-Recorded k jobs status key watermark = (ground (arith, scope_beq_iff k k), λ j e. rw e refl)

-- A checkpoint with a status is written over a job that is not finished, and over no other.
pub commit_open :
    (k : Scope) (jobs : Jobs) (status : SnapshotJobStatus) (key : PrimaryKey) (watermark : ℕ)
    → or_snapshotting status ≡ status
    → (get_state_snapshot_job k jobs).is_finished ≡ false
    → commit_state_snapshot_checkpoint (job_at k status key watermark) jobs ≡ (
      put k
          (job_at k status key (coalesce watermark (get_state_snapshot_job k jobs).watermark_at))
          jobs,
      updated,
    )
unfolding commit_state_snapshot_checkpoint get_state_snapshot_job updated
commit_open k jobs status key watermark active e = elim (Option-cases (jobs k)) [
  | inl none_there ↦ rw (none_there, active) (ground arith)
  | inr (job, there) ↦ ground (arith, active, e, there)
]

commit_finished :
    (k : Scope) (jobs : Jobs) (status : SnapshotJobStatus) (key : PrimaryKey) (watermark : ℕ)
    → (get_state_snapshot_job k jobs).is_finished ≡ true
    → commit_state_snapshot_checkpoint (job_at k status key watermark) jobs ≡ (jobs, refused)
unfolding commit_state_snapshot_checkpoint get_state_snapshot_job refused
commit_finished k jobs status key watermark e = elim (Option-cases (jobs k)) [
  | inl none_there ↦ ground (arith, none_there, e)
  | inr (job, there) ↦ ground (arith, e, there)
]

pub Recorded-open :
    (k : Scope) (before : Jobs) (status : SnapshotJobStatus) (key : PrimaryKey) (watermark : ℕ)
    (jobs : Jobs)
    → Recorded k before status key watermark jobs
    → ((get_state_snapshot_job k jobs).is_finished ≡ false)
      × ((get_state_snapshot_job k jobs).watermark_at
          ≡ coalesce watermark (get_state_snapshot_job k before).watermark_at)
unfolding get_state_snapshot_job
Recorded-open k before status key watermark jobs h = rw h.0 (refl, refl)

-- One checkpoint after another is the second, if its watermark makes up for the first's.
pub Recorded-trans :
    (k : Scope) (before : Jobs) (status status' : SnapshotJobStatus) (key key' : PrimaryKey)
    (watermark watermark' : ℕ) (middle jobs : Jobs)
    → Recorded k before status key watermark middle
    → Recorded k middle status' key' watermark' jobs
    → ((old : ℕ) → coalesce watermark' (coalesce watermark old) ≡ coalesce watermark' old)
    → Recorded k before status' key' watermark' jobs
Recorded-trans k before status status' key key' watermark watermark' middle jobs h h' same = (
  h'.0
      ∙ ap (λ w. some (job_at k status' key' w))
          (ap (coalesce watermark') (Recorded-open k before status key watermark middle h).1
            ∙ same (get_state_snapshot_job k before).watermark_at),
  λ j e. h'.1 j e ∙ h.1 j e,
)

pub coalesce_twice : (w old : ℕ) → coalesce w (coalesce w old) ≡ coalesce w old
coalesce_twice w old = ground arith

pub coalesce_zero : (w old : ℕ) → coalesce w (coalesce 0 old) ≡ coalesce w old
coalesce_zero w old = ground arith

module _ (Bad : Store → Jobs → Type 0) where
  pub scope-Post :
      {B : Type 0} (Good : B → Store → Jobs → Type 0) (k : Scope) (m : M B) (s : State)
      → Bad s.store s.jobs
      → Post Good Bad (m s)
      → Post Good Bad ((require_scope k >> m) s)
  scope-Post Good k m s bad h = go (not (k.peer_region == "")) (not (k.table == ""))
    where
      go :
          (a b : Bool)
          → Post Good Bad (((require a region_required >> require b table_required) >> m) s)
      go true true = h
      go true false = bad
      go false b = bad

  pub ensure_requested-Post :
      (Good : Unit {0} → Store → Jobs → Type 0) (k : Scope) (s : State)
      → Bad s.store s.jobs
      → ((jobs : Jobs)
          → Recorded k s.jobs SnapshotJobStatus.pending [] 0 jobs
          → Good tt s.store jobs)
      → Post Good Bad (ensure_requested k s)
  unfolding ensure_requested
  ensure_requested-Post Good k s bad h =
      scope-Post Good k (upsert_job (job_at k SnapshotJobStatus.pending [] 0)) s bad (
        statement-Post Bad Good _ s bad
          λ faults. h _ (upsert-Recorded k s.jobs SnapshotJobStatus.pending [] 0))

  pub commit-Post :
      (Good : CheckpointResult → Store → Jobs → Type 0) (k : Scope) (status : SnapshotJobStatus)
      (key : PrimaryKey) (watermark : ℕ) (s : State)
      → or_snapshotting status ≡ status
      → Bad s.store s.jobs
      → ((r : CheckpointResult) (jobs : Jobs)
          → Answers k s.jobs status key watermark r jobs
          → Good r s.store jobs)
      → Post Good Bad (commit_checkpoint (job_at k status key watermark) s)
  unfolding Answers
  commit-Post Good k status key watermark s active bad h = statement-Post Bad Good _ s bad λ faults.
      elim (Bool-cases (get_state_snapshot_job k s.jobs).is_finished) [
        | inl e ↦
            let c = commit_finished k s.jobs status key watermark e in
            h _ _ (inr (ap (λ x. x.1) c, ap (λ x. x.0) c, e))
        | inr e ↦
            let c = commit_open k s.jobs status key watermark active e in
            h _ _ (inl (ap (λ x. x.1) c, rw c (put-Recorded k s.jobs status key watermark)))
      ]

  pub save_checkpoint-Post :
      (Good : CheckpointResult → Store → Jobs → Type 0) (k : Scope) (key : PrimaryKey)
      (watermark : ℕ) (s : State)
      → Bad s.store s.jobs
      → ((r : CheckpointResult) (jobs : Jobs)
          → Answers k s.jobs SnapshotJobStatus.snapshotting key watermark r jobs
          → Good r s.store jobs)
      → Post Good Bad (save_checkpoint k key watermark s)
  unfolding save_checkpoint
  save_checkpoint-Post Good k key watermark s bad h =
      scope-Post Good k _ s bad
        (commit-Post Good k SnapshotJobStatus.snapshotting key watermark s refl bad h)
