-- ===== src/Snapshot/Receiver/Applied.antt =====
-- `ApplyIncomingChunk` as a whole: the rows come first, and the job follows them.
use mathlib.Core.Path.{subst}
use transmogr.Base.{
  ℕ, ◌≡◌, ◌⊎◌, inl, inr, refl, sym, ap, ◌∙◌, Bool, true, false, Option, List, [], ◌∷◌, arith,
  if◌then◌else◌, string_eq, Result, ok, err,
}
use transmogr.Models.Events.{Fields}
use transmogr.Models.Json.{Bytes}
use transmogr.Models.State.{
  Scope, scope_eq, StateSnapshotJob, SnapshotJobStatus, SnapshotRow, SnapshotChunk,
}
use transmogr.Apply.Rows.{ApplyError}
use transmogr.Apply.Batches.{Store}
use transmogr.Snapshot.Chunks.{apply_snapshot_chunk}
use transmogr.Snapshot.Jobs.{
  Jobs, CheckpointResult, upsert_state_snapshot_job, get_state_snapshot_job,
}
use transmogr.Snapshot.Sender.{last_key}
use transmogr.Snapshot.Receiver.{
  State, statement, get_job, commit_checkpoint, applied, job_at, save_checkpoint, restart,
  apply_rows, mark_last, apply_incoming_chunk,
}
use transmogr.Snapshot.Receiver.Rules.{Post, bind-Post, statement-Post, weaken-Post}
use transmogr.Snapshot.Receiver.Progress.{
  Recorded, Answers, upsert-Recorded, Recorded-open, Recorded-trans, coalesce_twice, commit-Post,
  save_checkpoint-Post,
}
use transmogr.Snapshot.Receiver.Restart.{Saved, restart-Post}

-- What a call that succeeds leaves, by the rows of the chunk and its mark.
abbrev pub Succeeds :
    (List SnapshotRow → Store → Result ApplyError Store)
    → Scope
    → List SnapshotRow
    → Bool
    → ℕ
    → State
    → Unit {0}
    → Store
    → Jobs
    → Type 0
Succeeds write k [] false watermark s x store jobs = (store ≡ s.store) × (jobs ≡ s.jobs)
Succeeds write k [] true watermark s x store jobs =
    (store ≡ s.store)
    × Recorded k s.jobs SnapshotJobStatus.catching_up
        (get_state_snapshot_job k s.jobs).last_primary_key watermark jobs
Succeeds write k (r ∷ rs) last watermark s x store jobs =
    (write (r ∷ rs) s.store ≡ ok store)
    × Recorded k s.jobs
        (if last then SnapshotJobStatus.catching_up else SnapshotJobStatus.snapshotting)
        (last_key (r ∷ rs)) watermark jobs

-- What a call that fails leaves: nothing has changed, or the rows are applied.
abbrev pub Fails :
    (List SnapshotRow → Store → Result ApplyError Store)
    → List SnapshotRow
    → State
    → Store
    → Jobs
    → Type 0
Fails write [] s store jobs = (store ≡ s.store) × (jobs ≡ s.jobs)
Fails write (r ∷ rs) s store jobs =
    ((store ≡ s.store) × (jobs ≡ s.jobs)) ⊎ (write (r ∷ rs) s.store ≡ ok store)

module _ (object : Bytes → Option Fields) (k : Scope) where
  abbrev write : List SnapshotRow → Store → Result ApplyError Store
  write = apply_snapshot_chunk object k.peer_region k.table

  abbrev chunk_of : List SnapshotRow → Bool → ℕ → SnapshotChunk
  chunk_of rows last watermark = record { rows = rows; last = last; watermark = watermark }

  marked :
      (watermark : ℕ) (s : State) (job : StateSnapshotJob) (jobs : Jobs)
      → job ≡ get_state_snapshot_job k s.jobs
      → jobs ≡ s.jobs
      → Recorded k s.jobs SnapshotJobStatus.catching_up
          (get_state_snapshot_job k s.jobs).last_primary_key
          watermark
          (upsert_state_snapshot_job
            (job_at k SnapshotJobStatus.catching_up job.last_primary_key watermark)
            jobs)
  marked watermark s job jobs e f =
      let key = (get_state_snapshot_job k s.jobs).last_primary_key in
      let status = SnapshotJobStatus.catching_up in
      subst
        (λ (y : StateSnapshotJob).
          Recorded k s.jobs status key watermark
            (upsert_state_snapshot_job (job_at k status y.last_primary_key watermark) jobs))
        (sym e)
        (subst
          (λ b.
            Recorded k s.jobs status key watermark
              (upsert_state_snapshot_job (job_at k status key watermark) b))
          (sym f) (upsert-Recorded k s.jobs status key watermark))

  abbrev Loaded : State → StateSnapshotJob → Store → Jobs → Type 0
  Loaded s job store jobs =
      (job ≡ get_state_snapshot_job k s.jobs) × (store ≡ s.store) × (jobs ≡ s.jobs)

  no_rows-Post :
      (last : Bool) (watermark : ℕ) (s : State)
      → Post
          (Succeeds write k [] last watermark s)
          (Fails write [] s)
          (apply_incoming_chunk object k (chunk_of [] last watermark) s)
  unfolding apply_incoming_chunk
  no_rows-Post false watermark s = (refl, refl)
  no_rows-Post true watermark s =
      bind-Post (Fails write [] s) (Loaded s) (Succeeds write k [] true watermark s) (get_job k) _ s
        (statement-Post (Fails write [] s) (Loaded s) _ s (refl, refl)
          (λ faults. (refl, refl, refl)))
        λ job s₁ h.
          statement-Post (Fails write [] s) (Succeeds write k [] true watermark s) _ s₁ (h.1, h.2)
            λ faults. (h.1, marked watermark s job s₁.jobs h.0 h.2)

  module _ (r : SnapshotRow) (rs : List SnapshotRow) (watermark : ℕ) (s : State) where
    abbrev Written : Unit {0} → Store → Jobs → Type 0
    Written x store jobs =
        (write (r ∷ rs) s.store ≡ ok store)
        × Recorded k s.jobs SnapshotJobStatus.snapshotting (last_key (r ∷ rs)) watermark jobs

    abbrev Bad : Store → Jobs → Type 0
    Bad = Fails write (r ∷ rs) s

    -- The statement that writes the rows.
    applied-Post :
        (o : Result ApplyError Store) (s₁ : State)
        → write (r ∷ rs) s.store ≡ o
        → s₁.store ≡ s.store
        → s₁.jobs ≡ s.jobs
        → Post
            (λ x store jobs. (write (r ∷ rs) s.store ≡ ok store) × (jobs ≡ s.jobs))
            Bad
            (applied o s₁)
    applied-Post (ok store) s₁ e same jobs = (e, jobs)
    applied-Post (err x) s₁ e same jobs = inl (same, jobs)

    abbrev Rowed : Unit {0} → Store → Jobs → Type 0
    Rowed x store jobs = (write (r ∷ rs) s.store ≡ ok store) × (jobs ≡ s.jobs)

    abbrev Checked : CheckpointResult → Store → Jobs → Type 0
    Checked result store jobs =
        (write (r ∷ rs) s.store ≡ ok store)
        × Answers k s.jobs SnapshotJobStatus.snapshotting (last_key (r ∷ rs)) watermark result jobs

    rows-Post :
        (last : Bool) → Post Written Bad (apply_rows object k (chunk_of (r ∷ rs) last watermark) s)
    unfolding apply_rows
    rows-Post last =
        let key = last_key (r ∷ rs) in
        bind-Post Bad Rowed Written (statement λ s. applied (write (r ∷ rs) s.store) s) _ s
          (statement-Post Bad Rowed _ s (inl (refl, refl)) λ faults.
            applied-Post (write (r ∷ rs) s.store) (record s { faults = faults }) refl refl refl)
          λ x s₁ h.
            bind-Post Bad Checked Written (save_checkpoint k key watermark) _ s₁
              (save_checkpoint-Post Bad Checked k key watermark s₁ (inr h.0) λ result jobs a. (
                h.0,
                subst (λ b. Answers k b SnapshotJobStatus.snapshotting key watermark result jobs)
                    h.1 a,
              ))
              λ result s₂ h₂.
                weaken-Post Bad Written (Saved Bad k key watermark s₂ s.jobs)
                  (restart k key watermark result s₂)
                  (restart-Post Bad k s.jobs key watermark result s₂ (λ jobs. inr h₂.0) h₂.1)
                  λ y store jobs h₃. (h₂.0 ∙ ap ok (sym h₃.0), h₃.1)

    abbrev Done : Bool → Unit {0} → Store → Jobs → Type 0
    Done last = Succeeds write k (r ∷ rs) last watermark s

    last_answer :
        (result : CheckpointResult) (before jobs : Jobs)
        → Recorded k s.jobs SnapshotJobStatus.snapshotting (last_key (r ∷ rs)) watermark before
        → Answers k before SnapshotJobStatus.catching_up (last_key (r ∷ rs)) watermark result jobs
        → Recorded k s.jobs SnapshotJobStatus.catching_up (last_key (r ∷ rs)) watermark jobs
    unfolding Answers
    last_answer result before jobs h (inl (same, h')) =
        Recorded-trans k s.jobs SnapshotJobStatus.snapshotting SnapshotJobStatus.catching_up
          (last_key (r ∷ rs)) (last_key (r ∷ rs)) watermark watermark before jobs h h'
          (coalesce_twice watermark)
    last_answer result before jobs h (inr (same, unchanged, done)) = absurd (
        ground (
          arith,
          done,
          Recorded-open k s.jobs SnapshotJobStatus.snapshotting (last_key (r ∷ rs)) watermark before
              h,
        ))

    mark-Post :
        (last : Bool) (s₁ : State)
        → Written tt s₁.store s₁.jobs
        → Post (Done last) Bad (mark_last k (chunk_of (r ∷ rs) last watermark) s₁)
    unfolding mark_last
    mark-Post false s₁ h = h
    mark-Post true s₁ h =
        bind-Post Bad (λ result. Done true tt) (Done true)
          (commit_checkpoint (job_at k SnapshotJobStatus.catching_up (last_key (r ∷ rs)) watermark))
          _ s₁
          (commit-Post Bad (λ result. Done true tt) k SnapshotJobStatus.catching_up
            (last_key (r ∷ rs)) watermark s₁ refl (inr h.0)
            (λ result jobs a. (h.0, last_answer result s₁.jobs jobs h.1 a)))
          λ result s₂ h₂. h₂

    chunk-Post :
        (last : Bool)
        → Post (Done last) Bad (apply_incoming_chunk object k (chunk_of (r ∷ rs) last watermark) s)
    unfolding apply_incoming_chunk
    chunk-Post last =
        bind-Post Bad Written (Done last) (apply_rows object k (chunk_of (r ∷ rs) last watermark)) _
          s (rows-Post last) λ x s₁ h. mark-Post last s₁ h

-- Whichever statements fail: where `apply_incoming_chunk` succeeds, the rows of the chunk are applied
-- and the job of its table has moved to the key of the last row, also if that job was finished before;
-- the last chunk makes the job catch up, and without rows keeps its key; a watermark of zero keeps the
-- old one, and no other job changes. Where it fails, either nothing has changed or the rows are
-- applied, so a job never runs ahead of the rows.
pub apply_incoming_chunk-Post :
    (object : Bytes → Option Fields) (k : Scope) (rows : List SnapshotRow) (last : Bool)
    (watermark : ℕ) (s : State)
    → Post
        (Succeeds (apply_snapshot_chunk object k.peer_region k.table) k rows last watermark s)
        (Fails (apply_snapshot_chunk object k.peer_region k.table) rows s)
        (apply_incoming_chunk object k
          (record { rows = rows; last = last; watermark = watermark })
          s)
apply_incoming_chunk-Post object k [] last watermark s = no_rows-Post object k last watermark s
apply_incoming_chunk-Post object k (r ∷ rs) last watermark s =
    chunk-Post object k r rs watermark s last
