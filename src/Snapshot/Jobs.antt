-- ===== src/Snapshot/Jobs.antt =====
-- internal/repository/postgres/state_snapshots.go: the table `snapshot_jobs`. A watermark of zero is
-- NULL, and the column `started_at` is not kept, as no code reads it.
use transmogr.Base.{
  ℕ, Bool, true, false, not, Option, none, some, List, [], keep, nat_beq, if◌then◌else◌,
}
use transmogr.Base.Order.{Ordering, then_cmp}
use transmogr.Base.Sorting.{sort_by}
use transmogr.Base.Tables.{Table, put, remove}
use transmogr.Base.Text.{cmp_str}
use transmogr.Models.State.{Scope, scope_eq, StateSnapshotJob, SnapshotJobStatus}

abbrev pub Jobs : Type 0
Jobs = Table Scope StateSnapshotJob

abbrev pub job_key : StateSnapshotJob → Scope
job_key job = record { peer_region = job.peer_region; table = job.table }

-- A missing row is a job that names its key.
abbrev pub or_new_job : Scope → Option StateSnapshotJob → StateSnapshotJob
or_new_job k none = record {
  peer_region = k.peer_region;
  table = k.table;
  status = SnapshotJobStatus.unset;
  last_primary_key = [];
  watermark_at = 0;
  is_finished = false;
}
or_new_job k (some job) = job

unfoldable pub get_state_snapshot_job : Scope → Jobs → StateSnapshotJob
get_state_snapshot_job k jobs = or_new_job k (jobs k)

-- COALESCE(EXCLUDED.watermark_at, snapshot_jobs.watermark_at)
abbrev pub coalesce : ℕ → ℕ → ℕ
coalesce new old = if nat_beq new 0 then old else new

-- The row after INSERT … ON CONFLICT DO UPDATE.
abbrev pub merged : StateSnapshotJob → Option StateSnapshotJob → StateSnapshotJob
merged job none = record job { is_finished = false }
merged job (some old) = record job {
  watermark_at = coalesce job.watermark_at old.watermark_at;
  is_finished = false;
}

unfoldable pub upsert_state_snapshot_job : StateSnapshotJob → Jobs → Jobs
upsert_state_snapshot_job job jobs = put (job_key job) (merged job (jobs (job_key job))) jobs

pub data CommitSkipReason : Type 0 where
  no_reason snapshot_done : CommitSkipReason

-- CommitSnapshotCheckpointResult
pub record CheckpointResult : Type 0 where
  pub is_updated : Bool
  pub reason : CommitSkipReason

abbrev pub or_snapshotting : SnapshotJobStatus → SnapshotJobStatus
or_snapshotting SnapshotJobStatus.unset = SnapshotJobStatus.snapshotting
or_snapshotting status = status

abbrev pub is_done : Option StateSnapshotJob → Bool
is_done none = false
is_done (some old) = old.is_finished

-- The row after the other INSERT … ON CONFLICT DO UPDATE, which leaves the end of the job.
abbrev pub checkpointed : StateSnapshotJob → Option StateSnapshotJob → StateSnapshotJob
checkpointed job none = record job { is_finished = false }
checkpointed job (some old) = record job {
  watermark_at = coalesce job.watermark_at old.watermark_at;
  is_finished = old.is_finished;
}

-- … WHERE snapshot_jobs.finished_at IS NULL
unfoldable pub commit_state_snapshot_checkpoint : StateSnapshotJob → Jobs → Jobs × CheckpointResult
commit_state_snapshot_checkpoint job jobs =
    if is_done (jobs (job_key job))
    then (jobs, record { is_updated = false; reason = snapshot_done })
    else (
      put (job_key job)
          (checkpointed (record job { status = or_snapshotting job.status }) (jobs (job_key job)))
          jobs,
      record { is_updated = true; reason = no_reason },
    )

unfoldable pub finish_found : Scope → Option StateSnapshotJob → Jobs → Jobs
finish_found k none jobs = jobs
finish_found k (some job) jobs =
    put k (record job { status = SnapshotJobStatus.finished; is_finished = true }) jobs

unfoldable pub mark_state_snapshot_finished : Scope → Jobs → Jobs
unfolding finish_found
mark_state_snapshot_finished k jobs = finish_found k (jobs k) jobs

unfoldable pub delete_state_snapshot_job : Scope → Jobs → Jobs
delete_state_snapshot_job = remove

-- ListPendingStateSnapshotJobs, on the rows of the table in any order.
abbrev cmp_jobs : StateSnapshotJob → StateSnapshotJob → Ordering
cmp_jobs a b = then_cmp (cmp_str a.peer_region b.peer_region) (cmp_str a.table b.table)

unfoldable pub list_pending_state_snapshot_jobs : List StateSnapshotJob → List StateSnapshotJob
list_pending_state_snapshot_jobs rows = sort_by cmp_jobs (keep (λ job. not job.is_finished) rows)
