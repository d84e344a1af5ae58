-- ===== src/Snapshot/Receiver.antt =====
-- internal/service/snapshot/service.go: the receiving side. Each statement may fail, as the list
-- `faults` says; a statement that fails changes nothing, and ends the call.
pub mod Rules
pub mod Progress
pub mod Restart
pub mod Applied
pub mod Statuses
use transmogr.Base.{
  ℕ, String, Bool, true, false, not, ◌&&◌, Option, none, some, List, [], ◌∷◌, is_empty,
  if◌then◌else◌, ◌==◌, string_eq, Result, ok, err,
}
use transmogr.Models.Events.{Fields}
use transmogr.Models.Json.{Bytes}
use transmogr.Models.PrimaryKey.{PrimaryKey}
use transmogr.Models.State.{Scope, StateSnapshotJob, SnapshotJobStatus, SnapshotRow, SnapshotChunk}
use transmogr.Apply.Rows.{ApplyError}
use transmogr.Apply.Batches.{Store}
use transmogr.Snapshot.Chunks.{apply_snapshot_chunk}
use transmogr.Snapshot.Jobs.{
  Jobs, CheckpointResult, snapshot_done, no_reason, CommitSkipReason, get_state_snapshot_job,
  upsert_state_snapshot_job, commit_state_snapshot_checkpoint, mark_state_snapshot_finished,
}
use transmogr.Snapshot.Sender.{last_key}

pub record State : Type 0 where
  pub store : Store
  pub jobs : Jobs
  pub faults : List Bool

pub data SnapshotError : Type 0 where
  region_required table_required statement_failed : SnapshotError
  apply_failed : ApplyError → SnapshotError

abbrev pub M : Type 0 → Type 0
M A = State → State × Result SnapshotError A

abbrev pub continue :
    {A B : Type 0} → State × Result SnapshotError A → (A → M B) → State × Result SnapshotError B
continue (s, ok a) f = f a s
continue (s, err e) f = (s, err e)

infixl 5 ◌>>=◌ ◌>>◌
abbrev pub ◌>>=◌ : {A B : Type 0} → M A → (A → M B) → M B
◌>>=◌ m f s = continue (m s) f

abbrev pub ◌>>◌ : {B : Type 0} → M (Unit {0}) → M B → M B
m >> k = m >>= λ _. k

abbrev pub return : {A : Type 0} → A → M A
return a s = (s, ok a)

abbrev pub require : Bool → SnapshotError → M (Unit {0})
require true e s = (s, ok tt)
require false e s = (s, err e)

-- The next statement, unless the database fails.
abbrev pub run_unless :
    {A : Type 0}
    → List Bool
    → (State → State × Result SnapshotError A)
    → State
    → State × Result SnapshotError A
run_unless [] m s = m s
run_unless (true ∷ later) m s = (record s { faults = later }, err statement_failed)
run_unless (false ∷ later) m s = m (record s { faults = later })

abbrev pub statement : {A : Type 0} → M A → M A
statement m s = run_unless s.faults m s

abbrev pub get_job : Scope → M StateSnapshotJob
get_job k = statement λ s. (s, ok (get_state_snapshot_job k s.jobs))

abbrev pub upsert_job : StateSnapshotJob → M (Unit {0})
upsert_job job = statement λ s. (record s { jobs = upsert_state_snapshot_job job s.jobs }, ok tt)

abbrev pub commit_checkpoint : StateSnapshotJob → M CheckpointResult
commit_checkpoint job = statement λ s.
    let (jobs, result) = commit_state_snapshot_checkpoint job s.jobs in
    (record s { jobs = jobs }, ok result)

abbrev pub applied : Result ApplyError Store → M (Unit {0})
applied (ok store) s = (record s { store = store }, ok tt)
applied (err e) s = (s, err (apply_failed e))

abbrev pub job_at : Scope → SnapshotJobStatus → PrimaryKey → ℕ → StateSnapshotJob
job_at k status key watermark = record {
  peer_region = k.peer_region;
  table = k.table;
  status = status;
  last_primary_key = key;
  watermark_at = watermark;
  is_finished = false;
}

abbrev pub require_scope : Scope → M (Unit {0})
require_scope k = do
  require (not (k.peer_region == "")) region_required
  require (not (k.table == "")) table_required

unfoldable pub ensure_requested : Scope → M (Unit {0})
ensure_requested k = do require_scope k; upsert_job (job_at k SnapshotJobStatus.pending [] 0)

unfoldable pub save_checkpoint : Scope → PrimaryKey → ℕ → M CheckpointResult
save_checkpoint k key watermark = do
  require_scope k
  commit_checkpoint (job_at k SnapshotJobStatus.snapshotting key watermark)

-- CompleteIncomingSnapshot
unfoldable pub complete_incoming_snapshot : Scope → M (Unit {0})
complete_incoming_snapshot k = do
  require_scope k
  statement λ s. (record s { jobs = mark_state_snapshot_finished k s.jobs }, ok tt)

is_snapshot_done : CommitSkipReason → Bool
is_snapshot_done no_reason = false
is_snapshot_done snapshot_done = true

abbrev pub when : Bool → M (Unit {0}) → M (Unit {0})
when true m = m
when false m = return tt

-- After a checkpoint that was refused because the job is finished, the job starts again.
unfoldable pub restart : Scope → PrimaryKey → ℕ → CheckpointResult → M (Unit {0})
unfolding is_snapshot_done
restart k key watermark result =
    when (not result.is_updated && is_snapshot_done result.reason)
      do ensure_requested k; ignored ← save_checkpoint k key watermark; return tt

-- The first half of ApplyIncomingChunk: the rows, and then their checkpoint.
unfoldable pub apply_rows : (Bytes → Option Fields) → Scope → SnapshotChunk → M (Unit {0})
apply_rows object k chunk = when (not (is_empty chunk.rows)) do
  statement λ s. applied (apply_snapshot_chunk object k.peer_region k.table chunk.rows s.store) s
  result ← save_checkpoint k (last_key chunk.rows) chunk.watermark
  restart k (last_key chunk.rows) chunk.watermark result

-- The second half: the last chunk moves the job on, without a row from where it stood.
unfoldable pub mark_as_last : Scope → SnapshotChunk → Bool → M (Unit {0})
mark_as_last k chunk true = do
  job ← get_job k
  upsert_job (job_at k SnapshotJobStatus.catching_up job.last_primary_key chunk.watermark)
mark_as_last k chunk false = do
  ignored ←
      commit_checkpoint
        (job_at k SnapshotJobStatus.catching_up (last_key chunk.rows) chunk.watermark)
  return tt

unfoldable pub mark_last : Scope → SnapshotChunk → M (Unit {0})
unfolding mark_as_last
mark_last k chunk = when chunk.last (mark_as_last k chunk (is_empty chunk.rows))

unfoldable pub apply_incoming_chunk : (Bytes → Option Fields) → Scope → SnapshotChunk → M (Unit {0})
unfolding apply_rows mark_last
apply_incoming_chunk object k chunk = do apply_rows object k chunk; mark_last k chunk
