-- ===== src/Snapshot/Receiver/Statuses.antt =====
-- The status of a job and its end: the two columns agree through every operation of the receiver.
use transmogr.Base.{
  ℕ, ◌≡◌, ◌≢◌, ◌↔◌, not, refl, Bool, true, false, Option, none, some, List, [], ◌∷◌, inl, inr, ◌==◌,
  string_eq, arith, Bool-cases, Result, ok, err, is_empty,
}
use transmogr.Base.Tables.{put}
use transmogr.Models.Events.{Fields}
use transmogr.Models.Json.{Bytes}
use transmogr.Models.PrimaryKey.{PrimaryKey}
use transmogr.Models.State.{Scope, scope_eq, StateSnapshotJob, SnapshotJobStatus, SnapshotChunk}
use transmogr.Apply.Rows.{ApplyError}
use transmogr.Apply.Batches.{Store}
use transmogr.Snapshot.Chunks.{apply_snapshot_chunk}
use transmogr.Snapshot.Jobs.{
  merged, checkpointed, is_done, or_snapshotting, finish_found, Jobs, CheckpointResult,
  upsert_state_snapshot_job, commit_state_snapshot_checkpoint, mark_state_snapshot_finished,
}
use transmogr.Snapshot.Sender.{last_key}
use transmogr.Snapshot.Receiver.{
  State, SnapshotError, M, ◌>>=◌, ◌>>◌, statement, upsert_job, commit_checkpoint, applied, job_at,
  require_scope, ensure_requested, save_checkpoint, complete_incoming_snapshot, restart, apply_rows,
  mark_as_last, mark_last, apply_incoming_chunk, when,
}
use transmogr.Snapshot.Receiver.Rules.{Post, bind-Post, statement-Post}
use transmogr.Snapshot.Receiver.Progress.{scope-Post}

-- A job has the status `finished` exactly when its end is recorded.
abbrev pub Agrees : Option StateSnapshotJob → Type 0
Agrees none = Unit
Agrees (some job) = (job.status ≡ SnapshotJobStatus.finished) ↔ (job.is_finished ≡ true)

abbrev pub IsConsistent : Jobs → Type 0
IsConsistent jobs = (k : Scope) → Agrees (jobs k)

put-IsConsistent :
    (k : Scope) (job : StateSnapshotJob) (jobs : Jobs)
    → Agrees (some job)
    → IsConsistent jobs
    → IsConsistent (put k job jobs)
put-IsConsistent k job jobs a h j = elim (Bool-cases (k == j)) [
  | inl e ↦ rw e a
  | inr e ↦ rw e (h j)
]

-- The service writes jobs with the other statuses, which are not finished.
active_status :
    (k : Scope) (status : SnapshotJobStatus) (key : PrimaryKey) (watermark : ℕ)
    → status ≢ SnapshotJobStatus.finished
    → Agrees (some (job_at k status key watermark))
active_status k status key watermark n = ((λ e. absurd (n e)), (λ e. cc))

merged-Agrees :
    (k : Scope) (status : SnapshotJobStatus) (key : PrimaryKey) (watermark : ℕ)
    (old : Option StateSnapshotJob)
    → status ≢ SnapshotJobStatus.finished
    → Agrees (some (merged (job_at k status key watermark) old))
merged-Agrees k status key watermark none n = active_status k status key watermark n
merged-Agrees k status key watermark (some old) n = active_status k status key watermark n

-- A checkpoint is written over a row whose end is not recorded.
checkpointed-Agrees :
    (k : Scope) (status : SnapshotJobStatus) (key : PrimaryKey) (watermark : ℕ)
    (old : Option StateSnapshotJob)
    → status ≢ SnapshotJobStatus.finished
    → is_done old ≡ false
    → Agrees (some (checkpointed (job_at k status key watermark) old))
checkpointed-Agrees k status key watermark none n d = active_status k status key watermark n
checkpointed-Agrees k status key watermark (some old) n d =
    ((λ e. absurd (n e)), (λ e. absurd (ground (arith, d, e))))

upsert-IsConsistent :
    (k : Scope) (status : SnapshotJobStatus) (key : PrimaryKey) (watermark : ℕ) (jobs : Jobs)
    → status ≢ SnapshotJobStatus.finished
    → IsConsistent jobs
    → IsConsistent (upsert_state_snapshot_job (job_at k status key watermark) jobs)
unfolding upsert_state_snapshot_job
upsert-IsConsistent k status key watermark jobs n h =
    put-IsConsistent k (merged (job_at k status key watermark) (jobs k)) jobs
      (merged-Agrees k status key watermark (jobs k) n) h

commit-IsConsistent :
    (k : Scope) (status : SnapshotJobStatus) (key : PrimaryKey) (watermark : ℕ) (jobs : Jobs)
    → or_snapshotting status ≢ SnapshotJobStatus.finished
    → IsConsistent jobs
    → IsConsistent (commit_state_snapshot_checkpoint (job_at k status key watermark) jobs).0
unfolding commit_state_snapshot_checkpoint
commit-IsConsistent k status key watermark jobs n h = elim (Bool-cases (is_done (jobs k))) [
  | inl e ↦ rw e h
  | inr e ↦ rw e (
      put-IsConsistent k (checkpointed (job_at k (or_snapshotting status) key watermark) (jobs k))
        jobs (checkpointed-Agrees k (or_snapshotting status) key watermark (jobs k) n e) h)
]

mark_finished-IsConsistent :
    (k : Scope) (jobs : Jobs)
    → IsConsistent jobs
    → IsConsistent (mark_state_snapshot_finished k jobs)
unfolding mark_state_snapshot_finished
mark_finished-IsConsistent k jobs h = found (jobs k)
  where
    found : (o : Option StateSnapshotJob) → IsConsistent (finish_found k o jobs)
    found none = h
    found (some job) = put-IsConsistent k _ jobs ((λ e. refl), (λ e. refl)) h

abbrev Ends : {A : Type 0} → State × Result SnapshotError A → Type 0
Ends = Post (λ a store jobs. IsConsistent jobs) (λ store jobs. IsConsistent jobs)

-- A call keeps the jobs consistent, however it ends.
data Calm (A : Type 0) (m : M A) : Type 0 where
  keeps : ((s : State) → IsConsistent s.jobs → Ends (m s)) → Calm A m

abbrev Keeps : {A : Type 0} → M A → Type 0
Keeps {A} m = Calm A m

ends : {A : Type 0} (m : M A) → Keeps m → (s : State) → IsConsistent s.jobs → Ends (m s)
ends m (keeps h) = h

bind-Keeps :
    {A B : Type 0} (m : M A) (f : A → M B) → Keeps m → ((a : A) → Keeps (f a)) → Keeps (m >>= f)
bind-Keeps m f (keeps h) next = keeps λ s c.
    bind-Post (λ store jobs. IsConsistent jobs) (λ a store jobs. IsConsistent jobs)
      (λ b store jobs. IsConsistent jobs) m f s (h s c) (λ a s' c'. ends (f a) (next a) s' c')

statement-Keeps : {A : Type 0} (m : M A) → Keeps m → Keeps (statement m)
statement-Keeps m (keeps h) = keeps λ s c.
    statement-Post (λ store jobs. IsConsistent jobs) (λ a store jobs. IsConsistent jobs) m s c
      (λ faults. h (record s { faults = faults }) c)

when-Keeps : (b : Bool) (m : M (Unit {0})) → Keeps m → Keeps (when b m)
when-Keeps true m h = h
when-Keeps false m h = keeps λ s c. c

scope-Keeps : {B : Type 0} (k : Scope) (m : M B) → Keeps m → Keeps (require_scope k >> m)
scope-Keeps k m (keeps h) = keeps λ s c.
    scope-Post (λ store jobs. IsConsistent jobs) (λ a store jobs. IsConsistent jobs) k m s c (h s c)

upsert-Keeps :
    (k : Scope) (status : SnapshotJobStatus) (key : PrimaryKey) (watermark : ℕ)
    → status ≢ SnapshotJobStatus.finished
    → Keeps (upsert_job (job_at k status key watermark))
upsert-Keeps k status key watermark n =
    statement-Keeps _ (keeps λ s c. upsert-IsConsistent k status key watermark s.jobs n c)

commit-Keeps :
    (k : Scope) (status : SnapshotJobStatus) (key : PrimaryKey) (watermark : ℕ)
    → or_snapshotting status ≢ SnapshotJobStatus.finished
    → Keeps (commit_checkpoint (job_at k status key watermark))
commit-Keeps k status key watermark n =
    statement-Keeps _ (keeps λ s c. commit-IsConsistent k status key watermark s.jobs n c)

ensure_requested-Keeps : (k : Scope) → Keeps (ensure_requested k)
unfolding ensure_requested
ensure_requested-Keeps k = scope-Keeps k _ (upsert-Keeps k SnapshotJobStatus.pending [] 0 (λ e. cc))

save_checkpoint-Keeps :
    (k : Scope) (key : PrimaryKey) (watermark : ℕ) → Keeps (save_checkpoint k key watermark)
unfolding save_checkpoint
save_checkpoint-Keeps k key watermark =
    scope-Keeps k _ (commit-Keeps k SnapshotJobStatus.snapshotting key watermark (λ e. cc))

applied-Ends : (r : Result ApplyError Store) (s : State) → IsConsistent s.jobs → Ends (applied r s)
applied-Ends (ok store) s c = c
applied-Ends (err e) s c = c

applied-Keeps : (o : State → Result ApplyError Store) → Keeps (λ s. applied (o s) s)
applied-Keeps o = keeps λ s c. applied-Ends (o s) s c

restart-Keeps :
    (k : Scope) (key : PrimaryKey) (watermark : ℕ) (r : CheckpointResult)
    → Keeps (restart k key watermark r)
unfolding restart
restart-Keeps k key watermark r = when-Keeps _ _ (
    bind-Keeps _ _ (ensure_requested-Keeps k)
      λ x. bind-Keeps _ _ (save_checkpoint-Keeps k key watermark) λ y. keeps λ s c. c)

mark-Keeps : (k : Scope) (chunk : SnapshotChunk) (b : Bool) → Keeps (mark_as_last k chunk b)
unfolding mark_as_last
mark-Keeps k chunk true =
    bind-Keeps _ _ (statement-Keeps _ (keeps λ s c. c))
      λ job. upsert-Keeps k SnapshotJobStatus.catching_up _ _ (λ e. cc)
mark-Keeps k chunk false =
    bind-Keeps _ _ (commit-Keeps k SnapshotJobStatus.catching_up _ _ (λ e. cc)) λ r. keeps λ s c. c

rows-Keeps :
    (object : Bytes → Option Fields) (k : Scope) (c : SnapshotChunk) → Keeps (apply_rows object k c)
unfolding apply_rows
rows-Keeps object k c =
    let key = last_key c.rows in
    when-Keeps (not (is_empty c.rows)) _ (
      bind-Keeps
        (statement
          λ s. applied (apply_snapshot_chunk object k.peer_region k.table c.rows s.store) s)
        (λ x. save_checkpoint k key c.watermark >>= λ r. restart k key c.watermark r)
        (statement-Keeps _
          (applied-Keeps λ s. apply_snapshot_chunk object k.peer_region k.table c.rows s.store))
        λ x.
          bind-Keeps (save_checkpoint k key c.watermark) (λ r. restart k key c.watermark r)
            (save_checkpoint-Keeps k key c.watermark) (λ r. restart-Keeps k key c.watermark r))

last-Keeps : (k : Scope) (c : SnapshotChunk) → Keeps (mark_last k c)
unfolding mark_last
last-Keeps k c =
    when-Keeps c.last (mark_as_last k c (is_empty c.rows)) (mark-Keeps k c (is_empty c.rows))

-- The receiver's calls, in any order.
pub data Call : Type 0 where
  chunk : Scope → SnapshotChunk → Call
  complete request : Scope → Call

unfoldable pub call : (Bytes → Option Fields) → Call → M (Unit {0})
call object (chunk k c) = apply_incoming_chunk object k c
call object (complete k) = complete_incoming_snapshot k
call object (request k) = ensure_requested k

-- However each call ends, the next one finds what it left.
unfoldable pub run_calls : (Bytes → Option Fields) → List Call → State → State
unfolding call
run_calls object [] s = s
run_calls object (c ∷ cs) s = run_calls object cs (call object c s).0

call-Keeps : (object : Bytes → Option Fields) (c : Call) → Keeps (call object c)
unfolding call apply_incoming_chunk complete_incoming_snapshot
call-Keeps object (chunk k c) =
    bind-Keeps (apply_rows object k c) (λ x. mark_last k c) (rows-Keeps object k c)
      λ x. last-Keeps k c
call-Keeps object (complete k) =
    scope-Keeps k _ (statement-Keeps _ (keeps λ s c. mark_finished-IsConsistent k s.jobs c))
call-Keeps object (request k) = ensure_requested-Keeps k

jobs_after : (r : State × Result SnapshotError (Unit {0})) → Ends r → IsConsistent r.0.jobs
jobs_after (s, ok a) h = h
jobs_after (s, err e) h = h

-- Through any sequence of the receiver's calls, whichever statements fail in them, a job has the
-- status `finished` exactly when its end is recorded, so a query for unfinished jobs and the statuses
-- agree.
pub run_calls-IsConsistent :
    (object : Bytes → Option Fields) (calls : List Call) (s : State)
    → IsConsistent s.jobs
    → IsConsistent (run_calls object calls s).jobs
unfolding run_calls
run_calls-IsConsistent object [] s h = h
run_calls-IsConsistent object (c ∷ cs) s h =
    run_calls-IsConsistent object cs (call object c s).0
      (jobs_after (call object c s) (ends (call object c) (call-Keeps object c) s h))
