-- ===== src/Job/Run.antt =====
-- core/job.go: runJob, recordJobEvent and finishJob.
-- runJob runs in a goroutine of its own. Its parts under the lock are `begin_run`, `finish_job` and
-- `record_job_event`; `persist_running` is the save between them, with the end of the job if it
-- fails. What Run and CaptureWorkspaceSnapshot answer is an argument.
use Prim.Native.String
use echo_client.Prelude.{
  ℕ, ◌+◌, ◌-◌, String, Bool, true, false, Option, none, some, List, [], ◌∷◌, ◌++◌, ◌==◌,
  if◌then◌else◌, length, drop,
}
use echo_client.Prelude.Dict.{Dict, get, put, delete}
use echo_client.Job.{
  JobStatus, running, cancelled, failed, completed, timed_out, Job, JobRequest, JobResult, JobEvent,
  JobContext, no_ctx, live, canceled, deadline_exceeded, ManagedJob, JobManager,
  is_terminal_job_status, cancel_ctx, should_capture_workspace_snapshot,
}
use echo_client.Job.Manager.{save_job, store, saved_or_failed, prepare_next_job_locked}

abbrev pub max_buffered_job_events : ℕ
max_buffered_job_events = 200

-- jm.running[project] == jobID
abbrev pub holds_project : JobManager → String → String → Bool
holds_project jm project job_id = elim (get project jm.running) [
  | none ↦ "" == job_id
  | some id ↦ id == job_id
]

abbrev pub release : JobManager → String → JobManager
release jm project = record jm { running = delete project jm.running }

abbrev pub mark_running : Job → ℕ → Job
mark_running job now = record job { status = running; started_at = some now }

-- The first part of runJob: whether the run goes on. An id is never given to a second job, so
-- the entry of the id is the job of the goroutine.
unfoldable pub begin_run : JobManager → String → ℕ → JobManager × Bool
unfolding is_terminal_job_status
begin_run jm job_id now = elim (get job_id jm.jobs) [
  | none ↦ (jm, false)
  | some managed ↦
      if is_terminal_job_status managed.job.status
      then (if holds_project jm managed.job.project job_id
          then (release jm managed.job.project, false)
          else (jm, false))
      else (store jm job_id (record managed { job = mark_running managed.job now }), true)
]

-- append and the cut to the last 200
unfoldable pub buffer_event : List JobEvent → JobEvent → List JobEvent
buffer_event events event =
    let all = events ++ event ∷ [] in drop (length all - max_buffered_job_events) all

unfoldable pub with_event : Job → JobEvent → Job
unfolding buffer_event
with_event job event = record job {
  event_count = job.event_count + 1;
  events = buffer_event job.events (record event { index = job.event_count });
}

-- A save that fails is only logged.
unfoldable pub record_job_event : JobManager → String → JobEvent → JobManager
unfolding with_event save_job
record_job_event jm job_id event = elim (get job_id jm.jobs) [
  | none ↦ jm
  | some managed ↦
      let job = with_event managed.job event in
      (save_job (store jm job_id (record managed { job = job })) job).0
]

unfoldable pub finish_managed :
    JobManager → String → ManagedJob → (Job → Job) → JobManager × Option String
unfolding save_job prepare_next_job_locked
finish_managed jm job_id managed mutate =
    let job = mutate managed.job in
    let (jm', e) = save_job jm job in
    let kept = saved_or_failed job "persist finished job: " e in
    let jm'' = store jm' job_id (record managed { job = kept; ctx = cancel_ctx managed.ctx }) in
    if holds_project jm'' kept.project job_id
    then prepare_next_job_locked (release jm'' kept.project) kept.project
    else (jm'', none)

unfoldable pub finish_job : JobManager → String → (Job → Job) → JobManager × Option String
unfolding finish_managed
finish_job jm job_id mutate = elim (get job_id jm.jobs) [
  | none ↦ (jm, none)
  | some managed ↦ finish_managed jm job_id managed mutate
]

abbrev pub fail_persist : String → Job → Job
fail_persist e job = record job { status = failed; error = String.◌++◌ "persist running job: " e }

-- The save of the copy that begin_run made; whether the run goes on, and what was dispatched.
unfoldable pub persist_running : JobManager → String → Job → (JobManager × Option String) × Bool
unfolding save_job finish_job
persist_running jm job_id job =
    let (jm', e) = save_job jm job in
    elim e [
      | none ↦ ((jm', none), true)
      | some text ↦ (finish_job jm' job_id (fail_persist text), false)
    ]

-- What Run returned: an error with its text and the code that some errors have, or a result, which
-- may be nil.
pub data RunOutcome : Type 0 where
  run_error : String → Option String → RunOutcome
  run_result : Option JobResult → RunOutcome

-- What CaptureWorkspaceSnapshot returned: an error, nothing, or a summary and its metadata.
pub data Snapshot : Type 0 where
  snapshot_error : String → Snapshot
  no_snapshot : Snapshot
  snapshot : String → Dict String → Snapshot

unfoldable pub job_outcome : RunOutcome → JobContext → String
job_outcome (run_error text code) ctx = "failed"
job_outcome (run_result r) no_ctx = "completed"
job_outcome (run_result r) live = "completed"
job_outcome (run_result r) canceled = "cancelled"
job_outcome (run_result r) deadline_exceeded = "cancelled"

abbrev pub snapshot_event : String → Dict String → ℕ → JobEvent
snapshot_event content metadata now = record {
  index = 0;
  type = "workspace_snapshot";
  content = content;
  tool_name = "";
  tool_input = "";
  session_id = "";
  metadata = metadata;
  created_at = now;
}

-- The event that is recorded for the workspace after the run, if there is one.
unfoldable pub workspace_snapshot_event : JobRequest → String → Snapshot → ℕ → Option JobEvent
unfolding should_capture_workspace_snapshot
workspace_snapshot_event req outcome snap now =
    if should_capture_workspace_snapshot req
    then (elim snap [
      | snapshot_error text ↦ some (
          snapshot_event "workspace snapshot failed"
            (("error", text) ∷ ("job_outcome", outcome) ∷ ("snapshot_stage", "post_run") ∷ []) now)
      | no_snapshot ↦ none
      | snapshot summary metadata ↦ some (
          snapshot_event summary
            (put "snapshot_stage" "post_run" (put "job_outcome" outcome metadata)) now)
    ])
    else none

abbrev pub ended : Job → JobStatus → String → String → ℕ → Job
ended job status error error_code now = record job {
  status = status;
  error = error;
  error_code = error_code;
  finished_at = some now;
}

abbrev pub with_result : Job → Option JobResult → Job
with_result job none = job
with_result job (some r) = record job {
  output = r.output;
  summary = r.summary;
  session_id = r.session_id;
  skills_meta = r.skills_meta;
}

abbrev pub code_or : String → Option String → String
code_or old none = old
code_or old (some code) = code

abbrev pub run_ended : RunOutcome → ℕ → Job → Job
run_ended (run_error text code) now job = ended job failed text (code_or job.error_code code) now
run_ended (run_result r) now job = with_result (ended job completed job.error job.error_code now) r

-- The function that runJob passes to finishJob. A job that runs has a context.
unfoldable pub outcome_mutation : JobContext → RunOutcome → ℕ → Job → Job
outcome_mutation no_ctx outcome now job = run_ended outcome now job
outcome_mutation live outcome now job = run_ended outcome now job
outcome_mutation canceled outcome now job =
    ended job cancelled "context canceled" job.error_code now
outcome_mutation deadline_exceeded outcome now job =
    ended job timed_out "context deadline exceeded" job.error_code now
