-- ===== src/Job/Manager.antt =====
-- core/job.go: RegisterProject, Start, Cancel and the dispatch of the next queued job.
-- Each function is one section under the lock. Where the source starts `go jm.runJob(dispatch)`, the
-- function returns the id of the dispatched job.
use Prim.Native.String
use echo_client.Prelude.{
  ℕ, zero, suc, ◌/◌, String, Bool, false, not, ◌&&◌, ◌||◌, Option, none, some, List, [], ◌∷◌, ◌++◌,
  ◌==◌, if◌then◌else◌, filter, ◌^◌,
}
use echo_client.Prelude.Dict.{Dict, get, put, delete}
use echo_client.Job.{
  queued, cancelled, failed, Job, JobRequest, no_ctx, live, ManagedJob, JobManager,
  project_required, prompt_required, not_registered, not_found, too_many_collisions, generate_id,
  stat_job, save_failed, Result, ok, err, is_terminal_job_status, is_queued, is_some, cancel_ctx,
}

abbrev pub queue_of : JobManager → String → List String
queue_of jm project = elim (get project jm.queues) [ none ↦ [] | some q ↦ q ]

-- jm.running[project] != ""
abbrev pub is_running : JobManager → String → Bool
is_running jm project = elim (get project jm.running) [ none ↦ false | some id ↦ not (id == "") ]

-- A write through the pointer that jm.jobs holds for the id.
abbrev pub store : JobManager → String → ManagedJob → JobManager
store jm job_id managed = record jm { jobs = put job_id managed jm.jobs }

-- saveJob: whether the file was written, or the error
unfoldable pub save_job : JobManager → Job → JobManager × Option String
save_job jm job = elim jm.disk_error [
  | some e ↦ (jm, some (String.◌++◌ "write job " (String.◌++◌ job.id (String.◌++◌ ": " e))))
  | none ↦ (record jm { files = put job.id job jm.files }, none)
]

unfoldable pub dispatchable : Option ManagedJob → Bool
unfolding is_queued
dispatchable none = false
dispatchable (some managed) = is_queued managed.job.status && is_some managed.runner

-- The loop of prepareNextJobLocked: the job it stops at, and the queue that is left.
unfoldable pub next_dispatchable :
    Dict ManagedJob → List String → Option (String × ManagedJob) × List String
unfolding is_queued
next_dispatchable jobs [] = (none, [])
next_dispatchable jobs (id ∷ queue) =
    let next = next_dispatchable jobs queue in
    elim (get id jobs) [
      | none ↦ next
      | some managed ↦
          if is_queued managed.job.status && is_some managed.runner
          then (some (id, managed), queue)
          else next
    ]

abbrev pub set_queue : JobManager → String → List String → JobManager
set_queue jm project queue = record jm { queues = put project queue jm.queues }

unfoldable pub dispatch_from :
    JobManager → String → Option (String × ManagedJob) × List String → JobManager × Option String
dispatch_from jm project (none, queue) = (set_queue jm project queue, none)
dispatch_from jm project (some (id, managed), queue) = (
  record jm {
    jobs = put id (record managed { ctx = live }) jm.jobs;
    running = put project id jm.running;
    queues = put project queue jm.queues;
  },
  some id,
)

unfoldable pub prepare_next_job_locked : JobManager → String → JobManager × Option String
unfolding next_dispatchable dispatch_from
prepare_next_job_locked jm project =
    if project == "" || is_running jm project
    then (jm, none)
    else dispatch_from jm project (next_dispatchable jm.jobs (queue_of jm project))

-- Every job of the project gets the runner.
unfoldable pub assign_runner : String → Option ℕ → Dict ManagedJob → Dict ManagedJob
assign_runner project runner [] = []
assign_runner project runner ((id, managed) ∷ jobs) =
    (id, if managed.job.project == project then record managed { runner = runner } else managed)
    ∷ assign_runner project runner jobs

unfoldable pub register_project :
    JobManager → String → String → Option ℕ → JobManager × Option String
unfolding assign_runner prepare_next_job_locked
register_project jm project agent_type runner =
    prepare_next_job_locked
      (record jm {
        runners = put project runner jm.runners;
        agents = put project agent_type jm.agents;
        jobs = assign_runner project runner jm.jobs;
      })
      project

-- What newJobIDFunc and os.Stat answer in one round: no random bytes, or an id, and whether the
-- file can be looked up.
pub data Candidate : Type 0 where
  no_random : Candidate
  candidate : String → Bool → Candidate

-- newJobID, with the hexadecimal text of its random bytes
unfoldable pub new_job_id : String → String
new_job_id text = String.◌++◌ "job_" text

-- The loop of createUniqueJobIDLocked, which draws 16 candidates at most.
unfoldable pub create_unique_job_id_locked : JobManager → ℕ → List Candidate → Result String
unfolding new_job_id
create_unique_job_id_locked jm rounds [] = err too_many_collisions
create_unique_job_id_locked jm zero (c ∷ cs) = err too_many_collisions
create_unique_job_id_locked jm (suc rounds) (no_random ∷ cs) = err generate_id
create_unique_job_id_locked jm (suc rounds) (candidate text stat_fails ∷ cs) =
    let id = new_job_id text in
    let next = create_unique_job_id_locked jm rounds cs in
    if is_some (get id jm.jobs)
    then next
    else if stat_fails
    then err stat_job
    else if is_some (get id jm.files)
    then next
    else ok id

unfoldable pub new_job : JobRequest → String → ℕ → Job
new_job req id now = record {
  id = id;
  project = req.project;
  task_id = req.task_id;
  task_type = req.task_type;
  prompt = req.prompt;
  workspace_ref = req.workspace_ref;
  status = queued;
  output = "";
  summary = "";
  session_id = "";
  skills_meta = [];
  error = "";
  error_code = "";
  created_at = now;
  started_at = none;
  finished_at = none;
  timeout_sec = req.timeout / 10 ^ 9;
  event_count = 0;
  events = [];
}

-- The end of Start, after the file was written.
unfoldable pub accept_job : JobManager → JobRequest → Job → Option ℕ → JobManager × Option String
unfolding prepare_next_job_locked
accept_job jm req job runner =
    prepare_next_job_locked
      (record jm {
        jobs = put job.id (record { job = job; req = req; runner = runner; ctx = no_ctx }) jm.jobs;
        queues = put req.project (queue_of jm req.project ++ job.id ∷ []) jm.queues;
      })
      req.project

unfoldable pub start_as :
    JobManager
    → JobRequest
    → Option ℕ
    → Result String
    → ℕ
    → (JobManager × Option String) × Result Job
unfolding new_job save_job accept_job
start_as jm req runner (err e) now = ((jm, none), err e)
start_as jm req runner (ok id) now =
    let job = new_job req id now in
    let (jm', e) = save_job jm job in
    elim e [
      | some text ↦ ((jm', none), err (save_failed text))
      | none ↦ (accept_job jm' req job runner, ok job)
    ]

unfoldable pub start :
    JobManager → JobRequest → List Candidate → ℕ → (JobManager × Option String) × Result Job
unfolding create_unique_job_id_locked start_as
start jm req candidates now =
    if req.project == ""
    then ((jm, none), err project_required)
    else if req.prompt == ""
    then ((jm, none), err prompt_required)
    else (elim (get req.project jm.runners) [
      | none ↦ ((jm, none), err not_registered)
      | some runner ↦ start_as jm req runner (create_unique_job_id_locked jm 16 candidates) now
    ])

unfoldable pub remove_queued_job_locked : JobManager → String → String → JobManager
remove_queued_job_locked jm project job_id = elim (queue_of jm project) [
  | [] ↦ jm
  | id ∷ ids ↦ elim (filter (λ x. not (x == job_id)) (id ∷ ids)) [
    | [] ↦ record jm { queues = delete project jm.queues }
    | y ∷ ys ↦ record jm { queues = put project (y ∷ ys) jm.queues }
  ]
]

abbrev pub mark_cancelled : Job → ℕ → Job
mark_cancelled job now = record job {
  status = cancelled;
  error = "context canceled";
  finished_at =
      (if is_queued job.status || not (is_some job.started_at) then some now else job.finished_at);
}

-- The job as it is kept after a save that may have failed.
abbrev pub saved_or_failed : Job → String → Option String → Job
saved_or_failed job text none = job
saved_or_failed job text (some e) = record job { status = failed; error = String.◌++◌ text e }

-- Cancel of a job that has not ended: the save, and the call of its cancel function.
unfoldable pub cancel_live : JobManager → String → ManagedJob → ℕ → JobManager × Job
unfolding is_queued remove_queued_job_locked save_job
cancel_live jm job_id managed now =
    let job = mark_cancelled managed.job now in
    let (jm', e) = save_job (remove_queued_job_locked jm job.project job_id) job in
    let kept = saved_or_failed job "persist cancelled job: " e in
    (store jm' job_id (record managed { job = kept; ctx = cancel_ctx managed.ctx }), kept)

unfoldable pub cancel : JobManager → String → ℕ → JobManager × Result Job
unfolding is_terminal_job_status cancel_live
cancel jm job_id now = elim (get job_id jm.jobs) [
  | none ↦ (jm, err not_found)
  | some managed ↦
      if is_terminal_job_status managed.job.status
      then (jm, ok managed.job)
      else (let (jm', job) = cancel_live jm job_id managed now in (jm', ok job))
]
