-- ===== src/Job/Restart.antt =====
-- core/job.go: load, NewJobManager and ListAgents.
-- A directory that cannot be read, or a file that cannot be decoded, makes NewJobManager fail and is not
-- modelled; the files are those that decode.
use echo_client.Prelude.{
  ℕ, ◌+◌, ◌*◌, ◌^◌, String, Bool, true, false, not, ◌&&◌, Option, none, some, List, [], ◌∷◌, ◌++◌,
  ◌==◌, if◌then◌else◌, ltb,
}
use echo_client.Prelude.Dict.{Dict, get, put, total}
use echo_client.Job.{
  JobStatus, queued, running, orphaned, other, Job, JobRequest, no_ctx, ManagedJob, JobManager,
  is_terminal_job_status, is_queued, is_some,
}
use echo_client.Job.Manager.{save_job, queue_of}

abbrev pub orphan : Job → ℕ → Job
orphan job now = record job {
  status = orphaned;
  error = "job interrupted by process restart";
  finished_at = (if is_some job.finished_at then job.finished_at else some now);
}

-- The request of a job that was read from its file: TaskType is not set.
unfoldable pub loaded_request : Job → JobRequest
loaded_request job = record {
  project = job.project;
  task_id = job.task_id;
  task_type = "";
  prompt = job.prompt;
  timeout = job.timeout_sec * 10 ^ 9;
  workspace_ref = job.workspace_ref;
}

abbrev pub runner_of : JobManager → String → Option ℕ
runner_of jm project = elim (get project jm.runners) [ none ↦ none | some runner ↦ runner ]

unfoldable pub add_loaded : JobManager → Job → JobManager
unfolding loaded_request is_queued
add_loaded jm job =
    let managed : ManagedJob = record {
      job = job;
      req = loaded_request job;
      runner = runner_of jm job.project;
      ctx = no_ctx;
    } in
    record jm {
      jobs = put job.id managed jm.jobs;
      queues =
          (if is_queued job.status
            then put job.project (queue_of jm job.project ++ job.id ∷ []) jm.queues
            else jm.queues);
    }

-- A job that waits for its first run stays; any other that has not ended is orphaned.
unfoldable pub is_interrupted : Job → Bool
unfolding is_terminal_job_status is_queued
is_interrupted job =
    not (is_terminal_job_status job.status)
    && not (is_queued job.status && not (is_some job.started_at))

-- One round of the loop of load, or the error of its save.
unfoldable pub load_job : JobManager → Job → ℕ → JobManager × Option String
unfolding is_interrupted save_job add_loaded
load_job jm job now =
    if is_interrupted job
    then (let (jm', e) = save_job jm (orphan job now) in
        elim e [ some text ↦ (jm', some text) | none ↦ (add_loaded jm' (orphan job now), none) ])
    else (add_loaded jm job, none)

unfoldable pub load : JobManager → List Job → ℕ → JobManager × Option String
unfolding load_job
load jm [] now = (jm, none)
load jm (job ∷ entries) now =
    let (jm', e) = load_job jm job now in
    elim e [ some text ↦ (jm', some text) | none ↦ load jm' entries now ]

unfoldable pub new_job_manager :
    Dict Job → List Job → Option String → ℕ → JobManager × Option String
unfolding load
new_job_manager files entries disk_error now =
    load
      (record {
        jobs = [];
        runners = [];
        agents = [];
        running = [];
        queues = [];
        files = files;
        disk_error = disk_error;
      })
      entries now

pub record RegisteredProject : Type 0 where
  pub project : String
  pub agent_type : String
  pub status : String
  pub active_jobs : ℕ
  pub running_jobs : ℕ
  pub queued_jobs : ℕ

unfoldable pub is_running_status : JobStatus → Bool
is_running_status running = true
is_running_status queued = false
is_running_status (other text) = false
is_running_status _ = false

abbrev pub counts : (JobStatus → Bool) → String → ManagedJob → ℕ
counts test project managed =
    if managed.job.project == project && test managed.job.status then 1 else 0

-- The body of the loop of ListAgents for one project.
unfoldable pub registered_project : JobManager → String → RegisteredProject
unfolding is_queued is_running_status
registered_project jm project =
    let queued_jobs = total (counts is_queued project) jm.jobs in
    let running_jobs = total (counts is_running_status project) jm.jobs in
    let agent_type : String = elim (get project jm.agents) [ none ↦ "" | some a ↦ a ] in
    record {
      project = project;
      agent_type = (if agent_type == "" then "unknown" else agent_type);
      status = (if ltb 0 (queued_jobs + running_jobs) then "busy" else "idle");
      active_jobs = queued_jobs + running_jobs;
      running_jobs = running_jobs;
      queued_jobs = queued_jobs;
    }
