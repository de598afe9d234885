-- ===== src/Job/Witnesses.antt =====
-- core/job.go: the theorems on jobs, applied to a job that was cancelled before its run began.
use echo_client.Prelude.{◌+◌, ◌≡◌, none, some, [], ◌∷◌, arith}
use echo_client.Job.{no_ctx, Job, JobRequest, JobEvent, JobManager, ManagedJob, cancelled, canceled}
use echo_client.Job.Manager.{prepare_next_job_locked, new_job}
use echo_client.Job.Run.{snapshot_event}
use echo_client.Job.Dispatch.{Dispatches, prepare_next_job_locked_lem}
use echo_client.Job.Events.{with_events, Buffered, with_events-Buffered}

abbrev request : JobRequest
request = record {
  project = "web";
  task_id = "";
  task_type = "research";
  prompt = "look";
  timeout = 0;
  workspace_ref = record { repo_path = ""; worktree_path = "/tmp/w"; branch = "" };
}

abbrev research : Job
research = new_job request "job_1" 5

abbrev gone : ManagedJob
gone = record {
  job = record research { status = cancelled };
  req = request;
  runner = some 1;
  ctx = canceled;
}

abbrev manager : JobManager
manager = record {
  jobs = ("job_1", gone) ∷ [];
  runners = ("web", some 1) ∷ [];
  agents = [];
  running = ("web", "job_1") ∷ [];
  queues = ("web", "job_2" ∷ []) ∷ [];
  files = [];
  disk_error = none;
}

abbrev noted : JobEvent
noted = snapshot_event "noted" [] 6

with_events-Buffered_example :
    Buffered (with_events research (noted ∷ noted ∷ []))
    × ((with_events research (noted ∷ noted ∷ [])).event_count ≡ research.event_count + 2)
unfolding new_job
with_events-Buffered_example =
    with_events-Buffered research (noted ∷ noted ∷ []) (omega arith, omega arith, tt)

abbrev waiting : ManagedJob
waiting = record {
  job = record research { id = "job_2" };
  req = request;
  runner = some 1;
  ctx = no_ctx;
}

abbrev free_manager : JobManager
free_manager = record manager {
  jobs = ("job_1", gone) ∷ ("job_2", waiting) ∷ [];
  running = [];
  queues = ("web", "job_1" ∷ "job_2" ∷ []) ∷ [];
}

prepare_next_job_locked_example :
    Dispatches free_manager "web" (prepare_next_job_locked free_manager "web")
prepare_next_job_locked_example = prepare_next_job_locked_lem free_manager "web"
