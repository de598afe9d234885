-- ===== src/Job/System/Witnesses.antt =====
-- core/job.go: the theorems on any steps, applied to a run with one loaded job and one new one.
use echo_client.Prelude.{◌≡◌, ◌≢◌, refl, false, none, some, [], ◌∷◌, List, ==_true, true, Option}
use echo_client.Prelude.Dict.{get, put, delete}
use echo_client.Job.{Job, JobRequest, ManagedJob, live, running, is_queued, is_terminal_job_status}
use echo_client.Job.Manager.{
  new_job, candidate, create_unique_job_id_locked, start, start_as, save_job, accept_job,
  prepare_next_job_locked, next_dispatchable, dispatch_from, register_project, assign_runner,
  new_job_id,
}
use echo_client.Job.Run.{begin_run, persist_running}
use echo_client.Job.Restart.{
  new_job_manager, load, load_job, add_loaded, is_interrupted, loaded_request,
}
use echo_client.Job.System.{
  Event, run, step, registers, starts, begins, cancels, persists, executing, Phase,
}
use echo_client.Job.System.OneRun.{world_after, one_run_per_project, slot_has_run, Named}

abbrev request : JobRequest
request = record {
  project = "web";
  task_id = "";
  task_type = "research";
  prompt = "look";
  timeout = 0;
  workspace_ref = record { repo_path = ""; worktree_path = "/tmp/w"; branch = "" };
}

abbrev old_job : Job
old_job = new_job request "job_00" 5

abbrev events : List Event
events =
    registers "web" "codex" (some 1)
    ∷ starts request (candidate "01" false ∷ []) 7
    ∷ begins "job_00" 8
    ∷ persists "job_00"
    ∷ []

abbrev old_run : Option ManagedJob
old_run = get "job_00" (world_after [] (old_job ∷ []) none 6 events).jm.jobs

different : old_job.id ≢ ""
unfolding new_job
different e = let same : false ≡ true = ==_true "job_00" "" e in cc

old_job-Named : Named (old_job ∷ [])
old_job-Named = (different, tt, tt)

abbrev managed : ManagedJob
managed = record {
  job = record old_job { status = running; started_at = some 8 };
  req = record request { task_type = "" };
  runner = some 1;
  ctx = live;
}

one_run_per_project_example : old_job.id ≡ old_job.id
unfolding run step new_job_manager load load_job add_loaded get put delete is_queued
    create_unique_job_id_locked start start_as save_job accept_job prepare_next_job_locked
    next_dispatchable dispatch_from register_project assign_runner begin_run persist_running
    is_interrupted is_terminal_job_status loaded_request new_job new_job_id
one_run_per_project_example =
    one_run_per_project [] (old_job ∷ []) none 6 events old_job-Named "job_00" "job_00" executing
      executing managed managed refl refl refl refl refl

slot_has_run_example :
    let w = world_after [] (old_job ∷ []) none 6 events in
    ((m : ManagedJob) × (get "job_00" w.jm.jobs ≡ some m) × (m.job.project ≡ "web"))
    × ((ph : Phase) × (get "job_00" w.goroutines ≡ some ph))
unfolding run step new_job_manager load load_job add_loaded get put delete is_queued
    create_unique_job_id_locked start start_as save_job accept_job prepare_next_job_locked
    next_dispatchable dispatch_from register_project assign_runner begin_run persist_running
    is_interrupted is_terminal_job_status loaded_request new_job new_job_id
slot_has_run_example =
    slot_has_run [] (old_job ∷ []) none 6 events old_job-Named "web" "job_00" refl

abbrev given_up : List Event
given_up =
    registers "web" "codex" (some 1)
    ∷ starts request (candidate "01" false ∷ []) 7
    ∷ cancels "job_00" 8
    ∷ begins "job_00" 9
    ∷ []
