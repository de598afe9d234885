-- ===== src/Job/System/OneRun.antt =====
-- core/job.go: what holds of the job manager and its goroutines after any steps, from what
-- NewJobManager loaded.
use echo_client.Prelude.{
  ℕ, String, Bool, ◌≡◌, refl, ap, ◌∙◌, ◌≢◌, inl, inr, Option, none, some, List, [], ◌∷◌, arith,
  Bool-cases, Option-cases, eq_iff, All,
}
use echo_client.Prelude.Dict.{Dict, get, get-put_self}
use echo_client.Job.{Job, JobManager, ManagedJob, no_ctx, is_queued}
use echo_client.Job.Manager.{store, save_job}
use echo_client.Job.Restart.{
  orphan, loaded_request, runner_of, add_loaded, is_interrupted, load_job, load, new_job_manager,
}
use echo_client.Job.System.{Phase, World, Event, run}
use echo_client.Job.System.Invariant.{
  Inv, Same, Inv-Same, project_of, project_at, project_at-put, save_job-Same,
}
use echo_client.Job.System.Steps.{added-Inv, enqueued-Inv, run-Inv}

-- Loaded jobs have names, and no two of them have the same.
abbrev pub Named : List Job → Type 0
Named [] = Unit
Named (job ∷ entries) = (job.id ≢ "") × (All (λ (j : Job). job.id ≢ j.id) entries) × Named entries

abbrev New : JobManager → List Job → Type 0
New jm entries = All (λ (j : Job). project_at jm j.id ≡ none) entries

loaded_at :
    (jm : JobManager) (job : Job) (queue : Bool)
    → is_queued job.status ≡ queue
    → Inv jm []
    → project_at jm job.id ≡ none
    → job.id ≢ ""
    → Inv (add_loaded jm job) []
unfolding add_loaded
loaded_at jm job queue e v new name =
    let m : ManagedJob = record {
      job = job;
      req = loaded_request job;
      runner = runner_of jm job.project;
      ctx = no_ctx;
    } in
    let added = added-Inv jm [] job.id m v new name in
    elim (Bool-cases (is_queued job.status)) [
      | inl q ↦
          rw (q, add_loaded)
            (enqueued-Inv (store jm job.id m) [] job.project job.id added
              (ap project_of (get-put_self job.id m jm.jobs)))
      | inr q ↦ rw (q, add_loaded) added
    ]

add_loaded-New :
    (jm : JobManager) (job : Job) (entries : List Job)
    → All (λ (j : Job). job.id ≢ j.id) entries
    → New jm entries
    → New (add_loaded jm job) entries
unfolding add_loaded
add_loaded-New jm job [] h n = n
add_loaded-New jm job (j ∷ entries) h n =
    let m : ManagedJob = record {
      job = job;
      req = loaded_request job;
      runner = runner_of jm job.project;
      ctx = no_ctx;
    } in
    (
      ground (arith, project_at-put jm job.id j.id m, eq_iff job.id j.id, h.0, n.0),
      add_loaded-New jm job entries h.1 n.1,
    )

New-Same :
    (jm jm' : JobManager) (entries : List Job) → Same jm jm' → New jm entries → New jm' entries
New-Same jm jm' [] s n = n
New-Same jm jm' (j ∷ entries) s n = (s.projects j.id ∙ n.0, New-Same jm jm' entries s n.1)

load-Inv :
    (jm : JobManager) (entries : List Job) (now : ℕ)
    → Inv jm []
    → Named entries
    → New jm entries
    → Inv (load jm entries now).0 []
unfolding load load_job
load-Inv jm [] now v named new = v
load-Inv jm (job ∷ entries) now v (name, other, named) new =
    elim (Bool-cases (is_interrupted job)) [
      | inr e ↦
          let loads : load_job jm job now ≡ (add_loaded jm job, none) = rw (e, load_job) refl in
          rw (loads, load)
            (rw loads (
              load-Inv (add_loaded jm job) entries now (loaded_at jm job _ refl v new.0 name) named
                (add_loaded-New jm job entries other new.1)))
      | inl e ↦
          let s = save_job-Same jm (orphan job now) in
          let jm' = (save_job jm (orphan job now)).0 in
          let v' = Inv-Same jm jm' [] v s in
          let new' = New-Same jm jm' (job ∷ entries) s new in
          elim (Option-cases (save_job jm (orphan job now)).1) [
            | inr (text, f) ↦
                let fails : load_job jm job now ≡ (jm', some text) =
                  rw (e, load_job) (rw (f, load_job) refl) in
                rw (fails, load) (rw fails v')
            | inl f ↦
                let loads : load_job jm job now ≡ (add_loaded jm' (orphan job now), none) =
                  rw (e, load_job) (rw (f, load_job) refl) in
                rw (loads, load)
                  (rw loads (
                    load-Inv (add_loaded jm' (orphan job now)) entries now
                      (loaded_at jm' (orphan job now) _ refl v' new'.0 name) named
                      (add_loaded-New jm' (orphan job now) entries other new'.1)))
          ]
    ]

abbrev empty_manager : Dict Job → Option String → JobManager
empty_manager files e = record {
  jobs = [];
  runners = [];
  agents = [];
  running = [];
  queues = [];
  files = files;
  disk_error = e;
}

empty-Inv : (files : Dict Job) (e : Option String) → Inv (empty_manager files e) []
unfolding get
empty-Inv files e = record {
  held = λ id ph h. absurd (ground (arith, h));
  owner = λ p id h. absurd (ground (arith, h));
  named = λ id p h. absurd (ground (arith, h));
  queued = λ p id h. absurd (ground (arith, h));
}

empty-New :
    (files : Dict Job) (e : Option String) (entries : List Job)
    → New (empty_manager files e) entries
unfolding get
empty-New files e [] = tt
empty-New files e (j ∷ entries) = (refl, empty-New files e entries)

-- The world after NewJobManager and some events.
abbrev pub world_after : Dict Job → List Job → Option String → ℕ → List Event → World
world_after files entries e now events =
    run (record { jm = (new_job_manager files entries e now).0; goroutines = [] }) events

world-Inv :
    (files : Dict Job) (entries : List Job) (e : Option String) (now : ℕ) (events : List Event)
    → Named entries
    → let w = world_after files entries e now events in Inv w.jm w.goroutines
unfolding new_job_manager
world-Inv files entries e now events named = run-Inv _ events (
    load-Inv (empty_manager files e) entries now (empty-Inv files e) named
      (empty-New files e entries))

-- After NewJobManager loaded jobs with distinct names, none of them empty, and after any steps of
-- callers, goroutines, deadlines and the disk, two goroutines of runJob whose jobs have the same
-- project are those of one job: a project has one run at a time.
pub one_run_per_project :
    (files : Dict Job) (entries : List Job) (e : Option String) (now : ℕ) (events : List Event)
    → Named entries
    → (id id' : String) (ph ph' : Phase) (m m' : ManagedJob)
    → let w = world_after files entries e now events in
      get id w.goroutines ≡ some ph
      → get id' w.goroutines ≡ some ph'
      → get id w.jm.jobs ≡ some m
      → get id' w.jm.jobs ≡ some m'
      → m.job.project ≡ m'.job.project
      → id ≡ id'
one_run_per_project files entries e now events named id id' ph ph' m m' g g' f f' same =
    let v = world-Inv files entries e now events named in
    let (p, at, r) = v.held id ph g in let (p', at', r') = v.held id' ph' g' in cc

-- After NewJobManager loaded jobs with distinct names, none of them empty, and after any steps of
-- callers, goroutines, deadlines and the disk, a project that counts as running names a job of
-- its own whose goroutine has not ended, so a project is not left blocked without a run.
pub slot_has_run :
    (files : Dict Job) (entries : List Job) (e : Option String) (now : ℕ) (events : List Event)
    → Named entries
    → (project id : String)
    → let w = world_after files entries e now events in
      get project w.jm.running ≡ some id
      → ((m : ManagedJob) × (get id w.jm.jobs ≡ some m) × (m.job.project ≡ project))
        × ((ph : Phase) × (get id w.goroutines ≡ some ph))
slot_has_run files entries e now events named project id r =
    let w = world_after files entries e now events in
    let v = world-Inv files entries e now events named in
    let (at, g) = v.owner project id r in
    elim (Option-cases (get id w.jm.jobs)) [
      | inl n ↦ absurd (ground (arith, at, n))
      | inr (m, f) ↦ ((m, f, ground (arith, at, f)), g)
    ]
