-- ===== src/Job/System/Steps.antt =====
-- core/job.go: new and loaded jobs, the ends of runs, and every step keep what ties the running map,
-- the queues and the goroutines.
use Prim.Native.String
use Prim.Native.String.append
use text.Mathlib.TextLemmas.{cons-ne-nil}
use echo_client.Prelude.{
  contains, contains-append, ℕ, zero, suc, String, true, ◌≡◌, refl, sym, ap, ◌∙◌, ◌≢◌, inl, inr,
  Option, none, some, List, [], ◌∷◌, ◌++◌, ◌==◌, arith, Bool-cases, Option-cases, eq_iff,
}
use echo_client.Prelude.Dict.{Dict, get, put, get-put_self}
use echo_client.Job.{
  Job, JobManager, ManagedJob, JobRequest, JobContext, no_ctx, live, canceled, deadline_exceeded,
  JobEvent, Result, ok, err,
}
use echo_client.Job.Manager.{
  queue_of, store, set_queue, save_job, Candidate, no_random, candidate, register_project,
  assign_runner, start, start_as, accept_job, new_job, create_unique_job_id_locked, new_job_id,
  cancel,
}
use echo_client.Job.Run.{
  record_job_event, persist_running, outcome_mutation, run_ended, RunOutcome, run_error, run_result,
  fail_persist,
}
use echo_client.Job.System.{
  Phase, World, Event, launch, launched, executing, begun, step, run, context_of, begin_step,
  persist_step, persist_with, record_step, end_step, expire, registers, starts, cancels, begins,
  persists, expires, records, ends, disk,
}
use echo_client.Job.System.Invariant.{
  Inv, Same, Inv-Same, project_of, project_at, project_at-put, save_job-Same,
}
use echo_client.Job.System.Dispatching.{prepare-Inv, queue_of-put}
use echo_client.Job.System.Exclusion.{
  record_job_event-Same, expire-Same, cancel-Same, rephase-Inv, begin-Inv, finish-Inv,
}

-- A job with a new id.
pub added-Inv :
    (jm : JobManager) (gs : Dict Phase) (id : String) (m : ManagedJob)
    → Inv jm gs
    → project_at jm id ≡ none
    → id ≢ ""
    → Inv (store jm id m) gs
added-Inv jm gs id m v fresh name = record {
  held = λ j ph e.
      let (p, at, r) = v.held j ph e in
      (p, ground (arith, project_at-put jm id j m, eq_iff id j, at, fresh), r);
  owner = λ p j e.
      let (at, g) = v.owner p j e in
      (ground (arith, project_at-put jm id j m, eq_iff id j, at, fresh), g);
  named = λ j p e. elim (Bool-cases (id == j)) [
    | inl same ↦ λ z. name ((eq_iff id j).0 same ∙ z)
    | inr other ↦ v.named j p (ground (arith, project_at-put jm id j m))
  ];
  queued = λ p j h.
      let at = v.queued p j h in ground (arith, project_at-put jm id j m, eq_iff id j, at, fresh);
}

pub enqueued-Inv :
    (jm : JobManager) (gs : Dict Phase) (p id : String)
    → Inv jm gs
    → project_at jm id ≡ some p
    → Inv (set_queue jm p (queue_of jm p ++ id ∷ [])) gs
enqueued-Inv jm gs p id v at = record {
  held = v.held;
  owner = v.owner;
  named = v.named;
  queued = λ q j h. elim (Bool-cases (p == q)) [
    | inl here ↦
        let same : p ≡ q = (eq_iff p q).0 here in
        let inside : contains j (queue_of jm p ++ id ∷ []) ≡ true =
          ground (arith, queue_of-put jm jm.queues p q (queue_of jm p ++ id ∷ []), h) in
        elim (Bool-cases (id == j)) [
          | inl new ↦ ap (project_at jm) (sym ((eq_iff id j).0 new)) ∙ at ∙ ap some same
          | inr old ↦
              let was : contains j (queue_of jm p) ≡ true =
                ground (arith, contains-append j id (queue_of jm p)) in
              v.queued p j was ∙ ap some same
        ]
    | inr away ↦
        v.queued q j (ground (arith, queue_of-put jm jm.queues p q (queue_of jm p ++ id ∷ []), h))
  ];
}

-- The id that the loop ends with is no job's, and it is not empty.
unique_id :
    (jm : JobManager) (rounds : ℕ) (cs : List Candidate) (id : String)
    → create_unique_job_id_locked jm rounds cs ≡ ok id
    → (project_at jm id ≡ none) × (id ≢ "")
unfolding create_unique_job_id_locked new_job_id
unique_id jm rounds [] id e = ground (arith, e)
unique_id jm zero (c ∷ cs) id e = ground (arith, e)
unique_id jm (suc rounds) (no_random ∷ cs) id e = ground (arith, e)
unique_id jm (suc rounds) (candidate text stat_fails ∷ cs) id e =
    elim (Option-cases (get (new_job_id text) jm.jobs)) [
      | inr (m, f) ↦ unique_id jm rounds cs id (ground (arith, e, f))
      | inl n ↦ elim (Bool-cases stat_fails) [
        | inl s ↦ absurd (ground (arith, e, n, s))
        | inr s ↦ elim (Option-cases (get (new_job_id text) jm.files)) [
          | inr (j, f) ↦ unique_id jm rounds cs id (ground (arith, e, n, s, f))
          | inl k ↦
              let same : new_job_id text ≡ id = ground (arith, e, n, s, k) in
              (
                ap (project_at jm) (sym same) ∙ ap project_of n,
                λ z.
                    cons-ne-nil "j" (String.◌++◌ "ob_" text)
                      (sym (append.cons "j" "ob_" text) ∙ same ∙ z),
              )
        ]
      ]
    ]

persist-Inv :
    (jm : JobManager) (gs : Dict Phase) (id : String) (ph : Phase) (job : Job)
    → Inv jm gs
    → get id gs ≡ some ph
    → let w = persist_with gs id (persist_running jm id job) in Inv w.jm w.goroutines
unfolding persist_running
persist-Inv jm gs id ph job v g =
    let v' = Inv-Same jm (save_job jm job).0 gs v (save_job-Same jm job) in
    elim (Option-cases (save_job jm job).1) [
      | inl e ↦ rw (e, persist_running) (rephase-Inv (save_job jm job).0 gs id ph executing v' g)
      | inr (text, e) ↦
          rw (e, persist_running)
            (finish-Inv (save_job jm job).0 gs id ph (fail_persist text) (λ j. refl) v' g)
    ]

run_ended_project :
    (r : RunOutcome) (now : ℕ) (job : Job) → (run_ended r now job).project ≡ job.project
run_ended_project (run_error text code) now job = refl
run_ended_project (run_result none) now job = refl
run_ended_project (run_result (some r)) now job = refl

outcome_project :
    (ctx : JobContext) (r : RunOutcome) (now : ℕ) (job : Job)
    → (outcome_mutation ctx r now job).project ≡ job.project
unfolding outcome_mutation
outcome_project no_ctx r now job = run_ended_project r now job
outcome_project live r now job = run_ended_project r now job
outcome_project canceled r now job = refl
outcome_project deadline_exceeded r now job = refl

assigned_project :
    (project id : String) (runner : Option ℕ) (jobs : Dict ManagedJob)
    → project_of (get id (assign_runner project runner jobs)) ≡ project_of (get id jobs)
unfolding assign_runner get
assigned_project project id runner [] = refl
assigned_project project id runner ((k, m) ∷ jobs) = elim (Bool-cases (k == id)) [
  | inl e ↦ elim (Bool-cases (m.job.project == project)) [
    | inl f ↦ rw (e, f, assign_runner) refl
    | inr f ↦ rw (e, f, assign_runner) refl
  ]
  | inr e ↦ rw (e, assign_runner) (assigned_project project id runner jobs)
]

assigned-Same :
    (jm : JobManager) (project agent : String) (runner : Option ℕ)
    → Same jm (record jm {
      runners = put project runner jm.runners;
      agents = put project agent jm.agents;
      jobs = assign_runner project runner jm.jobs;
    })
assigned-Same jm project agent runner = record {
  projects = λ id. assigned_project project id runner jm.jobs;
  running = refl;
  queues = λ p id h. h;
}

register-Inv :
    (jm : JobManager) (gs : Dict Phase) (project agent : String) (runner : Option ℕ)
    → Inv jm gs
    → let r = register_project jm project agent runner in Inv r.0 (launch gs r.1)
unfolding register_project
register-Inv jm gs project agent runner v =
    prepare-Inv _ gs project (Inv-Same jm _ gs v (assigned-Same jm project agent runner))

accept-Inv :
    (jm : JobManager) (gs : Dict Phase) (req : JobRequest) (id : String) (now : ℕ)
    (runner : Option ℕ)
    → Inv jm gs
    → project_at jm id ≡ none
    → id ≢ ""
    → let r = accept_job jm req (new_job req id now) runner in Inv r.0 (launch gs r.1)
unfolding accept_job new_job
accept-Inv jm gs req id now runner v fresh name =
    let m : ManagedJob = record {
      job = new_job req id now;
      req = req;
      runner = runner;
      ctx = no_ctx;
    } in
    prepare-Inv _ gs req.project (
      enqueued-Inv (store jm id m) gs req.project id (added-Inv jm gs id m v fresh name)
        (ap project_of (get-put_self id m jm.jobs)))

start_as-Inv :
    (jm : JobManager) (gs : Dict Phase) (req : JobRequest) (runner : Option ℕ) (id : Result String)
    (now : ℕ)
    → Inv jm gs
    → ((text : String) → id ≡ ok text → (project_at jm text ≡ none) × (text ≢ ""))
    → let r = (start_as jm req runner id now).0 in Inv r.0 (launch gs r.1)
unfolding start_as
start_as-Inv jm gs req runner (err e) now v fresh = v
start_as-Inv jm gs req runner (ok id) now v fresh =
    let job = new_job req id now in
    let s = save_job-Same jm job in
    let v' = Inv-Same jm (save_job jm job).0 gs v s in
    let (new, name) = fresh id refl in
    elim (Option-cases (save_job jm job).1) [
      | inr (text, e) ↦ rw (e, start_as) v'
      | inl e ↦
          rw (e, start_as)
            (accept-Inv (save_job jm job).0 gs req id now runner v' (s.projects id ∙ new) name)
    ]

start-Inv :
    (jm : JobManager) (gs : Dict Phase) (req : JobRequest) (cs : List Candidate) (now : ℕ)
    → Inv jm gs
    → let r = (start jm req cs now).0 in Inv r.0 (launch gs r.1)
unfolding start
start-Inv jm gs req cs now v = elim (Bool-cases (req.project == "")) [
  | inl e ↦ rw (e, start) v
  | inr e ↦ elim (Bool-cases (req.prompt == "")) [
    | inl f ↦ rw (e, f, start) v
    | inr f ↦ elim (Option-cases (get req.project jm.runners)) [
      | inl n ↦ rw (e, f, n, start) v
      | inr (runner, n) ↦
          rw (e, f, n, start)
            (start_as-Inv jm gs req runner (create_unique_job_id_locked jm 16 cs) now v
              (unique_id jm 16 cs))
    ]
  ]
]

begin_step-Inv :
    (w : World) (id : String) (now : ℕ) (o : Option Phase)
    → get id w.goroutines ≡ o
    → Inv w.jm w.goroutines
    → let w' = begin_step w id now o in Inv w'.jm w'.goroutines
begin_step-Inv w id now none e v = v
begin_step-Inv w id now (some launched) e v = begin-Inv w.jm w.goroutines id launched now v e
begin_step-Inv w id now (some executing) e v = v
begin_step-Inv w id now (some (begun job)) e v = v

persist_step-Inv :
    (w : World) (id : String) (o : Option Phase)
    → get id w.goroutines ≡ o
    → Inv w.jm w.goroutines
    → let w' = persist_step w id o in Inv w'.jm w'.goroutines
persist_step-Inv w id none e v = v
persist_step-Inv w id (some launched) e v = v
persist_step-Inv w id (some executing) e v = v
persist_step-Inv w id (some (begun job)) e v = persist-Inv w.jm w.goroutines id (begun job) job v e

record_step-Inv :
    (w : World) (id : String) (ev : JobEvent) (o : Option Phase)
    → Inv w.jm w.goroutines
    → let w' = record_step w id ev o in Inv w'.jm w'.goroutines
record_step-Inv w id ev none v = v
record_step-Inv w id ev (some launched) v = v
record_step-Inv w id ev (some executing) v =
    Inv-Same w.jm (record_job_event w.jm id ev) w.goroutines v (record_job_event-Same w.jm id ev)
record_step-Inv w id ev (some (begun job)) v = v

end_step-Inv :
    (w : World) (id : String) (r : RunOutcome) (now : ℕ) (o : Option Phase)
    → get id w.goroutines ≡ o
    → Inv w.jm w.goroutines
    → let w' = end_step w id r now o in Inv w'.jm w'.goroutines
end_step-Inv w id r now none e v = v
end_step-Inv w id r now (some launched) e v = v
end_step-Inv w id r now (some executing) e v =
    finish-Inv w.jm w.goroutines id executing (outcome_mutation (context_of w.jm id) r now)
      (outcome_project (context_of w.jm id) r now) v e
end_step-Inv w id r now (some (begun job)) e v = v

pub step-Inv :
    (w : World) (e : Event) → Inv w.jm w.goroutines → Inv (step w e).jm (step w e).goroutines
unfolding step
step-Inv w (registers project agent runner) v =
    register-Inv w.jm w.goroutines project agent runner v
step-Inv w (starts req cs now) v = start-Inv w.jm w.goroutines req cs now v
step-Inv w (cancels id now) v =
    Inv-Same w.jm (cancel w.jm id now).0 w.goroutines v (cancel-Same w.jm id now)
step-Inv w (begins id now) v = begin_step-Inv w id now (get id w.goroutines) refl v
step-Inv w (persists id) v = persist_step-Inv w id (get id w.goroutines) refl v
step-Inv w (records id e) v = record_step-Inv w id e (get id w.goroutines) v
step-Inv w (ends id r now) v = end_step-Inv w id r now (get id w.goroutines) refl v
step-Inv w (expires id) v = Inv-Same w.jm (expire w.jm id) w.goroutines v (expire-Same w.jm id)
step-Inv w (disk e) v =
    Inv-Same w.jm (record w.jm { disk_error = e }) w.goroutines v
      (record { projects = λ id. refl; running = refl; queues = λ p id h. h })

pub run-Inv :
    (w : World) (es : List Event) → Inv w.jm w.goroutines → Inv (run w es).jm (run w es).goroutines
unfolding run
run-Inv w [] v = v
run-Inv w (e ∷ es) v = run-Inv (step w e) es (step-Inv w e v)
