-- ===== src/Job/System/Invariant.antt =====
-- core/job.go: what ties the running map, the queues and the goroutines of the job manager.
use echo_client.Prelude.{
  contains, String, true, ◌≡◌, refl, sym, ap, ◌∙◌, ◌≢◌, inl, inr, Option, none, some, List, [],
  ◌==◌, arith, if◌then◌else◌, Bool-cases, eq_iff,
}
use echo_client.Prelude.Dict.{Dict, get, put, delete, get-put, get-delete}
use echo_client.Job.{Job, JobManager, ManagedJob}
use echo_client.Job.Manager.{queue_of, store, save_job}
use echo_client.Job.Run.{release}
use echo_client.Job.System.{Phase}

abbrev pub project_of : Option ManagedJob → Option String
project_of none = none
project_of (some m) = some m.job.project

abbrev pub project_at : JobManager → String → Option String
project_at jm id = project_of (get id jm.jobs)

pub record Inv (jm : JobManager) (gs : Dict Phase) : Type 0 where
  -- A goroutine's job is the running one of its project.
  pub held :
      (id : String) (ph : Phase)
      → get id gs ≡ some ph
      → (p : String) × (project_at jm id ≡ some p) × (get p jm.running ≡ some id)
  -- A running job is one of the project, and it has a goroutine.
  pub owner :
      (p id : String)
      → get p jm.running ≡ some id
      → (project_at jm id ≡ some p) × ((ph : Phase) × (get id gs ≡ some ph))
  pub named : (id p : String) → project_at jm id ≡ some p → id ≢ ""
  -- What is queued for a project is a job of it.
  pub queued : (p id : String) → contains id (queue_of jm p) ≡ true → project_at jm id ≡ some p

-- A change that leaves the projects of jobs and the running map, and queues nothing.
pub record Same (jm jm' : JobManager) : Type 0 where
  pub projects : (id : String) → project_at jm' id ≡ project_at jm id
  pub running : jm'.running ≡ jm.running
  pub queues :
      (p id : String) → contains id (queue_of jm' p) ≡ true → contains id (queue_of jm p) ≡ true

pub Same-refl : (jm : JobManager) → Same jm jm
Same-refl jm = record { projects = λ id. refl; running = refl; queues = λ p id h. h }

pub Same-trans : (a b c : JobManager) → Same a b → Same b c → Same a c
Same-trans a b c s t = record {
  projects = λ id. t.projects id ∙ s.projects id;
  running = t.running ∙ s.running;
  queues = λ p id h. s.queues p id (t.queues p id h);
}

pub Inv-Same : (jm jm' : JobManager) (gs : Dict Phase) → Inv jm gs → Same jm jm' → Inv jm' gs
Inv-Same jm jm' gs v s = record {
  held = λ id ph e.
      let (p, at, r) = v.held id ph e in (p, s.projects id ∙ at, ap (get p) s.running ∙ r);
  owner = λ p id e.
      let (at, g) = v.owner p id (sym (ap (get p) s.running) ∙ e) in (s.projects id ∙ at, g);
  named = λ id p e. v.named id p (sym (s.projects id) ∙ e);
  queued = λ p id h. s.projects id ∙ v.queued p id (s.queues p id h);
}

-- The project of each job after a write of one of the same project.
pub project_at-put :
    (jm : JobManager) (id j : String) (m : ManagedJob)
    → project_of (get j (put id m jm.jobs))
      ≡ (if id == j then some m.job.project else project_at jm j)
project_at-put jm id j m = elim (Bool-cases (id == j)) [
  | inl e ↦ rw (get-put id j m jm.jobs, e) refl
  | inr e ↦ rw (get-put id j m jm.jobs, e) refl
]

pub put-projects :
    (jm : JobManager) (id : String) (m : ManagedJob)
    → project_at jm id ≡ some m.job.project
    → (j : String) → project_of (get j (put id m jm.jobs)) ≡ project_at jm j
put-projects jm id m e j = ground (arith, project_at-put jm id j m, eq_iff id j, e)

pub store-Same :
    (jm : JobManager) (id : String) (m : ManagedJob)
    → project_at jm id ≡ some m.job.project
    → Same jm (store jm id m)
store-Same jm id m e = record {
  projects = put-projects jm id m e;
  running = refl;
  queues = λ p j h. h;
}

-- A save changes nothing but the files.
pub save_job_fields :
    (jm : JobManager) (job : Job)
    → ((save_job jm job).0.jobs ≡ jm.jobs)
      × ((save_job jm job).0.running ≡ jm.running)
      × ((save_job jm job).0.queues ≡ jm.queues)
unfolding save_job
save_job_fields jm job = ground arith

pub save_job-Same : (jm : JobManager) (job : Job) → Same jm (save_job jm job).0
save_job-Same jm job =
    let (jobs, running, queues) = save_job_fields jm job in
    record {
      projects = λ id. ap (λ (m : Dict ManagedJob). project_of (get id m)) jobs;
      running = running;
      queues = λ p id h.
          sym (
            ap
              (λ (m : Dict (List String)).
                contains id (elim (get p m) as (λ o. List String) [ none ↦ [] | some q ↦ q ]))
              queues)
          ∙ h;
    }

-- A goroutine ends and frees its project.
pub freed-Inv :
    (jm : JobManager) (gs : Dict Phase) (id p : String) (ph : Phase)
    → Inv jm gs
    → get id gs ≡ some ph
    → project_at jm id ≡ some p
    → Inv (release jm p) (delete id gs)
freed-Inv jm gs id p ph v g at = record {
  held = λ j q e.
      let e' : get j gs ≡ some q = ground (arith, get-delete id j gs) in
      let (p', at', r) = v.held j q e' in
      (
        p',
        at',
        ground (
          arith,
          get-delete p p' jm.running,
          get-delete id j gs,
          v.held id ph,
          eq_iff p p',
          eq_iff id j,
        ),
      );
  owner = λ q j e.
      let e' : get q jm.running ≡ some j = ground (arith, get-delete p q jm.running) in
      let (at', (ph', g')) = v.owner q j e' in
      (
        at',
        (
          ph',
          ground (arith, get-delete id j gs, get-delete p q jm.running, eq_iff id j, eq_iff p q),
        ),
      );
  named = v.named;
  queued = v.queued;
}
