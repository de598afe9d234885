-- ===== src/Job/System/Exclusion.antt =====
-- core/job.go: every step of the job manager keeps the invariant, so a project has one run at a time.
use echo_client.Prelude.{
  contains, ℕ, String, Bool, true, not, ◌≡◌, refl, sym, ap, ◌∙◌, inl, inr, Option, none, some, List,
  [], ◌∷◌, ◌==◌, arith, if◌then◌else◌, Bool-cases, Option-cases, eq_iff, filter, ltb,
}
use echo_client.Prelude.Dict.{Dict, get, put, delete, get-put, get-delete, get-put_self}
use echo_client.Job.{
  Job, JobManager, ManagedJob, JobContext, no_ctx, live, canceled, deadline_exceeded, JobEvent,
  is_terminal_job_status, cancel_ctx,
}
use echo_client.Job.Manager.{
  queue_of, store, save_job, cancel, cancel_live, remove_queued_job_locked, saved_or_failed,
  mark_cancelled,
}
use echo_client.Job.Run.{
  release, holds_project, mark_running, begin_run, record_job_event, with_event, finish_job,
  finish_managed,
}
use echo_client.Job.System.{Phase, World, launch, begun, expire, expired, begin_with}
use echo_client.Job.System.Invariant.{
  Inv, Same, Same-refl, Same-trans, Inv-Same, project_of, project_at, store-Same, save_job-Same,
  freed-Inv,
}
use echo_client.Job.System.Dispatching.{prepare-Inv, queue_of-put}

-- An update of a job through the map, followed or preceded by a save.
saved_store-Same :
    (jm : JobManager) (id : String) (m : ManagedJob) (job : Job)
    → project_at jm id ≡ some m.job.project
    → Same jm (store (save_job jm job).0 id m)
saved_store-Same jm id m job e =
    let s = save_job-Same jm job in
    Same-trans jm (save_job jm job).0 (store (save_job jm job).0 id m) s
      (store-Same (save_job jm job).0 id m (s.projects id ∙ e))

pub record_job_event-Same :
    (jm : JobManager) (id : String) (e : JobEvent) → Same jm (record_job_event jm id e)
unfolding record_job_event with_event
record_job_event-Same jm id e = elim (Option-cases (get id jm.jobs)) [
  | inl n ↦ rw (n, record_job_event) (Same-refl jm)
  | inr (m, f) ↦
      let m' : ManagedJob = record m { job = with_event m.job e } in
      let jm' = store jm id m' in
      rw (f, record_job_event)
        (Same-trans jm jm' (save_job jm' m'.job).0 (store-Same jm id m' (ap project_of f))
          (save_job-Same jm' m'.job))
]

expired_project : (m : ManagedJob) (c : JobContext) → (expired m c).job ≡ m.job
expired_project m no_ctx = refl
expired_project m live = elim (Bool-cases (ltb 0 m.req.timeout)) [
  | inl e ↦ rw e refl
  | inr e ↦ rw e refl
]
expired_project m canceled = refl
expired_project m deadline_exceeded = refl

pub expire-Same : (jm : JobManager) (id : String) → Same jm (expire jm id)
unfolding expire
expire-Same jm id = elim (Option-cases (get id jm.jobs)) [
  | inl n ↦ rw (n, expire) (Same-refl jm)
  | inr (m, f) ↦
      rw (f, expire)
        (store-Same jm id (expired m m.ctx)
          (ap project_of f ∙ ap (λ (j : Job). some j.project) (sym (expired_project m m.ctx))))
]

contains-filter :
    (x : String) (test : String → Bool) (l : List String)
    → contains x (filter test l) ≡ true
    → contains x l ≡ true
contains-filter x test [] h = h
contains-filter x test (y ∷ l) h = ground (arith, contains-filter x test l)

queue_of-delete :
    (jm : JobManager) (p q : String)
    → queue_of (record jm { queues = delete p jm.queues }) q
      ≡ (if p == q then [] else queue_of jm q)
queue_of-delete jm p q = elim (Bool-cases (p == q)) [
  | inl e ↦ rw (get-delete p q jm.queues, e, queue_of) refl
  | inr e ↦ rw (get-delete p q jm.queues, e, queue_of) refl
]

module _ (jm : JobManager) (p id : String) where
  abbrev without_id : List String → List String
  without_id q = filter (λ x. not (x == id)) q

  -- The queue of a project after a job was taken out of it, by what was there and what is left.
  removed_at :
      (q rest : List String)
      → queue_of jm p ≡ q
      → without_id q ≡ rest
      → Same jm (remove_queued_job_locked jm p id)
  unfolding remove_queued_job_locked
  removed_at [] rest e f = rw (e, remove_queued_job_locked) (Same-refl jm)
  removed_at (x ∷ q) [] e f =
      rw (e, f, remove_queued_job_locked)
        (record {
          projects = λ j. refl;
          running = refl;
          queues = λ r j h. ground (arith, queue_of-delete jm p r, h);
        })
  removed_at (x ∷ q) (y ∷ ys) e f =
      rw (e, f, remove_queued_job_locked)
        (record {
          projects = λ j. refl;
          running = refl;
          queues = λ r j h. elim (Bool-cases (p == r)) [
            | inl here ↦
                let kept : contains j (y ∷ ys) ≡ true =
                  ground (arith, queue_of-put jm jm.queues p r (y ∷ ys), h) in
                let was : contains j (queue_of jm p) ≡ true =
                  rw e (contains-filter j (λ x. not (x == id)) (x ∷ q) (rw f kept)) in
                ap (λ k. contains j (queue_of jm k)) (sym ((eq_iff p r).0 here)) ∙ was
            | inr away ↦ ground (arith, queue_of-put jm jm.queues p r (y ∷ ys), h)
          ];
        })

  removed-Same : Same jm (remove_queued_job_locked jm p id)
  removed-Same = removed_at (queue_of jm p) (without_id (queue_of jm p)) refl refl

kept_project :
    (job : Job) (text : String) (e : Option String)
    → (saved_or_failed job text e).project ≡ job.project
kept_project job text none = refl
kept_project job text (some e) = refl

pub cancel-Same : (jm : JobManager) (id : String) (now : ℕ) → Same jm (cancel jm id now).0
unfolding cancel cancel_live
cancel-Same jm id now = elim (Option-cases (get id jm.jobs)) [
  | inl n ↦ rw (n, cancel) (Same-refl jm)
  | inr (m, f) ↦ elim (Bool-cases (is_terminal_job_status m.job.status)) [
    | inl e ↦ rw (f, e, cancel) (Same-refl jm)
    | inr e ↦
        let job = mark_cancelled m.job now in
        let a = remove_queued_job_locked jm job.project id in
        let s = removed-Same jm job.project id in
        let kept = saved_or_failed job "persist cancelled job: " (save_job a job).1 in
        rw (f, e, cancel)
          (Same-trans jm a _ s (
            saved_store-Same a id (record m { job = kept; ctx = cancel_ctx m.ctx }) job
              (s.projects id
                ∙ ap project_of f
                ∙ ap some (sym (kept_project job "persist cancelled job: " (save_job a job).1)))))
  ]
]

-- A goroutine moves to another phase.
pub rephase-Inv :
    (jm : JobManager) (gs : Dict Phase) (id : String) (ph ph' : Phase)
    → Inv jm gs
    → get id gs ≡ some ph
    → Inv jm (put id ph' gs)
rephase-Inv jm gs id ph ph' v g = record {
  held = λ j q e. elim (Bool-cases (id == j)) [
    | inl same ↦ v.held j ph (ap (λ k. get k gs) (sym ((eq_iff id j).0 same)) ∙ g)
    | inr other ↦ v.held j q (ground (arith, get-put id j ph' gs))
  ];
  owner = λ p j e.
      let (at, (q, there)) = v.owner p j e in
      (
        at,
        elim (Bool-cases (id == j)) [
          | inl same ↦ (ph', ground (arith, get-put id j ph' gs))
          | inr other ↦ (q, ground (arith, get-put id j ph' gs))
        ],
      );
  named = v.named;
  queued = v.queued;
}

holds :
    (jm : JobManager) (p id : String) → get p jm.running ≡ some id → holds_project jm p id ≡ true
holds jm p id e = rw (e, holds_project) ((eq_iff id id).1 refl)

-- The job of a goroutine.
job_of :
    (jm : JobManager) (gs : Dict Phase) (id : String) (ph : Phase)
    → Inv jm gs
    → get id gs ≡ some ph
    → (m : ManagedJob) × (get id jm.jobs ≡ some m) × (get m.job.project jm.running ≡ some id)
job_of jm gs id ph v g =
    let (p, at, r) = v.held id ph g in
    elim (Option-cases (get id jm.jobs)) [
      | inl n ↦ absurd (ground (arith, at, n))
      | inr (m, f) ↦
          let same : m.job.project ≡ p = ground (arith, at, f) in
          (m, f, ap (λ k. get k jm.running) same ∙ r)
    ]

pub begin-Inv :
    (jm : JobManager) (gs : Dict Phase) (id : String) (ph : Phase) (now : ℕ)
    → Inv jm gs
    → get id gs ≡ some ph
    → let w = begin_with gs id (begin_run jm id now) in Inv w.jm w.goroutines
unfolding begin_run
begin-Inv jm gs id ph now v g =
    let (m, f, r) = job_of jm gs id ph v g in
    elim (Bool-cases (is_terminal_job_status m.job.status)) [
      | inl e ↦
          rw (f, e, holds jm m.job.project id r, begin_run)
            (freed-Inv jm gs id m.job.project ph v g (ap project_of f))
      | inr e ↦
          let m' : ManagedJob = record m { job = mark_running m.job now } in
          let begins : begin_run jm id now ≡ (store jm id m', true) = rw (f, e, begin_run) refl in
          let copied : begin_with gs id (store jm id m', true)
              ≡ record { jm = store jm id m'; goroutines = put id (begun m'.job) gs } =
            ap
              (λ o. elim o as (λ x. World) [
                | none ↦ record { jm = store jm id m'; goroutines = delete id gs }
                | some k ↦ record { jm = store jm id m'; goroutines = put id (begun k.job) gs }
              ])
              (get-put_self id m' jm.jobs) in
          rw begins (
            rw copied (
              rephase-Inv (store jm id m') gs id ph (begun m'.job)
                (Inv-Same jm (store jm id m') gs v (store-Same jm id m' (ap project_of f))) g))
    ]

pub finish-Inv :
    (jm : JobManager) (gs : Dict Phase) (id : String) (ph : Phase) (mutate : Job → Job)
    → ((job : Job) → (mutate job).project ≡ job.project)
    → Inv jm gs
    → get id gs ≡ some ph
    → let r = finish_job jm id mutate in Inv r.0 (launch (delete id gs) r.1)
unfolding finish_job finish_managed
finish-Inv jm gs id ph mutate keeps v g =
    let (m, f, r) = job_of jm gs id ph v g in
    let job = mutate m.job in
    let kept = saved_or_failed job "persist finished job: " (save_job jm job).1 in
    let project : kept.project ≡ m.job.project =
      kept_project job "persist finished job: " (save_job jm job).1 ∙ keeps m.job in
    let m' : ManagedJob = record m { job = kept; ctx = cancel_ctx m.ctx } in
    let at : project_at jm id ≡ some kept.project = ap project_of f ∙ ap some (sym project) in
    let s = saved_store-Same jm id m' job at in
    let jm' = store (save_job jm job).0 id m' in
    let running : get kept.project jm'.running ≡ some id =
      ap (get kept.project) s.running ∙ ap (λ k. get k jm.running) project ∙ r in
    rw (f, finish_job)
      (rw (holds jm' kept.project id running) (
        prepare-Inv (release jm' kept.project) (delete id gs) kept.project
          (freed-Inv jm' gs id kept.project ph (Inv-Same jm jm' gs v s) g (s.projects id ∙ at))))
