-- ===== src/Job/Dispatch.antt =====
-- core/job.go: prepareNextJobLocked: which job is dispatched next.
use echo_client.Prelude.{
  inl, inr, String, true, false, ◌||◌, ◌≡◌, refl, ap, ◌⊎◌, Option, none, some, List, [], ◌∷◌, ◌++◌,
  ◌==◌, arith, Bool-cases, Option-cases, All,
}
use echo_client.Prelude.Dict.{Dict, get, put, get-put_self}
use echo_client.Job.{JobManager, ManagedJob}
use echo_client.Job.Manager.{
  dispatchable, next_dispatchable, dispatch_from, prepare_next_job_locked, queue_of, is_running,
}

-- A job that cannot be dispatched: it is gone, it is not queued any more, or it has no runner.
abbrev pub Skipped : Dict ManagedJob → String → Type 0
Skipped jobs id = dispatchable (get id jobs) ≡ false

-- The first job of the queue that can be dispatched, and what stands before and behind it.
pub record First (jobs : Dict ManagedJob) (queue : List String) : Type 0 where
  pub before : List String
  pub id : String
  pub managed : ManagedJob
  pub behind : List String
  pub whole : queue ≡ before ++ id ∷ behind
  pub skipped : All (Skipped jobs) before
  pub found : get id jobs ≡ some managed
  pub ready : dispatchable (some managed) ≡ true

abbrev pub Picks :
    Dict ManagedJob → List String → Option (String × ManagedJob) × List String → Type 0
Picks jobs queue r =
    ((r ≡ (none, [])) × All (Skipped jobs) queue)
    ⊎ ((f : First jobs queue) × (r ≡ (some (f.id, f.managed), f.behind)))

module _ (jobs : Dict ManagedJob) (id : String) (queue : List String) where
  skip :
      Skipped jobs id
      → (r : Option (String × ManagedJob) × List String) → Picks jobs queue r
      → Picks jobs (id ∷ queue) r
  skip s r (inl (e, all)) = inl (e, (s, all))
  skip s r (inr (f, e)) = inr (
    record {
      before = id ∷ f.before;
      id = f.id;
      managed = f.managed;
      behind = f.behind;
      whole = ap (λ q. id ∷ q) f.whole;
      skipped = (s, f.skipped);
      found = f.found;
      ready = f.ready;
    },
    e,
  )

  next_after : Skipped jobs id → next_dispatchable jobs (id ∷ queue) ≡ next_dispatchable jobs queue
  unfolding next_dispatchable dispatchable
  next_after s = elim (Option-cases (get id jobs)) [
    | inl e ↦ rw (e, next_dispatchable) refl
    | inr (m, e) ↦ ground (arith, s, e)
  ]

  next_here :
      (m : ManagedJob)
      → get id jobs ≡ some m
      → dispatchable (some m) ≡ true
      → next_dispatchable jobs (id ∷ queue) ≡ (some (id, m), queue)
  unfolding next_dispatchable dispatchable
  next_here m e d = rw (e, d, next_dispatchable) refl

pub next_dispatchable-Picks :
    (jobs : Dict ManagedJob) (queue : List String) → Picks jobs queue (next_dispatchable jobs queue)
unfolding next_dispatchable dispatchable
next_dispatchable-Picks jobs [] = inl (refl, tt)
next_dispatchable-Picks jobs (id ∷ queue) = elim (Bool-cases (dispatchable (get id jobs))) [
  | inr s ↦
      rw (next_after jobs id queue s) (skip jobs id queue s _ (next_dispatchable-Picks jobs queue))
  | inl d ↦ elim (Option-cases (get id jobs)) [
    | inl e ↦ absurd (ground (arith, d, e))
    | inr (m, e) ↦
        let ready : dispatchable (some m) ≡ true = rw e at d in
        rw (next_here jobs id queue m e ready) (
          inr (
            record {
              before = [];
              id = id;
              managed = m;
              behind = queue;
              whole = refl;
              skipped = tt;
              found = e;
              ready = ready;
            },
            refl,
          ))
  ]
]

-- What a dispatch for a project comes to, by the state of the project.
abbrev pub Dispatches : JobManager → String → JobManager × Option String → Type 0
Dispatches jm project r =
    (((project == "" || is_running jm project) ≡ true) × (r ≡ (jm, none)))
    ⊎ (((project == "" || is_running jm project) ≡ false)
        × (((r.1 ≡ none)
              × All (Skipped jm.jobs) (queue_of jm project)
              × (queue_of r.0 project ≡ [])
              × (r.0.running ≡ jm.running))
            ⊎ ((f : First jm.jobs (queue_of jm project)) × (r.1 ≡ some f.id)
                × (queue_of r.0 project ≡ f.behind)
                × (get project r.0.running ≡ some f.id))))

queue_at :
    (queues : Dict (List String)) (jm : JobManager) (project : String) (q : List String)
    → queue_of (record jm { queues = put project q queues }) project ≡ q
queue_at queues jm project q = rw (get-put_self project q queues, queue_of) refl

module _ (jm : JobManager) (project : String) where
  pub prepare_busy :
      (project == "" || is_running jm project) ≡ true
      → prepare_next_job_locked jm project ≡ (jm, none)
  unfolding prepare_next_job_locked
  prepare_busy e = rw (e, prepare_next_job_locked) refl

  pub prepare_free :
      (r : Option (String × ManagedJob) × List String)
      → (project == "" || is_running jm project) ≡ false
      → next_dispatchable jm.jobs (queue_of jm project) ≡ r
      → prepare_next_job_locked jm project ≡ dispatch_from jm project r
  unfolding prepare_next_job_locked
  prepare_free r e n = rw (e, prepare_next_job_locked) (ap (dispatch_from jm project) n)

  dispatched :
      (free : (project == "" || is_running jm project) ≡ false)
      (r : Option (String × ManagedJob) × List String)
      → Picks jm.jobs (queue_of jm project) r
      → Dispatches jm project (dispatch_from jm project r)
  unfolding dispatch_from
  dispatched free r (inl (e, all)) =
      rw e (inr (free, inl (refl, all, queue_at jm.queues jm project [], refl)))
  dispatched free r (inr (f, e)) = rw e (
      inr (
        free,
        inr (f, refl, queue_at jm.queues jm project f.behind, get-put_self project f.id jm.running),
      ))

  -- While a project runs a job, and for the empty project, nothing is dispatched and nothing changes.
  -- Otherwise the first job of the project's queue that is queued and has a runner is dispatched: it
  -- becomes the running job of the project, and the queue keeps what stood behind it; or, if no job of
  -- the queue is such a one, nothing is dispatched and the queue is empty afterwards.
  pub prepare_next_job_locked_lem : Dispatches jm project (prepare_next_job_locked jm project)
  prepare_next_job_locked_lem = elim (Bool-cases (project == "" || is_running jm project)) [
    | inl e ↦ rw (prepare_busy e) (inl (e, refl))
    | inr e ↦
        let r = next_dispatchable jm.jobs (queue_of jm project) in
        rw (prepare_free r e refl)
          (dispatched e r (next_dispatchable-Picks jm.jobs (queue_of jm project)))
  ]
