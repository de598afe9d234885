-- ===== src/Job/System/Dispatching.antt =====
-- core/job.go: a dispatch keeps what ties the running map, the queues and the goroutines.
use echo_client.Prelude.{
  contains, String, true, false, ◌||◌, ◌≡◌, refl, sym, ap, ◌∙◌, inl, inr, none, some, List, [], ◌∷◌,
  ◌++◌, ◌==◌, arith, if◌then◌else◌, Bool-cases, Option-cases, eq_iff,
}
use echo_client.Prelude.Dict.{Dict, get, put, get-put, get-put_self}
use echo_client.Job.{JobManager, live}
use echo_client.Job.Manager.{queue_of, is_running, dispatch_from, prepare_next_job_locked}
use echo_client.Job.Dispatch.{First, next_dispatchable-Picks, prepare_busy, prepare_free}
use echo_client.Job.System.{Phase, launch, launched}
use echo_client.Job.System.Invariant.{Inv, project_of, project_at, put-projects}

contains-middle :
    (x : String) (before behind : List String) → contains x (before ++ x ∷ behind) ≡ true
contains-middle x [] behind = ground (arith, eq_iff x x)
contains-middle x (y ∷ before) behind = ground (arith, contains-middle x before behind)

contains-behind :
    (x y : String) (before behind : List String)
    → contains x behind ≡ true
    → contains x (before ++ y ∷ behind) ≡ true
contains-behind x y [] behind h = ground arith
contains-behind x y (z ∷ before) behind h = ground (arith, contains-behind x y before behind)

-- The queue of each project after a write.
pub queue_of-put :
    (jm : JobManager) (queues : Dict (List String)) (p q : String) (l : List String)
    → queue_of (record jm { queues = put p l queues }) q
      ≡ (if p == q then l else queue_of (record jm { queues = queues }) q)
queue_of-put jm queues p q l = elim (Bool-cases (p == q)) [
  | inl e ↦ rw (get-put p q l queues, e, queue_of) refl
  | inr e ↦ rw (get-put p q l queues, e, queue_of) refl
]

module _ (jm : JobManager) (gs : Dict Phase) (v : Inv jm gs) (p : String)
    (free : (p == "" || is_running jm p) ≡ false) where
  -- No running job: a running one has a name.
  idle : get p jm.running ≡ none
  idle = elim (Option-cases (get p jm.running)) [
    | inl e ↦ e
    | inr (id, e) ↦
        let (at, g) = v.owner p id e in
        let named = v.named id p at in
        absurd (ground (arith, free, e, named, eq_iff id "", eq_iff p ""))
  ]

  emptied-Inv : Inv (dispatch_from jm p (none, [])).0 gs
  unfolding dispatch_from
  emptied-Inv = record {
    held = v.held;
    owner = v.owner;
    named = v.named;
    queued = λ q id h. v.queued q id (ground (arith, queue_of-put jm jm.queues p q [], h));
  }

  module _ (f : First jm.jobs (queue_of jm p)) where
    abbrev given : JobManager
    given = (dispatch_from jm p (some (f.id, f.managed), f.behind)).0

    was_queued : contains f.id (queue_of jm p) ≡ true
    was_queued = rw f.whole (contains-middle f.id f.before f.behind)

    its_project : project_at jm f.id ≡ some p
    its_project = v.queued p f.id was_queued

    same_project : project_at jm f.id ≡ some f.managed.job.project
    same_project = ap project_of f.found

    given_projects : (j : String) → project_at given j ≡ project_at jm j
    unfolding dispatch_from
    given_projects = put-projects jm f.id (record f.managed { ctx = live }) same_project

    given_held :
        (j : String) (q : Phase)
        → get j (put f.id launched gs) ≡ some q
        → (p' : String) × (project_at given j ≡ some p') × (get p' given.running ≡ some j)
    unfolding dispatch_from
    given_held j q e = elim (Bool-cases (f.id == j)) [
      | inl same ↦
          let at : f.id ≡ j = (eq_iff f.id j).0 same in
          (
            p,
            given_projects j ∙ ap (project_at jm) (sym at) ∙ its_project,
            get-put_self p f.id jm.running ∙ ap some at,
          )
      | inr other ↦
          let (p', at, r) = v.held j q (ground (arith, get-put f.id j launched gs)) in
          (
            p',
            given_projects j ∙ at,
            ground (arith, get-put p p' f.id jm.running, idle, r, eq_iff p p'),
          )
    ]

    given_owner :
        (q j : String)
        → get q given.running ≡ some j
        → (project_at given j ≡ some q) × ((ph : Phase) × (get j (put f.id launched gs) ≡ some ph))
    unfolding dispatch_from
    given_owner q j e = elim (Bool-cases (f.id == j)) [
      | inl same ↦
          let at : f.id ≡ j = (eq_iff f.id j).0 same in
          let there = get-put_self f.id launched gs in
          let launched_at : get j (put f.id launched gs) ≡ some launched =
            ap (λ x. get x (put f.id launched gs)) (sym at) ∙ there in
          elim (Bool-cases (p == q)) [
            | inl here ↦ (
              given_projects j
                  ∙ ap (project_at jm) (sym at)
                  ∙ its_project
                  ∙ ap some ((eq_iff p q).0 here),
              (launched, launched_at),
            )
            | inr away ↦
                let (old, g) = v.owner q j (ground (arith, get-put p q f.id jm.running)) in
                (given_projects j ∙ old, (launched, launched_at))
          ]
      | inr other ↦
          let old : get q jm.running ≡ some j =
            ground (arith, get-put p q f.id jm.running, eq_iff f.id j) in
          let (at, (ph, g)) = v.owner q j old in
          (given_projects j ∙ at, (ph, ground (arith, get-put f.id j launched gs, g)))
    ]

    given_queued :
        (q j : String) → contains j (queue_of given q) ≡ true → project_at given j ≡ some q
    unfolding dispatch_from
    given_queued q j h = elim (Bool-cases (p == q)) [
      | inl here ↦
          let behind : contains j f.behind ≡ true =
            ground (arith, queue_of-put jm jm.queues p q f.behind, h) in
          given_projects j
          ∙ v.queued p j (rw f.whole (contains-behind j f.id f.before f.behind behind))
          ∙ ap some ((eq_iff p q).0 here)
      | inr away ↦
          given_projects j
          ∙ v.queued q j (ground (arith, queue_of-put jm jm.queues p q f.behind, h))
    ]

    dispatched-Inv : Inv given (put f.id launched gs)
    dispatched-Inv = record {
      held = given_held;
      owner = given_owner;
      named = λ j q e. v.named j q (sym (given_projects j) ∙ e);
      queued = given_queued;
    }

emptied :
    (jm : JobManager) (gs : Dict Phase)
    → Inv jm gs
    → (p : String) → (p == "" || is_running jm p) ≡ false
    → let r = dispatch_from jm p (none, []) in Inv r.0 (launch gs r.1)
unfolding dispatch_from
emptied jm gs v p e = emptied-Inv jm gs v p e

given_with :
    (jm : JobManager) (gs : Dict Phase)
    → Inv jm gs
    → (p : String) → (p == "" || is_running jm p) ≡ false
    → (f : First jm.jobs (queue_of jm p))
    → let r = dispatch_from jm p (some (f.id, f.managed), f.behind) in Inv r.0 (launch gs r.1)
unfolding dispatch_from
given_with jm gs v p e f = dispatched-Inv jm gs v p e f

-- A dispatch keeps the invariant, with the goroutine that it starts.
pub prepare-Inv :
    (jm : JobManager) (gs : Dict Phase) (p : String)
    → Inv jm gs
    → let r = prepare_next_job_locked jm p in Inv r.0 (launch gs r.1)
prepare-Inv jm gs p v = elim (Bool-cases (p == "" || is_running jm p)) [
  | inl e ↦ rw (prepare_busy jm p e) v
  | inr e ↦ elim (next_dispatchable-Picks jm.jobs (queue_of jm p)) [
    | inl (n, all) ↦ rw (prepare_free jm p (none, []) e n) (emptied jm gs v p e)
    | inr (f, n) ↦
        rw (prepare_free jm p (some (f.id, f.managed), f.behind) e n) (given_with jm gs v p e f)
  ]
]

idle_has_no_goroutine :
    (jm : JobManager) (gs : Dict Phase)
    → Inv jm gs
    → (p id : String) → get p jm.running ≡ none
    → project_at jm id ≡ some p
    → get id gs ≡ none
idle_has_no_goroutine jm gs v p id idle at = elim (Option-cases (get id gs)) [
  | inl e ↦ e
  | inr (ph, e) ↦ let (p', at', r) = v.held id ph e in absurd (ground (arith, at, at', r, idle))
]

picked :
    (jm : JobManager) (p : String) (f : First jm.jobs (queue_of jm p))
    → (dispatch_from jm p (some (f.id, f.managed), f.behind)).1 ≡ some f.id
unfolding dispatch_from
picked jm p f = refl

nothing_picked : (jm : JobManager) (p : String) → (dispatch_from jm p (none, [])).1 ≡ none
unfolding dispatch_from
nothing_picked jm p = refl

-- A dispatch never starts a job that still has a goroutine.
pub prepare_new :
    (jm : JobManager) (gs : Dict Phase) (p id : String)
    → Inv jm gs
    → (prepare_next_job_locked jm p).1 ≡ some id
    → get id gs ≡ none
prepare_new jm gs p id v d = elim (Bool-cases (p == "" || is_running jm p)) [
  | inl e ↦ absurd (ground (arith, prepare_busy jm p e, d))
  | inr e ↦ elim (next_dispatchable-Picks jm.jobs (queue_of jm p)) [
    | inl (n, all) ↦
        absurd (ground (arith, prepare_free jm p (none, []) e n, nothing_picked jm p, d))
    | inr (f, n) ↦
        let it : f.id ≡ id =
          ground
            (arith, prepare_free jm p (some (f.id, f.managed), f.behind) e n, picked jm p f, d) in
        ap (λ x. get x gs) (sym it)
        ∙ idle_has_no_goroutine jm gs v p f.id (idle jm gs v p e) (its_project jm gs v p e f)
  ]
]
