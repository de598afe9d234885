-- ===== src/Cron/Scheduler/Updates.antt =====
-- core/cron.go: UpdateJob and executeJob keep the entries exact.
use echo_client.Prelude.{
  contains, ℕ, String, Bool, true, false, Option, none, some, List, ◌==◌, if◌then◌else◌, ◌≡◌, refl,
  sym, ap, ◌∙◌, inl, inr, arith, Bool-cases, Option-cases, eq_iff,
}
use mathlib.Core.Path.{subst}
use echo_client.Cron.{CronJob, CronError, Checked, ok, err, Value, update_cron_job_field}
use echo_client.Prelude.Text.{to_lower, lower_char}
use echo_client.Prelude.Text.{trim_space, trim_left, trim_right, is_space}
use echo_client.Cron.Interval.{validate_cron_job}
use echo_client.Cron.Store.{
  CronStore, find_job, change_job, save, get_job, changed, update, is_read_only, mark_run,
}
use echo_client.Cron.Scheduler.{
  CronScheduler, schedule_job, unschedule, reschedules, reschedule, prepared, after_update,
  apply_update, update_job, check_schedule, execute_job, record_run, ExecResult, enqueued, finished,
  deadline, run_failed,
}
use echo_client.Cron.Scheduler.Library.{CronLibrary, CronLaws}
use echo_client.Cron.Scheduler.Keeps.{wants, is_wanted, Schedulable, unschedule-entries}
use echo_client.Cron.Scheduler.Checks.{update_job-Schedulable}
use echo_client.Cron.Scheduler.Fields.{Changed, update_cron_job_field-Changed}
use echo_client.Cron.Scheduler.Exact.{
  Sound, Agrees, AgreesBut, Exact, schedule-Exact, change-Sound, change-found, change-AgreesBut,
  change-Agrees, stored-Exact, save-jobs,
}
use echo_client.Cron.Scheduler.Operations.{
  either, same_schedule, run_schedule, changed_jobs, unchanged,
}

update_missing :
    (s : CronStore) (id field : String) (value : Value)
    → is_read_only field ≡ true
    → update s id field value ≡ (s, false)
unfolding update
update_missing s id field value e = rw (e, update) refl

update_found :
    (s : CronStore) (id field : String) (value : Value) (job job' : CronJob)
    → is_read_only field ≡ false
    → find_job id s.jobs ≡ some job
    → update_cron_job_field job field value ≡ some job'
    → update s id field value
      ≡ ((save (record s { jobs = change_job id (λ k. job') s.jobs })).0, true)
unfolding update
update_found s id field value job job' a b c = rw (a, b, c, update) refl

reschedule_found :
    {L : CronLibrary} (cs : CronScheduler L) (id : String) (job : CronJob)
    → find_job id cs.store.jobs ≡ some job
    → reschedule cs id ≡ (if job.enabled then schedule_job cs job else (cs, none))
unfolding reschedule get_job
reschedule_found cs id job e = rw (e, reschedule) refl

-- The fields that need a new schedule are not read-only.
writable : (field : String) → reschedules field ≡ true → is_read_only field ≡ false
unfolding is_read_only to_lower lower_char trim_space trim_left trim_right is_space
writable field h = elim (Bool-cases (field == "cron_expr")) [
  | inl e ↦ ap is_read_only ((eq_iff field "cron_expr").0 e)
  | inr e ↦ elim (Bool-cases (field == "loop_interval")) [
    | inl f ↦ ap is_read_only ((eq_iff field "loop_interval").0 f)
    | inr f ↦
        let named : (field == "enabled") ≡ true = ground (arith, h, e, f) in
        ap is_read_only ((eq_iff field "enabled").0 named)
  ]
]

module _ {L : CronLibrary} (laws : CronLaws L) where
  module _ (cs : CronScheduler L) (id field : String) (value : Value) (job job' : CronJob)
      (v : Sound laws cs.cron cs.entries cs.store.jobs)
      (agree : Agrees laws cs.entries cs.store.jobs) (found : find_job id cs.store.jobs ≡ some job)
      (made : update_cron_job_field job field value ≡ some job') (c : Changed job field value job')
      (s : Schedulable laws job') where
    abbrev jobs : List CronJob
    jobs = change_job id (λ k. job') cs.store.jobs

    abbrev with_change : CronStore → CronStore
    with_change store = (save (record store { jobs = change_job id (λ k. job') store.jobs })).0

    -- The update with the first test decided.
    decided :
        (b : Bool)
        → reschedules field ≡ b
        → apply_update cs id field value
          ≡ after_update b (prepared cs id b) id (update (prepared cs id b).store id field value)
    unfolding apply_update
    decided b h =
        ap
          (λ x.
            after_update x (prepared cs id x) id (update (prepared cs id x).store id field value))
          h

    -- The field needs no new schedule.
    kept-Exact : reschedules field ≡ false → Exact laws (apply_update cs id field value).0
    kept-Exact h = elim (Bool-cases (is_read_only field)) [
      | inl r ↦
          let it =
            decided false h
            ∙ ap (after_update false cs id) (update_missing cs.store id field value r) in
          rw it (stored-Exact laws cs cs.store cs.store.jobs refl v agree)
      | inr r ↦
          let on : job'.enabled ≡ job.enabled = elim c.enabled [
            | inl same ↦ same
            | inr named ↦ absurd (ground (arith, h, named))
          ] in
          let it =
            decided false h
            ∙ ap (after_update false cs id)
                (update_found cs.store id field value job job' r found made) in
          rw it (
            stored-Exact laws cs (with_change cs.store) jobs
              (save-jobs (record cs.store { jobs = jobs }))
              (change-Sound laws cs.cron cs.entries cs.store.jobs id job (λ k. job') found c.same_id
                v s)
              (change-Agrees laws cs.entries cs.store.jobs id job (λ k. job') found c.same_id on
                agree))
    ]

    abbrev off : CronScheduler L
    off = unschedule cs id

    abbrev next : CronScheduler L
    next = record off { store = with_change off.store }

    next_jobs : next.store.jobs ≡ jobs
    next_jobs =
        save-jobs (record off.store { jobs = change_job id (λ k. job') off.store.jobs })
        ∙ ap (λ (x : CronStore). change_job id (λ k. job') x.jobs)
            (unschedule-entries laws cs id v.tied).0

    next-Sound : Sound laws next.cron next.entries jobs
    next-Sound =
        let (store, tied, has) = unschedule-entries laws cs id v.tied in
        change-Sound laws off.cron off.entries cs.store.jobs id job (λ k. job') found c.same_id
          (record { tied = tied; unique = v.unique; valid = v.valid }) s

    next-AgreesBut : AgreesBut laws id next.entries jobs
    next-AgreesBut =
        let (store, tied, has) = unschedule-entries laws cs id v.tied in
        change-AgreesBut laws off.cron off.entries cs.store.jobs id job (λ k. job') found c.same_id
          (λ k away. has k ∙ rw away (agree k))

    next_found : find_job id next.store.jobs ≡ some job'
    next_found =
        ap (find_job id) next_jobs
        ∙ change-found laws cs.cron cs.entries cs.store.jobs id job (λ k. job') found c.same_id

    reschedule-next : Exact laws (reschedule next id).0
    reschedule-next = rw (reschedule_found next id job' next_found) (
        either laws job'.enabled (schedule_job next job') (next, none)
          (λ on.
            schedule-Exact laws next id job'
              (subst (Sound laws next.cron next.entries) (sym next_jobs) next-Sound)
              (subst (AgreesBut laws id next.entries) (sym next_jobs) next-AgreesBut) next_found on)
          (λ is_off.
            stored-Exact laws off (with_change off.store) jobs next_jobs next-Sound (all is_off)))
      where
        all : job'.enabled ≡ false → Agrees laws next.entries jobs
        all is_off = λ k. elim (Bool-cases (id == k)) [
          | inr away ↦ next-AgreesBut k away
          | inl here ↦
              let (store, tied, has) = unschedule-entries laws cs id v.tied in
              let at : id ≡ k = (eq_iff id k).0 here in
              let want : wants jobs id ≡ false =
                ap is_wanted (sym (ap (find_job id) next_jobs) ∙ next_found) ∙ is_off in
              has k ∙ rw here (sym (ap (wants jobs) (sym at) ∙ want))
        ]

    moved-Exact : reschedules field ≡ true → Exact laws (apply_update cs id field value).0
    moved-Exact h =
        let (store, tied, has) = unschedule-entries laws cs id v.tied in
        let there : find_job id off.store.jobs ≡ some job =
          ap (λ (x : CronStore). find_job id x.jobs) store ∙ found in
        let it =
          decided true h
          ∙ ap (after_update true off id)
              (update_found off.store id field value job job' (writable field h) there made) in
        rw it reschedule-next

  passed :
      (cs : CronScheduler L) (id field : String) (value : Value) (job job' : CronJob)
      → Sound laws cs.cron cs.entries cs.store.jobs
      → Agrees laws cs.entries cs.store.jobs
      → find_job id cs.store.jobs ≡ some job
      → check_schedule L job field value ≡ none
      → update_cron_job_field job field value ≡ some job'
      → (c : Checked CronJob) → validate_cron_job job' ≡ c
      → Exact laws
          (elim c as (λ x. CronScheduler L × Option CronError) [
            | err e ↦ (cs, some e)
            | ok j ↦ apply_update cs id field value
          ]).0
  passed cs id field value job job' v agree e f g (err x) h =
      stored-Exact laws cs cs.store cs.store.jobs refl v agree
  passed cs id field value job job' v agree e f g (ok j) h =
      let c = update_cron_job_field-Changed job field value job' g in
      let s = update_job-Schedulable laws job job' j field value (v.valid id job e) f c h in
      elim (Bool-cases (reschedules field)) [
        | inl b ↦ moved-Exact cs id field value job job' v agree e g c s b
        | inr b ↦ kept-Exact cs id field value job job' v agree e g c s b
      ]

  pub update_job-Exact :
      (cs : CronScheduler L) (id field : String) (value : Value)
      → Exact laws cs
      → Exact laws (update_job cs id field value).0
  unfolding update_job get_job Exact
  update_job-Exact cs id field value (v, agree) = elim (Option-cases (find_job id cs.store.jobs)) [
    | inl n ↦ rw (n, update_job) (v, agree)
    | inr (job, e) ↦ elim (Option-cases (check_schedule L job field value)) [
      | inr (x, f) ↦ rw (e, f, update_job) (v, agree)
      | inl f ↦ elim (Option-cases (update_cron_job_field job field value)) [
        | inl g ↦ rw (e, f, g, update_job) (v, agree)
        | inr (job', g) ↦
            rw (e, f, g, update_job)
              (passed cs id field value job job' v agree e f g (validate_cron_job job') refl)
      ]
    ]
  ]

  ran-Exact :
      (cs : CronScheduler L) (id e : String) (now : ℕ)
      → Exact laws cs
      → Exact laws (record cs { store = mark_run cs.store id e now })
  unfolding mark_run Exact
  ran-Exact cs id e now (v, agree) =
      let f : CronJob → CronJob = λ j. record j { last_run = some now; last_error = e } in
      elim (Option-cases (find_job id cs.store.jobs)) [
        | inl n ↦
            stored-Exact laws cs (changed cs.store id f).0 cs.store.jobs
              (ap (λ (x : CronStore × Bool). x.0.jobs) (unchanged laws cs.store id f n)) v agree
        | inr (job, found) ↦
            let (jobs, done) = changed_jobs laws cs.store id f job found in
            stored-Exact laws cs (changed cs.store id f).0 (change_job id f cs.store.jobs) jobs
              (change-Sound laws cs.cron cs.entries cs.store.jobs id job f found refl v (
                same_schedule laws job (f job) (run_schedule laws job (some now) e)
                  (v.valid id job found)))
              (change-Agrees laws cs.entries cs.store.jobs id job f found refl refl agree)
      ]

  record_run-Exact :
      (cs : CronScheduler L) (job : CronJob) (r : ExecResult) (now : ℕ)
      → Exact laws cs
      → Exact laws (record_run cs job r now)
  unfolding record_run
  record_run-Exact cs job enqueued now v = v
  record_run-Exact cs job finished now v = ran-Exact cs job.id "" now v
  record_run-Exact cs job (run_failed e) now v = ran-Exact cs job.id e now v
  record_run-Exact cs job deadline now v = ran-Exact cs job.id _ now v

  pub execute_job-Exact :
      (cs : CronScheduler L) (id : String) (r : ExecResult) (now : ℕ)
      → Exact laws cs
      → Exact laws (execute_job cs id r now)
  unfolding execute_job get_job
  execute_job-Exact cs id r now v = elim (Option-cases (find_job id cs.store.jobs)) [
    | inl n ↦ rw (n, execute_job) v
    | inr (job, e) ↦ elim (Bool-cases job.enabled) [
      | inr f ↦ rw (e, execute_job) (rw f v)
      | inl f ↦ elim (Bool-cases (contains job.project cs.engines)) [
        | inl g ↦ rw (e, execute_job) (rw f (rw g (record_run-Exact cs job r now v)))
        | inr g ↦ rw (e, execute_job) (rw f (rw g (ran-Exact cs id _ now v)))
      ]
    ]
  ]
