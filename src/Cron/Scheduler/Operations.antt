-- ===== src/Cron/Scheduler/Operations.antt =====
-- core/cron.go: each operation of the scheduler keeps the entries exact.
use echo_client.Prelude.{
  ℕ, String, Bool, true, false, not, ◌&&◌, Option, none, some, List, [], ◌∷◌, ◌++◌, ◌==◌,
  if◌then◌else◌, ◌≡◌, refl, sym, ap, ◌∙◌, inl, inr, arith, Bool-cases, Option-cases, eq_iff,
  ==_self,
}
use mathlib.Core.Path.{subst}
use echo_client.Prelude.Dict.{Dict}
use echo_client.Cron.{CronJob, CronError, Checked, ok, err, is_loop_job}
use echo_client.Cron.Interval.{validate_cron_job, schedule_spec}
use echo_client.Cron.Store.{
  CronStore, find_job, change_job, save, get_job, add, changed, set_enabled,
}
use echo_client.Cron.Store.Finding.{find_job-append, append-Unique}
use echo_client.Cron.Scheduler.{CronScheduler, stored, add_valid, add_job, enable_job, disable_job}
use echo_client.Cron.Scheduler.Library.{CronLibrary, CronLaws}
use echo_client.Cron.Scheduler.Keeps.{wants, is_wanted, Schedulable}
use echo_client.Cron.Scheduler.Checks.{
  validate_cron_job-Accepted, normalized, normalized-Schedulable,
}
use echo_client.Cron.Scheduler.Exact.{
  Sound, Agrees, AgreesBut, Exact, schedule-Exact, unschedule-Exact, change-Sound, change-found,
  change-AgreesBut, save-jobs,
}

module _ {L : CronLibrary} (laws : CronLaws L) where
  pub but :
      (id : String) (entries : Dict ℕ) (jobs : List CronJob)
      → Agrees laws entries jobs
      → AgreesBut laws id entries jobs
  but id entries jobs agree k away = agree k

  appended-Sound :
      (c : L.Cron) (entries : Dict ℕ) (jobs : List CronJob) (job : CronJob)
      → Sound laws c entries jobs
      → find_job job.id jobs ≡ none
      → Schedulable laws job
      → Sound laws c entries (jobs ++ job ∷ [])
  appended-Sound c entries jobs job v new s = record {
    tied = v.tied;
    unique = append-Unique job jobs new v.unique;
    valid = λ k j e. elim (Option-cases (find_job k jobs)) [
      | inr (old, f) ↦
          let it : some old ≡ some j = sym (find_job-append k job jobs ∙ rw f refl) ∙ e in
          v.valid k j (f ∙ it)
      | inl n ↦ elim (Bool-cases (job.id == k)) [
        | inl here ↦
            let it : some job ≡ some j =
              sym (find_job-append k job jobs ∙ rw n (rw here refl)) ∙ e in
            subst (Schedulable laws) (ground (arith, it)) s
        | inr away ↦
            let it : none ≡ some j = sym (find_job-append k job jobs ∙ rw n (rw away refl)) ∙ e in
            absurd (ground (arith, it))
      ]
    ];
  }

  appended-AgreesBut :
      (entries : Dict ℕ) (jobs : List CronJob) (job : CronJob)
      → Agrees laws entries jobs
      → AgreesBut laws job.id entries (jobs ++ job ∷ [])
  appended-AgreesBut entries jobs job agree k away =
      let it : find_job k (jobs ++ job ∷ []) ≡ find_job k jobs =
        find_job-append k job jobs ∙ elim (Option-cases (find_job k jobs)) [
          | inl n ↦ rw n (rw away refl)
          | inr (old, f) ↦ rw f refl
        ] in
      agree k ∙ sym (ap is_wanted it)

  appended-found :
      (jobs : List CronJob) (job : CronJob)
      → find_job job.id jobs ≡ none
      → find_job job.id (jobs ++ job ∷ []) ≡ some job
  appended-found jobs job new = find_job-append job.id job jobs ∙ rw new (rw (==_self job.id) refl)

  appended-Agrees :
      (entries : Dict ℕ) (jobs : List CronJob) (job : CronJob)
      → find_job job.id jobs ≡ none
      → job.enabled ≡ false
      → Agrees laws entries jobs
      → Agrees laws entries (jobs ++ job ∷ [])
  appended-Agrees entries jobs job new off agree k = elim (Bool-cases (job.id == k)) [
    | inr away ↦ appended-AgreesBut entries jobs job agree k away
    | inl here ↦
        let at = (eq_iff job.id k).0 here in
        agree k
        ∙ ap (wants jobs) (sym at)
        ∙ ap is_wanted new
        ∙ sym off
        ∙ sym (ap is_wanted (appended-found jobs job new))
        ∙ ap (wants (jobs ++ job ∷ [])) at
  ]

  pub either :
      (b : Bool) (x y : CronScheduler L × Option CronError)
      → (b ≡ true → Exact laws x.0)
      → (b ≡ false → Exact laws y.0)
      → Exact laws (if b then x else y).0
  either true x y h k = h refl
  either false x y h k = k refl

  -- The store takes the job; a failing write would leave it there without an entry.
  stored-new :
      (cs : CronScheduler L) (job : CronJob)
      → Exact laws cs
      → find_job job.id cs.store.jobs ≡ none
      → cs.store.disk_error ≡ none
      → Schedulable laws job
      → Exact laws (stored cs job (add cs.store job)).0
  unfolding add save Exact
  stored-new cs job (v, agree) new fine s =
      let store : CronStore = record cs.store {
        jobs = cs.store.jobs ++ job ∷ [];
        file = cs.store.jobs ++ job ∷ [];
      } in
      let saved : add cs.store job ≡ (store, none) =
        ap
          (λ o. elim o as (λ x. CronStore × Option String) [
            | none ↦ (store, none)
            | some e ↦ (record cs.store { jobs = cs.store.jobs ++ job ∷ [] }, some e)
          ])
          fine in
      let sound = appended-Sound cs.cron cs.entries cs.store.jobs job v new s in
      rw saved (
        either job.enabled _ _
          (λ on.
            schedule-Exact laws (record cs { store = store }) job.id job sound
              (appended-AgreesBut cs.entries cs.store.jobs job agree)
              (appended-found cs.store.jobs job new) on)
          (λ off. (sound, appended-Agrees cs.entries cs.store.jobs job new off agree)))

  add_valid-Exact :
      (cs : CronScheduler L) (p : CronJob) (c : Checked CronJob)
      → validate_cron_job p ≡ c
      → Exact laws cs
      → find_job p.id cs.store.jobs ≡ none
      → cs.store.disk_error ≡ none
      → Exact laws (add_valid cs c).0
  add_valid-Exact cs p (err e) h v new fine = v
  add_valid-Exact cs p (ok j) h v new fine =
      let a = validate_cron_job-Accepted p j h in
      elim (Bool-cases (not (is_loop_job (normalized j)) && not (L.parses j.cron_expr))) [
        | inl e ↦ rw e v
        | inr e ↦ rw e (
            stored-new cs (normalized j) v (ap (λ k. find_job k cs.store.jobs) a.same_id ∙ new) fine
              (normalized-Schedulable laws p j a e))
      ]

  pub add_job-Exact :
      (cs : CronScheduler L) (p : CronJob)
      → Exact laws cs
      → find_job p.id cs.store.jobs ≡ none
      → cs.store.disk_error ≡ none
      → Exact laws (add_job cs p).0
  unfolding add_job
  add_job-Exact cs p v new fine = add_valid-Exact cs p (validate_cron_job p) refl v new fine

  -- A change of the store through `changed`.
  pub changed_jobs :
      (s : CronStore) (id : String) (f : CronJob → CronJob) (job : CronJob)
      → find_job id s.jobs ≡ some job
      → ((changed s id f).0.jobs ≡ change_job id f s.jobs) × ((changed s id f).1 ≡ true)
  unfolding changed
  changed_jobs s id f job e =
      rw (e, changed) (save-jobs (record s { jobs = change_job id f s.jobs }), refl)

  pub unchanged :
      (s : CronStore) (id : String) (f : CronJob → CronJob)
      → find_job id s.jobs ≡ none
      → changed s id f ≡ (s, false)
  unfolding changed
  unchanged s id f e = rw (e, changed) refl

  pub same_schedule :
      (j j' : CronJob)
      → schedule_spec j' ≡ schedule_spec j
      → Schedulable laws j
      → Schedulable laws j'
  same_schedule j j' e (spec, made, parsed) = (spec, e ∙ made, parsed)

  enabled_schedule :
      (j : CronJob) (b : Bool) → schedule_spec (record j { enabled = b }) ≡ schedule_spec j
  unfolding schedule_spec is_loop_job
  enabled_schedule j b = refl

  pub run_schedule :
      (j : CronJob) (t : Option ℕ) (e : String)
      → schedule_spec (record j { last_run = t; last_error = e }) ≡ schedule_spec j
  unfolding schedule_spec is_loop_job
  run_schedule j t e = refl

  pub enable_job-Exact :
      (cs : CronScheduler L) (id : String) → Exact laws cs → Exact laws (enable_job cs id).0
  unfolding enable_job set_enabled get_job Exact
  enable_job-Exact cs id (v, agree) = elim (Option-cases (find_job id cs.store.jobs)) [
    | inl n ↦ rw (unchanged cs.store id (λ j. record j { enabled = true }) n) (v, agree)
    | inr (job, e) ↦
        let f : CronJob → CronJob = λ j. record j { enabled = true } in
        let (jobs, done) = changed_jobs cs.store id f job e in
        let s = (changed cs.store id f).0 in
        let found : find_job id s.jobs ≡ some (f job) =
          ap (find_job id) jobs
          ∙ change-found laws cs.cron cs.entries cs.store.jobs id job f e refl in
        rw done (
          rw found (
            schedule-Exact laws (record cs { store = s }) id (f job)
              (subst (Sound laws cs.cron cs.entries) (sym jobs) (
                change-Sound laws cs.cron cs.entries cs.store.jobs id job f e refl v
                  (same_schedule job (f job) (enabled_schedule job true) (v.valid id job e))))
              (subst (AgreesBut laws id cs.entries) (sym jobs) (
                change-AgreesBut laws cs.cron cs.entries cs.store.jobs id job f e refl
                  (but id cs.entries cs.store.jobs agree)))
              found refl))
  ]

  pub disable_job-Exact :
      (cs : CronScheduler L) (id : String) → Exact laws cs → Exact laws (disable_job cs id).0
  unfolding disable_job set_enabled Exact
  disable_job-Exact cs id (v, agree) = elim (Option-cases (find_job id cs.store.jobs)) [
    | inl n ↦ rw (unchanged cs.store id (λ j. record j { enabled = false }) n) (v, agree)
    | inr (job, e) ↦
        let f : CronJob → CronJob = λ j. record j { enabled = false } in
        let (jobs, done) = changed_jobs cs.store id f job e in
        let s = (changed cs.store id f).0 in
        let found : find_job id s.jobs ≡ some (f job) =
          ap (find_job id) jobs
          ∙ change-found laws cs.cron cs.entries cs.store.jobs id job f e refl in
        rw done (
          unschedule-Exact laws (record cs { store = s }) id
            (subst (Sound laws cs.cron cs.entries) (sym jobs) (
              change-Sound laws cs.cron cs.entries cs.store.jobs id job f e refl v
                (same_schedule job (f job) (enabled_schedule job false) (v.valid id job e))))
            (subst (AgreesBut laws id cs.entries) (sym jobs) (
              change-AgreesBut laws cs.cron cs.entries cs.store.jobs id job f e refl
                (but id cs.entries cs.store.jobs agree)))
            (ap is_wanted found))
  ]
