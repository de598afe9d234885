-- ===== src/Cron/Scheduler/Exact.antt =====
-- core/cron.go: scheduling, its end and the changes of the store keep the entries exact.
use echo_client.Prelude.{
  ℕ, String, true, false, some, List, ◌==◌, ◌≡◌, refl, sym, ap, ◌∙◌, inl, inr, arith, Bool-cases,
  Option-cases, eq_iff, ==_self,
}
use mathlib.Core.Path.{subst}
use echo_client.Prelude.Dict.{Dict}
use echo_client.Cron.{CronJob}
use echo_client.Cron.Store.{CronStore, find_job, change_job, save}
use echo_client.Cron.Store.Finding.{Unique, find_job-id, find_job-change_job, change_job-Unique}
use echo_client.Cron.Scheduler.{CronScheduler, schedule_job, unschedule}
use echo_client.Cron.Scheduler.Library.{CronLibrary, CronLaws}
use echo_client.Cron.Scheduler.Keeps.{
  wants, is_wanted, has_entry, Tied, Schedulable, schedule_job-entries, unschedule-entries,
}

module _ {L : CronLibrary} (laws : CronLaws L) where
  -- The entries are the library's, ids are unique and every stored job can be scheduled.
  pub record Sound (c : L.Cron) (entries : Dict ℕ) (jobs : List CronJob) : Type 0 where
    pub tied : Tied laws c entries
    pub unique : Unique jobs
    pub valid : (id : String) (job : CronJob) → find_job id jobs ≡ some job → Schedulable laws job

  -- The jobs with an entry are the enabled ones, with one id left out of account.
  abbrev pub AgreesBut : String → Dict ℕ → List CronJob → Type 0
  AgreesBut id entries jobs = (k : String) → (id == k) ≡ false → has_entry entries k ≡ wants jobs k

  abbrev pub Agrees : Dict ℕ → List CronJob → Type 0
  Agrees entries jobs = (k : String) → has_entry entries k ≡ wants jobs k

  unfoldable pub Exact : CronScheduler L → Type 0
  Exact cs = Sound cs.cron cs.entries cs.store.jobs × Agrees cs.entries cs.store.jobs

  pub schedule-Exact :
      (cs : CronScheduler L) (id : String) (job : CronJob)
      → Sound cs.cron cs.entries cs.store.jobs
      → AgreesBut id cs.entries cs.store.jobs
      → find_job id cs.store.jobs ≡ some job
      → job.enabled ≡ true
      → Exact (schedule_job cs job).0
  unfolding Exact
  schedule-Exact cs id job v agree f on =
      let (fine, store, tied, has) = schedule_job-entries laws cs job v.tied (v.valid id job f) in
      let same = find_job-id id cs.store.jobs job f in
      let jobs : (schedule_job cs job).0.store.jobs ≡ cs.store.jobs =
        ap (λ (s : CronStore). s.jobs) store in
      let wanted : wants cs.store.jobs id ≡ true = ap is_wanted f ∙ on in
      let r = (schedule_job cs job).0 in
      (
        subst (Sound r.cron r.entries) (sym jobs)
            (record { tied = tied; unique = v.unique; valid = v.valid }),
        λ k. has k ∙ elim (Bool-cases (id == k)) [
          | inl here ↦
              let at : id ≡ k = (eq_iff id k).0 here in
              let own : (job.id == k) ≡ true = (eq_iff job.id k).1 (same ∙ at) in
              let want : wants cs.store.jobs k ≡ true =
                ap (wants cs.store.jobs) (sym at) ∙ wanted in
              rw own (sym (ap (λ l. wants l k) jobs ∙ want))
          | inr away ↦
              let other : (job.id == k) ≡ false = ap (λ x. x == k) same ∙ away in
              rw other (agree k away ∙ sym (ap (λ l. wants l k) jobs))
        ],
      )

  pub unschedule-Exact :
      (cs : CronScheduler L) (id : String)
      → Sound cs.cron cs.entries cs.store.jobs
      → AgreesBut id cs.entries cs.store.jobs
      → wants cs.store.jobs id ≡ false
      → Exact (unschedule cs id)
  unfolding Exact
  unschedule-Exact cs id v agree off =
      let (store, tied, has) = unschedule-entries laws cs id v.tied in
      let jobs : (unschedule cs id).store.jobs ≡ cs.store.jobs =
        ap (λ (s : CronStore). s.jobs) store in
      let r = unschedule cs id in
      (
        subst (Sound r.cron r.entries) (sym jobs)
            (record { tied = tied; unique = v.unique; valid = v.valid }),
        λ k. has k ∙ elim (Bool-cases (id == k)) [
          | inl here ↦
              let at : id ≡ k = (eq_iff id k).0 here in
              rw here (sym (ap (λ l. wants l k) jobs ∙ ap (wants cs.store.jobs) (sym at) ∙ off))
          | inr away ↦ rw away (agree k away ∙ sym (ap (λ l. wants l k) jobs))
        ],
      )

  -- A change of one stored job, to one of the same id that can be scheduled.
  module _ (c : L.Cron) (entries : Dict ℕ) (jobs : List CronJob) (id : String) (job : CronJob)
      (f : CronJob → CronJob) (found : find_job id jobs ≡ some job)
      (same : (f job).id ≡ job.id) where
    abbrev jobs' : List CronJob
    jobs' = change_job id f jobs

    pub change-Sound : Sound c entries jobs → Schedulable laws (f job) → Sound c entries jobs'
    change-Sound v s = record {
      tied = v.tied;
      unique = change_job-Unique id f jobs job found same v.unique;
      valid = λ k j e. elim (Bool-cases (id == k)) [
        | inl here ↦
            let it : some (f job) ≡ some j =
              sym (find_job-change_job id k f jobs job found same ∙ rw here refl) ∙ e in
            subst (Schedulable laws) (ground (arith, it)) s
        | inr away ↦
            let it : find_job k jobs ≡ some j =
              sym (find_job-change_job id k f jobs job found same ∙ rw away refl) ∙ e in
            v.valid k j it
      ];
    }

    pub change-found : find_job id jobs' ≡ some (f job)
    change-found = find_job-change_job id id f jobs job found same ∙ rw (==_self id) refl

    pub change-AgreesBut : AgreesBut id entries jobs → AgreesBut id entries jobs'
    change-AgreesBut agree k away =
        let it : find_job k (change_job id f jobs) ≡ find_job k jobs =
          find_job-change_job id k f jobs job found same ∙ rw away refl in
        agree k away ∙ sym (ap is_wanted it)

  -- A change that also keeps whether the job is enabled.
  pub change-Agrees :
      (entries : Dict ℕ) (jobs : List CronJob) (id : String) (job : CronJob) (f : CronJob → CronJob)
      → find_job id jobs ≡ some job
      → (f job).id ≡ job.id
      → (f job).enabled ≡ job.enabled
      → Agrees entries jobs
      → Agrees entries (change_job id f jobs)
  change-Agrees entries jobs id job f found same on agree k =
      let it = find_job-change_job id k f jobs job found same in
      elim (Bool-cases (id == k)) [
        | inl here ↦
            let was : wants jobs k ≡ job.enabled =
              ap (wants jobs) (sym ((eq_iff id k).0 here)) ∙ ap is_wanted found in
            let now : find_job k (change_job id f jobs) ≡ some (f job) = it ∙ rw here refl in
            agree k ∙ was ∙ sym on ∙ sym (ap is_wanted now)
        | inr away ↦
            let now : find_job k (change_job id f jobs) ≡ find_job k jobs = it ∙ rw away refl in
            agree k ∙ sym (ap is_wanted now)
      ]

  -- The same entries with a store of these jobs.
  pub stored-Exact :
      (cs : CronScheduler L) (s : CronStore) (jobs : List CronJob)
      → s.jobs ≡ jobs
      → Sound cs.cron cs.entries jobs
      → Agrees cs.entries jobs
      → Exact (record cs { store = s })
  unfolding Exact
  stored-Exact cs s jobs e v agree =
      (subst (Sound cs.cron cs.entries) (sym e) v, λ k. agree k ∙ sym (ap (λ l. wants l k) e))

pub save-jobs : (s : CronStore) → (save s).0.jobs ≡ s.jobs
unfolding save
save-jobs s = elim (Option-cases s.disk_error) [
  | inl e ↦ rw (e, save) refl
  | inr (t, e) ↦ rw (e, save) refl
]
