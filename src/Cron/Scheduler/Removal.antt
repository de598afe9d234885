-- ===== src/Cron/Scheduler/Removal.antt =====
-- core/cron.go: RemoveJob keeps the entries exact.
use echo_client.Prelude.{
  ℕ, String, true, false, not, ◌&&◌, none, some, List, ◌==◌, ◌≡◌, refl, sym, ap, ◌∙◌, inl, inr,
  arith, Bool-cases, Option-cases,
}
use mathlib.Core.Path.{subst}
use echo_client.Prelude.Dict.{Dict, get}
use echo_client.Cron.{CronJob}
use echo_client.Cron.Store.{CronStore, find_job, without_job, save, remove}
use echo_client.Cron.Store.Finding.{Unique, find_job-without_job, without_job-Unique}
use echo_client.Cron.Scheduler.{CronScheduler, unschedule, remove_job}
use echo_client.Cron.Scheduler.Library.{CronLibrary, CronLaws}
use echo_client.Cron.Scheduler.Keeps.{is_wanted, has_entry, Tied, unschedule-entries}
use echo_client.Cron.Scheduler.Exact.{Sound, Agrees, Exact, stored-Exact, save-jobs}

module _ {L : CronLibrary} (laws : CronLaws L) where
  without_Agrees :
      (entries entries' : Dict ℕ) (jobs : List CronJob) (id : String)
      → Unique jobs
      → ((k : String) → has_entry entries' k ≡ (not (id == k) && has_entry entries k))
      → Agrees laws entries jobs
      → Agrees laws entries' (without_job id jobs)
  without_Agrees entries entries' jobs id u has agree k =
      let it = find_job-without_job id k jobs u in
      has k ∙ elim (Bool-cases (id == k)) [
        | inl here ↦
            let gone : find_job k (without_job id jobs) ≡ none = it ∙ rw here refl in
            rw here (sym (ap is_wanted gone))
        | inr away ↦
            let kept : find_job k (without_job id jobs) ≡ find_job k jobs = it ∙ rw away refl in
            rw away (agree k ∙ sym (ap is_wanted kept))
      ]

  without_Sound :
      (c : L.Cron) (entries entries' : Dict ℕ) (c' : L.Cron) (jobs : List CronJob) (id : String)
      → Sound laws c entries jobs
      → Tied laws c' entries'
      → Sound laws c' entries' (without_job id jobs)
  without_Sound c entries entries' c' jobs id v t = record {
    tied = t;
    unique = without_job-Unique id jobs v.unique;
    valid = λ k j e.
        let it = find_job-without_job id k jobs v.unique in
        elim (Bool-cases (id == k)) [
          | inl here ↦
              let gone : none ≡ some j = sym (it ∙ rw here refl) ∙ e in
              absurd (ground (arith, gone))
          | inr away ↦ v.valid k j (sym (it ∙ rw away refl) ∙ e)
        ];
  }

  -- Without a job of the id, there is no entry to end.
  unschedule-missing :
      (cs : CronScheduler L) (id : String) → has_entry cs.entries id ≡ false → unschedule cs id ≡ cs
  unfolding unschedule
  unschedule-missing cs id h = elim (Option-cases (get id cs.entries)) [
    | inl n ↦ rw (n, unschedule) refl
    | inr (e, f) ↦ absurd (ground (arith, h, f))
  ]

  remove_missing :
      (s : CronStore) (id : String) → find_job id s.jobs ≡ none → remove s id ≡ (s, false)
  unfolding remove
  remove_missing s id e = rw (e, remove) refl

  remove_found :
      (s : CronStore) (id : String) (job : CronJob)
      → find_job id s.jobs ≡ some job
      → remove s id ≡ ((save (record s { jobs = without_job id s.jobs })).0, true)
  unfolding remove
  remove_found s id job e = rw (e, remove) refl

  pub remove_job-Exact :
      (cs : CronScheduler L) (id : String) → Exact laws cs → Exact laws (remove_job cs id).0
  unfolding remove_job Exact
  remove_job-Exact cs id (v, agree) =
      let (store, tied, has) = unschedule-entries laws cs id v.tied in
      let cs' = unschedule cs id in
      elim (Option-cases (find_job id cs.store.jobs)) [
        | inl n ↦
            let same = unschedule-missing cs id (agree id ∙ ap is_wanted n) in
            let none_found : find_job id cs'.store.jobs ≡ none =
              ap (λ (s : CronStore). find_job id s.jobs) store ∙ n in
            rw (remove_missing cs'.store id none_found, remove_job)
              (subst (Exact laws) (sym same) (v, agree))
        | inr (job, e) ↦
            let found : find_job id cs'.store.jobs ≡ some job =
              ap (λ (s : CronStore). find_job id s.jobs) store ∙ e in
            let left = without_job id cs'.store.jobs in
            let jobs : (save (record cs'.store { jobs = left })).0.jobs
                ≡ without_job id cs.store.jobs =
              save-jobs (record cs'.store { jobs = left })
              ∙ ap (λ (s : CronStore). without_job id s.jobs) store in
            rw (remove_found cs'.store id job found, remove_job)
              (stored-Exact laws cs' (save (record cs'.store { jobs = left })).0
                (without_job id cs.store.jobs) jobs
                (without_Sound cs.cron cs.entries cs'.entries cs'.cron cs.store.jobs id v tied)
                (without_Agrees cs.entries cs'.entries cs.store.jobs id v.unique has agree))
      ]
