-- ===== src/Cron/Scheduler/System.antt =====
-- core/cron.go: the scheduler after Start and any operations.
use echo_client.Prelude.{
  ℕ, String, Bool, true, false, ◌||◌, Option, none, some, List, [], ◌∷◌, ◌==◌, if◌then◌else◌, ◌≡◌,
  refl, sym, ap, ◌∙◌, ◌↔◌, inl, inr, arith, Bool-cases, eq_iff, All,
}
use mathlib.Core.Path.{subst}
use echo_client.Prelude.Dict.{Dict, get}
use echo_client.Cron.{CronJob, Value}
use echo_client.Cron.Store.{CronStore, find_job}
use echo_client.Cron.Store.Finding.{Unique}
use echo_client.Cron.Scheduler.{
  CronScheduler, ExecResult, schedule_job, start_jobs, start, add_job, remove_job, enable_job,
  disable_job, update_job, execute_job,
}
use echo_client.Cron.Scheduler.Library.{CronLibrary, CronLaws}
use echo_client.Cron.Scheduler.Keeps.{
  wants, is_wanted, has_entry, Schedulable, schedule_job-entries,
}
use echo_client.Cron.Scheduler.Exact.{Sound, Exact}
use echo_client.Cron.Scheduler.Removal.{remove_job-Exact}
use echo_client.Cron.Scheduler.Operations.{add_job-Exact, enable_job-Exact, disable_job-Exact}
use echo_client.Cron.Scheduler.Updates.{update_job-Exact, execute_job-Exact}

pub data Operation : Type 0 where
  adds : CronJob → Operation
  removes enables disables : String → Operation
  updates : String → String → Value → Operation
  executes : String → ExecResult → ℕ → Operation
  disk : Option String → Operation

module _ {L : CronLibrary} where
  unfoldable pub step : CronScheduler L → Operation → CronScheduler L
  step cs (adds job) = (add_job cs job).0
  step cs (removes id) = (remove_job cs id).0
  step cs (enables id) = (enable_job cs id).0
  step cs (disables id) = (disable_job cs id).0
  step cs (updates id field value) = (update_job cs id field value).0
  step cs (executes id r now) = execute_job cs id r now
  step cs (disk e) = record cs { store = record cs.store { disk_error = e } }

  unfoldable pub run : CronScheduler L → List Operation → CronScheduler L
  unfolding step
  run cs [] = cs
  run cs (o ∷ os) = run (step cs o) os

  -- A new job has an id that no stored job has, and its write succeeds.
  abbrev pub Fresh : CronScheduler L → Operation → Type 0
  Fresh cs (adds job) = (find_job job.id cs.store.jobs ≡ none) × (cs.store.disk_error ≡ none)
  Fresh cs (removes id) = Unit
  Fresh cs (enables id) = Unit
  Fresh cs (disables id) = Unit
  Fresh cs (updates id field value) = Unit
  Fresh cs (executes id r now) = Unit
  Fresh cs (disk e) = Unit

  abbrev pub AllFresh : CronScheduler L → List Operation → Type 0
  AllFresh cs [] = Unit
  AllFresh cs (o ∷ os) = Fresh cs o × AllFresh (step cs o) os

-- A job in a list without two of its id is the one that a lookup finds.
own_jobs :
    (jobs : List CronJob) → Unique jobs → All (λ (j : CronJob). find_job j.id jobs ≡ some j) jobs
unfolding find_job Unique
own_jobs [] u = tt
own_jobs (j ∷ jobs) u = (rw ((eq_iff j.id j.id).1 refl) refl, later jobs (own_jobs jobs u.1))
  where
    later :
        (l : List CronJob)
        → All (λ (k : CronJob). find_job k.id jobs ≡ some k) l
        → All (λ (k : CronJob). find_job k.id (j ∷ jobs) ≡ some k) l
    later [] h = tt
    later (k ∷ l) h = (
      elim (Bool-cases (j.id == k.id)) [
        | inl same ↦
            let lost : some k ≡ none =
              sym h.0 ∙ ap (λ x. find_job x jobs) (sym ((eq_iff j.id k.id).0 same)) ∙ u.0 in
            absurd (ground (arith, lost))
        | inr other ↦ rw other h.0
      ],
      later l h.1,
    )

both : (a b : Bool) → (a ≡ true → b ≡ true) → (b ≡ true → a ≡ true) → a ≡ b
both true b h k = sym (h refl)
both false true h k = k refl
both false false h k = refl

module _ {L : CronLibrary} (laws : CronLaws L) (jobs : List CronJob) where
  -- On the way through Start: nothing but enabled jobs has an entry.
  record Starting (cs : CronScheduler L) : Type 0 where
    kept : cs.store.jobs ≡ jobs
    sound : Sound laws cs.cron cs.entries jobs
    only : (k : String) → has_entry cs.entries k ≡ true → wants jobs k ≡ true

  record Started (cs cs' : CronScheduler L) (js : List CronJob) : Type 0 where
    state : Starting cs'
    more : (k : String) → has_entry cs.entries k ≡ true → has_entry cs'.entries k ≡ true
    each : (k : String) → wants js k ≡ true → has_entry cs'.entries k ≡ true

  one_started :
      (cs : CronScheduler L) (j : CronJob)
      → Starting cs
      → find_job j.id jobs ≡ some j
      → j.enabled ≡ true
      → Starting (schedule_job cs j).0
        × ((k : String)
            → has_entry (schedule_job cs j).0.entries k ≡ (j.id == k || has_entry cs.entries k))
  one_started cs j s found on =
      let (fine, store, tied, has) =
        schedule_job-entries laws cs j s.sound.tied (s.sound.valid j.id j found) in
      (
        record {
          kept = ap (λ (x : CronStore). x.jobs) store ∙ s.kept;
          sound = record { tied = tied; unique = s.sound.unique; valid = s.sound.valid };
          only = λ k h. elim (Bool-cases (j.id == k)) [
            | inl here ↦ ap (wants jobs) (sym ((eq_iff j.id k).0 here)) ∙ ap is_wanted found ∙ on
            | inr away ↦ s.only k (ground (arith, has k, h, away))
          ];
        },
        has,
      )

  one_round :
      (cs : CronScheduler L) (j : CronJob)
      → Starting cs
      → find_job j.id jobs ≡ some j
      → (b : Bool) → j.enabled ≡ b
      → let r = if b then (schedule_job cs j).0 else cs in
        Starting r
        × ((k : String) → has_entry cs.entries k ≡ true → has_entry r.entries k ≡ true)
        × ((k : String) → (j.id == k) ≡ true → j.enabled ≡ true → has_entry r.entries k ≡ true)
  one_round cs j s found true on =
      let (next, has) = one_started cs j s found on in
      (next, λ k h. ground (arith, has k, h), λ k here h. ground (arith, has k, here))
  one_round cs j s found false off = (s, λ k h. h, λ k here h. absurd (ground (arith, h, off)))

  starts_each :
      (cs : CronScheduler L) (js : List CronJob)
      → Starting cs
      → All (λ (j : CronJob). find_job j.id jobs ≡ some j) js
      → Started cs (start_jobs cs js) js
  unfolding start_jobs find_job
  starts_each cs [] s own = record {
    state = s;
    more = λ k h. h;
    each = λ k h. absurd (ground (arith, h));
  }
  starts_each cs (j ∷ js) s own =
      let (next, grows, has) = one_round cs j s own.0 j.enabled refl in
      let r = starts_each (if j.enabled then (schedule_job cs j).0 else cs) js next own.1 in
      record {
        state = r.state;
        more = λ k h. r.more k (grows k h);
        each = λ k h. elim (Bool-cases (j.id == k)) [
          | inl here ↦ r.more k (has k here (ground (arith, h, here)))
          | inr away ↦ r.each k (ground (arith, h, away))
        ];
      }

  -- Start leaves exactly the enabled jobs with an entry.
  start-Exact :
      (cs : CronScheduler L)
      → cs.store.jobs ≡ jobs
      → Sound laws cs.cron cs.entries jobs
      → ((k : String) → has_entry cs.entries k ≡ false)
      → Exact laws (start cs)
  unfolding start Exact
  start-Exact cs e v none_yet =
      let s : Starting cs = record {
        kept = e;
        sound = v;
        only = λ k h. absurd (ground (arith, h, none_yet k));
      } in
      let r =
        subst (λ js. Started cs (start_jobs cs js) js) (sym e)
          (starts_each cs jobs s (own_jobs jobs v.unique)) in
      let done = r.state in
      (
        subst (Sound laws (start cs).cron (start cs).entries) (sym done.kept) done.sound,
        λ k.
            both (has_entry (start cs).entries k) (wants (start cs).store.jobs k)
              (λ h. ap (λ l. wants l k) done.kept ∙ done.only k h)
              (λ h. r.each k (ap (λ l. wants l k) (e ∙ sym done.kept) ∙ h)),
      )

pub step-Exact :
    {L : CronLibrary} (laws : CronLaws L) (cs : CronScheduler L) (o : Operation)
    → Fresh cs o
    → Exact laws cs
    → Exact laws (step cs o)
unfolding step Exact
step-Exact laws cs (adds job) (new, fine) v = add_job-Exact laws cs job v new fine
step-Exact laws cs (removes id) f v = remove_job-Exact laws cs id v
step-Exact laws cs (enables id) f v = enable_job-Exact laws cs id v
step-Exact laws cs (disables id) f v = disable_job-Exact laws cs id v
step-Exact laws cs (updates id field value) f v = update_job-Exact laws cs id field value v
step-Exact laws cs (executes id r now) f v = execute_job-Exact laws cs id r now v
step-Exact laws cs (disk e) f v = v

run-Exact :
    {L : CronLibrary} (laws : CronLaws L) (cs : CronScheduler L) (os : List Operation)
    → AllFresh cs os
    → Exact laws cs
    → Exact laws (run cs os)
unfolding run
run-Exact laws cs [] f v = v
run-Exact laws cs (o ∷ os) (f, fs) v = run-Exact laws (step cs o) os fs (step-Exact laws cs o f v)

-- A scheduler that was just created over a loaded store.
pub record Created {L : CronLibrary} (laws : CronLaws L) (cs : CronScheduler L) : Type 0 where
  pub no_entries : cs.entries ≡ []
  pub idle : (e : ℕ) → L.job_of cs.cron e ≡ none
  pub unique : Unique cs.store.jobs
  pub valid :
      (id : String) (job : CronJob) → find_job id cs.store.jobs ≡ some job → Schedulable laws job

new_scheduler :
    {L : CronLibrary} (laws : CronLaws L) (cs : CronScheduler L)
    → Created laws cs
    → Sound laws cs.cron cs.entries cs.store.jobs
unfolding get
new_scheduler laws cs c = record {
  tied = record {
    recorded = λ id e g.
        let it : none ≡ some e = sym (ap (get id) c.no_entries) ∙ g in absurd (ground (arith, it));
    owned = λ id e g. let it : none ≡ some id = sym (c.idle e) ∙ g in absurd (ground (arith, it));
  };
  unique = c.unique;
  valid = c.valid;
}

-- After Start of a new scheduler over stored jobs with distinct ids, each with a schedule that the
-- library takes, and after any of AddJob, RemoveJob, EnableJob, DisableJob, UpdateJob, executeJob and
-- changes of the disk, the jobs with an entry are exactly the stored jobs that are enabled, and the
-- recorded entry of each is the only one of the library that runs it. The library behaves as
-- documented, an added job has an id that no stored job has, and the write of its addition succeeds.
pub entries_exact :
    {L : CronLibrary} (laws : CronLaws L) (cs : CronScheduler L) (os : List Operation)
    → Created laws cs
    → AllFresh (start cs) os
    → let r = run (start cs) os in
      ((id : String) → has_entry r.entries id ≡ wants r.store.jobs id)
      × ((id : String) (e : ℕ) → (L.job_of r.cron e ≡ some id) ↔ (get id r.entries ≡ some e))
unfolding Exact get
entries_exact laws cs os c f =
    let v = new_scheduler laws cs c in
    let r = run-Exact laws (start cs) os f (
      start-Exact laws cs.store.jobs cs refl v
        (λ k. ap (λ (m : Dict ℕ). has_entry m k) c.no_entries)) in
    (r.1, λ id e. (r.0.tied.owned id e, r.0.tied.recorded id e))
