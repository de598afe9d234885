-- ===== src/Cron/Scheduler.antt =====
-- core/cron.go: CronScheduler over the schedule library, which is third-party code. Each operation runs
-- alone; its return of an error is the second component.
pub mod Library
pub mod Keeps
pub mod Fields
pub mod Checks
pub mod Exact
pub mod Operations
pub mod Removal
pub mod Updates
pub mod System
use Prim.Native.String
use echo_client.Prelude.{
  contains, ltb, ◌^◌, ℕ, String, Bool, true, false, not, ◌||◌, ◌&&◌, Option, none, some, List, [],
  ◌∷◌, ◌==◌, if◌then◌else◌,
}
use echo_client.Prelude.Dict.{Dict, get, put, delete}
use echo_client.Cron.{
  CronJob, CronError, Checked, ok, err, Value, text, flag, number, is_loop_job,
  normalize_cron_job_kind, normalize_cron_session_mode, invalid_expression, not_found, not_a_text,
  bad_field, not_saved, not_scheduled, update_cron_job_field, execution_timeout,
}
use echo_client.Cron.Interval.{
  duration_text, schedule_spec, validate_cron_job, parse_loop_interval_spec,
}
use echo_client.Cron.Store.{CronStore, get_job, add, remove, set_enabled, update, mark_run}
use echo_client.Cron.Scheduler.Library.{CronLibrary}

-- What ExecuteCronJob returned: the run waits in the queue of a busy chat, an exceeded deadline,
-- another error, or nothing.
pub data ExecResult : Type 0 where
  enqueued finished deadline : ExecResult
  run_failed : String → ExecResult

-- The jobs and the entries of the library's cron object; `engines` are the projects with an engine.
pub record CronScheduler (L : CronLibrary) : Type 0 where
  pub store : CronStore
  pub cron : L.Cron
  pub engines : List String
  pub entries : Dict ℕ
  pub default_silent : Bool

abbrev pub reschedules : String → Bool
reschedules field = field == "cron_expr" || field == "loop_interval" || field == "enabled"

-- The text for an exceeded deadline: the timeout applies if it is a positive int64.
unfoldable timed_out : ℕ → String
unfolding duration_text
timed_out timeout =
    if ltb 0 timeout && ltb timeout (2 ^ 63)
    then String.◌++◌ "job timed out after " (duration_text timeout)
    else "context deadline exceeded"

module _ (L : CronLibrary) where
  abbrev pub removed_entry : L.Cron → Option ℕ → L.Cron
  removed_entry c none = c
  removed_entry c (some e) = L.remove c e

  -- The first checks of UpdateJob, on a new cron expression or interval.
  unfoldable pub check_schedule : CronJob → String → Value → Option CronError
  unfolding parse_loop_interval_spec
  check_schedule job field value =
      if field == "cron_expr" && not (is_loop_job job)
      then (elim value [
        | text expr ↦ if L.parses expr then none else some (invalid_expression expr)
        | flag b ↦ some not_a_text
        | number n ↦ some not_a_text
      ])
      else if field == "loop_interval"
      then (elim value [
        | text spec ↦ elim (parse_loop_interval_spec spec) [ ok r ↦ none | err e ↦ some e ]
        | flag b ↦ some not_a_text
        | number n ↦ some not_a_text
      ])
      else none

module _ {L : CronLibrary} where
  abbrev with_spec :
      CronScheduler L → String → L.Cron → Checked String → CronScheduler L × Option CronError
  with_spec cs id c (err e) = (record cs { cron = c }, some e)
  with_spec cs id c (ok spec) =
      if L.parses spec
      then (let (c', e) = L.add_func c spec id in
          (record cs { cron = c'; entries = put id e cs.entries }, none))
      else (record cs { cron = c }, some (not_scheduled spec))

  unfoldable pub schedule_job : CronScheduler L → CronJob → CronScheduler L × Option CronError
  unfolding schedule_spec
  schedule_job cs job =
      with_spec cs job.id (removed_entry L cs.cron (get job.id cs.entries)) (schedule_spec job)

  -- The end of the entry of a job, in RemoveJob, DisableJob and UpdateJob.
  unfoldable pub unschedule : CronScheduler L → String → CronScheduler L
  unschedule cs id = elim (get id cs.entries) [
    | none ↦ cs
    | some e ↦ record cs { cron = L.remove cs.cron e; entries = delete id cs.entries }
  ]

  unfoldable pub start_jobs : CronScheduler L → List CronJob → CronScheduler L
  unfolding schedule_job
  start_jobs cs [] = cs
  start_jobs cs (job ∷ jobs) = start_jobs (if job.enabled then (schedule_job cs job).0 else cs) jobs

  unfoldable pub start : CronScheduler L → CronScheduler L
  unfolding start_jobs
  start cs = start_jobs cs cs.store.jobs

  unfoldable pub is_silent : CronScheduler L → CronJob → Bool
  is_silent cs job = elim job.silent [ none ↦ cs.default_silent | some b ↦ b ]

  abbrev stored :
      CronScheduler L → CronJob → CronStore × Option String → CronScheduler L × Option CronError
  stored cs job (s, some e) = (record cs { store = s }, some (not_saved e))
  stored cs job (s, none) =
      let cs' : CronScheduler L = record cs { store = s } in
      let scheduled = schedule_job cs' job in if job.enabled then scheduled else (cs', none)

  abbrev add_valid : CronScheduler L → Checked CronJob → CronScheduler L × Option CronError
  add_valid cs (err e) = (cs, some e)
  add_valid cs (ok j) =
      let job : CronJob = record j {
        kind = normalize_cron_job_kind j.kind;
        session_mode = normalize_cron_session_mode j.session_mode;
      } in
      if not (is_loop_job job) && not (L.parses job.cron_expr)
      then (cs, some (invalid_expression job.cron_expr))
      else stored cs job (add cs.store job)

  unfoldable pub add_job : CronScheduler L → CronJob → CronScheduler L × Option CronError
  unfolding validate_cron_job add schedule_job
  add_job cs job = add_valid cs (validate_cron_job job)

  unfoldable pub remove_job : CronScheduler L → String → CronScheduler L × Bool
  unfolding unschedule remove
  remove_job cs id =
      let cs' = unschedule cs id in
      let (s, found) = remove cs'.store id in (record cs' { store = s }, found)

  unfoldable pub enable_job : CronScheduler L → String → CronScheduler L × Option CronError
  unfolding set_enabled schedule_job get_job
  enable_job cs id =
      let (s, found) = set_enabled cs.store id true in
      let cs' : CronScheduler L = record cs { store = s } in
      if found
      then (elim (get_job s id) [ none ↦ (cs', none) | some job ↦ schedule_job cs' job ])
      else (cs, some not_found)

  unfoldable pub disable_job : CronScheduler L → String → CronScheduler L × Option CronError
  unfolding set_enabled unschedule
  disable_job cs id =
      let (s, found) = set_enabled cs.store id false in
      if found then (unschedule (record cs { store = s }) id, none) else (cs, some not_found)

  unfoldable pub reschedule : CronScheduler L → String → CronScheduler L × Option CronError
  unfolding get_job schedule_job
  reschedule cs id = elim (get_job cs.store id) [
    | none ↦ (cs, none)
    | some job ↦
        let scheduled = schedule_job cs job in if job.enabled then scheduled else (cs, none)
  ]

  abbrev pub prepared : CronScheduler L → String → Bool → CronScheduler L
  prepared cs id true = unschedule cs id
  prepared cs id false = cs

  -- The end of UpdateJob, with what the store answered and whether a new schedule is needed.
  abbrev pub after_update :
      Bool → CronScheduler L → String → CronStore × Bool → CronScheduler L × Option CronError
  after_update needs_reschedule cs id (s, false) = (cs, some bad_field)
  after_update false cs id (s, true) = (record cs { store = s }, none)
  after_update true cs id (s, true) = reschedule (record cs { store = s }) id

  -- UpdateJob after its checks.
  unfoldable pub apply_update :
      CronScheduler L → String → String → Value → CronScheduler L × Option CronError
  unfolding unschedule update reschedule
  apply_update cs id field value =
      let cs' = prepared cs id (reschedules field) in
      after_update (reschedules field) cs' id (update cs'.store id field value)

  unfoldable pub update_job :
      CronScheduler L → String → String → Value → CronScheduler L × Option CronError
  unfolding get_job check_schedule update_cron_job_field validate_cron_job apply_update
  update_job cs id field value = elim (get_job cs.store id) [
    | none ↦ (cs, some not_found)
    | some job ↦ elim (check_schedule L job field value) [
      | some e ↦ (cs, some e)
      | none ↦ elim (update_cron_job_field job field value) [
        | none ↦ (cs, some bad_field)
        | some proposed ↦ elim (validate_cron_job proposed) [
          | err e ↦ (cs, some e)
          | ok j ↦ apply_update cs id field value
        ]
      ]
    ]
  ]

  -- The rest of executeJob, with what ExecuteCronJob returned.
  unfoldable pub record_run : CronScheduler L → CronJob → ExecResult → ℕ → CronScheduler L
  unfolding mark_run execution_timeout timed_out
  record_run cs job enqueued now = cs
  record_run cs job finished now = record cs { store = mark_run cs.store job.id "" now }
  record_run cs job (run_failed e) now = record cs { store = mark_run cs.store job.id e now }
  record_run cs job deadline now = record cs {
    store = mark_run cs.store job.id (timed_out (execution_timeout job)) now;
  }

  unfoldable pub execute_job : CronScheduler L → String → ExecResult → ℕ → CronScheduler L
  unfolding get_job record_run
  execute_job cs id result now = elim (get_job cs.store id) [
    | none ↦ cs
    | some job ↦
        let ran = record_run cs job result now in
        if not job.enabled then cs else if contains job.project cs.engines then ran else record cs {
          store =
              mark_run cs.store id
                (String.◌++◌ "project \"" (String.◌++◌ job.project "\" not found")) now;
        }
  ]
