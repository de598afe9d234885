-- ===== src/Job/System.antt =====
-- core/job.go: the job manager with its goroutines. A step is one section under the lock, the save
-- that runJob makes between two of them, or a change of the environment (a deadline, the disk), and
-- a run is any sequence of steps. A goroutine is in the phase that it has reached: started by a
-- dispatch, past its first section, or inside Run.
pub mod Invariant
pub mod Dispatching
pub mod Exclusion
pub mod Steps
pub mod OneRun
mod Witnesses
use echo_client.Prelude.{
  ℕ, String, Bool, true, false, Option, none, some, List, [], ◌∷◌, ltb, if◌then◌else◌,
}
use echo_client.Prelude.Dict.{Dict, get, put, delete}
use echo_client.Job.{
  Job, JobRequest, JobEvent, JobContext, no_ctx, live, canceled, deadline_exceeded, ManagedJob,
  JobManager,
}
use echo_client.Job.Manager.{Candidate, register_project, start, cancel, store}
use echo_client.Job.Run.{
  begin_run, persist_running, record_job_event, finish_job, outcome_mutation, RunOutcome,
}

pub data Phase : Type 0 where
  launched executing : Phase
  begun : Job → Phase

pub record World : Type 0 where
  pub jm : JobManager
  pub goroutines : Dict Phase

pub data Event : Type 0 where
  registers : String → String → Option ℕ → Event
  starts : JobRequest → List Candidate → ℕ → Event
  cancels begins : String → ℕ → Event
  persists expires : String → Event
  records : String → JobEvent → Event
  ends : String → RunOutcome → ℕ → Event
  disk : Option String → Event

-- `go jm.runJob(dispatch)`. A dispatch picks no job that still has a goroutine, so that the write
-- replaces none; Dispatching.antt has the lemma.
abbrev pub launch : Dict Phase → Option String → Dict Phase
launch gs none = gs
launch gs (some id) = put id launched gs

abbrev pub with_launch : JobManager × Option String → Dict Phase → World
with_launch r gs = record { jm = r.0; goroutines = launch gs r.1 }

-- The first section of a goroutine, with the copy of the job that it makes.
abbrev pub begin_with : Dict Phase → String → JobManager × Bool → World
begin_with gs id (jm, false) = record { jm = jm; goroutines = delete id gs }
begin_with gs id (jm, true) = elim (get id jm.jobs) [
  | none ↦ record { jm = jm; goroutines = delete id gs }
  | some m ↦ record { jm = jm; goroutines = put id (begun m.job) gs }
]

abbrev pub persist_with : Dict Phase → String → (JobManager × Option String) × Bool → World
persist_with gs id (r, true) = record { jm = r.0; goroutines = put id executing gs }
persist_with gs id (r, false) = with_launch r (delete id gs)

abbrev pub context_of : JobManager → String → JobContext
context_of jm id = elim (get id jm.jobs) [ none ↦ no_ctx | some m ↦ m.ctx ]

-- A goroutine takes its next step only from the phase before it.
abbrev pub begin_step : World → String → ℕ → Option Phase → World
begin_step w id now none = w
begin_step w id now (some launched) = begin_with w.goroutines id (begin_run w.jm id now)
begin_step w id now (some executing) = w
begin_step w id now (some (begun job)) = w

abbrev pub persist_step : World → String → Option Phase → World
persist_step w id none = w
persist_step w id (some launched) = w
persist_step w id (some executing) = w
persist_step w id (some (begun job)) = persist_with w.goroutines id (persist_running w.jm id job)

abbrev pub record_step : World → String → JobEvent → Option Phase → World
record_step w id e none = w
record_step w id e (some launched) = w
record_step w id e (some executing) = record w { jm = record_job_event w.jm id e }
record_step w id e (some (begun job)) = w

abbrev pub end_step : World → String → RunOutcome → ℕ → Option Phase → World
end_step w id r now none = w
end_step w id r now (some launched) = w
end_step w id r now (some executing) =
    with_launch (finish_job w.jm id (outcome_mutation (context_of w.jm id) r now))
      (delete id w.goroutines)
end_step w id r now (some (begun job)) = w

abbrev pub expired : ManagedJob → JobContext → ManagedJob
expired m no_ctx = m
expired m live = if ltb 0 m.req.timeout then record m { ctx = deadline_exceeded } else m
expired m canceled = m
expired m deadline_exceeded = m

unfoldable pub expire : JobManager → String → JobManager
expire jm id = elim (get id jm.jobs) [ none ↦ jm | some m ↦ store jm id (expired m m.ctx) ]

unfoldable pub step : World → Event → World
step w (registers project agent runner) =
    with_launch (register_project w.jm project agent runner) w.goroutines
step w (starts req candidates now) = with_launch (start w.jm req candidates now).0 w.goroutines
step w (cancels id now) = record w { jm = (cancel w.jm id now).0 }
step w (begins id now) = begin_step w id now (get id w.goroutines)
step w (persists id) = persist_step w id (get id w.goroutines)
step w (records id e) = record_step w id e (get id w.goroutines)
step w (ends id r now) = end_step w id r now (get id w.goroutines)
step w (expires id) = record w { jm = expire w.jm id }
step w (disk e) = record w { jm = record w.jm { disk_error = e } }

unfoldable pub run : World → List Event → World
run w [] = w
run w (e ∷ es) = run (step w e) es
