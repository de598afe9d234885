-- ===== src/Job.antt =====
-- core/job.go: the data of the job manager, and its tests on a status.
-- A runner is external code and stands here as a handle; the map[string]any of the skills and of an
-- event's metadata is a map of texts. Times are numbers, durations are nanoseconds and not negative.
pub mod Manager
pub mod Run
pub mod Restart
pub mod Dispatch
pub mod Events
pub mod System
mod Witnesses
use Prim.Native.String
use echo_client.Prelude.{
  ℕ, suc, ◌+◌, ◌-◌, String, Bool, true, false, not, ◌&&◌, ◌||◌, Option, none, some, List, [], ◌==◌,
}
use echo_client.Prelude.Text.{trim_space}
use echo_client.Prelude.Dict.{Dict}

-- Any other text, which only a job file can hold, is `other`.
pub data JobStatus : Type 0 where
  queued running completed failed cancelled timed_out orphaned : JobStatus
  other : String → JobStatus

pub record JobWorkspaceRef : Type 0 where
  pub repo_path : String
  pub worktree_path : String
  pub branch : String

pub record JobRequest : Type 0 where
  pub project : String
  pub task_id : String
  pub task_type : String
  pub prompt : String
  pub timeout : ℕ
  pub workspace_ref : JobWorkspaceRef

pub record JobResult : Type 0 where
  pub output : String
  pub summary : String
  pub session_id : String
  pub skills_meta : Dict String

pub record JobEvent : Type 0 where
  pub index : ℕ
  pub type : String
  pub content : String
  pub tool_name : String
  pub tool_input : String
  pub session_id : String
  pub metadata : Dict String
  pub created_at : ℕ

pub record Job : Type 0 where
  pub id : String
  pub project : String
  pub task_id : String
  pub task_type : String
  pub prompt : String
  pub workspace_ref : JobWorkspaceRef
  pub status : JobStatus
  pub output : String
  pub summary : String
  pub session_id : String
  pub skills_meta : Dict String
  pub error : String
  pub error_code : String
  pub created_at : ℕ
  pub started_at : Option ℕ
  pub finished_at : Option ℕ
  pub timeout_sec : ℕ
  pub event_count : ℕ
  pub events : List JobEvent

-- What ctx.Err() says, `no_ctx` where the context is still nil.
pub data JobContext : Type 0 where
  no_ctx live canceled deadline_exceeded : JobContext

-- The runner, nil or a handle, is external.
pub record ManagedJob : Type 0 where
  pub job : Job
  pub req : JobRequest
  pub runner : Option ℕ
  pub ctx : JobContext

-- The manager and its directory: the job files, and the error that the next write meets, if any.
pub record JobManager : Type 0 where
  pub jobs : Dict ManagedJob
  pub runners : Dict (Option ℕ)
  pub agents : Dict String
  pub running : Dict String
  pub queues : Dict (List String)
  pub files : Dict Job
  pub disk_error : Option String

pub data JobError : Type 0 where
  project_required prompt_required not_registered not_found too_many_collisions : JobError
  generate_id stat_job : JobError
  save_failed : String → JobError

pub data Result {ℓ} (A : Type ℓ) : Type ℓ where
  ok : A → Result A
  err : JobError → Result A

unfoldable pub is_terminal_job_status : JobStatus → Bool
is_terminal_job_status queued = false
is_terminal_job_status running = false
is_terminal_job_status completed = true
is_terminal_job_status failed = true
is_terminal_job_status cancelled = true
is_terminal_job_status timed_out = true
is_terminal_job_status orphaned = true
is_terminal_job_status (other text) = false

unfoldable pub is_queued : JobStatus → Bool
is_queued queued = true
is_queued running = false
is_queued completed = false
is_queued failed = false
is_queued cancelled = false
is_queued timed_out = false
is_queued orphaned = false
is_queued (other text) = false

abbrev pub is_some {ℓ} : {A : Type ℓ} → Option A → Bool
is_some none = false
is_some (some x) = true

-- The cancel function of a context; before a dispatch it does nothing.
unfoldable pub cancel_ctx : JobContext → JobContext
cancel_ctx no_ctx = no_ctx
cancel_ctx live = canceled
cancel_ctx canceled = canceled
cancel_ctx deadline_exceeded = deadline_exceeded

unfoldable pub should_capture_workspace_snapshot : JobRequest → Bool
should_capture_workspace_snapshot req =
    let task = trim_space req.task_type in
    (task == "research" || task == "design" || task == "implementation")
    && not (trim_space req.workspace_ref.worktree_path == "")
