-- ===== src/Cron/Store.antt =====
-- core/cron.go: CronStore, the list of jobs and its file.
pub mod Finding
use Prim.Native.String
use echo_client.Prelude.{
  ℕ, String, Bool, true, false, ◌||◌, Option, none, some, List, [], ◌∷◌, ◌++◌, ◌==◌, if◌then◌else◌,
  filter,
}
use echo_client.Prelude.Text.{trim_space}
use echo_client.Cron.{CronJob, Value, update_cron_job_field}
use echo_client.Prelude.Text.{to_lower}

-- The jobs in memory, those of the file, and the error that a write gives now.
pub record CronStore : Type 0 where
  pub jobs : List CronJob
  pub file : List CronJob
  pub disk_error : Option String

unfoldable pub save : CronStore → CronStore × Option String
save s = elim s.disk_error [ none ↦ (record s { file = s.jobs }, none) | some e ↦ (s, some e) ]

-- The first job with the id: the loops of Get, SetEnabled, MarkRun, Remove and Update.
unfoldable pub find_job : String → List CronJob → Option CronJob
find_job id [] = none
find_job id (j ∷ jobs) = let rest = find_job id jobs in if j.id == id then some j else rest

unfoldable pub change_job : String → (CronJob → CronJob) → List CronJob → List CronJob
change_job id change [] = []
change_job id change (j ∷ jobs) =
    let rest = change_job id change jobs in if j.id == id then change j ∷ jobs else j ∷ rest

unfoldable pub without_job : String → List CronJob → List CronJob
without_job id [] = []
without_job id (j ∷ jobs) = let rest = without_job id jobs in if j.id == id then jobs else j ∷ rest

unfoldable pub get_job : CronStore → String → Option CronJob
unfolding find_job
get_job s id = find_job id s.jobs

-- Add keeps the job in memory when the write fails.
unfoldable pub add : CronStore → CronJob → CronStore × Option String
unfolding save
add s job = save (record s { jobs = s.jobs ++ job ∷ [] })

unfoldable pub remove : CronStore → String → CronStore × Bool
unfolding save find_job without_job
remove s id = elim (find_job id s.jobs) [
  | none ↦ (s, false)
  | some j ↦ ((save (record s { jobs = without_job id s.jobs })).0, true)
]

unfoldable pub changed : CronStore → String → (CronJob → CronJob) → CronStore × Bool
unfolding save find_job change_job
changed s id change = elim (find_job id s.jobs) [
  | none ↦ (s, false)
  | some j ↦ ((save (record s { jobs = change_job id change s.jobs })).0, true)
]

unfoldable pub set_enabled : CronStore → String → Bool → CronStore × Bool
unfolding changed
set_enabled s id enabled = changed s id (λ j. record j { enabled = enabled })

unfoldable pub mark_run : CronStore → String → String → ℕ → CronStore
unfolding changed
mark_run s id e now = (changed s id (λ j. record j { last_run = some now; last_error = e })).0

unfoldable pub list_by_project : CronStore → String → List CronJob
list_by_project s project = filter (λ j. j.project == project) s.jobs

unfoldable pub list_by_session_key : CronStore → String → List CronJob
list_by_session_key s session_key = filter (λ j. j.session_key == session_key) s.jobs

unfoldable pub is_read_only : String → Bool
unfolding to_lower trim_space
is_read_only field =
    let f = to_lower (trim_space field) in
    f == "id" || f == "created_at" || f == "last_run" || f == "last_error"

unfoldable pub update : CronStore → String → String → Value → CronStore × Bool
unfolding is_read_only find_job change_job update_cron_job_field save
update s id field value = if is_read_only field then (s, false) else (elim (find_job id s.jobs) [
  | none ↦ (s, false)
  | some j ↦ elim (update_cron_job_field j field value) [
    | none ↦ (s, false)
    | some j' ↦ ((save (record s { jobs = change_job id (λ k. j') s.jobs })).0, true)
  ]
])
