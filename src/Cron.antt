-- ===== src/Cron.antt =====
-- core/cron.go: a scheduled job, its checks and the fields that can be changed. A duration is the 64-bit
-- pattern of its int64 in nanoseconds.
pub mod Interval
pub mod Store
pub mod Scheduler
mod Witnesses
use Prim.Native.Char.{Char}
use echo_client.Prelude.{
  ℕ, zero, suc, ◌*◌, ◌%◌, ◌^◌, String, Bool, true, false, not, ◌&&◌, ◌||◌, Option, none, some, ◌==◌,
  leb, eqb, if◌then◌else◌,
}
use echo_client.Prelude.Text.{trim_space, to_lower}

-- An int: pos n is n, and negsuc n is - (n + 1).
pub data ℤ : Type 0 where
  pos negsuc : ℕ → ℤ

pub data CronError : Type 0 where
  interval_required interval_invalid interval_too_short : CronError
  interval_unit : Char → CronError
  invalid_kind invalid_mode invalid_expression : String → CronError
  negative_timeout loop_with_exec prompt_required not_found not_a_text bad_field : CronError
  not_saved not_scheduled : String → CronError

pub data Checked {ℓ} (A : Type ℓ) : Type ℓ where
  ok : A → Checked A
  err : CronError → Checked A

pub record CronJob : Type 0 where
  pub id : String
  pub project : String
  pub session_key : String
  pub kind : String
  pub cron_expr : String
  pub loop_interval : String
  pub prompt : String
  pub exec : String
  pub work_dir : String
  pub description : String
  pub enabled : Bool
  pub silent : Option Bool
  pub mute : Bool
  pub auto_pause_primitive : Bool
  pub session_mode : String
  pub agent_session_id : String
  pub session_label : String
  pub timeout_mins : Option ℤ
  pub created_at : ℕ
  pub last_run : Option ℕ
  pub last_error : String

-- strings.TrimSpace(s) == ""
abbrev pub is_blank : String → Bool
is_blank s = trim_space s == ""

abbrev is_shell_job : CronJob → Bool
is_shell_job j = not (is_blank j.exec)

unfoldable pub normalize_cron_job_kind : String → String
unfolding to_lower trim_space
normalize_cron_job_kind kind =
    let k = to_lower (trim_space kind) in
    if k == "" || k == "cron" then "cron" else if k == "loop" then "loop" else k

unfoldable pub is_loop_job : CronJob → Bool
unfolding normalize_cron_job_kind
is_loop_job j = normalize_cron_job_kind j.kind == "loop"

unfoldable pub normalize_cron_session_mode : String → String
unfolding to_lower trim_space
normalize_cron_session_mode s =
    let m = to_lower (trim_space s) in
    if m == "" || m == "reuse"
    then ""
    else if m == "new_per_run" || m == "new-per-run"
    then "new_per_run"
    else m

unfoldable pub uses_new_session_per_run : CronJob → Bool
unfolding normalize_cron_session_mode
uses_new_session_per_run j = normalize_cron_session_mode j.session_mode == "new_per_run"

-- 30 minutes if no number of minutes is set; no limit if it is not positive.
unfoldable pub execution_timeout : CronJob → ℕ
execution_timeout j = elim j.timeout_mins [
  | none ↦ 30 * (60 * 10 ^ 9)
  | some m ↦ elim m [ pos n ↦ n * (60 * 10 ^ 9) % 2 ^ 64 | negsuc n ↦ 0 ]
]

-- What UpdateJob is given: a text, a truth value, or a number as an int.
pub data Value : Type 0 where
  text : String → Value
  flag : Bool → Value
  number : ℤ → Value

-- The changes that updateCronJobField makes, by the field's name and the type of the value.
unfoldable pub set_text : CronJob → String → String → Option CronJob
unfolding normalize_cron_session_mode
set_text j field v =
    if field == "project"
    then some (record j { project = v })
    else if field == "session_key"
    then some (record j { session_key = v })
    else if field == "cron_expr"
    then some (record j { cron_expr = v })
    else if field == "loop_interval"
    then some (record j { loop_interval = v })
    else if field == "prompt"
    then some (record j { prompt = v })
    else if field == "exec"
    then some (record j { exec = v })
    else if field == "work_dir"
    then some (record j { work_dir = v })
    else if field == "description"
    then some (record j { description = v })
    else if field == "session_mode"
    then some (record j { session_mode = normalize_cron_session_mode v })
    else if field == "agent_session_id"
    then some (record j { agent_session_id = v })
    else if field == "session_label"
    then some (record j { session_label = v })
    else none

unfoldable pub set_flag : CronJob → String → Bool → Option CronJob
set_flag j field v =
    if field == "enabled"
    then some (record j { enabled = v })
    else if field == "silent"
    then some (record j { silent = some v })
    else if field == "mute"
    then some (record j { mute = v })
    else if field == "auto_pause_primitive"
    then some (record j { auto_pause_primitive = v })
    else none

unfoldable pub update_cron_job_field : CronJob → String → Value → Option CronJob
unfolding set_text set_flag
update_cron_job_field j field (text v) = set_text j field v
update_cron_job_field j field (flag v) = set_flag j field v
update_cron_job_field j field (number n) =
    if field == "timeout_mins" then some (record j { timeout_mins = some n }) else none
