-- ===== src/Cron/Witnesses.antt =====
-- core/cron.go: the theorems on scheduled jobs, applied to a small schedule library and one loop.
use echo_client.Prelude.{
  ℕ, ◌+◌, ◌*◌, ◌^◌, ◌≤◌, ◌<◌, String, true, false, Option, none, some, List, [], ◌∷◌, if◌then◌else◌,
  ltb, eqb, ◌≡◌, ◌↔◌, refl, arith,
}
use echo_client.Prelude.Dict.{get}
use echo_client.Prelude.Text.{
  trim_space, trim_left, trim_right, is_space, decimal, digits_before, digit,
}
use echo_client.Cron.{CronJob, ok}
use echo_client.Prelude.Text.{to_lower, lower_char}
use echo_client.Cron.Interval.{
  min_loop_interval, parse_loop_interval_spec, parse_lower, atoi, magnitude, digits_value,
  split_last, checked_interval, unit_duration,
}
use echo_client.Cron.Interval.RoundTrip.{parse_loop_interval_spec-normalized}
use echo_client.Cron.Store.{find_job}
use echo_client.Cron.Store.Finding.{Unique}
use echo_client.Cron.Scheduler.{CronScheduler, start, start_jobs}
use echo_client.Cron.Scheduler.Library.{CronLibrary, CronLaws}
use echo_client.Cron.Scheduler.Keeps.{has_entry, wants}
use echo_client.Cron.Scheduler.System.{
  Operation, adds, disables, enables, run, Created, entries_exact,
}

-- The next number, and the job of each number below it.
abbrev Table : Type 0
Table = ℕ × (ℕ → Option String)

abbrev library : CronLibrary
library = record {
  Cron = Table;
  parses = λ spec. true;
  add_func = λ c spec id. ((c.0 + 1, λ e. if eqb c.0 e then some id else c.1 e), c.0);
  remove = λ c d. (c.0, λ e. if eqb d e then none else c.1 e);
  job_of = λ c e. if ltb e c.0 then c.1 e else none;
}

library-CronLaws : CronLaws library
library-CronLaws = record {
  fresh = λ c spec id. ground arith;
  added = λ c spec id e. ground arith;
  removed = λ c d e. ground arith;
  every = λ d h k. refl;
}

abbrev loop_job : CronJob
loop_job = record {
  id = "a1";
  project = "web";
  session_key = "slack:1";
  kind = "loop";
  cron_expr = "";
  loop_interval = "10m";
  prompt = "look";
  exec = "";
  work_dir = "";
  description = "";
  enabled = true;
  silent = none;
  mute = false;
  auto_pause_primitive = false;
  session_mode = "";
  agent_session_id = "";
  session_label = "";
  timeout_mins = none;
  created_at = 5;
  last_run = none;
  last_error = "";
}

abbrev scheduler : CronScheduler library
scheduler = record {
  store = record { jobs = []; file = []; disk_error = none };
  cron = (1, λ e. none);
  engines = "web" ∷ [];
  entries = [];
  default_silent = false;
}

scheduler-Created : Created library-CronLaws scheduler
unfolding Unique find_job
scheduler-Created = record {
  no_entries = refl;
  idle = λ e. ground arith;
  unique = tt;
  valid = λ id job e. absurd (ground (arith, e));
}

abbrev operations : List Operation
operations = adds loop_job ∷ disables "a1" ∷ enables "a1" ∷ []

entries_exact_example :
    let r = run (start scheduler) operations in
    ((id : String) → has_entry r.entries id ≡ wants r.store.jobs id)
    × ((id : String) (e : ℕ) → (library.job_of r.cron e ≡ some id) ↔ (get id r.entries ≡ some e))
unfolding start start_jobs find_job
entries_exact_example =
    entries_exact library-CronLaws scheduler operations scheduler-Created
      ((refl, refl), (tt, (tt, tt)))

parse_loop_interval_spec-normalized_example :
    (min_loop_interval ≤ 600 * 10 ^ 9)
    × (600 * 10 ^ 9 < 2 ^ 63)
    × (parse_loop_interval_spec "10m" ≡ ok (600 * 10 ^ 9, "10m"))
unfolding parse_loop_interval_spec parse_lower trim_space trim_left trim_right is_space to_lower
    lower_char atoi magnitude digits_value split_last checked_interval unit_duration decimal
    digits_before digit
parse_loop_interval_spec-normalized_example =
    parse_loop_interval_spec-normalized " 10M " (600 * 10 ^ 9) "10m" refl
