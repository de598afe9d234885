-- ===== src/Cron/Scheduler/Library.antt =====
-- core/cron.go: what the scheduler uses of the schedule library, github.com/robfig/cron/v3.
use Prim.Native.String
use echo_client.Prelude.{
  ℕ, ◌≤◌, ◌<◌, ◌^◌, String, Bool, true, Option, none, some, ◌≡◌, if◌then◌else◌, eqb,
}
use echo_client.Cron.Interval.{duration_text, min_loop_interval}

-- ParseStandard accepts what AddFunc accepts. AddFunc gives the number of the new entry, Remove ends one,
-- and `job_of` is the job id that an entry's function passes to executeJob.
pub record CronLibrary : Type 1 where
  pub Cron : Type 0
  pub parses : String → Bool
  pub add_func : Cron → String → String → Cron × ℕ
  pub remove : Cron → ℕ → Cron
  pub job_of : Cron → ℕ → Option String

-- The documented behaviour: numbers of entries that are there are not given again, and "@every" takes
-- any duration of five seconds or more that an int64 of nanoseconds holds, spelled as Duration.String does.
pub record CronLaws (L : CronLibrary) : Type 0 where
  pub fresh : (c : L.Cron) (spec id : String) → L.job_of c (L.add_func c spec id).1 ≡ none
  pub added :
      (c : L.Cron) (spec id : String) (e : ℕ)
      → L.job_of (L.add_func c spec id).0 e
        ≡ (if eqb (L.add_func c spec id).1 e then some id else L.job_of c e)
  pub removed :
      (c : L.Cron) (d e : ℕ) → L.job_of (L.remove c d) e ≡ (if eqb d e then none else L.job_of c e)
  pub every :
      (d : ℕ)
      → min_loop_interval ≤ d
      → d < 2 ^ 63
      → L.parses (String.◌++◌ "@every " (duration_text d)) ≡ true
