-- ===== src/Cron/Interval.antt =====
-- core/cron.go: ParseLoopIntervalSpec and LoopIntervalToHuman, with strconv.Atoi for 64 bits, and what
-- reads an interval: ScheduleSpec and validateCronJob.
pub mod Digits
pub mod RoundTrip
use Prim.Native.Char.{Char, code}
use Prim.Native.String
use Prim.Native.String.{[], ◌∷◌}
use echo_client.Prelude.{
  ℕ, zero, suc, ◌+◌, ◌-◌, ◌*◌, ◌/◌, ◌%◌, ◌==◌, ◌^◌, String, Bool, true, false, not, ◌&&◌, ◌||◌,
  Option, none, some, ltb, leb, eqb, if◌then◌else◌,
}
use echo_client.Prelude.Text.{trim_space, decimal, is_empty}
use echo_client.Cron.{
  ℤ, pos, negsuc, CronError, Checked, ok, err, interval_required, interval_invalid,
  interval_too_short, interval_unit, CronJob, is_loop_job, is_blank, normalize_cron_job_kind,
  normalize_cron_session_mode, invalid_kind, invalid_mode, negative_timeout, loop_with_exec,
  prompt_required,
}
use echo_client.Prelude.Text.{to_lower}

-- 5 * time.Second
abbrev pub min_loop_interval : ℕ
min_loop_interval = 5 * 10 ^ 9

-- A number of digits only.
unfoldable pub digits_value : ℕ → String → Option ℕ
digits_value n [] = some n
digits_value n (c ∷ s) =
    let rest = digits_value (n * 10 + (code c - b'0')) s in
    if leb b'0' (code c) && leb (code c) b'9' then rest else none

unfoldable pub magnitude : String → Option ℕ
unfolding digits_value
magnitude [] = none
magnitude (c ∷ s) = digits_value 0 (c ∷ s)

abbrev pub in_range : Option ℕ → Option ℤ
in_range none = none
in_range (some n) = if ltb n (2 ^ 63) then some (pos n) else none

abbrev pub negated : Option ℕ → Option ℤ
negated none = none
negated (some zero) = some (pos 0)
negated (some (suc n)) = if ltb n (2 ^ 63) then some (negsuc n) else none

-- strconv.Atoi
unfoldable pub atoi : String → Option ℤ
unfolding magnitude
atoi [] = none
atoi (c ∷ s) =
    if eqb (code c) b'-'
    then negated (magnitude s)
    else if eqb (code c) b'+'
    then in_range (magnitude s)
    else in_range (magnitude (c ∷ s))

-- spec[:len(spec)-1] and spec[len(spec)-1]
unfoldable pub split_last : Char → String → String × Char
split_last c [] = ([], c)
split_last c (d ∷ s) = let (rest, last) = split_last d s in (c ∷ rest, last)

-- The nanoseconds of a unit.
unfoldable pub unit_duration : Char → Option ℕ
unit_duration c =
    if eqb (code c) b's'
    then some (10 ^ 9)
    else if eqb (code c) b'm'
    then some (60 * 10 ^ 9)
    else if eqb (code c) b'h'
    then some (3600 * 10 ^ 9)
    else if eqb (code c) b'd'
    then some (24 * (3600 * 10 ^ 9))
    else none

-- The end of ParseLoopIntervalSpec, for a positive number and a unit.
unfoldable pub checked_interval : ℕ → Char → Checked (ℕ × String)
unfolding unit_duration
checked_interval value unit = elim (unit_duration unit) [
  | none ↦ err (interval_unit unit)
  | some ns ↦
      let d = value * ns % 2 ^ 64 in
      if ltb d min_loop_interval || leb (2 ^ 63) d
      then err interval_too_short
      else ok (d, String.◌++◌ (decimal value) (unit ∷ []))
]

abbrev pub with_value : Option ℤ → Char → Checked (ℕ × String)
with_value none unit = err interval_invalid
with_value (some (negsuc n)) unit = err interval_invalid
with_value (some (pos zero)) unit = err interval_invalid
with_value (some (pos (suc n))) unit = checked_interval (suc n) unit

-- A last character of more than one byte leaves a piece of it before the last byte, which is no number.
unfoldable pub parse_lower : String → Checked (ℕ × String)
unfolding atoi split_last checked_interval
parse_lower [] = err interval_required
parse_lower (c ∷ []) = err interval_invalid
parse_lower (c ∷ d ∷ s) =
    let (number, unit) = split_last d s in
    if leb 128 (code unit) then err interval_invalid else with_value (atoi (c ∷ number)) unit

unfoldable pub parse_loop_interval_spec : String → Checked (ℕ × String)
unfolding parse_lower trim_space to_lower
parse_loop_interval_spec spec = parse_lower (to_lower (trim_space spec))

-- Every unit that a normalized interval can have gives the same words.
unfoldable pub loop_interval_to_human : String → String
unfolding parse_loop_interval_spec
loop_interval_to_human spec = elim (parse_loop_interval_spec spec) [
  | err e ↦ spec
  | ok r ↦ String.◌++◌ "every " r.1
]

-- The digits of a fraction of a second, without the zeros at the end.
unfoldable pub without_zeros : String → String
without_zeros [] = []
without_zeros (c ∷ s) =
    let rest = without_zeros s in if eqb (code c) b'0' && is_empty rest then [] else c ∷ rest

-- The text after the first character.
abbrev tail_of : String → String
tail_of [] = []
tail_of (c ∷ s) = s

-- d.String() for a duration of at least a second
unfoldable pub duration_text : ℕ → String
unfolding without_zeros
duration_text d =
    let seconds = d / 10 ^ 9 in
    let fraction = d % 10 ^ 9 in
    let points : String =
      if eqb fraction 0
      then ""
      else String.◌++◌ "." (without_zeros (tail_of (decimal (10 ^ 9 + fraction)))) in
    let s = String.◌++◌ (decimal (seconds % 60)) (String.◌++◌ points "s") in
    let m = String.◌++◌ (decimal (seconds / 60 % 60)) (String.◌++◌ "m" s) in
    let h = String.◌++◌ (decimal (seconds / 3600)) (String.◌++◌ "h" m) in
    if ltb seconds 60 then s else if ltb seconds 3600 then m else h

unfoldable pub schedule_spec : CronJob → Checked String
unfolding parse_loop_interval_spec duration_text
schedule_spec j =
    if is_loop_job j
    then (elim (parse_loop_interval_spec j.loop_interval) [
      | err e ↦ err e
      | ok r ↦ ok (String.◌++◌ "@every " (duration_text r.0))
    ])
    else ok j.cron_expr

-- The check of a loop's interval, which is kept in its normalized form.
abbrev pub with_interval : CronJob → Checked (ℕ × String) → Checked CronJob
with_interval j (err e) = err e
with_interval j (ok r) = ok (record j { loop_interval = r.1 })

abbrev pub is_negative : Option ℤ → Bool
is_negative none = false
is_negative (some (pos n)) = false
is_negative (some (negsuc n)) = true

-- validateCronJob, with the job as it leaves it.
unfoldable pub validate_cron_job : CronJob → Checked CronJob
unfolding parse_loop_interval_spec normalize_cron_job_kind normalize_cron_session_mode
validate_cron_job job =
    let j : CronJob = record job { kind = normalize_cron_job_kind job.kind } in
    let mode = normalize_cron_session_mode j.session_mode in
    if not (j.kind == "cron" || j.kind == "loop")
    then err (invalid_kind j.kind)
    else if not (mode == "" || mode == "new_per_run")
    then err (invalid_mode j.session_mode)
    else if is_negative j.timeout_mins
    then err negative_timeout
    else if is_loop_job j
    then (if not (is_blank j.exec)
        then err loop_with_exec
        else if is_blank j.prompt
        then err prompt_required
        else with_interval j (parse_loop_interval_spec j.loop_interval))
    else ok j
