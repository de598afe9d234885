-- ===== src/Cron/Scheduler/Checks.antt =====
-- core/cron.go: what the checks of AddJob and UpdateJob leave is a job that can be scheduled.
use Prim.Native.String
use mathlib.Core.Path.{subst}
use echo_client.Prelude.{
  ℕ, String, true, false, not, ◌||◌, ◌&&◌, none, some, ◌==◌, ◌≡◌, refl, sym, ap, ◌∙◌, ◌⊎◌, inl, inr,
  arith, Bool-cases, eq_iff,
}
use echo_client.Prelude.Text.{trim_space, trim_left, trim_right, is_space}
use echo_client.Cron.{
  CronJob, Checked, ok, err, Value, text, loop_with_exec, prompt_required, invalid_expression,
  is_loop_job, is_blank, normalize_cron_job_kind, normalize_cron_session_mode,
}
use echo_client.Prelude.Text.{to_lower, lower_char}
use echo_client.Cron.Interval.{
  duration_text, schedule_spec, validate_cron_job, with_interval, is_negative,
  parse_loop_interval_spec,
}
use echo_client.Cron.Interval.RoundTrip.{parse_loop_interval_spec-normalized}
use echo_client.Cron.Scheduler.{check_schedule}
use echo_client.Cron.Scheduler.Library.{CronLibrary, CronLaws}
use echo_client.Cron.Scheduler.Keeps.{Schedulable}
use echo_client.Cron.Scheduler.Fields.{Changed}

-- A loop's interval is accepted.
abbrev pub Timed : CronJob → Type 0
Timed j = (d : ℕ) × (t : String) × (parse_loop_interval_spec j.loop_interval ≡ ok (d, t))

abbrev with_kind : CronJob → String → CronJob
with_kind j k = record j { kind = k }

kind_again :
    (p : CronJob)
    → let k = normalize_cron_job_kind p.kind in
      (k == "cron" || k == "loop") ≡ true → is_loop_job (with_kind p k) ≡ is_loop_job p
unfolding is_loop_job normalize_cron_job_kind to_lower lower_char trim_space trim_left trim_right
    is_space
kind_again p h = elim (Bool-cases (normalize_cron_job_kind p.kind == "cron")) [
  | inl e ↦
      let k = (eq_iff (normalize_cron_job_kind p.kind) "cron").0 e in
      ap (λ x. normalize_cron_job_kind x == "loop") k ∙ ap (λ x. x == "loop") (sym k)
  | inr e ↦
      let l : (normalize_cron_job_kind p.kind == "loop") ≡ true = ground (arith, h, e) in
      let k = (eq_iff (normalize_cron_job_kind p.kind) "loop").0 l in
      ap (λ x. normalize_cron_job_kind x == "loop") k ∙ ap (λ x. x == "loop") (sym k)
]

-- A job that validateCronJob accepts, and the job as it leaves it.
pub record Accepted (p j : CronJob) : Type 0 where
  pub kind : j.kind ≡ normalize_cron_job_kind p.kind
  pub known : (j.kind == "cron" || j.kind == "loop") ≡ true
  pub same_id : j.id ≡ p.id
  pub same_enabled : j.enabled ≡ p.enabled
  pub timed : (is_loop_job p ≡ false) ⊎ (Timed p × Timed j)

loop-Accepted :
    (p j : CronJob) (c : Checked (ℕ × String))
    → let q = with_kind p (normalize_cron_job_kind p.kind) in
      (q.kind == "cron" || q.kind == "loop") ≡ true
      → parse_loop_interval_spec q.loop_interval ≡ c
      → with_interval q c ≡ ok j
      → Accepted p j
loop-Accepted p j (err e) known c h = absurd (ground (arith, h))
loop-Accepted p j (ok (d, t)) known c h =
    let q : CronJob = record (with_kind p (normalize_cron_job_kind p.kind)) { loop_interval = t } in
    let same : q ≡ j = ground (arith, h) in
    let (low, high, again) = parse_loop_interval_spec-normalized p.loop_interval d t c in
    subst (Accepted p) same (record {
      kind = refl;
      known = known;
      same_id = refl;
      same_enabled = refl;
      timed = inr ((d, t, c), (d, t, again));
    })

plain-Accepted :
    (p : CronJob)
    → let q = with_kind p (normalize_cron_job_kind p.kind) in
      (q.kind == "cron" || q.kind == "loop") ≡ true → is_loop_job p ≡ false → Accepted p q
plain-Accepted p known e = record {
  kind = refl;
  known = known;
  same_id = refl;
  same_enabled = refl;
  timed = inl e;
}

pub validate_cron_job-Accepted : (p j : CronJob) → validate_cron_job p ≡ ok j → Accepted p j
unfolding validate_cron_job
validate_cron_job-Accepted p j h =
    let q = with_kind p (normalize_cron_job_kind p.kind) in
    let mode = normalize_cron_session_mode q.session_mode in
    elim (Bool-cases (q.kind == "cron" || q.kind == "loop")) [
      | inr a ↦ absurd (ground (arith, h, a))
      | inl a ↦ elim (Bool-cases (mode == "" || mode == "new_per_run")) [
        | inr b ↦ absurd (ground (arith, h, a, b))
        | inl b ↦ elim (Bool-cases (is_negative q.timeout_mins)) [
          | inl c ↦ absurd (ground (arith, h, a, b, c))
          | inr c ↦ elim (Bool-cases (is_loop_job q)) [
            | inr d ↦
                let it : validate_cron_job p ≡ ok q = rw (a, b, c, d, validate_cron_job) refl in
                let same : q ≡ j = ground (arith, sym it ∙ h) in
                subst (Accepted p) same (plain-Accepted p a (sym (kind_again p a) ∙ d))
            | inl d ↦ elim (Bool-cases (is_blank q.exec)) [
              | inr e ↦
                  let it : validate_cron_job p ≡ err loop_with_exec =
                    rw (a, b, c, d, e, validate_cron_job) refl in
                  absurd (ground (arith, sym it ∙ h))
              | inl e ↦ elim (Bool-cases (is_blank q.prompt)) [
                | inl f ↦
                    let it : validate_cron_job p ≡ err prompt_required =
                      rw (a, b, c, d, e, f, validate_cron_job) refl in
                    absurd (ground (arith, sym it ∙ h))
                | inr f ↦
                    let it : validate_cron_job p
                        ≡ with_interval q (parse_loop_interval_spec q.loop_interval) =
                      rw (a, b, c, d, e, f, validate_cron_job) refl in
                    loop-Accepted p j (parse_loop_interval_spec q.loop_interval) a refl (sym it ∙ h)
              ]
            ]
          ]
        ]
      ]
    ]

module _ {L : CronLibrary} (laws : CronLaws L) where
  pub loop-Schedulable : (j : CronJob) → is_loop_job j ≡ true → Timed j → Schedulable laws j
  unfolding schedule_spec
  loop-Schedulable j l (d, t, e) =
      let (low, high, again) = parse_loop_interval_spec-normalized j.loop_interval d t e in
      (
        String.◌++◌ "@every " (duration_text d),
        rw (l, e, schedule_spec) refl,
        laws.every d low high,
      )

  pub cron-Schedulable :
      (j : CronJob) → is_loop_job j ≡ false → L.parses j.cron_expr ≡ true → Schedulable laws j
  unfolding schedule_spec
  cron-Schedulable j e p = (j.cron_expr, rw (e, schedule_spec) refl, p)

normal_known : (k : String) → (k == "cron" || k == "loop") ≡ true → normalize_cron_job_kind k ≡ k
unfolding normalize_cron_job_kind to_lower lower_char trim_space trim_left trim_right is_space
normal_known k h = elim (Bool-cases (k == "cron")) [
  | inl e ↦ let at = (eq_iff k "cron").0 e in ap normalize_cron_job_kind at ∙ sym at
  | inr e ↦
      let l : (k == "loop") ≡ true = ground (arith, h, e) in
      let at = (eq_iff k "loop").0 l in ap normalize_cron_job_kind at ∙ sym at
]

-- The job as AddJob stores it.
abbrev pub normalized : CronJob → CronJob
normalized j = record j {
  kind = normalize_cron_job_kind j.kind;
  session_mode = normalize_cron_session_mode j.session_mode;
}

loop_of : (p j : CronJob) → Accepted p j → is_loop_job (normalized j) ≡ is_loop_job p
unfolding is_loop_job
loop_of p j a =
    let kind = normal_known j.kind a.known in
    let known : (normalize_cron_job_kind p.kind == "cron"
          || normalize_cron_job_kind p.kind == "loop")
        ≡ true =
      rw (← a.kind) a.known in
    ap (λ k. normalize_cron_job_kind k == "loop") (kind ∙ a.kind) ∙ kind_again p known

checked_text :
    (L : CronLibrary) (p : CronJob) (v field : String)
    → (field == "cron_expr") ≡ true
    → is_loop_job p ≡ false
    → check_schedule L p field (text v) ≡ none
    → L.parses v ≡ true
unfolding check_schedule
checked_text L p v field named plain e = elim (Bool-cases (L.parses v)) [
  | inl f ↦ f
  | inr f ↦
      let it : check_schedule L p field (text v) ≡ some (invalid_expression v) =
        rw (named, plain, f, check_schedule) refl in
      absurd (ground (arith, sym it ∙ e))
]

module _ {L : CronLibrary} (laws : CronLaws L) where
  -- A job that passes the checks of AddJob.
  pub normalized-Schedulable :
      (p j : CronJob)
      → Accepted p j
      → (not (is_loop_job (normalized j)) && not (L.parses j.cron_expr)) ≡ false
      → Schedulable laws (normalized j)
  normalized-Schedulable p j a h = elim (Bool-cases (is_loop_job (normalized j))) [
    | inr e ↦ cron-Schedulable laws (normalized j) e (ground (arith, h, e))
    | inl e ↦ elim a.timed [
      | inl cron ↦ absurd (ground (arith, sym e ∙ loop_of p j a ∙ cron))
      | inr (before, after) ↦ loop-Schedulable laws (normalized j) e after
    ]
  ]

  -- A job that passes the checks of UpdateJob, from one that could be scheduled.
  pub update_job-Schedulable :
      (p p' j : CronJob) (field : String) (value : Value)
      → Schedulable laws p
      → check_schedule L p field value ≡ none
      → Changed p field value p'
      → validate_cron_job p' ≡ ok j
      → Schedulable laws p'
  unfolding check_schedule schedule_spec is_loop_job
  update_job-Schedulable p p' j field value (spec, made, parsed) check c valid =
      let kind : is_loop_job p ≡ is_loop_job p' =
        ap (λ k. normalize_cron_job_kind k == "loop") (sym c.same_kind) in
      let a = validate_cron_job-Accepted p' j valid in
      elim (Bool-cases (is_loop_job p')) [
        | inl e ↦ elim a.timed [
          | inl cron ↦ absurd (ground (arith, sym e ∙ cron))
          | inr (before, after) ↦ loop-Schedulable laws p' e before
        ]
        | inr e ↦
            let plain : is_loop_job p ≡ false = kind ∙ e in
            cron-Schedulable laws p' e (elim c.expr [
              | inl same ↦
                  let it : schedule_spec p ≡ ok p.cron_expr = rw (plain, schedule_spec) refl in
                  let at : p.cron_expr ≡ spec = ground (arith, sym it ∙ made) in
                  ap L.parses (same ∙ at) ∙ parsed
              | inr (named, new) ↦
                  checked_text L p p'.cron_expr field named plain
                    (ap (check_schedule L p field) (sym new) ∙ check)
            ])
      ]
