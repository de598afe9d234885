-- ===== src/Cron/Scheduler/Fields.antt =====
-- core/cron.go: which fields of a job updateCronJobField can change.
use mathlib.Core.Path.{subst}
use echo_client.Prelude.{
  String, Bool, true, false, Option, none, some, ◌==◌, if◌then◌else◌, ◌≡◌, refl, ◌⊎◌, inl, inr,
}
use echo_client.Cron.{CronJob, Value, text, flag, number, update_cron_job_field, set_text, set_flag}

pub record Changed (j : CronJob) (field : String) (value : Value) (j' : CronJob) : Type 0 where
  pub same_id : j'.id ≡ j.id
  pub same_kind : j'.kind ≡ j.kind
  pub expr :
      (j'.cron_expr ≡ j.cron_expr) ⊎ (((field == "cron_expr") ≡ true) × (value ≡ text j'.cron_expr))
  pub enabled : (j'.enabled ≡ j.enabled) ⊎ ((field == "enabled") ≡ true)

-- What holds of the job, if there is one.
Holds : (CronJob → Type 0) → Option CronJob → Type 0
Holds P none = Unit
Holds P (some j) = P j

pick :
    (P : CronJob → Type 0) (b : Bool) (j : CronJob) (rest : Option CronJob)
    → (b ≡ true → P j)
    → Holds P rest
    → Holds P (if b then some j else rest)
unfolding Holds
pick P true j rest h k = h refl
pick P false j rest h k = k

module _ (j : CronJob) (field : String) (value : Value) where
  other_field :
      (j' : CronJob)
      → j'.id ≡ j.id
      → j'.kind ≡ j.kind
      → j'.cron_expr ≡ j.cron_expr
      → j'.enabled ≡ j.enabled
      → Changed j field value j'
  other_field j' a b c d = record { same_id = a; same_kind = b; expr = inl c; enabled = inl d }

  text_field : (v : String) → value ≡ text v → Holds (Changed j field value) (set_text j field v)
  unfolding set_text Holds
  text_field v e =
      let P = Changed j field value in
      pick P (field == "project") _ _ (λ h. other_field _ refl refl refl refl)
        (pick P (field == "session_key") _ _ (λ h. other_field _ refl refl refl refl)
          (pick P (field == "cron_expr") _ _
            (λ h. record {
              same_id = refl;
              same_kind = refl;
              expr = inr (h, e);
              enabled = inl refl;
            })
            (pick P (field == "loop_interval") _ _ (λ h. other_field _ refl refl refl refl)
              (pick P (field == "prompt") _ _ (λ h. other_field _ refl refl refl refl)
                (pick P (field == "exec") _ _ (λ h. other_field _ refl refl refl refl)
                  (pick P (field == "work_dir") _ _ (λ h. other_field _ refl refl refl refl)
                    (pick P (field == "description") _ _ (λ h. other_field _ refl refl refl refl)
                      (pick P (field == "session_mode") _ _ (λ h. other_field _ refl refl refl refl)
                        (pick P (field == "agent_session_id") _ _
                          (λ h. other_field _ refl refl refl refl)
                          (pick P (field == "session_label") _ _
                            (λ h. other_field _ refl refl refl refl) tt))))))))))

  flag_field : (v : Bool) → Holds (Changed j field value) (set_flag j field v)
  unfolding set_flag Holds
  flag_field v =
      let P = Changed j field value in
      pick P (field == "enabled") _ _
        (λ h. record { same_id = refl; same_kind = refl; expr = inl refl; enabled = inr h })
        (pick P (field == "silent") _ _ (λ h. other_field _ refl refl refl refl)
          (pick P (field == "mute") _ _ (λ h. other_field _ refl refl refl refl)
            (pick P (field == "auto_pause_primitive") _ _ (λ h. other_field _ refl refl refl refl)
              tt)))

value_field :
    (j : CronJob) (field : String) (value : Value)
    → Holds (Changed j field value) (update_cron_job_field j field value)
unfolding update_cron_job_field Holds
value_field j field (text v) = text_field j field (text v) v refl
value_field j field (flag v) = flag_field j field (flag v) v
value_field j field (number n) =
    pick (Changed j field (number n)) (field == "timeout_mins") _ _
      (λ h. other_field j field (number n) _ refl refl refl refl) tt

pub update_cron_job_field-Changed :
    (j : CronJob) (field : String) (value : Value) (j' : CronJob)
    → update_cron_job_field j field value ≡ some j'
    → Changed j field value j'
unfolding Holds
update_cron_job_field-Changed j field value j' e =
    subst (Holds (Changed j field value)) e (value_field j field value)
