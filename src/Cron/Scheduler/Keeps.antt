-- ===== src/Cron/Scheduler/Keeps.antt =====
-- core/cron.go: how scheduling and its end change the entries.
use echo_client.Prelude.{
  ℕ, String, Bool, true, false, not, ◌||◌, ◌&&◌, Option, none, some, List, ◌==◌, if◌then◌else◌, ◌≡◌,
  refl, inl, inr, arith, Bool-cases, Option-cases, eq_iff, eqb,
}
use echo_client.Prelude.Dict.{Dict, get, put, delete, get-put, get-delete}
use echo_client.Cron.{CronJob, ok}
use echo_client.Cron.Interval.{schedule_spec}
use echo_client.Cron.Store.{find_job}
use echo_client.Cron.Scheduler.{CronScheduler, removed_entry, schedule_job, unschedule, with_spec}
use echo_client.Cron.Scheduler.Library.{CronLibrary, CronLaws}

-- An enabled job has the id.
abbrev pub is_wanted : Option CronJob → Bool
is_wanted none = false
is_wanted (some job) = job.enabled

abbrev pub wants : List CronJob → String → Bool
wants jobs id = is_wanted (find_job id jobs)

abbrev pub has_entry : Dict ℕ → String → Bool
has_entry entries id = elim (get id entries) [ none ↦ false | some e ↦ true ]

module _ {L : CronLibrary} (laws : CronLaws L) where
  -- The recorded entries are those that the library has.
  pub record Tied (c : L.Cron) (entries : Dict ℕ) : Type 0 where
    pub recorded : (id : String) (e : ℕ) → get id entries ≡ some e → L.job_of c e ≡ some id
    pub owned : (id : String) (e : ℕ) → L.job_of c e ≡ some id → get id entries ≡ some e

  -- The schedule library takes the schedule of the job.
  abbrev pub Schedulable : CronJob → Type 0
  Schedulable job = (spec : String) × (schedule_spec job ≡ ok spec) × (L.parses spec ≡ true)

  -- The library without an old entry of the job.
  freed : L.Cron → Dict ℕ → String → L.Cron
  freed c entries id = removed_entry L c (get id entries)

  freed_job :
      (c : L.Cron) (entries : Dict ℕ) (id : String)
      → Tied c entries
      → (e : ℕ)
      → L.job_of (freed c entries id) e ≡ (elim (get id entries) [
        | none ↦ L.job_of c e
        | some d ↦ if eqb d e then none else L.job_of c e
      ])
  unfolding freed
  freed_job c entries id t e = elim (Option-cases (get id entries)) [
    | inl n ↦ rw n refl
    | inr (d, f) ↦ rw f (laws.removed c d e)
  ]

  kept_entry :
      (c : L.Cron) (entries : Dict ℕ) (id k : String) (e : ℕ)
      → Tied c entries
      → (id == k) ≡ false
      → L.job_of c e ≡ some k
      → L.job_of (freed c entries id) e ≡ some k
  kept_entry c entries id k e t other at = elim (Option-cases (get id entries)) [
    | inl n ↦ ground (arith, freed_job c entries id t e, n, at)
    | inr (d, f) ↦
        let was = t.recorded id d f in
        ground (arith, freed_job c entries id t e, f, at, was, other, eq_iff id k)
  ]

  left_entry :
      (c : L.Cron) (entries : Dict ℕ) (id k : String) (e : ℕ)
      → Tied c entries
      → L.job_of (freed c entries id) e ≡ some k
      → ((id == k) ≡ false) × (L.job_of c e ≡ some k)
  left_entry c entries id k e t at = elim (Option-cases (get id entries)) [
    | inl n ↦
        let was : L.job_of c e ≡ some k = ground (arith, freed_job c entries id t e, n, at) in
        let here = t.owned k e was in (ground (arith, n, here, eq_iff id k), was)
    | inr (d, f) ↦
        let was : L.job_of c e ≡ some k = ground (arith, freed_job c entries id t e, f, at) in
        let here = t.owned k e was in
        (ground (arith, freed_job c entries id t e, f, at, here, eq_iff id k), was)
  ]

  put-Tied :
      (c : L.Cron) (entries : Dict ℕ) (id spec : String)
      → Tied c entries
      → let r = L.add_func (freed c entries id) spec id in Tied r.0 (put id r.1 entries)
  put-Tied c entries id spec t =
      let c' = freed c entries id in
      let n = (L.add_func c' spec id).1 in
      let new = laws.fresh c' spec id in
      record {
        recorded = λ k e g. elim (Bool-cases (id == k)) [
          | inl same ↦
              ground (arith, laws.added c' spec id e, get-put id k n entries, g, eq_iff id k)
          | inr other ↦
              let old : get k entries ≡ some e = ground (arith, get-put id k n entries, g, other) in
              let kept = kept_entry c entries id k e t other (t.recorded k e old) in
              ground (arith, laws.added c' spec id e, kept, new)
        ];
        owned = λ k e g. elim (Bool-cases (eqb n e)) [
          | inl same ↦
              ground (arith, laws.added c' spec id e, get-put id k n entries, g, eq_iff id k)
          | inr other ↦
              let old : L.job_of c' e ≡ some k =
                ground (arith, laws.added c' spec id e, g, other) in
              let (away, was) = left_entry c entries id k e t old in
              ground (arith, t.owned k e was, get-put id k n entries, away)
        ];
      }

  delete-Tied :
      (c : L.Cron) (entries : Dict ℕ) (id : String) (d : ℕ)
      → Tied c entries
      → get id entries ≡ some d
      → Tied (L.remove c d) (delete id entries)
  delete-Tied c entries id d t f = record {
    recorded = λ k e g. ground (
      arith,
      laws.removed c d e,
      get-delete id k entries,
      t.recorded k e,
      t.recorded id d,
      eq_iff id k,
    );
    owned = λ k e g. ground (
      arith,
      laws.removed c d e,
      get-delete id k entries,
      t.owned k e,
      t.recorded id d,
      eq_iff id k,
    );
  }

  -- A job that can be scheduled gets one entry, in place of the one it has.
  pub schedule_job-entries :
      (cs : CronScheduler L) (job : CronJob)
      → Tied cs.cron cs.entries
      → Schedulable job
      → let r = schedule_job cs job in
        (r.1 ≡ none)
        × (r.0.store ≡ cs.store)
        × Tied r.0.cron r.0.entries
        × ((k : String) → has_entry r.0.entries k ≡ (job.id == k || has_entry cs.entries k))
  unfolding schedule_job freed
  schedule_job-entries cs job t (spec, e, p) =
      let made = put-Tied cs.cron cs.entries job.id spec t in
      let n = (L.add_func (freed cs.cron cs.entries job.id) spec job.id).1 in
      rw (e, schedule_job)
        (rw (p, with_spec) (refl, refl, made, λ k. ground (arith, get-put job.id k n cs.entries)))

  pub unschedule-entries :
      (cs : CronScheduler L) (id : String)
      → Tied cs.cron cs.entries
      → ((unschedule cs id).store ≡ cs.store)
        × Tied (unschedule cs id).cron (unschedule cs id).entries
        × ((k : String)
            → has_entry (unschedule cs id).entries k ≡ (not (id == k) && has_entry cs.entries k))
  unfolding unschedule
  unschedule-entries cs id t = elim (Option-cases (get id cs.entries)) [
    | inl n ↦ rw (n, unschedule) (refl, t, λ k. ground (arith, n, eq_iff id k))
    | inr (d, f) ↦
        rw (f, unschedule)
          (
            refl,
            delete-Tied cs.cron cs.entries id d t f,
            λ k. ground (arith, get-delete id k cs.entries),
          )
  ]
