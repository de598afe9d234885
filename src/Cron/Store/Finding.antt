-- ===== src/Cron/Store/Finding.antt =====
-- core/cron.go: which job a lookup finds after each change of the store.
use echo_client.Prelude.{
  String, Option, none, some, List, [], ◌∷◌, ◌++◌, ◌==◌, if◌then◌else◌, ◌≡◌, refl, sym, ap, ◌∙◌,
  inl, inr, arith, Bool-cases, eq_iff,
}
use echo_client.Cron.{CronJob}
use echo_client.Cron.Store.{find_job, change_job, without_job}

id_of : Option CronJob → String → String
id_of none id = id
id_of (some job) id = job.id

find_job_same : (id : String) (jobs : List CronJob) → id_of (find_job id jobs) id ≡ id
unfolding find_job id_of
find_job_same id [] = refl
find_job_same id (j ∷ jobs) = elim (Bool-cases (j.id == id)) [
  | inl same ↦ rw same ((eq_iff j.id id).0 same)
  | inr other ↦ rw other (find_job_same id jobs)
]

pub find_job-id :
    (id : String) (jobs : List CronJob) (job : CronJob) → find_job id jobs ≡ some job → job.id ≡ id
unfolding id_of
find_job-id id jobs job e = sym (ap (λ o. id_of o id) e) ∙ find_job_same id jobs

-- No two jobs have the same id.
unfoldable pub Unique : List CronJob → Type 0
Unique [] = Unit
Unique (j ∷ jobs) = (find_job j.id jobs ≡ none) × Unique jobs

-- A change of the first job with an id, to one of the same id.
pub find_job-change_job :
    (id k : String) (f : CronJob → CronJob) (jobs : List CronJob) (job : CronJob)
    → find_job id jobs ≡ some job
    → (f job).id ≡ job.id
    → find_job k (change_job id f jobs) ≡ (if id == k then some (f job) else find_job k jobs)
unfolding find_job change_job
find_job-change_job id k f [] job e same = absurd (ground (arith, e))
find_job-change_job id k f (j ∷ jobs) job e same = ground (
  arith,
  e,
  same,
  find_job-change_job id k f jobs job,
  eq_iff id k,
  eq_iff j.id id,
  eq_iff j.id k,
  eq_iff (f job).id k,
)

pub find_job-append :
    (k : String) (job : CronJob) (jobs : List CronJob)
    → find_job k (jobs ++ job ∷ [])
      ≡ (elim (find_job k jobs) [ none ↦ if job.id == k then some job else none | some j ↦ some j ])
unfolding find_job
find_job-append k job [] = refl
find_job-append k job (j ∷ jobs) = elim (Bool-cases (j.id == k)) [
  | inl same ↦ rw (same, find_job) refl
  | inr other ↦ rw (other, find_job) (find_job-append k job jobs)
]

pub find_job-without_job :
    (id k : String) (jobs : List CronJob)
    → Unique jobs
    → find_job k (without_job id jobs) ≡ (if id == k then none else find_job k jobs)
unfolding find_job without_job Unique
find_job-without_job id k [] u = ground arith
find_job-without_job id k (j ∷ jobs) u =
    ground
      (arith, u, find_job-without_job id k jobs u.1, eq_iff id k, eq_iff j.id id, eq_iff j.id k)

pub change_job-Unique :
    (id : String) (f : CronJob → CronJob) (jobs : List CronJob) (job : CronJob)
    → find_job id jobs ≡ some job
    → (f job).id ≡ job.id
    → Unique jobs
    → Unique (change_job id f jobs)
unfolding find_job change_job Unique
change_job-Unique id f [] job e same u = tt
change_job-Unique id f (j ∷ jobs) job e same u = elim (Bool-cases (j.id == id)) [
  | inl here ↦
      let first : some j ≡ some job = ground (arith, e, here) in
      let at : j ≡ job = ground (arith, first) in
      let kept : (f j).id ≡ j.id =
        ap (λ (x : CronJob). (f x).id) at ∙ same ∙ sym (ap (λ (x : CronJob). x.id) at) in
      rw here (ap (λ k. find_job k jobs) kept ∙ u.0, u.1)
  | inr other ↦
      let later : find_job id jobs ≡ some job = ground (arith, e, other) in
      rw other (
        ground (
          arith,
          find_job-change_job id j.id f jobs job later same,
          eq_iff id j.id,
          eq_iff j.id id,
          u.0,
          other,
        ),
        change_job-Unique id f jobs job later same u.1,
      )
]

pub append-Unique :
    (job : CronJob) (jobs : List CronJob)
    → find_job job.id jobs ≡ none
    → Unique jobs
    → Unique (jobs ++ job ∷ [])
unfolding find_job Unique
append-Unique job [] e u = (refl, tt)
append-Unique job (j ∷ jobs) e u = elim (Bool-cases (j.id == job.id)) [
  | inl here ↦ absurd (ground (arith, e, here))
  | inr other ↦
      let later : find_job job.id jobs ≡ none = ground (arith, e, other) in
      (
        ground (
          arith,
          find_job-append j.id job jobs,
          u.0,
          other,
          eq_iff j.id job.id,
          eq_iff job.id j.id,
        ),
        append-Unique job jobs later u.1,
      )
]

pub without_job-Unique :
    (id : String) (jobs : List CronJob) → Unique jobs → Unique (without_job id jobs)
unfolding without_job Unique
without_job-Unique id [] u = tt
without_job-Unique id (j ∷ jobs) u = elim (Bool-cases (j.id == id)) [
  | inl here ↦ rw here u.1
  | inr other ↦
      rw other
        (ground (arith, find_job-without_job id j.id jobs u.1, u.0), without_job-Unique id jobs u.1)
]
