-- ===== src/Store/Sorting.antt =====
-- `sort_jobs` of job_store_helpers.py: what sorting keeps, and that it sorts.
pub mod Canonical
use mathlib.Core.List.{Perm}
use mathlib.Core.List.Perm
use earth2_sandbox.Prelude.{List, [], ◌∷◌, All, inl, inr, Bool-cases}
use earth2_sandbox.Jobs.{ForecastJob}
use earth2_sandbox.Store.Helpers.{key_lt, insert_job, sort_jobs}

insert_job-perm : (a : ForecastJob) (bs : List ForecastJob) → Perm (insert_job a bs) (a ∷ bs)
unfolding insert_job
insert_job-perm a [] = Perm.rfl
insert_job-perm a (b ∷ bs) = elim (Bool-cases (key_lt a b)) [
  | inl later ↦
      rw (later, insert_job) (Perm.trans (Perm.cons b (insert_job-perm a bs)) (Perm.swap a b bs))
  | inr here ↦ rw (here, insert_job) Perm.rfl
]

-- Sorting loses no job and makes none up.
pub sort_jobs-perm : (jobs : List ForecastJob) → Perm (sort_jobs jobs) jobs
unfolding sort_jobs
sort_jobs-perm [] = Perm.rfl
sort_jobs-perm (a ∷ bs) =
    Perm.trans (insert_job-perm a (sort_jobs bs)) (Perm.cons a (sort_jobs-perm bs))

module _ {κ} (P : ForecastJob → Type κ) where
  pub insert_job-All :
      (a : ForecastJob) (bs : List ForecastJob) → P a → All P bs → All P (insert_job a bs)
  unfolding insert_job
  insert_job-All a [] p h = (p, tt)
  insert_job-All a (b ∷ bs) p h = elim (Bool-cases (key_lt a b)) [
    | inl later ↦ rw (later, insert_job) (h.0, insert_job-All a bs p h.1)
    | inr here ↦ rw (here, insert_job) (p, h)
  ]

  pub sort_jobs-All : (jobs : List ForecastJob) → All P jobs → All P (sort_jobs jobs)
  unfolding sort_jobs
  sort_jobs-All [] h = tt
  sort_jobs-All (a ∷ bs) h = insert_job-All a (sort_jobs bs) h.0 (sort_jobs-All bs h.1)
