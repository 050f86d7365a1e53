-- ===== src/Store/Recent.antt =====
-- Which jobs `list_recent` returns, and in which order.
use mathlib.Core.List.{Perm}
use earth2_sandbox.Prelude.{
  ℕ, zero, suc, ◌≤◌, ◌≡◌, refl, ap, sym, subst, true, false, Option, List, [], ◌∷◌, ◌++◌, All,
  All-mono, take-All, take, keep, length, length-take-le, ◌⊎◌, inl, inr, Bool-cases, arith,
}
use earth2_sandbox.Prelude.Dict
use earth2_sandbox.Domain.Status.{ForecastJobStatus}
use earth2_sandbox.Jobs.{ForecastJob}
use earth2_sandbox.World.{World}
use earth2_sandbox.Store.Helpers.{key_lt, insert_job, sort_jobs, has_status, sort_and_filter_jobs}
use earth2_sandbox.Store.Sorting.{insert_job-All, sort_jobs-perm}
use earth2_sandbox.Store.Memory.{list_recent}

-- A later job is no newer.
abbrev pub NewestFirst : List ForecastJob → Type 0
NewestFirst [] = Unit
NewestFirst (job ∷ jobs) = All (λ j. j.created_at ≤ job.created_at) jobs × NewestFirst jobs

key_lt-le : (a b : ForecastJob) → key_lt a b ≡ true → a.created_at ≤ b.created_at
key_lt-le a b h = ground arith

key_lt-ge : (a b : ForecastJob) → key_lt a b ≡ false → b.created_at ≤ a.created_at
key_lt-ge a b h = ground arith

insert_job-NewestFirst :
    (a : ForecastJob) (jobs : List ForecastJob) → NewestFirst jobs → NewestFirst (insert_job a jobs)
unfolding insert_job
insert_job-NewestFirst a [] h = (tt, tt)
insert_job-NewestFirst a (b ∷ jobs) h = elim (Bool-cases (key_lt a b)) [
  | inl older ↦ rw (older) (
    insert_job-All (λ j. j.created_at ≤ b.created_at) a jobs (key_lt-le a b older) h.0,
    insert_job-NewestFirst a jobs h.1,
  )
  | inr newer ↦
      let first = key_lt-ge a b newer in
      rw (newer) (
        (
          first,
          All-mono (λ j. j.created_at ≤ b.created_at) (λ j. j.created_at ≤ a.created_at)
              (λ j k. omega arith) jobs h.0,
        ),
        h,
      )
]

sort_jobs-NewestFirst : (jobs : List ForecastJob) → NewestFirst (sort_jobs jobs)
unfolding sort_jobs
sort_jobs-NewestFirst [] = tt
sort_jobs-NewestFirst (a ∷ jobs) =
    insert_job-NewestFirst a (sort_jobs jobs) (sort_jobs-NewestFirst jobs)

take-NewestFirst : (n : ℕ) (jobs : List ForecastJob) → NewestFirst jobs → NewestFirst (take n jobs)
take-NewestFirst zero jobs h = tt
take-NewestFirst (suc n) [] h = tt
take-NewestFirst (suc n) (a ∷ jobs) h =
    (take-All (λ j. j.created_at ≤ a.created_at) n jobs h.0, take-NewestFirst n jobs h.1)

-- what `take` leaves
past : ℕ → List ForecastJob → List ForecastJob
past zero jobs = jobs
past (suc n) [] = []
past (suc n) (a ∷ jobs) = past n jobs

take-past : (n : ℕ) (jobs : List ForecastJob) → take n jobs ++ past n jobs ≡ jobs
unfolding past
take-past zero jobs = refl
take-past (suc n) [] = refl
take-past (suc n) (a ∷ jobs) = ap (λ l. a ∷ l) (take-past n jobs)

past-All :
    (P : ForecastJob → Type 0) (n : ℕ) (jobs : List ForecastJob) → All P jobs → All P (past n jobs)
unfolding past
past-All P zero jobs h = h
past-All P (suc n) [] h = tt
past-All P (suc n) (a ∷ jobs) h = past-All P n jobs h.1

-- None of the others is newer than one of the jobs.
abbrev pub NoNewer : List ForecastJob → List ForecastJob → Type 0
NoNewer others jobs = All (λ job. All (λ j. j.created_at ≤ job.created_at) others) jobs

past-NoNewer :
    (n : ℕ) (jobs : List ForecastJob) → NewestFirst jobs → NoNewer (past n jobs) (take n jobs)
unfolding past
past-NoNewer zero jobs h = tt
past-NoNewer (suc n) [] h = tt
past-NoNewer (suc n) (a ∷ jobs) h =
    (past-All (λ j. j.created_at ≤ a.created_at) n jobs h.0, past-NoNewer n jobs h.1)

full_or_all : (n : ℕ) (jobs : List ForecastJob) → (length (take n jobs) ≡ n) ⊎ (past n jobs ≡ [])
unfolding past
full_or_all zero jobs = inl refl
full_or_all (suc n) [] = inr refl
full_or_all (suc n) (a ∷ jobs) = elim (full_or_all n jobs) [
  | inl full ↦ inl (ap suc full)
  | inr all ↦ inr all
]

-- The jobs that `list_recent` returns come newest first, no more of them than asked for. Together with
-- others that it leaves out they are all the stored jobs with the status that was asked for, if one
-- was, each as often as it is stored. None of the others is newer than a job that is listed, and
-- there are others only when as many jobs are listed as asked for.
pub list_recent_lem :
    (limit : ℕ) (status : Option ForecastJobStatus) (w : World)
    → let jobs = list_recent limit status w in
      (others : List ForecastJob) × (Perm
        (jobs ++ others)
        (keep (has_status status) (Dict.values w.jobs)))
      × NewestFirst jobs
      × (length jobs ≤ limit)
      × NoNewer others jobs
      × ((length jobs ≡ limit) ⊎ (others ≡ []))
unfolding list_recent sort_and_filter_jobs
list_recent_lem limit status w =
    let chosen = keep (has_status status) (Dict.values w.jobs) in
    let sorted = sort_jobs-NewestFirst chosen in
    (
      past limit (sort_jobs chosen),
      subst (λ l. Perm l chosen) (sym (take-past limit (sort_jobs chosen))) (sort_jobs-perm chosen),
      take-NewestFirst limit (sort_jobs chosen) sorted,
      length-take-le limit (sort_jobs chosen),
      past-NoNewer limit (sort_jobs chosen) sorted,
      full_or_all limit (sort_jobs chosen),
    )
