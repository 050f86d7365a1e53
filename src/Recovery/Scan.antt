-- ===== src/Recovery/Scan.antt =====
-- The jobs that a recovery scans: each is as it stands in the table, and no two are under one identifier.
use earth2_sandbox.Prelude.{
  ◌≡◌, true, false, String, Bool, none, some, List, [], ◌∷◌, All, All-mono, inl, inr, Bool-cases,
  ◌==◌, eq_iff, keep, keep-All, arith,
}
use earth2_sandbox.Prelude.Dict
use earth2_sandbox.Prelude.Dict.{Dict, get-put}
use earth2_sandbox.Domain.Status.{is_in, active_job_statuses}
use earth2_sandbox.Domain.Uuid.{parse_uuid}
use earth2_sandbox.Jobs.{ForecastJob}
use earth2_sandbox.World.{World}
use earth2_sandbox.Prelude.Dict.Entries.{Entries, Distinct}
use earth2_sandbox.Store.Sorting.{insert_job-All, sort_jobs-All}
use earth2_sandbox.Store.Helpers.{key_lt, insert_job, sort_jobs}
use earth2_sandbox.Store.Memory.{list_active}
use earth2_sandbox.Store.Memory.Invariant.{Entry, IsConsistent}

-- An active job that stands in the table as it is, under its canonical identifier.
abbrev pub Waits : Dict ForecastJob → ForecastJob → Type 0
Waits jobs job =
    (parse_uuid job.id ≡ some job.id)
    × (Dict.get jobs job.id ≡ some job)
    × (is_in job.status active_job_statuses ≡ true)

pub Waits-put :
    (jobs : Dict ForecastJob) (new job : ForecastJob)
    → (new.id == job.id) ≡ false
    → Waits jobs job
    → Waits (Dict.put jobs new.id new) job
Waits-put jobs new job other (canonical, found, active) =
    (canonical, rw (get-put, other) found, active)

-- No two of the jobs have one identifier.
abbrev pub Different : List ForecastJob → Type 0
Different [] = Unit
Different (job ∷ jobs) = All (λ j. (job.id == j.id) ≡ false) jobs × Different jobs

-- the jobs that stand in a table, by their keys
values-apart :
    (d : Dict ForecastJob) (k : String)
    → Entries Entry d
    → Dict.get d k ≡ none
    → All (λ j. (k == j.id) ≡ false) (Dict.values d)
unfolding Dict.values Dict.get
values-apart [] k h new = tt
values-apart ((i, job) ∷ d) k h new = elim (Bool-cases (i == k)) [
  | inl same ↦ absurd (ground (arith, same, new))
  | inr other ↦ (
    ground (arith, eq_iff i k, eq_iff k job.id, other, h.0.0),
    values-apart d k h.1 (ground (arith, other, new)),
  )
]

values-Different : (d : Dict ForecastJob) → Entries Entry d → Distinct d → Different (Dict.values d)
unfolding Dict.values
values-Different [] h u = tt
values-Different ((k, job) ∷ d) h u = (
  All-mono (λ j. (k == j.id) ≡ false) (λ j. (job.id == j.id) ≡ false) (λ j e. rw h.0.0 e)
      (Dict.values d) (values-apart d k h.1 u.0),
  values-Different d h.1 u.1,
)

keep-Different :
    (test : ForecastJob → Bool) (jobs : List ForecastJob)
    → Different jobs
    → Different (keep test jobs)
keep-Different test [] u = tt
keep-Different test (job ∷ jobs) u = elim (Bool-cases (test job)) [
  | inl taken ↦
      rw (taken, keep)
        (
          All-mono (λ j. ((job.id == j.id) ≡ false) × (test j ≡ true))
              (λ j. (job.id == j.id) ≡ false) (λ j h. h.0) (keep test jobs)
              (keep-All (λ j. (job.id == j.id) ≡ false) test jobs u.0),
          keep-Different test jobs u.1,
        )
  | inr left ↦ rw (left, keep) (keep-Different test jobs u.1)
]

insert_job-Different :
    (a : ForecastJob) (jobs : List ForecastJob)
    → All (λ j. (a.id == j.id) ≡ false) jobs
    → Different jobs
    → Different (insert_job a jobs)
unfolding insert_job
insert_job-Different a [] h u = (tt, tt)
insert_job-Different a (b ∷ jobs) h u = elim (Bool-cases (key_lt a b)) [
  | inl older ↦ rw older (
    insert_job-All (λ j. (b.id == j.id) ≡ false) a jobs
        (ground (arith, eq_iff a.id b.id, eq_iff b.id a.id, h.0)) u.0,
    insert_job-Different a jobs h.1 u.1,
  )
  | inr newer ↦ rw newer (h, u)
]

sort_jobs-Different : (jobs : List ForecastJob) → Different jobs → Different (sort_jobs jobs)
unfolding sort_jobs
sort_jobs-Different [] u = tt
sort_jobs-Different (a ∷ jobs) u =
    insert_job-Different a (sort_jobs jobs) (sort_jobs-All (λ j. (a.id == j.id) ≡ false) jobs u.0)
      (sort_jobs-Different jobs u.1)

-- An entry under the identifier of its job, as `Waits` has it but for the status.
abbrev Stands : Dict ForecastJob → ForecastJob → Type 0
Stands jobs job = (parse_uuid job.id ≡ some job.id) × (Dict.get jobs job.id ≡ some job)

Stands-cons :
    (k : String) (first : ForecastJob) (d : Dict ForecastJob) (job : ForecastJob)
    → Dict.get d k ≡ none
    → Stands d job
    → Stands ((k, first) ∷ d) job
unfolding Dict.get
Stands-cons k first d job new (canonical, found) =
    (canonical, ground (arith, eq_iff k job.id, found))

values-Stands :
    (d : Dict ForecastJob) → Entries Entry d → Distinct d → All (Stands d) (Dict.values d)
unfolding Dict.values
values-Stands [] h u = tt
values-Stands ((k, job) ∷ d) h u = (
  (h.0.1.canonical, unfold Dict.get in ground (arith, eq_iff k job.id, h.0.0)),
  All-mono (Stands d) (Stands ((k, job) ∷ d)) (λ j. Stands-cons k job d j u.0) (Dict.values d)
      (values-Stands d h.1 u.1),
)

module _ (w : World) (c : IsConsistent w.jobs) where
  abbrev active : ForecastJob → Bool
  active job = is_in job.status active_job_statuses

  pub list_active-Waits : All (Waits w.jobs) (list_active w)
  unfolding list_active
  list_active-Waits = sort_jobs-All (Waits w.jobs) (keep active (Dict.values w.jobs)) (
      All-mono (λ job. Stands w.jobs job × (active job ≡ true)) (Waits w.jobs)
        (λ job h. (h.0.0, h.0.1, h.1)) (keep active (Dict.values w.jobs))
        (keep-All (Stands w.jobs) active (Dict.values w.jobs)
          (values-Stands w.jobs c.entries c.distinct)))

  pub list_active-Different : Different (list_active w)
  unfolding list_active
  list_active-Different =
      sort_jobs-Different (keep active (Dict.values w.jobs))
        (keep-Different active (Dict.values w.jobs) (values-Different w.jobs c.entries c.distinct))
