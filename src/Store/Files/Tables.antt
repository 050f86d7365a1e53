-- ===== src/Store/Files/Tables.antt =====
-- What the job tables of the stores keep when they are filtered: distinct identifiers and stems.
use earth2_sandbox.Prelude.{
  String, Bool, ◌≡◌, ◌≢◌, refl, sym, ◌∙◌, none, List, [], ◌∷◌, All, All-mono, keep, inl, inr,
  Bool-cases, eq_iff, ◌==◌, arith,
}
use earth2_sandbox.Prelude.Dict
use earth2_sandbox.Prelude.Dict.{Dict}
use earth2_sandbox.Prelude.Dict.Entries.{Entries, Distinct}
use earth2_sandbox.Jobs.{ForecastJob}
use earth2_sandbox.Jobs.Forecast.{ForecastSummary}
use earth2_sandbox.Store.Sorting.Canonical.{DistinctIds}
use earth2_sandbox.Store.Files.Laws.{stems, contains-stems}
use earth2_sandbox.Store.Files.Deletion.{dropped, Nodup}
use earth2_sandbox.Store.Files.Holding.{Named}

abbrev Fresh : String → ForecastJob → Type 0
Fresh k job = job.id ≢ k

absent_ids :
    (Sound : ForecastSummary → Type 0) (jobs : Dict ForecastJob) (k : String)
    → Entries (Named Sound) jobs
    → Dict.get jobs k ≡ none
    → All (Fresh k) (Dict.values jobs)
unfolding Dict.get Dict.values
absent_ids Sound [] k h a = tt
absent_ids Sound ((j, job) ∷ jobs) k h a = elim (Bool-cases (j == k)) [
  | inl here ↦ absurd (ground (arith, here, a))
  | inr other ↦ (
    λ e. ground (arith, other, eq_iff j k, h.0.0, e),
    absent_ids Sound jobs k h.1 (ground (arith, other, a)),
  )
]

pub values-DistinctIds :
    (Sound : ForecastSummary → Type 0) (jobs : Dict ForecastJob)
    → Entries (Named Sound) jobs
    → Distinct jobs
    → DistinctIds (Dict.values jobs)
unfolding Dict.values
values-DistinctIds Sound [] h d = tt
values-DistinctIds Sound ((k, job) ∷ jobs) h d = (
  All-mono (Fresh k) (λ b. job.id ≢ b.id) (λ b fresh e. fresh (sym e ∙ h.0.0)) (Dict.values jobs)
      (absent_ids Sound jobs k h.1 d.0),
  values-DistinctIds Sound jobs h.1 d.1,
)

keep-All-any {κ} :
    (P : ForecastJob → Type κ) (test : ForecastJob → Bool) (jobs : List ForecastJob)
    → All P jobs
    → All P (keep test jobs)
keep-All-any P test [] h = tt
keep-All-any P test (a ∷ jobs) h = elim (Bool-cases (test a)) [
  | inl kept ↦ rw (kept, keep) (h.0, keep-All-any P test jobs h.1)
  | inr dropped ↦ rw (dropped, keep) (keep-All-any P test jobs h.1)
]

pub keep-DistinctIds :
    (test : ForecastJob → Bool) (jobs : List ForecastJob)
    → DistinctIds jobs
    → DistinctIds (keep test jobs)
keep-DistinctIds test [] h = tt
keep-DistinctIds test (a ∷ jobs) h = elim (Bool-cases (test a)) [
  | inl kept ↦
      rw (kept, keep)
        (keep-All-any (λ b. a.id ≢ b.id) test jobs h.0, keep-DistinctIds test jobs h.1)
  | inr dropped ↦ rw (dropped, keep) (keep-DistinctIds test jobs h.1)
]

pub stems-Nodup : (jobs : Dict ForecastJob) → Distinct jobs → Nodup (stems jobs)
stems-Nodup [] h = tt
stems-Nodup ((k, job) ∷ jobs) h = (contains-stems jobs k ∙ rw h.0 refl, stems-Nodup jobs h.1)

pub dropped-Entries {κ} :
    (P : String → ForecastJob → Type κ) (test : String → Bool) (jobs : Dict ForecastJob)
    → Entries P jobs
    → Entries P (dropped test jobs)
dropped-Entries P test [] h = tt
dropped-Entries P test ((k, job) ∷ jobs) h = elim (Bool-cases (test k)) [
  | inl gone ↦ rw (gone, dropped) (dropped-Entries P test jobs h.1)
  | inr left ↦ rw (left, dropped) (h.0, dropped-Entries P test jobs h.1)
]

dropped-none :
    (test : String → Bool) (jobs : Dict ForecastJob) (k : String)
    → Dict.get jobs k ≡ none
    → Dict.get (dropped test jobs) k ≡ none
unfolding Dict.get
dropped-none test [] k h = h
dropped-none test ((j, job) ∷ jobs) k h = ground (arith, h, dropped-none test jobs k)

pub dropped-Distinct :
    (test : String → Bool) (jobs : Dict ForecastJob) → Distinct jobs → Distinct (dropped test jobs)
dropped-Distinct test [] h = tt
dropped-Distinct test ((k, job) ∷ jobs) h = elim (Bool-cases (test k)) [
  | inl gone ↦ rw (gone, dropped) (dropped-Distinct test jobs h.1)
  | inr left ↦ rw (left, dropped) (dropped-none test jobs k h.0, dropped-Distinct test jobs h.1)
]
