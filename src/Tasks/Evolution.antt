-- ===== src/Tasks/Evolution.antt =====
-- What one call of a safe task does to the job at any identifier.
use earth2_sandbox.Prelude.{
  ℕ, ◌≡◌, refl, ap, sym, ◌∙◌, true, String, Option, none, some, List, All, inl, inr, Bool-cases,
  ◌==◌, eq_iff, arith,
}
use earth2_sandbox.Prelude.Dict
use earth2_sandbox.Prelude.Dict.{Dict, get-put}
use earth2_sandbox.Domain.Float.{Float}
use earth2_sandbox.Domain.Policies.{Datetime}
use earth2_sandbox.Domain.Status.{
  ForecastJobStatus, queued, is_in, All-is_in, is_terminal_job_status,
}
use earth2_sandbox.Domain.Uuid.{parse_uuid}
use earth2_sandbox.Outcome.{Result, ok, err}
use earth2_sandbox.Jobs.{ForecastJob}
use earth2_sandbox.Jobs.Lifecycle.{legal, Evolves, unchanged, created, moved, deleted}
use earth2_sandbox.World.{Env, World, ◌>>=◌, continue}
use earth2_sandbox.Store.Helpers.{build_new_job}
use earth2_sandbox.Store.Memory
use earth2_sandbox.Store.Memory.{save, expired}
use earth2_sandbox.Store.Memory.Deletion.{remaining, delete_older_than_lem}
use earth2_sandbox.Store.Memory.Invariant.{
  IsConsistent, build_new_job_lem, build_new_job-queued, get-IsConsistent,
}
use earth2_sandbox.Store.Memory.Laws.{stamped, conditional_write, update_if_status_lem}
use earth2_sandbox.Tasks.{Task, create, get, update_if_status, delete_older_than, step, increment}
use earth2_sandbox.Tasks.Safe.{Safe, AllTerminal}

-- The generator's next identifier is this one.
abbrev pub IsNext : Env → World → String → Type 0
IsNext env w key = parse_uuid (env.new_id w.ids_made) ≡ some key

-- The next identifier is not that of a stored job.
abbrev pub IsFresh : Env → World → String → Type 0
IsFresh env w key = IsNext env w key → Dict.get w.jobs key ≡ none

terminal_of_expired :
    (cutoff : Datetime) (statuses : List ForecastJobStatus) (job : ForecastJob)
    → AllTerminal statuses
    → expired cutoff statuses job ≡ true
    → is_terminal_job_status job.status ≡ true
unfolding expired
terminal_of_expired cutoff statuses job a h = elim (Bool-cases (is_in job.status statuses)) [
  | inl here ↦ All-is_in (λ s. is_terminal_job_status s ≡ true) job.status statuses a here
  | inr out ↦ absurd (ground arith)
]

remaining-Evolves :
    (New : Type 0) (cutoff : Datetime) (statuses : List ForecastJobStatus) (o : Option ForecastJob)
    → AllTerminal statuses
    → Evolves New o (remaining cutoff statuses o)
remaining-Evolves New cutoff statuses none a = unchanged refl
remaining-Evolves New cutoff statuses (some job) a =
    elim (Bool-cases (expired cutoff statuses job)) [
      | inl gone ↦
          rw (gone, remaining)
            (deleted job refl refl (terminal_of_expired cutoff statuses job a gone))
      | inr kept ↦ rw (kept, remaining) (unchanged refl)
    ]

module _ (env : Env) (w : World) (key : String) where
  put-Evolves :
      (job : ForecastJob)
      → (job.id ≡ key → Evolves (IsNext env w key) (Dict.get w.jobs key) (some job))
      → Evolves (IsNext env w key) (Dict.get w.jobs key) (Dict.get (Dict.put w.jobs job.id job) key)
  put-Evolves job e = elim (Bool-cases (job.id == key)) [
    | inl here ↦ rw (get-put, here) (e ((eq_iff job.id key).0 here))
    | inr other ↦ unchanged (rw (get-put, other))
  ]

  conditional_write-Evolves :
      (job : ForecastJob) (expected : List ForecastJobStatus) (o : Option ForecastJob)
      → All (λ s. legal s job.status ≡ true) expected
      → Dict.get w.jobs job.id ≡ o
      → Evolves
          (IsNext env w key)
          (Dict.get w.jobs key)
          (Dict.get (conditional_write env job expected w o).1.jobs key)
  conditional_write-Evolves job expected none l h = unchanged refl
  conditional_write-Evolves job expected (some current) l h =
      elim (Bool-cases (is_in current.status expected)) [
        | inl allowed ↦
            rw (allowed, conditional_write)
              (put-Evolves (stamped env w job) λ here.
                moved current (stamped env w job) (ap (Dict.get w.jobs) (sym here) ∙ h) refl
                  (All-is_in (λ s. legal s job.status ≡ true) current.status expected l allowed))
        | inr refused ↦ rw (refused, conditional_write) (unchanged refl)
      ]

  create-Evolves :
      (latitude longitude : Float) (parent : Option String) (attempt : ℕ)
      → IsFresh env w key
      → Evolves
          (IsNext env w key)
          (Dict.get w.jobs key)
          (Dict.get (Memory.create env latitude longitude parent attempt w).1.jobs key)
  unfolding Memory.create
  create-Evolves latitude longitude parent attempt fresh =
      go (build_new_job env latitude longitude parent attempt w)
        (build_new_job_lem env latitude longitude parent attempt w).1
        (build_new_job-queued env latitude longitude parent attempt w)
    where
      go :
          (b : Result ForecastJob × World)
          → b.1.jobs ≡ w.jobs
          → ((job : ForecastJob)
              → b.0 ≡ ok job
              → (parse_uuid (env.new_id w.ids_made) ≡ some job.id) × (job.status ≡ queued))
          → Evolves
              (IsNext env w key)
              (Dict.get w.jobs key)
              (Dict.get (continue b.0 (λ job. save job >>= λ _ v. (ok job, v)) b.1).1.jobs key)
      go (ok job, v) same new =
          let (id, start) = new job refl in
          rw same (
            put-Evolves job
              λ here. let next = id ∙ ap some here in created job next (fresh next) refl start)
      go (err e, v) same new = unchanged (ap (λ d. Dict.get d key) same)

-- One call of a safe task makes each job take a legal move at most. It creates queued jobs under
-- new identifiers, and deletes only jobs that have come to an end.
module _ {A : Type 0} (env : Env) where
  pub step-Evolves :
      (t : Task A) (w : World) (key : String)
      → Safe t
      → IsConsistent w.jobs
      → IsFresh env w key
      → Evolves (IsNext env w key) (Dict.get w.jobs key) (Dict.get (step env t w).1.jobs key)
  unfolding step increment
  step-Evolves (create latitude longitude parent attempt k) w key s c f =
      create-Evolves env w key latitude longitude parent attempt f
  step-Evolves (get job_id k) w key s c f = rw (get-IsConsistent w c job_id).1 (unchanged refl)
  step-Evolves (update_if_status job expected k) w key s c f =
      rw (update_if_status_lem env job expected w s.0.0.canonical)
        (conditional_write-Evolves env w key job expected (Dict.get w.jobs job.id) s.0.1 refl)
  step-Evolves (delete_older_than cutoff statuses k) w key s c f =
      rw ((delete_older_than_lem cutoff statuses w c).1 key)
        (remaining-Evolves (IsNext env w key) cutoff statuses (Dict.get w.jobs key) s.0)
  step-Evolves _ w key s c f = unchanged refl
