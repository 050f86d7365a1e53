-- ===== src/Store/Memory/Invariant.antt =====
-- Every method of the in-memory store keeps the table consistent: each job is well formed and
-- stands under its own identifier, and no identifier stands twice.
use earth2_sandbox.Prelude.{
  ℕ, ◌≡◌, refl, subst, sym, String, true, Option, none, some, List, [], ◌∷◌, All, keep-All,
  take-All, All-mono, inl, inr, Bool-cases, Option-cases, arith,
}
use earth2_sandbox.Prelude.Dict
use earth2_sandbox.Prelude.Dict.{Dict}
use earth2_sandbox.Prelude.Dict.Entries.{
  Entries, Distinct, get-Entries, put-Entries, put-Distinct, remove-Entries, remove-Distinct,
}
use earth2_sandbox.Domain.Float.{Float}
use earth2_sandbox.Domain.Policies.{Datetime}
use earth2_sandbox.Domain.Status.{
  ForecastJobStatus, queued, is_in, active_job_statuses, is_active_job_status,
}
use earth2_sandbox.Domain.Uuid.{parse_uuid}
use earth2_sandbox.Domain.Uuid.Canonical.{parse_uuid-canonical}
use earth2_sandbox.Outcome.{Result, ok, err, Error, not_found}
use earth2_sandbox.Jobs.{ForecastJob}
use earth2_sandbox.Jobs.Wellformed.{IsWellformed}
use earth2_sandbox.World.{Env, World, ◌>>=◌, continue}
use earth2_sandbox.Store.Helpers.{build_new_job, sort_and_filter_jobs, has_status}
use earth2_sandbox.Store.Sorting.{sort_jobs-All}
use earth2_sandbox.Store.Memory.Laws.{
  or_missing, stamped, conditional_write, get_lem, get_invalid, update_if_status_lem,
}
use earth2_sandbox.Store.Memory.{
  save, create, get, update_if_status, list_recent, list_active, delete_all, expired_ids,
  delete_older_than,
}

abbrev pub Entry : String → ForecastJob → Type 0
Entry k job = (job.id ≡ k) × IsWellformed job

pub record IsConsistent (jobs : Dict ForecastJob) : Type 0 where
  pub entries : Entries Entry jobs
  pub distinct : Distinct jobs

abbrev pub IsActive : ForecastJob → Type 0
IsActive job = IsWellformed job × (is_active_job_status job.status ≡ true)

-- A job that a method returns is well formed.
abbrev pub Good : Result ForecastJob → Type 0
Good (ok job) = IsWellformed job
Good (err e) = Unit

pub put-IsConsistent :
    (jobs : Dict ForecastJob) (job : ForecastJob)
    → IsConsistent jobs
    → IsWellformed job
    → IsConsistent (Dict.put jobs job.id job)
put-IsConsistent jobs job c g = record {
  entries = put-Entries Entry jobs job.id job c.entries (refl, g);
  distinct = put-Distinct jobs job.id job c.distinct;
}

module _ (env : Env) (latitude longitude : Float) (parent : Option String) (attempt : ℕ)
    (w : World) where
  -- A new job is well formed, and making it leaves the table alone.
  pub build_new_job_lem :
      let (r, w') = build_new_job env latitude longitude parent attempt w in
      Good r × (w'.jobs ≡ w.jobs)
  unfolding build_new_job
  build_new_job_lem = elim (Option-cases (parse_uuid (env.new_id w.ids_made))) [
    | inl bad ↦ ground arith
    | inr (id, good) ↦ ground (arith, parse_uuid-canonical (env.new_id w.ids_made) id good)
  ]

  -- It is queued, under the canonical form of the next identifier.
  pub build_new_job-queued :
      (job : ForecastJob)
      → (build_new_job env latitude longitude parent attempt w).0 ≡ ok job
      → (parse_uuid (env.new_id w.ids_made) ≡ some job.id) × (job.status ≡ queued)
  unfolding build_new_job
  build_new_job-queued job h = elim (Option-cases (parse_uuid (env.new_id w.ids_made))) [
    | inl bad ↦ ground arith
    | inr (id, good) ↦ ground arith
  ]

  pub create-IsConsistent :
      IsConsistent w.jobs
      → let (r, w') = create env latitude longitude parent attempt w in
        Good r × IsConsistent w'.jobs
  unfolding create
  create-IsConsistent c =
      go (build_new_job env latitude longitude parent attempt w) build_new_job_lem
    where
      go :
          (b : Result ForecastJob × World)
          → Good b.0 × (b.1.jobs ≡ w.jobs)
          → let (r, w') = continue b.0 (λ job. save job >>= λ _ v. (ok job, v)) b.1 in
            Good r × IsConsistent w'.jobs
      go (ok job, v) h = (h.0, put-IsConsistent v.jobs job (subst IsConsistent (sym h.1) c) h.0)
      go (err e, v) h = (tt, subst IsConsistent (sym h.1) c)

module _ (w : World) (c : IsConsistent w.jobs) where
  find_lem : (key : String) (job : ForecastJob) → Dict.get w.jobs key ≡ some job → IsWellformed job
  find_lem key job e = (get-Entries Entry w.jobs key job c.entries e).1

  or_missing-Good :
      (key : String) (e : Error) (o : Option ForecastJob)
      → Dict.get w.jobs key ≡ o
      → Good (or_missing e o)
  or_missing-Good key e none h = tt
  or_missing-Good key e (some job) h = find_lem key job h

  -- `get` returns well-formed jobs and changes nothing.
  pub get-IsConsistent : (job_id : String) → let (r, w') = get job_id w in Good r × (w' ≡ w)
  get-IsConsistent job_id = elim (Option-cases (parse_uuid job_id)) [
    | inl bad ↦ rw (get_invalid job_id w bad) (tt, refl)
    | inr (key, good) ↦
        rw (get_lem job_id key w good)
          (or_missing-Good key (not_found job_id) (Dict.get w.jobs key) refl, refl)
  ]

  module _ (env : Env) (job : ForecastJob) (expected : List ForecastJobStatus)
      (g : IsWellformed job) where
    stamped-IsWellformed : IsWellformed (stamped env w job)
    stamped-IsWellformed = record {
      canonical = g.canonical;
      latitude = g.latitude;
      longitude = g.longitude;
      attempted = g.attempted;
      agrees = g.agrees;
      told = g.told;
    }

    conditional_write-IsConsistent :
        (o : Option ForecastJob)
        → let (r, w') = conditional_write env job expected w o in Good r × IsConsistent w'.jobs
    conditional_write-IsConsistent none = (tt, c)
    conditional_write-IsConsistent (some current) =
        elim (Bool-cases (is_in current.status expected)) [
          | inl allowed ↦
              rw (allowed, conditional_write)
                (
                  stamped-IsWellformed,
                  put-IsConsistent w.jobs (stamped env w job) c stamped-IsWellformed,
                )
          | inr refused ↦ rw (refused, conditional_write) (tt, c)
        ]

    -- A well-formed job can be written in place of another.
    pub update_if_status-IsConsistent :
        let (r, w') = update_if_status env job expected w in Good r × IsConsistent w'.jobs
    update_if_status-IsConsistent =
        rw (update_if_status_lem env job expected w g.canonical)
          (conditional_write-IsConsistent (Dict.get w.jobs job.id))

  values-IsWellformed : (d : Dict ForecastJob) → Entries Entry d → All IsWellformed (Dict.values d)
  unfolding Dict.values
  values-IsWellformed [] h = tt
  values-IsWellformed ((k, job) ∷ d) h = (h.0.1, values-IsWellformed d h.1)

  pub list_active-IsActive : All IsActive (list_active w)
  unfolding list_active
  list_active-IsActive = sort_jobs-All IsActive _ (
      keep-All IsWellformed (λ job. is_in job.status active_job_statuses) _
        (values-IsWellformed w.jobs c.entries))

  pub list_recent-IsWellformed :
      (limit : ℕ) (status : Option ForecastJobStatus)
      → All IsWellformed (list_recent limit status w)
  unfolding list_recent sort_and_filter_jobs
  list_recent-IsWellformed limit status = take-All IsWellformed limit _ (
      sort_jobs-All IsWellformed _ (
        All-mono _ IsWellformed (λ job h. h.0) _
          (keep-All IsWellformed (has_status status) _ (values-IsWellformed w.jobs c.entries))))

delete_all-IsConsistent :
    (ids : List String) (jobs : Dict ForecastJob)
    → IsConsistent jobs
    → IsConsistent (delete_all ids jobs).1
unfolding delete_all
delete_all-IsConsistent [] jobs c = c
delete_all-IsConsistent (id ∷ ids) jobs c = elim (Option-cases (Dict.get jobs id)) [
  | inl missing ↦ rw (missing, delete_all) c
  | inr (job, found) ↦
      rw (found, delete_all)
        (delete_all-IsConsistent ids (Dict.remove jobs id) (record {
          entries = remove-Entries Entry jobs id c.entries;
          distinct = remove-Distinct jobs id c.distinct;
        }))
]

pub delete_older_than-IsConsistent :
    (cutoff : Datetime) (statuses : List ForecastJobStatus) (w : World)
    → IsConsistent w.jobs
    → IsConsistent (delete_older_than cutoff statuses w).1.jobs
unfolding delete_older_than
delete_older_than-IsConsistent cutoff statuses w c =
    ground (arith, delete_all-IsConsistent (expired_ids cutoff statuses w) w.jobs c)
