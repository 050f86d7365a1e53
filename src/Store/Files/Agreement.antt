-- ===== src/Store/Files/Agreement.antt =====
-- Each method of src/earth2_sandbox/infrastructure/storage/file_job_store.py against the same method of
-- memory_job_store.py, on a directory that holds the jobs of the table.
use earth2_sandbox.Prelude.{
  ℕ, String, ◌≡◌, refl, ap, subst, ◌∙◌, Option, none, some, List, ◌⊎◌, inl, inr, Option-cases,
  arith,
}
use earth2_sandbox.Prelude.Dict
use earth2_sandbox.Prelude.Dict.{Dict, get-put_self}
use earth2_sandbox.Prelude.Dict.Entries.{get-Entries}
use earth2_sandbox.Domain.Float.{Float}
use earth2_sandbox.Domain.Status.{ForecastJobStatus}
use earth2_sandbox.Domain.Uuid.{parse_uuid}
use earth2_sandbox.Domain.Uuid.Canonical.{parse_uuid-canonical}
use earth2_sandbox.Outcome.{Result, ok, err, Error, not_found}
use earth2_sandbox.Jobs.{ForecastJob}
use earth2_sandbox.Jobs.Forecast.{ForecastSummary}
use earth2_sandbox.Jobs.Wellformed.{IsWellformed}
use earth2_sandbox.World.{Env, World}
use earth2_sandbox.Store.Helpers.{
  build_new_job, prepare_job_for_update, normalize_job_id, ensure_transition_allowed,
}
use earth2_sandbox.Store.Memory
use earth2_sandbox.Store.Memory.Laws.{get_lem, get_invalid, ticked}
use earth2_sandbox.Store.Memory.Invariant.{Good, build_new_job_lem, build_new_job-queued}
use earth2_sandbox.Store.Files.{FileSystem, Machine, raised, create, get, update_if_status, read}
use earth2_sandbox.Store.Files.Laws.{Reads, dump_of, get-dumped, build_new_job-relabelled}
use earth2_sandbox.Store.Files.Holding.{
  IsStorable, Named, as_memory, Holds, Agree, write_lem, put-Holds,
}

build_new_job-forecast :
    (env : Env) (latitude longitude : Float) (parent : Option String) (attempt : ℕ) (w : World)
    (job : ForecastJob)
    → (build_new_job env latitude longitude parent attempt w).0 ≡ ok job
    → job.forecast ≡ none
unfolding build_new_job
build_new_job-forecast env latitude longitude parent attempt w job h = ground (arith, h)

build_new_job-IsStorable :
    (Sound : ForecastSummary → Type 0) (env : Env) (latitude longitude : Float)
    (parent : Option String) (attempt : ℕ) (w : World) (job : ForecastJob)
    → (build_new_job env latitude longitude parent attempt w).0 ≡ ok job
    → IsStorable Sound job
build_new_job-IsStorable Sound env latitude longitude parent attempt w job h =
    let good : IsWellformed job =
      subst Good h (build_new_job_lem env latitude longitude parent attempt w).0 in
    (
      good.latitude,
      good.longitude,
      good.attempted,
      rw (build_new_job-forecast env latitude longitude parent attempt w job h) tt,
    )

abbrev AttemptCasesGoal : {A : Type 0} → Result A × World → Type 0
AttemptCasesGoal {A} attempt =
    ((e : Error) × (w : World) × (attempt ≡ (err e, w)))
    ⊎ ((a : A) × (w : World) × (attempt ≡ (ok a, w)))

attempt_cases : {A : Type 0} (attempt : Result A × World) → AttemptCasesGoal attempt
attempt_cases (err e, w) = inl (e, w, refl)
attempt_cases (ok a, w) = inr (a, w, refl)

result_cases : (r : Result (Unit {0})) → ((e : Error) × (r ≡ err e)) ⊎ (r ≡ ok tt)
result_cases (err e) = inl (e, refl)
result_cases (ok tt) = inr refl

abbrev prepared : Env → ForecastJob → String → World → ForecastJob
prepared env job k w = record job { id = k; updated_at = env.clock w.clock_reads }

module _ {T : Type 0} (disk : FileSystem T) (Sound : ForecastSummary → Type 0)
    (reads : (job : ForecastJob) → IsStorable Sound job → Reads disk job) (m : Machine T)
    (jobs : Dict ForecastJob) (holds : Holds disk Sound m.root jobs) where
  found_text : (k : String) → Dict.get m.root.files k ≡ dump_of disk (Dict.get jobs k)
  found_text k = ap (λ d. Dict.get d k) holds.files ∙ get-dumped disk jobs k

  read_back : (k : String) (job : ForecastJob) → Dict.get jobs k ≡ some job → Reads disk job
  read_back k job found = reads job (get-Entries (Named Sound) jobs k job holds.named found).2

  get_known :
      (job_id k : String)
      → parse_uuid job_id ≡ some k
      → get disk job_id m ≡ read disk k (raised (not_found job_id)) m
  unfolding get
  get_known job_id k h = ground (arith, h)

  get_unknown :
      (job_id : String)
      → parse_uuid job_id ≡ none
      → get disk job_id m ≡ (raised (not_found job_id), m)
  unfolding get
  get_unknown job_id h = ground (arith, h)

  pub get-Agree :
      (job_id : String)
      → Agree disk Sound (get disk job_id m) (Memory.get job_id (as_memory m jobs))
  get-Agree job_id = elim (Option-cases (parse_uuid job_id)) [
    | inl bad ↦
        rw (get_invalid job_id (as_memory m jobs) bad, get_unknown job_id bad)
          (refl, (jobs, refl, holds))
    | inr (k, good) ↦ elim (Option-cases (Dict.get jobs k)) [
      | inl missing ↦
          rw
            (
              get_lem job_id k (as_memory m jobs) good,
              get_known job_id k good,
              read,
              found_text k,
              missing,
            )
            (refl, (jobs, refl, holds))
      | inr (job, found) ↦
          rw
            (
              get_lem job_id k (as_memory m jobs) good,
              get_known job_id k good,
              read,
              found_text k,
              found,
              read_back k job found,
            )
            (refl, (jobs, refl, holds))
    ]
  ]

  pub create-Agree :
      (env : Env) (latitude longitude : Float) (parent : Option String) (attempt : ℕ)
      → Agree disk Sound
          (create disk env latitude longitude parent attempt m)
          (Memory.create env latitude longitude parent attempt (as_memory m jobs))
  unfolding create Memory.create
  create-Agree env latitude longitude parent attempt =
      elim (attempt_cases (build_new_job env latitude longitude parent attempt m.world)) [
        | inl (e, w, failed) ↦
            rw (build_new_job-relabelled env latitude longitude parent attempt m.world jobs, failed)
              (refl, (jobs, refl, holds))
        | inr (job, w, built) ↦
            let canonical : parse_uuid job.id ≡ some job.id =
              parse_uuid-canonical (env.new_id m.world.ids_made) job.id
                (build_new_job-queued env latitude longitude parent attempt m.world job
                  (ap (λ r. r.0) built)).0 in
            let storable =
              build_new_job-IsStorable Sound env latitude longitude parent attempt m.world job
                (ap (λ r. r.0) built) in
            rw
              (
                build_new_job-relabelled env latitude longitude parent attempt m.world jobs,
                built,
                write_lem disk Sound job (record m { world = w }) canonical,
              )
              (
                refl,
                (
                  Dict.put jobs job.id job,
                  refl,
                  put-Holds disk Sound job m.root jobs canonical storable holds,
                ),
              )
      ]

  normalize_known : (k k' : String) → parse_uuid k ≡ some k' → normalize_job_id k ≡ ok k'
  unfolding normalize_job_id
  normalize_known k k' h = ground (arith, h)

  prepare_known :
      (env : Env) (job : ForecastJob) (k : String) (w : World)
      → parse_uuid job.id ≡ some k
      → prepare_job_for_update env job w ≡ (ok (prepared env job k w), ticked w)
  unfolding prepare_job_for_update
  prepare_known env job k w h = ground (arith, h)

  prepare_unknown :
      (env : Env) (job : ForecastJob) (w : World)
      → parse_uuid job.id ≡ none
      → prepare_job_for_update env job w ≡ (err (not_found job.id), w)
  unfolding prepare_job_for_update
  prepare_unknown env job w h = ground (arith, h)

  pub update_if_status-Agree :
      (env : Env) (job : ForecastJob) (expected : List ForecastJobStatus)
      → IsStorable Sound job
      → Agree disk Sound
          (update_if_status disk env job expected m)
          (Memory.update_if_status env job expected (as_memory m jobs))
  unfolding update_if_status Memory.update_if_status
  update_if_status-Agree env job expected storable = elim (Option-cases (parse_uuid job.id)) [
    | inl bad ↦
        rw (prepare_unknown env job m.world bad, prepare_unknown env job (as_memory m jobs) bad)
          (refl, (jobs, refl, holds))
    | inr (k, good) ↦
        let canonical = parse_uuid-canonical job.id k good in
        elim (Option-cases (Dict.get jobs k)) [
          | inl missing ↦
              rw
                (
                  prepare_known env job k m.world good,
                  prepare_known env job k (as_memory m jobs) good,
                  normalize_known k k canonical,
                  found_text k,
                  missing,
                )
                (refl, (jobs, refl, holds))
          | inr (current, found) ↦
              elim (result_cases (ensure_transition_allowed current expected)) [
                | inl (e, refused) ↦
                    rw
                      (
                        prepare_known env job k m.world good,
                        prepare_known env job k (as_memory m jobs) good,
                        normalize_known k k canonical,
                        found_text k,
                        found,
                        read_back k current found,
                        refused,
                      )
                      (refl, (jobs, refl, holds))
                | inr allowed ↦
                    let next_job = prepared env job k m.world in
                    rw
                      (
                        prepare_known env job k m.world good,
                        prepare_known env job k (as_memory m jobs) good,
                        normalize_known k k canonical,
                        found_text k,
                        found,
                        read_back k current found,
                        allowed,
                        write_lem disk Sound next_job (record m { world = ticked m.world })
                            canonical,
                      )
                      (
                        refl,
                        (
                          Dict.put jobs k next_job,
                          refl,
                          put-Holds disk Sound next_job m.root jobs canonical storable holds,
                        ),
                      )
              ]
        ]
  ]
