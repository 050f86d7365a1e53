-- ===== src/Store/Memory.antt =====
-- src/earth2_sandbox/infrastructure/storage/memory_job_store.py. Each method holds the store's lock
-- while it reads and writes the table, so it is one action of the world.
pub mod Laws
pub mod Invariant
pub mod Deletion
pub mod Creation
use earth2_sandbox.Prelude.{ℕ, Bool, String, Option, none, some, List, [], ◌∷◌, map, keep, length}
use earth2_sandbox.Prelude.Dict
use earth2_sandbox.Prelude.Dict.{Dict}
use earth2_sandbox.Domain.Float.{Float}
use earth2_sandbox.Domain.Policies.{Datetime, should_cleanup_job}
use earth2_sandbox.Domain.Status.{ForecastJobStatus, is_in, all_job_statuses, active_job_statuses}
use earth2_sandbox.Outcome.{Result, ok, err, Error, not_found, key_error}
use earth2_sandbox.Jobs.{ForecastJob}
use earth2_sandbox.World.{Env, World, Action, ◌>>=◌, lift, pure}
use earth2_sandbox.Store.Helpers.{
  build_new_job, normalize_job_id, prepare_job_for_update, ensure_transition_allowed, sort_jobs,
  sort_and_filter_jobs,
}

-- self._jobs[job.id] = job
abbrev pub save : ForecastJob → Action (Unit {0})
save job w = (ok tt, record w { jobs = Dict.put w.jobs job.id job })

-- self._jobs.get(key), and the error for a missing one
abbrev pub find : String → Error → Action ForecastJob
find key missing w = elim (Dict.get w.jobs key) [ none ↦ (err missing, w) | some job ↦ (ok job, w) ]

unfoldable pub create : Env → Float → Float → Option String → ℕ → Action ForecastJob
unfolding build_new_job Dict.put
create env latitude longitude parent_job_id attempt = do
  job ← build_new_job env latitude longitude parent_job_id attempt
  _ ← save job
  pure job

unfoldable pub get : String → Action ForecastJob
unfolding normalize_job_id Dict.get
get job_id = do
  normalized_job_id ← lift (normalize_job_id job_id)
  find normalized_job_id (not_found job_id)

unfoldable pub update_if_status : Env → ForecastJob → List ForecastJobStatus → Action ForecastJob
unfolding prepare_job_for_update ensure_transition_allowed Dict.get Dict.put
update_if_status env job expected_statuses = do
  next_job ← prepare_job_for_update env job
  current ← find next_job.id (not_found next_job.id)
  _ ← lift (ensure_transition_allowed current expected_statuses)
  _ ← save next_job
  pure next_job

unfoldable pub update : Env → ForecastJob → Action ForecastJob
unfolding update_if_status
update env job = update_if_status env job all_job_statuses

unfoldable pub list_recent : ℕ → Option ForecastJobStatus → World → List ForecastJob
unfolding sort_and_filter_jobs Dict.values
list_recent limit status w = sort_and_filter_jobs (Dict.values w.jobs) limit status

unfoldable pub list_active : World → List ForecastJob
unfolding sort_jobs Dict.values
list_active w = sort_jobs (keep (λ job. is_in job.status active_job_statuses) (Dict.values w.jobs))

-- for job_id in job_ids: del self._jobs[job_id]
unfoldable pub delete_all : List String → Dict ForecastJob → Result (Unit {0}) × Dict ForecastJob
unfolding Dict.get Dict.remove
delete_all [] jobs = (ok tt, jobs)
delete_all (job_id ∷ job_ids) jobs = elim (Dict.get jobs job_id) [
  | none ↦ (err (key_error job_id), jobs)
  | some _ ↦ delete_all job_ids (Dict.remove jobs job_id)
]

unfoldable pub expired : Datetime → List ForecastJobStatus → ForecastJob → Bool
unfolding should_cleanup_job
expired cutoff statuses job =
    should_cleanup_job job.status job.completed_at job.updated_at cutoff statuses

unfoldable pub delete_jobs : List String → Action (Unit {0})
unfolding delete_all
delete_jobs job_ids w = let (r, jobs) = delete_all job_ids w.jobs in (r, record w { jobs = jobs })

unfoldable pub expired_ids : Datetime → List ForecastJobStatus → World → List String
unfolding expired Dict.values
expired_ids cutoff statuses w =
    map (λ job. job.id) (keep (expired cutoff statuses) (Dict.values w.jobs))

unfoldable pub delete_older_than : Datetime → List ForecastJobStatus → Action ℕ
unfolding delete_jobs expired_ids
delete_older_than cutoff statuses w =
    let job_ids = expired_ids cutoff statuses w in
    (do _ ← delete_jobs job_ids; pure (length job_ids)) w
