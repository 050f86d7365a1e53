-- ===== src/Routes/Requests.antt =====
-- The requests to the job routes of src/earth2_sandbox/api/http/v1/routers/forecast_jobs.py, how they
-- are served, and what a client is told by the jobs that are stored.
use earth2_sandbox.Prelude.{
  ℕ, ◌++◌, ◌≡◌, String, ◌&&◌, Option, none, some, List, [], ◌∷◌, leb, if◌then◌else◌,
}
use earth2_sandbox.Prelude.Dict
use earth2_sandbox.Domain.Float.{is_within}
use earth2_sandbox.Domain.Status.{ForecastJobStatus, is_terminal_job_status}
use earth2_sandbox.Domain.Uuid.{parse_uuid}
use earth2_sandbox.Jobs.{ForecastJob}
use earth2_sandbox.World.{Env, World}
use earth2_sandbox.Routes.{
  ForecastJobCreateRequest, ForecastJobCleanupRequest, Reply, status_code_of, create_forecast_job,
  list_jobs, cleanup_jobs, fits, get_job, poll_job, cancel_job, retry_job,
}

-- A request to one of the routes.
pub data JobsRequest : Type 0 where
  create : ForecastJobCreateRequest → JobsRequest
  list : (limit : ℕ) (job_status : Option ForecastJobStatus) → JobsRequest
  cleanup : Option ForecastJobCleanupRequest → JobsRequest
  get poll cancel retry : (job_id : String) → JobsRequest

abbrev pub coded : {A : Type 0} → Reply A × World → ℕ × World
coded (reply, w) = (status_code_of reply, w)

-- the status code of the response, and the world afterwards
unfoldable pub handle : Env → ℕ → JobsRequest → World → ℕ × World
handle env retention (create request) w = coded (create_forecast_job env request w)
handle env retention (list limit job_status) w = coded (list_jobs env limit job_status w)
handle env retention (cleanup request) w = coded (cleanup_jobs env retention request w)
handle env retention (get job_id) w = coded (get_job env job_id w)
handle env retention (poll job_id) w = coded (poll_job env job_id w)
handle env retention (cancel job_id) w = coded (cancel_job env job_id w)
handle env retention (retry job_id) w = coded (retry_job env job_id w)

-- the job that an identifier, however it is spelled, stands for
abbrev pub stored_at : Option String → World → Option ForecastJob
stored_at none w = none
stored_at (some key) w = Dict.get w.jobs key

abbrev pub stored : World → String → Option ForecastJob
stored w job_id = stored_at (parse_uuid job_id) w

abbrev pub if_stored : Option ForecastJob → (ForecastJobStatus → ℕ) → ℕ
if_stored none code = 404
if_stored (some job) code = code job.status

-- What a client is told, by the request and the jobs that are stored.
abbrev pub documented_status : JobsRequest → World → ℕ
documented_status (create request) w =
    if is_within 90 request.latitude && is_within 180 request.longitude then 202 else 422
documented_status (list limit job_status) w = if leb 1 limit && leb limit 100 then 200 else 422
documented_status (cleanup request) w = if fits request then 200 else 422
documented_status (get job_id) w = if_stored (stored w job_id) (λ s. 200)
documented_status (poll job_id) w = if_stored (stored w job_id) (λ s. 200)
documented_status (cancel job_id) w =
    if_stored (stored w job_id) (λ s. if is_terminal_job_status s then 409 else 200)
documented_status (retry job_id) w =
    if_stored (stored w job_id) (λ s. if is_terminal_job_status s then 202 else 409)

-- the identifiers that the worker has been given: one more exactly with a 202
abbrev pub handed_over : ℕ → String → List String → List String
handed_over status_code id enqueued =
    if leb 202 status_code && leb status_code 202 then enqueued ++ id ∷ [] else enqueued

-- As documented, with `id` for the new job.
abbrev pub Documented : ℕ × World → ℕ → String → World → Type 0
Documented (code, w') expected id w =
    (code ≡ expected) × (w'.enqueued ≡ handed_over expected id w.enqueued)
