-- ===== src/Service.antt =====
-- src/earth2_sandbox/services/jobs.py, with the command, query and recovery services that it passes
-- on to (application/services): the requests that it serves, each a task of its own.
pub mod Concurrent
use earth2_sandbox.Prelude.{ℕ, String, Option, List, [], ◌∷◌}
use earth2_sandbox.Domain.Float.{Float}
use earth2_sandbox.Domain.Status.{ForecastJobStatus}
use earth2_sandbox.World.{Env}
use earth2_sandbox.Tasks.Pool.{Running, running, Pool}
use earth2_sandbox.Commands.Submit.{submit_forecast_job}
use earth2_sandbox.Commands.Cancel.{cancel_forecast_job}
use earth2_sandbox.Commands.Retry.{retry_forecast_job}
use earth2_sandbox.Commands.Cleanup.{cleanup_forecast_jobs}
use earth2_sandbox.Commands.Run.{run_forecast_job}
use earth2_sandbox.Queries.{get_forecast_job, list_forecast_jobs, poll_forecast_job}
use earth2_sandbox.Recovery.{recover_interrupted_jobs}

pub record ForecastJobService : Type 0 where
  pub default_retention_hours : ℕ
  pub default_stale_timeout_seconds : ℕ

-- The methods of the service, with their arguments.
pub data Request : Type 0 where
  create_job : (latitude longitude : Float) → Request
  get_job poll_job cancel_job retry_job run_job : (job_id : String) → Request
  list_recent_jobs : (limit : ℕ) (status : Option ForecastJobStatus) → Request
  cleanup_jobs :
      (older_than_hours : Option ℕ) (statuses : Option (List ForecastJobStatus)) → Request
  recover_jobs : (stale_timeout_seconds : Option ℕ) → Request

module _ (env : Env) (service : ForecastJobService) where
  unfoldable pub serve : Request → Running
  serve (create_job latitude longitude) = running (submit_forecast_job env latitude longitude)
  serve (get_job job_id) = running (get_forecast_job env job_id)
  serve (poll_job job_id) = running (poll_forecast_job env job_id)
  serve (cancel_job job_id) = running (cancel_forecast_job env job_id)
  serve (retry_job job_id) = running (retry_forecast_job env job_id)
  serve (run_job job_id) = running (run_forecast_job env job_id)
  serve (list_recent_jobs limit status) = running (list_forecast_jobs env limit status)
  serve (cleanup_jobs older_than_hours statuses) =
      running (cleanup_forecast_jobs service.default_retention_hours older_than_hours statuses)
  serve (recover_jobs stale_timeout_seconds) =
      running (recover_interrupted_jobs service.default_stale_timeout_seconds stale_timeout_seconds)

  unfoldable pub serve_all : List Request → Pool
  unfolding serve
  serve_all [] = []
  serve_all (request ∷ requests) = serve request ∷ serve_all requests
