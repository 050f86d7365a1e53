-- ===== src/Queries.antt =====
-- src/earth2_sandbox/application/queries: the use cases that read jobs.
use earth2_sandbox.Prelude.{ℕ, String, Option, List, map, length}
use earth2_sandbox.Domain.Status.{ForecastJobStatus}
use earth2_sandbox.Jobs.{
  ForecastJob, ForecastJobListResponse, ForecastJobPollResponse, ForecastJobSummary,
}
use earth2_sandbox.Jobs.View.{with_job_links, to_job_summary, to_job_poll_response}
use earth2_sandbox.World.{Env}
use earth2_sandbox.Tasks.{Task, return, get, list_recent, ◌>>=◌}

unfoldable pub get_forecast_job : Env → String → Task ForecastJob
get_forecast_job env job_id = do job ← get job_id; return (with_job_links env.float_text job)

unfoldable pub poll_forecast_job : Env → String → Task ForecastJobPollResponse
poll_forecast_job env job_id = do
  job ← get job_id
  return (to_job_poll_response (with_job_links env.float_text job))

unfoldable pub list_forecast_jobs :
    Env → ℕ → Option ForecastJobStatus → Task ForecastJobListResponse
list_forecast_jobs env limit status = list_recent limit status λ jobs.
    let summaries : List ForecastJobSummary =
      map (λ job. to_job_summary (with_job_links env.float_text job)) jobs in
    return (record { count = length summaries; jobs = summaries })
