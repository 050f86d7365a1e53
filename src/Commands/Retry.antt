-- ===== src/Commands/Retry.antt =====
-- src/earth2_sandbox/application/commands/retry_forecast_job.py
pub mod Outcome
use earth2_sandbox.Prelude.{◌+◌, String, some, not, if◌then◌else◌}
use earth2_sandbox.Domain.Status.{ForecastJobStatus, is_in, terminal_job_statuses}
use earth2_sandbox.Outcome.{Error, conflict, status_text, ◌⧺◌}
use earth2_sandbox.Jobs.{ForecastJob}
use earth2_sandbox.Jobs.View.{with_job_links}
use earth2_sandbox.World.{Env}
use earth2_sandbox.Tasks.{Task, return, raise, create, get, increment_forecast_job_event, ◌>>=◌}

abbrev pub cannot_retry : ForecastJobStatus → Error
cannot_retry status = conflict ("Cannot retry a " ⧺ status_text status ⧺ " forecast job.")

unfoldable pub retry_forecast_job : Env → String → Task ForecastJob
retry_forecast_job env job_id = do
  source ← get job_id
  if not (is_in source.status terminal_job_statuses) then raise (cannot_retry source.status) else do
    retry ← create source.latitude source.longitude (some source.id) (source.attempt + 1)
    increment_forecast_job_event "retry_accepted" (return (with_job_links env.float_text retry))
