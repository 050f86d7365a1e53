-- ===== src/Commands/Submit.antt =====
-- src/earth2_sandbox/application/commands/submit_forecast_job.py
pub mod Outcome
use earth2_sandbox.Prelude.{none}
use earth2_sandbox.Domain.Float.{Float}
use earth2_sandbox.Jobs.{ForecastJob}
use earth2_sandbox.Jobs.View.{with_job_links}
use earth2_sandbox.World.{Env}
use earth2_sandbox.Tasks.{Task, return, create, increment_forecast_job_event, ◌>>=◌}

unfoldable pub submit_forecast_job : Env → Float → Float → Task ForecastJob
submit_forecast_job env latitude longitude = do
  job ← create latitude longitude none 1
  increment_forecast_job_event "accepted" (return (with_job_links env.float_text job))
