-- ===== src/Commands/Cancel.antt =====
-- src/earth2_sandbox/application/commands/cancel_forecast_job.py
pub mod Outcome
use earth2_sandbox.Prelude.{String, Option, none, some, if◌then◌else◌}
use earth2_sandbox.Domain.Policies.{Datetime}
use earth2_sandbox.Domain.Status.{
  ForecastJobStatus, cancelled, is_in, active_job_statuses, terminal_job_statuses,
}
use earth2_sandbox.Outcome.{Error, conflict, status_text, ◌⧺◌}
use earth2_sandbox.Jobs.{ForecastJob, ForecastJobDiagnostics, no_diagnostics}
use earth2_sandbox.Jobs.View.{with_job_links, append_job_event}
use earth2_sandbox.World.{Env}
use earth2_sandbox.Tasks.{
  Task, return, raise, get, update_if_status, now, increment_forecast_job_event, except_transition,
  ◌>>=◌,
}

-- `job.diagnostics.provider if job.diagnostics else None`
abbrev pub provider_of : Option ForecastJobDiagnostics → Option String
provider_of none = none
provider_of (some diagnostics) = diagnostics.provider

unfoldable pub cancelled_job : ForecastJob → Datetime → ForecastJob
unfolding append_job_event
cancelled_job job moment =
    append_job_event
      (record job {
        status = cancelled;
        completed_at = some moment;
        diagnostics = some (record no_diagnostics {
          provider = provider_of job.diagnostics;
          message = some "Forecast job cancelled by request.";
        });
        error = none;
      })
      cancelled "Forecast job cancelled by request." moment

abbrev pub cannot_cancel : ForecastJobStatus → Error
cannot_cancel status = conflict ("Cannot cancel a " ⧺ status_text status ⧺ " forecast job.")

unfoldable pub cancel_forecast_job : Env → String → Task ForecastJob
unfolding cancelled_job
cancel_forecast_job env job_id = do
  job ← get job_id
  if is_in job.status terminal_job_statuses
      then raise (cannot_cancel job.status)
      else now λ moment. update_if_status (cancelled_job job moment) active_job_statuses (
          except_transition
            (λ stored.
              increment_forecast_job_event "cancelled"
                (return (with_job_links env.float_text stored)))
            (λ current_status. raise (cannot_cancel current_status)))
