-- ===== src/Commands/Run.antt =====
-- src/earth2_sandbox/application/commands/run_forecast_job.py. Log lines are not modelled.
pub mod Ends
pub mod Outcome
use earth2_sandbox.Prelude.{
  ℕ, String, Bool, true, false, Option, none, some, List, [], ◌∷◌, not, ◌==◌, if◌then◌else◌,
}
use earth2_sandbox.Domain.Float.{Float}
use earth2_sandbox.Domain.Policies.{Datetime}
use earth2_sandbox.Domain.Status.{queued, running, succeeded, failed, same_status}
use earth2_sandbox.Outcome.{validation_error, ◌⧺◌}
use earth2_sandbox.Jobs.{ForecastJob, ForecastJobDiagnostics, no_diagnostics}
use earth2_sandbox.Jobs.Forecast.{ForecastSummary}
use earth2_sandbox.Jobs.View.{append_job_event}
use earth2_sandbox.World.{
  Env, Provider, Answer, answered, raised, ProviderError, unavailable, unexpected,
  ForecastProviderResult, Diagnostics, Message, no_message, text, not_text,
}
use earth2_sandbox.Tasks.{
  Task, return, raise, get, update_if_status, now, get_point_forecast,
  get_point_forecast_with_diagnostics, increment_forecast_job_event, except_transition, ◌>>=◌,
}

unfoldable pub running_job : ForecastJob → Datetime → ForecastJob
unfolding append_job_event
running_job job moment =
    append_job_event
      (record job {
        status = running;
        started_at = some moment;
        diagnostics =
            some (record no_diagnostics { message = some "Forecast provider request is running." });
        error = none;
      })
      running "Forecast provider request started." moment

unfoldable pub succeeded_job :
    ForecastJob → ForecastSummary → ForecastJobDiagnostics → Datetime → ForecastJob
unfolding append_job_event
succeeded_job current summary diagnostics completed =
    append_job_event
      (record current {
        status = succeeded;
        completed_at = some completed;
        forecast = some summary;
        diagnostics = some diagnostics;
        error = none;
      })
      succeeded "Forecast summary is ready." completed

unfoldable pub failed_job : ForecastJob → String → ForecastJobDiagnostics → Datetime → ForecastJob
unfolding append_job_event
failed_job job error diagnostics failed_at =
    append_job_event
      (record job {
        status = failed;
        completed_at = some failed_at;
        error = some error;
        diagnostics = some diagnostics;
      })
      failed "Forecast job failed." failed_at

-- `ForecastJobDiagnostics(**{**..., "message": message})`
abbrev pub with_message : String → Option ForecastJobDiagnostics → Option ForecastJobDiagnostics
with_message message none = none
with_message message (some diagnostics) = some (record diagnostics { message = some message })

abbrev pub success_diagnostics : Diagnostics → Option ForecastJobDiagnostics
success_diagnostics payload = with_message "Forecast summary is ready." payload.others

-- with `diagnostic_payload.get("message") or "Forecast job failed."`
abbrev failure_message : Message → Option ForecastJobDiagnostics → Option ForecastJobDiagnostics
failure_message no_message others = with_message "Forecast job failed." others
failure_message (text message) others =
    with_message (if message == "" then "Forecast job failed." else message) others
failure_message not_text others = none

-- `diagnostics or {}`
abbrev pub failure_diagnostics : Option Diagnostics → Option ForecastJobDiagnostics
failure_diagnostics none = failure_message no_message (some no_diagnostics)
failure_diagnostics (some payload) = failure_message payload.message payload.others

-- a ValidationError that is not inside a `try`
abbrev pub validated :
    Option ForecastJobDiagnostics → (ForecastJobDiagnostics → Task (Unit {0})) → Task (Unit {0})
validated none k = raise validation_error
validated (some diagnostics) k = k diagnostics

unfoldable pub mark_failed : String → String → Option Diagnostics → Task (Unit {0})
unfolding failed_job
mark_failed job_id error diagnostics = do
  job ← get job_id
  if not (same_status job.status running)
      then return tt
      else now λ failed_at. validated (failure_diagnostics diagnostics) λ payload.
        update_if_status (failed_job job error payload failed_at) (running ∷ []) (
          except_transition (λ updated. increment_forecast_job_event "failed" (return tt))
            (λ _. return tt))

unfoldable pub mark_succeeded : String → ForecastProviderResult → Task (Unit {0})
unfolding succeeded_job
mark_succeeded job_id provider_result = now λ completed. do
  current ← get job_id
  if not (same_status current.status running)
      then return tt
      else validated (success_diagnostics provider_result.diagnostics) λ payload.
        update_if_status (succeeded_job current provider_result.summary payload completed)
          (running ∷ [])
          (except_transition (λ updated. increment_forecast_job_event "succeeded" (return tt))
            (λ _. return tt))

-- `self.diagnostics = diagnostics or {"message": message}`
abbrev pub error_diagnostics : String → Option Diagnostics → Diagnostics
error_diagnostics message none = record { others = some no_diagnostics; message = text message }
error_diagnostics message (some diagnostics) = diagnostics

-- the `try` around the provider
unfoldable pub finish : String → Answer ForecastProviderResult → Task (Unit {0})
unfolding mark_failed mark_succeeded
finish job_id (answered provider_result) = mark_succeeded job_id provider_result
finish job_id (raised (unavailable message diagnostics)) =
    mark_failed job_id message (some (error_diagnostics message diagnostics))
finish job_id (raised (unexpected reason)) =
    mark_failed job_id ("Unexpected forecast job error: " ⧺ reason) none

abbrev pub plain_result : Answer ForecastSummary → Answer ForecastProviderResult
plain_result (answered summary) = answered (record {
  summary = summary;
  diagnostics = record {
    others = some (record no_diagnostics { provider = some summary.provider });
    message = text "Provider did not return extended job diagnostics.";
  };
})
plain_result (raised e) = raised e

-- _get_provider_result: `getattr(self.provider, "get_point_forecast_with_diagnostics", None)`
abbrev pub get_provider_result :
    Option (ℕ → Float → Float → Answer ForecastProviderResult)
    → ForecastJob
    → (Answer ForecastProviderResult → Task (Unit {0}))
    → Task (Unit {0})
get_provider_result (some diagnostic_method) job k =
    get_point_forecast_with_diagnostics job.latitude job.longitude k
get_provider_result none job k =
    get_point_forecast job.latitude job.longitude (λ answer. k (plain_result answer))

unfoldable pub run_forecast_job : Env → String → Task (Unit {0})
unfolding running_job finish
run_forecast_job env job_id = do
  job ← get job_id
  if not (same_status job.status queued)
      then return tt
      else now λ moment. update_if_status (running_job job moment) (queued ∷ []) (
          except_transition
            (λ _. increment_forecast_job_event "started" (
              get_provider_result env.provider.get_point_forecast_with_diagnostics job
                (finish job_id)))
            (λ _. return tt))
