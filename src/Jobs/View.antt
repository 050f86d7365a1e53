-- ===== src/Jobs/View.antt =====
-- src/earth2_sandbox/application/services/forecast_job_view.py and domain/jobs/events.py
use earth2_sandbox.Prelude.{
  String, Bool, true, false, Option, none, some, [], ◌∷◌, ◌++◌, length, get_last?, if◌then◌else◌,
}
use earth2_sandbox.Domain.Float.{Float}
use earth2_sandbox.Domain.Policies.{Datetime}
use earth2_sandbox.Domain.Status.{ForecastJobStatus, is_in, terminal_job_statuses}
use earth2_sandbox.Outcome.{◌⧺◌}
use earth2_sandbox.Jobs.{ForecastJob, ForecastJobEvent, ForecastJobSummary, ForecastJobPollResponse}

-- `float_text` is the text of a float in an f-string
unfoldable pub with_job_links : (Float → String) → ForecastJob → ForecastJob
with_job_links float_text job = record job {
  links =
      ("self", "/api/v1/forecast/jobs/" ⧺ job.id)
      ∷ ("poll", "/api/v1/forecast/jobs/" ⧺ job.id ⧺ "/poll")
      ∷ (
        "point_forecast",
        "/api/v1/forecast/point?latitude="
            ⧺ float_text job.latitude
            ⧺ "&longitude="
            ⧺ float_text job.longitude,
      )
      ∷ ("retry", "/api/v1/forecast/jobs/" ⧺ job.id ⧺ "/retry")
      ∷ ("cancel", "/api/v1/forecast/jobs/" ⧺ job.id ⧺ "/cancel")
      ∷ [];
}

unfoldable pub record_forecast_job_event : ForecastJobStatus → String → Datetime → ForecastJobEvent
record_forecast_job_event status message occurred_at = record {
  occurred_at = occurred_at;
  status = status;
  message = message;
}

unfoldable pub append_job_event : ForecastJob → ForecastJobStatus → String → Datetime → ForecastJob
unfolding record_forecast_job_event
append_job_event job status message occurred_at =
    let event = record_forecast_job_event status message occurred_at in
    record job { events = job.events ++ event ∷ [] }

unfoldable pub to_job_summary : ForecastJob → ForecastJobSummary
to_job_summary job = record {
  id = job.id;
  status = job.status;
  latitude = job.latitude;
  longitude = job.longitude;
  parent_job_id = job.parent_job_id;
  attempt = job.attempt;
  created_at = job.created_at;
  updated_at = job.updated_at;
  completed_at = job.completed_at;
  diagnostics = job.diagnostics;
  error = job.error;
  links = job.links;
}

abbrev pub is_present {ℓ} : {A : Type ℓ} → Option A → Bool
is_present none = false
is_present (some a) = true

unfoldable pub to_job_poll_response : ForecastJob → ForecastJobPollResponse
to_job_poll_response job =
    let terminal = is_in job.status terminal_job_statuses in
    record {
      id = job.id;
      status = job.status;
      terminal = terminal;
      forecast_ready = is_present job.forecast;
      updated_at = job.updated_at;
      retry_after_seconds = if terminal then none else some 2;
      event_count = length job.events;
      latest_event = get_last? job.events;
      links = job.links;
    }
