-- ===== src/Jobs/Polled.antt =====
-- What a client that polls can rely on (to_job_poll_response of
-- src/earth2_sandbox/application/services/forecast_job_view.py).
use earth2_sandbox.Prelude.{
  ◌<◌, ◌≡◌, refl, not, String, Option, none, some, List, [], ◌∷◌, length, get_last?, arith,
}
use earth2_sandbox.Domain.Status.{
  ForecastJobStatus, queued, running, succeeded, failed, cancelled, same_status,
  is_active_job_status, is_terminal_job_status,
}
use earth2_sandbox.Domain.Policies.{Datetime}
use earth2_sandbox.Jobs.{ForecastJob, ForecastJobEvent}
use earth2_sandbox.Jobs.Forecast.{ForecastSummary}
use earth2_sandbox.Jobs.View.{to_job_poll_response, is_present}
use earth2_sandbox.Jobs.Wellformed.{IsWellformed, Agrees, LastEvent}

forecast_of_success :
    (status : ForecastJobStatus) (completed : Option Datetime) (error : Option String)
    (forecast : Option ForecastSummary) (started : Option Datetime)
    → Agrees status completed error forecast started
    → is_present forecast ≡ same_status status succeeded
forecast_of_success queued completed error none started h = refl
forecast_of_success running completed error none started h = refl
forecast_of_success succeeded completed error (some f) started h = refl
forecast_of_success failed completed error none started h = refl
forecast_of_success cancelled completed error none started h = refl
forecast_of_success queued completed error (some f) started h = absurd h.2
forecast_of_success running completed error (some f) started h = absurd h.2
forecast_of_success succeeded completed error none started h = absurd h.2
forecast_of_success failed completed error (some f) started h = absurd h.2
forecast_of_success cancelled completed error (some f) started h = absurd h.2

some_event :
    (status : ForecastJobStatus) (events : List ForecastJobEvent)
    → LastEvent status (get_last? events)
    → 0 < length events
some_event status [] h = absurd h
some_event status (e ∷ events) h = omega arith

-- The poll response of a well-formed job: the forecast is ready exactly when the job has succeeded,
-- the response is terminal exactly when the job is not active, there is a last event, and its
-- status is that of the response.
pub to_job_poll_response_lem :
    (job : ForecastJob)
    → IsWellformed job
    → let r = to_job_poll_response job in
      (r.forecast_ready ≡ same_status job.status succeeded)
      × (r.terminal ≡ not (is_active_job_status job.status))
      × (0 < r.event_count)
      × LastEvent r.status r.latest_event
unfolding to_job_poll_response
to_job_poll_response_lem job g = (
  forecast_of_success job.status job.completed_at job.error job.forecast job.started_at g.agrees,
  ended job.status,
  some_event job.status job.events g.told,
  g.told,
)
  where
    ended : (s : ForecastJobStatus) → is_terminal_job_status s ≡ not (is_active_job_status s)
    ended s = ground arith
