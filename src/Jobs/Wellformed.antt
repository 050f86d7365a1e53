-- ===== src/Jobs/Wellformed.antt =====
-- The invariant of a stored job, independent of how it came to be: its status agrees with its
-- timestamps, its forecast, its error and its last event.
use earth2_sandbox.Prelude.{◌<◌, ◌≡◌, String, true, Option, none, some, get_last?}
use earth2_sandbox.Domain.Status.{ForecastJobStatus, queued, running, succeeded, failed, cancelled}
use earth2_sandbox.Domain.Float.{is_within}
use earth2_sandbox.Domain.Policies.{Datetime}
use earth2_sandbox.Domain.Uuid.{parse_uuid}
use earth2_sandbox.Jobs.Forecast.{ForecastSummary}
use earth2_sandbox.Jobs.{ForecastJob, ForecastJobEvent}

abbrev pub Present {ℓ} : {A : Type ℓ} → Option A → Type 0
Present none = ⊥
Present (some a) = Unit

abbrev pub Absent {ℓ} : {A : Type ℓ} → Option A → Type 0
Absent none = Unit
Absent (some a) = ⊥

-- What a status says of the completion time, the error, the forecast and the start time.
abbrev pub Agrees :
    ForecastJobStatus
    → Option Datetime
    → Option String
    → Option ForecastSummary
    → Option Datetime
    → Type 0
Agrees queued completed error forecast started =
    Absent completed × Absent error × Absent forecast × Absent started
Agrees running completed error forecast started =
    Absent completed × Absent error × Absent forecast × Present started
Agrees succeeded completed error forecast started =
    Present completed × Absent error × Present forecast × Present started
Agrees failed completed error forecast started = Present completed × Present error × Absent forecast
Agrees cancelled completed error forecast started =
    Present completed × Absent error × Absent forecast

-- The last entry of the history is the current status.
abbrev pub LastEvent : ForecastJobStatus → Option ForecastJobEvent → Type 0
LastEvent status none = ⊥
LastEvent status (some event) = event.status ≡ status

pub record IsWellformed (job : ForecastJob) : Type 0 where
  pub canonical : parse_uuid job.id ≡ some job.id
  pub latitude : is_within 90 job.latitude ≡ true
  pub longitude : is_within 180 job.longitude ≡ true
  pub attempted : 0 < job.attempt
  pub agrees : Agrees job.status job.completed_at job.error job.forecast job.started_at
  pub told : LastEvent job.status (get_last? job.events)
