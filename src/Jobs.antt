-- ===== src/Jobs.antt =====
-- src/earth2_sandbox/schemas/jobs.py: what a job is and what clients see of it. Pydantic's range
-- checks repeat those of the domain entities, which run first.
pub mod Forecast
pub mod View
pub mod Lifecycle
pub mod Wellformed
pub mod Polled
use earth2_sandbox.Prelude.{ℕ, String, Bool, false, Option, none, List}
use earth2_sandbox.Prelude.Dict.{Dict}
use earth2_sandbox.Domain.Float.{Float}
use earth2_sandbox.Domain.Policies.{Datetime}
use earth2_sandbox.Domain.Status.{ForecastJobStatus}
use Forecast.{ForecastSummary}

pub record ForecastJobDiagnostics : Type 0 where
  pub provider : Option String
  pub response_source : Option String
  pub cache_status : Option String
  pub cached_artifact_id : Option String
  pub nvcf_request_id : Option String
  pub nvcf_status : Option String
  pub poll_attempts : ℕ
  pub response_reference_present : Bool
  pub byte_length : Option ℕ
  pub sha256 : Option String
  pub message : Option String

-- `ForecastJobDiagnostics()`
abbrev pub no_diagnostics : ForecastJobDiagnostics
no_diagnostics = record {
  provider = none;
  response_source = none;
  cache_status = none;
  cached_artifact_id = none;
  nvcf_request_id = none;
  nvcf_status = none;
  poll_attempts = 0;
  response_reference_present = false;
  byte_length = none;
  sha256 = none;
  message = none;
}

pub record ForecastJobEvent : Type 0 where
  pub occurred_at : Datetime
  pub status : ForecastJobStatus
  pub message : String

pub record ForecastJob : Type 0 where
  pub id : String
  pub status : ForecastJobStatus
  pub latitude : Float
  pub longitude : Float
  pub parent_job_id : Option String
  pub attempt : ℕ
  pub created_at : Datetime
  pub updated_at : Datetime
  pub started_at : Option Datetime
  pub completed_at : Option Datetime
  pub forecast : Option ForecastSummary
  pub diagnostics : Option ForecastJobDiagnostics
  pub events : List ForecastJobEvent
  pub error : Option String
  pub links : Dict String

pub record ForecastJobSummary : Type 0 where
  pub id : String
  pub status : ForecastJobStatus
  pub latitude : Float
  pub longitude : Float
  pub parent_job_id : Option String
  pub attempt : ℕ
  pub created_at : Datetime
  pub updated_at : Datetime
  pub completed_at : Option Datetime
  pub diagnostics : Option ForecastJobDiagnostics
  pub error : Option String
  pub links : Dict String

pub record ForecastJobListResponse : Type 0 where
  pub count : ℕ
  pub jobs : List ForecastJobSummary

pub record ForecastJobPollResponse : Type 0 where
  pub id : String
  pub status : ForecastJobStatus
  pub terminal : Bool
  pub forecast_ready : Bool
  pub updated_at : Datetime
  pub retry_after_seconds : Option ℕ
  pub event_count : ℕ
  pub latest_event : Option ForecastJobEvent
  pub links : Dict String

pub record ForecastJobCleanupResponse : Type 0 where
  pub deleted_count : ℕ
  pub cutoff : Datetime
  pub statuses : List ForecastJobStatus
