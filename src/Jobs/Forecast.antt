-- ===== src/Jobs/Forecast.antt =====
-- src/earth2_sandbox/schemas/forecast.py, as far as a job stores it. Provider and model names are
-- texts here, their literals being fixed by the providers.
use earth2_sandbox.Prelude.{ℕ, String, List}
use earth2_sandbox.Domain.Float.{Float}
use earth2_sandbox.Domain.Policies.{Datetime}

pub record ForecastMetric : Type 0 where
  pub name : String
  pub value : Float
  pub unit : String

pub record ForecastModelInfo : Type 0 where
  pub name : String
  pub version : String
  pub resolution : String
  pub run_mode : String

pub record ForecastWindow : Type 0 where
  pub start_at : Datetime
  pub end_at : Datetime
  pub step_hours : ℕ
  pub lead_hours : List ℕ

pub record ForecastTimelineStep : Type 0 where
  pub lead_time_hours : ℕ
  pub valid_at : Datetime
  pub temperature_c : Float
  pub wind_speed_ms : Float
  pub humidity_percent : Float
  pub precipitation_probability_percent : Float
  pub pressure_hpa : Float
  pub confidence : Float
  pub condition : String
  pub summary : String

pub record ForecastSignal : Type 0 where
  pub name : String
  pub level : String
  pub message : String

pub record ForecastSummary : Type 0 where
  pub provider : String
  pub generated_at : Datetime
  pub latitude : Float
  pub longitude : Float
  pub headline : String
  pub metrics : List ForecastMetric
  pub model : ForecastModelInfo
  pub forecast_window : ForecastWindow
  pub timeline : List ForecastTimelineStep
  pub signals : List ForecastSignal
