-- ===== src/Domain/Priority.antt =====
-- src/earth2_sandbox/domain/jobs/priority.py
use earth2_sandbox.Prelude.{ℕ}

pub data ForecastJobPriority : Type 0 where
  low normal high : ForecastJobPriority

abbrev pub default_forecast_job_priority : ForecastJobPriority
default_forecast_job_priority = normal

abbrev pub priority_rank : ForecastJobPriority → ℕ
priority_rank high = 0
priority_rank normal = 10
priority_rank low = 20
