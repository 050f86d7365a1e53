-- ===== src/Commands/Cleanup.antt =====
-- src/earth2_sandbox/application/commands/cleanup_forecast_jobs.py
pub mod Outcome
use earth2_sandbox.Prelude.{ℕ, zero, suc, Option, none, some, List, [], ◌∷◌, keep}
use earth2_sandbox.Domain.Policies.{minus_timedelta, hours}
use earth2_sandbox.Domain.Status.{
  ForecastJobStatus, queued, running, succeeded, failed, cancelled, is_in, terminal_job_statuses,
}
use earth2_sandbox.Jobs.{ForecastJobCleanupResponse}
use earth2_sandbox.Tasks.{Task, return, now, delete_older_than, unwrap, ◌>>=◌}

-- `older_than_hours or self.default_retention_hours`
abbrev pub or_number : Option ℕ → ℕ → ℕ
or_number none default = default
or_number (some zero) default = default
or_number (some (suc n)) default = suc n

-- `sorted(set(statuses))`
abbrev pub sorted_set : List ForecastJobStatus → List ForecastJobStatus
sorted_set statuses =
    keep (λ s. is_in s statuses) (cancelled ∷ failed ∷ queued ∷ running ∷ succeeded ∷ [])

-- `statuses or sorted(TERMINAL_JOB_STATUSES)`
abbrev pub or_terminal : Option (List ForecastJobStatus) → List ForecastJobStatus
or_terminal none = sorted_set terminal_job_statuses
or_terminal (some []) = sorted_set terminal_job_statuses
or_terminal (some (s ∷ ss)) = s ∷ ss

unfoldable pub cleanup_forecast_jobs :
    ℕ → Option ℕ → Option (List ForecastJobStatus) → Task ForecastJobCleanupResponse
unfolding minus_timedelta
cleanup_forecast_jobs default_retention_hours older_than_hours statuses =
    let retention_hours = or_number older_than_hours default_retention_hours in
    let cleanup_statuses = or_terminal statuses in
    now λ moment.
      unwrap
        (λ cutoff. do
          deleted_count ← delete_older_than cutoff cleanup_statuses
          return (record {
            deleted_count = deleted_count;
            cutoff = cutoff;
            statuses = sorted_set cleanup_statuses;
          }))
        (minus_timedelta moment (hours retention_hours))
