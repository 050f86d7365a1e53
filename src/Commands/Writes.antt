-- ===== src/Commands/Writes.antt =====
-- The jobs that the use cases write are well formed, if the job that they were made from was.
use earth2_sandbox.Prelude.{ℕ, ◌≡◌, refl, String, true, get_last?-append, arith}
use earth2_sandbox.Domain.Policies.{Datetime}
use earth2_sandbox.Domain.Status.{queued, running, is_active_job_status}
use earth2_sandbox.Jobs.{ForecastJob, ForecastJobDiagnostics}
use earth2_sandbox.Jobs.Wellformed.{IsWellformed}
use earth2_sandbox.Jobs.Forecast.{ForecastSummary}
use earth2_sandbox.Commands.Cancel.{cancelled_job}
use earth2_sandbox.Commands.Run.{running_job, succeeded_job, failed_job}
use earth2_sandbox.Recovery.{timed_out_job, recovered_job}

module _ (job : ForecastJob) (g : IsWellformed job) where
  pub cancelled_job-IsWellformed :
      (t : Datetime) → is_active_job_status job.status ≡ true → IsWellformed (cancelled_job job t)
  unfolding cancelled_job
  cancelled_job-IsWellformed t active = record {
    canonical = g.canonical;
    latitude = g.latitude;
    longitude = g.longitude;
    attempted = g.attempted;
    agrees = ground (arith, g.agrees);
    told = rw get_last?-append refl;
  }

  pub running_job-IsWellformed :
      (t : Datetime) → job.status ≡ queued → IsWellformed (running_job job t)
  unfolding running_job
  running_job-IsWellformed t h = record {
    canonical = g.canonical;
    latitude = g.latitude;
    longitude = g.longitude;
    attempted = g.attempted;
    agrees = ground (arith, g.agrees);
    told = rw get_last?-append refl;
  }

  pub succeeded_job-IsWellformed :
      (summary : ForecastSummary) (diagnostics : ForecastJobDiagnostics) (t : Datetime)
      → job.status ≡ running
      → IsWellformed (succeeded_job job summary diagnostics t)
  unfolding succeeded_job
  succeeded_job-IsWellformed summary diagnostics t h = record {
    canonical = g.canonical;
    latitude = g.latitude;
    longitude = g.longitude;
    attempted = g.attempted;
    agrees = ground (arith, g.agrees);
    told = rw get_last?-append refl;
  }

  pub failed_job-IsWellformed :
      (error : String) (diagnostics : ForecastJobDiagnostics) (t : Datetime)
      → job.status ≡ running
      → IsWellformed (failed_job job error diagnostics t)
  unfolding failed_job
  failed_job-IsWellformed error diagnostics t h = record {
    canonical = g.canonical;
    latitude = g.latitude;
    longitude = g.longitude;
    attempted = g.attempted;
    agrees = ground (arith, g.agrees);
    told = rw get_last?-append refl;
  }

  pub timed_out_job-IsWellformed :
      (t : Datetime) (timeout : ℕ)
      → is_active_job_status job.status ≡ true
      → IsWellformed (timed_out_job job t timeout)
  unfolding timed_out_job
  timed_out_job-IsWellformed t timeout h = record {
    canonical = g.canonical;
    latitude = g.latitude;
    longitude = g.longitude;
    attempted = g.attempted;
    agrees = ground (arith, g.agrees);
    told = rw get_last?-append refl;
  }

  pub recovered_job-IsWellformed :
      (t : Datetime) → job.status ≡ running → IsWellformed (recovered_job job t)
  unfolding recovered_job
  recovered_job-IsWellformed t h = record {
    canonical = g.canonical;
    latitude = g.latitude;
    longitude = g.longitude;
    attempted = g.attempted;
    agrees = ground (arith, g.agrees);
    told = rw get_last?-append refl;
  }
