-- ===== src/Recovery.antt =====
-- src/earth2_sandbox/application/services/forecast_job_recovery_service.py: at startup, active jobs
-- are failed if they are stale and handed to a worker otherwise.
pub mod Safe
pub mod Scan
pub mod Rounds
pub mod Report
use earth2_sandbox.Prelude.{
  ℕ, ◌+◌, String, Bool, none, some, Option, List, [], ◌∷◌, length, if◌then◌else◌,
}
use earth2_sandbox.Prelude.Decimal.{decimal}
use earth2_sandbox.Domain.Policies.{Datetime, should_mark_job_stale}
use earth2_sandbox.Domain.Status.{queued, running, failed, same_status, active_job_statuses}
use earth2_sandbox.Outcome.{◌⧺◌}
use earth2_sandbox.Jobs.{ForecastJob, no_diagnostics}
use earth2_sandbox.Jobs.View.{append_job_event}
use earth2_sandbox.Commands.Cancel.{provider_of}
use earth2_sandbox.Commands.Cleanup.{or_number}
use earth2_sandbox.Tasks.{
  Task, return, update_if_status, list_active, now, enqueue, unwrap, except_transition,
}

pub record ForecastJobRecoveryReport : Type 0 where
  pub scanned_count : ℕ
  pub requeued_count : ℕ
  pub timed_out_count : ℕ
  pub skipped_count : ℕ

unfoldable pub timed_out_job : ForecastJob → Datetime → ℕ → ForecastJob
unfolding append_job_event
timed_out_job job occurred_at timeout_seconds =
    append_job_event
      (record job {
        status = failed;
        completed_at = some occurred_at;
        error = some (
            "Forecast worker timed out after "
            ⧺ decimal timeout_seconds
            ⧺ " seconds without progress.");
        diagnostics = some (record no_diagnostics {
          provider = provider_of job.diagnostics;
          message = some "Forecast worker timed out.";
        });
      })
      failed "Forecast worker timed out." occurred_at

unfoldable pub recovered_job : ForecastJob → Datetime → ForecastJob
unfolding append_job_event
recovered_job job moment =
    append_job_event
      (record job {
        status = queued;
        started_at = none;
        diagnostics = some (record no_diagnostics {
          provider = provider_of job.diagnostics;
          message = some "Forecast job recovered for worker retry.";
        });
        error = none;
      })
      queued "Forecast job recovered for worker retry." moment

-- the counters of the loop
pub record Counts : Type 0 where
  pub requeued : ℕ
  pub timed_out : ℕ
  pub skipped : ℕ

abbrev pub Next : Type 0
Next = Counts → Task ForecastJobRecoveryReport

-- _mark_timed_out, and the counter that its result moves
unfoldable pub mark_timed_out :
    ForecastJob → Datetime → ℕ → Next → Counts → Task ForecastJobRecoveryReport
unfolding timed_out_job
mark_timed_out job occurred_at timeout_seconds next c =
    update_if_status (timed_out_job job occurred_at timeout_seconds) active_job_statuses (
      except_transition (λ _. next (record c { timed_out = c.timed_out + 1 }))
        (λ _. next (record c { skipped = c.skipped + 1 })))

abbrev pub hand_over : ForecastJob → Next → Next
hand_over job next c = enqueue job.id (next (record c { requeued = c.requeued + 1 }))

-- the body of the loop, up to the `next` round
unfoldable pub recover_job :
    ℕ → Datetime → ForecastJob → Next → Counts → Task ForecastJobRecoveryReport
unfolding mark_timed_out recovered_job should_mark_job_stale
recover_job timeout moment job next c =
    unwrap
      (λ stale.
        if stale
        then mark_timed_out job moment timeout next c
        else if same_status job.status running
        then update_if_status (recovered_job job moment) (running ∷ []) (
            except_transition (λ stored. hand_over stored next c)
              (λ _. next (record c { skipped = c.skipped + 1 })))
        else hand_over job next c)
      (should_mark_job_stale job.updated_at moment timeout)

unfoldable pub recover_jobs :
    ℕ → ℕ → Datetime → List ForecastJob → Counts → Task ForecastJobRecoveryReport
unfolding recover_job
recover_jobs scanned timeout moment [] c = return (record {
  scanned_count = scanned;
  requeued_count = c.requeued;
  timed_out_count = c.timed_out;
  skipped_count = c.skipped;
})
recover_jobs scanned timeout moment (job ∷ jobs) c =
    recover_job timeout moment job (recover_jobs scanned timeout moment jobs) c

unfoldable pub recover_interrupted_jobs : ℕ → Option ℕ → Task ForecastJobRecoveryReport
unfolding recover_jobs
recover_interrupted_jobs default_stale_timeout_seconds stale_timeout_seconds =
    let timeout = or_number stale_timeout_seconds default_stale_timeout_seconds in
    now λ moment. list_active λ active_jobs.
      recover_jobs (length active_jobs) timeout moment active_jobs
        (record { requeued = 0; timed_out = 0; skipped = 0 })
