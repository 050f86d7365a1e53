-- ===== src/Recovery/Report.antt =====
-- The report of a recovery that nothing interrupts.
use earth2_sandbox.Prelude.{ℕ, ◌+◌, ◌≡◌, not, String, Bool, List, map, ◌∷◌, ◌++◌, length, keep}
use earth2_sandbox.Domain.Policies.{Datetime}
use earth2_sandbox.Outcome.{Result, ok}
use earth2_sandbox.Jobs.{ForecastJob}
use earth2_sandbox.World.{World}
use earth2_sandbox.Recovery.{ForecastJobRecoveryReport, Counts}
use earth2_sandbox.Recovery.Rounds.{is_stale, counted}

abbrev fresh : ℕ → Datetime → List ForecastJob → List ForecastJob
fresh timeout moment jobs = keep (λ job. not (is_stale timeout moment job)) jobs

abbrev reported : ℕ → ℕ → ℕ → ℕ → Result ForecastJobRecoveryReport
reported scanned requeued timed_out skipped = ok (record {
  scanned_count = scanned;
  requeued_count = requeued;
  timed_out_count = timed_out;
  skipped_count = skipped;
})

module _ (scanned timeout : ℕ) (moment : Datetime) (job : ForecastJob) (jobs : List ForecastJob)
    (c : Counts) where
  abbrev Counting : Bool → Type 0
  Counting stale =
      reported scanned ((counted stale c).requeued + length (fresh timeout moment jobs))
        ((counted stale c).timed_out + length (keep (is_stale timeout moment) jobs))
        (counted stale c).skipped
      ≡ reported scanned (c.requeued + length (fresh timeout moment (job ∷ jobs)))
          (c.timed_out + length (keep (is_stale timeout moment) (job ∷ jobs))) c.skipped

-- What a recovery of these jobs comes to: the report and the jobs that are handed to the worker.
abbrev pub IsRecovery :
    ℕ
    → ℕ
    → Datetime
    → List ForecastJob
    → Counts
    → List String
    → Result ForecastJobRecoveryReport × World
    → Type 0
IsRecovery scanned timeout moment jobs c enqueued out =
    (out.0
      ≡ ok (record {
        scanned_count = scanned;
        requeued_count = c.requeued + length (keep (λ job. not (is_stale timeout moment job)) jobs);
        timed_out_count = c.timed_out + length (keep (is_stale timeout moment) jobs);
        skipped_count = c.skipped;
      }))
    × (out.1.enqueued
        ≡ enqueued ++ map (λ job. job.id) (keep (λ job. not (is_stale timeout moment job)) jobs))
