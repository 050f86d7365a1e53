-- ===== src/Jobs/Lifecycle.antt =====
-- The life of a job as the documentation draws it: queued, running, and three ends. A running job
-- goes back to the queue when a restarted process recovers it.
use earth2_sandbox.Prelude.{◌≡◌, Bool, true, false, Option, none, some}
use earth2_sandbox.Domain.Status.{
  ForecastJobStatus, queued, running, succeeded, failed, cancelled, is_terminal_job_status,
}
use earth2_sandbox.Jobs.{ForecastJob}

abbrev pub legal : ForecastJobStatus → ForecastJobStatus → Bool
legal queued running = true
legal queued failed = true
legal queued cancelled = true
legal running queued = true
legal running succeeded = true
legal running failed = true
legal running cancelled = true
legal _ _ = false

-- What can become of the job at one identifier; `New` says that the identifier is being issued.
pub data Evolves (New : Type 0) (before after : Option ForecastJob) : Type 0 where
  unchanged : after ≡ before → Evolves New before after
  created :
      (job : ForecastJob)
      → New
      → before ≡ none
      → after ≡ some job
      → job.status ≡ queued
      → Evolves New before after
  moved :
      (old new : ForecastJob)
      → before ≡ some old
      → after ≡ some new
      → legal old.status new.status ≡ true
      → Evolves New before after
  deleted :
      (old : ForecastJob)
      → before ≡ some old
      → after ≡ none
      → is_terminal_job_status old.status ≡ true
      → Evolves New before after
