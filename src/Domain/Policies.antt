-- ===== src/Domain/Policies.antt =====
-- src/earth2_sandbox/domain/jobs/policies.py. A `datetime` is its number of microseconds after
-- `datetime.min`, so a subtraction that passes the start of the calendar raises OverflowError.
use earth2_sandbox.Prelude.{
  ℕ, ◌*◌, ◌-◌, Bool, false, Option, none, some, List, leb, ltb, if◌then◌else◌,
}
use earth2_sandbox.Domain.Status.{ForecastJobStatus, is_in}
use earth2_sandbox.Outcome.{Result, ok, err, overflow_error, ◌>>=◌}

abbrev pub Datetime : Type 0
Datetime = ℕ

abbrev pub seconds : ℕ → ℕ
seconds n = n * 1_000_000

abbrev pub hours : ℕ → ℕ
hours n = seconds (n * 3600)

-- `moment - timedelta(...)`
unfoldable pub minus_timedelta : Datetime → ℕ → Result Datetime
minus_timedelta t d = if leb d t then ok (t - d) else err overflow_error

unfoldable pub can_transition_from : ForecastJobStatus → List ForecastJobStatus → Bool
can_transition_from current_status expected_statuses = is_in current_status expected_statuses

unfoldable pub should_mark_job_stale : Datetime → Datetime → ℕ → Result Bool
unfolding minus_timedelta
should_mark_job_stale updated_at now timeout_seconds = do
  limit ← minus_timedelta now (seconds timeout_seconds)
  ok (leb updated_at limit)

-- `a or b` on an optional datetime, which is never false
abbrev pub or_datetime : Option Datetime → Datetime → Datetime
or_datetime none d = d
or_datetime (some t) d = t

unfoldable pub should_cleanup_job :
    ForecastJobStatus → Option Datetime → Datetime → Datetime → List ForecastJobStatus → Bool
should_cleanup_job status completed_at updated_at cutoff statuses =
    if is_in status statuses then ltb (or_datetime completed_at updated_at) cutoff else false
