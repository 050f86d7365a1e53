-- ===== src/Tasks/Safe.antt =====
-- Tasks that respect the jobs: every write is a well-formed job, conditional on statuses from which
-- its own is a legal move, and every deletion is of terminal jobs. What the store answers is
-- whatever it can answer, so the predicate does not depend on who else runs.
use earth2_sandbox.Prelude.{ℕ, ◌≡◌, true, List, All}
use earth2_sandbox.Domain.Policies.{Datetime}
use earth2_sandbox.Domain.Status.{ForecastJobStatus, is_terminal_job_status}
use earth2_sandbox.Outcome.{Result}
use earth2_sandbox.Jobs.{ForecastJob}
use earth2_sandbox.Jobs.Forecast.{ForecastSummary}
use earth2_sandbox.Jobs.Lifecycle.{legal}
use earth2_sandbox.Jobs.Wellformed.{IsWellformed}
use earth2_sandbox.World.{Env, World, Answer, ForecastProviderResult}
use earth2_sandbox.Store.Memory.Invariant.{
  IsConsistent, IsActive, Good, create-IsConsistent, get-IsConsistent,
  update_if_status-IsConsistent, list_active-IsActive, list_recent-IsWellformed,
  delete_older_than-IsConsistent,
}
use earth2_sandbox.Tasks.{
  Task, return, raise, create, get, update_if_status, list_recent, list_active, delete_older_than,
  now, get_point_forecast, get_point_forecast_with_diagnostics, enqueue,
  increment_forecast_job_event, step, increment,
}

abbrev pub Lawful : ForecastJob → List ForecastJobStatus → Type 0
Lawful job expected = IsWellformed job × All (λ s. legal s job.status ≡ true) expected

abbrev pub AllTerminal : List ForecastJobStatus → Type 0
AllTerminal = All (λ s. is_terminal_job_status s ≡ true)

module _ {A : Type 0} where
  abbrev pub Safe : Task A → Type 0
  Safe (return a) = Unit
  Safe (raise e) = Unit
  Safe (create latitude longitude parent attempt k) = (r : Result ForecastJob) → Good r → Safe (k r)
  Safe (get job_id k) = (r : Result ForecastJob) → Good r → Safe (k r)
  Safe (update_if_status job expected k) =
      Lawful job expected × ((r : Result ForecastJob) → Good r → Safe (k r))
  Safe (list_recent limit status k) =
      (jobs : List ForecastJob) → All IsWellformed jobs → Safe (k jobs)
  Safe (list_active k) = (jobs : List ForecastJob) → All IsActive jobs → Safe (k jobs)
  Safe (delete_older_than cutoff statuses k) = AllTerminal statuses × ((r : Result ℕ) → Safe (k r))
  Safe (now k) = (t : Datetime) → Safe (k t)
  Safe (get_point_forecast latitude longitude k) = (a : Answer ForecastSummary) → Safe (k a)
  Safe (get_point_forecast_with_diagnostics latitude longitude k) =
      (a : Answer ForecastProviderResult) → Safe (k a)
  Safe (enqueue job_id t) = Safe t
  Safe (increment_forecast_job_event event t) = Safe t

  -- One call of a safe task leaves it safe, and the table consistent.
  pub step-IsConsistent :
      (env : Env) (t : Task A) (w : World)
      → Safe t
      → IsConsistent w.jobs
      → let (t', w') = step env t w in Safe t' × IsConsistent w'.jobs
  unfolding step increment
  step-IsConsistent env (return a) w s c = (tt, c)
  step-IsConsistent env (raise e) w s c = (tt, c)
  step-IsConsistent env (create latitude longitude parent attempt k) w s c =
      let (g, c') = create-IsConsistent env latitude longitude parent attempt w c in (s _ g, c')
  step-IsConsistent env (get job_id k) w s c =
      let (g, same) = get-IsConsistent w c job_id in (s _ g, rw same c)
  step-IsConsistent env (update_if_status job expected k) w s c =
      let (g, c') = update_if_status-IsConsistent w c env job expected s.0.0 in (s.1 _ g, c')
  step-IsConsistent env (list_recent limit status k) w s c =
      (s _ (list_recent-IsWellformed w c limit status), c)
  step-IsConsistent env (list_active k) w s c = (s _ (list_active-IsActive w c), c)
  step-IsConsistent env (delete_older_than cutoff statuses k) w s c =
      (s.1 _, delete_older_than-IsConsistent cutoff statuses w c)
  step-IsConsistent env (now k) w s c = (s _, c)
  step-IsConsistent env (get_point_forecast latitude longitude k) w s c = (s _, c)
  step-IsConsistent env (get_point_forecast_with_diagnostics latitude longitude k) w s c = (s _, c)
  step-IsConsistent env (enqueue job_id t) w s c = (s, c)
  step-IsConsistent env (increment_forecast_job_event event t) w s c = (s, c)
