-- ===== src/Commands/Safe.antt =====
-- Every use case is a safe task, whatever the clock, the provider and the other tasks do.
use earth2_sandbox.Prelude.{ℕ, refl, String, Option, none, some, List, inl, inr, Bool-cases, arith}
use earth2_sandbox.Domain.Float.{Float}
use earth2_sandbox.Domain.Policies.{minus_timedelta}
use earth2_sandbox.Domain.Status.{
  ForecastJobStatus, queued, running, same_status, is_terminal_job_status,
}
use earth2_sandbox.Outcome.{Result, ok, err, transition}
use earth2_sandbox.Jobs.{ForecastJob, ForecastJobDiagnostics}
use earth2_sandbox.World.{
  Env, Answer, answered, raised, unavailable, unexpected, ForecastProviderResult, Diagnostics,
}
use earth2_sandbox.Tasks.{Task, unwrap, except_transition}
use earth2_sandbox.Tasks.Safe.{Safe, AllTerminal}
use earth2_sandbox.Commands.Submit.{submit_forecast_job}
use earth2_sandbox.Commands.Cancel.{cancel_forecast_job}
use earth2_sandbox.Commands.Retry.{retry_forecast_job}
use earth2_sandbox.Commands.Cleanup.{cleanup_forecast_jobs, or_terminal}
use earth2_sandbox.Commands.Run.{
  validated, success_diagnostics, failure_diagnostics, mark_failed, mark_succeeded, finish,
  error_diagnostics, plain_result, get_provider_result, run_forecast_job,
}
use earth2_sandbox.Commands.Writes.{
  cancelled_job-IsWellformed, running_job-IsWellformed, succeeded_job-IsWellformed,
  failed_job-IsWellformed,
}

-- A `try` around a store call is safe, if what follows and the handler are.
pub except_transition-Safe :
    {A : Type 0} (f : ForecastJob → Task A) (handler : ForecastJobStatus → Task A)
    → ((job : ForecastJob) → Safe (f job))
    → ((s : ForecastJobStatus) → Safe (handler s))
    → (r : Result ForecastJob) → Safe (except_transition f handler r)
except_transition-Safe f handler sf sh (ok job) = sf job
except_transition-Safe f handler sf sh (err (transition id s es)) = sh s
except_transition-Safe f handler sf sh (err _) = tt

pub unwrap-Safe :
    {A B : Type 0} (f : B → Task A) → ((b : B) → Safe (f b)) → (r : Result B) → Safe (unwrap f r)
unwrap-Safe f s (ok b) = s b
unwrap-Safe f s (err e) = tt

pub submit_forecast_job-Safe :
    (env : Env) (latitude longitude : Float) → Safe (submit_forecast_job env latitude longitude)
unfolding submit_forecast_job
submit_forecast_job-Safe env latitude longitude (ok job) g = tt
submit_forecast_job-Safe env latitude longitude (err e) g = tt

pub cancel_forecast_job-Safe : (env : Env) (job_id : String) → Safe (cancel_forecast_job env job_id)
unfolding cancel_forecast_job
cancel_forecast_job-Safe env job_id (err e) g = tt
cancel_forecast_job-Safe env job_id (ok job) g =
    elim (Bool-cases (is_terminal_job_status job.status)) [
      | inl over ↦ rw over tt
      | inr active ↦ rw active λ t. (
        (cancelled_job-IsWellformed job g t (ground arith), (refl, (refl, tt))),
        λ r _. except_transition-Safe _ _ (λ _. tt) (λ _. tt) r,
      )
    ]

pub retry_forecast_job-Safe : (env : Env) (job_id : String) → Safe (retry_forecast_job env job_id)
unfolding retry_forecast_job
retry_forecast_job-Safe env job_id (err e) g = tt
retry_forecast_job-Safe env job_id (ok job) g =
    elim (Bool-cases (is_terminal_job_status job.status)) [
      | inl over ↦ rw over (elim [ ok retry ↦ λ _. tt | err e ↦ λ _. tt ])
      | inr active ↦ rw active tt
    ]

-- Cleanup is safe for the statuses that its type admits: terminal ones.
pub cleanup_forecast_jobs-Safe :
    (default : ℕ) (older_than_hours : Option ℕ) (statuses : Option (List ForecastJobStatus))
    → AllTerminal (or_terminal statuses)
    → Safe (cleanup_forecast_jobs default older_than_hours statuses)
unfolding cleanup_forecast_jobs
cleanup_forecast_jobs-Safe default older_than_hours statuses a t =
    unwrap-Safe _ (λ cutoff. (a, elim [ ok n ↦ tt | err e ↦ tt ])) (minus_timedelta t _)

validated-Safe :
    (o : Option ForecastJobDiagnostics) (k : ForecastJobDiagnostics → Task (Unit {0}))
    → ((d : ForecastJobDiagnostics) → Safe (k d))
    → Safe (validated o k)
validated-Safe none k h = tt
validated-Safe (some d) k h = h d

mark_failed-Safe :
    (job_id error : String) (diagnostics : Option Diagnostics)
    → Safe (mark_failed job_id error diagnostics)
unfolding mark_failed
mark_failed-Safe job_id error diagnostics (err e) g = tt
mark_failed-Safe job_id error diagnostics (ok job) g =
    elim (Bool-cases (same_status job.status running)) [
      | inr other ↦ rw other tt
      | inl here ↦ rw here λ t. validated-Safe (failure_diagnostics diagnostics) _ (λ payload. (
        (failed_job-IsWellformed job g error payload t (ground arith), (refl, tt)),
        λ r _. except_transition-Safe _ _ (λ _. tt) (λ _. tt) r,
      ))
    ]

mark_succeeded-Safe :
    (job_id : String) (result : ForecastProviderResult) → Safe (mark_succeeded job_id result)
unfolding mark_succeeded
mark_succeeded-Safe job_id result t (err e) g = tt
mark_succeeded-Safe job_id result t (ok job) g =
    elim (Bool-cases (same_status job.status running)) [
      | inr other ↦ rw other tt
      | inl here ↦ rw here (
          validated-Safe (success_diagnostics result.diagnostics) _ (λ payload. (
            (succeeded_job-IsWellformed job g result.summary payload t (ground arith), (refl, tt)),
            λ r _. except_transition-Safe _ _ (λ _. tt) (λ _. tt) r,
          )))
    ]

finish-Safe :
    (job_id : String) (answer : Answer ForecastProviderResult) → Safe (finish job_id answer)
unfolding finish
finish-Safe job_id (answered result) = mark_succeeded-Safe job_id result
finish-Safe job_id (raised (unavailable message diagnostics)) =
    mark_failed-Safe job_id message (some (error_diagnostics message diagnostics))
finish-Safe job_id (raised (unexpected text)) = mark_failed-Safe job_id _ none

get_provider_result-Safe :
    (method : Option (ℕ → Float → Float → Answer ForecastProviderResult)) (job : ForecastJob)
    (job_id : String)
    → Safe (get_provider_result method job (finish job_id))
get_provider_result-Safe none job job_id = λ a. finish-Safe job_id (plain_result a)
get_provider_result-Safe (some f) job job_id = λ a. finish-Safe job_id a

pub run_forecast_job-Safe : (env : Env) (job_id : String) → Safe (run_forecast_job env job_id)
unfolding run_forecast_job
run_forecast_job-Safe env job_id (err e) g = tt
run_forecast_job-Safe env job_id (ok job) g = elim (Bool-cases (same_status job.status queued)) [
  | inr other ↦ rw other tt
  | inl here ↦ rw here λ t. (
    (running_job-IsWellformed job g t (ground arith), (refl, tt)),
    λ r _.
        except_transition-Safe _ _
          (λ _.
            get_provider_result-Safe env.provider.get_point_forecast_with_diagnostics job job_id)
          (λ _. tt) r,
  )
]
