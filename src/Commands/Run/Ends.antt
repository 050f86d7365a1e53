-- ===== src/Commands/Run/Ends.antt =====
-- How a run of a job ends after the answer of its provider.
use earth2_sandbox.Prelude.{◌≡◌, refl, ap, ◌∙◌, true, String, Option, none, some, [], ◌∷◌}
use earth2_sandbox.Prelude.Dict
use earth2_sandbox.Prelude.Dict.{Dict, get-put, get-put_self}
use earth2_sandbox.Domain.Status.{running, is_in}
use earth2_sandbox.Domain.Uuid.{parse_uuid}
use earth2_sandbox.Outcome.{Result, ok, err, validation_error, ◌⧺◌}
use earth2_sandbox.Jobs.{ForecastJob, ForecastJobDiagnostics}
use earth2_sandbox.World.{
  Env, World, Answer, answered, raised, unavailable, unexpected, ForecastProviderResult,
  Diagnostics,
}
use earth2_sandbox.Store.Memory.Laws.{stamped, ticked, get_found, update_allowed}
use earth2_sandbox.Tasks.{run, increment}
use earth2_sandbox.Commands.Run.{
  succeeded_job, failed_job, mark_failed, mark_succeeded, success_diagnostics, failure_diagnostics,
  error_diagnostics, finish,
}

-- the diagnostics that are stored with the provider's answer, if they are valid
abbrev pub stored_diagnostics : Answer ForecastProviderResult → Option ForecastJobDiagnostics
stored_diagnostics (answered result) = success_diagnostics result.diagnostics
stored_diagnostics (raised (unavailable message diagnostics)) =
    failure_diagnostics (some (error_diagnostics message diagnostics))
stored_diagnostics (raised (unexpected reason)) = failure_diagnostics none

-- the job as it stands after the provider's answer: succeeded with the forecast, or failed with the
-- error
abbrev pub finished :
    Env → World → ForecastJob → Answer ForecastProviderResult → ForecastJobDiagnostics → ForecastJob
finished env w job (answered result) payload =
    stamped env (ticked w) (succeeded_job job result.summary payload (env.clock w.clock_reads))
finished env w job (raised (unavailable message diagnostics)) payload =
    stamped env (ticked w) (failed_job job message payload (env.clock w.clock_reads))
finished env w job (raised (unexpected reason)) payload =
    stamped env (ticked w) (
      failed_job job ("Unexpected forecast job error: " ⧺ reason) payload (env.clock w.clock_reads))

-- A run returns and the job ends, or the diagnostics are refused and it stays as it is.
abbrev pub AfterAnswer :
    Result (Unit {0}) × World
    → Dict ForecastJob
    → String
    → Option ForecastJobDiagnostics
    → (ForecastJobDiagnostics → ForecastJob)
    → Type 0
AfterAnswer (r, w') jobs key none end = (r ≡ err validation_error) × (w'.jobs ≡ jobs)
AfterAnswer (r, w') jobs key (some payload) end =
    (r ≡ ok tt) × (w'.jobs ≡ Dict.put jobs key (end payload))

module _ (env : Env) (job_id key : String) (w : World) (job : ForecastJob)
    (p : parse_uuid job_id ≡ some key) (found : Dict.get w.jobs key ≡ some job)
    (here : job.id ≡ key) (canonical : parse_uuid job.id ≡ some job.id)
    (claimed : job.status ≡ running) where
  in_running : is_in job.status (running ∷ []) ≡ true
  in_running = rw claimed

  mark_succeeded_lem :
      (result : ForecastProviderResult) (o : Option ForecastJobDiagnostics)
      → success_diagnostics result.diagnostics ≡ o
      → AfterAnswer
          (run env (mark_succeeded job_id result) w)
          w.jobs
          job.id
          o
          (finished env w job (answered result))
  unfolding mark_succeeded run increment
  mark_succeeded_lem result none e =
      rw (get_found job_id key (ticked w) job p found, run, claimed, e, run) (refl, refl)
  mark_succeeded_lem result (some payload) e =
      rw
        (
          get_found job_id key (ticked w) job p found,
          run,
          claimed,
          e,
          update_allowed env (succeeded_job job result.summary payload (env.clock w.clock_reads))
              job (running ∷ []) (ticked w) canonical (ap (Dict.get w.jobs) here ∙ found)
              in_running,
          run,
        )
        (refl, refl)

  mark_failed_lem :
      (error : String) (diagnostics : Option Diagnostics) (o : Option ForecastJobDiagnostics)
      → failure_diagnostics diagnostics ≡ o
      → AfterAnswer (run env (mark_failed job_id error diagnostics) w) w.jobs job.id o (λ payload.
        stamped env (ticked w) (failed_job job error payload (env.clock w.clock_reads)))
  unfolding mark_failed run increment
  mark_failed_lem error diagnostics none e =
      rw (get_found job_id key w job p found, run, claimed, e, run) (refl, refl)
  mark_failed_lem error diagnostics (some payload) e =
      rw
        (
          get_found job_id key w job p found,
          run,
          claimed,
          e,
          update_allowed env (failed_job job error payload (env.clock w.clock_reads)) job
              (running ∷ []) (ticked w) canonical (ap (Dict.get w.jobs) here ∙ found) in_running,
          run,
        )
        (refl, refl)

  pub finish_lem :
      (answer : Answer ForecastProviderResult)
      → AfterAnswer
          (run env (finish job_id answer) w)
          w.jobs
          job.id
          (stored_diagnostics answer)
          (finished env w job answer)
  unfolding finish
  finish_lem (answered result) = mark_succeeded_lem result _ refl
  finish_lem (raised (unavailable message diagnostics)) =
      mark_failed_lem message (some (error_diagnostics message diagnostics)) _ refl
  finish_lem (raised (unexpected reason)) =
      mark_failed_lem ("Unexpected forecast job error: " ⧺ reason) none _ refl
