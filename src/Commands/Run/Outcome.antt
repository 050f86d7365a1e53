-- ===== src/Commands/Run/Outcome.antt =====
-- What a run of a job that nothing interrupts leaves behind, from each answer of the provider.
use earth2_sandbox.Prelude.{
  ℕ, suc, ◌≡◌, refl, sym, ap, subst, ◌∙◌, true, false, String, Option, none, some, [], ◌∷◌,
}
use earth2_sandbox.Prelude.Dict
use earth2_sandbox.Prelude.Dict.{Dict, get-put, get-put_self}
use earth2_sandbox.Prelude.Dict.Entries.{get-Entries}
use earth2_sandbox.Domain.Float.{Float}
use earth2_sandbox.Domain.Status.{queued, same_status}
use earth2_sandbox.Domain.Uuid.{parse_uuid}
use earth2_sandbox.Outcome.{Result, ok}
use earth2_sandbox.Jobs.{ForecastJob, ForecastJobDiagnostics}
use earth2_sandbox.World.{
  Env, World, Answer, answered, raised, unavailable, unexpected, ForecastProviderResult,
}
use earth2_sandbox.Store.Memory.Invariant.{Entry, IsConsistent}
use earth2_sandbox.Store.Memory.Laws.{stamped, ticked, written, get_found, update_allowed}
use earth2_sandbox.Tasks.{Task, run, increment}
use earth2_sandbox.Jobs.Forecast.{ForecastSummary}
use earth2_sandbox.Commands.Run.{
  running_job, succeeded_job, failed_job, finish, plain_result, get_provider_result,
  run_forecast_job,
}
use earth2_sandbox.Commands.Run.Ends.{stored_diagnostics, finished, AfterAnswer, finish_lem}

-- the answer by the method that the provider has
abbrev asked :
    (ℕ → Float → Float → Answer ForecastSummary)
    → Option (ℕ → Float → Float → Answer ForecastProviderResult)
    → ℕ
    → ForecastJob
    → Answer ForecastProviderResult
asked plain none n job = plain_result (plain n job.latitude job.longitude)
asked plain (some method) n job = method n job.latitude job.longitude

abbrev pub answer_for : Env → World → ForecastJob → Answer ForecastProviderResult
answer_for env w job =
    asked env.provider.get_point_forecast env.provider.get_point_forecast_with_diagnostics
      w.provider_calls job

abbrev pub called : World → World
called w = record w { provider_calls = suc w.provider_calls }

get_provider_result_lem :
    (env : Env) (job : ForecastJob) (k : Answer ForecastProviderResult → Task (Unit {0}))
    (w : World) (m : Option (ℕ → Float → Float → Answer ForecastProviderResult))
    → env.provider.get_point_forecast_with_diagnostics ≡ m
    → run env (get_provider_result m job k) w
      ≡ run env (k (asked env.provider.get_point_forecast m w.provider_calls job)) (called w)
unfolding run
get_provider_result_lem env job k w none e = refl
get_provider_result_lem env job k w (some method) e = rw (e)

-- the job while its forecast is computed, and the world that the answer comes back to
abbrev pub claimed_job : Env → World → ForecastJob → ForecastJob
claimed_job env w job = stamped env (ticked w) (running_job job (env.clock w.clock_reads))

abbrev pub claimed_world : Env → World → ForecastJob → World
claimed_world env w job =
    increment "started" (written env (running_job job (env.clock w.clock_reads)) (ticked w))

module _ (env : Env) (job_id key : String) (w : World) (job : ForecastJob)
    (p : parse_uuid job_id ≡ some key) (found : Dict.get w.jobs key ≡ some job)
    (here : job.id ≡ key) (canonical : parse_uuid job.id ≡ some job.id)
    (waiting : job.status ≡ queued) where
  waits : same_status job.status queued ≡ true
  waits = rw waiting

  run_to_finish :
      run env (run_forecast_job env job_id) w
      ≡ run env
          (finish job_id (answer_for env (claimed_world env w job) job))
          (called (claimed_world env w job))
  unfolding run_forecast_job run
  run_to_finish =
      rw
        (
          get_found job_id key w job p found,
          run,
          waits,
          update_allowed env (running_job job (env.clock w.clock_reads)) job (queued ∷ [])
              (ticked w) canonical (ap (Dict.get w.jobs) here ∙ found) (rw waiting refl),
          run,
        )
        (get_provider_result_lem env job (finish job_id) (claimed_world env w job)
          env.provider.get_point_forecast_with_diagnostics refl)

pub run_forecast_job_lem :
    (env : Env) (job_id key : String) (w : World) (job : ForecastJob)
    → IsConsistent w.jobs
    → parse_uuid job_id ≡ some key
    → Dict.get w.jobs key ≡ some job
    → job.status ≡ queued
    → let answer = answer_for env (claimed_world env w job) job in
      AfterAnswer
        (run env (run_forecast_job env job_id) w)
        (Dict.put w.jobs key (claimed_job env w job))
        key
        (stored_diagnostics answer)
        (finished env (called (claimed_world env w job)) (claimed_job env w job) answer)
unfolding increment running_job
run_forecast_job_lem env job_id key w job c p found waiting =
    let (here, g) = get-Entries Entry w.jobs key job c.entries found in
    let v = called (claimed_world env w job) in
    let answer = answer_for env (claimed_world env w job) job in
    let claimed = get-put_self w.jobs key (claimed_job env w job) in
    rw (run_to_finish env job_id key w job p found here g.canonical waiting) (
      subst
        (λ k.
          AfterAnswer (run env (finish job_id answer) v) (Dict.put w.jobs k (claimed_job env w job))
            k (stored_diagnostics answer) (finished env v (claimed_job env w job) answer))
        here
        (finish_lem env job_id key v (claimed_job env w job) p
          (subst
            (λ k.
              Dict.get (Dict.put w.jobs k (claimed_job env w job)) key
              ≡ some (claimed_job env w job))
            (sym here) claimed)
          here g.canonical refl answer))

finished-not_queued :
    (env : Env) (w : World) (job : ForecastJob) (answer : Answer ForecastProviderResult)
    (payload : ForecastJobDiagnostics)
    → same_status (finished env w job answer payload).status queued ≡ false
unfolding succeeded_job failed_job
finished-not_queued env w job (answered result) payload = refl
finished-not_queued env w job (raised (unavailable message diagnostics)) payload = refl
finished-not_queued env w job (raised (unexpected reason)) payload = refl

-- what is stored under the key after the run
AfterAnswer-stored :
    (after : Result (Unit {0}) × World) (jobs : Dict ForecastJob) (key : String)
    (o : Option ForecastJobDiagnostics) (end : ForecastJobDiagnostics → ForecastJob)
    (claimed : ForecastJob)
    → AfterAnswer after jobs key o end
    → Dict.get jobs key ≡ some claimed
    → same_status claimed.status queued ≡ false
    → ((payload : ForecastJobDiagnostics) → same_status (end payload).status queued ≡ false)
    → (stored : ForecastJob) × (Dict.get after.1.jobs key ≡ some stored)
      × (same_status stored.status queued ≡ false)
AfterAnswer-stored after jobs key none end claimed h found idle ended =
    (claimed, ap (λ d. Dict.get d key) h.1 ∙ found, idle)
AfterAnswer-stored after jobs key (some payload) end claimed h found idle ended =
    (end payload, ap (λ d. Dict.get d key) h.1 ∙ get-put_self jobs key (end payload), ended payload)

run_forecast_job-idle :
    (env : Env) (job_id key : String) (w : World) (job : ForecastJob)
    → parse_uuid job_id ≡ some key
    → Dict.get w.jobs key ≡ some job
    → same_status job.status queued ≡ false
    → run env (run_forecast_job env job_id) w ≡ (ok tt, w)
unfolding run_forecast_job run
run_forecast_job-idle env job_id key w job p found idle =
    rw (get_found job_id key w job p found, run, idle, run)

-- A queued job of a consistent table is executed once, if nothing else touches it: the second run of
-- it, after the first, however that ends, returns without an error
-- and changes nothing, the count of the calls of the provider included.
pub run_forecast_job-once :
    (env : Env) (job_id key : String) (w : World) (job : ForecastJob)
    → IsConsistent w.jobs
    → parse_uuid job_id ≡ some key
    → Dict.get w.jobs key ≡ some job
    → job.status ≡ queued
    → let (r, w') = run env (run_forecast_job env job_id) w in
      run env (run_forecast_job env job_id) w' ≡ (ok tt, w')
run_forecast_job-once env job_id key w job c p found waiting =
    let v = called (claimed_world env w job) in
    let claimed = claimed_job env w job in
    let answer = answer_for env (claimed_world env w job) job in
    let (stored, found', idle) =
      AfterAnswer-stored (run env (run_forecast_job env job_id) w) (Dict.put w.jobs key claimed) key
        (stored_diagnostics answer) (finished env v claimed answer) claimed
        (run_forecast_job_lem env job_id key w job c p found waiting)
        (get-put_self w.jobs key claimed) (unfold running_job in refl)
        (finished-not_queued env v claimed answer) in
    run_forecast_job-idle env job_id key _ stored p found' idle
