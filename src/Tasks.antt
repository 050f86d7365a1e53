-- ===== src/Tasks.antt =====
-- The application code as tasks: what a coroutine does between two calls of a port, and the calls
-- themselves (src/earth2_sandbox/application/ports). A task advances by one call at a time, so tasks
-- interleave as coroutines do; run to the end with nothing in between, it is a plain call.
pub mod Safe
pub mod Evolution
pub mod Pool
use earth2_sandbox.Prelude.{ℕ, suc, ◌+◌, ◌≡◌, refl, String, Option, none, some, List, [], ◌∷◌, ◌++◌}
use earth2_sandbox.Prelude.Dict
use earth2_sandbox.Prelude.Dict.{Dict}
use earth2_sandbox.Domain.Float.{Float}
use earth2_sandbox.Domain.Policies.{Datetime}
use earth2_sandbox.Domain.Status.{ForecastJobStatus}
use earth2_sandbox.Outcome.{Result, ok, err, Error, transition}
use earth2_sandbox.Jobs.{ForecastJob}
use earth2_sandbox.Jobs.Forecast.{ForecastSummary}
use earth2_sandbox.World.{Env, World, Answer, raised, unexpected, ForecastProviderResult}
use earth2_sandbox.Store.Memory

-- One constructor for each port method that the services call, with what comes after its reply.
pub data Task (A : Type 0) : Type 0 where
  return : A → Task A
  raise : Error → Task A
  -- ForecastJobStore
  create : Float → Float → Option String → ℕ → (Result ForecastJob → Task A) → Task A
  get : String → (Result ForecastJob → Task A) → Task A
  update_if_status : ForecastJob → List ForecastJobStatus → (Result ForecastJob → Task A) → Task A
  list_recent : ℕ → Option ForecastJobStatus → (List ForecastJob → Task A) → Task A
  list_active : (List ForecastJob → Task A) → Task A
  delete_older_than : Datetime → List ForecastJobStatus → (Result ℕ → Task A) → Task A
  -- Clock
  now : (Datetime → Task A) → Task A
  -- ForecastProvider
  get_point_forecast : Float → Float → (Answer ForecastSummary → Task A) → Task A
  get_point_forecast_with_diagnostics :
      Float → Float → (Answer ForecastProviderResult → Task A) → Task A
  -- ForecastJobWorker
  enqueue : String → Task A → Task A
  -- increment_forecast_job_event
  increment_forecast_job_event : String → Task A → Task A

module _ {A B : Type 0} where
  abbrev pub unwrap : (B → Task A) → Result B → Task A
  unwrap f (ok b) = f b
  unwrap f (err e) = raise e

  -- A call that is not inside a `try`: an error of its reply ends the task.
  infixl 5 ◌>>=◌
  abbrev pub ◌>>=◌ : ((Result B → Task A) → Task A) → (B → Task A) → Task A
  call >>= f = call (unwrap f)

abbrev pub count_of : Option ℕ → ℕ
count_of none = 0
count_of (some n) = n

-- self._forecast_job_counts[labels] = self._forecast_job_counts.get(labels, 0) + 1
unfoldable pub increment : String → World → World
unfolding Dict.get Dict.put
increment event w = record w {
  job_counts = Dict.put w.job_counts event (count_of (Dict.get w.job_counts event) + 1);
}

abbrev pub ask_extended :
    Option (ℕ → Float → Float → Answer ForecastProviderResult)
    → ℕ
    → Float
    → Float
    → Answer ForecastProviderResult
ask_extended none n latitude longitude = raised (unexpected "AttributeError")
ask_extended (some method) n latitude longitude = method n latitude longitude

module _ {A : Type 0} where
  abbrev pub reply : {B : Type 0} → (B → Task A) → B × World → Task A × World
  reply k (b, w) = (k b, w)

  -- One call.
  unfoldable pub step : Env → Task A → World → Task A × World
  step env (return a) w = (return a, w)
  step env (raise e) w = (raise e, w)
  step env (create latitude longitude parent_job_id attempt k) w =
      reply k (Memory.create env latitude longitude parent_job_id attempt w)
  step env (get job_id k) w = reply k (Memory.get job_id w)
  step env (update_if_status job expected_statuses k) w =
      reply k (Memory.update_if_status env job expected_statuses w)
  step env (list_recent limit status k) w = (k (Memory.list_recent limit status w), w)
  step env (list_active k) w = (k (Memory.list_active w), w)
  step env (delete_older_than cutoff statuses k) w =
      reply k (Memory.delete_older_than cutoff statuses w)
  step env (now k) w = (k (env.clock w.clock_reads), record w { clock_reads = suc w.clock_reads })
  step env (get_point_forecast latitude longitude k) w = (
    k (env.provider.get_point_forecast w.provider_calls latitude longitude),
    record w { provider_calls = suc w.provider_calls },
  )
  step env (get_point_forecast_with_diagnostics latitude longitude k) w = (
    k (
        ask_extended env.provider.get_point_forecast_with_diagnostics w.provider_calls latitude
          longitude),
    record w { provider_calls = suc w.provider_calls },
  )
  step env (enqueue job_id t) w = (t, record w { enqueued = w.enqueued ++ job_id ∷ [] })
  step env (increment_forecast_job_event event t) w = (t, increment event w)

  -- The task to its end, with nothing in between: what it returns or raises.
  unfoldable pub run : Env → Task A → World → Result A × World
  run env (return a) w = (ok a, w)
  run env (raise e) w = (err e, w)
  run env (create latitude longitude parent_job_id attempt k) w =
      let (r, w') = Memory.create env latitude longitude parent_job_id attempt w in run env (k r) w'
  run env (get job_id k) w = let (r, w') = Memory.get job_id w in run env (k r) w'
  run env (update_if_status job expected_statuses k) w =
      let (r, w') = Memory.update_if_status env job expected_statuses w in run env (k r) w'
  run env (list_recent limit status k) w = run env (k (Memory.list_recent limit status w)) w
  run env (list_active k) w = run env (k (Memory.list_active w)) w
  run env (delete_older_than cutoff statuses k) w =
      let (r, w') = Memory.delete_older_than cutoff statuses w in run env (k r) w'
  run env (now k) w =
      run env (k (env.clock w.clock_reads)) (record w { clock_reads = suc w.clock_reads })
  run env (get_point_forecast latitude longitude k) w =
      run env (k (env.provider.get_point_forecast w.provider_calls latitude longitude))
        (record w { provider_calls = suc w.provider_calls })
  run env (get_point_forecast_with_diagnostics latitude longitude k) w =
      run env
        (k (
          ask_extended env.provider.get_point_forecast_with_diagnostics w.provider_calls latitude
            longitude))
        (record w { provider_calls = suc w.provider_calls })
  run env (enqueue job_id t) w = run env t (record w { enqueued = w.enqueued ++ job_id ∷ [] })
  run env (increment_forecast_job_event event t) w = run env t (increment event w)

  -- A call advanced by one step ends as it would have ended.
  pub run-step :
      (env : Env) (t : Task A) (w : World) → run env (step env t w).0 (step env t w).1 ≡ run env t w
  unfolding run step
  run-step env (return a) w = refl
  run-step env _ w = refl

module _ {A B : Type 0} where
  -- `try: ... except ForecastJobTransitionError: ...` around a call of the store: the code after
  -- it, and the handler with the status that the error reports. Other errors end the task.
  abbrev pub except_transition : (B → Task A) → (ForecastJobStatus → Task A) → Result B → Task A
  except_transition f handler (ok b) = f b
  except_transition f handler (err (transition job_id current_status expected_statuses)) =
      handler current_status
  except_transition f handler (err e) = raise e
