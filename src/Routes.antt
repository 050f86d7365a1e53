-- ===== src/Routes.antt =====
-- The routes of src/earth2_sandbox/api/http/v1/routers/forecast_jobs.py, each run without another
-- request in between. The framework turns requests down that do not fit the declared types, with 422;
-- an exception that no route names becomes a 500. Log lines are left out. A background task is a
-- call of the worker that stands in the world, as everywhere else.
pub mod Requests
pub mod Statuses
use earth2_sandbox.Prelude.{
  ℕ, ◌++◌, String, Bool, true, false, ◌&&◌, Option, none, some, List, [], ◌∷◌, leb, if◌then◌else◌,
}
use earth2_sandbox.Domain.Float.{Float, is_within}
use earth2_sandbox.Domain.Status.{ForecastJobStatus, is_in, terminal_job_statuses}
use earth2_sandbox.Outcome.{
  Result, ok, err, Error, not_found, conflict, transition, status_text, ◌⧺◌,
}
use earth2_sandbox.Jobs.{
  ForecastJob, ForecastJobListResponse, ForecastJobPollResponse, ForecastJobCleanupResponse,
}
use earth2_sandbox.World.{Env, World}
use earth2_sandbox.Tasks.{Task, run}
use earth2_sandbox.Commands.Submit.{submit_forecast_job}
use earth2_sandbox.Commands.Cancel.{cancel_forecast_job}
use earth2_sandbox.Commands.Retry.{retry_forecast_job}
use earth2_sandbox.Commands.Cleanup.{cleanup_forecast_jobs, sorted_set}
use earth2_sandbox.Queries.{get_forecast_job, list_forecast_jobs, poll_forecast_job}

pub record ForecastJobCreateRequest : Type 0 where
  pub latitude : Float
  pub longitude : Float

-- with the defaults of fields that the body leaves out filled in
pub record ForecastJobCleanupRequest : Type 0 where
  pub older_than_hours : ℕ
  pub statuses : List ForecastJobStatus

pub data Reply (A : Type 0) : Type 0 where
  responded : (status_code : ℕ) → A → Reply A
  http_exception : (status_code : ℕ) (detail : String) → Reply A
  unprocessable : Reply A
  uncaught : Error → Reply A

abbrev pub status_code_of : {A : Type 0} → Reply A → ℕ
status_code_of (responded status_code body) = status_code
status_code_of (http_exception status_code detail) = status_code
status_code_of unprocessable = 422
status_code_of (uncaught e) = 500

-- `", ".join(...)`
abbrev pub join_statuses : List ForecastJobStatus → String
join_statuses [] = ""
join_statuses (s ∷ []) = status_text s
join_statuses (s ∷ t ∷ ss) = status_text s ⧺ (", " ⧺ join_statuses (t ∷ ss))

-- The message of a ForecastJobTransitionError, which is a ForecastJobConflictError.
abbrev pub transition_message : String → ForecastJobStatus → List ForecastJobStatus → String
transition_message job_id current expected =
    "Cannot transition forecast job "
    ⧺ (job_id
        ⧺ (" from "
            ⧺ (status_text current
                ⧺ ("; expected one of: " ⧺ (join_statuses (sorted_set expected) ⧺ ".")))))

module _ {A : Type 0} where
  -- `except ForecastJobNotFoundError`, where nothing else is named
  abbrev pub except_not_found : ℕ → Result A → Reply A
  except_not_found status_code (ok body) = responded status_code body
  except_not_found status_code (err (not_found job_id)) =
      http_exception 404 "Forecast job not found."
  except_not_found status_code (err e) = uncaught e

  -- and with `except ForecastJobConflictError`
  abbrev pub except_conflict : ℕ → Result A → Reply A
  except_conflict status_code (ok body) = responded status_code body
  except_conflict status_code (err (not_found job_id)) =
      http_exception 404 "Forecast job not found."
  except_conflict status_code (err (conflict message)) = http_exception 409 message
  except_conflict status_code (err (transition job_id current expected)) =
      http_exception 409 (transition_message job_id current expected)
  except_conflict status_code (err e) = uncaught e

  -- with no handler
  abbrev pub plain : ℕ → Result A → Reply A
  plain status_code (ok body) = responded status_code body
  plain status_code (err e) = uncaught e

  abbrev pub answered_by : (Result A → Reply A) → Result A × World → Reply A × World
  answered_by f (r, w) = (f r, w)

abbrev pub enqueue_job : String → World → World
enqueue_job job_id w = record w { enqueued = w.enqueued ++ job_id ∷ [] }

-- the rest of a route after the job that it returns
abbrev pub then_enqueue : Result ForecastJob × World → Result ForecastJob × World
then_enqueue (ok job, w) = (ok job, enqueue_job job.id w)
then_enqueue (err e, w) = (err e, w)

unfoldable pub create_forecast_job :
    Env → ForecastJobCreateRequest → World → Reply ForecastJob × World
create_forecast_job env request w =
    let made = run env (submit_forecast_job env request.latitude request.longitude) w in
    if is_within 90 request.latitude && is_within 180 request.longitude
    then answered_by (plain 202) (then_enqueue made)
    else (unprocessable, w)

unfoldable pub list_jobs :
    Env → ℕ → Option ForecastJobStatus → World → Reply ForecastJobListResponse × World
list_jobs env limit job_status w =
    if leb 1 limit && leb limit 100
    then answered_by (plain 200) (run env (list_forecast_jobs env limit job_status) w)
    else (unprocessable, w)

abbrev pub are_terminal : List ForecastJobStatus → Bool
are_terminal [] = true
are_terminal (s ∷ ss) = is_in s terminal_job_statuses && are_terminal ss

abbrev pub fits : Option ForecastJobCleanupRequest → Bool
fits none = true
fits (some request) =
    leb 1 request.older_than_hours
    && leb request.older_than_hours 8760
    && are_terminal request.statuses

-- `request.older_than_hours if request else None`
abbrev pub older_than_hours_of : Option ForecastJobCleanupRequest → Option ℕ
older_than_hours_of none = none
older_than_hours_of (some request) = some request.older_than_hours

abbrev pub statuses_of : Option ForecastJobCleanupRequest → Option (List ForecastJobStatus)
statuses_of none = none
statuses_of (some request) = some request.statuses

unfoldable pub cleanup_jobs :
    Env → ℕ → Option ForecastJobCleanupRequest → World → Reply ForecastJobCleanupResponse × World
cleanup_jobs env default_retention_hours request w =
    let task =
      cleanup_forecast_jobs default_retention_hours (older_than_hours_of request)
        (statuses_of request) in
    if fits request then answered_by (plain 200) (run env task w) else (unprocessable, w)

unfoldable pub get_job : Env → String → World → Reply ForecastJob × World
get_job env job_id w = answered_by (except_not_found 200) (run env (get_forecast_job env job_id) w)

unfoldable pub poll_job : Env → String → World → Reply ForecastJobPollResponse × World
poll_job env job_id w =
    answered_by (except_not_found 200) (run env (poll_forecast_job env job_id) w)

unfoldable pub cancel_job : Env → String → World → Reply ForecastJob × World
cancel_job env job_id w =
    answered_by (except_conflict 200) (run env (cancel_forecast_job env job_id) w)

unfoldable pub retry_job : Env → String → World → Reply ForecastJob × World
retry_job env job_id w =
    answered_by (except_conflict 202) (then_enqueue (run env (retry_forecast_job env job_id) w))
