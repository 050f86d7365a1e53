-- ===== src/Routes/Statuses.antt =====
-- The status code of each route of src/earth2_sandbox/api/http/v1/routers/forecast_jobs.py, and the jobs
-- that it hands to the worker.
use earth2_sandbox.Prelude.{
  ℕ, zero, suc, ◌≡◌, ◌≤◌, ◌⊎◌, refl, String, Bool, true, false, ◌&&◌, Option, none, some, List, leb,
  inl, inr, Bool-cases, Option-cases, arith,
}
use earth2_sandbox.Prelude.Dict
use earth2_sandbox.Domain.Float.{is_within}
use earth2_sandbox.Domain.Policies.{hours, minus_timedelta}
use earth2_sandbox.Domain.Status.{ForecastJobStatus, is_terminal_job_status}
use earth2_sandbox.Domain.Uuid.{parse_uuid}
use earth2_sandbox.Outcome.{Result, ok, err, not_found}
use earth2_sandbox.Jobs.{ForecastJob}
use earth2_sandbox.Jobs.View.{with_job_links, to_job_poll_response}
use earth2_sandbox.World.{Env, World}
use earth2_sandbox.Tasks.{run, increment}
use earth2_sandbox.Store.Memory
use earth2_sandbox.Store.Memory.Invariant.{IsConsistent}
use earth2_sandbox.Store.Memory.Laws.{get_found, get_missing, get_invalid}
use earth2_sandbox.Commands.Submit.Outcome.{submit_forecast_job_lem}
use earth2_sandbox.Commands.Cancel.{cancel_forecast_job}
use earth2_sandbox.Commands.Cancel.Outcome.{cancellation, cancel_forecast_job_lem}
use earth2_sandbox.Commands.Retry.{retry_forecast_job}
use earth2_sandbox.Commands.Retry.Outcome.{retrial, retry_forecast_job_lem}
use earth2_sandbox.Commands.Cleanup.{or_number, cleanup_forecast_jobs}
use earth2_sandbox.Commands.Cleanup.Outcome.{Lasts-or_number, cleanup_forecast_jobs_lem}
use earth2_sandbox.Queries.{get_forecast_job, list_forecast_jobs, poll_forecast_job}
use earth2_sandbox.Routes.{
  ForecastJobCleanupRequest, create_forecast_job, list_jobs, cleanup_jobs, fits,
  older_than_hours_of, statuses_of, get_job, poll_job, cancel_job, retry_job,
}
use earth2_sandbox.Routes.Requests.{
  JobsRequest, create, list, cleanup, get, poll, cancel, retry, handle, stored, documented_status,
  Documented,
}

module _ {A : Type 0} (f : ForecastJob → A) where
  -- what a query answers
  abbrev looked_up : String → Option ForecastJob → Result A
  looked_up job_id none = err (not_found job_id)
  looked_up job_id (some job) = ok (f job)

module _ (env : Env) (job_id : String) (w : World) where
  run_get :
      run env (get_forecast_job env job_id) w
      ≡ (looked_up (with_job_links env.float_text) job_id (stored w job_id), w)
  unfolding get_forecast_job run
  run_get = elim (Option-cases (parse_uuid job_id)) [
    | inl bad ↦ rw (get_invalid job_id w bad, bad, run)
    | inr (key, good) ↦ elim (Option-cases (Dict.get w.jobs key)) [
      | inl missing ↦ rw (get_missing job_id key w good missing, good, missing, run)
      | inr (job, found) ↦ rw (get_found job_id key w job good found, good, found, run)
    ]
  ]

  run_poll : run env (poll_forecast_job env job_id) w ≡ (
    looked_up
        (λ job. to_job_poll_response (with_job_links env.float_text job))
        job_id
        (stored w job_id),
    w,
  )
  unfolding poll_forecast_job run
  run_poll = elim (Option-cases (parse_uuid job_id)) [
    | inl bad ↦ rw (get_invalid job_id w bad, bad, run)
    | inr (key, good) ↦ elim (Option-cases (Dict.get w.jobs key)) [
      | inl missing ↦ rw (get_missing job_id key w good missing, good, missing, run)
      | inr (job, found) ↦ rw (get_found job_id key w job good found, good, found, run)
    ]
  ]

  run_cancel :
      IsConsistent w.jobs
      → run env (cancel_forecast_job env job_id) w ≡ cancellation env job_id (stored w job_id) w
  unfolding cancel_forecast_job run
  run_cancel c = elim (Option-cases (parse_uuid job_id)) [
    | inl bad ↦ rw (get_invalid job_id w bad, bad, run)
    | inr (key, good) ↦ rw good (cancel_forecast_job_lem env job_id key w c good)
  ]

  run_retry :
      (id : String)
      → IsConsistent w.jobs
      → parse_uuid (env.new_id w.ids_made) ≡ some id
      → run env (retry_forecast_job env job_id) w ≡ retrial env job_id id (stored w job_id) w
  unfolding retry_forecast_job run
  run_retry id c made = elim (Option-cases (parse_uuid job_id)) [
    | inl bad ↦ rw (get_invalid job_id w bad, bad, run)
    | inr (key, good) ↦ rw good (retry_forecast_job_lem env job_id key w id c good made)
  ]

cleanup-enqueued :
    (env : Env) (retention : ℕ) (older_than : Option ℕ) (statuses : Option (List ForecastJobStatus))
    (w : World)
    → (run env (cleanup_forecast_jobs retention older_than statuses) w).1.enqueued ≡ w.enqueued
unfolding cleanup_forecast_jobs run minus_timedelta Memory.delete_older_than Memory.delete_jobs
cleanup-enqueued env retention older_than statuses w = ground arith

or_number_fits :
    (n retention bound : ℕ)
    → leb 1 n ≡ true
    → leb n 8760 ≡ true
    → hours 8760 ≤ bound
    → hours (or_number (some n) retention) ≤ bound
or_number_fits zero retention bound positive small h = absurd (ground (arith, positive))
or_number_fits (suc n) retention bound positive small h = ground (arith, small)

retention_passed :
    (env : Env) (retention : ℕ) (request : Option ForecastJobCleanupRequest) (w : World)
    → hours retention ≤ env.clock w.clock_reads
    → hours 8760 ≤ env.clock w.clock_reads
    → fits request ≡ true
    → hours (or_number (older_than_hours_of request) retention) ≤ env.clock w.clock_reads
retention_passed env retention none w late longest here = late
retention_passed env retention (some request) w late longest here =
    or_number_fits request.older_than_hours retention (env.clock w.clock_reads)
      (ground (arith, here)) (ground (arith, here)) longest

within_cases : (b c : Bool) → ((b ≡ true) × (c ≡ true)) ⊎ ((b && c) ≡ false)
within_cases true true = inl (refl, refl)
within_cases true false = inr refl
within_cases false c = inr refl

-- The routes on a consistent table, one request at a time, when the identifier generator makes the
-- UUID `id` and the clock is past the longest retention. The status code is the documented one: 404
-- exactly for an identifier without a job, 409 exactly for a job that is in the wrong state, 422 exactly
-- for a request that is out of range, and never 500. The worker is given one more identifier, that
-- of the new job, exactly with a 202.
pub handle-Documented :
    (env : Env) (retention : ℕ) (request : JobsRequest) (w : World) (id : String)
    → IsConsistent w.jobs
    → parse_uuid (env.new_id w.ids_made) ≡ some id
    → hours retention ≤ env.clock w.clock_reads
    → hours 8760 ≤ env.clock w.clock_reads
    → Documented (handle env retention request w) (documented_status request w) id w
unfolding handle create_forecast_job list_jobs cleanup_jobs get_job poll_job cancel_job retry_job
handle-Documented env retention (create request) w id c made late longest =
    elim (within_cases (is_within 90 request.latitude) (is_within 180 request.longitude)) [
      | inl (north, east) ↦
          rw (submit_forecast_job_lem env request.latitude request.longitude w id made, north, east)
            (refl, unfold increment in unfold with_job_links in refl)
      | inr out ↦ rw out (refl, refl)
    ]
handle-Documented env retention (list limit job_status) w id c made late longest =
    elim (Bool-cases (leb 1 limit && leb limit 100)) [
      | inl here ↦ rw here (unfold list_forecast_jobs in unfold run in (refl, refl))
      | inr out ↦ rw out (refl, refl)
    ]
handle-Documented env retention (cleanup request) w id c made late longest =
    elim (Bool-cases (fits request)) [
      | inl here ↦
          let long_ago = retention_passed env retention request w late longest here in
          rw
            (
              here,
              (cleanup_forecast_jobs_lem env retention (older_than_hours_of request)
                  (statuses_of request) w (or_number (older_than_hours_of request) retention) c
                  (Lasts-or_number (older_than_hours_of request) retention) long_ago).0,
            )
            (
              refl,
              cleanup-enqueued env retention (older_than_hours_of request) (statuses_of request) w,
            )
      | inr out ↦ rw out (refl, refl)
    ]
handle-Documented env retention (get job_id) w id c made late longest =
    elim (Option-cases (stored w job_id)) [
      | inl missing ↦ rw (run_get env job_id w, missing) (refl, refl)
      | inr (job, found) ↦ rw (run_get env job_id w, found) (refl, refl)
    ]
handle-Documented env retention (poll job_id) w id c made late longest =
    elim (Option-cases (stored w job_id)) [
      | inl missing ↦ rw (run_poll env job_id w, missing) (refl, refl)
      | inr (job, found) ↦ rw (run_poll env job_id w, found) (refl, refl)
    ]
handle-Documented env retention (cancel job_id) w id c made late longest =
    elim (Option-cases (stored w job_id)) [
      | inl missing ↦ rw (run_cancel env job_id w c, missing) (refl, refl)
      | inr (job, found) ↦ elim (Bool-cases (is_terminal_job_status job.status)) [
        | inl over ↦ rw (run_cancel env job_id w c, found, over) (refl, refl)
        | inr active ↦
            rw (run_cancel env job_id w c, found, active) (refl, unfold increment in refl)
      ]
    ]
handle-Documented env retention (retry job_id) w id c made late longest =
    elim (Option-cases (stored w job_id)) [
      | inl missing ↦ rw (run_retry env job_id w id c made, missing) (refl, refl)
      | inr (job, found) ↦ elim (Bool-cases (is_terminal_job_status job.status)) [
        | inl over ↦
            rw (run_retry env job_id w id c made, found, over)
              (refl, unfold increment in unfold with_job_links in refl)
        | inr active ↦ rw (run_retry env job_id w id c made, found, active) (refl, refl)
      ]
    ]
