-- ===== src/Service/Concurrent.antt =====
-- Any requests, served in any interleaving.
use earth2_sandbox.Prelude.{ℕ, String, Option, List, [], ◌∷◌}
use earth2_sandbox.Domain.Status.{ForecastJobStatus}
use earth2_sandbox.Outcome.{ok, err}
use earth2_sandbox.Jobs.{ForecastJob}
use earth2_sandbox.World.{Env, World}
use earth2_sandbox.Store.Memory.Invariant.{IsConsistent}
use earth2_sandbox.Tasks.Safe.{Safe, AllTerminal}
use earth2_sandbox.Tasks.Pool.{interleave, AllSafe, interleave-IsConsistent}
use earth2_sandbox.Tasks.Pool.Final.{Ended, NotMadeAgain, interleave-Ended}
use earth2_sandbox.Commands.Cleanup.{or_terminal}
use earth2_sandbox.Commands.Safe.{
  submit_forecast_job-Safe, cancel_forecast_job-Safe, retry_forecast_job-Safe,
  cleanup_forecast_jobs-Safe, run_forecast_job-Safe,
}
use earth2_sandbox.Queries.{get_forecast_job, list_forecast_jobs, poll_forecast_job}
use earth2_sandbox.Recovery.Safe.{recover_interrupted_jobs-Safe}
use earth2_sandbox.Service.{
  ForecastJobService, Request, create_job, get_job, poll_job, cancel_job, retry_job, run_job,
  list_recent_jobs, cleanup_jobs, recover_jobs, serve_all,
}

get_forecast_job-Safe : (env : Env) (job_id : String) → Safe (get_forecast_job env job_id)
unfolding get_forecast_job
get_forecast_job-Safe env job_id (ok job) g = tt
get_forecast_job-Safe env job_id (err e) g = tt

poll_forecast_job-Safe : (env : Env) (job_id : String) → Safe (poll_forecast_job env job_id)
unfolding poll_forecast_job
poll_forecast_job-Safe env job_id (ok job) g = tt
poll_forecast_job-Safe env job_id (err e) g = tt

list_forecast_jobs-Safe :
    (env : Env) (limit : ℕ) (status : Option ForecastJobStatus)
    → Safe (list_forecast_jobs env limit status)
unfolding list_forecast_jobs
list_forecast_jobs-Safe env limit status jobs h = tt

-- The statuses of a cleanup are of their declared type.
abbrev pub IsTyped : Request → Type 0
IsTyped (cleanup_jobs older_than_hours statuses) = AllTerminal (or_terminal statuses)
IsTyped _ = Unit

abbrev pub AllTyped : List Request → Type 0
AllTyped [] = Unit
AllTyped (request ∷ requests) = IsTyped request × AllTyped requests

module _ (env : Env) (service : ForecastJobService) where
  serve_all-AllSafe :
      (requests : List Request) → AllTyped requests → AllSafe (serve_all env service requests)
  unfolding serve_all
  serve_all-AllSafe [] t = tt
  serve_all-AllSafe (create_job latitude longitude ∷ requests) t =
      (submit_forecast_job-Safe env latitude longitude, serve_all-AllSafe requests t.1)
  serve_all-AllSafe (get_job job_id ∷ requests) t =
      (get_forecast_job-Safe env job_id, serve_all-AllSafe requests t.1)
  serve_all-AllSafe (poll_job job_id ∷ requests) t =
      (poll_forecast_job-Safe env job_id, serve_all-AllSafe requests t.1)
  serve_all-AllSafe (cancel_job job_id ∷ requests) t =
      (cancel_forecast_job-Safe env job_id, serve_all-AllSafe requests t.1)
  serve_all-AllSafe (retry_job job_id ∷ requests) t =
      (retry_forecast_job-Safe env job_id, serve_all-AllSafe requests t.1)
  serve_all-AllSafe (run_job job_id ∷ requests) t =
      (run_forecast_job-Safe env job_id, serve_all-AllSafe requests t.1)
  serve_all-AllSafe (list_recent_jobs limit status ∷ requests) t =
      (list_forecast_jobs-Safe env limit status, serve_all-AllSafe requests t.1)
  serve_all-AllSafe (cleanup_jobs older statuses ∷ requests) t = (
    cleanup_forecast_jobs-Safe service.default_retention_hours older statuses t.0,
    serve_all-AllSafe requests t.1,
  )
  serve_all-AllSafe (recover_jobs timeout ∷ requests) t = (
    recover_interrupted_jobs-Safe service.default_stale_timeout_seconds timeout,
    serve_all-AllSafe requests t.1,
  )

  -- From a consistent job table, any requests to the service, interleaved call by call in any order,
  -- leave a consistent table: every stored job is well formed (its timestamps, forecast, error and
  -- last event agree with its status) and stands under its own canonical identifier, once.
  pub serve_all-IsConsistent :
      (requests : List Request) (turns : List ℕ) (w : World)
      → AllTyped requests
      → IsConsistent w.jobs
      → IsConsistent (interleave env turns (serve_all env service requests) w).1.jobs
  serve_all-IsConsistent requests turns w t c =
      interleave-IsConsistent env turns (serve_all env service requests) w
        (serve_all-AllSafe requests t) c

  -- From a consistent job table in which a job has come to an end, any requests to the service,
  -- interleaved call by call in any order, leave that job as it is in every field, or delete it,
  -- provided that the identifier generator does not make its identifier again.
  pub serve_all-Ended :
      (requests : List Request) (turns : List ℕ) (w : World) (key : String) (job : ForecastJob)
      → AllTyped requests
      → IsConsistent w.jobs
      → NotMadeAgain env key w
      → Ended key job w
      → Ended key job (interleave env turns (serve_all env service requests) w).1
  serve_all-Ended requests turns w key job t c n e =
      interleave-Ended env key job turns (serve_all env service requests) w
        (serve_all-AllSafe requests t) c n e
