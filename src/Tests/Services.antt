-- ===== src/Tests/Services.antt =====
-- The services at the sample process.
use earth2_sandbox.Prelude.{ℕ, ◌≡◌, refl, List, [], ◌∷◌, inl, eq_iff, arith}
use earth2_sandbox.Prelude.Dict
use earth2_sandbox.Domain.Float.{plus}
use earth2_sandbox.Outcome.{ok}
use earth2_sandbox.Tasks.{run}
use earth2_sandbox.Tasks.Pool.{interleave}
use earth2_sandbox.Tasks.Pool.Final.{Ended, NotMadeAgain}
use earth2_sandbox.Store.Memory.Invariant.{IsConsistent}
use earth2_sandbox.Service.{
  ForecastJobService, Request, create_job, cancel_job, run_job, retry_job, serve_all,
}
use earth2_sandbox.Service.Concurrent.{serve_all-IsConsistent, serve_all-Ended}
use earth2_sandbox.Commands.Submit.{submit_forecast_job}
use earth2_sandbox.Commands.Submit.Outcome.{submission, submit_forecast_job_lem}
use earth2_sandbox.Commands.Retry.{retry_forecast_job}
use earth2_sandbox.Commands.Retry.Outcome.{retrial, retry_forecast_job_lem}
use earth2_sandbox.Commands.Run.{run_forecast_job}
use earth2_sandbox.Commands.Run.Outcome.{run_forecast_job-once}
use earth2_sandbox.Tests.Samples.{
  env, world, made_id, made_id-made, waiting_id, over_id, waiting_job, over_job,
  waiting_id-canonical, over_id-canonical, world-IsConsistent, waiting_job-found, over_job-found,
}

abbrev service : ForecastJobService
service = record { default_retention_hours = 24; default_stale_timeout_seconds = 600 }

abbrev requests : List Request
requests =
    cancel_job waiting_id
    ∷ run_job waiting_id
    ∷ retry_job over_id
    ∷ create_job (plus 0) (plus 0)
    ∷ []

abbrev turns : List ℕ
turns = 0 ∷ 1 ∷ 1 ∷ 1 ∷ 0 ∷ 2 ∷ 0 ∷ 3 ∷ 1 ∷ 2 ∷ []

serve_all-IsConsistent_example :
    IsConsistent (interleave env turns (serve_all env service requests) world).1.jobs
serve_all-IsConsistent_example =
    serve_all-IsConsistent env service requests turns world (tt, (tt, (tt, (tt, tt))))
      world-IsConsistent

over_id-NotMadeAgain : NotMadeAgain env over_id world
over_id-NotMadeAgain n h e = ground (arith, made_id-made, eq_iff made_id over_id)

serve_all-Ended_example :
    Ended over_id over_job (interleave env turns (serve_all env service requests) world).1
serve_all-Ended_example =
    serve_all-Ended env service requests turns world over_id over_job (tt, (tt, (tt, (tt, tt))))
      world-IsConsistent over_id-NotMadeAgain (refl, inl over_job-found)

run_forecast_job-once_example :
    run env (run_forecast_job env waiting_id) (run env (run_forecast_job env waiting_id) world).1
    ≡ (ok tt, (run env (run_forecast_job env waiting_id) world).1)
run_forecast_job-once_example =
    run_forecast_job-once env waiting_id waiting_id world waiting_job world-IsConsistent
      waiting_id-canonical waiting_job-found refl

retry_forecast_job_lem_example :
    run env (retry_forecast_job env over_id) world
    ≡ retrial env over_id made_id (Dict.get world.jobs over_id) world
retry_forecast_job_lem_example =
    retry_forecast_job_lem env over_id over_id world made_id world-IsConsistent over_id-canonical
      made_id-made

submit_forecast_job_lem_example :
    run env (submit_forecast_job env (plus 0) (plus 0)) world
    ≡ submission env (plus 0) (plus 0) made_id world
submit_forecast_job_lem_example =
    submit_forecast_job_lem env (plus 0) (plus 0) world made_id made_id-made
