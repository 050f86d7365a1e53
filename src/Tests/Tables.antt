-- ===== src/Tests/Tables.antt =====
-- The job table, the recovery and the views at the sample process.
use earth2_sandbox.Prelude.{
  ◌-◌, ◌≡◌, refl, List, ◌++◌, ◌⊎◌, ◌≤◌, ◌<◌, not, String, none, some, [], ◌∷◌, length, keep, arith,
}
use earth2_sandbox.Prelude.Dict
use mathlib.Core.List.{Perm}
use earth2_sandbox.Domain.Policies.{hours}
use earth2_sandbox.Domain.Status.{
  queued, succeeded, failed, cancelled, same_status, is_active_job_status, terminal_job_statuses,
}
use earth2_sandbox.Outcome.{ok}
use earth2_sandbox.Jobs.{ForecastJob}
use earth2_sandbox.Jobs.View.{to_job_poll_response}
use earth2_sandbox.Jobs.Wellformed.{LastEvent}
use earth2_sandbox.Jobs.Polled.{to_job_poll_response_lem}
use earth2_sandbox.Tasks.{run}
use earth2_sandbox.Store.Helpers.{has_status}
use earth2_sandbox.Store.Recent.{NewestFirst, NoNewer, list_recent_lem}
use earth2_sandbox.Store.Memory.{delete_older_than, expired, list_recent}
use earth2_sandbox.Store.Memory.Deletion.{remaining, delete_older_than_lem}
use earth2_sandbox.Commands.Cleanup.{cleanup_forecast_jobs}
use earth2_sandbox.Commands.Cleanup.Outcome.{is_due, left, cleanup_forecast_jobs_lem}
use earth2_sandbox.Tests.Samples.{env, world, over_job, world-IsConsistent, over_job-IsWellformed}

cleanup_forecast_jobs_lem_example :
    let (r, w') = run env (cleanup_forecast_jobs 24 (some 2) none) world in
    (r
      ≡ ok (record {
        deleted_count =
            length (keep (is_due (env.clock 0) (hours 2) none) (Dict.values world.jobs));
        cutoff = env.clock 0 - hours 2;
        statuses = cancelled ∷ failed ∷ succeeded ∷ [];
      }))
    × ((key : String)
        → Dict.get w'.jobs key ≡ left (env.clock 0) (hours 2) none (Dict.get world.jobs key))
cleanup_forecast_jobs_lem_example =
    cleanup_forecast_jobs_lem env 24 (some 2) none world 2 world-IsConsistent refl (omega arith)

delete_older_than_lem_example :
    let (r, w') = delete_older_than 4_000_000 terminal_job_statuses world in
    (r ≡ ok (length (keep (expired 4_000_000 terminal_job_statuses) (Dict.values world.jobs))))
    × ((key : String)
        → Dict.get w'.jobs key
          ≡ remaining 4_000_000 terminal_job_statuses (Dict.get world.jobs key))
delete_older_than_lem_example =
    delete_older_than_lem 4_000_000 terminal_job_statuses world world-IsConsistent

list_recent_lem_example :
    (others : List ForecastJob) × (Perm
      (list_recent 1 (some queued) world ++ others)
      (keep (has_status (some queued)) (Dict.values world.jobs)))
    × NewestFirst (list_recent 1 (some queued) world)
    × (length (list_recent 1 (some queued) world) ≤ 1)
    × NoNewer others (list_recent 1 (some queued) world)
    × ((length (list_recent 1 (some queued) world) ≡ 1) ⊎ (others ≡ []))
list_recent_lem_example = list_recent_lem 1 (some queued) world

to_job_poll_response_lem_example :
    let r = to_job_poll_response over_job in
    (r.forecast_ready ≡ same_status succeeded succeeded)
    × (r.terminal ≡ not (is_active_job_status succeeded))
    × (0 < r.event_count)
    × LastEvent r.status r.latest_event
to_job_poll_response_lem_example = to_job_poll_response_lem over_job over_job-IsWellformed
