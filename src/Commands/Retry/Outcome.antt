-- ===== src/Commands/Retry/Outcome.antt =====
-- What a retry that nothing interrupts returns and leaves behind.
use earth2_sandbox.Prelude.{
  ◌≡◌, ◌+◌, String, Option, none, some, inl, inr, Bool-cases, Option-cases, if◌then◌else◌,
}
use earth2_sandbox.Prelude.Dict
use earth2_sandbox.Prelude.Dict.Entries.{get-Entries}
use earth2_sandbox.Domain.Status.{is_terminal_job_status}
use earth2_sandbox.Domain.Uuid.{parse_uuid}
use earth2_sandbox.Outcome.{Result, ok, err, not_found}
use earth2_sandbox.Jobs.{ForecastJob}
use earth2_sandbox.Jobs.View.{with_job_links}
use earth2_sandbox.World.{Env, World}
use earth2_sandbox.Store.Memory.Invariant.{Entry, IsConsistent}
use earth2_sandbox.Store.Memory.Laws.{get_found, get_missing}
use earth2_sandbox.Store.Memory.Creation.{new_job, created, create-retry}
use earth2_sandbox.Tasks.{run, increment}
use earth2_sandbox.Commands.Retry.{cannot_retry, retry_forecast_job}

-- the next attempt at a job
abbrev pub attempt_after : Env → World → String → ForecastJob → ForecastJob
attempt_after env w id source =
    new_job source.latitude source.longitude (some source.id) (source.attempt + 1)
      "Forecast retry accepted." (env.clock w.clock_reads) id

-- The result and the next world, by the job that stands at the identifier.
abbrev pub retrial : Env → String → String → Option ForecastJob → World → Result ForecastJob × World
retrial env job_id id none w = (err (not_found job_id), w)
retrial env job_id id (some source) w =
    if is_terminal_job_status source.status
    then (
      ok (with_job_links env.float_text (attempt_after env w id source)),
      increment "retry_accepted" (created (attempt_after env w id source) w),
    )
    else (err (cannot_retry source.status), w)

module _ (env : Env) (job_id key : String) (w : World) (id : String) (c : IsConsistent w.jobs)
    (p : parse_uuid job_id ≡ some key) (made : parse_uuid (env.new_id w.ids_made) ≡ some id) where
  retry_found :
      (source : ForecastJob)
      → Dict.get w.jobs key ≡ some source
      → run env (retry_forecast_job env job_id) w ≡ retrial env job_id id (some source) w
  unfolding retry_forecast_job run
  retry_found source found =
      let g = (get-Entries Entry w.jobs key source c.entries found).1 in
      elim (Bool-cases (is_terminal_job_status source.status)) [
        | inl over ↦ rw (
          get_found job_id key w source p found,
          run,
          over,
          create-retry env source.latitude source.longitude w id made source.id source.attempt
              g.latitude g.longitude g.attempted g.canonical,
          run,
        )
        | inr active ↦ rw (get_found job_id key w source p found, run, active)
      ]

-- Retrying a job that nothing else touches meanwhile, on a consistent table and when the identifier
-- generator makes a UUID. An identifier without a job is not found, and a job that has not come
-- to an end is refused with its status; both change nothing. Otherwise a new queued job is
-- stored, counted and returned with its links: the same point, the source's identifier as its
-- parent, and the next attempt.
pub retry_forecast_job_lem :
    (env : Env) (job_id key : String) (w : World) (id : String)
    → IsConsistent w.jobs
    → parse_uuid job_id ≡ some key
    → parse_uuid (env.new_id w.ids_made) ≡ some id
    → run env (retry_forecast_job env job_id) w ≡ retrial env job_id id (Dict.get w.jobs key) w
unfolding retry_forecast_job run
retry_forecast_job_lem env job_id key w id c p made = elim (Option-cases (Dict.get w.jobs key)) [
  | inl missing ↦ rw (missing, get_missing job_id key w p missing, run)
  | inr (source, found) ↦ rw found (retry_found env job_id key w id c p made source found)
]
