-- ===== src/Commands/Cancel/Outcome.antt =====
-- What a cancellation that nothing interrupts returns and leaves behind.
use earth2_sandbox.Prelude.{
  ◌≡◌, ap, ◌∙◌, true, false, String, Option, none, some, suc, inl, inr, Bool-cases, Option-cases,
  if◌then◌else◌, arith,
}
use earth2_sandbox.Prelude.Dict
use earth2_sandbox.Prelude.Dict.Entries.{get-Entries}
use earth2_sandbox.Domain.Status.{
  ForecastJobStatus, is_terminal_job_status, active_job_statuses, is_in,
}
use earth2_sandbox.Domain.Uuid.{parse_uuid}
use earth2_sandbox.Outcome.{Result, ok, err, not_found}
use earth2_sandbox.Jobs.{ForecastJob}
use earth2_sandbox.Jobs.View.{with_job_links}
use earth2_sandbox.World.{Env, World}
use earth2_sandbox.Store.Memory.Invariant.{Entry, IsConsistent}
use earth2_sandbox.Store.Memory.Laws.{stamped, ticked, get_found, get_missing, update_allowed}
use earth2_sandbox.Tasks.{run, increment}
use earth2_sandbox.Commands.Cancel.{cancelled_job, cannot_cancel, cancel_forecast_job}

-- the stored form of a cancelled job: stamped by the second reading of the clock
abbrev pub cancelled_at : Env → World → ForecastJob → ForecastJob
cancelled_at env w job = stamped env (ticked w) (cancelled_job job (env.clock w.clock_reads))

-- The result and the next world, by the job that stands at the identifier.
abbrev pub cancellation : Env → String → Option ForecastJob → World → Result ForecastJob × World
cancellation env job_id none w = (err (not_found job_id), w)
cancellation env job_id (some job) w =
    if is_terminal_job_status job.status then (err (cannot_cancel job.status), w) else (
      ok (with_job_links env.float_text (cancelled_at env w job)),
      increment "cancelled" (record w {
        clock_reads = suc (suc w.clock_reads);
        jobs = Dict.put w.jobs job.id (cancelled_at env w job);
      }),
    )

active_of_not_terminal :
    (s : ForecastJobStatus) → is_terminal_job_status s ≡ false → is_in s active_job_statuses ≡ true
active_of_not_terminal s h = ground arith

module _ (env : Env) (job_id key : String) (w : World) (c : IsConsistent w.jobs)
    (p : parse_uuid job_id ≡ some key) where
  cancel_found :
      (job : ForecastJob)
      → Dict.get w.jobs key ≡ some job
      → run env (cancel_forecast_job env job_id) w ≡ cancellation env job_id (some job) w
  unfolding cancel_forecast_job run
  cancel_found job found =
      let (here, g) = get-Entries Entry w.jobs key job c.entries found in
      elim (Bool-cases (is_terminal_job_status job.status)) [
        | inl over ↦ rw (get_found job_id key w job p found, run, over)
        | inr active ↦ rw (
          get_found job_id key w job p found,
          run,
          active,
          update_allowed env (cancelled_job job (env.clock w.clock_reads)) job active_job_statuses
              (ticked w) g.canonical (ap (Dict.get w.jobs) here ∙ found)
              (active_of_not_terminal job.status active),
        )
      ]

pub cancel_forecast_job_lem :
    (env : Env) (job_id key : String) (w : World)
    → IsConsistent w.jobs
    → parse_uuid job_id ≡ some key
    → run env (cancel_forecast_job env job_id) w ≡ cancellation env job_id (Dict.get w.jobs key) w
unfolding cancel_forecast_job run
cancel_forecast_job_lem env job_id key w c p = elim (Option-cases (Dict.get w.jobs key)) [
  | inl missing ↦ rw (missing, get_missing job_id key w p missing, run)
  | inr (job, found) ↦ rw found (cancel_found env job_id key w c p job found)
]
