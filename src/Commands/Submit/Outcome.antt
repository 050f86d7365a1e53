-- ===== src/Commands/Submit/Outcome.antt =====
-- What a submission that nothing interrupts returns and leaves behind.
use earth2_sandbox.Prelude.{
  ◌≡◌, true, false, String, none, some, inl, inr, Bool-cases, if◌then◌else◌, arith,
}
use earth2_sandbox.Domain.Float.{Float, is_within}
use earth2_sandbox.Domain.Uuid.{parse_uuid}
use earth2_sandbox.Domain.Entities.{new_coordinates}
use earth2_sandbox.Outcome.{Result, ok, err, invalid_coordinates}
use earth2_sandbox.Jobs.{ForecastJob}
use earth2_sandbox.Jobs.View.{with_job_links}
use earth2_sandbox.World.{Env, World}
use earth2_sandbox.Store.Helpers.{build_new_job}
use earth2_sandbox.Store.Memory.{create}
use earth2_sandbox.Store.Memory.Creation.{new_job, created, create-first}
use earth2_sandbox.Tasks.{run, increment}
use earth2_sandbox.Commands.Submit.{submit_forecast_job}

abbrev pub accepted : Env → Float → Float → String → World → ForecastJob
accepted env latitude longitude id w =
    new_job latitude longitude none 1 "Forecast job accepted." (env.clock w.clock_reads) id

-- The result and the next world, with the identifier that is made.
abbrev pub submission : Env → Float → Float → String → World → Result ForecastJob × World
submission env latitude longitude id w =
    if is_within 90 latitude
    then if is_within 180 longitude
      then (
        ok (with_job_links env.float_text (accepted env latitude longitude id w)),
        increment "accepted" (created (accepted env latitude longitude id w) w),
      )
      else (err (invalid_coordinates "longitude must be between -180 and 180"), w)
    else (err (invalid_coordinates "latitude must be between -90 and 90"), w)

module _ (env : Env) (latitude longitude : Float) (w : World) where
  create-north :
      is_within 90 latitude ≡ false
      → create env latitude longitude none 1 w
        ≡ (err (invalid_coordinates "latitude must be between -90 and 90"), w)
  unfolding create build_new_job new_coordinates
  create-north p = ground (arith, p)

  create-east :
      is_within 90 latitude ≡ true
      → is_within 180 longitude ≡ false
      → create env latitude longitude none 1 w
        ≡ (err (invalid_coordinates "longitude must be between -180 and 180"), w)
  unfolding create build_new_job new_coordinates
  create-east p q = ground (arith, p, q)

-- Submitting a point, when the identifier generator makes a UUID: a point off the map is refused
-- with the coordinate that is wrong and changes nothing; any other becomes a queued first attempt
-- under the canonical form of the identifier, which is stored, counted and returned with its links.
pub submit_forecast_job_lem :
    (env : Env) (latitude longitude : Float) (w : World) (id : String)
    → parse_uuid (env.new_id w.ids_made) ≡ some id
    → run env (submit_forecast_job env latitude longitude) w
      ≡ submission env latitude longitude id w
unfolding submit_forecast_job run
submit_forecast_job_lem env latitude longitude w id made =
    elim (Bool-cases (is_within 90 latitude)) [
      | inr north ↦ rw (create-north env latitude longitude w north, run, north)
      | inl on ↦ elim (Bool-cases (is_within 180 longitude)) [
        | inr east ↦ rw (create-east env latitude longitude w on east, run, on, east)
        | inl here ↦ rw (create-first env latitude longitude w id made on here, run, on, here)
      ]
    ]
