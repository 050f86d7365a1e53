-- ===== src/Tests/Samples.antt =====
-- A process with one queued job and one that has succeeded, and a provider that answers.
use earth2_sandbox.Prelude.{◌+◌, ◌*◌, ◌≡◌, refl, String, none, some, [], ◌∷◌, arith}
use earth2_sandbox.Prelude.Dict
use earth2_sandbox.Prelude.Dict.{Dict}
use earth2_sandbox.Domain.Float.{plus, is_within}
use earth2_sandbox.Domain.Status.{succeeded}
use earth2_sandbox.Domain.Uuid.{parse_uuid}
use earth2_sandbox.Jobs.{ForecastJob, no_diagnostics}
use earth2_sandbox.Jobs.Forecast.{ForecastSummary}
use earth2_sandbox.Jobs.Wellformed.{IsWellformed}
use earth2_sandbox.World.{Env, World, answered}
use earth2_sandbox.Store.Memory.Invariant.{IsConsistent}
use earth2_sandbox.Store.Memory.Creation.{new_job}

abbrev pub summary : ForecastSummary
summary = record {
  provider = "mock";
  generated_at = 700;
  latitude = plus 37566500;
  longitude = plus 126978000;
  headline = "Clear";
  metrics = record { name = "Wind"; value = plus 3000000; unit = "m/s" } ∷ [];
  model = record { name = "Mock"; version = "1"; resolution = "0.25"; run_mode = "mock" };
  forecast_window = record { start_at = 0; end_at = 100; step_hours = 6; lead_hours = [] };
  timeline = [];
  signals = [];
}

-- The generator spells its identifiers in a form that is not the canonical one.
abbrev pub env : Env
env = record {
  clock = λ n. 50_000_000_000_000 + n * 1_000_000;
  new_id = λ n. "urn:uuid:{0123ABCD-0000-4000-8000-00000000000f}";
  float_text = λ x. "0.0";
  provider = record {
    get_point_forecast = λ n latitude longitude. answered summary;
    get_point_forecast_with_diagnostics = none;
  };
}

abbrev pub made_id : String
made_id = "0123abcd-0000-4000-8000-00000000000f"

pub made_id-made : parse_uuid "urn:uuid:{0123ABCD-0000-4000-8000-00000000000f}" ≡ some made_id
unfolding parse_uuid
made_id-made = refl

abbrev pub waiting_id : String
waiting_id = "00000000-0000-4000-8000-000000000001"

abbrev pub over_id : String
over_id = "00000000-0000-4000-8000-000000000002"

abbrev pub waiting_job : ForecastJob
waiting_job =
    new_job (plus 37566500) (plus 126978000) none 1 "Forecast job accepted." 1_000_000 waiting_id

abbrev pub over_job : ForecastJob
over_job = record waiting_job {
  id = over_id;
  status = succeeded;
  started_at = some 2_000_000;
  completed_at = some 3_000_000;
  forecast = some summary;
  diagnostics = some no_diagnostics;
  events =
      record { occurred_at = 3_000_000; status = succeeded; message = "Forecast summary is ready." }
      ∷ [];
}

abbrev pub world : World
world = record {
  jobs = (waiting_id, waiting_job) ∷ (over_id, over_job) ∷ [];
  clock_reads = 0;
  ids_made = 0;
  provider_calls = 0;
  job_counts = [];
  enqueued = [];
}

pub waiting_id-canonical : parse_uuid waiting_id ≡ some waiting_id
unfolding parse_uuid
waiting_id-canonical = refl

pub over_id-canonical : parse_uuid over_id ≡ some over_id
unfolding parse_uuid
over_id-canonical = refl

pub waiting_job-IsWellformed : IsWellformed waiting_job
unfolding parse_uuid is_within
waiting_job-IsWellformed = record {
  canonical = refl;
  latitude = refl;
  longitude = refl;
  attempted = omega arith;
  agrees = (tt, tt, tt, tt);
  told = refl;
}

pub over_job-IsWellformed : IsWellformed over_job
unfolding parse_uuid is_within
over_job-IsWellformed = record {
  canonical = refl;
  latitude = refl;
  longitude = refl;
  attempted = omega arith;
  agrees = (tt, tt, tt, tt);
  told = refl;
}

pub world-IsConsistent : IsConsistent world.jobs
unfolding Dict.get
world-IsConsistent = record {
  entries = ((refl, waiting_job-IsWellformed), ((refl, over_job-IsWellformed), tt));
  distinct = (refl, (refl, tt));
}

pub waiting_job-found : Dict.get world.jobs waiting_id ≡ some waiting_job
unfolding Dict.get
waiting_job-found = refl

pub over_job-found : Dict.get world.jobs over_id ≡ some over_job
unfolding Dict.get
over_job-found = refl
