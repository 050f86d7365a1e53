-- ===== src/Store/Memory/Creation.antt =====
-- What `create` of the in-memory store makes, with the checks of its arguments gone.
use earth2_sandbox.Prelude.{
  ℕ, suc, ◌+◌, ◌<◌, ◌≡◌, refl, subst, true, false, String, Option, none, some, [], ◌∷◌, inl, inr,
  Bool-cases, ◌==◌, eq_iff, arith,
}
use earth2_sandbox.Prelude.Dict
use earth2_sandbox.Domain.Float.{Float, is_within}
use earth2_sandbox.Domain.Policies.{Datetime}
use earth2_sandbox.Domain.Status.{queued}
use earth2_sandbox.Domain.Uuid.{parse_uuid}
use earth2_sandbox.Domain.Entities.{new_attempt, parse, ForecastJobIdentity}
use earth2_sandbox.Outcome.{ok}
use earth2_sandbox.Jobs.{ForecastJob, no_diagnostics}
use earth2_sandbox.World.{Env, World}
use earth2_sandbox.Store.Helpers.{build_new_job}
use earth2_sandbox.Store.Memory.{create}

-- a job that has just been accepted
abbrev pub new_job : Float → Float → Option String → ℕ → String → Datetime → String → ForecastJob
new_job latitude longitude parent_job_id attempt message moment id = record {
  id = id;
  status = queued;
  latitude = latitude;
  longitude = longitude;
  parent_job_id = parent_job_id;
  attempt = attempt;
  created_at = moment;
  updated_at = moment;
  started_at = none;
  completed_at = none;
  forecast = none;
  diagnostics = some (record no_diagnostics { message = some "Waiting for forecast worker." });
  events = record { occurred_at = moment; status = queued; message = message } ∷ [];
  error = none;
  links = [];
}

-- the world after it is stored
abbrev pub created : ForecastJob → World → World
created job w = record w {
  clock_reads = suc w.clock_reads;
  ids_made = suc w.ids_made;
  jobs = Dict.put w.jobs job.id job;
}

none-some : (x : String) → none ≡ some x → ⊥
none-some x h = cc

nonempty : (id : String) → parse_uuid id ≡ some id → (id == "") ≡ false
unfolding parse_uuid
nonempty id h = elim (Bool-cases (id == "")) [
  | inl same ↦ absurd (none-some "" (subst (λ x. parse_uuid x ≡ some x) ((eq_iff id "").0 same) h))
  | inr other ↦ other
]

identified :
    (value id : String) → parse_uuid value ≡ some id → parse value ≡ ok (record { value = id })
unfolding parse
identified value id h = rw h refl

second_attempt :
    (attempt : ℕ) (parent : ForecastJobIdentity)
    → 0 < attempt
    → new_attempt (attempt + 1) (some parent)
      ≡ ok (record { value = attempt + 1; parent_job_id = some parent })
unfolding new_attempt
second_attempt attempt parent positive = ground arith

module _ (env : Env) (latitude longitude : Float) (w : World) (id : String)
    (made : parse_uuid (env.new_id w.ids_made) ≡ some id) where
  pub create-first :
      is_within 90 latitude ≡ true
      → is_within 180 longitude ≡ true
      → let job =
          new_job latitude longitude none 1 "Forecast job accepted." (env.clock w.clock_reads) id in
        create env latitude longitude none 1 w ≡ (ok job, created job w)
  unfolding create build_new_job
  create-first p q = rw (p, q, made) refl

  pub create-retry :
      (parent : String) (attempt : ℕ)
      → is_within 90 latitude ≡ true
      → is_within 180 longitude ≡ true
      → 0 < attempt
      → parse_uuid parent ≡ some parent
      → let job =
          new_job latitude longitude
            (some parent)
            (attempt + 1)
            "Forecast retry accepted."
            (env.clock w.clock_reads)
            id in
        create env latitude longitude (some parent) (attempt + 1) w ≡ (ok job, created job w)
  unfolding create build_new_job
  create-retry parent attempt p q positive canonical =
      (ground (
        arith,
        nonempty parent canonical,
        identified parent parent canonical,
        identified (env.new_id w.ids_made) id made,
        second_attempt attempt (record { value = parent }) positive,
      ))
