-- ===== src/Store/Files/Holding.antt =====
-- When a directory of src/earth2_sandbox/infrastructure/storage/file_job_store.py holds the jobs of a
-- table, and that writing a job keeps it so.
use earth2_sandbox.Prelude.{
  ◌≤◌, String, true, ◌≡◌, refl, ap, ◌∙◌, Option, none, some, [], ◌⊎◌, inl, arith,
}
use earth2_sandbox.Prelude.Dict
use earth2_sandbox.Prelude.Dict.{Dict, get-put_self}
use earth2_sandbox.Prelude.Dict.Entries.{Entries, Distinct, put-Entries, put-Distinct}
use earth2_sandbox.Domain.Float.{is_within}
use earth2_sandbox.Domain.Uuid.{parse_uuid}
use earth2_sandbox.Outcome.{Result}
use earth2_sandbox.Jobs.{ForecastJob}
use earth2_sandbox.Jobs.Forecast.{ForecastSummary}
use earth2_sandbox.World.{World}
use earth2_sandbox.Store.Files.{FileSystem, Root, Machine, Reply, returned, reply_of, steps, write}
use earth2_sandbox.Store.Files.Laws.{dumped, put-dumped}

abbrev pub IsSound : (ForecastSummary → Type 0) → Option ForecastSummary → Type 0
IsSound Sound none = Unit
IsSound Sound (some summary) = Sound summary

-- What JSON and the schema of a job can take: coordinates on the map, an attempt, and a forecast of
-- which the same is true.
abbrev pub IsStorable : (ForecastSummary → Type 0) → ForecastJob → Type 0
IsStorable Sound job =
    (is_within 90 job.latitude ≡ true)
    × (is_within 180 job.longitude ≡ true)
    × (1 ≤ job.attempt)
    × IsSound Sound job.forecast

-- a storable job stands under its own identifier, which is a normalised one
abbrev pub Named : (ForecastSummary → Type 0) → String → ForecastJob → Type 0
Named Sound k job = (job.id ≡ k) × (parse_uuid k ≡ some k) × IsStorable Sound job

abbrev pub as_memory : {T : Type 0} → Machine T → Dict ForecastJob → World
as_memory m jobs = record m.world { jobs = jobs }

module _ {T : Type 0} (disk : FileSystem T) (Sound : ForecastSummary → Type 0) where
  -- The directory holds the texts of the jobs, and is there if there are any.
  pub record Holds (root : Root T) (jobs : Dict ForecastJob) : Type 0 where
    pub files : root.files ≡ dumped disk jobs
    pub made : (root.exists ≡ true) ⊎ (jobs ≡ [])
    pub named : Entries (Named Sound) jobs
    pub distinct : Distinct jobs

  -- The same answer, and the directory and the table hold the same jobs again.
  abbrev pub Agree : {A : Type 0} → Reply A × Machine T → Result A × World → Type 0
  Agree (reply, m) (result, w) =
      (reply ≡ reply_of result)
      × ((jobs : Dict ForecastJob) × (w ≡ as_memory m jobs) × Holds m.root jobs)

  abbrev pub after_write : String → ForecastJob → Root T → Root T
  after_write stem job root = record {
    exists = true;
    files = Dict.put root.files stem (disk.model_dump_json job);
    temporaries = Dict.remove (Dict.put root.temporaries stem (disk.model_dump_json job)) stem;
  }

  pub write_lem :
      (job : ForecastJob) (m : Machine T)
      → parse_uuid job.id ≡ some job.id
      → write disk job m ≡ (returned tt, record m { root = after_write job.id job m.root })
  unfolding write steps
  write_lem job m h =
      ground (arith, h, get-put_self m.root.temporaries job.id (disk.model_dump_json job))

  pub put-Holds :
      (job : ForecastJob) (root : Root T) (jobs : Dict ForecastJob)
      → parse_uuid job.id ≡ some job.id
      → IsStorable Sound job
      → Holds root jobs
      → Holds (after_write job.id job root) (Dict.put jobs job.id job)
  put-Holds job root jobs canonical storable h = record {
    files =
        ap (λ d. Dict.put d job.id (disk.model_dump_json job)) h.files
        ∙ put-dumped disk jobs job.id job;
    made = inl refl;
    named = put-Entries (Named Sound) jobs job.id job h.named (refl, canonical, storable);
    distinct = put-Distinct jobs job.id job h.distinct;
  }
