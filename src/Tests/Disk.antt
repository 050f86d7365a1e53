-- ===== src/Tests/Disk.antt =====
-- The file store on a directory with the jobs of the sample process, and a listing that does not come
-- in the order in which the files were made.
use earth2_sandbox.Prelude.{◌≡◌, ◌⊎◌, refl, inl, true, String, some, none, List, [], ◌∷◌}
use earth2_sandbox.Prelude.Dict
use earth2_sandbox.Prelude.Dict.{Dict}
use earth2_sandbox.Prelude.Rearranged.{Rearranged, same, swap}
use earth2_sandbox.Domain.Float.{plus}
use earth2_sandbox.Domain.Status.{succeeded}
use earth2_sandbox.Jobs.{ForecastJob}
use earth2_sandbox.Jobs.Forecast.{ForecastSummary}
use earth2_sandbox.Store.Files.{FileSystem, Root, step}
use earth2_sandbox.Store.Files.Laws.{stems, dumped}
use earth2_sandbox.Store.Files.Holding.{IsStorable, as_memory, Holds}
use earth2_sandbox.Store.Files.Equivalence.{
  StoreCall, create, get, update, list_recent, list_active, delete_older_than, file_calls,
  memory_calls, file_calls-equivalent,
}
use earth2_sandbox.Store.Files.Crash.{Crashed, torn, restarted, write-atomic}
use earth2_sandbox.Tests.Samples.{
  env, world, waiting_job-IsWellformed, over_job-IsWellformed, waiting_id, over_id, waiting_job,
  over_job, waiting_id-canonical, over_id-canonical,
}

-- the first two names in the other order
abbrev second_first : List String → List String
second_first [] = []
second_first (k ∷ []) = k ∷ []
second_first (k ∷ j ∷ ks) = j ∷ k ∷ ks

second_first-Rearranged : (ks : List String) → Rearranged ks (second_first ks)
second_first-Rearranged [] = same []
second_first-Rearranged (k ∷ []) = same (k ∷ [])
second_first-Rearranged (k ∷ j ∷ ks) = swap k j ks

abbrev AnyForecast : ForecastSummary → Type 0
AnyForecast summary = Unit

-- A text is the job itself.
abbrev disk : FileSystem ForecastJob
disk = record {
  model_dump_json = λ job. job;
  model_validate_json = λ text. some text;
  glob = λ files. second_first (stems files);
}

abbrev two_files : Root ForecastJob
two_files = record { exists = true; files = dumped disk world.jobs; temporaries = [] }

waiting_job-IsStorable : IsStorable AnyForecast waiting_job
waiting_job-IsStorable =
    let good = waiting_job-IsWellformed in (good.latitude, good.longitude, good.attempted, tt)

over_job-IsStorable : IsStorable AnyForecast over_job
over_job-IsStorable =
    let good = over_job-IsWellformed in (good.latitude, good.longitude, good.attempted, tt)

two_files-Holds : Holds disk AnyForecast two_files world.jobs
unfolding Dict.get
two_files-Holds = record {
  files = refl;
  made = inl refl;
  named = (
    (refl, waiting_id-canonical, waiting_job-IsStorable),
    ((refl, over_id-canonical, over_job-IsStorable), tt),
  );
  distinct = (refl, (refl, tt));
}

abbrev some_calls : List StoreCall
some_calls =
    list_recent 5 none
    ∷ create (plus 1) (plus 2) none 1
    ∷ update over_job
    ∷ get waiting_id
    ∷ list_active
    ∷ delete_older_than 90_000_000_000_000 (succeeded ∷ [])
    ∷ get over_id
    ∷ []

file_calls-equivalent_example :
    file_calls disk env some_calls (restarted world two_files) ≡ memory_calls env some_calls world
file_calls-equivalent_example =
    file_calls-equivalent disk AnyForecast (λ job sound. refl)
      (λ files. second_first-Rearranged (stems files)) env some_calls (restarted world two_files)
      world.jobs (tt, (tt, (over_job-IsStorable, (tt, (tt, (tt, (tt, tt))))))) two_files-Holds

abbrev torn_files : Root ForecastJob
torn_files = record two_files { temporaries = (waiting_id, over_job) ∷ [] }

torn_write : Crashed disk waiting_job two_files torn_files
unfolding step Dict.put
torn_write = torn over_job

write-atomic_example :
    (file_calls disk env some_calls (restarted world torn_files)
      ≡ memory_calls env some_calls (as_memory (restarted world torn_files) world.jobs))
    ⊎ (file_calls disk env some_calls (restarted world torn_files)
        ≡ memory_calls env some_calls
            (as_memory (restarted world torn_files) (Dict.put world.jobs waiting_id waiting_job)))
write-atomic_example =
    write-atomic disk AnyForecast (λ job sound. refl)
      (λ files. second_first-Rearranged (stems files)) waiting_job two_files torn_files world.jobs
      env world some_calls waiting_id-canonical waiting_job-IsStorable two_files-Holds torn_write
      (tt, (tt, (over_job-IsStorable, (tt, (tt, (tt, (tt, tt)))))))
