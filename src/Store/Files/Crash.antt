-- ===== src/Store/Files/Crash.antt =====
-- A crash in the middle of `_write` of
-- src/earth2_sandbox/infrastructure/storage/file_job_store.py, and the store that is started on the
-- directory afterwards.
use earth2_sandbox.Prelude.{
  ℕ, zero, suc, true, ◌≡◌, refl, sym, subst, ◌∙◌, some, List, All, [], ◌∷◌, take, ◌⊎◌, inl, inr,
}
use earth2_sandbox.Prelude.Dict
use earth2_sandbox.Prelude.Dict.{Dict, get-put_self}
use earth2_sandbox.Prelude.Rearranged.{Rearranged}
use earth2_sandbox.Domain.Uuid.{parse_uuid}
use earth2_sandbox.Jobs.{ForecastJob}
use earth2_sandbox.Jobs.Forecast.{ForecastSummary}
use earth2_sandbox.World.{Env, World}
use earth2_sandbox.Store.Files.{
  FileSystem, Root, Machine, FileStep, mkdir, write_text, step, steps, writing,
}
use earth2_sandbox.Store.Files.Laws.{Reads, stems}
use earth2_sandbox.Store.Files.Holding.{IsStorable, as_memory, Holds, after_write, put-Holds}
use earth2_sandbox.Store.Files.Equivalence.{
  StoreCall, StoresSound, memory_calls, file_calls, file_calls-equivalent,
}

-- the calls of the operating system that `_write` makes for a job
abbrev pub write_steps : {T : Type 0} → FileSystem T → ForecastJob → List (FileStep T)
write_steps disk job = mkdir ∷ writing disk job.id job

-- The directory when the process stops: after some of the calls, or with a part of the text written.
pub data Crashed {T : Type 0} (disk : FileSystem T) (job : ForecastJob) (root : Root T)
    : Root T → Type 0 where
  between : (n : ℕ) → Crashed disk job root (steps (take n (write_steps disk job)) root)
  torn : (part : T) → Crashed disk job root (step (write_text job.id part) (step mkdir root))

steps_nothing : {T : Type 0} (n : ℕ) (root : Root T) → steps (take n []) root ≡ root
unfolding steps
steps_nothing zero root = refl
steps_nothing (suc n) root = refl

module _ {T : Type 0} (disk : FileSystem T) (Sound : ForecastSummary → Type 0) (job : ForecastJob)
    (root : Root T) (table : Dict ForecastJob) (canonical : parse_uuid job.id ≡ some job.id)
    (storable : IsStorable Sound job) (holds : Holds disk Sound root table) where
  unwritten :
      (temporaries : Dict T)
      → Holds disk Sound
          (record { exists = true; files = root.files; temporaries = temporaries })
          table
  unwritten temporaries = record {
    files = holds.files;
    made = inl refl;
    named = holds.named;
    distinct = holds.distinct;
  }

  all_steps : steps (write_steps disk job) root ≡ after_write disk Sound job.id job root
  unfolding steps step
  all_steps = rw (get-put_self root.temporaries job.id (disk.model_dump_json job))

  -- whichever number of calls is left to make
  finished :
      (n : ℕ)
      → steps (take (suc (suc (suc n))) (write_steps disk job)) root
        ≡ after_write disk Sound job.id job root
  unfolding steps
  finished n = steps_nothing n _ ∙ all_steps

  Crashed-Holds :
      {root' : Root T}
      → Crashed disk job root root'
      → Holds disk Sound root' table ⊎ Holds disk Sound root' (Dict.put table job.id job)
  unfolding steps step
  Crashed-Holds (between zero) = inl holds
  Crashed-Holds (between (suc zero)) = inl (unwritten root.temporaries)
  Crashed-Holds (between (suc (suc zero))) =
      inl (unwritten (Dict.put root.temporaries job.id (disk.model_dump_json job)))
  Crashed-Holds (between (suc (suc (suc n)))) = inr (
      subst (λ r. Holds disk Sound r (Dict.put table job.id job)) (sym (finished n))
        (put-Holds disk Sound job root table canonical storable holds))
  Crashed-Holds (torn part) = inl (unwritten (Dict.put root.temporaries job.id part))

abbrev pub restarted : {T : Type 0} → World → Root T → Machine T
restarted w root = record { world = w; root = root }

-- A process stops while it writes a storable job, with any part of the text on the disk, and a store is
-- started on what it leaves. Any calls that store storable jobs are answered as the in-memory store
-- would answer them with the table from before the write, or as it would with the job written. The
-- identifier is normalised, as it is where `_write` is called, JSON gives back any storable job,
-- and the files are listed in any order.
pub write-atomic :
    {T : Type 0} (disk : FileSystem T) (Sound : ForecastSummary → Type 0)
    (reads : (j : ForecastJob) → IsStorable Sound j → Reads disk j)
    (lists : (files : Dict T) → Rearranged (stems files) (disk.glob files)) (job : ForecastJob)
    (root root' : Root T) (table : Dict ForecastJob) (env : Env) (w : World)
    (calls : List StoreCall)
    → parse_uuid job.id ≡ some job.id
    → IsStorable Sound job
    → Holds disk Sound root table
    → Crashed disk job root root'
    → All (StoresSound Sound) calls
    → (file_calls disk env calls (restarted w root')
        ≡ memory_calls env calls (as_memory (restarted w root') table))
      ⊎ (file_calls disk env calls (restarted w root')
          ≡ memory_calls env calls (as_memory (restarted w root') (Dict.put table job.id job)))
write-atomic disk Sound reads lists job root root' table env w calls canonical storable holds crash
      sound =
    elim (Crashed-Holds disk Sound job root table canonical storable holds crash) [
      | inl old ↦ inl (
          file_calls-equivalent disk Sound reads lists env calls (restarted w root') table sound
            old)
      | inr new ↦ inr (
          file_calls-equivalent disk Sound reads lists env calls (restarted w root')
            (Dict.put table job.id job) sound new)
    ]
