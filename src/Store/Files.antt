-- ===== src/Store/Files.antt =====
-- src/earth2_sandbox/infrastructure/storage/file_job_store.py. The store's directory is its JSON
-- texts by the stem of their file names, and apart from them those of the temporary files. A stem is a
-- normalised identifier, hexadecimal digits and dashes, so its path lies in the directory: the check of
-- `_path` for that cannot fail where the directory holds no links. A method holds the lock
-- throughout, as one of the in-memory store does.
pub mod Laws
pub mod Deletion
pub mod Holding
pub mod Agreement
pub mod Tables
pub mod Listing
pub mod Equivalence
pub mod Crash
use earth2_sandbox.Prelude.{
  ℕ, suc, String, Bool, true, false, Option, none, some, List, [], ◌∷◌, keep, if◌then◌else◌,
}
use earth2_sandbox.Prelude.Dict
use earth2_sandbox.Prelude.Dict.{Dict}
use earth2_sandbox.Domain.Float.{Float}
use earth2_sandbox.Domain.Policies.{Datetime}
use earth2_sandbox.Domain.Status.{ForecastJobStatus, is_in, all_job_statuses, active_job_statuses}
use earth2_sandbox.Outcome.{Result, ok, err, Error, not_found}
use earth2_sandbox.Jobs.{ForecastJob}
use earth2_sandbox.World.{Env, World, Action}
use earth2_sandbox.Store.Helpers.{
  build_new_job, normalize_job_id, prepare_job_for_update, ensure_transition_allowed, sort_jobs,
  sort_and_filter_jobs,
}
use earth2_sandbox.Store.Memory.{expired}

-- JSON texts are of a type `T`. `model_validate_json` is none where it raises a ValueError. `glob` is
-- `root.glob("*.json")`: the stems of the files, in some order.
pub record FileSystem (T : Type 0) : Type 0 where
  pub model_dump_json : ForecastJob → T
  pub model_validate_json : T → Option ForecastJob
  pub glob : Dict T → List String

pub record Root (T : Type 0) : Type 0 where
  pub exists : Bool
  pub files : Dict T
  pub temporaries : Dict T

-- The process and the directory; the table of `World` is that of the in-memory store, and not used.
pub record Machine (T : Type 0) : Type 0 where
  pub world : World
  pub root : Root T

-- what is returned; an exception of the jobs; the ValidationError of a text that is not a job's; or
-- the FileNotFoundError of a file that is gone
pub data Reply (A : Type 0) : Type 0 where
  returned : A → Reply A
  raised : Error → Reply A
  invalid_json : Reply A
  file_not_found : Reply A

abbrev pub reply_of : {A : Type 0} → Result A → Reply A
reply_of (ok a) = returned a
reply_of (err e) = raised e

-- one more
abbrev pub counted : Reply ℕ → Reply ℕ
counted (returned n) = returned (suc n)
counted (raised e) = raised e
counted invalid_json = invalid_json
counted file_not_found = file_not_found

-- A change of the directory by one call of the operating system.
pub data FileStep (T : Type 0) : Type 0 where
  mkdir : FileStep T
  write_text : (stem : String) (text : T) → FileStep T
  replace : (stem : String) → FileStep T

-- Code that reads and writes the machine and may raise.
abbrev pub Operation : Type 0 → Type 0 → Type 0
Operation T A = Machine T → Reply A × Machine T

module _ {T : Type 0} where
  abbrev pub following : {A B : Type 0} → Reply A → (A → Operation T B) → Operation T B
  following (returned a) f m = f a m
  following (raised e) f m = (raised e, m)
  following invalid_json f m = (invalid_json, m)
  following file_not_found f m = (file_not_found, m)

  infixl 5 ◌>>=◌
  abbrev pub ◌>>=◌ : {A B : Type 0} → Operation T A → (A → Operation T B) → Operation T B
  ◌>>=◌ operation f m = let (r, m') = operation m in following r f m'

  abbrev pub pure : {A : Type 0} → A → Operation T A
  pure a m = (returned a, m)

  abbrev pub lift : {A : Type 0} → Result A → Operation T A
  lift r m = (reply_of r, m)

  -- what touches no file
  abbrev pub in_process : {A : Type 0} → Action A → Operation T A
  in_process action m = let (r, w) = action m.world in (reply_of r, record m { world = w })

  -- a file takes the place of another, or there is none to take it
  abbrev pub replaced : Option T → String → Root T → Root T
  replaced none stem root = root
  replaced (some text) stem root = record root {
    files = Dict.put root.files stem text;
    temporaries = Dict.remove root.temporaries stem;
  }

  unfoldable pub step : FileStep T → Root T → Root T
  step mkdir root = record root { exists = true }
  step (write_text stem text) root = record root {
    temporaries = Dict.put root.temporaries stem text;
  }
  step (replace stem) root = replaced (Dict.get root.temporaries stem) stem root

  unfoldable pub steps : List (FileStep T) → Root T → Root T
  unfolding step
  steps [] root = root
  steps (s ∷ ss) root = steps ss (step s root)

  abbrev pub on_disk : List (FileStep T) → Operation T (Unit {0})
  on_disk ss m = (returned tt, record m { root = steps ss m.root })

  -- `_path(job_id)`, by its stem
  abbrev pub path : String → Operation T String
  path job_id = lift (normalize_job_id job_id)

module _ {T : Type 0} (disk : FileSystem T) where
  -- what `_write` does on the disk, the path once known
  abbrev pub writing : String → ForecastJob → List (FileStep T)
  writing stem job = write_text stem (disk.model_dump_json job) ∷ replace stem ∷ []

  unfoldable pub write : ForecastJob → Operation T (Unit {0})
  unfolding normalize_job_id
  write job = do _ ← on_disk (mkdir ∷ []); target ← path job.id; on_disk (writing target job)

  abbrev pub validated : Option ForecastJob → Reply ForecastJob
  validated none = invalid_json
  validated (some job) = returned job

  -- the file at a path, and the exception where there is none
  abbrev pub read : String → Reply ForecastJob → Operation T ForecastJob
  read target missing m = elim (Dict.get m.root.files target) [
    | none ↦ (missing, m)
    | some text ↦ (validated (disk.model_validate_json text), m)
  ]

  unfoldable pub create : Env → Float → Float → Option String → ℕ → Operation T ForecastJob
  create env latitude longitude parent_job_id attempt = do
    job ← in_process (build_new_job env latitude longitude parent_job_id attempt)
    _ ← write job
    pure job

  unfoldable pub get : String → Operation T ForecastJob
  unfolding normalize_job_id
  get job_id = do target ← path job_id; read target (raised (not_found job_id))

  unfoldable pub update_if_status :
      Env → ForecastJob → List ForecastJobStatus → Operation T ForecastJob
  update_if_status env job expected_statuses = do
    next_job ← in_process (prepare_job_for_update env job)
    target ← path next_job.id
    current ← read target (raised (not_found next_job.id))
    _ ← lift (ensure_transition_allowed current expected_statuses)
    _ ← write next_job
    pure next_job

  unfoldable pub update : Env → ForecastJob → Operation T ForecastJob
  unfolding update_if_status
  update env job = update_if_status env job all_job_statuses

  -- a text that is not a job's is passed over
  abbrev pub kept_job : Option ForecastJob → Reply (List ForecastJob) → Reply (List ForecastJob)
  kept_job none rest = rest
  kept_job (some job) (returned jobs) = returned (job ∷ jobs)
  kept_job (some job) (raised e) = raised e
  kept_job (some job) invalid_json = invalid_json
  kept_job (some job) file_not_found = file_not_found

  abbrev pub read_one : Option T → Reply (List ForecastJob) → Reply (List ForecastJob)
  read_one none rest = file_not_found
  read_one (some text) rest = kept_job (disk.model_validate_json text) rest

  -- the loop over the paths
  unfoldable pub read_each : List String → Dict T → Reply (List ForecastJob)
  read_each [] files = returned []
  read_each (stem ∷ stems) files = read_one (Dict.get files stem) (read_each stems files)

  unfoldable pub read_all_unlocked : Operation T (List ForecastJob)
  read_all_unlocked m =
      if m.root.exists
      then (read_each (disk.glob m.root.files) m.root.files, m)
      else (returned [], m)

  unfoldable pub list_recent : ℕ → Option ForecastJobStatus → Operation T (List ForecastJob)
  unfolding read_all_unlocked
  list_recent limit status = do
    jobs ← read_all_unlocked
    pure (sort_and_filter_jobs jobs limit status)

  unfoldable pub list_active : Operation T (List ForecastJob)
  unfolding read_all_unlocked
  list_active = do
    jobs ← read_all_unlocked
    pure (sort_jobs (keep (λ job. is_in job.status active_job_statuses) jobs))

  abbrev pub is_due : Datetime → List ForecastJobStatus → Option ForecastJob → Bool
  is_due cutoff statuses none = false
  is_due cutoff statuses (some job) = expired cutoff statuses job

  -- a file that is there, and the rest of the loop without and with it
  abbrev pub delete_one :
      Datetime
      → List ForecastJobStatus
      → Option T
      → Dict T
      → Reply ℕ × Dict T
      → Reply ℕ × Dict T
      → Reply ℕ × Dict T
  delete_one cutoff statuses none files deleted kept = (file_not_found, files)
  delete_one cutoff statuses (some text) files deleted kept =
      if is_due cutoff statuses (disk.model_validate_json text)
      then (counted deleted.0, deleted.1)
      else kept

  -- the loop of `delete_older_than`: how many files it deletes, and what it leaves
  unfoldable pub delete_each :
      Datetime → List ForecastJobStatus → List String → Dict T → Reply ℕ × Dict T
  delete_each cutoff statuses [] files = (returned 0, files)
  delete_each cutoff statuses (stem ∷ stems) files =
      let deleted = delete_each cutoff statuses stems (Dict.remove files stem) in
      let kept = delete_each cutoff statuses stems files in
      delete_one cutoff statuses (Dict.get files stem) files deleted kept

  unfoldable pub delete_older_than : Datetime → List ForecastJobStatus → Operation T ℕ
  delete_older_than cutoff statuses m =
      let (count, left) = delete_each cutoff statuses (disk.glob m.root.files) m.root.files in
      if m.root.exists
      then (count, record m { root = record m.root { files = left } })
      else (returned 0, m)
