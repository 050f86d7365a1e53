-- ===== src/Store/Files/Equivalence.antt =====
-- Any calls of the two job stores, file_job_store.py and memory_job_store.py in
-- src/earth2_sandbox/infrastructure/storage, one after the other.
use earth2_sandbox.Prelude.{ℕ, String, ◌≡◌, refl, ap, Option, List, [], ◌∷◌, All}
use earth2_sandbox.Prelude.Dict.{Dict}
use earth2_sandbox.Prelude.Rearranged.{Rearranged}
use earth2_sandbox.Domain.Float.{Float}
use earth2_sandbox.Domain.Policies.{Datetime}
use earth2_sandbox.Domain.Status.{ForecastJobStatus, all_job_statuses}
use earth2_sandbox.Jobs.{ForecastJob}
use earth2_sandbox.Jobs.Forecast.{ForecastSummary}
use earth2_sandbox.Outcome.{Result}
use earth2_sandbox.World.{Env, World}
use earth2_sandbox.Store.Memory
use earth2_sandbox.Store.Files
use earth2_sandbox.Store.Files.{FileSystem, Machine, Reply, returned, reply_of}
use earth2_sandbox.Store.Files.Laws.{Reads, stems}
use earth2_sandbox.Store.Files.Holding.{IsStorable, as_memory, Holds}
use earth2_sandbox.Store.Files.Agreement.{create-Agree, get-Agree, update_if_status-Agree}
use earth2_sandbox.Store.Files.Listing.{
  list_recent-Agree, list_active-Agree, delete_older_than-Agree,
}

-- the methods of the port ForecastJobStore
pub data StoreCall : Type 0 where
  create : (latitude longitude : Float) (parent_job_id : Option String) (attempt : ℕ) → StoreCall
  get : (job_id : String) → StoreCall
  update : (job : ForecastJob) → StoreCall
  update_if_status : (job : ForecastJob) (expected : List ForecastJobStatus) → StoreCall
  list_recent : (limit : ℕ) (status : Option ForecastJobStatus) → StoreCall
  list_active : StoreCall
  delete_older_than : (cutoff : Datetime) (statuses : List ForecastJobStatus) → StoreCall

pub data StoreAnswer : Type 0 where
  a_job : Reply ForecastJob → StoreAnswer
  jobs : Reply (List ForecastJob) → StoreAnswer
  count : Reply ℕ → StoreAnswer

abbrev pub answer : {A S : Type 0} → (Reply A → StoreAnswer) → Reply A × S → StoreAnswer × S
answer f (reply, s) = (f reply, s)

abbrev pub as_reply : {A S : Type 0} → Result A × S → Reply A × S
as_reply (r, s) = (reply_of r, s)

unfoldable pub memory_call : Env → StoreCall → World → StoreAnswer × World
memory_call env (create latitude longitude parent_job_id attempt) w =
    answer a_job (as_reply (Memory.create env latitude longitude parent_job_id attempt w))
memory_call env (get job_id) w = answer a_job (as_reply (Memory.get job_id w))
memory_call env (update job) w = answer a_job (as_reply (Memory.update env job w))
memory_call env (update_if_status job expected) w =
    answer a_job (as_reply (Memory.update_if_status env job expected w))
memory_call env (list_recent limit status) w =
    (jobs (returned (Memory.list_recent limit status w)), w)
memory_call env list_active w = (jobs (returned (Memory.list_active w)), w)
memory_call env (delete_older_than cutoff statuses) w =
    answer count (as_reply (Memory.delete_older_than cutoff statuses w))

unfoldable pub memory_calls : Env → List StoreCall → World → List StoreAnswer
memory_calls env [] w = []
memory_calls env (c ∷ cs) w = let (a, w') = memory_call env c w in a ∷ memory_calls env cs w'

-- the jobs that a call stores are storable
abbrev pub StoresSound : (ForecastSummary → Type 0) → StoreCall → Type 0
StoresSound Sound (update job) = IsStorable Sound job
StoresSound Sound (update_if_status job expected) = IsStorable Sound job
StoresSound Sound _ = Unit

module _ {T : Type 0} (disk : FileSystem T) where
  unfoldable pub file_call : Env → StoreCall → Machine T → StoreAnswer × Machine T
  file_call env (create latitude longitude parent_job_id attempt) m =
      answer a_job (Files.create disk env latitude longitude parent_job_id attempt m)
  file_call env (get job_id) m = answer a_job (Files.get disk job_id m)
  file_call env (update job) m = answer a_job (Files.update disk env job m)
  file_call env (update_if_status job expected) m =
      answer a_job (Files.update_if_status disk env job expected m)
  file_call env (list_recent limit status) m = answer jobs (Files.list_recent disk limit status m)
  file_call env list_active m = answer jobs (Files.list_active disk m)
  file_call env (delete_older_than cutoff statuses) m =
      answer count (Files.delete_older_than disk cutoff statuses m)

  unfoldable pub file_calls : Env → List StoreCall → Machine T → List StoreAnswer
  file_calls env [] m = []
  file_calls env (c ∷ cs) m = let (a, m') = file_call env c m in a ∷ file_calls env cs m'

  abbrev SameAnswer :
      (ForecastSummary → Type 0) → StoreAnswer × Machine T → StoreAnswer × World → Type 0
  SameAnswer Sound (a, m) (b, w) =
      (a ≡ b)
      × ((table : Dict ForecastJob) × (w ≡ as_memory m table) × Holds disk Sound m.root table)

module _ {T : Type 0} (disk : FileSystem T) (Sound : ForecastSummary → Type 0)
    (reads : (job : ForecastJob) → IsStorable Sound job → Reads disk job)
    (lists : (files : Dict T) → Rearranged (stems files) (disk.glob files)) (env : Env) where
  call-SameAnswer :
      (c : StoreCall) (m : Machine T) (table : Dict ForecastJob)
      → StoresSound Sound c
      → Holds disk Sound m.root table
      → SameAnswer disk Sound (file_call disk env c m) (memory_call env c (as_memory m table))
  unfolding file_call memory_call Files.update Memory.update
  call-SameAnswer (create latitude longitude parent_job_id attempt) m table stores h =
      let agreed =
        create-Agree disk Sound reads m table h env latitude longitude parent_job_id attempt in
      (ap a_job agreed.0, agreed.1)
  call-SameAnswer (get job_id) m table stores h =
      let agreed = get-Agree disk Sound reads m table h job_id in (ap a_job agreed.0, agreed.1)
  call-SameAnswer (update job) m table stores h =
      let agreed =
        update_if_status-Agree disk Sound reads m table h env job all_job_statuses stores in
      (ap a_job agreed.0, agreed.1)
  call-SameAnswer (update_if_status job expected) m table stores h =
      let agreed = update_if_status-Agree disk Sound reads m table h env job expected stores in
      (ap a_job agreed.0, agreed.1)
  call-SameAnswer (list_recent limit status) m table stores h =
      rw (list_recent-Agree disk Sound reads lists m table h limit status) (refl, (table, refl, h))
  call-SameAnswer list_active m table stores h =
      rw (list_active-Agree disk Sound reads lists m table h) (refl, (table, refl, h))
  call-SameAnswer (delete_older_than cutoff statuses) m table stores h =
      let agreed = delete_older_than-Agree disk Sound reads lists m table h cutoff statuses in
      (ap count agreed.0, agreed.1)

  -- A directory that holds the jobs of a table, with JSON that gives back any storable job, a listing
  -- of the files in any order, and calls that store storable jobs: the calls of the file store are
  -- answered as the same calls of the in-memory store are, and neither ValidationError nor
  -- FileNotFoundError is raised.
  pub file_calls-equivalent :
      (cs : List StoreCall) (m : Machine T) (table : Dict ForecastJob)
      → All (StoresSound Sound) cs
      → Holds disk Sound m.root table
      → file_calls disk env cs m ≡ memory_calls env cs (as_memory m table)
  unfolding file_calls memory_calls
  file_calls-equivalent [] m table sound h = refl
  file_calls-equivalent (c ∷ cs) m table sound h =
      let step = call-SameAnswer c m table sound.0 h in
      let rest = file_calls-equivalent cs (file_call disk env c m).1 step.1.0 sound.1 step.1.2 in
      rw (step.0, step.1.1) (ap (λ as'. (memory_call env c (as_memory m table)).0 ∷ as') rest)
