-- ===== src/Store/Files/Laws.antt =====
-- The files of src/earth2_sandbox/infrastructure/storage/file_job_store.py as the texts of a table of
-- jobs: what reading, writing and listing them comes to.
use earth2_sandbox.Prelude.{
  ℕ, String, true, false, ◌≡◌, refl, ap, ◌∙◌, Option, none, some, List, [], ◌∷◌, All, All-mono,
  eq_refl, inl, inr, Bool-cases, Option-cases, ◌==◌, eq_iff, arith,
}
use earth2_sandbox.Prelude.Dict
use earth2_sandbox.Prelude.Dict.{Dict}
use earth2_sandbox.Prelude.Dict.Entries.{Entries, Distinct}
use earth2_sandbox.Prelude.Rearranged.{collect, contains}
use earth2_sandbox.Jobs.{ForecastJob}
use earth2_sandbox.Domain.Float.{Float}
use earth2_sandbox.World.{Env, World}
use earth2_sandbox.Store.Helpers.{build_new_job}
use earth2_sandbox.Store.Files.{FileSystem, returned, read_each}

-- the names of the files
abbrev pub stems {ℓ} : {V : Type ℓ} → Dict V → List String
stems [] = []
stems ((k, v) ∷ d) = k ∷ stems d

abbrev pub relabelled : {A : Type 0} → Dict ForecastJob → A × World → A × World
relabelled jobs (r, w) = (r, record w { jobs = jobs })

-- The helpers look at the clock and the identifiers, and not at the table.
pub build_new_job-relabelled :
    (env : Env) (latitude longitude : Float) (parent : Option String) (attempt : ℕ) (w : World)
    (jobs : Dict ForecastJob)
    → build_new_job env latitude longitude parent attempt (record w { jobs = jobs })
      ≡ relabelled jobs (build_new_job env latitude longitude parent attempt w)
unfolding build_new_job
build_new_job-relabelled env latitude longitude parent attempt w jobs = ground arith

module _ {T : Type 0} (disk : FileSystem T) where
  abbrev pub dump_of : Option ForecastJob → Option T
  dump_of none = none
  dump_of (some job) = some (disk.model_dump_json job)

  abbrev pub dumped : Dict ForecastJob → Dict T
  dumped [] = []
  dumped ((k, job) ∷ jobs) = (k, disk.model_dump_json job) ∷ dumped jobs

  pub get-dumped :
      (jobs : Dict ForecastJob) (k : String) → Dict.get (dumped jobs) k ≡ dump_of (Dict.get jobs k)
  unfolding Dict.get
  get-dumped [] k = refl
  get-dumped ((j, job) ∷ jobs) k = ground (arith, get-dumped jobs k)

  pub put-dumped :
      (jobs : Dict ForecastJob) (k : String) (job : ForecastJob)
      → Dict.put (dumped jobs) k (disk.model_dump_json job) ≡ dumped (Dict.put jobs k job)
  unfolding Dict.put
  put-dumped [] k job = refl
  put-dumped ((j, other) ∷ jobs) k job = ground (arith, put-dumped jobs k job)

  pub remove-dumped :
      (jobs : Dict ForecastJob) (k : String)
      → Dict.remove (dumped jobs) k ≡ dumped (Dict.remove jobs k)
  unfolding Dict.remove
  remove-dumped [] k = refl
  remove-dumped ((j, other) ∷ jobs) k = ground (arith, remove-dumped jobs k)

  pub stems-dumped : (jobs : Dict ForecastJob) → stems (dumped jobs) ≡ stems jobs
  stems-dumped [] = refl
  stems-dumped ((k, job) ∷ jobs) = ap (λ ks. k ∷ ks) (stems-dumped jobs)

pub contains-stems {ℓ} :
    {V : Type ℓ} (d : Dict V) (k : String)
    → contains (stems d) k ≡ elim (Dict.get d k) [ none ↦ false | some _ ↦ true ]
unfolding Dict.get
contains-stems [] k = refl
contains-stems ((j, v) ∷ d) k = elim (Bool-cases (j == k)) [
  | inl here ↦ rw here
  | inr later ↦ rw later (contains-stems d k)
]

collect_later :
    (jobs : Dict ForecastJob) (k : String) (job : ForecastJob) (ks : List String)
    → contains ks k ≡ false
    → collect (Dict.get ((k, job) ∷ jobs)) ks ≡ collect (Dict.get jobs) ks
unfolding Dict.get
collect_later jobs k job [] h = refl
collect_later jobs k job (j ∷ ks) h = elim (Bool-cases (j == k)) [
  | inl here ↦ absurd (ground (arith, h, here))
  | inr later ↦
      let other : (k == j) ≡ false = ground (arith, eq_iff j k, eq_iff k j) in
      let rest = collect_later jobs k job ks (ground (arith, h)) in
      elim (Option-cases (Dict.get jobs j)) [
        | inl missing ↦ rw (collect, other, missing) rest
        | inr (found, e) ↦ rw (collect, other, e) (ap (λ js. found ∷ js) rest)
      ]
]

collect_here :
    (jobs : Dict ForecastJob) (k : String) (job : ForecastJob) (ks : List String)
    → collect (Dict.get ((k, job) ∷ jobs)) (k ∷ ks) ≡ job ∷ collect (Dict.get ((k, job) ∷ jobs)) ks
unfolding Dict.get
collect_here jobs k job ks = rw (collect, eq_refl k)

pub collect-stems :
    (jobs : Dict ForecastJob)
    → Distinct jobs
    → collect (Dict.get jobs) (stems jobs) ≡ Dict.values jobs
unfolding Dict.values
collect-stems [] h = refl
collect-stems ((k, job) ∷ jobs) h =
    let fresh : contains (stems jobs) k ≡ false = contains-stems jobs k ∙ rw h.0 refl in
    collect_here jobs k job (stems jobs)
    ∙ ap (λ js. job ∷ js) (collect_later jobs k job (stems jobs) fresh ∙ collect-stems jobs h.1)

module _ {T : Type 0} (disk : FileSystem T) where
  -- JSON gives the job back
  abbrev pub Reads : ForecastJob → Type 0
  Reads job = disk.model_validate_json (disk.model_dump_json job) ≡ some job

  abbrev pub Readable : Dict ForecastJob → String → Type 0
  Readable jobs k = (job : ForecastJob) × (Dict.get jobs k ≡ some job) × Reads job

  -- under each of the names there is a job that can be read
  abbrev pub AreReadable : Dict ForecastJob → List String → Type 0
  AreReadable jobs = All (Readable jobs)

  pub AreReadable-stems :
      (jobs : Dict ForecastJob) → Entries (λ k job. Reads job) jobs → AreReadable jobs (stems jobs)
  unfolding Dict.get
  AreReadable-stems [] h = tt
  AreReadable-stems ((k, job) ∷ jobs) h = (
    (job, rw (eq_refl k), h.0),
    All-mono (Readable jobs) (Readable ((k, job) ∷ jobs))
        (λ j found. elim (Bool-cases (k == j)) [
          | inl here ↦ (job, rw here, h.0)
          | inr later ↦ (found.0, rw later found.1, found.2)
        ])
        (stems jobs) (AreReadable-stems jobs h.1),
  )

  pub read_each_lem :
      (jobs : Dict ForecastJob) (ks : List String)
      → AreReadable jobs ks
      → read_each disk ks (dumped disk jobs) ≡ returned (collect (Dict.get jobs) ks)
  unfolding read_each
  read_each_lem jobs [] h = refl
  read_each_lem jobs (k ∷ ks) ((job, found, reads), h) =
      rw (collect, get-dumped disk jobs k, found, reads, read_each_lem jobs ks h)
