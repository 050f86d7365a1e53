-- ===== src/Store/Memory/Laws.antt =====
-- What the methods of the in-memory store do at a known identifier, with the normalisation gone.
use earth2_sandbox.Prelude.{suc, ◌≡◌, true, String, Option, none, some, List, if◌then◌else◌, arith}
use earth2_sandbox.Prelude.Dict
use earth2_sandbox.Domain.Status.{ForecastJobStatus, is_in}
use earth2_sandbox.Domain.Uuid.{parse_uuid}
use earth2_sandbox.Outcome.{Result, ok, err, Error, not_found, transition}
use earth2_sandbox.Jobs.{ForecastJob}
use earth2_sandbox.World.{Env, World}
use earth2_sandbox.Store.Memory.{get, update_if_status}

abbrev pub ticked : World → World
ticked w = record w { clock_reads = suc w.clock_reads }

-- the job as a method stores it
abbrev pub stamped : Env → World → ForecastJob → ForecastJob
stamped env w job = record job { updated_at = env.clock w.clock_reads }

abbrev pub or_missing : Error → Option ForecastJob → Result ForecastJob
or_missing e none = err e
or_missing e (some job) = ok job

-- A compare-and-set on the status of the stored job.
abbrev pub conditional_write :
    Env
    → ForecastJob
    → List ForecastJobStatus
    → World
    → Option ForecastJob
    → Result ForecastJob × World
conditional_write env job expected w none = (err (not_found job.id), ticked w)
conditional_write env job expected w (some current) =
    if is_in current.status expected
    then (
      ok (stamped env w job),
      record w {
        clock_reads = suc w.clock_reads;
        jobs = Dict.put w.jobs job.id (stamped env w job);
      },
    )
    else (err (transition current.id current.status expected), ticked w)

pub get_lem :
    (job_id key : String) (w : World)
    → parse_uuid job_id ≡ some key
    → get job_id w ≡ (or_missing (not_found job_id) (Dict.get w.jobs key), w)
unfolding get
get_lem job_id key w h = ground arith

pub get_invalid :
    (job_id : String) (w : World)
    → parse_uuid job_id ≡ none
    → get job_id w ≡ (err (not_found job_id), w)
unfolding get
get_invalid job_id w h = ground arith

pub update_if_status_lem :
    (env : Env) (job : ForecastJob) (expected : List ForecastJobStatus) (w : World)
    → parse_uuid job.id ≡ some job.id
    → update_if_status env job expected w
      ≡ conditional_write env job expected w (Dict.get w.jobs job.id)
unfolding update_if_status
update_if_status_lem env job expected w h = ground arith

-- the world after a successful write
abbrev pub written : Env → ForecastJob → World → World
written env job w = record w {
  clock_reads = suc w.clock_reads;
  jobs = Dict.put w.jobs job.id (stamped env w job);
}

pub get_found :
    (job_id key : String) (w : World) (job : ForecastJob)
    → parse_uuid job_id ≡ some key
    → Dict.get w.jobs key ≡ some job
    → get job_id w ≡ (ok job, w)
get_found job_id key w job p found = rw (get_lem job_id key w p, found)

pub get_missing :
    (job_id key : String) (w : World)
    → parse_uuid job_id ≡ some key
    → Dict.get w.jobs key ≡ none
    → get job_id w ≡ (err (not_found job_id), w)
get_missing job_id key w p missing = rw (get_lem job_id key w p, missing)

module _ (env : Env) (job current : ForecastJob) (expected : List ForecastJobStatus) (w : World)
    (canonical : parse_uuid job.id ≡ some job.id)
    (found : Dict.get w.jobs job.id ≡ some current) where
  pub update_allowed :
      is_in current.status expected ≡ true
      → update_if_status env job expected w ≡ (ok (stamped env w job), written env job w)
  update_allowed h =
      rw (update_if_status_lem env job expected w canonical, found, conditional_write, h)
