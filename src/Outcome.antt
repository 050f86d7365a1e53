-- ===== src/Outcome.antt =====
-- What code that may raise returns: src/earth2_sandbox/application/errors.py, the errors of
-- domain/jobs/entities.py, and the exceptions of the language that the job code can meet.
use Prim.Native.String.{◌++◌ as str_append}
use earth2_sandbox.Prelude.{String, List}
use earth2_sandbox.Domain.Status.{ForecastJobStatus, queued, running, succeeded, failed, cancelled}

pub data Error : Type 0 where
  not_found : (job_id : String) → Error
  conflict : (message : String) → Error
  transition :
      (job_id : String) (current_status : ForecastJobStatus)
      (expected_statuses : List ForecastJobStatus)
      → Error
  invalid_identity : (value : String) → Error
  invalid_coordinates invalid_attempt : (message : String) → Error
  key_error : (key : String) → Error
  overflow_error validation_error : Error

-- what is returned, or what is raised
pub data Result (A : Type 0) : Type 0 where
  ok : A → Result A
  err : Error → Result A

module _ {A B : Type 0} where
  -- An exception skips the code after it.
  infixl 5 ◌>>=◌
  abbrev pub ◌>>=◌ : Result A → (A → Result B) → Result B
  err raised >>= rest = err raised
  ok returned >>= rest = rest returned

-- f"{status}"
abbrev pub status_text : ForecastJobStatus → String
status_text queued = "queued"
status_text running = "running"
status_text succeeded = "succeeded"
status_text failed = "failed"
status_text cancelled = "cancelled"

infixr 65 ◌⧺◌
abbrev pub ◌⧺◌ : String → String → String
s ⧺ t = str_append s t
