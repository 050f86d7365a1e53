-- ===== src/World.antt =====
-- The process that the job code runs in: the in-memory job table, and what the ports have been asked
-- so far. The clock, the identifiers and the provider are streams: an `Env` fixes their answers, and
-- the world counts the questions, so that a theorem for every `Env` is one for every behaviour.
use earth2_sandbox.Prelude.{ℕ, suc, String, Option, List}
use earth2_sandbox.Prelude.Dict.{Dict}
use earth2_sandbox.Domain.Float.{Float}
use earth2_sandbox.Domain.Policies.{Datetime}
use earth2_sandbox.Outcome.{Result, ok, err}
use earth2_sandbox.Jobs.{ForecastJob, ForecastJobDiagnostics}
use earth2_sandbox.Jobs.Forecast.{ForecastSummary}

-- what `dictionary.get("message")` is: false to Python, a text, or another value
pub data Message : Type 0 where
  no_message : Message
  text : String → Message
  not_text : Message

-- A dictionary of diagnostics, of any values: what `ForecastJobDiagnostics(**...)` makes of all but its
-- message, none for a ValidationError, and the message.
pub record Diagnostics : Type 0 where
  pub others : Option ForecastJobDiagnostics
  pub message : Message

-- What a provider raises: `ForecastProviderUnavailableError(message, diagnostics=...)`, or any
-- other exception, by its text.
pub data ProviderError : Type 0 where
  unavailable : (message : String) (diagnostics : Option Diagnostics) → ProviderError
  unexpected : (text : String) → ProviderError

pub record ForecastProviderResult : Type 0 where
  pub summary : ForecastSummary
  pub diagnostics : Diagnostics

pub data Answer (A : Type 0) : Type 0 where
  answered : A → Answer A
  raised : ProviderError → Answer A

-- The n-th question to a provider. Not every provider has the method with diagnostics.
pub record Provider : Type 0 where
  pub get_point_forecast : ℕ → Float → Float → Answer ForecastSummary
  pub get_point_forecast_with_diagnostics :
      Option (ℕ → Float → Float → Answer ForecastProviderResult)

pub record Env : Type 0 where
  pub clock : ℕ → Datetime
  pub new_id : ℕ → String
  pub float_text : Float → String
  pub provider : Provider

pub record World : Type 0 where
  pub jobs : Dict ForecastJob
  pub clock_reads : ℕ
  pub ids_made : ℕ
  pub provider_calls : ℕ
  -- `_forecast_job_counts` of the metrics registry, by event
  pub job_counts : Dict ℕ
  -- the calls of `worker.enqueue`
  pub enqueued : List String

-- Code that reads and writes the world and may raise.
abbrev pub Action : Type 0 → Type 0
Action A = World → Result A × World

module _ {A B : Type 0} where
  abbrev pub continue : Result A → (A → Action B) → Action B
  continue (ok a) f w = f a w
  continue (err e) f w = (err e, w)

  infixl 5 ◌>>=◌
  abbrev pub ◌>>=◌ : Action A → (A → Action B) → Action B
  ◌>>=◌ m f w = let (r, w') = m w in continue r f w'

module _ {A : Type 0} where
  abbrev pub lift : Result A → Action A
  lift r w = (r, w)

  abbrev pub pure : A → Action A
  pure a w = (ok a, w)

-- clock.now()
abbrev pub now : Env → Action Datetime
now env w = (ok (env.clock w.clock_reads), record w { clock_reads = suc w.clock_reads })

-- id_generator.new_id()
abbrev pub new_id : Env → Action String
new_id env w = (ok (env.new_id w.ids_made), record w { ids_made = suc w.ids_made })
