-- ===== src/Fourcastnet/Answers.antt =====
-- What a caller of the FourCastNet provider can meet.
use earth2_sandbox.Prelude.{ℕ, ◌≡◌, String, true, List, ◌⊎◌}
use earth2_sandbox.Domain.Float.{Float}
use earth2_sandbox.Jobs.{ForecastJobDiagnostics}
use earth2_sandbox.Jobs.Forecast.{ForecastSummary}
use earth2_sandbox.World.{ForecastProviderResult}
use earth2_sandbox.Artifacts.{Attempt, value_error, is_safe_key}
use earth2_sandbox.Nim.{
  Fetched, Sent, Failure, inference_error, Outcome, done, failed, HostedInferenceRequest,
}
use earth2_sandbox.Nim.Client.Requests.Readiness.{NimStatus}
use earth2_sandbox.Fourcastnet.{
  Processed, processed, post_processing_error, uncaught, from_archive, ProviderEnv,
  FourcastnetProvider, unavailable, from_client, broken_metadata, Reply, answered, refused,
}

-- httpx.InvalidURL, which the network has raised of a request
abbrev pub IsInvalidUrl : ProviderEnv → String → Type 0
IsInvalidUrl env message =
    (n : ℕ) × (request : Sent) × (env.transport n request ≡ Fetched.invalid_url message)

-- an exception that the reading of an archive has raised
abbrev pub IsUncaught : ProviderEnv → String → Type 0
IsUncaught env reason =
    (n : ℕ) × (content : List ℕ) × (request : HostedInferenceRequest) × (latitude : Float)
    × (longitude : Float) × (env.archives.build_forecast_summary_from_tar_bytes n content request
          latitude longitude
        ≡ uncaught reason)

-- A reply of the code inside the provider that the provider has a handler for, or the error of a
-- metadata file that does not decode, or an httpx.InvalidURL.
abbrev IsHandled : {A : Type 0} → ProviderEnv → Reply A → Type 0
IsHandled env (answered a) = Unit
IsHandled env (refused (unavailable message diagnostics)) = Unit
IsHandled env (refused (from_client (inference_error message diagnostics))) = Unit
IsHandled env (refused (from_client (Failure.invalid_url message))) = IsInvalidUrl env message
IsHandled env (refused broken_metadata) = Unit
IsHandled env _ = ⊥

-- a reply, the error of a provider that is not available, that of a broken metadata file, or one of
-- the exceptions above
abbrev IsForeseen : {A : Type 0} → ProviderEnv → Reply A → Type 0
IsForeseen env (answered a) = Unit
IsForeseen env (refused (unavailable message diagnostics)) = Unit
IsForeseen env (refused (from_client (Failure.invalid_url message))) = IsInvalidUrl env message
IsForeseen env (refused (from_archive reason)) = IsUncaught env reason
IsForeseen env (refused broken_metadata) = Unit
IsForeseen env _ = ⊥

-- what asking for a forecast can end in
abbrev pub Foreseen : ProviderEnv → Reply ForecastProviderResult → Type 0
Foreseen env reply =
    ((result : ForecastProviderResult) × (reply ≡ answered result))
    ⊎ ((message : String) × (diagnostics : ForecastJobDiagnostics) × (reply
          ≡ refused (unavailable message diagnostics)))
    ⊎ (reply ≡ refused broken_metadata)
    ⊎ ((message : String) × (reply ≡ refused (from_client (Failure.invalid_url message)))
        × IsInvalidUrl env message)
    ⊎ ((reason : String) × (reply ≡ refused (from_archive reason)) × IsUncaught env reason)

-- The store does not refuse a key.
abbrev IsAccepted : {A : Type 0} → Attempt A → Type 0
IsAccepted (value_error message) = ⊥
IsAccepted _ = Unit

module _ (env : ProviderEnv) (provider : FourcastnetProvider)
    (safe : (bytes : List ℕ) → is_safe_key (env.artifacts.sha256 bytes) ≡ true) where
  abbrev IsProcessed : Processed ForecastSummary → Type 0
  IsProcessed (processed summary) = Unit
  IsProcessed (post_processing_error message) = Unit
  IsProcessed (uncaught reason) = IsUncaught env reason

  -- a status, or the exception of a readiness URL that is none
  abbrev IsStatus : Outcome NimStatus → Type 0
  IsStatus outcome =
      ((status : NimStatus) × (outcome ≡ done status))
      ⊎ ((message : String) × (outcome ≡ failed (Failure.invalid_url message))
          × IsInvalidUrl env message)
