-- ===== src/Fourcastnet.antt =====
-- The forecast provider on the hosted FourCastNet endpoint,
-- src/earth2_sandbox/infrastructure/nvidia/fourcastnet_provider.py, with the checks of
-- fourcastnet_decoder.py before an archive is opened. What numpy and tarfile make of an archive is
-- the `Archives` that a provider is given.
pub mod Forecast
pub mod Answers
pub mod Reuse
pub mod Report
use earth2_sandbox.Prelude.{
  ℕ, zero, suc, ◌+◌, ◌++◌, String, Bool, true, false, not, ◌&&◌, ◌||◌, Option, none, some, List, [],
  ◌∷◌, length, leb, ◌==◌, if◌then◌else◌,
}
use earth2_sandbox.Prelude.Text.{contains_lowered}
use earth2_sandbox.Outcome.{◌⧺◌}
use earth2_sandbox.Domain.Float.{Float, plus}
use earth2_sandbox.Domain.Policies.{Datetime}
use earth2_sandbox.Jobs.{ForecastJobDiagnostics, no_diagnostics}
use earth2_sandbox.Jobs.Forecast.{ForecastSummary}
use earth2_sandbox.World.{ForecastProviderResult}
use earth2_sandbox.Artifacts.{ArtifactEnv, Disk, Attempt, value, value_error, undecodable}
use earth2_sandbox.Artifacts.Cache.{
  FourcastnetCacheRecord, CacheEnv, is_tar, load_cached, save_cached,
}
use earth2_sandbox.Nim.{
  Sent, Fetched, NimEnv, Failure, inference_error, http_error, Outcome, done, failed, out_of_fuel,
  Payload, HostedInferenceRequest, HostedInferenceResult, cache, source_text, disabled, hit, miss,
  stored, cache_text, or_text, or_empty,
}
use earth2_sandbox.Nim.Client.{NimClient, EndpointMode, hosted, self_hosted}
use earth2_sandbox.Nim.Client.Requests.{
  is_hosted, build_hosted_inference_payload, run_hosted_inference,
}
use earth2_sandbox.Nim.Client.Requests.Readiness.{NimStatus, get_readiness_status}

-- what post-processing returns, or FourCastNetPostProcessingError, or another exception by its text
pub data Processed (A : Type 0) : Type 0 where
  processed : A → Processed A
  post_processing_error : (message : String) → Processed A
  uncaught : (text : String) → Processed A

-- build_forecast_summary_from_tar_bytes, at the n-th time it is asked: it may end in any way
pub record Archives : Type 0 where
  pub build_forecast_summary_from_tar_bytes :
      ℕ → List ℕ → HostedInferenceRequest → Float → Float → Processed ForecastSummary

pub record ProviderEnv : Type 0 where
  pub transport : ℕ → Sent → Fetched
  pub artifacts : ArtifactEnv
  pub serialized : Payload → String → List ℕ
  pub payload_text : Payload → String
  pub archives : Archives
  -- `{text!r}`
  pub quoted : String → String

abbrev pub cache_env : ProviderEnv → CacheEnv
cache_env env = record {
  artifacts = env.artifacts;
  serialized = env.serialized;
  payload_text = env.payload_text;
}

-- result_cache is a cache or None.
pub record FourcastnetProvider : Type 0 where
  pub client : NimClient
  pub has_cache : Bool

-- What calls of the provider leave behind: requests, files, and archives read.
pub record Remote : Type 0 where
  pub sent : List Sent
  pub disk : Disk
  pub archives_read : ℕ

-- A call of the client opens a connection of its own: the requests before it are behind it.
abbrev pub nim_env : ProviderEnv → Remote → NimEnv
nim_env env remote = record {
  transport = λ n. env.transport (length remote.sent + n);
  sha256 = env.artifacts.sha256;
}

abbrev pub with_sent : Remote → List Sent → Remote
with_sent remote sent = record remote { sent = remote.sent ++ sent }

-- ForecastProviderUnavailableError; or what leaves the provider as it is: an error of the client,
-- of post-processing or of the artifact store that no handler names
pub data Trouble : Type 0 where
  unavailable : (message : String) (diagnostics : ForecastJobDiagnostics) → Trouble
  from_client : Failure → Trouble
  from_archive : (text : String) → Trouble
  unsafe_artifact : (message : String) → Trouble
  broken_metadata : Trouble
  no_end : Trouble

pub data Reply (A : Type 0) : Type 0 where
  answered : A → Reply A
  refused : Trouble → Reply A

-- ForecastProviderStatus
pub record ProviderStatus : Type 0 where
  pub provider : String
  pub mode : EndpointMode
  pub configured : Bool
  pub ready : Bool
  pub supports_point_forecast : Bool
  pub endpoint : String
  pub detail : String

abbrev is_hosted_mode : EndpointMode → Bool
is_hosted_mode hosted = true
is_hosted_mode self_hosted = false

-- `f"{status.detail} {detail_suffix}".strip()`: both parts are texts without outer spaces
abbrev pub status_from : NimStatus → ProviderStatus
status_from status =
    let supports = is_hosted_mode status.mode && status.ready in
    record {
      provider = "fourcastnet";
      mode = status.mode;
      configured = status.configured;
      ready = status.ready;
      supports_point_forecast = supports;
      endpoint = status.endpoint;
      detail =
          status.detail
          ⧺ (if supports
              then " Hosted point forecast sampling is configured; run inference to verify output."
              else " Point forecast sampling requires the hosted API path and a configured API key.");
    }

abbrev pub reply_of : {A B : Type 0} → (A → B) → Outcome A → Reply B
reply_of f (done a) = answered (f a)
reply_of f (failed e) = refused (from_client e)
reply_of f out_of_fuel = refused no_end

unfoldable pub get_status :
    ProviderEnv → FourcastnetProvider → Remote → Reply ProviderStatus × Remote
unfolding get_readiness_status
get_status env provider remote =
    let (outcome, sent) = get_readiness_status (nim_env env remote) provider.client [] in
    (reply_of status_from outcome, with_sent remote sent)

-- the result that a cached archive stands for
abbrev pub cached_result :
    FourcastnetProvider → Payload → List ℕ → FourcastnetCacheRecord → HostedInferenceResult
cached_result provider payload content entry = record {
  endpoint = provider.client.base_url;
  status_code = 200;
  content_type = entry.content_type;
  byte_length = entry.byte_length;
  sha256 = entry.sha256;
  request_payload = payload;
  json_preview = none;
  nvcf_request_id = none;
  nvcf_status = none;
  large_asset_message = none;
  poll_attempts = 0;
  response_source = cache;
  response_reference_present = false;
  cache_status = hit;
  cached_artifact_id = some entry.key;
  raw_content = some content;
}

-- result.model_copy(update=...) after an attempt to keep the result
abbrev pub after_save :
    HostedInferenceResult → Attempt (Option FourcastnetCacheRecord) → Reply HostedInferenceResult
after_save result (value (some entry)) =
    answered (record result { cache_status = stored; cached_artifact_id = some entry.key })
after_save result (value none) = answered (record result { cache_status = miss })
after_save result (value_error message) = refused (unsafe_artifact message)
after_save result undecodable = refused broken_metadata

abbrev pub keep_result :
    ProviderEnv
    → FourcastnetProvider
    → HostedInferenceRequest
    → Outcome HostedInferenceResult
    → Remote
    → Reply HostedInferenceResult × Remote
keep_result env provider request (done result) remote =
    let (kept, disk) =
      save_cached (cache_env env) (build_hosted_inference_payload request) request.accept result
        remote.disk in
    if provider.has_cache
    then (after_save result kept, record remote { disk = disk })
    else (answered (record result { cache_status = disabled }), remote)
keep_result env provider request (failed e) remote = (refused (from_client e), remote)
keep_result env provider request out_of_fuel remote = (refused no_end, remote)

-- the inference when the cache has nothing
unfoldable pub run_uncached :
    ProviderEnv
    → FourcastnetProvider
    → HostedInferenceRequest
    → Remote
    → Reply HostedInferenceResult × Remote
unfolding run_hosted_inference build_hosted_inference_payload save_cached
run_uncached env provider request remote =
    let (outcome, sent) = run_hosted_inference (nim_env env remote) provider.client request [] in
    keep_result env provider request outcome (with_sent remote sent)

-- `cached = self.result_cache.load(...)`, or no cache
unfoldable pub load_result :
    ProviderEnv
    → FourcastnetProvider
    → HostedInferenceRequest
    → Remote
    → Attempt (Option (List ℕ × FourcastnetCacheRecord))
unfolding load_cached build_hosted_inference_payload
load_result env provider request remote =
    if provider.has_cache
    then load_cached (cache_env env) (build_hosted_inference_payload request) request.accept
        remote.disk.files
    else value none

-- the cached result, or an inference
abbrev pub reuse :
    ProviderEnv
    → FourcastnetProvider
    → HostedInferenceRequest
    → Attempt (Option (List ℕ × FourcastnetCacheRecord))
    → Remote
    → Reply HostedInferenceResult × Remote
reuse env provider request (value (some (content, entry))) remote = (
  answered (cached_result provider (build_hosted_inference_payload request) content entry),
  remote,
)
reuse env provider request (value none) remote = run_uncached env provider request remote
reuse env provider request (value_error message) remote =
    (refused (unsafe_artifact message), remote)
reuse env provider request undecodable remote = (refused broken_metadata, remote)

-- _run_hosted_inference_with_cache
unfoldable pub run_hosted_inference_with_cache :
    ProviderEnv
    → FourcastnetProvider
    → HostedInferenceRequest
    → Remote
    → Reply HostedInferenceResult × Remote
unfolding load_result run_uncached
run_hosted_inference_with_cache env provider request remote =
    reuse env provider request (load_result env provider request remote) remote
