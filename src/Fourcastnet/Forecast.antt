-- ===== src/Fourcastnet/Forecast.antt =====
-- Point forecasts of the FourCastNet provider, get_point_forecast and what it needs of
-- src/earth2_sandbox/infrastructure/nvidia/fourcastnet_provider.py and fourcastnet_decoder.py.
use earth2_sandbox.Prelude.{Option, none, some, ℕ, suc, String, [], ◌∷◌, ◌==◌, if◌then◌else◌}
use earth2_sandbox.Prelude.Text.{contains_lowered}
use earth2_sandbox.Outcome.{◌⧺◌}
use earth2_sandbox.Domain.Float.{Float, plus}
use earth2_sandbox.Jobs.{ForecastJobDiagnostics, no_diagnostics}
use earth2_sandbox.Jobs.Forecast.{ForecastSummary}
use earth2_sandbox.World.{ForecastProviderResult, Diagnostics, Message, no_message, text}
use earth2_sandbox.Artifacts.Cache.{is_tar}
use earth2_sandbox.Nim.{
  inference_error, HostedInferenceRequest, HostedInferenceResult, source_text, cache_text, or_text,
  or_empty,
}
use earth2_sandbox.Fourcastnet.{
  Processed, ProviderEnv, FourcastnetProvider, Remote, Trouble, Reply, ProviderStatus, get_status,
  run_hosted_inference_with_cache, processed, post_processing_error, uncaught, unavailable,
  from_client, from_archive, answered, refused,
}

-- _detect_format
abbrev pub detect_format : String → String
detect_format content_type =
    if is_tar content_type
    then "tar"
    else if contains_lowered content_type (106 ∷ 115 ∷ 111 ∷ 110 ∷ [])
    then "json"
    else "unknown"

abbrev marker_without_tar : String
marker_without_tar =
    "Hosted FourCastNet returned a large-asset marker without a tar body. A downloadable result URL or a local sample tar is required for point sampling."

-- build_forecast_summary_from_hosted_result
unfoldable pub build_forecast_summary_from_hosted_result :
    ProviderEnv
    → ℕ
    → HostedInferenceResult
    → HostedInferenceRequest
    → Float
    → Float
    → Processed ForecastSummary
build_forecast_summary_from_hosted_result env n result request latitude longitude =
    let needs_tar =
      "Point forecast sampling requires tar output, got " ⧺ env.quoted result.content_type ⧺ "." in
    if detect_format result.content_type == "tar"
    then elim result.raw_content [
      | none ↦ post_processing_error "Point forecast sampling requires raw tar bytes."
      | some content ↦
          env.archives.build_forecast_summary_from_tar_bytes n content request latitude longitude
    ]
    else post_processing_error
        (if or_empty result.large_asset_message == "" then needs_tar else marker_without_tar)

-- _build_result_diagnostics
abbrev pub result_diagnostics : HostedInferenceResult → ForecastJobDiagnostics
result_diagnostics result = record {
  provider = some "fourcastnet";
  response_source = some (source_text result.response_source);
  cache_status = some (cache_text result.cache_status);
  cached_artifact_id = result.cached_artifact_id;
  nvcf_request_id = result.nvcf_request_id;
  nvcf_status = result.nvcf_status;
  poll_attempts = result.poll_attempts;
  response_reference_present = result.response_reference_present;
  byte_length = some result.byte_length;
  sha256 = some result.sha256;
  message = none;
}

-- _build_error_diagnostics of an error that carries diagnostics
abbrev pub error_diagnostics : String → ForecastJobDiagnostics → ForecastJobDiagnostics
error_diagnostics message diagnostics = record diagnostics {
  provider = or_text diagnostics.provider (some "fourcastnet");
  message = or_text diagnostics.message (some message);
}

-- `except (FourCastNetInferenceError, FourCastNetPostProcessingError)`
abbrev pub handled : Trouble → Trouble
handled (from_client (inference_error message diagnostics)) =
    unavailable message (error_diagnostics message diagnostics)
handled trouble = trouble

abbrev pub with_message : String → Trouble
with_message message = unavailable message (record no_diagnostics { message = some message })

abbrev pub large_asset_text : String
large_asset_text =
    "Hosted FourCastNet returned a large asset marker instead of tar bytes. No downloadable responseReference or Location header was available."

abbrev message_of : Option String → Message
message_of none = no_message
message_of (some message) = text message

-- a dictionary with these fields, all of the types that ForecastJobDiagnostics wants
abbrev pub as_dictionary : ForecastJobDiagnostics → Diagnostics
as_dictionary diagnostics = record {
  others = some diagnostics;
  message = message_of diagnostics.message;
}

abbrev pub summary_reply :
    HostedInferenceResult → Processed ForecastSummary → Reply ForecastProviderResult
summary_reply result (processed summary) =
    answered (record { summary = summary; diagnostics = as_dictionary (result_diagnostics result) })
summary_reply result (uncaught reason) = refused (from_archive reason)
summary_reply result (post_processing_error message) = refused (
    unavailable message
      (record no_diagnostics { provider = some "fourcastnet"; message = some message }))

-- the body of the `try`, after the inference
abbrev pub summarize :
    ProviderEnv
    → HostedInferenceRequest
    → Float
    → Float
    → Reply HostedInferenceResult × Remote
    → Reply ForecastProviderResult × Remote
summarize env request latitude longitude (answered result, remote) =
    let summary =
      build_forecast_summary_from_hosted_result env remote.archives_read result request latitude
        longitude in
    if or_empty result.large_asset_message == ""
    then (summary_reply result summary, record remote { archives_read = suc remote.archives_read })
    else (
      refused (
          unavailable large_asset_text
            (record (result_diagnostics result) { message = some large_asset_text })),
      remote,
    )
summarize env request latitude longitude (refused trouble, remote) =
    (refused (handled trouble), remote)

abbrev pub point_request : HostedInferenceRequest
point_request = record {
  input_id = 0;
  variables = "w10m" ∷ "t2m" ∷ "msl" ∷ "tcwv" ∷ "z500" ∷ [];
  simulation_length = 4;
  ensemble_size = 1;
  noise_amplitude = plus 0;
  accept = "application/x-tar";
  poll_seconds = 5;
}

abbrev not_ready_text : ProviderStatus → String
not_ready_text status =
    if status.ready
    then status.detail
    else "FourCastNet provider is not ready. Use mock provider until NIM is configured."

-- the forecast, once the status is known
abbrev pub forecast_if_supported :
    ProviderEnv
    → FourcastnetProvider
    → Float
    → Float
    → Reply ProviderStatus × Remote
    → Reply ForecastProviderResult × Remote
forecast_if_supported env provider latitude longitude (answered status, remote) =
    if status.supports_point_forecast
    then summarize env point_request latitude longitude
        (run_hosted_inference_with_cache env provider point_request remote)
    else (refused (with_message (not_ready_text status)), remote)
forecast_if_supported env provider latitude longitude (refused trouble, remote) =
    (refused trouble, remote)

unfoldable pub get_point_forecast_with_diagnostics :
    ProviderEnv
    → FourcastnetProvider
    → Float
    → Float
    → Remote
    → Reply ForecastProviderResult × Remote
unfolding get_status run_hosted_inference_with_cache build_forecast_summary_from_hosted_result
get_point_forecast_with_diagnostics env provider latitude longitude remote =
    forecast_if_supported env provider latitude longitude (get_status env provider remote)

abbrev summary_of : Reply ForecastProviderResult → Reply ForecastSummary
summary_of (answered result) = answered result.summary
summary_of (refused trouble) = refused trouble

unfoldable pub get_point_forecast :
    ProviderEnv → FourcastnetProvider → Float → Float → Remote → Reply ForecastSummary × Remote
unfolding get_point_forecast_with_diagnostics
get_point_forecast env provider latitude longitude remote =
    let (reply, remote') =
      get_point_forecast_with_diagnostics env provider latitude longitude remote in
    (summary_of reply, remote')
