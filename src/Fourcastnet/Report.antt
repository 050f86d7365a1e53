-- ===== src/Fourcastnet/Report.antt =====
-- Hosted inference as the provider hands it on: run_hosted_inference of fourcastnet_provider.py,
-- and the report on a result, describe_hosted_result and decode_hosted_result of
-- fourcastnet_decoder.py (both under src/earth2_sandbox/infrastructure/nvidia).
use earth2_sandbox.Prelude.{
  ℕ, suc, String, Bool, false, Option, none, some, List, [], ◌∷◌, ◌++◌, length, ◌==◌, if◌then◌else◌,
}
use earth2_sandbox.Prelude.Decimal.{decimal}
use earth2_sandbox.Outcome.{◌⧺◌}
use earth2_sandbox.Domain.Float.{Float}
use earth2_sandbox.Nim.{HostedInferenceRequest, HostedInferenceResult, source_text, cache_text}
use earth2_sandbox.Nim.Client.Requests.{is_hosted}
use earth2_sandbox.Fourcastnet.{
  ProviderEnv, FourcastnetProvider, Remote, Reply, answered, refused,
  run_hosted_inference_with_cache,
}
use earth2_sandbox.Fourcastnet.Forecast.{handled, with_message, detect_format}

-- FourCastNetDecodedArray
pub record DecodedArray : Type 0 where
  pub filename : String
  pub lead_time_hours : ℕ
  pub batch_index : ℕ
  pub shape : List ℕ
  pub dtype : String
  pub finite_count : ℕ
  pub min_value : Option Float
  pub max_value : Option Float
  pub mean_value : Option Float

-- FourCastNetDecodedTarSummary
pub record DecodedTarSummary : Type 0 where
  pub member_count : ℕ
  pub arrays : List DecodedArray
  pub lead_time_hours : List ℕ
  pub batch_indices : List ℕ
  pub warnings : List String

-- FourCastNetPostProcessingReport
pub record PostProcessingReport : Type 0 where
  pub mobile_summary_ready : Bool
  pub detected_format : String
  pub required_steps : List String
  pub notes : List String

-- decode_hosted_result, with decode_tar_bytes at its n-th call
unfoldable pub decode_hosted_result :
    (ℕ → List ℕ → DecodedTarSummary) → ℕ → HostedInferenceResult → Option DecodedTarSummary
decode_hosted_result decode_tar_bytes n result = elim result.raw_content [
  | none ↦ none
  | some content ↦
      if detect_format result.content_type == "tar" then some (decode_tar_bytes n content) else none
]

-- the numbers of a list after its first, as `str` prints them
numbers_after : List ℕ → String
numbers_after [] = "]"
numbers_after (n ∷ ns) = ", " ⧺ decimal n ⧺ numbers_after ns

-- str(...) of a list of numbers
numbers_text : List ℕ → String
unfolding numbers_after
numbers_text [] = "[]"
numbers_text (n ∷ ns) = "[" ⧺ decimal n ⧺ numbers_after ns

-- the step that comes second
abbrev second_step : String → Option DecodedTarSummary → String
second_step detected decoded =
    if detected == "json"
    then "Inspect JSON response shape before array decoding."
    else elim decoded [
      | some summary ↦ "Use decoded NumPy member metadata to select lead times and batch outputs."
      | none ↦ "Decode returned tar archive and load contained NumPy arrays."
    ]

abbrev decoded_note : Option DecodedTarSummary → List String
decoded_note none = []
decoded_note (some summary) =
    ("Decoded "
      ⧺ decimal (length summary.arrays)
      ⧺ " NumPy array(s) across lead times "
      ⧺ numbers_text summary.lead_time_hours
      ⧺ ".")
    ∷ []

-- describe_hosted_result
unfoldable pub describe_hosted_result :
    HostedInferenceResult → Option DecodedTarSummary → PostProcessingReport
unfolding numbers_text
describe_hosted_result result decoded =
    let detected = detect_format result.content_type in
    record {
      mobile_summary_ready = false;
      detected_format = detected;
      required_steps =
          "Persist raw hosted inference output outside GitHub."
          ∷ second_step detected decoded
          ∷ "Map requested variables to mobile forecast fields."
          ∷ "Sample or interpolate the global grid for the requested latitude/longitude."
          ∷ "Compute timeline, summary metrics, confidence, and signal levels."
          ∷ "Return the existing ForecastSummary contract to the mobile app."
          ∷ [];
      notes =
          ("Captured " ⧺ decimal result.byte_length ⧺ " bytes from hosted FourCastNet.")
            ∷ ("Response digest is " ⧺ result.sha256 ⧺ ".")
            ∷ ("Response source is "
                ⧺ source_text result.response_source
                ⧺ "; cache status is "
                ⧺ cache_text result.cache_status
                ⧺ ".")
            ∷ decoded_note decoded
          ++ "Raw model output is intentionally not exposed directly to mobile clients." ∷ [];
    }

-- A result with the fields that the provider adds.
pub record HostedAnswer : Type 0 where
  pub result : HostedInferenceResult
  pub decoded_tar : Option DecodedTarSummary
  pub post_processing : PostProcessingReport

-- the result without its bytes, and what is said of it
abbrev pub reported :
    (ℕ → List ℕ → DecodedTarSummary)
    → Reply HostedInferenceResult × Remote
    → Reply HostedAnswer × Remote
reported decode_tar_bytes (answered result, remote) =
    let decoded = decode_hosted_result decode_tar_bytes remote.archives_read result in
    let without_raw = record result { raw_content = none } in
    (
      answered (record {
        result = without_raw;
        decoded_tar = decoded;
        post_processing = describe_hosted_result without_raw decoded;
      }),
      record remote { archives_read = suc remote.archives_read },
    )
reported decode_tar_bytes (refused trouble, remote) = (refused (handled trouble), remote)

unfoldable pub run_hosted_inference :
    ProviderEnv
    → (ℕ → List ℕ → DecodedTarSummary)
    → FourcastnetProvider
    → HostedInferenceRequest
    → Remote
    → Reply HostedAnswer × Remote
unfolding run_hosted_inference_with_cache decode_hosted_result describe_hosted_result
run_hosted_inference env decode_tar_bytes provider request remote =
    if is_hosted provider.client
    then reported decode_tar_bytes (run_hosted_inference_with_cache env provider request remote)
    else (
      refused (with_message "Hosted inference requires EARTH2_FOURCASTNET_ENDPOINT_MODE=hosted."),
      remote,
    )
