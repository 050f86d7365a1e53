-- ===== src/Nim/Client.antt =====
-- The client itself: FourCastNetNimClient of src/earth2_sandbox/infrastructure/nvidia/nim_client.py.
-- Waiting between two polls is not modelled, and neither are the timeouts of httpx.
pub mod Requests
use earth2_sandbox.Prelude.{
  ℕ, zero, suc, ◌+◌, String, Bool, true, false, ◌||◌, Option, none, some, List, [], ◌∷◌, length,
  leb, not, ◌==◌, if◌then◌else◌,
}
use earth2_sandbox.Prelude.Dict
use earth2_sandbox.Prelude.Dict.{Dict}
use earth2_sandbox.Prelude.Decimal.{decimal}
use earth2_sandbox.Prelude.Text.{contains, first, strip_end}
use text.Mathlib.Text.{starts_with}
use earth2_sandbox.Outcome.{◌⧺◌}
use earth2_sandbox.Domain.Float.{Float}
use earth2_sandbox.Jobs.{ForecastJobDiagnostics, no_diagnostics}
use earth2_sandbox.Nim.{
  JsonField, string, Json, null, object, Response, Sent, get, post, NimEnv, inference_error,
  http_error, Failure, Outcome, done, failed, out_of_fuel, Http, after, ◌>>=◌, pure, raise, send,
  is_success, has_status, or_text, or_empty, ResponseSource, inline, poll, redirect,
  response_reference, source_text, disabled, HostedInferenceRequest, Payload, HostedInferenceResult,
}

pub data EndpointMode : Type 0 where
  self_hosted hosted : EndpointMode

pub record NimClient : Type 0 where
  pub base_url : String
  pub mode : EndpointMode
  pub api_key : Option String
  pub status_url : String
  pub max_poll_attempts : ℕ

-- The first of these keys whose value is a text that passes the test.
first_text : (String → Bool) → Dict JsonField → List String → Option String
unfolding Dict.get
first_text test fields [] = none
first_text test fields (key ∷ keys) =
    let rest = first_text test fields keys in
    elim (Dict.get fields key) [ some (string t) ↦ if test t then some t else rest | _ ↦ rest ]

abbrev keys_of_preview : (String → Bool) → List String → Option Json → Option String
keys_of_preview test keys (some (object fields printed)) = first_text test fields keys
keys_of_preview test keys _ = none

-- _json_preview
abbrev pub preview_of : Response → Option Json
preview_of r = elim r.json [ some null ↦ none | body ↦ body ]

-- _request_id
unfoldable pub request_id_of : Response → Option String
unfolding first_text
request_id_of r = or_text r.nvcf_reqid (
    keys_of_preview (λ t. not (t == "")) ("reqId" ∷ "requestId" ∷ "request_id" ∷ "id" ∷ [])
      (preview_of r))

-- _response_reference
unfoldable pub reference_of : Option Json → Option String
unfolding first_text
reference_of preview =
    keys_of_preview (λ t. starts_with t "http://" || starts_with t "https://")
      ("responseReference" ∷ "response_reference" ∷ "downloadUrl" ∷ "download_url" ∷ "assetUrl"
        ∷ "asset_url" ∷ [])
      preview

-- _large_asset_message
unfoldable pub large_asset_message : Option Json → Option String
unfolding first_text
large_asset_message preview =
    keys_of_preview (λ t. t == "Large asset written") ("message" ∷ []) preview

abbrev field_text : JsonField → String
field_text (string t) = t
field_text (JsonField.other printed) = printed

abbrev text_or_missing : String → String
text_or_missing body = if body == "" then "No response body." else first 500 body

-- _response_error_detail
unfoldable pub error_detail : Response → String
unfolding first Dict.get
error_detail r = elim r.json [
  | none ↦ text_or_missing r.body_text
  | some (object fields printed) ↦ elim (Dict.get fields "detail") [
    | some value ↦ field_text value
    | none ↦ first 500 printed
  ]
  | some (Json.other printed) ↦ first 500 printed
  | some null ↦ "None"
]

abbrev digest_if_any : NimEnv → List ℕ → Option String
digest_if_any env [] = none
digest_if_any env (b ∷ bytes) = some (env.sha256 (b ∷ bytes))

-- _build_error_diagnostics, with the fields that `ForecastJobDiagnostics` has
unfoldable pub response_diagnostics :
    NimEnv
    → Response
    → Option String
    → Option String
    → ℕ
    → ResponseSource
    → Bool
    → String
    → ForecastJobDiagnostics
unfolding error_detail request_id_of
response_diagnostics env r request_id nvcf_status attempts source reference prefix =
    let returned = prefix ⧺ " " ⧺ decimal r.status_code ⧺ ": " ⧺ error_detail r in
    let content_type = or_empty r.content_type in
    record no_diagnostics {
      provider = some "fourcastnet";
      response_source = some (source_text source);
      nvcf_request_id = or_text (request_id_of r) request_id;
      nvcf_status = or_text r.nvcf_status nvcf_status;
      poll_attempts = attempts;
      response_reference_present = reference;
      byte_length = some (length r.content);
      sha256 = digest_if_any env r.content;
      message =
          some
            (if content_type == "" then returned else returned ⧺ " content_type=" ⧺ content_type);
    }

-- `raise FourCastNetInferenceError(str(diagnostics["message"]), diagnostics=diagnostics)`
abbrev pub with_diagnostics : ForecastJobDiagnostics → Failure
with_diagnostics diagnostics = inference_error (or_empty diagnostics.message) diagnostics

-- `FourCastNetInferenceError(message)`
abbrev pub plain_error : String → Failure
plain_error message = inference_error message (record no_diagnostics { message = some message })

abbrev pub is_json : Response → Bool
is_json r = contains (or_empty r.content_type) "application/json"

abbrev preview_or : Option Json → Response → Option Json
preview_or (some json) r = some json
preview_or none r = if is_json r then preview_of r else none

-- _build_hosted_result
unfoldable pub build_hosted_result :
    NimEnv
    → NimClient
    → Response
    → Payload
    → Option String
    → Option String
    → ℕ
    → ResponseSource
    → Bool
    → Option Json
    → HostedInferenceResult
unfolding large_asset_message contains
build_hosted_result env client r payload request_id nvcf_status attempts source reference preview =
    let json_preview = preview_or preview r in
    record {
      endpoint = client.base_url;
      status_code = r.status_code;
      content_type = or_empty r.content_type;
      byte_length = length r.content;
      sha256 = env.sha256 r.content;
      request_payload = payload;
      json_preview = json_preview;
      nvcf_request_id = or_text r.nvcf_reqid request_id;
      nvcf_status = or_text r.nvcf_status nvcf_status;
      large_asset_message = large_asset_message json_preview;
      poll_attempts = attempts;
      response_source = source;
      response_reference_present = reference;
      cache_status = disabled;
      cached_artifact_id = none;
      raw_content = some r.content;
    }
