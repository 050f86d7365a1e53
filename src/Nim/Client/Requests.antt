-- ===== src/Nim/Client/Requests.antt =====
-- The calls of FourCastNetNimClient, src/earth2_sandbox/infrastructure/nvidia/nim_client.py. The
-- poll loop runs on fuel, one unit for each look at a response: `max_poll_attempts + 1` are enough.
pub mod Readiness
pub mod Polls
pub mod Resolution
pub mod Delivery
pub mod Waiting
pub mod Patience
use earth2_sandbox.Prelude.{
  ℕ, zero, suc, ◌+◌, String, Bool, true, false, Option, none, some, List, leb, not, ◌==◌,
  if◌then◌else◌,
}
use earth2_sandbox.Prelude.Decimal.{decimal}
use earth2_sandbox.Prelude.Text.{contains, strip_end}
use earth2_sandbox.Outcome.{◌⧺◌}
use earth2_sandbox.Domain.Float.{Float}
use earth2_sandbox.Jobs.{no_diagnostics}
use earth2_sandbox.Nim.{
  Json, Response, Sent, get, post, NimEnv, inference_error, http_error, Failure, Outcome, done,
  failed, out_of_fuel, Http, after, ◌>>=◌, pure, raise, send, is_success, has_status, or_text,
  or_empty, ResponseSource, inline, poll, redirect, response_reference, source_text,
  HostedInferenceRequest, Payload, HostedInferenceResult,
}
use earth2_sandbox.Nim.Client.{
  NimClient, EndpointMode, hosted, self_hosted, request_id_of, reference_of, response_diagnostics,
  with_diagnostics, plain_error, is_json, preview_of, build_hosted_result,
}

-- the text `join`s of a list, with commas between
join_variables : List String → String
join_variables List.[] = ""
join_variables (List.◌∷◌ v List.[]) = v
join_variables (List.◌∷◌ v (List.◌∷◌ w rest)) = v ⧺ "," ⧺ join_variables (List.◌∷◌ w rest)

-- build_hosted_inference_payload
unfoldable pub build_hosted_inference_payload : HostedInferenceRequest → Payload
unfolding join_variables
build_hosted_inference_payload request = record {
  input_id = request.input_id;
  variables = join_variables request.variables;
  simulation_length = request.simulation_length;
  ensemble_size = request.ensemble_size;
  noise_amplitude = request.noise_amplitude;
}

-- the headers of the first request; its content-type is fixed
pub record Headers : Type 0 where
  pub authorization : String
  pub nvcf_poll_seconds : String
  pub accept : String

abbrev pub headers_for : String → HostedInferenceRequest → Headers
headers_for api_key request = record {
  authorization = "Bearer " ⧺ api_key;
  nvcf_poll_seconds = decimal request.poll_seconds;
  accept = request.accept;
}

abbrev pub inference_request : NimClient → Headers → Payload → Sent
inference_request client headers payload = record {
  method = post;
  url = client.base_url;
  authorization = some headers.authorization;
  nvcf_poll_seconds = some headers.nvcf_poll_seconds;
  accept = some headers.accept;
  json = some payload;
  follow_redirects = false;
}

abbrev pub without_slash : String → String
without_slash url = strip_end 47 url

abbrev pub status_request : NimClient → Headers → String → Sent
status_request client headers request_id = record {
  method = get;
  url = without_slash client.status_url ⧺ "/" ⧺ request_id;
  authorization = some headers.authorization;
  nvcf_poll_seconds = some headers.nvcf_poll_seconds;
  accept = some headers.accept;
  json = none;
  follow_redirects = false;
}

abbrev pub download_request : String → Sent
download_request url = record {
  method = get;
  url = url;
  authorization = none;
  nvcf_poll_seconds = none;
  accept = none;
  json = none;
  follow_redirects = true;
}

-- the local variables of the poll loop
pub record Polling : Type 0 where
  pub response : Response
  pub request_id : Option String
  pub nvcf_status : Option String
  pub poll_attempts : ℕ
  pub response_source : ResponseSource

abbrev pub polling_from : Response → Polling
polling_from r = record {
  response = r;
  request_id = request_id_of r;
  nvcf_status = r.nvcf_status;
  poll_attempts = 0;
  response_source = inline;
}

-- `request_id = self._request_id(response) or request_id`, and the status likewise
unfoldable pub refreshed : Polling → Polling
refreshed p = record p {
  request_id = or_text (request_id_of p.response) p.request_id;
  nvcf_status = or_text p.response.nvcf_status p.nvcf_status;
}

abbrev pub polled : Polling → Response → Polling
polled p r = record p { response = r; poll_attempts = suc p.poll_attempts; response_source = poll }

abbrev polling_error : Polling → String → Failure
polling_error p message = inference_error message (record no_diagnostics {
  provider = some "fourcastnet";
  response_source = some (source_text p.response_source);
  nvcf_request_id = p.request_id;
  nvcf_status = p.nvcf_status;
  poll_attempts = p.poll_attempts;
  message = some message;
})

abbrev pub no_request_id : Polling → Failure
no_request_id p = polling_error p "Hosted FourCastNet returned 202 without an NVCF request id."

abbrev pub attempts_exceeded : NimClient → Polling → Failure
attempts_exceeded client p =
    polling_error p
      ("Hosted FourCastNet polling exceeded " ⧺ decimal client.max_poll_attempts ⧺ " attempts.")

-- One turn of the loop at a 202: the request for its status.
unfoldable pub poll_once : NimEnv → NimClient → Headers → Polling → Http Polling
unfolding refreshed
poll_once env client headers p =
    let waiting = refreshed p in
    elim waiting.request_id [
      | none ↦ raise (no_request_id waiting)
      | some request_id ↦
          if leb client.max_poll_attempts p.poll_attempts
          then raise (attempts_exceeded client waiting)
          else send env (status_request client headers request_id) >>= λ r. pure (polled waiting r)
    ]

-- `while response.status_code == 202`
unfoldable pub poll_loop : NimEnv → NimClient → Headers → ℕ → Polling → Http Polling
unfolding poll_once
poll_loop env client headers zero p = λ sent. (out_of_fuel, sent)
poll_loop env client headers (suc fuel) p =
    let again = poll_once env client headers p >>= poll_loop env client headers fuel in
    if has_status 202 p.response then again else pure p

-- _download_url
unfoldable pub download_url : NimEnv → String → Http Response
unfolding response_diagnostics
download_url env url = send env (download_request url) >>= λ r.
    if is_success r
    then pure r
    else raise (
        with_diagnostics (
          response_diagnostics env r (request_id_of r) r.nvcf_status 0 response_reference true
            "Hosted FourCastNet large result download returned"))

abbrev no_location : Response → Failure
no_location r =
    polling_error (record (polling_from r) { response_source = redirect })
      "Hosted FourCastNet returned 302 without a Location header."

-- _download_large_response
unfoldable pub download_large_response : NimEnv → Response → Http Response
unfolding download_url
download_large_response env r =
    let location = or_empty r.location in
    if location == "" then raise (no_location r) else download_url env location

-- `_json_preview(response) if "application/json" in content_type else None`
abbrev pub preview_if_json : Response → Option Json
preview_if_json r = if is_json r then preview_of r else none

-- What `_resolve_hosted_response` does after the loop.
unfoldable pub resolve : NimEnv → NimClient → Payload → Polling → Http HostedInferenceResult
unfolding refreshed build_hosted_result download_url download_large_response
resolve env client payload p =
    let r = p.response in
    let final = refreshed p in
    let preview = preview_if_json r in
    let built = λ (source : ResponseSource) (content : Response). pure (
      build_hosted_result env client content payload final.request_id final.nvcf_status
        p.poll_attempts source true none) in
    if has_status 302 r
    then download_large_response env r >>= built redirect
    else if is_success r
    then elim (reference_of preview) [
      | some url ↦ download_url env url >>= built response_reference
      | none ↦ pure (
          build_hosted_result env client r payload p.request_id p.nvcf_status p.poll_attempts
            p.response_source false preview)
    ]
    else raise (
        with_diagnostics (
          response_diagnostics env r p.request_id p.nvcf_status p.poll_attempts p.response_source
            false "Hosted FourCastNet returned"))

-- _resolve_hosted_response
unfoldable pub resolve_hosted_response :
    NimEnv → NimClient → Headers → Payload → Response → Http HostedInferenceResult
unfolding poll_loop resolve
resolve_hosted_response env client headers payload r =
    poll_loop env client headers (suc client.max_poll_attempts) (polling_from r)
    >>= resolve env client payload

abbrev request_failed : String → String → Failure
request_failed type_name message =
    let text = "Hosted FourCastNet request failed: " ⧺ type_name ⧺ ": " ⧺ message in
    inference_error text (record no_diagnostics {
      provider = some "fourcastnet";
      response_source = some "inline";
      message = some text;
    })

-- `except httpx.HTTPError`
abbrev pub reported : {A : Type 0} → Outcome A → Outcome A
reported (failed (http_error type_name message)) = failed (request_failed type_name message)
reported outcome = outcome

abbrev pub reporting : {A : Type 0} → Http A → Http A
reporting m sent = let (outcome, sent') = m sent in (reported outcome, sent')

-- self.mode == "hosted"
abbrev pub is_hosted : NimClient → Bool
is_hosted client = elim client.mode [ hosted ↦ true | self_hosted ↦ false ]

-- bool(self.api_key)
abbrev pub has_key : NimClient → Bool
has_key client = not (or_empty client.api_key == "")

-- run_hosted_inference
unfoldable pub run_hosted_inference :
    NimEnv → NimClient → HostedInferenceRequest → Http HostedInferenceResult
unfolding build_hosted_inference_payload resolve_hosted_response
run_hosted_inference env client request =
    let payload = build_hosted_inference_payload request in
    let headers = headers_for (or_empty client.api_key) request in
    if is_hosted client
    then if has_key client
      then reporting (
          send env (inference_request client headers payload)
          >>= resolve_hosted_response env client headers payload)
      else raise (plain_error "Hosted FourCastNet API key is missing.")
    else raise (plain_error "Hosted inference requires fourcastnet_endpoint_mode='hosted'.")
