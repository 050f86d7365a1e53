-- ===== src/Tests/Inferences.antt =====
-- Hosted inferences against a small network: two answers of 202, then a tar archive.
use earth2_sandbox.Prelude.{
  ℕ, ◌≡◌, refl, String, false, none, some, [], ◌∷◌, length, ltb, ◌⊎◌, if◌then◌else◌, arith,
}
use earth2_sandbox.Prelude.Text.{contains}
use earth2_sandbox.Jobs.{ForecastJobDiagnostics}
use earth2_sandbox.Prelude.Decimal.{decimal}
use earth2_sandbox.Outcome.{◌⧺◌}
use earth2_sandbox.Nim.Ends.{IsReported}
use earth2_sandbox.Nim.{
  Response, Sent, Fetched, response, NimEnv, inference_error, invalid_url, done, failed, poll,
  HostedInferenceResult, send,
}
use earth2_sandbox.Nim.Client.{NimClient, hosted, request_id_of, reference_of, build_hosted_result}
use earth2_sandbox.Nim.Client.Requests.{
  build_hosted_inference_payload, run_hosted_inference, resolve_hosted_response, poll_loop,
  poll_once, resolve,
}
use earth2_sandbox.Nim.Client.Requests.Delivery.{
  headers_of, run_hosted_inference-IsDelivery, run_hosted_inference-returned,
}
use earth2_sandbox.Nim.Client.Requests.Resolution.{IsDelivery}
use earth2_sandbox.Nim.Client.Requests.Patience.{
  run_hosted_inference-patience, run_hosted_inference-impatience,
}
use earth2_sandbox.Fourcastnet.Forecast.{point_request}

abbrev waiting : Response
waiting = record {
  status_code = 202;
  nvcf_reqid = some "abc";
  nvcf_status = some "pending-evaluation";
  content_type = none;
  location = none;
  content = [];
  json = none;
  body_text = "";
}

abbrev tar : Response
tar = record waiting {
  status_code = 200;
  nvcf_status = some "fulfilled";
  content_type = some "application/x-tar";
  content = 7 ∷ 8 ∷ [];
}

abbrev pub network : ℕ → Sent → Fetched
network n request = response (if ltb n 2 then waiting else tar)

abbrev pub client : NimClient
client = record {
  base_url = "https://nim.example/infer";
  mode = hosted;
  api_key = some "key";
  status_url = "https://nim.example/status/";
  max_poll_attempts = 3;
}

abbrev pub nim : NimEnv
nim = record { transport = network; sha256 = λ bytes. "d1" }

-- the result of the third answer
abbrev pub delivered : HostedInferenceResult
delivered =
    build_hosted_result nim client tar (build_hosted_inference_payload point_request) (some "abc")
      (some "pending-evaluation") 2 poll false none

pub delivered-returned : (run_hosted_inference nim client point_request []).0 ≡ done delivered
unfolding run_hosted_inference resolve_hosted_response poll_loop poll_once resolve send reference_of
delivered-returned = refl

run_hosted_inference-IsDelivery_example :
    IsDelivery nim client
      (headers_of client point_request)
      (build_hosted_inference_payload point_request)
      delivered
      (run_hosted_inference nim client point_request []).1
run_hosted_inference-IsDelivery_example =
    run_hosted_inference-IsDelivery nim client point_request delivered delivered-returned

run_hosted_inference-returned_example :
    ((result : HostedInferenceResult) × ((run_hosted_inference nim client point_request []).0
        ≡ done result))
    ⊎ ((message : String) × (diagnostics : ForecastJobDiagnostics) × ((run_hosted_inference nim
            client point_request []).0
          ≡ failed (inference_error message diagnostics)))
    ⊎ ((message : String) × ((run_hosted_inference nim client point_request []).0
          ≡ failed (invalid_url message))
        × IsReported nim (invalid_url message))
run_hosted_inference-returned_example = run_hosted_inference-returned nim client point_request

waiting-named : request_id_of waiting ≡ some "abc"
unfolding request_id_of
waiting-named = refl

run_hosted_inference-patience_example :
    (result : HostedInferenceResult) × ((run_hosted_inference nim client point_request []).0
      ≡ done result)
    × (result.poll_attempts ≡ 2)
    × (result.raw_content ≡ some (7 ∷ 8 ∷ []))
    × (length (run_hosted_inference nim client point_request []).1 ≡ 3)
unfolding reference_of contains
run_hosted_inference-patience_example =
    run_hosted_inference-patience nim client point_request waiting tar "abc" 2 refl refl refl
      waiting-named refl refl refl refl (omega arith) (λ n s h. refl)

-- a server that is never done
abbrev busy : NimEnv
busy = record nim { transport = λ n request. response waiting }

run_hosted_inference-impatience_example :
    (diagnostics : ForecastJobDiagnostics) × ((run_hosted_inference busy client point_request []).0
      ≡ failed (
          inference_error
            ("Hosted FourCastNet polling exceeded " ⧺ decimal 3 ⧺ " attempts.")
            diagnostics))
    × (diagnostics.poll_attempts ≡ 3)
    × (length (run_hosted_inference busy client point_request []).1 ≡ 4)
run_hosted_inference-impatience_example =
    run_hosted_inference-impatience busy client point_request waiting "abc" refl refl refl
      waiting-named refl (λ n s h. refl)
