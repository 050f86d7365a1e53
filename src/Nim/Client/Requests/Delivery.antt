-- ===== src/Nim/Client/Requests/Delivery.antt =====
-- The end of `_resolve_hosted_response` and the whole of `run_hosted_inference`: what an inference
-- delivers, what it sends on the way, and how it fails.
use earth2_sandbox.Prelude.{
  suc, ◌≡◌, refl, ap, subst, String, List, [], ◌⊎◌, inl, inr, Bool-cases, arith,
}
use earth2_sandbox.Jobs.{ForecastJobDiagnostics}
use earth2_sandbox.Nim.{
  Sent, NimEnv, Failure, inference_error, http_error, invalid_url, Outcome, done, failed,
  out_of_fuel, Http, or_empty, Payload, HostedInferenceRequest, HostedInferenceResult, send, ◌>>=◌,
}
use earth2_sandbox.Nim.Ends.{IsReported, Ends, Ensures, bind-Ensures, send-Ensures}
use earth2_sandbox.Nim.Client.{NimClient}
use earth2_sandbox.Nim.Client.Requests.{
  Headers, is_hosted, has_key, headers_for, build_hosted_inference_payload, polling_from,
  inference_request, poll_loop, resolve, resolve_hosted_response, reported, run_hosted_inference,
}
use earth2_sandbox.Nim.Client.Requests.Polls.{Stopped, IsPolling, HasPolled, poll_loop-HasPolled}
use earth2_sandbox.Nim.Client.Requests.Resolution.{IsDelivery, resolve-IsDelivery}

module _ (env : NimEnv) (client : NimClient) (headers : Headers) (payload : Payload) where
  -- An httpx.HTTPError is raised inside, and nothing but FourCastNetInferenceError comes out.
  abbrev pub Refused : Failure → List Sent → Type 0
  Refused e sent =
      Stopped env client headers payload e sent
      × (((message : String) × (diagnostics : ForecastJobDiagnostics) × (e
              ≡ inference_error message diagnostics))
          ⊎ ((message : String) × (e ≡ invalid_url message) × IsReported env (invalid_url message)))

  reported-Ends :
      (outcome : Outcome HostedInferenceResult) (sent : List Sent)
      → Ends
          (IsDelivery env client headers payload)
          (Stopped env client headers payload)
          outcome
          sent
      → Ends (IsDelivery env client headers payload) Refused (reported outcome) sent
  reported-Ends (done result) sent h = h
  reported-Ends (failed (inference_error message diagnostics)) sent h =
      (h, inl (message, diagnostics, refl))
  reported-Ends (failed (invalid_url message)) sent h = (h, inr (message, refl, h.reported))
  reported-Ends (failed (http_error type_name message)) sent h =
      (record { expected = h.expected; bounded = h.bounded; reported = tt }, inl (_, _, refl))
  reported-Ends out_of_fuel sent h = h

  -- The call between the two checks and the handler of httpx.HTTPError, with nothing sent before.
  abbrev call : Http HostedInferenceResult
  call =
      send env (inference_request client headers payload)
      >>= resolve_hosted_response env client headers payload

  call-IsDelivery :
      Ensures (IsDelivery env client headers payload) (Stopped env client headers payload) call []
  unfolding resolve_hosted_response
  call-IsDelivery =
      bind-Ensures (λ r. IsPolling env client headers payload (polling_from r))
        (IsDelivery env client headers payload) (Stopped env client headers payload)
        (send env (inference_request client headers payload))
        (resolve_hosted_response env client headers payload) []
        (send-Ensures (λ r. IsPolling env client headers payload (polling_from r))
          (Stopped env client headers payload) env (inference_request client headers payload) []
          (λ r at. record {
            expected = (inl (refl, refl, refl, refl, refl), tt);
            counted = refl;
            bounded = omega arith;
            source = refl;
            answered = ([], inference_request client headers payload, refl, at, refl);
          })
          (λ e known. record {
            expected = (inl (refl, refl, refl, refl, refl), tt);
            bounded = omega arith;
            reported = known;
          }))
        (λ r sent' h.
          bind-Ensures (HasPolled env client headers payload)
            (IsDelivery env client headers payload) (Stopped env client headers payload)
            (poll_loop env client headers (suc client.max_poll_attempts) (polling_from r))
            (resolve env client payload) sent'
            (poll_loop-HasPolled env client headers payload client.max_poll_attempts
              (polling_from r) sent' (omega arith) h)
            (λ p sent'' k. resolve-IsDelivery env client headers payload p sent'' k.0))

abbrev pub headers_of : NimClient → HostedInferenceRequest → Headers
headers_of client request = headers_for (or_empty client.api_key) request

module _ (env : NimEnv) (client : NimClient) (request : HostedInferenceRequest) where
  nothing_sent :
      {message : String} {diagnostics : ForecastJobDiagnostics}
      → Refused env client
          (headers_of client request)
          (build_hosted_inference_payload request)
          (inference_error message diagnostics)
          []
  nothing_sent = (record { expected = tt; bounded = omega arith; reported = tt }, inl (_, _, refl))

  -- An inference on a fresh connection delivers or is refused, and does not run out of fuel: at most
  -- `max_poll_attempts` polls are made for it.
  pub run_hosted_inference-Ends :
      Ends
        (IsDelivery env client (headers_of client request) (build_hosted_inference_payload request))
        (Refused env client (headers_of client request) (build_hosted_inference_payload request))
        (run_hosted_inference env client request []).0
        (run_hosted_inference env client request []).1
  unfolding run_hosted_inference
  run_hosted_inference-Ends = elim (Bool-cases (is_hosted client)) [
    | inr local ↦ rw (local, run_hosted_inference) nothing_sent
    | inl remote ↦ elim (Bool-cases (has_key client)) [
      | inl keyed ↦
          rw (remote, keyed, run_hosted_inference)
            (reported-Ends env client (headers_of client request)
              (build_hosted_inference_payload request) _ _
              (call-IsDelivery env client (headers_of client request)
                (build_hosted_inference_payload request)))
      | inr keyless ↦ rw (remote, keyless, run_hosted_inference) nothing_sent
    ]
  ]

module _ (env : NimEnv) (client : NimClient) (headers : Headers) (payload : Payload) where
  Ends-IsDelivery :
      (outcome : Outcome HostedInferenceResult) (sent : List Sent) (result : HostedInferenceResult)
      → Ends
          (IsDelivery env client headers payload)
          (Refused env client headers payload)
          outcome
          sent
      → outcome ≡ done result
      → IsDelivery env client headers payload result sent
  Ends-IsDelivery outcome sent result h e =
      subst
        (λ o.
          Ends (IsDelivery env client headers payload) (Refused env client headers payload) o sent)
        e h

  Ends-returned :
      (outcome : Outcome HostedInferenceResult) (sent : List Sent)
      → Ends
          (IsDelivery env client headers payload)
          (Refused env client headers payload)
          outcome
          sent
      → ((result : HostedInferenceResult) × (outcome ≡ done result))
        ⊎ ((message : String) × (diagnostics : ForecastJobDiagnostics) × (outcome
              ≡ failed (inference_error message diagnostics)))
        ⊎ ((message : String) × (outcome ≡ failed (invalid_url message))
            × IsReported env (invalid_url message))
  Ends-returned (done result) sent h = inl (result, refl)
  Ends-returned (failed e) sent h = elim h.1 [
    | inl (message, diagnostics, same) ↦ inr (inl (message, diagnostics, ap failed same))
    | inr (message, same, known) ↦ inr (inr (message, ap failed same, known))
  ]
  Ends-returned out_of_fuel sent h = elim h [ ]

module _ (env : NimEnv) (client : NimClient) (request : HostedInferenceRequest) where
  -- When an inference returns a result: its bytes, with their length and digest, are those of the
  -- answer of the network to the last request sent, a successful response to a download without the
  -- key if the result says that a reference was followed, and to a request with the key if not; it
  -- names the payload of the request; it was polled for at most `max_poll_attempts` times; the calls
  -- made are one, the polls, and one more exactly if a reference was followed; and its source agrees
  -- with both.
  pub run_hosted_inference-IsDelivery :
      (result : HostedInferenceResult)
      → (run_hosted_inference env client request []).0 ≡ done result
      → IsDelivery env client
          (headers_of client request)
          (build_hosted_inference_payload request)
          result
          (run_hosted_inference env client request []).1
  run_hosted_inference-IsDelivery result e =
      Ends-IsDelivery env client (headers_of client request)
        (build_hosted_inference_payload request) _ _ result
        (run_hosted_inference-Ends env client request) e

  -- For every network: an inference returns a result or raises FourCastNetInferenceError, or raises
  -- an httpx.InvalidURL that httpx has raised of one of its requests. The poll loop ends, and no
  -- httpx.HTTPError gets out.
  pub run_hosted_inference-returned :
      ((result : HostedInferenceResult) × ((run_hosted_inference env client request []).0
          ≡ done result))
      ⊎ ((message : String) × (diagnostics : ForecastJobDiagnostics) × ((run_hosted_inference env
              client request []).0
            ≡ failed (inference_error message diagnostics)))
      ⊎ ((message : String) × ((run_hosted_inference env client request []).0
            ≡ failed (invalid_url message))
          × IsReported env (invalid_url message))
  run_hosted_inference-returned =
      Ends-returned env client (headers_of client request) (build_hosted_inference_payload request)
        _ _ (run_hosted_inference-Ends env client request)
