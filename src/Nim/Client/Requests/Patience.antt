-- ===== src/Nim/Client/Requests/Patience.antt =====
-- Whole inferences against a server that answers with 202 first.
use earth2_sandbox.Prelude.{
  ℕ, suc, ◌≤◌, ◌≡◌, refl, ap, sym, ◌∙◌, String, true, false, none, some, List, [], ◌∷◌, length,
  ◌==◌, arith,
}
use earth2_sandbox.Prelude.Decimal.{decimal}
use earth2_sandbox.Outcome.{◌⧺◌}
use earth2_sandbox.Jobs.{ForecastJobDiagnostics}
use earth2_sandbox.Nim.{
  Response, Sent, NimEnv, inference_error, done, failed, response, Http, ◌>>=◌, has_status,
  is_success, send, Payload, HostedInferenceRequest, HostedInferenceResult,
}
use earth2_sandbox.Nim.Client.{NimClient, request_id_of, reference_of, build_hosted_result}
use earth2_sandbox.Nim.Client.Requests.{
  is_hosted, has_key, build_hosted_inference_payload, Polling, polling_from, refreshed, poll_loop,
  inference_request, preview_if_json, resolve, resolve_hosted_response, reporting,
  run_hosted_inference,
}
use earth2_sandbox.Nim.Client.Requests.Delivery.{headers_of}
use earth2_sandbox.Nim.Client.Requests.Waiting.{
  answer, poll_loop-Reached, poll_loop-over, poll_loop-end, refreshed-id,
}

module _ {A B : Type 0} (m : Http A) (f : A → Http B) (sent sent' : List Sent) where
  reporting-done :
      (a : A) (b : B)
      → m sent ≡ (done a, sent')
      → f a sent' ≡ (done b, sent')
      → reporting (m >>= f) sent ≡ (done b, sent')
  reporting-done a b e e' = rw (e, e') refl

  reporting-failed :
      (message : String) (diagnostics : ForecastJobDiagnostics)
      → m sent ≡ (failed (inference_error message diagnostics), sent')
      → reporting (m >>= f) sent ≡ (failed (inference_error message diagnostics), sent')
  reporting-failed message diagnostics e = rw e refl

answer-last : (waiting final : Response) (k : ℕ) → answer waiting final k k ≡ final
answer-last waiting final k = ground arith

same_answer : (r : Response) (k n : ℕ) → answer r r k n ≡ r
same_answer r k n = ground arith

same_polls : (p : Polling) → (refreshed p).poll_attempts ≡ p.poll_attempts
unfolding refreshed
same_polls p = refl

module _ (env : NimEnv) (client : NimClient) (request : HostedInferenceRequest) where
  abbrev payload : Payload
  payload = build_hosted_inference_payload request

  abbrev first_request : Sent
  first_request = inference_request client (headers_of client request) payload

  abbrev loop : Response → Http Polling
  loop r =
      poll_loop env client (headers_of client request) (suc client.max_poll_attempts)
        (polling_from r)

  run-loop :
      (r : Response)
      → is_hosted client ≡ true
      → has_key client ≡ true
      → env.transport 0 first_request ≡ response r
      → run_hosted_inference env client request []
        ≡ reporting (loop r >>= resolve env client payload) (first_request ∷ [])
  unfolding run_hosted_inference resolve_hosted_response send
  run-loop r remote keyed answered =
      simp (remote, keyed, answered, run_hosted_inference, resolve_hosted_response, send)

  not_moved : (r : Response) → is_success r ≡ true → has_status 302 r ≡ false
  not_moved r good = ground arith

  resolve-whole :
      (p : Polling) (sent : List Sent)
      → is_success p.response ≡ true
      → reference_of (preview_if_json p.response) ≡ none
      → (result : HostedInferenceResult) × (resolve env client payload p sent ≡ (done result, sent))
        × (result.poll_attempts ≡ p.poll_attempts)
        × (result.raw_content ≡ some p.response.content)
  unfolding resolve build_hosted_result
  resolve-whole p sent good whole = (
    build_hosted_result env client p.response payload p.request_id p.nvcf_status p.poll_attempts
        p.response_source false (preview_if_json p.response),
    simp (not_moved p.response good, good, whole, resolve),
    refl,
    refl,
  )

  -- When a hosted client with a key asks a server whose first `k` answers are 202 with a request id,
  -- with `k` at most `max_poll_attempts`, and whose next answer is a success that names no download:
  -- the inference returns a result with that answer's bytes, says `k` polls, and sends `k + 1` requests.
  pub run_hosted_inference-patience :
      (waiting final : Response) (id : String) (k : ℕ)
      → is_hosted client ≡ true
      → has_key client ≡ true
      → has_status 202 waiting ≡ true
      → request_id_of waiting ≡ some id
      → (id == "") ≡ false
      → is_success final ≡ true
      → has_status 202 final ≡ false
      → reference_of (preview_if_json final) ≡ none
      → k ≤ client.max_poll_attempts
      → ((n : ℕ) (s : Sent) → n ≤ k → env.transport n s ≡ response (answer waiting final k n))
      → (result : HostedInferenceResult) × ((run_hosted_inference env client request []).0
          ≡ done result)
        × (result.poll_attempts ≡ k)
        × (result.raw_content ≡ some final.content)
        × (length (run_hosted_inference env client request []).1 ≡ suc k)
  run_hosted_inference-patience waiting final id k remote keyed busy named nonempty good over whole
        fits served =
      let there =
        poll_loop-Reached env client (headers_of client request) waiting id named nonempty final k k
          busy served fits (omega arith) k client.max_poll_attempts
          (polling_from (answer waiting final k 0)) (first_request ∷ []) (omega arith) fits refl
          refl in
      let (rest, q, sent', reached, polls, at, counted) = there in
      let at' = at ∙ answer-last waiting final k in
      let (result, resolved, counted_polls, same_bytes) =
        resolve-whole q sent' (ap is_success at' ∙ good)
          (ap (λ r. reference_of (preview_if_json r)) at' ∙ whole) in
      let run =
        run-loop (answer waiting final k 0) remote keyed (served 0 first_request (omega arith))
        ∙ reporting-done (loop (answer waiting final k 0)) (resolve env client payload)
            (first_request ∷ []) sent' q result
            (reached
              ∙ poll_loop-end env client (headers_of client request) rest q sent'
                  (ap (has_status 202) at' ∙ over))
            resolved in
      (
        result,
        ap (λ x. x.0) run,
        counted_polls ∙ polls,
        same_bytes ∙ ap (λ r. some r.content) at',
        ap (λ x. length x.1) run ∙ counted,
      )

  -- When a hosted client with a key asks a server whose every answer is 202 with a request id: the
  -- inference fails with FourCastNetInferenceError, which says that polling exceeded that number of
  -- attempts, after `max_poll_attempts` polls, which the
  -- diagnostics count, and `max_poll_attempts + 1` requests.
  pub run_hosted_inference-impatience :
      (waiting : Response) (id : String)
      → is_hosted client ≡ true
      → has_key client ≡ true
      → has_status 202 waiting ≡ true
      → request_id_of waiting ≡ some id
      → (id == "") ≡ false
      → ((n : ℕ) (s : Sent) → n ≤ client.max_poll_attempts → env.transport n s ≡ response waiting)
      → (diagnostics : ForecastJobDiagnostics) × ((run_hosted_inference env client request []).0
          ≡ failed (
              inference_error
                ("Hosted FourCastNet polling exceeded "
                  ⧺ decimal client.max_poll_attempts
                  ⧺ " attempts.")
                diagnostics))
        × (diagnostics.poll_attempts ≡ client.max_poll_attempts)
        × (length (run_hosted_inference env client request []).1 ≡ suc client.max_poll_attempts)
  run_hosted_inference-impatience waiting id remote keyed busy named nonempty served =
      let limit = client.max_poll_attempts in
      let all_busy : (n : ℕ) (s : Sent)
          → n ≤ limit
          → env.transport n s ≡ response (answer waiting waiting limit n) =
        λ n s h. served n s h ∙ ap response (sym (same_answer waiting limit n)) in
      let (rest, q, sent', reached, polls, at, counted) =
        poll_loop-Reached env client (headers_of client request) waiting id named nonempty waiting
          limit limit busy all_busy (omega arith) (omega arith) limit limit
          (polling_from (answer waiting waiting limit 0)) (first_request ∷ []) (omega arith)
          (omega arith) refl refl in
      let at' = at ∙ same_answer waiting limit limit in
      let run =
        run-loop (answer waiting waiting limit 0) remote keyed
          (all_busy 0 first_request (omega arith))
        ∙ reporting-failed (loop (answer waiting waiting limit 0)) (resolve env client payload)
            (first_request ∷ []) sent' _ _
            (reached
              ∙ poll_loop-over env client (headers_of client request) rest q id sent'
                  (ap (has_status 202) at' ∙ busy)
                  (refreshed-id env client (headers_of client request) waiting id named nonempty q
                    at')
                  (ground (arith, polls))) in
      (_, ap (λ x. x.0) run, same_polls q ∙ polls, ap (λ x. length x.1) run ∙ counted)
