-- ===== src/Nim/Client/Requests/Resolution.antt =====
-- The end of `_resolve_hosted_response`, after the poll loop: what an inference delivers.
use earth2_sandbox.Prelude.{
  ℕ, suc, ◌+◌, ◌≤◌, ◌≡◌, refl, String, Bool, true, false, Option, none, some, List, [], ◌∷◌, ◌++◌,
  length, ◌==◌, ◌⊎◌, inl, inr, if◌then◌else◌, length-append, Bool-cases, Option-cases, arith,
}
use earth2_sandbox.Nim.{
  Json, Response, Sent, NimEnv, Failure, ResponseSource, redirect, response_reference, has_status,
  is_success, or_empty, Payload, HostedInferenceResult, send,
}
use earth2_sandbox.Nim.Ends.{IsReported, Ensures, bind-Ensures, send-Ensures}
use earth2_sandbox.Nim.Client.{NimClient, reference_of, build_hosted_result}
use earth2_sandbox.Nim.Client.Requests.{
  Headers, Polling, download_request, download_url, download_large_response, preview_if_json,
  resolve,
}
use earth2_sandbox.Nim.Client.Requests.Polls.{
  AreExpected, IsSource, polled_source, Stopped, IsPolling, sent-AreExpected, raised-Stopped,
}

-- a reference was followed, or the answer came from that many polls
abbrev pub ComesFrom : Bool → ℕ → ResponseSource → Type 0
ComesFrom true polls source = (source ≡ redirect) ⊎ (source ≡ response_reference)
ComesFrom false polls source = source ≡ polled_source polls

-- What a result is worth: the bytes of the answer to the last request sent, a successful response, with their length and digest, and an
-- honest account of the requests made for them.
pub record IsDelivery (env : NimEnv) (client : NimClient) (headers : Headers) (payload : Payload)
    (result : HostedInferenceResult) (sent : List Sent) : Type 0 where
  pub expected : AreExpected client headers payload sent
  pub bounded : result.poll_attempts ≤ client.max_poll_attempts
  pub counted :
      length sent ≡ suc result.poll_attempts + (if result.response_reference_present then 1 else 0)
  pub source :
      ComesFrom result.response_reference_present result.poll_attempts result.response_source
  pub payload_kept : result.request_payload ≡ payload
  pub content :
      (r : Response) × (is_success r ≡ true)
      × IsSource env result.response_reference_present r sent
      × (result.status_code ≡ r.status_code)
      × (result.raw_content ≡ some r.content)
      × (result.byte_length ≡ length r.content)
      × (result.sha256 ≡ env.sha256 r.content)

module _ (env : NimEnv) (client : NimClient) (headers : Headers) (payload : Payload) where
  -- one request more than after so many polls
  abbrev Asked : Polling → List Sent → Type 0
  Asked p sent = AreExpected client headers payload sent × (length sent ≡ suc (suc p.poll_attempts))

  -- a download went out, and its answer is a success
  abbrev Downloaded : Polling → Response → List Sent → Type 0
  Downloaded p r sent = (Asked p sent × IsSource env true r sent) × (is_success r ≡ true)

  downloading-Asked :
      (p : Polling) (url : String) (sent : List Sent)
      → IsPolling env client headers payload p sent
      → Asked p (sent ++ download_request url ∷ [])
  downloading-Asked p url sent h = (
    sent-AreExpected env client headers payload sent (download_request url) h.expected
        (inr (inr (refl, refl, refl))),
    omega (arith, h.counted, length-append sent (download_request url ∷ [])),
  )

  Asked-Stopped :
      (p : Polling) (e : Failure) (sent sent' : List Sent)
      → IsPolling env client headers payload p sent
      → Asked p sent'
      → IsReported env e
      → Stopped env client headers payload e sent'
  Asked-Stopped p e sent sent' h k known = record {
    expected = k.0;
    bounded = omega (arith, h.bounded, k.1);
    reported = known;
  }

  download_url-Downloaded :
      (p : Polling) (url : String) (sent : List Sent)
      → IsPolling env client headers payload p sent
      → Ensures (Downloaded p) (Stopped env client headers payload) (download_url env url) sent
  unfolding download_url
  download_url-Downloaded p url sent h =
      bind-Ensures (λ r sent'. Asked p sent' × IsSource env true r sent') (Downloaded p)
        (Stopped env client headers payload) (send env (download_request url)) _ sent
        (send-Ensures (λ r sent'. Asked p sent' × IsSource env true r sent')
          (Stopped env client headers payload) env (download_request url) sent
          (λ r e. (downloading-Asked p url sent h, (sent, download_request url, refl, e, refl)))
          (λ e known. Asked-Stopped p e sent _ h (downloading-Asked p url sent h) known))
        (λ r sent' k. elim (Bool-cases (is_success r)) [
          | inl good ↦ rw good (k, good)
          | inr bad ↦ rw bad (Asked-Stopped p _ sent sent' h k.0 tt)
        ])

  download_large_response-Downloaded :
      (p : Polling) (r : Response) (sent : List Sent)
      → IsPolling env client headers payload p sent
      → Ensures
          (Downloaded p)
          (Stopped env client headers payload)
          (download_large_response env r)
          sent
  unfolding download_large_response
  download_large_response-Downloaded p r sent h = elim (Bool-cases (or_empty r.location == "")) [
    | inl missing ↦
        rw (missing, download_large_response)
          (raised-Stopped env client headers payload p _ sent h tt)
    | inr present ↦
        rw (present, download_large_response)
          (download_url-Downloaded p (or_empty r.location) sent h)
  ]

  built-IsDelivery :
      (r : Response) (request_id nvcf_status : Option String) (polls : ℕ) (source : ResponseSource)
      (reference : Bool) (preview : Option Json) (sent : List Sent)
      → AreExpected client headers payload sent
      → polls ≤ client.max_poll_attempts
      → length sent ≡ suc polls + (if reference then 1 else 0)
      → ComesFrom reference polls source
      → is_success r ≡ true
      → IsSource env reference r sent
      → IsDelivery env client headers payload
          (build_hosted_result env client r payload request_id nvcf_status polls source reference
            preview)
          sent
  unfolding build_hosted_result
  built-IsDelivery r request_id nvcf_status polls source reference preview sent h fits counts comes
        good at =
      record {
        expected = h;
        bounded = fits;
        counted = counts;
        source = comes;
        payload_kept = refl;
        content = (r, good, at, refl, refl, refl, refl);
      }

  Downloaded-IsDelivery :
      (p : Polling) (r : Response) (request_id nvcf_status : Option String)
      (source : ResponseSource) (sent sent' : List Sent)
      → IsPolling env client headers payload p sent
      → Downloaded p r sent'
      → ComesFrom true p.poll_attempts source
      → IsDelivery env client headers payload
          (build_hosted_result env client r payload request_id nvcf_status p.poll_attempts source
            true none)
          sent'
  Downloaded-IsDelivery p r request_id nvcf_status source sent sent' h k comes =
      built-IsDelivery r request_id nvcf_status p.poll_attempts source true none sent' k.0.0.0
        h.bounded (omega (arith, k.0.0.1)) comes k.1 k.0.1

  pub resolve-IsDelivery :
      (p : Polling) (sent : List Sent)
      → IsPolling env client headers payload p sent
      → Ensures
          (IsDelivery env client headers payload)
          (Stopped env client headers payload)
          (resolve env client payload p)
          sent
  unfolding resolve build_hosted_result
  resolve-IsDelivery p sent h = elim (Bool-cases (has_status 302 p.response)) [
    | inl moved ↦
        rw (moved, resolve)
          (bind-Ensures (Downloaded p) (IsDelivery env client headers payload)
            (Stopped env client headers payload) (download_large_response env p.response) _ sent
            (download_large_response-Downloaded p p.response sent h)
            (λ r sent' k. Downloaded-IsDelivery p r _ _ redirect sent sent' h k (inl refl)))
    | inr here ↦ elim (Bool-cases (is_success p.response)) [
      | inl good ↦ elim (Option-cases (reference_of (preview_if_json p.response))) [
        | inl whole ↦
            rw (here, good, whole, resolve)
              (built-IsDelivery p.response _ _ p.poll_attempts p.response_source false
                (preview_if_json p.response) sent h.expected h.bounded (omega (arith, h.counted))
                h.source good h.answered)
        | inr (url, refers) ↦
            rw (here, good, refers, resolve)
              (bind-Ensures (Downloaded p) (IsDelivery env client headers payload)
                (Stopped env client headers payload) (download_url env url) _ sent
                (download_url-Downloaded p url sent h)
                (λ r sent' k.
                  Downloaded-IsDelivery p r _ _ response_reference sent sent' h k (inr refl)))
      ]
      | inr bad ↦ rw (here, bad, resolve) (raised-Stopped env client headers payload p _ sent h tt)
    ]
  ]
