-- ===== src/Nim/Client/Requests/Polls.antt =====
-- The poll loop of `_resolve_hosted_response`: it ends, and what it leaves.
use earth2_sandbox.Prelude.{
  ℕ, zero, suc, ◌+◌, ◌≤◌, ◌≡◌, refl, String, Bool, not, is_some, false, none, some, List, [], ◌∷◌,
  ◌++◌, length, leb, ◌⊎◌, inl, inr, All, All-append, length-append, Bool-cases, Option-cases, arith,
}
use earth2_sandbox.Outcome.{◌⧺◌}
use earth2_sandbox.Nim.{
  get, post, Fetched, Response, Sent, NimEnv, Failure, ResponseSource, inline, poll, has_status,
  Payload, send, pure,
}
use earth2_sandbox.Nim.Ends.{IsReported, Ensures, bind-Ensures, send-Ensures}
use earth2_sandbox.Nim.Client.{NimClient}
use earth2_sandbox.Nim.Client.Requests.{
  without_slash, Headers, Polling, refreshed, polled, poll_once, poll_loop, status_request,
}

-- The requests of one inference: the POST with the key and the payload, the polls below the status
-- URL with the key, neither of which follows a redirect, and downloads without a key.
abbrev pub IsExpected : NimClient → Headers → Payload → Sent → Type 0
IsExpected client headers payload request =
    ((request.method ≡ post)
      × (request.url ≡ client.base_url)
      × (request.authorization ≡ some headers.authorization)
      × (request.json ≡ some payload)
      × (request.follow_redirects ≡ false))
    ⊎ ((id : String) × (request.method ≡ get)
        × (request.url ≡ without_slash client.status_url ⧺ "/" ⧺ id)
        × (request.authorization ≡ some headers.authorization)
        × (request.json ≡ none)
        × (request.follow_redirects ≡ false))
    ⊎ ((request.method ≡ get) × (request.authorization ≡ none) × (request.json ≡ none))

abbrev pub AreExpected : NimClient → Headers → Payload → List Sent → Type 0
AreExpected client headers payload = All (IsExpected client headers payload)

-- Where an answer came from that took so many polls.
abbrev pub polled_source : ℕ → ResponseSource
polled_source zero = inline
polled_source (suc n) = poll

-- the last request sent, to which this is the answer: a download without a key, where a reference was
-- followed, and else one with the key
abbrev pub IsSource : NimEnv → Bool → Response → List Sent → Type 0
IsSource env reference r sent =
    (before : List Sent) × (request : Sent) × (sent ≡ before ++ request ∷ [])
    × (env.transport (length before) request ≡ Fetched.response r)
    × (is_some request.authorization ≡ not reference)

-- the requests that a failed call leaves behind
pub record Stopped (env : NimEnv) (client : NimClient) (headers : Headers) (payload : Payload)
    (e : Failure) (sent : List Sent) : Type 0 where
  pub expected : AreExpected client headers payload sent
  pub bounded : length sent ≤ suc (suc client.max_poll_attempts)
  pub reported : IsReported env e

-- the loop's state beside the requests sent so far
pub record IsPolling (env : NimEnv) (client : NimClient) (headers : Headers) (payload : Payload)
    (p : Polling) (sent : List Sent) : Type 0 where
  pub expected : AreExpected client headers payload sent
  pub counted : length sent ≡ suc p.poll_attempts
  pub bounded : p.poll_attempts ≤ client.max_poll_attempts
  pub source : p.response_source ≡ polled_source p.poll_attempts
  pub answered : IsSource env false p.response sent

-- the state after one turn from `p`
abbrev Again : NimEnv → NimClient → Headers → Payload → Polling → Polling → List Sent → Type 0
Again env client headers payload p q sent =
    IsPolling env client headers payload q sent × (q.poll_attempts ≡ suc p.poll_attempts)

-- the state after the loop
abbrev pub HasPolled : NimEnv → NimClient → Headers → Payload → Polling → List Sent → Type 0
HasPolled env client headers payload p sent =
    IsPolling env client headers payload p sent × (has_status 202 p.response ≡ false)

module _ (env : NimEnv) (client : NimClient) (headers : Headers) (payload : Payload) where
  pub sent-AreExpected :
      (sent : List Sent) (request : Sent)
      → AreExpected client headers payload sent
      → IsExpected client headers payload request
      → AreExpected client headers payload (sent ++ request ∷ [])
  sent-AreExpected sent request h k =
      All-append (IsExpected client headers payload) sent (request ∷ []) h (k, tt)

  -- one request more than after so many polls
  pub sent-Stopped :
      (p : Polling) (request : Sent) (e : Failure) (sent : List Sent)
      → IsPolling env client headers payload p sent
      → IsExpected client headers payload request
      → IsReported env e
      → Stopped env client headers payload e (sent ++ request ∷ [])
  sent-Stopped p request e sent h k known = record {
    expected = sent-AreExpected sent request h.expected k;
    bounded = omega (arith, h.counted, h.bounded, length-append sent (request ∷ []));
    reported = known;
  }

  pub raised-Stopped :
      (p : Polling) (e : Failure) (sent : List Sent)
      → IsPolling env client headers payload p sent
      → IsReported env e
      → Stopped env client headers payload e sent
  raised-Stopped p e sent h known = record {
    expected = h.expected;
    bounded = omega (arith, h.counted, h.bounded);
    reported = known;
  }

  -- after another poll
  polled-IsPolling :
      (p : Polling) (r : Response) (id : String) (sent : List Sent)
      → leb client.max_poll_attempts p.poll_attempts ≡ false
      → IsPolling env client headers payload p sent
      → env.transport (length sent) (status_request client headers id) ≡ Fetched.response r
      → IsPolling env client headers payload
          (polled (refreshed p) r)
          (sent ++ status_request client headers id ∷ [])
  unfolding refreshed
  polled-IsPolling p r id sent under h at = record {
    expected =
        sent-AreExpected sent (status_request client headers id) h.expected
          (inr (inl (id, refl, refl, refl, refl, refl)));
    counted = omega (arith, h.counted, length-append sent (status_request client headers id ∷ []));
    bounded = ground arith;
    source = refl;
    answered = (sent, status_request client headers id, refl, at, refl);
  }

  poll_once-IsPolling :
      (p : Polling) (sent : List Sent)
      → IsPolling env client headers payload p sent
      → Ensures
          (Again env client headers payload p)
          (Stopped env client headers payload)
          (poll_once env client headers p)
          sent
  unfolding poll_once
  poll_once-IsPolling p sent h = elim (Option-cases (refreshed p).request_id) [
    | inl absent ↦ rw (absent, poll_once) (raised-Stopped p _ sent h tt)
    | inr (id, present) ↦ elim (Bool-cases (leb client.max_poll_attempts p.poll_attempts)) [
      | inl over ↦ rw (present, over, poll_once) (raised-Stopped p _ sent h tt)
      | inr under ↦
          rw (present, under, poll_once)
            (bind-Ensures
              (λ r sent'. IsPolling env client headers payload (polled (refreshed p) r) sent')
              (Again env client headers payload p) (Stopped env client headers payload)
              (send env (status_request client headers id)) (λ r. pure (polled (refreshed p) r))
              sent
              (send-Ensures
                (λ r sent'. IsPolling env client headers payload (polled (refreshed p) r) sent')
                (Stopped env client headers payload) env (status_request client headers id) sent
                (λ r at. polled-IsPolling p r id sent under h at)
                (λ e known.
                  sent-Stopped p (status_request client headers id) e sent h
                    (inr (inl (id, refl, refl, refl, refl, refl))) known))
              (λ r sent' k. (k, refl)))
    ]
  ]

  -- One turn, when the turns after it end well.
  poll_turn-HasPolled :
      (fuel : ℕ) (p : Polling) (sent : List Sent)
      → IsPolling env client headers payload p sent
      → ((q : Polling) (sent' : List Sent)
          → Again env client headers payload p q sent'
          → Ensures
              (HasPolled env client headers payload)
              (Stopped env client headers payload)
              (poll_loop env client headers fuel q)
              sent')
      → Ensures
          (HasPolled env client headers payload)
          (Stopped env client headers payload)
          (poll_loop env client headers (suc fuel) p)
          sent
  unfolding poll_loop
  poll_turn-HasPolled fuel p sent h rest = elim (Bool-cases (has_status 202 p.response)) [
    | inl waits ↦
        rw (waits, poll_loop)
          (bind-Ensures (Again env client headers payload p) (HasPolled env client headers payload)
            (Stopped env client headers payload) (poll_once env client headers p)
            (poll_loop env client headers fuel) sent (poll_once-IsPolling p sent h) rest)
    | inr answered ↦ rw (answered, poll_loop) (h, answered)
  ]

  pub poll_loop-HasPolled :
      (fuel : ℕ) (p : Polling) (sent : List Sent)
      → client.max_poll_attempts ≤ fuel + p.poll_attempts
      → IsPolling env client headers payload p sent
      → Ensures
          (HasPolled env client headers payload)
          (Stopped env client headers payload)
          (poll_loop env client headers (suc fuel) p)
          sent
  poll_loop-HasPolled zero p sent enough h =
      poll_turn-HasPolled zero p sent h
        (λ q sent' k. absurd (omega (arith, k.0.bounded, k.1, enough)))
  poll_loop-HasPolled (suc fuel) p sent enough h =
      poll_turn-HasPolled (suc fuel) p sent h
        (λ q sent' k. poll_loop-HasPolled fuel q sent' (omega (arith, k.1, enough)) k.0)
