-- ===== src/Nim/Client/Requests/Waiting.antt =====
-- Inferences that the server answers with 202 for a while, or for good.
use earth2_sandbox.Prelude.{
  ℕ, zero, suc, ◌+◌, ◌≤◌, ◌<◌, ◌≡◌, refl, ap, ◌∙◌, String, true, false, some, List, [], ◌∷◌, ◌++◌,
  length, leb, ltb, ◌==◌, if◌then◌else◌, length-append, arith,
}
use earth2_sandbox.Nim.{Response, Sent, NimEnv, done, failed, response, has_status, send}
use earth2_sandbox.Nim.Client.{NimClient, request_id_of}
use earth2_sandbox.Nim.Client.Requests.{
  Headers, Polling, refreshed, polled, poll_once, poll_loop, status_request, attempts_exceeded,
}

-- the answer to request `n` where `k` answers are 202
abbrev pub answer : Response → Response → ℕ → ℕ → Response
answer waiting final k n = if ltb n k then waiting else final

module _ (env : NimEnv) (client : NimClient) (headers : Headers) where
  -- the state after another poll that is answered by `r`
  abbrev pub next : Polling → Response → Polling
  next p r = polled (refreshed p) r

  poll_loop-turn :
      (fuel : ℕ) (p : Polling) (r : Response) (id : String) (sent : List Sent)
      → has_status 202 p.response ≡ true
      → (refreshed p).request_id ≡ some id
      → leb client.max_poll_attempts p.poll_attempts ≡ false
      → env.transport (length sent) (status_request client headers id) ≡ response r
      → poll_loop env client headers (suc fuel) p sent
        ≡ poll_loop env client headers fuel
            (next p r)
            (sent ++ status_request client headers id ∷ [])
  unfolding poll_loop poll_once send
  poll_loop-turn fuel p r id sent waits present under answered =
      simp (waits, present, under, answered, poll_loop, poll_once, send)

  pub poll_loop-over :
      (fuel : ℕ) (p : Polling) (id : String) (sent : List Sent)
      → has_status 202 p.response ≡ true
      → (refreshed p).request_id ≡ some id
      → leb client.max_poll_attempts p.poll_attempts ≡ true
      → poll_loop env client headers (suc fuel) p sent
        ≡ (failed (attempts_exceeded client (refreshed p)), sent)
  unfolding poll_loop poll_once send
  poll_loop-over fuel p id sent waits present over =
      simp (waits, present, over, poll_loop, poll_once)

  pub poll_loop-end :
      (fuel : ℕ) (p : Polling) (sent : List Sent)
      → has_status 202 p.response ≡ false
      → poll_loop env client headers (suc fuel) p sent ≡ (done p, sent)
  unfolding poll_loop
  poll_loop-end fuel p sent answered = rw (answered, poll_loop) refl

  module _ (waiting : Response) (id : String) (named : request_id_of waiting ≡ some id)
      (nonempty : (id == "") ≡ false) where
    pub refreshed-id : (p : Polling) → p.response ≡ waiting → (refreshed p).request_id ≡ some id
    unfolding refreshed
    refreshed-id p e = simp (ap request_id_of e, named, nonempty)

    module _ (final : Response) (k limit : ℕ) (busy : has_status 202 waiting ≡ true)
        (served : (n : ℕ) (s : Sent)
          → n ≤ limit
          → env.transport n s ≡ response (answer waiting final k n))
        (fits : limit ≤ client.max_poll_attempts) (early : limit ≤ k) where
      -- Somewhere the loop gets to from here, with the first `limit` polls behind it.
      abbrev pub Reached : ℕ → Polling → List Sent → Type 0
      Reached fuel p sent =
          (rest : ℕ) × (q : Polling) × (sent' : List Sent) × (poll_loop env client headers
              (suc fuel) p sent
            ≡ poll_loop env client headers (suc rest) q sent')
          × (q.poll_attempts ≡ limit)
          × (q.response ≡ answer waiting final k limit)
          × (length sent' ≡ suc limit)

      still_waiting : (n : ℕ) → n < limit → answer waiting final k n ≡ waiting
      still_waiting n h = ground (arith, early)

      pub poll_loop-Reached :
          (d fuel : ℕ) (p : Polling) (sent : List Sent)
          → d + p.poll_attempts ≡ limit
          → d ≤ fuel
          → p.response ≡ answer waiting final k p.poll_attempts
          → length sent ≡ suc p.poll_attempts
          → Reached fuel p sent
      unfolding refreshed
      poll_loop-Reached zero fuel p sent e enough at counted = (
        fuel,
        p,
        sent,
        refl,
        omega (arith, e),
        at ∙ ap (answer waiting final k) (omega (arith, e)),
        omega (arith, e, counted),
      )
      poll_loop-Reached (suc d) zero p sent e enough at counted = absurd (omega (arith, enough))
      poll_loop-Reached (suc d) (suc fuel) p sent e enough at counted =
          let seen = at ∙ still_waiting p.poll_attempts (omega (arith, e)) in
          let request = status_request client headers id in
          let r = answer waiting final k (suc p.poll_attempts) in
          let turn =
            poll_loop-turn (suc fuel) p r id sent (ap (has_status 202) seen ∙ busy)
              (refreshed-id p seen) (ground (arith, fits, e))
              (served (length sent) request (omega (arith, counted, e))
                ∙ ap (λ n. response (answer waiting final k n)) counted) in
          let there =
            poll_loop-Reached d fuel (next p r) (sent ++ request ∷ []) (omega (arith, e))
              (omega (arith, enough)) refl
              (omega (arith, counted, length-append sent (request ∷ []))) in
          (there.0, there.1, there.2, turn ∙ there.3, there.4, there.5, there.6)
