-- ===== src/Access/Bursts.antt =====
-- How many requests of a client get past src/earth2_sandbox/api/http/middleware/security.py, with the
-- access control and the rate limiter together.
use earth2_sandbox.Prelude.{
  ℕ, String, suc, ◌+◌, ◌≤◌, ◌<◌, ◌≡◌, refl, ap, ◌∙◌, Bool, true, false, not, ◌&&◌, inl, inr, List,
  [], ◌∷◌, length, All, Bool-cases, if◌then◌else◌,
}
use earth2_sandbox.Limiter.{RateLimitDecision, InMemoryFixedWindowRateLimiter, check, microseconds}
use earth2_sandbox.Limiter.Bounds.{admitted, smaller, check-burst}
use earth2_sandbox.Access.{
  Texts, Settings, HttpRequest, ApiAccessControlMiddleware, HttpAnswer, forwarded, unauthorized,
  limited, member, access_control, is_public_request, presented_key, route_spec,
  rate_limit_identity, answer_of, dispatch,
}

abbrev pub is_forwarded : HttpAnswer → Bool
is_forwarded forwarded = true
is_forwarded unauthorized = false
is_forwarded (limited seconds) = false

-- The number of times that a request is let through, of the times that it comes.
abbrev pub forwards : Texts → HttpRequest → List ℕ → ApiAccessControlMiddleware → ℕ
forwards texts request [] middleware = 0
forwards texts request (now ∷ times) middleware =
    let (answer, middleware') = dispatch texts request now middleware in
    let rest = forwards texts request times middleware' in
    if is_forwarded answer then suc rest else rest

answer_of_lem :
    (decision : RateLimitDecision) → is_forwarded (answer_of decision) ≡ decision.allowed
answer_of_lem decision = elim (Bool-cases decision.allowed) [
  | inl granted ↦ simp granted
  | inr refused ↦ simp refused
]

-- A request that only the rate limiter may hold up.
abbrev pub IsCounted : Texts → HttpRequest → ApiAccessControlMiddleware → Type 0
IsCounted texts request middleware =
    (is_public_request request ≡ false)
    × ((middleware.api_key_required
          && not (member (presented_key texts request) middleware.api_keys))
        ≡ false)
    × ((middleware.rate_limit_enabled
          && member (route_spec texts request) middleware.rate_limit_routes)
        ≡ true)

module _ (texts : Texts) (request : HttpRequest) where
  abbrev identity : String
  identity = rate_limit_identity texts request (presented_key texts request)

  -- what the rate limiter makes of the request
  abbrev decided :
      ℕ → ApiAccessControlMiddleware → RateLimitDecision × InMemoryFixedWindowRateLimiter
  decided now middleware = check identity (route_spec texts request) now middleware.rate_limiter

  abbrev after : ℕ → ApiAccessControlMiddleware → ApiAccessControlMiddleware
  after now middleware = record middleware { rate_limiter = (decided now middleware).1 }

  dispatch-check :
      (now : ℕ) (middleware : ApiAccessControlMiddleware)
      → IsCounted texts request middleware
      → dispatch texts request now middleware
        ≡ (answer_of (decided now middleware).0, after now middleware)
  unfolding dispatch
  dispatch-check now middleware (closed, known, counted) = simp (closed, known, counted)

  forwards-admitted :
      (times : List ℕ) (middleware : ApiAccessControlMiddleware)
      → IsCounted texts request middleware
      → forwards texts request times middleware
        ≡ admitted identity (route_spec texts request) times middleware.rate_limiter
  forwards-admitted [] middleware h = refl
  forwards-admitted (now ∷ times) middleware h =
      rw (dispatch-check now middleware h, answer_of_lem)
        (ap (λ n. if (decided now middleware).0.allowed then suc n else n)
          (forwards-admitted times (after now middleware) h))

-- A request that is not public, with a configured key if one is required, for a route whose rate is
-- limited, on a service that has just been set up, comes again and again in the window that it opens:
-- it is let through as often as the capacity allows, or always if it comes no more often.
pub dispatch-burst :
    (texts : Texts) (settings : Settings) (request : HttpRequest) (start : ℕ) (times : List ℕ)
    → IsCounted texts request (access_control texts settings)
    → 0 < settings.rate_limit_capacity
    → 0 < settings.rate_limit_window_seconds
    → All
        (λ now. (start ≤ now) × (now < start + microseconds settings.rate_limit_window_seconds))
        times
    → forwards texts request (start ∷ times) (access_control texts settings)
      ≡ smaller (suc (length times)) settings.rate_limit_capacity
dispatch-burst texts settings request start times h room long within =
    forwards-admitted texts request (start ∷ times) (access_control texts settings) h
    ∙ check-burst (identity texts request) (route_spec texts request) start times
        (access_control texts settings).rate_limiter refl room long within
