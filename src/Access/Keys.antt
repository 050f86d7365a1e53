-- ===== src/Access/Keys.antt =====
-- Who gets past the access control of src/earth2_sandbox/api/http/middleware/security.py.
use earth2_sandbox.Prelude.{
  ℕ, String, true, false, ◌≡◌, refl, sym, ap, ◌∙◌, ◌⊎◌, inl, inr, List, [], ◌∷◌, ◌++◌, ◌==◌,
  Bool-cases, eq_iff, arith,
}
use earth2_sandbox.Limiter.{InMemoryFixedWindowRateLimiter}
use earth2_sandbox.Access.{
  Texts, Settings, HttpRequest, ApiAccessControlMiddleware, unauthorized, member, stripped,
  key_values, configured_api_keys, access_control, is_public_request, presented_key, dispatch,
}

-- a text that is not empty, and is one of the values but for the spaces around it
abbrev pub IsOneOf : Texts → String → List String → Type 0
IsOneOf texts key values =
    ((before : List String) × (value : String) × (after : List String) × (values
        ≡ before ++ value ∷ after)
      × (texts.strip value ≡ key))
    × ((key == "") ≡ false)

-- the middleware as it was set up, with the windows that it has now
abbrev pub in_service :
    Texts → Settings → InMemoryFixedWindowRateLimiter → ApiAccessControlMiddleware
in_service texts settings limiter = record (access_control texts settings) {
  rate_limiter = limiter;
}

module _ (texts : Texts) where
  later-IsOneOf :
      (key other : String) (values : List String)
      → IsOneOf texts key values
      → IsOneOf texts key (other ∷ values)
  later-IsOneOf key other values ((before, value, after, splits, same), whole) =
      ((other ∷ before, value, after, ap (λ vs. other ∷ vs) splits, same), whole)

  stripped-IsOneOf :
      (key : String) (values : List String)
      → member key (stripped texts values) ≡ true
      → IsOneOf texts key values
  unfolding stripped
  stripped-IsOneOf key [] = λ h. absurd (ground (arith, h))
  stripped-IsOneOf key (value ∷ values) =
      let rest = stripped-IsOneOf key values in
      elim (Bool-cases (texts.strip value == "")) [
        | inl blank ↦ simp blank (λ h. later-IsOneOf key value values (rest h))
        | inr whole ↦ elim (Bool-cases (key == texts.strip value)) [
          | inl same ↦
              let e = (eq_iff key (texts.strip value)).0 same in
              λ h. (([], value, values, refl, sym e), ap (λ k. k == "") e ∙ whole)
          | inr other ↦ simp (whole, other) (λ h. later-IsOneOf key value values (rest h))
        ]
      ]

module _ (texts : Texts) (settings : Settings) (limiter : InMemoryFixedWindowRateLimiter)
    (request : HttpRequest) (now : ℕ) where
  -- For settings that require an API key, and whatever the rate limiter has seen: a request is public;
  -- or it is answered 401, and the middleware stays as it is; or the key that it presents is not
  -- empty and is one of the configured ones, but for the spaces around it.
  pub dispatch-IsOneOf :
      settings.api_key_required ≡ true
      → (is_public_request request ≡ true)
        ⊎ ((dispatch texts request now (in_service texts settings limiter)
              ≡ (unauthorized, in_service texts settings limiter))
            ⊎ IsOneOf texts (presented_key texts request) (key_values texts settings))
  unfolding dispatch
  dispatch-IsOneOf required = elim (Bool-cases (is_public_request request)) [
    | inl anyone ↦ inl anyone
    | inr closed ↦
        elim (Bool-cases
          (member (presented_key texts request) (configured_api_keys texts settings))) [
            | inl known ↦ inr (
                inr (
                  stripped-IsOneOf texts (presented_key texts request) (key_values texts settings)
                    known))
            | inr unknown ↦ inr (inl (simp (closed, required, unknown)))
          ]
  ]
