-- ===== src/Tests/Admission.antt =====
-- The access control of a service with two keys, whose forecasts are limited.
use earth2_sandbox.Prelude.{◌≡◌, ◌⊎◌, refl, true, some, none, [], ◌∷◌, arith}
use earth2_sandbox.Prelude.Text.{strip_end}
use earth2_sandbox.Limiter.{InMemoryFixedWindowRateLimiter}
use earth2_sandbox.Limiter.Bounds.{smaller}
use earth2_sandbox.Access.{
  Texts, Settings, HttpRequest, access_control, stripped, is_public_request, dispatch, unauthorized,
  presented_key, key_values,
}
use earth2_sandbox.Access.Keys.{IsOneOf, in_service, dispatch-IsOneOf}
use earth2_sandbox.Access.Bursts.{forwards, IsCounted, dispatch-burst}

-- with texts that have spaces at their ends only, and no commas
abbrev plain_texts : Texts
plain_texts = record {
  strip = strip_end 32;
  upper = λ text. text;
  split_commas = λ text. text ∷ [];
  first_part = λ text. text;
  sha256 = λ text. text;
}

abbrev guarded : Settings
guarded = record {
  api_key_required = true;
  api_key = some "alpha ";
  api_keys = some "beta";
  rate_limit_enabled = true;
  rate_limit_capacity = 2;
  rate_limit_window_seconds = 60;
  rate_limit_routes = "POST /forecasts";
}

abbrev forecast_request : HttpRequest
forecast_request = record {
  method = "POST";
  path = "/forecasts";
  api_key_header = some "alpha";
  forwarded_for = none;
  client_host = some "10.0.0.1";
}

abbrev guarded_limiter : InMemoryFixedWindowRateLimiter
guarded_limiter = (access_control plain_texts guarded).rate_limiter

keyless_is_refused :
    (dispatch plain_texts
      (record forecast_request { api_key_header = none })
      0
      (access_control plain_texts guarded)).0
    ≡ unauthorized
unfolding dispatch stripped is_public_request strip_end
keyless_is_refused = refl

forecast_request-IsCounted :
    IsCounted plain_texts forecast_request (access_control plain_texts guarded)
unfolding stripped is_public_request strip_end
forecast_request-IsCounted = (refl, refl, refl)

dispatch-IsOneOf_example :
    (is_public_request forecast_request ≡ true)
    ⊎ ((dispatch plain_texts forecast_request 5 (in_service plain_texts guarded guarded_limiter)
          ≡ (unauthorized, in_service plain_texts guarded guarded_limiter))
        ⊎ IsOneOf plain_texts
            (presented_key plain_texts forecast_request)
            (key_values plain_texts guarded))
dispatch-IsOneOf_example =
    dispatch-IsOneOf plain_texts guarded guarded_limiter forecast_request 5 refl

dispatch-burst_example :
    forwards plain_texts forecast_request (5 ∷ 6 ∷ 7 ∷ []) (access_control plain_texts guarded)
    ≡ smaller 3 2
dispatch-burst_example =
    dispatch-burst plain_texts guarded forecast_request 5 (6 ∷ 7 ∷ []) forecast_request-IsCounted
      (omega arith) (omega arith) ((omega arith, omega arith), ((omega arith, omega arith), tt))
