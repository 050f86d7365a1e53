-- ===== src/Access.antt =====
-- The access control of src/earth2_sandbox/api/http/middleware/security.py, over the rate limiter of
-- Limiter. What Python does to texts and SHA-256 are parameters. A frozenset is a list that is only
-- asked for members; what `call_next` answers is not looked at.
pub mod Keys
pub mod Bursts
use text.Mathlib.Text.{starts_with}
use earth2_sandbox.Prelude.{
  ℕ, String, Bool, true, false, not, ◌&&◌, ◌||◌, Option, none, some, List, [], ◌∷◌, ◌++◌, ◌==◌,
  if◌then◌else◌,
}
use earth2_sandbox.Outcome.{◌⧺◌}
use earth2_sandbox.Limiter.{RateLimitDecision, InMemoryFixedWindowRateLimiter, check}

-- `str.strip`, `str.upper`, `str.split(",")` and its first part, and the digest of a text
pub record Texts : Type 0 where
  pub strip : String → String
  pub upper : String → String
  pub split_commas : String → List String
  pub first_part : String → String
  pub sha256 : String → String

pub record Settings : Type 0 where
  pub api_key_required : Bool
  pub api_key : Option String
  pub api_keys : Option String
  pub rate_limit_enabled : Bool
  pub rate_limit_capacity : ℕ
  pub rate_limit_window_seconds : ℕ
  pub rate_limit_routes : String

pub record HttpRequest : Type 0 where
  pub method : String
  pub path : String
  pub api_key_header : Option String
  pub forwarded_for : Option String
  pub client_host : Option String

pub record ApiAccessControlMiddleware : Type 0 where
  pub api_key_required : Bool
  pub api_keys : List String
  pub rate_limit_enabled : Bool
  pub rate_limit_routes : List String
  pub rate_limiter : InMemoryFixedWindowRateLimiter

-- the answer of the application, a 401, or a 429 with its `Retry-After`
pub data HttpAnswer : Type 0 where
  forwarded : HttpAnswer
  unauthorized : HttpAnswer
  limited : ℕ → HttpAnswer

abbrev pub or_default : Option String → String → String
or_default none default = default
or_default (some text) default = text

abbrev pub member : String → List String → Bool
member text [] = false
member text (t ∷ texts) = text == t || member text texts

-- `frozenset(value.strip() for value in values if value.strip())`
unfoldable pub stripped : Texts → List String → List String
stripped texts [] = []
stripped texts (value ∷ values) =
    let rest = stripped texts values in
    if texts.strip value == "" then rest else texts.strip value ∷ rest

abbrev pub single_key : Option String → List String
single_key none = []
single_key (some key) = key ∷ []

abbrev pub several_keys : Texts → Option String → List String
several_keys texts none = []
several_keys texts (some keys) = texts.split_commas keys

-- `values` of `_configured_api_keys`
abbrev pub key_values : Texts → Settings → List String
key_values texts settings = single_key settings.api_key ++ several_keys texts settings.api_keys

abbrev pub configured_api_keys : Texts → Settings → List String
configured_api_keys texts settings = stripped texts (key_values texts settings)

abbrev pub parse_route_specs : Texts → String → List String
parse_route_specs texts value = stripped texts (texts.split_commas value)

abbrev pub access_control : Texts → Settings → ApiAccessControlMiddleware
access_control texts settings = record {
  api_key_required = settings.api_key_required;
  api_keys = configured_api_keys texts settings;
  rate_limit_enabled = settings.rate_limit_enabled;
  rate_limit_routes = parse_route_specs texts settings.rate_limit_routes;
  rate_limiter = record {
    capacity = settings.rate_limit_capacity;
    window_seconds = settings.rate_limit_window_seconds;
    windows = λ identity route. none;
  };
}

abbrev pub public_paths : List String
public_paths = "/" ∷ "/health" ∷ "/metrics" ∷ "/openapi.json" ∷ "/favicon.ico" ∷ []

unfoldable pub is_public_request : HttpRequest → Bool
is_public_request request =
    request.method == "OPTIONS"
    || member request.path public_paths
    || (starts_with request.path "/docs" || starts_with request.path "/redoc")

abbrev pub route_spec : Texts → HttpRequest → String
route_spec texts request = texts.upper request.method ⧺ (" " ⧺ request.path)

-- the identity of a request without a key
abbrev pub address_identity : Texts → HttpRequest → String
address_identity texts request =
    let forwarded_for = or_default request.forwarded_for "" in
    if forwarded_for == ""
    then "ip:" ⧺ or_default request.client_host "unknown"
    else "ip:" ⧺ texts.strip (texts.first_part forwarded_for)

abbrev pub rate_limit_identity : Texts → HttpRequest → String → String
rate_limit_identity texts request api_key =
    if api_key == "" then address_identity texts request else "api-key:" ⧺ texts.sha256 api_key

-- `request.headers.get(API_KEY_HEADER, "").strip()`
abbrev pub presented_key : Texts → HttpRequest → String
presented_key texts request = texts.strip (or_default request.api_key_header "")

abbrev pub answer_of : RateLimitDecision → HttpAnswer
answer_of decision = if decision.allowed then forwarded else limited decision.retry_after_seconds

-- `dispatch`, at the time `now` of `monotonic()`
unfoldable pub dispatch :
    Texts → HttpRequest → ℕ → ApiAccessControlMiddleware → HttpAnswer × ApiAccessControlMiddleware
dispatch texts request now middleware =
    let api_key = presented_key texts request in
    let route = route_spec texts request in
    let (decision, rate_limiter) =
      check (rate_limit_identity texts request api_key) route now middleware.rate_limiter in
    if is_public_request request
    then (forwarded, middleware)
    else if middleware.api_key_required && not (member api_key middleware.api_keys)
    then (unauthorized, middleware)
    else if middleware.rate_limit_enabled && member route middleware.rate_limit_routes
    then (answer_of decision, record middleware { rate_limiter = rate_limiter })
    else (forwarded, middleware)
