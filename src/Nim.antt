-- ===== src/Nim.antt =====
-- The client of the hosted FourCastNet endpoint, src/earth2_sandbox/infrastructure/nvidia/nim_client.py.
-- This file: what goes over the wire and what a call can end in. httpx is not modelled: a
-- `transport` answers the n-th call with a response, an httpx.HTTPError or an httpx.InvalidURL,
-- whatever they are. The further requests that httpx makes by itself, when a call asks it to follow
-- redirects, are part of the answer.
-- A response's JSON body is what `response.json()` returns of it.
pub mod Client
pub mod Ends
use earth2_sandbox.Prelude.{
  ℕ, suc, ◌+◌, String, Bool, true, false, ◌&&◌, ◌||◌, Option, none, some, List, [], ◌∷◌, ◌++◌,
  length, leb, ◌==◌, if◌then◌else◌,
}
use earth2_sandbox.Prelude.Dict.{Dict}
use earth2_sandbox.Domain.Float.{Float}
use earth2_sandbox.Jobs.{ForecastJobDiagnostics}

-- the value of a key: a text, or another value with its `str(...)`
pub data JsonField : Type 0 where
  string : String → JsonField
  other : (printed : String) → JsonField

-- `null`, a dictionary, or another value, these two with their `str(...)`
pub data Json : Type 0 where
  null : Json
  object : (fields : Dict JsonField) (printed : String) → Json
  other : (printed : String) → Json

-- `headers.get(...)` of the five headers that are read; `json` is none where `json()` raises
pub record Response : Type 0 where
  pub status_code : ℕ
  pub nvcf_reqid : Option String
  pub nvcf_status : Option String
  pub content_type : Option String
  pub location : Option String
  pub content : List ℕ
  pub json : Option Json
  pub body_text : String

pub data Method : Type 0 where
  get post : Method

-- the dictionary of `build_hosted_inference_payload`
pub record Payload : Type 0 where
  pub input_id : ℕ
  pub variables : String
  pub simulation_length : ℕ
  pub ensemble_size : ℕ
  pub noise_amplitude : Float

-- A request as it leaves the process: the headers that the client sets, and the JSON body.
pub record Sent : Type 0 where
  pub method : Method
  pub url : String
  pub authorization : Option String
  pub nvcf_poll_seconds : Option String
  pub accept : Option String
  pub json : Option Payload
  pub follow_redirects : Bool

pub data Fetched : Type 0 where
  response : Response → Fetched
  http_error : (type_name message : String) → Fetched
  invalid_url : (message : String) → Fetched

-- What the client is given: the network, and the digest of hashlib.
pub record NimEnv : Type 0 where
  pub transport : ℕ → Sent → Fetched
  pub sha256 : List ℕ → String

-- Ends of a call: FourCastNetInferenceError, httpx.HTTPError, httpx.InvalidURL, which is not one, and
-- the end of a loop's fuel.
pub data Failure : Type 0 where
  inference_error : (message : String) (diagnostics : ForecastJobDiagnostics) → Failure
  http_error : (type_name message : String) → Failure
  invalid_url : (message : String) → Failure

pub data Outcome (A : Type 0) : Type 0 where
  done : A → Outcome A
  failed : Failure → Outcome A
  out_of_fuel : Outcome A

-- Code that sends requests, with those that have been sent.
abbrev pub Http : Type 0 → Type 0
Http A = List Sent → Outcome A × List Sent

module _ {A B : Type 0} where
  abbrev pub after : Outcome A → (A → Http B) → Http B
  after (done a) f sent = f a sent
  after (failed e) f sent = (failed e, sent)
  after out_of_fuel f sent = (out_of_fuel, sent)

  infixl 5 ◌>>=◌
  abbrev pub ◌>>=◌ : Http A → (A → Http B) → Http B
  ◌>>=◌ m f sent = let (outcome, sent') = m sent in after outcome f sent'

module _ {A : Type 0} where
  abbrev pub pure : A → Http A
  pure a sent = (done a, sent)

  abbrev pub raise : Failure → Http A
  raise e sent = (failed e, sent)

abbrev pub fetched : Fetched → Outcome Response
fetched (response r) = done r
fetched (http_error type_name message) = failed (http_error type_name message)
fetched (invalid_url message) = failed (invalid_url message)

-- `await client.get(...)`, `await client.post(...)`
unfoldable pub send : NimEnv → Sent → Http Response
send env request sent = (fetched (env.transport (length sent) request), sent ++ request ∷ [])

-- `response.is_success` of httpx
abbrev pub is_success : Response → Bool
is_success r = leb 200 r.status_code && leb r.status_code 299

abbrev pub has_status : ℕ → Response → Bool
has_status code r = leb r.status_code code && leb code r.status_code

-- `text or fallback`, where an empty text counts as none
abbrev pub or_text : Option String → Option String → Option String
or_text none fallback = fallback
or_text (some t) fallback = if t == "" then fallback else some t

-- `headers.get(name, "")`
abbrev pub or_empty : Option String → String
or_empty none = ""
or_empty (some t) = t

-- Literals of schemas/fourcastnet.py
pub data ResponseSource : Type 0 where
  inline poll redirect response_reference cache : ResponseSource

abbrev pub source_text : ResponseSource → String
source_text inline = "inline"
source_text poll = "poll"
source_text redirect = "redirect"
source_text response_reference = "response_reference"
source_text cache = "cache"

pub data CacheStatus : Type 0 where
  disabled hit miss stored : CacheStatus

abbrev pub cache_text : CacheStatus → String
cache_text disabled = "disabled"
cache_text hit = "hit"
cache_text miss = "miss"
cache_text stored = "stored"

-- FourCastNetHostedInferenceRequest
pub record HostedInferenceRequest : Type 0 where
  pub input_id : ℕ
  pub variables : List String
  pub simulation_length : ℕ
  pub ensemble_size : ℕ
  pub noise_amplitude : Float
  pub accept : String
  pub poll_seconds : ℕ

-- FourCastNetHostedInferenceResult, without what the post-processor adds
pub record HostedInferenceResult : Type 0 where
  pub endpoint : String
  pub status_code : ℕ
  pub content_type : String
  pub byte_length : ℕ
  pub sha256 : String
  pub request_payload : Payload
  pub json_preview : Option Json
  pub nvcf_request_id : Option String
  pub nvcf_status : Option String
  pub large_asset_message : Option String
  pub poll_attempts : ℕ
  pub response_source : ResponseSource
  pub response_reference_present : Bool
  pub cache_status : CacheStatus
  pub cached_artifact_id : Option String
  pub raw_content : Option (List ℕ)
