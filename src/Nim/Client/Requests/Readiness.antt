-- ===== src/Nim/Client/Requests/Readiness.antt =====
-- The readiness of an endpoint, get_readiness_status of
-- src/earth2_sandbox/infrastructure/nvidia/nim_client.py.
use earth2_sandbox.Prelude.{ℕ, String, Bool, true, false, Option, none, some, if◌then◌else◌}
use earth2_sandbox.Prelude.Decimal.{decimal}
use earth2_sandbox.Outcome.{◌⧺◌}
use earth2_sandbox.Nim.{
  Response, Sent, NimEnv, http_error, Outcome, done, failed, out_of_fuel, Http, pure, send,
  has_status,
}
use earth2_sandbox.Nim.Client.{NimClient, EndpointMode, hosted, self_hosted}
use earth2_sandbox.Nim.Client.Requests.{without_slash, download_request, is_hosted, has_key}

-- FourCastNetNimStatus
pub record NimStatus : Type 0 where
  pub mode : EndpointMode
  pub endpoint : String
  pub ready : Bool
  pub configured : Bool
  pub status_code : Option ℕ
  pub detail : String

abbrev pub readiness_url : NimClient → String
readiness_url client = without_slash client.base_url ⧺ "/v1/health/ready"

abbrev pub readiness_request : NimClient → Sent
readiness_request client = record (download_request (readiness_url client)) {
  accept = some "application/json";
}

unfoldable pub readiness_of : NimClient → Response → NimStatus
readiness_of client r = record {
  mode = self_hosted;
  endpoint = readiness_url client;
  ready = has_status 200 r;
  configured = true;
  status_code = some r.status_code;
  detail =
      if has_status 200 r
      then "Self-hosted FourCastNet NIM is ready."
      else "Self-hosted FourCastNet NIM returned " ⧺ decimal r.status_code ⧺ ".";
}

abbrev pub unreachable : NimClient → String → NimStatus
unreachable client message = record {
  mode = self_hosted;
  endpoint = readiness_url client;
  ready = false;
  configured = true;
  status_code = none;
  detail = "Self-hosted FourCastNet NIM readiness check failed: " ⧺ message;
}

-- `except httpx.HTTPError`
abbrev pub with_readiness : NimClient → Outcome Response → Outcome NimStatus
with_readiness client (done r) = done (readiness_of client r)
with_readiness client (failed (http_error type_name message)) = done (unreachable client message)
with_readiness client (failed e) = failed e
with_readiness client out_of_fuel = out_of_fuel

key_status : NimClient → NimStatus
key_status client = record {
  mode = hosted;
  endpoint = client.base_url;
  ready = has_key client;
  configured = has_key client;
  status_code = none;
  detail =
      if has_key client
      then "Hosted FourCastNet API key is configured."
      else "Hosted FourCastNet API key is missing.";
}

-- get_readiness_status
unfoldable pub get_readiness_status : NimEnv → NimClient → Http NimStatus
unfolding readiness_of key_status
get_readiness_status env client = if is_hosted client then pure (key_status client) else λ sent.
    let (outcome, sent') = send env (readiness_request client) sent in
    (with_readiness client outcome, sent')
