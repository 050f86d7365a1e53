-- ===== src/Domain/Entities.antt =====
-- src/earth2_sandbox/domain/jobs/entities.py
use earth2_sandbox.Prelude.{
  ℕ, String, Bool, true, false, ◌&&◌, Option, none, some, ltb, leb, is_some, if◌then◌else◌,
}
use earth2_sandbox.Domain.Float.{Float, is_within}
use earth2_sandbox.Domain.Uuid.{parse_uuid}
use earth2_sandbox.Outcome.{Result, ok, err, invalid_identity, invalid_coordinates, invalid_attempt}

pub record ForecastJobIdentity : Type 0 where
  pub value : String

abbrev identity_of : String → Option String → Result ForecastJobIdentity
identity_of value none = err (invalid_identity value)
identity_of value (some parsed) = ok (record { value = parsed })

-- ForecastJobIdentity.parse
unfoldable pub parse : String → Result ForecastJobIdentity
parse value = identity_of value (parse_uuid value)

pub record ForecastJobCoordinates : Type 0 where
  pub latitude : Float
  pub longitude : Float

-- the constructor, with `__post_init__`
unfoldable pub new_coordinates : Float → Float → Result ForecastJobCoordinates
new_coordinates latitude longitude =
    if is_within 90 latitude
    then if is_within 180 longitude
      then ok (record { latitude = latitude; longitude = longitude })
      else err (invalid_coordinates "longitude must be between -180 and 180")
    else err (invalid_coordinates "latitude must be between -90 and 90")

pub record ForecastJobAttempt : Type 0 where
  pub value : ℕ
  pub parent_job_id : Option ForecastJobIdentity

abbrev is_none {ℓ} : {A : Type ℓ} → Option A → Bool
is_none none = true
is_none (some a) = false

-- the constructor, with `__post_init__`
unfoldable pub new_attempt : ℕ → Option ForecastJobIdentity → Result ForecastJobAttempt
new_attempt value parent =
    if ltb value 1
    then err (invalid_attempt "attempt must be greater than or equal to 1")
    else if leb value 1 && leb 1 value && is_some parent
    then err (invalid_attempt "first attempts cannot reference a parent job")
    else if ltb 1 value && is_none parent
    then err (invalid_attempt "retry attempts must reference a parent job")
    else ok (record { value = value; parent_job_id = parent })
