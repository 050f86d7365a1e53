-- ===== src/Store/Helpers.antt =====
-- src/earth2_sandbox/infrastructure/storage/job_store_helpers.py
use Prim.Native.Nat.{compare as compare_ℕ, Ordering}
use Prim.Native.String.{compare as compare_text}
use earth2_sandbox.Prelude.{
  ℕ, String, Bool, true, false, Option, none, some, List, [], ◌∷◌, take, keep, ◌==◌, if◌then◌else◌,
}
use earth2_sandbox.Domain.Float.{Float}
use earth2_sandbox.Domain.Policies.{Datetime, can_transition_from}
use earth2_sandbox.Domain.Status.{ForecastJobStatus, queued, same_status}
use earth2_sandbox.Domain.Entities.{
  ForecastJobIdentity, ForecastJobCoordinates, ForecastJobAttempt, parse, new_coordinates,
  new_attempt,
}
use earth2_sandbox.Outcome.{Result, ok, err, not_found, transition}
use earth2_sandbox.Jobs.{ForecastJob, no_diagnostics}
use earth2_sandbox.World.{Env, Action, ◌>>=◌, lift, pure, now, new_id}

parse_parent : Option String → Result (Option ForecastJobIdentity)
unfolding parse
parse_parent none = ok none
parse_parent (some parent_job_id) = elim (parse parent_job_id) [
  | ok identity ↦ ok (some identity)
  | err e ↦ err e
]

abbrev value_of : Option ForecastJobIdentity → Option String
value_of none = none
value_of (some identity) = some identity.value

-- "..." if parent_job_id else "...": the empty text counts as no parent
abbrev accepted_message : Option String → String
accepted_message none = "Forecast job accepted."
accepted_message (some parent) =
    if parent == "" then "Forecast job accepted." else "Forecast retry accepted."

abbrev queued_job :
    ForecastJobCoordinates
    → Option ForecastJobIdentity
    → ForecastJobAttempt
    → Datetime
    → ForecastJobIdentity
    → String
    → ForecastJob
queued_job coordinates parent job_attempt moment job_identity message = record {
  id = job_identity.value;
  status = queued;
  latitude = coordinates.latitude;
  longitude = coordinates.longitude;
  parent_job_id = value_of parent;
  attempt = job_attempt.value;
  created_at = moment;
  updated_at = moment;
  started_at = none;
  completed_at = none;
  forecast = none;
  diagnostics = some (record no_diagnostics { message = some "Waiting for forecast worker." });
  events = record { occurred_at = moment; status = queued; message = message } ∷ [];
  error = none;
  links = [];
}

unfoldable pub build_new_job : Env → Float → Float → Option String → ℕ → Action ForecastJob
unfolding new_coordinates parse_parent new_attempt parse
build_new_job env latitude longitude parent_job_id attempt = do
  coordinates ← lift (new_coordinates latitude longitude)
  parent ← lift (parse_parent parent_job_id)
  job_attempt ← lift (new_attempt attempt parent)
  moment ← now env
  id ← new_id env
  job_identity ← lift (parse id)
  pure (
      queued_job coordinates parent job_attempt moment job_identity
        (accepted_message parent_job_id))

unfoldable pub normalize_job_id : String → Result String
unfolding parse
normalize_job_id job_id = elim (parse job_id) [
  | ok identity ↦ ok identity.value
  | err _ ↦ err (not_found job_id)
]

unfoldable pub prepare_job_for_update : Env → ForecastJob → Action ForecastJob
unfolding normalize_job_id
prepare_job_for_update env job = do
  normalized_job_id ← lift (normalize_job_id job.id)
  moment ← now env
  pure (record job { id = normalized_job_id; updated_at = moment })

unfoldable pub ensure_transition_allowed : ForecastJob → List ForecastJobStatus → Result (Unit {0})
unfolding can_transition_from
ensure_transition_allowed current expected_statuses =
    if can_transition_from current.status expected_statuses
    then ok tt
    else err (transition current.id current.status expected_statuses)

-- The key (created_at, id) of the first job is smaller than that of the second.
abbrev pub key_lt : ForecastJob → ForecastJob → Bool
key_lt a b = elim (compare_ℕ a.created_at b.created_at) [
  | Ordering.lt ↦ true
  | Ordering.gt ↦ false
  | Ordering.eq ↦ elim (compare_text a.id b.id) [ Ordering.lt ↦ true | _ ↦ false ]
]

-- `sorted(..., reverse=True)`, which is stable
unfoldable pub insert_job : ForecastJob → List ForecastJob → List ForecastJob
insert_job a [] = a ∷ []
insert_job a (b ∷ bs) = if key_lt a b then b ∷ insert_job a bs else a ∷ b ∷ bs

unfoldable pub sort_jobs : List ForecastJob → List ForecastJob
unfolding insert_job
sort_jobs [] = []
sort_jobs (a ∷ as') = insert_job a (sort_jobs as')

abbrev pub has_status : Option ForecastJobStatus → ForecastJob → Bool
has_status none job = true
has_status (some status) job = same_status job.status status

-- `limit` is at least 1: a slice with a negative end is not modelled
unfoldable pub sort_and_filter_jobs :
    List ForecastJob → ℕ → Option ForecastJobStatus → List ForecastJob
unfolding sort_jobs
sort_and_filter_jobs jobs limit status = take limit (sort_jobs (keep (has_status status) jobs))
