-- ===== src/Metrics/Counts.antt =====
-- What the registry of src/earth2_sandbox/observability/metrics.py has counted.
use earth2_sandbox.Prelude.{
  ◌+◌, ◌≡◌, ◌↔◌, refl, ap, subst, ◌∙◌, String, Bool, true, false, List, [], ◌∷◌, keep, length,
  eq_iff, eq_refl, if◌then◌else◌, arith,
}
use earth2_sandbox.Metrics.{
  Labels, Numbers, HttpRequest, MetricsRegistry, Samples, new_registry, same_labels, get_or, put,
  http_labels, event_labels, record_http_request, increment_forecast_job_event,
}

same_labels_self : (ls : Labels) → same_labels ls ls ≡ true
same_labels_self [] = refl
same_labels_self ((k, v) ∷ ls) = rw (eq_refl k, eq_refl v) (same_labels_self ls)

eq_of_same_labels : (ks ls : Labels) → same_labels ks ls ≡ true → ks ≡ ls
eq_of_same_labels [] [] h = refl
eq_of_same_labels [] (l ∷ ls) h = absurd (ground (arith, h))
eq_of_same_labels (k ∷ ks) [] h = absurd (ground (arith, h))
eq_of_same_labels ((k, v) ∷ ks) ((l, w) ∷ ls) h =
    let rest = eq_of_same_labels ks ls (ground (arith, h)) in
    ground (arith, h, eq_iff k l, eq_iff v w, rest)

same_labels_iff : (ks ls : Labels) → (same_labels ks ls ≡ true) ↔ (ks ≡ ls)
same_labels_iff ks ls =
    (eq_of_same_labels ks ls, λ e. subst (λ ms. same_labels ks ms ≡ true) e (same_labels_self ks))

get_or-put :
    {V : Type 0} (samples : Samples V) (ks ls : Labels) (v default : V)
    → get_or (put samples ks v) ls default
      ≡ (if same_labels ks ls then v else get_or samples ls default)
unfolding get_or put
get_or-put [] ks ls v default = refl
get_or-put ((ms, w) ∷ samples) ks ls v default = ground (
  arith,
  same_labels_iff ms ks,
  same_labels_iff ms ls,
  same_labels_iff ks ls,
  get_or-put samples ks ls v default,
)

-- What is reported to the registry.
pub data Report (F : Type 0) : Type 0 where
  http : HttpRequest F → Report F
  job_event : String → Report F

module _ {F : Type 0} (numbers : Numbers F) where
  unfoldable pub play : List (Report F) → MetricsRegistry F → MetricsRegistry F
  play [] registry = registry
  play (http request ∷ reports) registry =
      play reports (record_http_request numbers request registry)
  play (job_event event ∷ reports) registry =
      play reports (increment_forecast_job_event numbers event registry)

  abbrev pub is_http : Labels → Report F → Bool
  is_http labels (http request) = same_labels (http_labels numbers request) labels
  is_http labels (job_event event) = false

  abbrev pub is_event : Labels → Report F → Bool
  is_event labels (http request) = false
  is_event labels (job_event event) = same_labels (event_labels numbers event) labels

  -- the durations of the requests with these labels, added up as they come
  abbrev pub total : Labels → List (Report F) → F → F
  total labels [] sum = sum
  total labels (http request ∷ reports) sum = total labels reports (
      if same_labels (http_labels numbers request) labels
      then numbers.add sum request.duration_seconds
      else sum)
  total labels (job_event event ∷ reports) sum = total labels reports sum

  play_http :
      (reports : List (Report F)) (registry : MetricsRegistry F) (labels : Labels)
      → get_or (play reports registry).http_request_counts labels 0
        ≡ get_or registry.http_request_counts labels 0 + length (keep (is_http labels) reports)
  unfolding play record_http_request increment_forecast_job_event
  play_http [] registry labels = omega arith
  play_http (http request ∷ reports) registry labels =
      let before = registry.http_request_counts in
      let own = http_labels numbers request in
      ground (
        arith,
        play_http reports (record_http_request numbers request registry) labels,
        get_or-put before own labels (get_or before own 0 + 1) 0,
        same_labels_iff own labels,
      )
  play_http (job_event event ∷ reports) registry labels =
      play_http reports (increment_forecast_job_event numbers event registry) labels

  play_events :
      (reports : List (Report F)) (registry : MetricsRegistry F) (labels : Labels)
      → get_or (play reports registry).forecast_job_counts labels 0
        ≡ get_or registry.forecast_job_counts labels 0 + length (keep (is_event labels) reports)
  unfolding play record_http_request increment_forecast_job_event
  play_events [] registry labels = omega arith
  play_events (http request ∷ reports) registry labels =
      play_events reports (record_http_request numbers request registry) labels
  play_events (job_event event ∷ reports) registry labels =
      let before = registry.forecast_job_counts in
      let own = event_labels numbers event in
      ground (
        arith,
        play_events reports (increment_forecast_job_event numbers event registry) labels,
        get_or-put before own labels (get_or before own 0 + 1) 0,
        same_labels_iff own labels,
      )

  play_durations :
      (reports : List (Report F)) (registry : MetricsRegistry F) (labels : Labels)
      → get_or (play reports registry).http_request_duration_sums labels numbers.zero
        ≡ total labels reports (get_or registry.http_request_duration_sums labels numbers.zero)
  unfolding play record_http_request increment_forecast_job_event
  play_durations [] registry labels = refl
  play_durations (http request ∷ reports) registry labels =
      let sums = registry.http_request_duration_sums in
      let own = http_labels numbers request in
      play_durations reports (record_http_request numbers request registry) labels
      ∙ ap (total labels reports) (
          get_or-put sums own labels
            (numbers.add (get_or sums own numbers.zero) request.duration_seconds) numbers.zero
          ∙ ground (arith, same_labels_iff own labels))
  play_durations (job_event event ∷ reports) registry labels =
      play_durations reports (increment_forecast_job_event numbers event registry) labels

  -- Whatever is reported to a new registry, in whatever order: under any labels, it has counted exactly
  -- the requests and the events with these labels, and has added up the durations of these requests
  -- as they came.
  pub play_lem :
      (reports : List (Report F)) (labels : Labels)
      → let registry = play reports new_registry in
        (get_or registry.http_request_counts labels 0 ≡ length (keep (is_http labels) reports))
        × (get_or registry.forecast_job_counts labels 0 ≡ length (keep (is_event labels) reports))
        × (get_or registry.http_request_duration_sums labels numbers.zero
            ≡ total labels reports numbers.zero)
  play_lem reports labels = (
    unfold get_or in omega (arith, play_http reports new_registry labels),
    unfold get_or in omega (arith, play_events reports new_registry labels),
    unfold get_or in play_durations reports new_registry labels,
  )
