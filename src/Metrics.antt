-- ===== src/Metrics.antt =====
-- src/earth2_sandbox/observability/metrics.py. A method holds the lock while it touches the registry.
-- Durations are floats: their type, their sum and their text are parameters, as `str.upper` is. A
-- dictionary with label tuples as keys is an association list.
pub mod Counts
pub mod Escape
use Prim.Native.Char.{Char}
use Prim.Native.Nat.{Ordering}
use Prim.Native.String.{compare, then as or_next}
use earth2_sandbox.Prelude.{
  ℕ, suc, ◌+◌, ◌++◌, String, Bool, true, false, ◌&&◌, Option, none, some, List, [], ◌∷◌, map, ◌==◌,
  if◌then◌else◌,
}
use earth2_sandbox.Prelude.Decimal.{decimal}
use earth2_sandbox.Prelude.Text.{same_char}
use earth2_sandbox.Outcome.{◌⧺◌}

abbrev pub Labels : Type 0
Labels = List (String × String)

-- what the registry is given of other code
pub record Numbers (F : Type 0) : Type 0 where
  pub zero : F
  pub add : F → F → F
  pub float_text : F → String
  pub upper : String → String

pub record HttpRequest (F : Type 0) : Type 0 where
  pub method : String
  pub path : String
  pub status_code : ℕ
  pub duration_seconds : F

abbrev pub same_labels : Labels → Labels → Bool
same_labels [] [] = true
same_labels [] (l ∷ ls) = false
same_labels (k ∷ ks) [] = false
same_labels ((k, v) ∷ ks) ((l, w) ∷ ls) = k == l && v == w && same_labels ks ls

abbrev pub Samples : Type 0 → Type 0
Samples V = List (Labels × V)

module _ {V : Type 0} where
  -- samples.get(labels, default)
  unfoldable pub get_or : Samples V → Labels → V → V
  get_or [] labels default = default
  get_or ((ls, v) ∷ samples) labels default =
      if same_labels ls labels then v else get_or samples labels default

  -- samples[labels] = v
  unfoldable pub put : Samples V → Labels → V → Samples V
  put [] labels v = (labels, v) ∷ []
  put ((ls, w) ∷ samples) labels v =
      if same_labels ls labels then (ls, v) ∷ samples else (ls, w) ∷ put samples labels v

pub record MetricsRegistry (F : Type 0) : Type 0 where
  pub http_request_counts : Samples ℕ
  pub http_request_duration_sums : Samples F
  pub forecast_job_counts : Samples ℕ

abbrev pub new_registry : {F : Type 0} → MetricsRegistry F
new_registry = record {
  http_request_counts = [];
  http_request_duration_sums = [];
  forecast_job_counts = [];
}

-- tuples are compared from the left
abbrev pub is_before : Ordering → Bool
is_before Ordering.lt = true
is_before _ = false

abbrev pub compare_pairs : String × String → String × String → Ordering
compare_pairs (k, v) (l, w) = or_next (compare k l) (compare v w)

abbrev pub compare_labels : Labels → Labels → Ordering
compare_labels [] [] = Ordering.eq
compare_labels [] (l ∷ ls) = Ordering.lt
compare_labels (k ∷ ks) [] = Ordering.gt
compare_labels (k ∷ ks) (l ∷ ls) = or_next (compare_pairs k l) (compare_labels ks ls)

module _ {A : Type 0} (order : A → A → Ordering) where
  unfoldable pub insert_sorted : A → List A → List A
  insert_sorted a [] = a ∷ []
  insert_sorted a (b ∷ bs) = if is_before (order b a) then b ∷ insert_sorted a bs else a ∷ b ∷ bs

  -- `sorted(...)`
  unfoldable pub sort : List A → List A
  unfolding insert_sorted
  sort [] = []
  sort (a ∷ as') = insert_sorted a (sort as')

-- `_labels(**labels)`, in the order of the keyword arguments
unfoldable pub labels_of : Labels → Labels
unfolding sort
labels_of labels = sort compare_pairs labels

module _ {F : Type 0} (numbers : Numbers F) where
  unfoldable pub http_labels : HttpRequest F → Labels
  unfolding labels_of decimal
  http_labels request = labels_of (
      ("method", numbers.upper request.method)
      ∷ ("path", request.path)
      ∷ ("status_code", decimal request.status_code)
      ∷ [])

  unfoldable pub record_http_request : HttpRequest F → MetricsRegistry F → MetricsRegistry F
  record_http_request request registry =
      let labels = http_labels request in
      let sums = registry.http_request_duration_sums in
      record registry {
        http_request_counts =
            put registry.http_request_counts labels
              (get_or registry.http_request_counts labels 0 + 1);
        http_request_duration_sums =
            put sums labels
              (numbers.add (get_or sums labels numbers.zero) request.duration_seconds);
      }

  unfoldable pub event_labels : String → Labels
  unfolding labels_of
  event_labels event = labels_of (("event", event) ∷ [])

  unfoldable pub increment_forecast_job_event : String → MetricsRegistry F → MetricsRegistry F
  increment_forecast_job_event event registry =
      let labels = event_labels event in
      record registry {
        forecast_job_counts =
            put registry.forecast_job_counts labels
              (get_or registry.forecast_job_counts labels 0 + 1);
      }

abbrev pub backslash : Char
backslash = "\\"

abbrev pub quote : Char
quote = "\""

-- `value.replace(a, b)` of a text `a` of one character, given by its code, and `b` of two
unfoldable pub replace_char : ℕ → Char → Char → String → String
replace_char n first second String.[] = ""
replace_char n first second (String.◌∷◌ c text) =
    let rest = replace_char n first second text in
    if same_char c n then String.◌∷◌ first (String.◌∷◌ second rest) else String.◌∷◌ c rest

unfoldable pub escape_label_value : String → String
unfolding replace_char
escape_label_value value =
    replace_char 34 backslash quote
      (replace_char 10 backslash "n" (replace_char 92 backslash backslash value))

-- `key="value"` of a label
abbrev pub label_text : String × String → String
label_text (key, value) = key ⧺ ("=\"" ⧺ (escape_label_value value ⧺ "\""))

abbrev pub join : String → List String → String
join separator [] = ""
join separator (t ∷ []) = t
join separator (t ∷ u ∷ texts) = t ⧺ (separator ⧺ join separator (u ∷ texts))

unfoldable pub sample : String → Labels → String → String
unfolding escape_label_value
sample name labels value =
    let text = join "," (map label_text labels) in
    let suffix = if text == "" then "" else "{" ⧺ (text ⧺ "}") in name ⧺ (suffix ⧺ (" " ⧺ value))

abbrev pub samples_text : {V : Type 0} → String → (V → String) → Samples V → List String
samples_text name text samples = map (λ entry. sample name entry.0 (text entry.1)) samples

-- sorted(samples.items()): the labels of two entries differ
abbrev pub sorted_items : {V : Type 0} → Samples V → Samples V
sorted_items samples = sort (λ a b. compare_labels a.0 b.0) samples

-- the lines of `render_prometheus`, which ends each with a line feed
unfoldable pub render_lines : {F : Type 0} → Numbers F → MetricsRegistry F → List String
unfolding sample sort decimal
render_lines numbers registry =
    let http_counts = sorted_items registry.http_request_counts in
    let duration_sums = sorted_items registry.http_request_duration_sums in
    let job_counts = sorted_items registry.forecast_job_counts in
    "# HELP earth2_http_requests_total Total HTTP requests observed by the backend."
    ∷ "# TYPE earth2_http_requests_total counter"
    ∷ (samples_text "earth2_http_requests_total" decimal http_counts
        ++ ("# HELP earth2_http_request_duration_seconds HTTP request duration in seconds."
            ∷ "# TYPE earth2_http_request_duration_seconds summary"
            ∷ (samples_text "earth2_http_request_duration_seconds_count" decimal http_counts
                ++ (samples_text "earth2_http_request_duration_seconds_sum" numbers.float_text
                      duration_sums
                    ++ ("# HELP earth2_forecast_jobs_total Total forecast job lifecycle events."
                        ∷ "# TYPE earth2_forecast_jobs_total counter"
                        ∷ samples_text "earth2_forecast_jobs_total" decimal job_counts)))))
