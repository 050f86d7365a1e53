-- ===== src/Tests/Counters.antt =====
-- A registry that has seen two requests to one route and a job.
use earth2_sandbox.Prelude.{ℕ, ◌+◌, ◌≡◌, refl, some, [], ◌∷◌, List, keep, length}
use earth2_sandbox.Metrics.{
  Labels, Numbers, HttpRequest, render_lines, record_http_request, put,
  increment_forecast_job_event, event_labels, new_registry, get_or, http_labels, escape_label_value,
  sample,
}
use earth2_sandbox.Metrics.Counts.{
  Report, http, job_event, play, is_http, is_event, total, play_lem,
}
use earth2_sandbox.Metrics.Escape.{read_value, quoted, read_value-escape_label_value}

abbrev whole_seconds : Numbers ℕ
whole_seconds = record {
  zero = 0;
  add = λ m n. m + n;
  float_text = λ n. "0.0";
  upper = λ text. text;
}

abbrev get_jobs : HttpRequest ℕ
get_jobs = record { method = "GET"; path = "/jobs"; status_code = 200; duration_seconds = 2 }

abbrev seen : List (Report ℕ)
seen = http get_jobs ∷ job_event "accepted" ∷ http (record get_jobs { duration_seconds = 3 }) ∷ []

abbrev get_jobs_labels : Labels
get_jobs_labels = ("method", "GET") ∷ ("path", "/jobs") ∷ ("status_code", "200") ∷ []

labels_are_sorted : http_labels whole_seconds get_jobs ≡ get_jobs_labels
unfolding http_labels
labels_are_sorted = refl

a_sample : sample "jobs" (("event", "a\"b") ∷ []) "2" ≡ "jobs{event=\"a\\\"b\"} 2"
unfolding sample
a_sample = refl

play_lem_example :
    (get_or (play whole_seconds seen new_registry).http_request_counts get_jobs_labels 0
      ≡ length (keep (is_http whole_seconds get_jobs_labels) seen))
    × (get_or (play whole_seconds seen new_registry).forecast_job_counts get_jobs_labels 0
        ≡ length (keep (is_event whole_seconds get_jobs_labels) seen))
    × (get_or (play whole_seconds seen new_registry).http_request_duration_sums get_jobs_labels 0
        ≡ total whole_seconds get_jobs_labels seen 0)
play_lem_example = play_lem whole_seconds seen get_jobs_labels

read_value-escape_label_value_example :
    read_value (quoted (escape_label_value "a\"b\\") "} 2") ≡ some ("a\"b\\", "} 2")
read_value-escape_label_value_example = read_value-escape_label_value "a\"b\\" "} 2"

rendered :
    render_lines whole_seconds (play whole_seconds seen new_registry)
    ≡ "# HELP earth2_http_requests_total Total HTTP requests observed by the backend."
      ∷ "# TYPE earth2_http_requests_total counter"
      ∷ "earth2_http_requests_total{method=\"GET\",path=\"/jobs\",status_code=\"200\"} 2"
      ∷ "# HELP earth2_http_request_duration_seconds HTTP request duration in seconds."
      ∷ "# TYPE earth2_http_request_duration_seconds summary"
      ∷ "earth2_http_request_duration_seconds_count{method=\"GET\",path=\"/jobs\",status_code=\"200\"} 2"
      ∷ "earth2_http_request_duration_seconds_sum{method=\"GET\",path=\"/jobs\",status_code=\"200\"} 0.0"
      ∷ "# HELP earth2_forecast_jobs_total Total forecast job lifecycle events."
      ∷ "# TYPE earth2_forecast_jobs_total counter"
      ∷ "earth2_forecast_jobs_total{event=\"accepted\"} 1" ∷ []
unfolding render_lines play record_http_request put increment_forecast_job_event http_labels get_or
    event_labels
rendered = refl
