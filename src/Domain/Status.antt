-- ===== src/Domain/Status.antt =====
-- src/earth2_sandbox/domain/jobs/status.py
use earth2_sandbox.Prelude.{
  ◌≡◌, ◌↔◌, Bool, true, false, ◌||◌, List, [], ◌∷◌, All, subst, sym, inl, inr, Bool-cases, arith,
}

pub data ForecastJobStatus : Type 0 where
  queued running succeeded failed cancelled : ForecastJobStatus

abbrev pub same_status : ForecastJobStatus → ForecastJobStatus → Bool
same_status queued queued = true
same_status running running = true
same_status succeeded succeeded = true
same_status failed failed = true
same_status cancelled cancelled = true
same_status _ _ = false

pub same_status_iff : (s t : ForecastJobStatus) → (same_status s t ≡ true) ↔ (s ≡ t)
same_status_iff s t = ground arith

-- `status in statuses`
abbrev pub is_in : ForecastJobStatus → List ForecastJobStatus → Bool
is_in s [] = false
is_in s (t ∷ ts) = same_status s t || is_in s ts

abbrev pub terminal_job_statuses : List ForecastJobStatus
terminal_job_statuses = succeeded ∷ failed ∷ cancelled ∷ []

abbrev pub all_job_statuses : List ForecastJobStatus
all_job_statuses = queued ∷ running ∷ succeeded ∷ failed ∷ cancelled ∷ []

abbrev pub active_job_statuses : List ForecastJobStatus
active_job_statuses = queued ∷ running ∷ []

abbrev pub is_terminal_job_status : ForecastJobStatus → Bool
is_terminal_job_status s = is_in s terminal_job_statuses

abbrev pub is_active_job_status : ForecastJobStatus → Bool
is_active_job_status s = is_in s active_job_statuses

-- What holds of the members of a set holds of a status that is in it.
pub All-is_in {κ} :
    (P : ForecastJobStatus → Type κ) (s : ForecastJobStatus) (ts : List ForecastJobStatus)
    → All P ts
    → is_in s ts ≡ true
    → P s
All-is_in P s [] a h = absurd (ground arith)
All-is_in P s (t ∷ ts) a h = elim (Bool-cases (same_status s t)) [
  | inl here ↦ subst P (sym ((same_status_iff s t).0 here)) a.0
  | inr later ↦ All-is_in P s ts a.1 (rw later at h)
]
