-- ===== src/Commands/Cleanup/Outcome.antt =====
-- What a cleanup that nothing interrupts returns and leaves behind.
use earth2_sandbox.Prelude.{
  ℕ, zero, suc, ◌+◌, ◌≡◌, ◌≤◌, ◌-◌, refl, ap, sym, ◌∙◌, true, false, String, Bool, ◌&&◌, Option,
  none, some, List, [], ◌∷◌, keep, length, leb, ltb, if◌then◌else◌, arith,
}
use earth2_sandbox.Prelude.Dict
use earth2_sandbox.Domain.Policies.{minus_timedelta, hours, or_datetime, should_cleanup_job}
use earth2_sandbox.Domain.Status.{
  ForecastJobStatus, queued, running, succeeded, failed, cancelled, is_in, terminal_job_statuses,
}
use earth2_sandbox.Outcome.{ok}
use earth2_sandbox.Jobs.{ForecastJob}
use earth2_sandbox.World.{Env, World}
use earth2_sandbox.Store.Memory.{expired}
use earth2_sandbox.Store.Memory.Invariant.{IsConsistent}
use earth2_sandbox.Store.Memory.Laws.{ticked}
use earth2_sandbox.Store.Memory.Deletion.{delete_older_than_lem, remaining}
use earth2_sandbox.Tasks.{run}
use earth2_sandbox.Commands.Cleanup.{or_number, or_terminal, sorted_set, cleanup_forecast_jobs}

-- the number that a call means: none, or 0, leaves it to the service
abbrev pub Lasts : Option ℕ → ℕ → ℕ → Type 0
Lasts none default n = n ≡ default
Lasts (some zero) default n = n ≡ default
Lasts (some (suc m)) default n = n ≡ suc m

pub Lasts-or_number :
    (asked : Option ℕ) (default : ℕ) → Lasts asked default (or_number asked default)
Lasts-or_number none default = refl
Lasts-or_number (some zero) default = refl
Lasts-or_number (some (suc m)) default = refl

pub or_number-Lasts :
    (asked : Option ℕ) (default n : ℕ) → Lasts asked default n → or_number asked default ≡ n
or_number-Lasts none default n h = sym h
or_number-Lasts (some zero) default n h = sym h
or_number-Lasts (some (suc m)) default n h = sym h

abbrev pub has_ended : ForecastJobStatus → Bool
has_ended succeeded = true
has_ended failed = true
has_ended cancelled = true
has_ended queued = false
has_ended running = false

terminal-has_ended :
    (s : ForecastJobStatus) → is_in s (sorted_set terminal_job_statuses) ≡ has_ended s
terminal-has_ended succeeded = refl
terminal-has_ended failed = refl
terminal-has_ended cancelled = refl
terminal-has_ended queued = refl
terminal-has_ended running = refl

-- the statuses of a call: none asked for are those of jobs that have ended
abbrev pub is_asked : Option (List ForecastJobStatus) → ForecastJobStatus → Bool
is_asked none s = has_ended s
is_asked (some []) s = has_ended s
is_asked (some (first ∷ more)) s = is_in s (first ∷ more)

or_terminal-is_asked :
    (statuses : Option (List ForecastJobStatus)) (s : ForecastJobStatus)
    → is_in s (or_terminal statuses) ≡ is_asked statuses s
or_terminal-is_asked none s = terminal-has_ended s
or_terminal-is_asked (some []) s = terminal-has_ended s
or_terminal-is_asked (some (first ∷ more)) s = refl

-- when a job ended: the end that is stored, or else its last update
abbrev pub end_of : Option ℕ → ℕ → ℕ
end_of none updated = updated
end_of (some t) updated = t

-- A job with one of the statuses asked for that ended more than `period` before `moment`.
abbrev pub is_due : ℕ → ℕ → Option (List ForecastJobStatus) → ForecastJob → Bool
is_due moment period statuses job =
    is_asked statuses job.status
    && leb (suc (end_of job.completed_at job.updated_at + period)) moment

before-end_of :
    (moment period : ℕ) (o : Option ℕ) (updated : ℕ)
    → period ≤ moment
    → ltb (or_datetime o updated) (moment - period) ≡ leb (suc (end_of o updated + period)) moment
before-end_of moment period none updated h = ground arith
before-end_of moment period (some t) updated h = ground arith

and_if : (a b : Bool) → (if a then b else false) ≡ a && b
and_if true b = refl
and_if false b = refl

expired-is_due :
    (moment period : ℕ) (statuses : Option (List ForecastJobStatus)) (job : ForecastJob)
    → period ≤ moment
    → expired (moment - period) (or_terminal statuses) job ≡ is_due moment period statuses job
unfolding should_cleanup_job expired
expired-is_due moment period statuses job h =
    rw
      (
        sym (or_terminal-is_asked statuses job.status),
        sym (before-end_of moment period job.completed_at job.updated_at h),
      )
      (and_if (is_in job.status (or_terminal statuses))
        (ltb (or_datetime job.completed_at job.updated_at) (moment - period)))

-- what is left of a stored job
abbrev pub left : ℕ → ℕ → Option (List ForecastJobStatus) → Option ForecastJob → Option ForecastJob
left moment period statuses none = none
left moment period statuses (some job) =
    if is_due moment period statuses job then none else some job

left-remaining :
    (moment period : ℕ) (statuses : Option (List ForecastJobStatus)) (o : Option ForecastJob)
    → period ≤ moment
    → remaining (moment - period) (or_terminal statuses) o ≡ left moment period statuses o
left-remaining moment period statuses none h = refl
left-remaining moment period statuses (some job) h =
    rw (expired-is_due moment period statuses job h) refl

-- Cleaning up a consistent table that nothing else touches meanwhile, with a retention that does not
-- pass the start of the calendar: a number of hours that is asked for and is not 0 is the retention,
-- and else the service's. Exactly the jobs that ended more than that before now, their last update
-- counting as the end where none is stored, and that have one of the statuses asked for, by default
-- those of jobs that ended, are deleted; every other job stays as it is; and the response has
-- their number, the cutoff and these statuses in alphabetical order.
pub cleanup_forecast_jobs_lem :
    (env : Env) (default_hours : ℕ) (older_than : Option ℕ)
    (statuses : Option (List ForecastJobStatus)) (w : World) (n : ℕ)
    → IsConsistent w.jobs
    → Lasts older_than default_hours n
    → hours n ≤ env.clock w.clock_reads
    → let (r, w') = run env (cleanup_forecast_jobs default_hours older_than statuses) w in
      let moment = env.clock w.clock_reads in
      (r
        ≡ ok (record {
          deleted_count = length (keep (is_due moment (hours n) statuses) (Dict.values w.jobs));
          cutoff = moment - hours n;
          statuses =
              keep (is_asked statuses) (cancelled ∷ failed ∷ queued ∷ running ∷ succeeded ∷ []);
        }))
      × ((key : String)
          → Dict.get w'.jobs key ≡ left moment (hours n) statuses (Dict.get w.jobs key))
unfolding cleanup_forecast_jobs run minus_timedelta
cleanup_forecast_jobs_lem env default_hours older_than statuses w n c lasts h =
    let moment = env.clock w.clock_reads in
    let (done, gone) =
      delete_older_than_lem (moment - hours n) (or_terminal statuses) (ticked w) c in
    let fits : leb (hours n) moment ≡ true = ground arith in
    let due : expired (moment - hours n) (or_terminal statuses) ≡ is_due moment (hours n) statuses =
      λ i job. expired-is_due moment (hours n) statuses job h i in
    let asked : (λ s. is_in s (or_terminal statuses)) ≡ is_asked statuses =
      λ i s. or_terminal-is_asked statuses s i in
    rw (or_number-Lasts older_than default_hours n lasts, fits, run, done, run)
      (
        ap
            (λ (p : (ForecastJob → Bool) × (ForecastJobStatus → Bool)). ok (record {
              deleted_count = length (keep p.0 (Dict.values w.jobs));
              cutoff = moment - hours n;
              statuses = keep p.1 (cancelled ∷ failed ∷ queued ∷ running ∷ succeeded ∷ []);
            }))
            (λ i. (due i, asked i)),
        λ key. gone key ∙ left-remaining moment (hours n) statuses (Dict.get w.jobs key) h,
      )
