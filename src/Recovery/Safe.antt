-- ===== src/Recovery/Safe.antt =====
-- Recovery is a safe task too: it moves jobs only from the statuses that it has just seen.
use earth2_sandbox.Prelude.{ℕ, refl, Option, List, [], ◌∷◌, All, inl, inr, Bool-cases, arith}
use earth2_sandbox.Domain.Policies.{Datetime, should_mark_job_stale}
use earth2_sandbox.Domain.Status.{running, same_status}
use earth2_sandbox.Jobs.{ForecastJob}
use earth2_sandbox.Store.Memory.Invariant.{IsActive}
use earth2_sandbox.Tasks.Safe.{Safe}
use earth2_sandbox.Commands.Safe.{unwrap-Safe, except_transition-Safe}
use earth2_sandbox.Commands.Writes.{timed_out_job-IsWellformed, recovered_job-IsWellformed}
use earth2_sandbox.Recovery.{Counts, Next, recover_job, recover_jobs, recover_interrupted_jobs}

recover_job-Safe :
    (timeout : ℕ) (moment : Datetime) (job : ForecastJob) (next : Next)
    → IsActive job
    → ((c : Counts) → Safe (next c))
    → (c : Counts) → Safe (recover_job timeout moment job next c)
unfolding recover_job
recover_job-Safe timeout moment job next (g, active) s c =
    unwrap-Safe _
      (λ stale. elim (Bool-cases stale) [
        | inl old ↦ rw old (
          (timed_out_job-IsWellformed job g moment timeout active, (refl, (refl, tt))),
          λ r _. except_transition-Safe _ _ (λ _. s _) (λ _. s _) r,
        )
        | inr young ↦ elim (Bool-cases (same_status job.status running)) [
          | inl lost ↦
              rw (young, lost)
                (
                  (recovered_job-IsWellformed job g moment (ground arith), (refl, tt)),
                  λ r _. except_transition-Safe _ _ (λ _. s _) (λ _. s _) r,
                )
          | inr waiting ↦ rw (young, waiting) (s _)
        ]
      ])
      (should_mark_job_stale job.updated_at moment timeout)

recover_jobs-Safe :
    (scanned timeout : ℕ) (moment : Datetime) (jobs : List ForecastJob)
    → All IsActive jobs
    → (c : Counts) → Safe (recover_jobs scanned timeout moment jobs c)
unfolding recover_jobs
recover_jobs-Safe scanned timeout moment [] h c = tt
recover_jobs-Safe scanned timeout moment (job ∷ jobs) h c =
    recover_job-Safe timeout moment job (recover_jobs scanned timeout moment jobs) h.0
      (recover_jobs-Safe scanned timeout moment jobs h.1) c

pub recover_interrupted_jobs-Safe :
    (default : ℕ) (timeout : Option ℕ) → Safe (recover_interrupted_jobs default timeout)
unfolding recover_interrupted_jobs
recover_interrupted_jobs-Safe default timeout moment jobs h = recover_jobs-Safe _ _ moment jobs h _
