-- ===== src/Recovery/Rounds.antt =====
-- One round of the recovery, on a job that is as it was scanned.
use mathlib.Core.List.{append-nil}
use earth2_sandbox.Prelude.{
  ℕ, ◌+◌, ◌≤◌, ◌-◌, ◌≡◌, refl, ap, sym, true, false, Bool, some, List, [], ◌∷◌, ◌++◌, leb, inl, inr,
  Bool-cases, ◌==◌, arith, if◌then◌else◌,
}
use earth2_sandbox.Prelude.Dict
use earth2_sandbox.Prelude.Dict.{Dict, get-put}
use earth2_sandbox.Domain.Policies.{Datetime, should_mark_job_stale, seconds}
use earth2_sandbox.Domain.Status.{
  ForecastJobStatus, is_in, running, same_status, active_job_statuses,
}
use earth2_sandbox.Domain.Uuid.{parse_uuid}
use earth2_sandbox.Outcome.{Result}
use earth2_sandbox.Jobs.{ForecastJob}
use earth2_sandbox.World.{Env, World}
use earth2_sandbox.Store.Memory.Laws.{stamped, written, update_allowed}
use earth2_sandbox.Tasks.{Task, update_if_status, except_transition, run}
use earth2_sandbox.Recovery.{
  ForecastJobRecoveryReport, Counts, Next, timed_out_job, recovered_job, mark_timed_out,
  recover_job, hand_over,
}
use earth2_sandbox.Recovery.Scan.{Waits, Waits-put}

-- The last update of a job is at least `timeout` seconds before `moment`.
abbrev pub is_stale : ℕ → Datetime → ForecastJob → Bool
is_stale timeout moment job = leb (job.updated_at + seconds timeout) moment

abbrev pub counted : Bool → Counts → Counts
counted stale c =
    if stale
    then record c { timed_out = c.timed_out + 1 }
    else record c { requeued = c.requeued + 1 }

-- One round of the loop fails a stale job, enqueues any other, and leaves the other jobs.
abbrev pub Round :
    Env
    → Bool
    → ForecastJob
    → Next
    → Counts
    → World
    → Result ForecastJobRecoveryReport × World
    → Type 0
Round env stale job next c w out =
    (w' : World) × (out ≡ run env (next (counted stale c)) w')
    × (w'.enqueued ≡ w.enqueued ++ (if stale then [] else job.id ∷ []))
    × ((j : ForecastJob) → (job.id == j.id) ≡ false → Waits w.jobs j → Waits w'.jobs j)

module _ {A : Type 0} (env : Env) (new : ForecastJob) (expected : List ForecastJobStatus)
    (f : ForecastJob → Task A) (handler : ForecastJobStatus → Task A) (w : World)
    (old : ForecastJob) (canonical : parse_uuid new.id ≡ some new.id)
    (found : Dict.get w.jobs new.id ≡ some old) where
  resume : Result ForecastJob × World → Result A × World
  unfolding run
  resume (r, v) = run env (except_transition f handler r) v

  run_allowed :
      is_in old.status expected ≡ true
      → run env (update_if_status new expected (except_transition f handler)) w
        ≡ run env (f (stamped env w new)) (written env new w)
  unfolding run resume
  run_allowed h = ap resume (update_allowed env new old expected w canonical found h)

module _ (env : Env) (timeout : ℕ) (moment : Datetime) (job : ForecastJob) (next : Next)
    (c : Counts) (w : World) (k : Waits w.jobs job) where
  mark_timed_out-Round :
      Round env true job next c w (run env (mark_timed_out job moment timeout next c) w)
  unfolding mark_timed_out timed_out_job
  mark_timed_out-Round = (
    written env (timed_out_job job moment timeout) w,
    run_allowed env (timed_out_job job moment timeout) active_job_statuses _ _ w job k.0 k.1 k.2,
    sym (append-nil w.enqueued),
    λ j other h. Waits-put w.jobs (stamped env w (timed_out_job job moment timeout)) j other h,
  )

  -- a running job goes back to the queue
  hand_back-Round :
      same_status job.status running ≡ true
      → Round env false job next c w (
          run env
            (update_if_status (recovered_job job moment) (running ∷ []) (
              except_transition
                (λ stored. hand_over stored next c)
                (λ _. next (record c { skipped = c.skipped + 1 }))))
            w)
  unfolding recovered_job run
  hand_back-Round lost =
      let v = written env (recovered_job job moment) w in
      (
        record v { enqueued = v.enqueued ++ job.id ∷ [] },
        run_allowed env (recovered_job job moment) (running ∷ [])
            (λ stored. hand_over stored next c) _ w job k.0 k.1 (ground (arith, lost)),
        refl,
        λ j other h. Waits-put w.jobs (stamped env w (recovered_job job moment)) j other h,
      )

  pub recover_job-Round :
      seconds timeout ≤ moment
      → Round env
          (is_stale timeout moment job)
          job
          next
          c
          w
          (run env (recover_job timeout moment job next c) w)
  unfolding recover_job run should_mark_job_stale
  recover_job-Round h =
      let fits : leb (seconds timeout) moment ≡ true = ground arith in
      let same : leb job.updated_at (moment - seconds timeout) ≡ is_stale timeout moment job =
        ground arith in
      rw (fits, same)
        (elim (Bool-cases (is_stale timeout moment job)) [
          | inl stale ↦ rw stale mark_timed_out-Round
          | inr young ↦ rw young (elim (Bool-cases (same_status job.status running)) [
            | inl lost ↦ rw lost (hand_back-Round lost)
            | inr waiting ↦
                rw waiting
                  (record w { enqueued = w.enqueued ++ job.id ∷ [] }, refl, refl, λ j other m. m)
          ])
        ])
