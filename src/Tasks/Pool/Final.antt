-- ===== src/Tasks/Pool/Final.antt =====
-- A job that has come to an end stays as it is, whatever else runs.
use earth2_sandbox.Prelude.{
  ℕ, zero, suc, ◌≤◌, ◌≡◌, ◌≢◌, refl, true, Option, none, some, String, List, [], ◌∷◌, ◌⊎◌, inl, inr,
  arith,
}
use earth2_sandbox.Prelude.Dict
use earth2_sandbox.Domain.Float.{Float}
use earth2_sandbox.Domain.Policies.{Datetime}
use earth2_sandbox.Domain.Status.{ForecastJobStatus, is_terminal_job_status}
use earth2_sandbox.Domain.Uuid.{parse_uuid}
use earth2_sandbox.Jobs.{ForecastJob}
use earth2_sandbox.Jobs.Lifecycle.{legal, Evolves, unchanged, created, moved, deleted}
use earth2_sandbox.World.{Env, World}
use earth2_sandbox.Store.Memory
use earth2_sandbox.Store.Memory.Invariant.{IsConsistent, get-IsConsistent}
use earth2_sandbox.Store.Memory.Laws.{conditional_write, update_if_status_lem}
use earth2_sandbox.Tasks.{Task, create, get, update_if_status, delete_older_than, step, increment}
use earth2_sandbox.Tasks.Safe.{Safe}
use earth2_sandbox.Tasks.Evolution.{IsNext, step-Evolves}
use earth2_sandbox.Tasks.Pool.{running, Pool, advance, interleave, AllSafe, advance-IsConsistent}

-- From here on the generator does not make this identifier.
abbrev pub NotMadeAgain : Env → String → World → Type 0
NotMadeAgain env key w = (n : ℕ) → w.ids_made ≤ n → parse_uuid (env.new_id n) ≢ some key

conditional_write-ids :
    (env : Env) (job : ForecastJob) (expected : List ForecastJobStatus) (w : World)
    (o : Option ForecastJob)
    → (conditional_write env job expected w o).1.ids_made ≡ w.ids_made
conditional_write-ids env job expected w none = refl
conditional_write-ids env job expected w (some current) = ground arith

create-ids-le :
    (env : Env) (latitude longitude : Float) (parent : Option String) (attempt : ℕ) (w : World)
    → w.ids_made ≤ (Memory.create env latitude longitude parent attempt w).1.ids_made
unfolding Memory.create
create-ids-le env latitude longitude parent attempt w = ground arith

delete-ids-le :
    (cutoff : Datetime) (statuses : List ForecastJobStatus) (w : World)
    → w.ids_made ≤ (Memory.delete_older_than cutoff statuses w).1.ids_made
unfolding Memory.delete_older_than
delete-ids-le cutoff statuses w = ground arith

module _ {A : Type 0} where
  -- The generator only moves on.
  step-ids-le :
      (env : Env) (t : Task A) (w : World)
      → Safe t
      → IsConsistent w.jobs
      → w.ids_made ≤ (step env t w).1.ids_made
  unfolding step increment
  step-ids-le env (create latitude longitude parent attempt k) w s c =
      create-ids-le env latitude longitude parent attempt w
  step-ids-le env (get job_id k) w s c = rw (get-IsConsistent w c job_id).1 (omega arith)
  step-ids-le env (update_if_status job expected k) w s c =
      rw (update_if_status_lem env job expected w s.0.0.canonical)
        (omega (arith, conditional_write-ids env job expected w (Dict.get w.jobs job.id)))
  step-ids-le env (delete_older_than cutoff statuses k) w s c = delete-ids-le cutoff statuses w
  step-ids-le env _ w s c = omega arith

-- The job at this identifier has come to an end, or has been deleted since.
abbrev pub Ended : String → ForecastJob → World → Type 0
Ended key job w =
    (is_terminal_job_status job.status ≡ true)
    × ((Dict.get w.jobs key ≡ some job) ⊎ (Dict.get w.jobs key ≡ none))

no_legal_move : (s t : ForecastJobStatus) → is_terminal_job_status s ≡ true → legal s t ≢ true
no_legal_move s t h = ground arith

module _ (New : Type 0) (old_id : ¬ New) where
  Evolves-Ended :
      (job : ForecastJob) {before after : Option ForecastJob}
      → is_terminal_job_status job.status ≡ true
      → Evolves New before after
      → (before ≡ some job) ⊎ (before ≡ none)
      → (after ≡ some job) ⊎ (after ≡ none)
  Evolves-Ended job end (unchanged e) h = ground arith
  Evolves-Ended job end (created j new was is q) h = absurd (old_id new)
  Evolves-Ended job end (deleted old was is q) h = inr is
  Evolves-Ended job end (moved old next was is q) (inl here) =
      absurd (no_legal_move old.status next.status (ground arith) q)
  Evolves-Ended job end (moved old next was is q) (inr gone) = absurd (ground arith)

advance-Ended :
    (env : Env) (key : String) (job : ForecastJob) (turn : ℕ) (pool : Pool) (w : World)
    → AllSafe pool
    → IsConsistent w.jobs
    → NotMadeAgain env key w
    → Ended key job w
    → let (pool', w') = advance env turn pool w in NotMadeAgain env key w' × Ended key job w'
unfolding advance
advance-Ended env key job zero [] w s c n e = (n, e)
advance-Ended env key job (suc turn) [] w s c n e = (n, e)
advance-Ended env key job zero (running t ∷ pool) w s c n e =
    let next : ¬ IsNext env w key = n w.ids_made (omega arith) in
    let grows = step-ids-le env t w s.0 c in
    (
      λ i h. n i (omega arith),
      (
        e.0,
        Evolves-Ended (IsNext env w key) next job e.0
            (step-Evolves env t w key s.0 c (λ h. absurd (next h))) e.1,
      ),
    )
advance-Ended env key job (suc turn) (running t ∷ pool) w s c n e =
    advance-Ended env key job turn pool w s.1 c n e

-- Once a job has come to an end, no interleaving of safe tasks changes any field of it: afterwards
-- it stands as it was, or there is no job at its identifier, provided that the generator does not
-- make the identifier again.
pub interleave-Ended :
    (env : Env) (key : String) (job : ForecastJob) (turns : List ℕ) (pool : Pool) (w : World)
    → AllSafe pool
    → IsConsistent w.jobs
    → NotMadeAgain env key w
    → Ended key job w
    → Ended key job (interleave env turns pool w).1
unfolding interleave
interleave-Ended env key job [] pool w s c n e = e
interleave-Ended env key job (turn ∷ turns) pool w s c n e =
    let (s', c') = advance-IsConsistent env turn pool w s c in
    let (n', e') = advance-Ended env key job turn pool w s c n e in
    interleave-Ended env key job turns (advance env turn pool w).0 (advance env turn pool w).1 s' c'
      n' e'
