-- ===== src/Tasks/Pool.antt =====
-- Coroutines of one event loop: any number of tasks, and a schedule that says which one makes its
-- next call. A request that arrives later is a task that is scheduled later.
pub mod Final
use earth2_sandbox.Prelude.{ℕ, zero, suc, List, [], ◌∷◌}
use earth2_sandbox.World.{Env, World}
use earth2_sandbox.Store.Memory.Invariant.{IsConsistent}
use earth2_sandbox.Tasks.{Task, step}
use earth2_sandbox.Tasks.Safe.{Safe, step-IsConsistent}

pub data Running : Type 1 where
  running : {A : Type 0} → Task A → Running

abbrev pub Pool : Type 1
Pool = List Running

-- The task with the given number makes one call.
unfoldable pub advance : Env → ℕ → Pool → World → Pool × World
advance env turn [] w = ([], w)
advance env zero (running t ∷ pool) w = let (t', w') = step env t w in (running t' ∷ pool, w')
advance env (suc turn) (t ∷ pool) w = let (pool', w') = advance env turn pool w in (t ∷ pool', w')

unfoldable pub interleave : Env → List ℕ → Pool → World → Pool × World
interleave env [] pool w = (pool, w)
interleave env (turn ∷ turns) pool w =
    let (pool', w') = advance env turn pool w in interleave env turns pool' w'

abbrev pub AllSafe : Pool → Type 0
AllSafe [] = Unit
AllSafe (running t ∷ pool) = Safe t × AllSafe pool

pub advance-IsConsistent :
    (env : Env) (turn : ℕ) (pool : Pool) (w : World)
    → AllSafe pool
    → IsConsistent w.jobs
    → let (pool', w') = advance env turn pool w in AllSafe pool' × IsConsistent w'.jobs
unfolding advance
advance-IsConsistent env zero [] w s c = (tt, c)
advance-IsConsistent env (suc turn) [] w s c = (tt, c)
advance-IsConsistent env zero (running t ∷ pool) w s c =
    let (s', c') = step-IsConsistent env t w s.0 c in ((s', s.1), c')
advance-IsConsistent env (suc turn) (running t ∷ pool) w s c =
    let (s', c') = advance-IsConsistent env turn pool w s.1 c in ((s.0, s'), c')

-- Whatever the interleaving of safe tasks, the table stays consistent: every stored job is well
-- formed and stands under its own identifier.
pub interleave-IsConsistent :
    (env : Env) (turns : List ℕ) (pool : Pool) (w : World)
    → AllSafe pool
    → IsConsistent w.jobs
    → IsConsistent (interleave env turns pool w).1.jobs
unfolding interleave
interleave-IsConsistent env [] pool w s c = c
interleave-IsConsistent env (turn ∷ turns) pool w s c =
    let (s', c') = advance-IsConsistent env turn pool w s c in
    interleave-IsConsistent env turns (advance env turn pool w).0 (advance env turn pool w).1 s' c'
