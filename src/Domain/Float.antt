-- ===== src/Domain/Float.antt =====
-- The floats that a job carries. A finite one is a number of millionths: the program stores and
-- compares coordinates and never computes with them. The rest of IEEE 754 is there as it compares.
use earth2_sandbox.Prelude.{ℕ, ◌*◌, Bool, true, false, ◌&&◌, leb}

pub data Float : Type 0 where
  plus minus : ℕ → Float
  inf neg_inf nan : Float

-- a <= b; a comparison with nan is false
abbrev pub le_float : Float → Float → Bool
le_float nan _ = false
le_float _ nan = false
le_float neg_inf _ = true
le_float _ inf = true
le_float (plus m) (plus n) = leb m n
le_float (minus m) (minus n) = leb n m
le_float (minus m) (plus n) = true
le_float (plus m) (minus n) = leb m 0 && leb n 0
le_float _ _ = false

abbrev pub millionths : ℕ → ℕ
millionths n = n * 1_000_000

-- `-bound <= x <= bound`
unfoldable pub is_within : ℕ → Float → Bool
is_within bound x = le_float (minus (millionths bound)) x && le_float x (plus (millionths bound))
