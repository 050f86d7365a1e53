-- ===== src/Prelude/Rearranged.antt =====
-- Lists with the same elements in another order, as an inductive relation that proofs take apart.
use mathlib.Core.Path.{◌≡◌, refl, ap, ◌∙◌}
use mathlib.Core.Bool.{Bool, false, ◌||◌}
use mathlib.Core.List.{List, [], ◌∷◌}
use mathlib.Core.Logic.{inl, inr}
use mathlib.Core.Option.{Option, none, some}
use Prim.Native.Nat.{suc}
use Prim.Native.String.{String}
use text.Mathlib.Text.{◌==◌}
use native.Mathlib.Omega.{arith}
use earth2_sandbox.Prelude.Tests.{Bool-cases}
use earth2_sandbox.Prelude.Lists.{length, keep, All}

pub data Rearranged {ℓ} {A : Type ℓ} : List A → List A → Type ℓ where
  same : (xs : List A) → Rearranged xs xs
  skip : {xs ys : List A} (x : A) → Rearranged xs ys → Rearranged (x ∷ xs) (x ∷ ys)
  swap : (x y : A) (xs : List A) → Rearranged (x ∷ y ∷ xs) (y ∷ x ∷ xs)
  chain : {xs ys zs : List A} → Rearranged xs ys → Rearranged ys zs → Rearranged xs zs

-- `[f(x) for x in xs]`, less those that have no value
abbrev pub collect {ℓ κ} : {A : Type ℓ} {B : Type κ} → (A → Option B) → List A → List B
collect f [] = []
collect f (x ∷ xs) = elim (f x) [ none ↦ collect f xs | some b ↦ b ∷ collect f xs ]

abbrev pub contains : List String → String → Bool
contains [] key = false
contains (k ∷ ks) key = k == key || contains ks key

module _ {ℓ} {A : Type ℓ} where
  pub Rearranged-length : {xs ys : List A} → Rearranged xs ys → length xs ≡ length ys
  Rearranged-length (same xs) = refl
  Rearranged-length (skip x r) = ap suc (Rearranged-length r)
  Rearranged-length (swap x y xs) = refl
  Rearranged-length (chain r s) = Rearranged-length r ∙ Rearranged-length s

  pub Rearranged-All {κ} :
      (P : A → Type κ) {xs ys : List A} → Rearranged xs ys → All P xs → All P ys
  Rearranged-All P (same xs) h = h
  Rearranged-All P (skip x r) h = (h.0, Rearranged-All P r h.1)
  Rearranged-All P (swap x y xs) h = (h.1.0, (h.0, h.1.1))
  Rearranged-All P (chain r s) h = Rearranged-All P s (Rearranged-All P r h)

  pub keep-Rearranged :
      (test : A → Bool) {xs ys : List A}
      → Rearranged xs ys
      → Rearranged (keep test xs) (keep test ys)
  keep-Rearranged test (same xs) = same (keep test xs)
  keep-Rearranged test (skip x r) = elim (Bool-cases (test x)) [
    | inl kept ↦ rw (kept, keep) (skip x (keep-Rearranged test r))
    | inr dropped ↦ rw (dropped, keep) (keep-Rearranged test r)
  ]
  keep-Rearranged test (swap x y xs) = elim (Bool-cases (test x)) [
    | inl kept ↦ elim (Bool-cases (test y)) [
      | inl both ↦ rw (kept, both) (swap x y (keep test xs))
      | inr only ↦ rw (kept, only) (same (x ∷ keep test xs))
    ]
    | inr dropped ↦ elim (Bool-cases (test y)) [
      | inl only ↦ rw (dropped, only) (same (y ∷ keep test xs))
      | inr neither ↦ rw (dropped, neither) (same (keep test xs))
    ]
  ]
  keep-Rearranged test (chain r s) = chain (keep-Rearranged test r) (keep-Rearranged test s)

module _ {ℓ κ} {A : Type ℓ} {B : Type κ} (f : A → Option B) where
  collect_skip :
      (o : Option B) {bs cs : List B}
      → Rearranged bs cs
      → Rearranged (elim o [ none ↦ bs | some b ↦ b ∷ bs ]) (elim o [ none ↦ cs | some b ↦ b ∷ cs ])
  collect_skip none r = r
  collect_skip (some b) r = skip b r

  collect_swap :
      (o p : Option B) (bs : List B)
      → Rearranged
          (elim o [
            | none ↦ elim p [ none ↦ bs | some c ↦ c ∷ bs ]
            | some b ↦ b ∷ elim p [ none ↦ bs | some c ↦ c ∷ bs ]
          ])
          (elim p [
            | none ↦ elim o [ none ↦ bs | some b ↦ b ∷ bs ]
            | some c ↦ c ∷ elim o [ none ↦ bs | some b ↦ b ∷ bs ]
          ])
  collect_swap none none bs = same bs
  collect_swap none (some c) bs = same (c ∷ bs)
  collect_swap (some b) none bs = same (b ∷ bs)
  collect_swap (some b) (some c) bs = swap b c bs

  pub collect-Rearranged :
      {xs ys : List A} → Rearranged xs ys → Rearranged (collect f xs) (collect f ys)
  collect-Rearranged (same xs) = same (collect f xs)
  collect-Rearranged (skip x r) = collect_skip (f x) (collect-Rearranged r)
  collect-Rearranged (swap x y xs) = collect_swap (f x) (f y) (collect f xs)
  collect-Rearranged (chain r s) = chain (collect-Rearranged r) (collect-Rearranged s)

pub contains-Rearranged :
    (key : String) {xs ys : List String} → Rearranged xs ys → contains xs key ≡ contains ys key
contains-Rearranged key (same xs) = refl
contains-Rearranged key (skip x r) = ap (λ b. x == key || b) (contains-Rearranged key r)
contains-Rearranged key (swap x y xs) = ground arith
contains-Rearranged key (chain r s) = contains-Rearranged key r ∙ contains-Rearranged key s
