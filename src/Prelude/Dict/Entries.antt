-- ===== src/Prelude/Dict/Entries.antt =====
-- Facts about all entries of a dictionary: a predicate of key and value, and keys without repeats.
use mathlib.Core.Path.{◌≡◌, refl, sym, subst}
use mathlib.Core.List.{[], ◌∷◌}
use mathlib.Core.Logic.{inl, inr}
use mathlib.Core.Option.{none, some}
use Prim.Native.String.{String}
use native.Mathlib.Omega.{arith}
use text.Mathlib.Text.{◌==◌}
use text.Mathlib.TextEquality.{eq_iff}
use earth2_sandbox.Prelude.Tests.{Bool-cases}
use earth2_sandbox.Prelude.Lists.{All}
use earth2_sandbox.Prelude.Dict.{Dict, get, put, remove, values, get-put, get-remove}

module _ {ℓ κ} {V : Type ℓ} (P : String → V → Type κ) where
  abbrev pub Entries : Dict V → Type κ
  Entries [] = Unit
  Entries ((k, v) ∷ d) = P k v × Entries d

  pub get-Entries : (d : Dict V) (k : String) (v : V) → Entries d → get d k ≡ some v → P k v
  unfolding get
  get-Entries [] k v h e = cc
  get-Entries ((j, w) ∷ d) k v h e = elim (Bool-cases (j == k)) [
    | inl same ↦ subst (λ x. P k x) (ground arith) (subst (λ x. P x w) ((eq_iff j k).0 same) h.0)
    | inr other ↦ get-Entries d k v h.1 (ground arith)
  ]

  pub put-Entries : (d : Dict V) (k : String) (v : V) → Entries d → P k v → Entries (put d k v)
  unfolding put
  put-Entries [] k v h p = (p, tt)
  put-Entries ((j, w) ∷ d) k v h p = elim (Bool-cases (j == k)) [
    | inl same ↦ rw (same, put) (subst (λ x. P x v) (sym ((eq_iff j k).0 same)) p, h.1)
    | inr other ↦ rw (other, put) (h.0, put-Entries d k v h.1 p)
  ]

  pub remove-Entries : (d : Dict V) (k : String) → Entries d → Entries (remove d k)
  unfolding remove
  remove-Entries [] k h = tt
  remove-Entries ((j, w) ∷ d) k h = elim (Bool-cases (j == k)) [
    | inl same ↦ rw (same, remove) (remove-Entries d k h.1)
    | inr other ↦ rw (other, remove) (h.0, remove-Entries d k h.1)
  ]

module _ {ℓ} {V : Type ℓ} where
  abbrev pub Distinct : Dict V → Type ℓ
  Distinct [] = Unit
  Distinct ((k, v) ∷ d) = (get d k ≡ none) × Distinct d

  pub put-Distinct : (d : Dict V) (k : String) (v : V) → Distinct d → Distinct (put d k v)
  unfolding put get
  put-Distinct [] k v h = (refl, tt)
  put-Distinct ((j, w) ∷ d) k v h = elim (Bool-cases (j == k)) [
    | inl same ↦ rw (same, put) h
    | inr other ↦
        rw (other, put)
          (ground (arith, get-put d k v j, eq_iff j k, eq_iff k j), put-Distinct d k v h.1)
  ]

  pub remove-Distinct : (d : Dict V) (k : String) → Distinct d → Distinct (remove d k)
  unfolding remove
  remove-Distinct [] k h = tt
  remove-Distinct ((j, w) ∷ d) k h = elim (Bool-cases (j == k)) [
    | inl same ↦ rw (same, remove) (remove-Distinct d k h.1)
    | inr other ↦
        rw (other, remove) (ground (arith, get-remove d k j, eq_iff k j), remove-Distinct d k h.1)
  ]

module _ {ℓ κ} {V : Type ℓ} (P : V → Type κ) where
  pub values-All : (d : Dict V) → Entries (λ _ v. P v) d → All P (values d)
  unfolding values
  values-All [] h = tt
  values-All ((k, v) ∷ d) h = (h.0, values-All d h.1)

pub Entries-mono {ℓ κ μ} :
    {V : Type ℓ} (P : String → V → Type κ) (Q : String → V → Type μ)
    → ((k : String) (v : V) → P k v → Q k v)
    → (d : Dict V) → Entries P d
    → Entries Q d
Entries-mono P Q imp [] h = tt
Entries-mono P Q imp ((k, v) ∷ d) h = (imp k v h.0, Entries-mono P Q imp d h.1)
