-- ===== src/Decoder/Selection/Leads.antt =====
-- The lead times that the members of a FourCastNet archive are sorted by: what sorting keeps, and that
-- different ones come out ascending.
use earth2_sandbox.Prelude.{
  ℕ, ◌<◌, ◌≡◌, refl, Bool, true, false, ◌||◌, List, [], ◌∷◌, ◌++◌, All, leb, Bool-cases, inl, inr,
  arith,
}
use earth2_sandbox.Decoder.Selection.{same, insert_lead, sort_leads}

abbrev pub has : ℕ → List ℕ → Bool
has j [] = false
has j (k ∷ ks) = same k j || has j ks

abbrev pub Ascending : List ℕ → Type 0
Ascending [] = Unit
Ascending (k ∷ ks) = All (λ l. k < l) ks × Ascending ks

abbrev pub Distinct : List ℕ → Type 0
Distinct [] = Unit
Distinct (k ∷ ks) = (has k ks ≡ false) × Distinct ks

All-below : (k l : ℕ) (ks : List ℕ) → k < l → All (λ j. l < j) ks → All (λ j. k < j) ks
All-below k l [] lower h = tt
All-below k l (j ∷ ks) lower h = (omega (arith, lower, h.0), All-below k l ks lower h.1)

insert_lead-All : (P : ℕ → Type 0) (k : ℕ) (ks : List ℕ) → P k → All P ks → All P (insert_lead k ks)
unfolding insert_lead
insert_lead-All P k [] p h = (p, tt)
insert_lead-All P k (l ∷ ls) p h = elim (Bool-cases (leb k l)) [
  | inl here ↦ rw here (p, h)
  | inr later ↦ rw later (h.0, insert_lead-All P k ls p h.1)
]

below : (k l : ℕ) (rest : Bool) → leb k l ≡ true → (same l k || rest) ≡ false → k < l
below k l rest h other = ground arith

above : (k l : ℕ) → leb k l ≡ false → l < k
above k l h = ground arith

rest_false : (a b : Bool) → (a || b) ≡ false → b ≡ false
rest_false true b h = ground arith
rest_false false b h = h

insert_lead-Ascending :
    (k : ℕ) (ks : List ℕ) → has k ks ≡ false → Ascending ks → Ascending (insert_lead k ks)
unfolding insert_lead
insert_lead-Ascending k [] new h = (tt, tt)
insert_lead-Ascending k (l ∷ ls) new h = elim (Bool-cases (leb k l)) [
  | inl here ↦
      let lower = below k l (has k ls) here new in rw here ((lower, All-below k l ls lower h.0), h)
  | inr later ↦ rw later (
    insert_lead-All (λ j. l < j) k ls (above k l later) h.0,
    insert_lead-Ascending k ls (rest_false (same l k) (has k ls) new) h.1,
  )
]

swap : (a b c : Bool) → (b || (a || c)) ≡ (a || (b || c))
swap true true c = refl
swap true false c = refl
swap false b c = refl

has-insert_lead : (j k : ℕ) (ks : List ℕ) → has j (insert_lead k ks) ≡ (same k j || has j ks)
unfolding insert_lead
has-insert_lead j k [] = refl
has-insert_lead j k (l ∷ ls) = elim (Bool-cases (leb k l)) [
  | inl here ↦ rw here refl
  | inr later ↦ rw (later, has-insert_lead j k ls) (swap (same k j) (same l j) (has j ls))
]

pub has-sort_leads : (j : ℕ) (ks : List ℕ) → has j (sort_leads ks) ≡ has j ks
unfolding sort_leads
has-sort_leads j [] = refl
has-sort_leads j (k ∷ ks) = rw (has-insert_lead j k (sort_leads ks), has-sort_leads j ks) refl

pub sort_leads-Ascending : (ks : List ℕ) → Distinct ks → Ascending (sort_leads ks)
unfolding sort_leads
sort_leads-Ascending [] h = tt
sort_leads-Ascending (k ∷ ks) h =
    insert_lead-Ascending k (sort_leads ks) (rw (has-sort_leads k ks) h.0)
      (sort_leads-Ascending ks h.1)

has-append : (j k : ℕ) (ks : List ℕ) → has j (ks ++ k ∷ []) ≡ (has j ks || same k j)
has-append j k [] = ground arith
has-append j k (l ∷ ls) = ground (arith, has-append j k ls)

not_same : (j k : ℕ) → same j k ≡ false → same k j ≡ false
not_same j k h = ground arith

neither : (a b : Bool) → a ≡ false → b ≡ false → (a || b) ≡ false
neither true b h k = h
neither false b h k = k

first_false : (a b : Bool) → (a || b) ≡ false → a ≡ false
first_false true b h = h
first_false false b h = refl

pub Distinct-append :
    (ks : List ℕ) (k : ℕ) → Distinct ks → has k ks ≡ false → Distinct (ks ++ k ∷ [])
Distinct-append [] k h new = (refl, tt)
Distinct-append (l ∷ ls) k h new = (
  rw (has-append l k ls)
      (neither (has l ls) (same k l) h.0 (not_same l k (first_false (same l k) (has k ls) new))),
  Distinct-append ls k h.1 (rest_false (same l k) (has k ls) new),
)
