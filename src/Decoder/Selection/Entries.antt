-- ===== src/Decoder/Selection/Entries.antt =====
-- What the loop over the members of a FourCastNet archive gathers.
use earth2_sandbox.Prelude.{
  ℕ, ◌≡◌, refl, ◌∙◌, ap, subst, Bool, true, false, not, ◌&&◌, Option, none, some, List, [], ◌∷◌,
  ◌++◌, All, is_some, Bool-cases, inl, inr, arith, if◌then◌else◌,
}
use earth2_sandbox.Decoder.{DecodedNumpyMember}
use earth2_sandbox.Decoder.Selection.{
  same, Selected, find_lead, is_new, with_member, select_each, keys_of,
}
use earth2_sandbox.Decoder.Selection.Leads.{has, Distinct, Distinct-append}

abbrev pub or_else : {A : Type 0} → Option A → Option A → Option A
or_else none o = o
or_else (some a) o = some a

or_else_assoc : {A : Type 0} (a b c : Option A) → or_else (or_else a b) c ≡ or_else a (or_else b c)
or_else_assoc none b c = refl
or_else_assoc (some a) b c = refl

pub same_lead : (a b : ℕ) → same a b ≡ true → a ≡ b
same_lead a b h = ground arith

absent : (b c : Bool) → (b && not c) ≡ true → c ≡ false
absent b c h = ground arith

module _ {F : Type 0} where
  -- the first of the members of a batch that has a lead time
  abbrev pub first_of : ℕ → ℕ → List (DecodedNumpyMember F) → Option (DecodedNumpyMember F)
  first_of batch lead [] = none
  first_of batch lead (m ∷ ms) =
      if same m.batch_index batch && same m.lead_time_hours lead
      then some m
      else first_of batch lead ms

  abbrev if_same : Bool → DecodedNumpyMember F → Option (DecodedNumpyMember F)
  if_same b m = if b then some m else none

  find_lead-append :
      (lead : ℕ) (m : DecodedNumpyMember F) (selected : Selected F)
      → find_lead lead (selected ++ (m.lead_time_hours, m) ∷ [])
        ≡ or_else (find_lead lead selected) (if_same (same m.lead_time_hours lead) m)
  unfolding find_lead
  find_lead-append lead m [] = refl
  find_lead-append lead m ((key, other) ∷ selected) = elim (Bool-cases (same key lead)) [
    | inl here ↦ rw here refl
    | inr later ↦ rw later (find_lead-append lead m selected)
  ]

  found :
      (b : Bool) (o other : Option (DecodedNumpyMember F))
      → b ≡ true
      → (b && not (is_some o)) ≡ false
      → o ≡ or_else o other
  found true (some a) other h old = refl
  found true none other h old = ground arith
  found false o other h old = ground arith

  unchanged : (o : Option (DecodedNumpyMember F)) → o ≡ or_else o none
  unchanged none = refl
  unchanged (some a) = refl

  -- an entry that is there already is found before the member
  taken :
      (batch lead : ℕ) (m : DecodedNumpyMember F) (selected : Selected F)
      → is_new batch m selected ≡ false
      → same m.batch_index batch ≡ true
      → find_lead lead selected
        ≡ or_else (find_lead lead selected) (if_same (same m.lead_time_hours lead) m)
  taken batch lead m selected old in_batch = elim (Bool-cases (same m.lead_time_hours lead)) [
    | inl here ↦ rw here (
        found (same m.batch_index batch) (find_lead lead selected) (some m) in_batch (
          subst (λ l. (same m.batch_index batch && not (is_some (find_lead l selected))) ≡ false)
            (same_lead m.lead_time_hours lead here) old))
    | inr other ↦ rw other (unchanged (find_lead lead selected))
  ]

  find_lead-with_member :
      (batch lead : ℕ) (m : DecodedNumpyMember F) (selected : Selected F)
      → find_lead lead (with_member batch m selected)
        ≡ or_else
            (find_lead lead selected)
            (if_same (same m.batch_index batch && same m.lead_time_hours lead) m)
  find_lead-with_member batch lead m selected = elim (Bool-cases (same m.batch_index batch)) [
    | inr other ↦ rw other (unchanged (find_lead lead selected))
    | inl in_batch ↦ elim (Bool-cases (is_new batch m selected)) [
      | inl new ↦ rw (new, in_batch) (find_lead-append lead m selected)
      | inr old ↦ rw (old, in_batch) (taken batch lead m selected old in_batch)
    ]
  ]

  or_first :
      (b : Bool) (m : DecodedNumpyMember F) (rest : Option (DecodedNumpyMember F))
      → or_else (if_same b m) rest ≡ (if b then some m else rest)
  or_first true m rest = refl
  or_first false m rest = refl

  pub find_lead-select_each :
      (batch lead : ℕ) (ms : List (DecodedNumpyMember F)) (selected : Selected F)
      → find_lead lead (select_each batch ms selected)
        ≡ or_else (find_lead lead selected) (first_of batch lead ms)
  unfolding select_each
  find_lead-select_each batch lead [] selected = unchanged (find_lead lead selected)
  find_lead-select_each batch lead (m ∷ ms) selected =
      let b = same m.batch_index batch && same m.lead_time_hours lead in
      find_lead-select_each batch lead ms (with_member batch m selected)
      ∙ ap (λ o. or_else o (first_of batch lead ms)) (find_lead-with_member batch lead m selected)
      ∙ or_else_assoc (find_lead lead selected) (if_same b m) (first_of batch lead ms)
      ∙ ap (or_else (find_lead lead selected)) (or_first b m (first_of batch lead ms))

  -- the members stand under their lead times
  abbrev pub AreKeyed : Selected F → Type 0
  AreKeyed = All (λ entry. entry.1.lead_time_hours ≡ entry.0)

  append-AreKeyed :
      (selected : Selected F) (m : DecodedNumpyMember F)
      → AreKeyed selected
      → AreKeyed (selected ++ (m.lead_time_hours, m) ∷ [])
  append-AreKeyed [] m h = (refl, tt)
  append-AreKeyed (entry ∷ selected) m h = (h.0, append-AreKeyed selected m h.1)

  pub has-keys_of :
      (lead : ℕ) (selected : Selected F)
      → has lead (keys_of selected) ≡ is_some (find_lead lead selected)
  unfolding find_lead
  has-keys_of lead [] = refl
  has-keys_of lead ((key, m) ∷ selected) = elim (Bool-cases (same key lead)) [
    | inl here ↦ rw here refl
    | inr later ↦ rw later (has-keys_of lead selected)
  ]

  keys_of-append :
      (selected : Selected F) (m : DecodedNumpyMember F)
      → keys_of (selected ++ (m.lead_time_hours, m) ∷ [])
        ≡ keys_of selected ++ m.lead_time_hours ∷ []
  keys_of-append [] m = refl
  keys_of-append (entry ∷ selected) m = ap (λ ks. entry.0 ∷ ks) (keys_of-append selected m)

  -- what the loop keeps: every entry stands under its lead time, once
  abbrev pub IsSelection : Selected F → Type 0
  IsSelection selected = AreKeyed selected × Distinct (keys_of selected)

  with_member-IsSelection :
      (batch : ℕ) (m : DecodedNumpyMember F) (selected : Selected F)
      → IsSelection selected
      → IsSelection (with_member batch m selected)
  with_member-IsSelection batch m selected h = elim (Bool-cases (is_new batch m selected)) [
    | inr old ↦ rw old h
    | inl new ↦
        let lead = m.lead_time_hours in
        let known = is_some (find_lead lead selected) in
        rw (new, keys_of-append selected m)
          (
            append-AreKeyed selected m h.0,
            Distinct-append (keys_of selected) lead h.1
                (has-keys_of lead selected ∙ absent (same m.batch_index batch) known new),
          )
  ]

  pub select_each-IsSelection :
      (batch : ℕ) (ms : List (DecodedNumpyMember F)) (selected : Selected F)
      → IsSelection selected
      → IsSelection (select_each batch ms selected)
  unfolding select_each
  select_each-IsSelection batch [] selected h = h
  select_each-IsSelection batch (m ∷ ms) selected h =
      select_each-IsSelection batch ms (with_member batch m selected)
        (with_member-IsSelection batch m selected h)
