-- ===== src/Decoder/Selection/Firsts.antt =====
-- Which members of a FourCastNet archive are chosen.
use earth2_sandbox.Prelude.{
  ℕ, ◌≡◌, refl, sym, ◌∙◌, ap, subst, true, ◌||◌, Option, none, some, List, [], ◌∷◌, map, All,
  is_some, Bool-cases, inl, inr, arith, if◌then◌else◌,
}
use earth2_sandbox.Decoder.{DecodedNumpyMember}
use earth2_sandbox.Decoder.Selection.{
  same, Selected, find_lead, select_each, keys_of, sort_leads, pick_each, chosen_batch,
  select_batch_members,
}
use earth2_sandbox.Decoder.Selection.Leads.{has, Ascending, has-sort_leads, sort_leads-Ascending}
use earth2_sandbox.Decoder.Selection.Entries.{
  same_lead, first_of, find_lead-select_each, AreKeyed, has-keys_of, select_each-IsSelection,
}

module _ {F : Type 0} where
  -- the first of any batch
  abbrev pub first_with : ℕ → List (DecodedNumpyMember F) → Option (DecodedNumpyMember F)
  first_with lead [] = none
  first_with lead (m ∷ ms) = if same m.lead_time_hours lead then some m else first_with lead ms

  abbrev pub leads_of : List (DecodedNumpyMember F) → List ℕ
  leads_of = map (λ m. m.lead_time_hours)

  abbrev IsFound : Selected F → ℕ → Type 0
  IsFound selected lead =
      (m : DecodedNumpyMember F) × (find_lead lead selected ≡ some m) × (m.lead_time_hours ≡ lead)

  find_lead-IsFound :
      (lead : ℕ) (selected : Selected F)
      → AreKeyed selected
      → has lead (keys_of selected) ≡ true
      → IsFound selected lead
  unfolding find_lead
  find_lead-IsFound lead [] keyed there = ground arith
  find_lead-IsFound lead ((key, m) ∷ selected) keyed there = elim (Bool-cases (same key lead)) [
    | inl here ↦ rw here (m, refl, keyed.0 ∙ same_lead key lead here)
    | inr later ↦ rw later (
        find_lead-IsFound lead selected keyed.1
          (subst (λ b. (b || has lead (keys_of selected)) ≡ true) later there))
  ]

  -- what is picked for a list of leads
  abbrev IsPicked : Selected F → List ℕ → Type 0
  IsPicked selected leads =
      (ms : List (DecodedNumpyMember F)) × (pick_each leads selected ≡ some ms)
      × (leads_of ms ≡ leads)
      × ((lead : ℕ)
          → first_with lead ms ≡ (if has lead leads then find_lead lead selected else none))

  picked_at :
      (m : DecodedNumpyMember F) (ms : List (DecodedNumpyMember F)) (leads : List ℕ)
      (selected : Selected F) (j : ℕ)
      → find_lead m.lead_time_hours selected ≡ some m
      → first_with j ms ≡ (if has j leads then find_lead j selected else none)
      → first_with j (m ∷ ms)
        ≡ (if same m.lead_time_hours j || has j leads then find_lead j selected else none)
  picked_at m ms leads selected j at_lead rest = elim (Bool-cases (same m.lead_time_hours j)) [
    | inl here ↦ rw here (
        sym
          (subst (λ l. find_lead l selected ≡ some m) (same_lead m.lead_time_hours j here) at_lead))
    | inr later ↦ rw later rest
  ]

  pick_each-IsPicked :
      (leads : List ℕ) (selected : Selected F)
      → All (IsFound selected) leads
      → IsPicked selected leads
  unfolding pick_each
  pick_each-IsPicked [] selected found' = ([], refl, refl, λ lead. refl)
  pick_each-IsPicked (lead ∷ leads) selected found' =
      let (m, at_lead, own) = found'.0 in
      let (ms, picked, same_leads, firsts) = pick_each-IsPicked leads selected found'.1 in
      (
        m ∷ ms,
        rw (at_lead, picked) refl,
        rw (own, same_leads) refl,
        λ j.
            subst
              (λ l.
                first_with j (m ∷ ms)
                ≡ (if same l j || has j leads then find_lead j selected else none))
              own
              (picked_at m ms leads selected j
                (subst (λ l. find_lead l selected ≡ some m) (sym own) at_lead) (firsts j)),
      )

  All-IsFound :
      (selected : Selected F) (leads : List ℕ)
      → AreKeyed selected
      → ((j : ℕ) → has j leads ≡ true → has j (keys_of selected) ≡ true)
      → All (IsFound selected) leads
  All-IsFound selected [] keyed there = tt
  All-IsFound selected (lead ∷ leads) keyed there = (
    find_lead-IsFound lead selected keyed (there lead (ground arith)),
    All-IsFound selected leads keyed (λ j h. there j (ground arith)),
  )

  none_of : (o : Option (DecodedNumpyMember F)) → (if is_some o then o else none) ≡ o
  none_of none = refl
  none_of (some m) = refl

  -- Of any members, the first of which is `first`: no KeyError is raised; the chosen ones stand in the
  -- order of their lead times, one for each; and the one for a lead time is the first with it of the
  -- chosen batch, if the batch has any.
  pub select_batch_members_lem :
      (first : DecodedNumpyMember F) (ms : List (DecodedNumpyMember F))
      → (selected : List (DecodedNumpyMember F)) × (select_batch_members (first ∷ ms)
          ≡ some selected)
        × Ascending (leads_of selected)
        × ((lead : ℕ)
            → first_with lead selected
              ≡ first_of (chosen_batch first (first ∷ ms)) lead (first ∷ ms))
  unfolding select_batch_members
  select_batch_members_lem first ms =
      let batch = chosen_batch first (first ∷ ms) in
      let entries = select_each batch (first ∷ ms) [] in
      let keys = keys_of entries in
      let selection = select_each-IsSelection batch (first ∷ ms) [] (tt, tt) in
      let all =
        All-IsFound entries (sort_leads keys) selection.0
          (λ j h. sym (has-sort_leads j keys) ∙ h) in
      let (selected, picked, leads, firsts) = pick_each-IsPicked (sort_leads keys) entries all in
      (
        selected,
        picked,
        rw leads (sort_leads-Ascending keys selection.1),
        λ lead.
            firsts lead
            ∙ ap (λ b. if b then find_lead lead entries else none)
                (has-sort_leads lead keys ∙ has-keys_of lead entries)
            ∙ none_of (find_lead lead entries)
            ∙ find_lead-select_each batch lead (first ∷ ms) []
            ∙ unfold find_lead in refl,
      )
