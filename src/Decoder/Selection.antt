-- ===== src/Decoder/Selection.antt =====
-- `_select_batch_members` of src/earth2_sandbox/infrastructure/nvidia/fourcastnet_decoder.py. The
-- dictionary of the chosen members is an association list in the order in which it is filled.
pub mod Leads
pub mod Entries
pub mod Firsts
use earth2_sandbox.Prelude.{
  ℕ, ◌++◌, Bool, true, false, not, ◌&&◌, ◌||◌, Option, none, some, List, [], ◌∷◌, map, leb, is_some,
  if◌then◌else◌,
}
use earth2_sandbox.Decoder.{DecodedNumpyMember}

-- `a == b` of two numbers
abbrev pub same : ℕ → ℕ → Bool
same a b = leb a b && leb b a

-- selected_by_lead, as it was filled
abbrev pub Selected : Type 0 → Type 0
Selected F = List (ℕ × DecodedNumpyMember F)

unfoldable pub insert_lead : ℕ → List ℕ → List ℕ
insert_lead k [] = k ∷ []
insert_lead k (l ∷ ls) = if leb k l then k ∷ l ∷ ls else l ∷ insert_lead k ls

unfoldable pub sort_leads : List ℕ → List ℕ
unfolding insert_lead
sort_leads [] = []
sort_leads (k ∷ ks) = insert_lead k (sort_leads ks)

module _ {F : Type 0} where
  abbrev pub has_batch_zero : List (DecodedNumpyMember F) → Bool
  has_batch_zero [] = false
  has_batch_zero (m ∷ ms) = same m.batch_index 0 || has_batch_zero ms

  -- the batch that is taken of members of which `first` is the first
  unfoldable pub chosen_batch : DecodedNumpyMember F → List (DecodedNumpyMember F) → ℕ
  chosen_batch first members = if has_batch_zero members then 0 else first.batch_index

  unfoldable pub find_lead : ℕ → Selected F → Option (DecodedNumpyMember F)
  find_lead lead [] = none
  find_lead lead ((key, m) ∷ selected) = if same key lead then some m else find_lead lead selected

  abbrev pub is_new : ℕ → DecodedNumpyMember F → Selected F → Bool
  is_new batch m selected =
      same m.batch_index batch && not (is_some (find_lead m.lead_time_hours selected))

  abbrev pub with_member : ℕ → DecodedNumpyMember F → Selected F → Selected F
  with_member batch m selected =
      if is_new batch m selected then selected ++ (m.lead_time_hours, m) ∷ [] else selected

  -- the loop over the members
  unfoldable pub select_each : ℕ → List (DecodedNumpyMember F) → Selected F → Selected F
  select_each batch [] selected = selected
  select_each batch (m ∷ ms) selected = select_each batch ms (with_member batch m selected)

  abbrev pub keys_of : Selected F → List ℕ
  keys_of = map (λ entry. entry.0)

  -- none for a KeyError
  abbrev pub and_rest :
      Option (DecodedNumpyMember F)
      → Option (List (DecodedNumpyMember F))
      → Option (List (DecodedNumpyMember F))
  and_rest (some m) (some ms) = some (m ∷ ms)
  and_rest _ _ = none

  unfoldable pub pick_each : List ℕ → Selected F → Option (List (DecodedNumpyMember F))
  pick_each [] selected = some []
  pick_each (lead ∷ leads) selected = and_rest (find_lead lead selected) (pick_each leads selected)

  unfoldable pub select_batch_members :
      List (DecodedNumpyMember F) → Option (List (DecodedNumpyMember F))
  unfolding chosen_batch select_each sort_leads pick_each
  select_batch_members [] = some []
  select_batch_members (first ∷ ms) =
      let selected = select_each (chosen_batch first (first ∷ ms)) (first ∷ ms) [] in
      pick_each (sort_leads (keys_of selected)) selected
