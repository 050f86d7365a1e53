-- ===== src/Tests/Archives.antt =====
-- Members of FourCastNet archives, at concrete inputs.
use Prim.Native.Char.{Char, code}
use earth2_sandbox.Prelude.{
  ℕ, ◌+◌, ◌*◌, ◌-◌, ◌≡◌, refl, String, true, Option, none, some, List, [], ◌∷◌, leb, ◌&&◌,
  if◌then◌else◌,
}
use earth2_sandbox.Decoder.{Array, DecodedNumpyMember}
use earth2_sandbox.Decoder.Archive.{TarMember, loaded, load_tar_members, match_name}
use earth2_sandbox.Decoder.Selection.{find_lead, select_batch_members, chosen_batch}
use earth2_sandbox.Decoder.Selection.Leads.{Ascending}
use earth2_sandbox.Decoder.Selection.Entries.{first_of}
use earth2_sandbox.Decoder.Selection.Firsts.{first_with, leads_of, select_batch_members_lem}

-- an element is the number that its indices spell
abbrev spelled : List ℕ → ℕ
spelled [] = 0
spelled (i ∷ is') = i + 10 * spelled is'

abbrev grid : Array ℕ
grid = record { shape = 1 ∷ 4 ∷ 5 ∷ 8 ∷ []; element = spelled }

abbrev member : ℕ → ℕ → DecodedNumpyMember ℕ
member lead batch = record {
  filename = "a.npy";
  lead_time_hours = lead;
  batch_index = batch;
  array = grid;
}

abbrev members : List (DecodedNumpyMember ℕ)
members = member 12 1 ∷ member 6 0 ∷ member 0 0 ∷ member 6 0 ∷ []

chosen : select_batch_members members ≡ some (member 0 0 ∷ member 6 0 ∷ [])
unfolding select_batch_members find_lead
chosen = refl

select_batch_members_lem_example :
    (selected : List (DecodedNumpyMember ℕ)) × (select_batch_members members ≡ some selected)
    × Ascending (leads_of selected)
    × ((lead : ℕ)
        → first_with lead selected ≡ first_of (chosen_batch (member 12 1) members) lead members)
select_batch_members_lem_example =
    select_batch_members_lem (member 12 1) (member 6 0 ∷ member 0 0 ∷ member 6 0 ∷ [])

-- the digits of ASCII
abbrev digit : Char → Option ℕ
digit c = if leb 48 (code c) && leb (code c) 57 then some (code c - 48) else none

abbrev tar_member : String → TarMember ℕ
tar_member name = record { name = name; is_file = true; content = loaded grid }

archive_members :
    load_tar_members digit (record {
      members =
          tar_member "out/006_000.npy" ∷ tar_member "notes.txt" ∷ tar_member "000_000.npy" ∷ [];
      tar_error = none;
    })
    ≡ (
      record { filename = "000_000.npy"; lead_time_hours = 0; batch_index = 0; array = grid }
          ∷ record { filename = "006_000.npy"; lead_time_hours = 6; batch_index = 0; array = grid }
          ∷ [],
      "Skipping unsupported tar member name: notes.txt" ∷ [],
    )
unfolding load_tar_members match_name
archive_members = refl
