-- ===== src/Decoder/Archive.antt =====
-- `_load_tar_members` of
-- src/earth2_sandbox/infrastructure/nvidia/fourcastnet_decoder.py. Of the digits that a file name may
-- hold, `\d` and `int` know those that `Names` says.
use Prim.Native.Char.{Char}
use Prim.Native.String.{compare as compare_text}
use Prim.Native.Nat.{Ordering, compare}
use earth2_sandbox.Prelude.{
  ℕ, ◌+◌, ◌*◌, ◌++◌, String, Bool, true, false, ◌&&◌, ◌||◌, Option, none, some, List, [], ◌∷◌, ◌==◌,
  if◌then◌else◌,
}
use earth2_sandbox.Prelude.Text.{same_char}
use earth2_sandbox.Outcome.{◌⧺◌}
use earth2_sandbox.Decoder.{Array, DecodedNumpyMember}

-- what `extractfile` and `np.load` make of a member
pub data Extracted (F : Type 0) : Type 0 where
  loaded : Array F → Extracted F
  not_extracted : Extracted F
  not_loaded : (error : String) → Extracted F

pub record TarMember (F : Type 0) : Type 0 where
  pub name : String
  pub is_file : Bool
  pub content : Extracted F

-- the members of the archive, or a TarError by its text, after those before it
pub record TarArchive (F : Type 0) : Type 0 where
  pub members : List (TarMember F)
  pub tar_error : Option String

-- the value of a decimal digit
abbrev pub Names : Type 0
Names = Char → Option ℕ

-- `name.rsplit("/", maxsplit=1)[-1]`
abbrev pub has_slash : String → Bool
has_slash String.[] = false
has_slash (String.◌∷◌ c text) = same_char c 47 || has_slash text

abbrev pub last_part : String → String
last_part String.[] = ""
last_part (String.◌∷◌ c text) =
    let rest = last_part text in
    if same_char c 47 && (if has_slash text then false else true)
    then text
    else if has_slash text
    then rest
    else String.◌∷◌ c text

-- `(?P<group>\d{3})` at the front of a text: its value, and the rest
abbrev pub digits_value : Option ℕ → Option ℕ → Option ℕ → String → Option (ℕ × String)
digits_value (some a) (some b) (some c) rest = some (a * 100 + b * 10 + c, rest)
digits_value _ _ _ rest = none

abbrev pub three_digits : Names → String → Option (ℕ × String)
three_digits digit (String.◌∷◌ a (String.◌∷◌ b (String.◌∷◌ c rest))) =
    digits_value (digit a) (digit b) (digit c) rest
three_digits digit _ = none

abbrev pub after_underscore : String → Option String
after_underscore String.[] = none
after_underscore (String.◌∷◌ c rest) = if same_char c 95 then some rest else none

-- `$` also stands before a line feed at the end
abbrev pub is_suffix : String → Bool
is_suffix rest = rest == ".npy" || rest == ".npy\n"

abbrev pub batch_of : Names → ℕ → Option String → Option (ℕ × ℕ)
batch_of digit lead none = none
batch_of digit lead (some text) = elim (three_digits digit text) [
  | none ↦ none
  | some (batch, rest) ↦ if is_suffix rest then some (lead, batch) else none
]

-- the lead time and the batch that NVIDIA_TAR_MEMBER_PATTERN finds in a file name
unfoldable pub match_name : Names → String → Option (ℕ × ℕ)
match_name digit filename = elim (three_digits digit filename) [
  | none ↦ none
  | some (lead, rest) ↦ batch_of digit lead (after_underscore rest)
]

abbrev pub Loaded : Type 0 → Type 0
Loaded F = List (DecodedNumpyMember F) × List String

module _ {F : Type 0} (digit : Names) where
  -- a member of a supported name
  abbrev pub load_content : TarMember F → ℕ × ℕ → Extracted F → Loaded F → Loaded F
  load_content member (lead, batch) (loaded array) (members, warnings) = (
    record {
      filename = last_part member.name;
      lead_time_hours = lead;
      batch_index = batch;
      array = array;
    }
        ∷ members,
    warnings,
  )
  load_content member at not_extracted (members, warnings) =
      (members, ("Could not extract tar member: " ⧺ member.name) ∷ warnings)
  load_content member at (not_loaded error) (members, warnings) =
      (members, ("Could not load NumPy array from " ⧺ (member.name ⧺ (": " ⧺ error))) ∷ warnings)

  abbrev pub load_member : TarMember F → Option (ℕ × ℕ) → Loaded F → Loaded F
  load_member member none (members, warnings) =
      (members, ("Skipping unsupported tar member name: " ⧺ member.name) ∷ warnings)
  load_member member (some at) rest = load_content member at member.content rest

  -- the loop over the files of the archive
  unfoldable pub load_each : List (TarMember F) → Loaded F
  load_each [] = ([], [])
  load_each (member ∷ rest) =
      let later = load_each rest in
      if member.is_file
      then load_member member (match_name digit (last_part member.name)) later
      else later

-- the sort key (lead_time_hours, batch_index, filename)
abbrev pub then_by : Ordering → Bool → Bool
then_by Ordering.lt later = true
then_by Ordering.eq later = later
then_by Ordering.gt later = false

abbrev pub is_earlier : {F : Type 0} → DecodedNumpyMember F → DecodedNumpyMember F → Bool
is_earlier a b = then_by (compare a.lead_time_hours b.lead_time_hours) (
    then_by (compare a.batch_index b.batch_index)
      (then_by (compare_text a.filename b.filename) false))

abbrev pub tar_warning : Option String → List String
tar_warning none = []
tar_warning (some error) = ("Could not decode FourCastNet tar archive: " ⧺ error) ∷ []

module _ {F : Type 0} where
  unfoldable pub insert_member :
      DecodedNumpyMember F → List (DecodedNumpyMember F) → List (DecodedNumpyMember F)
  insert_member a [] = a ∷ []
  insert_member a (b ∷ bs) = if is_earlier b a then b ∷ insert_member a bs else a ∷ b ∷ bs

  unfoldable pub sort_members : List (DecodedNumpyMember F) → List (DecodedNumpyMember F)
  unfolding insert_member
  sort_members [] = []
  sort_members (a ∷ as') = insert_member a (sort_members as')

  unfoldable pub load_tar_members : Names → TarArchive F → Loaded F
  unfolding load_each sort_members
  load_tar_members digit archive =
      let (members, warnings) = load_each digit archive.members in
      (sort_members members, warnings ++ tar_warning archive.tar_error)
