-- ===== src/Prelude/Text.antt =====
-- Texts as Python handles them: substrings, cuts, and characters taken off the ends.
pub mod Order
use Prim.Native.Char.{Char, code}
use Prim.Native.String.{String}
use mathlib.Core.Bool.{Bool, true, false, ◌||◌, ◌&&◌}
use text.Mathlib.Text.{starts_with, ◌==◌}
use earth2_sandbox.Prelude.Tests.{if◌then◌else◌, leb}
use mathlib.Core.List.{List, [], ◌∷◌}
use Prim.Native.Nat.{ℕ, zero, suc, ◌+◌}

-- `part in text`
unfoldable pub contains : String → String → Bool
contains String.[] part = starts_with "" part
contains (String.◌∷◌ c text) part = starts_with (String.◌∷◌ c text) part || contains text part

-- `text[:n]`
unfoldable pub first : ℕ → String → String
first zero text = ""
first (suc n) String.[] = ""
first (suc n) (String.◌∷◌ c text) = String.◌∷◌ c (first n text)

abbrev pub same_char : Char → ℕ → Bool
same_char c n = leb (code c) n && leb n (code c)

-- `text.rstrip(...)` of one character, given by its code
unfoldable pub strip_end : ℕ → String → String
strip_end n String.[] = ""
strip_end n (String.◌∷◌ c text) =
    let rest = strip_end n text in if same_char c n && rest == "" then "" else String.◌∷◌ c rest

-- the code of `c.lower()`, for the letters of ASCII
abbrev pub lower_code : Char → ℕ
lower_code c = let n = code c in if leb 65 n && leb n 90 then n + 32 else n

-- `text.lower().startswith(part)`, with the part as its codes
unfoldable pub starts_lowered : String → List ℕ → Bool
starts_lowered text [] = true
starts_lowered String.[] (n ∷ part) = false
starts_lowered (String.◌∷◌ c text) (n ∷ part) =
    let rest = starts_lowered text part in leb (lower_code c) n && leb n (lower_code c) && rest

-- `part in text.lower()`
unfoldable pub contains_lowered : String → List ℕ → Bool
unfolding starts_lowered
contains_lowered String.[] part = starts_lowered "" part
contains_lowered (String.◌∷◌ c text) part =
    starts_lowered (String.◌∷◌ c text) part || contains_lowered text part
