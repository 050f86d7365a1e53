-- ===== src/Domain/Uuid/Canonical.antt =====
-- The printed form of a UUID is read back as itself, so an identifier is normalised once for all.
use Prim.Native.Char.{code}
use Prim.Native.String.{String}
use earth2_sandbox.Prelude.{
  ℕ, zero, suc, ◌+◌, ◌-◌, ◌≤◌, ◌≡◌, refl, ap, subst, ◌∙◌, Bool, true, false, some, List, [], ◌∷◌,
  map, keep, length, length-map, All, inl, inr, Bool-cases, Option-cases, arith,
}
use mathlib.Core.Option
use earth2_sandbox.Domain.Uuid.{
  Hex, x0, hex_char, same, read_digit, read_digits, is_space, to_ascii, strip_left, strip_right,
  strip, drop_sign, drop_prefix, read_int, without_urn, without_uuid, is_brace, not_dash, codes,
  compact, pad, dash_before, spell, uuid_of, parse_uuid,
}

-- Characters that none of the removals touches.
abbrev Plain : ℕ → Type 0
Plain c = (same c b'u' ≡ false) × (same c b'{' ≡ false) × (same c b'}' ≡ false)

abbrev digits : List Hex → List ℕ
digits = map (λ d. code (hex_char d))

hex_char-Plain : (d : Hex) → Plain (code (hex_char d))
hex_char-Plain x0 = (refl, refl, refl)
hex_char-Plain _ = (refl, refl, refl)

hex_char-not_dash : (d : Hex) → not_dash (code (hex_char d)) ≡ true
hex_char-not_dash x0 = refl
hex_char-not_dash _ = refl

hex_char-not_space : (d : Hex) → is_space (code (hex_char d)) ≡ false
unfolding is_space
hex_char-not_space x0 = refl
hex_char-not_space _ = refl

hex_char-not_mark :
    (d : Hex)
    → let c = code (hex_char d) in
      (same c b'+' ≡ false) × (same c b'_' ≡ false) × (same c b'x' ≡ false) × (same c b'X' ≡ false)
hex_char-not_mark x0 = (refl, refl, refl, refl)
hex_char-not_mark _ = (refl, refl, refl, refl)

read_digit-hex_char : (d : Hex) → read_digit (code (hex_char d)) ≡ some d
unfolding read_digit
read_digit-hex_char x0 = refl
read_digit-hex_char _ = refl

spell-Plain : (i : ℕ) (ds : List Hex) → All Plain (codes (spell i ds))
unfolding spell
spell-Plain i [] = tt
spell-Plain i (d ∷ ds) = elim (Bool-cases (dash_before i)) [
  | inl dash ↦ rw dash ((refl, refl, refl), (hex_char-Plain d, spell-Plain (i + 1) ds))
  | inr none' ↦ rw none' (hex_char-Plain d, spell-Plain (i + 1) ds)
]

keep-spell : (i : ℕ) (ds : List Hex) → keep not_dash (codes (spell i ds)) ≡ digits ds
unfolding spell
keep-spell i [] = refl
keep-spell i (d ∷ ds) = elim (Bool-cases (dash_before i)) [
  | inl dash ↦ rw (dash, hex_char-not_dash d, keep-spell (i + 1) ds)
  | inr none' ↦ rw (none', hex_char-not_dash d, keep-spell (i + 1) ds)
]

without_urn-Plain : (cs : List ℕ) → All Plain cs → without_urn cs ≡ cs
unfolding without_urn
without_urn-Plain (a ∷ b ∷ c ∷ d ∷ cs) h = rw (h.0.0, without_urn-Plain (b ∷ c ∷ d ∷ cs) h.1)
without_urn-Plain _ h = refl

without_uuid-Plain : (cs : List ℕ) → All Plain cs → without_uuid cs ≡ cs
unfolding without_uuid
without_uuid-Plain (a ∷ b ∷ c ∷ d ∷ e ∷ cs) h =
    rw (h.0.0, without_uuid-Plain (b ∷ c ∷ d ∷ e ∷ cs) h.1)
without_uuid-Plain _ h = refl

module _ (test : ℕ → Bool) where
  strip_left-clean : (cs : List ℕ) → All (λ c. test c ≡ false) cs → strip_left test cs ≡ cs
  unfolding strip_left
  strip_left-clean [] h = refl
  strip_left-clean (c ∷ cs) h = rw h.0

  strip_right-clean : (cs : List ℕ) → All (λ c. test c ≡ false) cs → strip_right test cs ≡ cs
  unfolding strip_right
  strip_right-clean [] h = refl
  strip_right-clean (c ∷ []) h = rw h.0
  strip_right-clean (c ∷ d ∷ cs) h = rw (strip_right-clean (d ∷ cs) h.1, strip_right)

  strip-clean : (cs : List ℕ) → All (λ c. test c ≡ false) cs → strip test cs ≡ cs
  unfolding strip
  strip-clean cs h = rw (strip_left-clean cs h) (strip_right-clean cs h)

  strip_left-length : (cs : List ℕ) → length (strip_left test cs) ≤ length cs
  unfolding strip_left
  strip_left-length [] = omega arith
  strip_left-length (c ∷ cs) = ground (arith, strip_left-length cs)

  strip_right-length : (cs : List ℕ) → length (strip_right test cs) ≤ length cs
  unfolding strip_right
  strip_right-length [] = omega arith
  strip_right-length (c ∷ cs) = ground (arith, strip_right-length cs)

Plain-not_brace : (cs : List ℕ) → All Plain cs → All (λ c. is_brace c ≡ false) cs
unfolding is_brace
Plain-not_brace [] h = tt
Plain-not_brace (c ∷ cs) h = (ground arith, Plain-not_brace cs h.1)

digits-not_space : (ds : List Hex) → All (λ c. is_space c ≡ false) (digits ds)
digits-not_space [] = tt
digits-not_space (d ∷ ds) = (hex_char-not_space d, digits-not_space ds)

to_ascii-hex_char : (d : Hex) → to_ascii (code (hex_char d)) ≡ code (hex_char d)
unfolding to_ascii
to_ascii-hex_char x0 = refl
to_ascii-hex_char _ = refl

to_ascii-digits : (ds : List Hex) → map to_ascii (digits ds) ≡ digits ds
to_ascii-digits [] = refl
to_ascii-digits (d ∷ ds) = rw (to_ascii-hex_char d, to_ascii-digits ds) refl

compact-spell : (ds : List Hex) → compact (spell 0 ds) ≡ digits ds
unfolding compact
compact-spell ds =
    let h = spell-Plain 0 ds in
    rw
      (
        without_urn-Plain (codes (spell 0 ds)) h,
        without_uuid-Plain (codes (spell 0 ds)) h,
        strip-clean is_brace (codes (spell 0 ds)) (Plain-not_brace (codes (spell 0 ds)) h),
      )
      (keep-spell 0 ds)

drop_sign-digits : (ds : List Hex) → drop_sign (digits ds) ≡ digits ds
unfolding drop_sign
drop_sign-digits [] = refl
drop_sign-digits (d ∷ ds) = rw (hex_char-not_mark d).0

drop_prefix-digits : (ds : List Hex) → drop_prefix (digits ds) ≡ digits ds
unfolding drop_prefix
drop_prefix-digits (d ∷ e ∷ ds) = ground (arith, hex_char-not_mark e)
drop_prefix-digits (d ∷ []) = refl
drop_prefix-digits [] = refl

read_digits-digits : (d : Hex) (ds : List Hex) → read_digits (digits (d ∷ ds)) ≡ some (d ∷ ds)
unfolding read_digits
read_digits-digits d [] = rw (read_digit-hex_char d)
read_digits-digits d (e ∷ []) = rw (read_digit-hex_char d, read_digit-hex_char e)
read_digits-digits d (e ∷ f ∷ ds) =
    rw (read_digit-hex_char d, (hex_char-not_mark e).1, read_digits-digits e (f ∷ ds))

read_int-digits : (d : Hex) (ds : List Hex) → read_int (digits (d ∷ ds)) ≡ some (d ∷ ds)
unfolding read_int
read_int-digits d ds =
    ap (λ cs. read_digits (drop_prefix (drop_sign (strip is_space cs)))) (to_ascii-digits (d ∷ ds))
    ∙ ap (λ cs. read_digits (drop_prefix (drop_sign cs)))
        (strip-clean is_space (digits (d ∷ ds)) (digits-not_space (d ∷ ds)))
    ∙ ap (λ cs. read_digits (drop_prefix cs)) (drop_sign-digits (d ∷ ds))
    ∙ ap read_digits (drop_prefix-digits (d ∷ ds))
    ∙ read_digits-digits d ds

length-read_digits :
    (cs : List ℕ) (ds : List Hex) → read_digits cs ≡ some ds → length ds ≤ length cs
unfolding read_digits Option.bind
length-read_digits [] ds h = cc
length-read_digits (c ∷ []) ds h = elim (Option-cases (read_digit c)) [
  | inl bad ↦ ground arith
  | inr (d, good) ↦ ground arith
]
length-read_digits (c ∷ c' ∷ []) ds h = ground arith
length-read_digits (c ∷ c' ∷ c'' ∷ cs) ds h = elim (Bool-cases (same c' b'_')) [
  | inl apart ↦ elim (Option-cases (read_digits (c'' ∷ cs))) [
    | inl bad ↦ ground arith
    | inr (es, good) ↦ ground (arith, length-read_digits (c'' ∷ cs) es good)
  ]
  | inr next ↦ elim (Option-cases (read_digits (c' ∷ c'' ∷ cs))) [
    | inl bad ↦ ground arith
    | inr (es, good) ↦ ground (arith, length-read_digits (c' ∷ c'' ∷ cs) es good)
  ]
]

length-drop_sign-le : (cs : List ℕ) → length (drop_sign cs) ≤ length cs
unfolding drop_sign
length-drop_sign-le [] = omega arith
length-drop_sign-le (c ∷ cs) = ground arith

length-drop_prefix-le : (cs : List ℕ) → length (drop_prefix cs) ≤ length cs
unfolding drop_prefix
length-drop_prefix-le [] = omega arith
length-drop_prefix-le (c ∷ []) = omega arith
length-drop_prefix-le (c ∷ c' ∷ []) = ground arith
length-drop_prefix-le (c ∷ c' ∷ d ∷ cs) = ground arith

length-read_int : (cs : List ℕ) (ds : List Hex) → read_int cs ≡ some ds → length ds ≤ length cs
unfolding read_int strip
length-read_int cs ds h =
    let read = map to_ascii cs in
    let left = strip_left is_space read in
    let bare = strip_right is_space left in
    omega (
      arith,
      length-read_digits (drop_prefix (drop_sign bare)) ds h,
      length-drop_prefix-le (drop_sign bare),
      length-drop_sign-le bare,
      strip_right-length is_space left,
      strip_left-length is_space read,
      length-map to_ascii cs,
    )

length-pad : (n : ℕ) (ds : List Hex) → length (pad n ds) ≡ n + length ds
unfolding pad
length-pad zero ds = omega arith
length-pad (suc n) ds = omega (arith, length-pad n ds)

-- 32 digits, printed and read again
parse_uuid-spell : (ds : List Hex) → length ds ≡ 32 → parse_uuid (spell 0 ds) ≡ some (spell 0 ds)
unfolding parse_uuid
parse_uuid-spell [] h = absurd (omega arith)
parse_uuid-spell (d ∷ ds) h =
    let n : length (digits (d ∷ ds)) ≡ 32 = length-map (λ e. code (hex_char e)) (d ∷ ds) ∙ h in
    rw (compact-spell (d ∷ ds), n, read_int-digits d ds, h) (unfold pad in refl)

-- A text that the parser returns has 32 digits.
uuid_of-form :
    (cs : List ℕ) (c : String)
    → uuid_of cs ≡ some c
    → (ds : List Hex) × (length ds ≡ 32) × (spell 0 ds ≡ c)
unfolding uuid_of
uuid_of-form cs c h = elim (Bool-cases (same (length cs) 32)) [
  | inr other ↦ absurd (ground arith)
  | inl fits ↦ elim (Option-cases (read_int cs)) [
    | inl bad ↦ absurd (ground arith)
    | inr (ds, good) ↦
        let padded = pad (32 - length ds) ds in
        let m = length-read_int cs ds good in
        (padded, ground (arith, length-pad (32 - length ds) ds), ground arith)
  ]
]

parse_uuid-form :
    (s c : String) → parse_uuid s ≡ some c → (ds : List Hex) × (length ds ≡ 32) × (spell 0 ds ≡ c)
unfolding parse_uuid
parse_uuid-form s c h = uuid_of-form (compact s) c h

-- A text that the UUID parser returns for another is the one that it returns for itself.
pub parse_uuid-canonical : (s c : String) → parse_uuid s ≡ some c → parse_uuid c ≡ some c
parse_uuid-canonical s c h =
    let (ds, all, spelt) = parse_uuid-form s c h in
    subst (λ t. parse_uuid t ≡ some t) spelt (parse_uuid-spell ds all)
