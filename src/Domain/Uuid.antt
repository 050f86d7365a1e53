-- ===== src/Domain/Uuid.antt =====
-- `str(uuid.UUID(text))`, on which `ForecastJobIdentity.parse` rests: the constructor drops "urn:",
-- "uuid:", outer braces and dashes, wants 32 characters and reads them by `int(text, 16)`; the
-- printed form is `%032x` with dashes. Digits and spaces outside ASCII are those of Unicode 15, which
-- `int` turns into ASCII ones first.
pub mod Canonical
use Prim.Native.Char.{Char, code}
use Prim.Native.String.{[] as empty, ◌∷◌ as cons}
use mathlib.Core.Option
use earth2_sandbox.Prelude.{
  ℕ, suc, zero, ◌+◌, ◌-◌, String, Bool, ◌&&◌, ◌||◌, not, Option, none, some, List, [], ◌∷◌, length,
  keep, map, leb, if◌then◌else◌,
}

pub data Hex : Type 0 where
  x0 x1 x2 x3 x4 x5 x6 x7 x8 x9 xa xb xc xd xe xf : Hex

abbrev pub hex_char : Hex → Char
hex_char x0 = "0"
hex_char x1 = "1"
hex_char x2 = "2"
hex_char x3 = "3"
hex_char x4 = "4"
hex_char x5 = "5"
hex_char x6 = "6"
hex_char x7 = "7"
hex_char x8 = "8"
hex_char x9 = "9"
hex_char xa = "a"
hex_char xb = "b"
hex_char xc = "c"
hex_char xd = "d"
hex_char xe = "e"
hex_char xf = "f"

abbrev pub same : ℕ → ℕ → Bool
same a b = leb a b && leb b a

pick : ℕ → List Hex → Option Hex
pick n [] = none
pick zero (d ∷ ds) = some d
pick (suc n) (d ∷ ds) = pick n ds

-- a digit of base 16, in either case
read_digit : ℕ → Option Hex
unfolding pick
read_digit c =
    if leb b'0' c && leb c b'9'
    then pick (c - b'0') (x0 ∷ x1 ∷ x2 ∷ x3 ∷ x4 ∷ x5 ∷ x6 ∷ x7 ∷ x8 ∷ x9 ∷ [])
    else if leb b'a' c && leb c b'f'
    then pick (c - b'a') (xa ∷ xb ∷ xc ∷ xd ∷ xe ∷ xf ∷ [])
    else if leb b'A' c && leb c b'F'
    then pick (c - b'A') (xa ∷ xb ∷ xc ∷ xd ∷ xe ∷ xf ∷ [])
    else none

-- digits with single underscores between them
read_digits : List ℕ → Option (List Hex)
unfolding Option.bind
read_digits [] = none
read_digits (c ∷ []) = Option.map (λ d. d ∷ []) (read_digit c)
read_digits (c ∷ c' ∷ []) =
    Option.bind (read_digit c) (λ d. Option.map (λ e. d ∷ e ∷ []) (read_digit c'))
read_digits (c ∷ c' ∷ c'' ∷ cs) =
    let apart = read_digits (c'' ∷ cs) in
    let next = read_digits (c' ∷ c'' ∷ cs) in
    Option.bind (read_digit c) (λ d. Option.map (◌∷◌ d) (if same c' b'_' then apart else next))

-- whitespace to C, which is what `int` skips
is_space : ℕ → Bool
is_space c = same c 32 || (leb 9 c && leb c 13)

-- whitespace outside ASCII
is_wide_space : ℕ → Bool
is_wide_space c =
    same c 0x85
    || same c 0xa0
    || same c 0x1680
    || (leb 0x2000 c && leb c 0x200a)
    || same c 0x2028
    || same c 0x2029
    || same c 0x202f
    || same c 0x205f
    || same c 0x3000

-- the zeros of the decimal digits outside ASCII, nine digits after each
wide_zeros : List ℕ
wide_zeros =
    0x660 ∷ 0x6f0 ∷ 0x7c0 ∷ 0x966 ∷ 0x9e6 ∷ 0xa66 ∷ 0xae6 ∷ 0xb66 ∷ 0xbe6 ∷ 0xc66 ∷ 0xce6 ∷ 0xd66
    ∷ 0xde6 ∷ 0xe50 ∷ 0xed0 ∷ 0xf20 ∷ 0x1040 ∷ 0x1090 ∷ 0x17e0 ∷ 0x1810 ∷ 0x1946 ∷ 0x19d0 ∷ 0x1a80
    ∷ 0x1a90 ∷ 0x1b50 ∷ 0x1bb0 ∷ 0x1c40 ∷ 0x1c50 ∷ 0xa620 ∷ 0xa8d0 ∷ 0xa900 ∷ 0xa9d0 ∷ 0xa9f0
    ∷ 0xaa50 ∷ 0xabf0 ∷ 0xff10 ∷ 0x104a0 ∷ 0x10d30 ∷ 0x11066 ∷ 0x110f0 ∷ 0x11136 ∷ 0x111d0 ∷ 0x112f0
    ∷ 0x11450 ∷ 0x114d0 ∷ 0x11650 ∷ 0x116c0 ∷ 0x11730 ∷ 0x118e0 ∷ 0x11950 ∷ 0x11c50 ∷ 0x11d50
    ∷ 0x11da0 ∷ 0x11f50 ∷ 0x16a60 ∷ 0x16ac0 ∷ 0x16b50 ∷ 0x1d7ce ∷ 0x1d7d8 ∷ 0x1d7e2 ∷ 0x1d7ec
    ∷ 0x1d7f6 ∷ 0x1e140 ∷ 0x1e2f0 ∷ 0x1e4f0 ∷ 0x1e950 ∷ 0x1fbf0 ∷ []

digit_from : List ℕ → ℕ → ℕ
digit_from [] c = c
digit_from (z ∷ zs) c =
    let other = digit_from zs c in if leb z c && leb c (z + 9) then b'0' + (c - z) else other

-- what `int` makes of a character before it reads the text
to_ascii : ℕ → ℕ
unfolding is_wide_space wide_zeros digit_from
to_ascii c = if leb c 126 then c else if is_wide_space c then 32 else digit_from wide_zeros c

-- `text.strip(chars)`
strip_left : (ℕ → Bool) → List ℕ → List ℕ
strip_left test [] = []
strip_left test (c ∷ cs) = let rest = strip_left test cs in if test c then rest else c ∷ cs

strip_right : (ℕ → Bool) → List ℕ → List ℕ
strip_right test [] = []
strip_right test (c ∷ cs) = elim (strip_right test cs) [
  | [] ↦ if test c then [] else c ∷ []
  | d ∷ ds ↦ c ∷ d ∷ ds
]

strip : (ℕ → Bool) → List ℕ → List ℕ
unfolding strip_left strip_right
strip test cs = strip_right test (strip_left test cs)

drop_sign : List ℕ → List ℕ
drop_sign [] = []
drop_sign (c ∷ cs) = if same c b'+' then cs else c ∷ cs

drop_underscore : List ℕ → List ℕ
drop_underscore [] = []
drop_underscore (c ∷ cs) = if same c b'_' then cs else c ∷ cs

drop_prefix : List ℕ → List ℕ
unfolding drop_underscore
drop_prefix (c ∷ c' ∷ cs) =
    if same c b'0' && (same c' b'x' || same c' b'X') then drop_underscore cs else c ∷ c' ∷ cs
drop_prefix cs = cs

-- `int(text, 16)`, as its digits; a minus sign cannot be left when it is called
read_int : List ℕ → Option (List Hex)
unfolding read_digits read_digit strip is_space to_ascii drop_sign drop_prefix
read_int cs = read_digits (drop_prefix (drop_sign (strip is_space (map to_ascii cs))))

-- `text.replace("urn:", "")`
without_urn : List ℕ → List ℕ
without_urn (a ∷ b ∷ c ∷ d ∷ cs) =
    let skipped = without_urn cs in
    let next = a ∷ without_urn (b ∷ c ∷ d ∷ cs) in
    if same a b'u' && same b b'r' && same c b'n' && same d b':' then skipped else next
without_urn cs = cs

-- `text.replace("uuid:", "")`
without_uuid : List ℕ → List ℕ
without_uuid (a ∷ b ∷ c ∷ d ∷ e ∷ cs) =
    let skipped = without_uuid cs in
    let next = a ∷ without_uuid (b ∷ c ∷ d ∷ e ∷ cs) in
    if same a b'u' && same b b'u' && same c b'i' && same d b'd' && same e b':'
    then skipped
    else next
without_uuid cs = cs

is_brace : ℕ → Bool
is_brace c = same c b'{' || same c b'}'

abbrev not_dash : ℕ → Bool
not_dash c = not (same c b'-')

abbrev pub codes : String → List ℕ
codes empty = []
codes (cons c s) = code c ∷ codes s

compact : String → List ℕ
unfolding strip is_brace without_urn without_uuid
compact s = keep not_dash (strip is_brace (without_uuid (without_urn (codes s))))

pad : ℕ → List Hex → List Hex
pad zero ds = ds
pad (suc n) ds = x0 ∷ pad n ds

abbrev dash_before : ℕ → Bool
dash_before i = same i 8 || same i 12 || same i 16 || same i 20

-- the digits from position `i` on, with the dashes of the printed form
spell : ℕ → List Hex → String
spell i [] = empty
spell i (d ∷ ds) =
    let rest = cons (hex_char d) (spell (i + 1) ds) in if dash_before i then cons "-" rest else rest

uuid_of : List ℕ → Option String
uuid_of cs =
    if same (length cs) 32
    then Option.map (λ ds. spell 0 (pad (32 - length ds) ds)) (read_int cs)
    else none

unfoldable pub parse_uuid : String → Option String
unfolding compact read_int pad spell uuid_of
parse_uuid s = uuid_of (compact s)
