-- ===== src/Metrics/Escape.antt =====
-- The label values that src/earth2_sandbox/observability/metrics.py writes can be read back.
use Prim.Native.Char.{Char, code}
use text.Mathlib.TextEquality.{codes_equal}
use earth2_sandbox.Prelude.{
  ◌≡◌, refl, sym, ap, ◌∙◌, String, true, false, Option, none, some, inl, inr, Bool-cases,
  if◌then◌else◌, arith,
}
use earth2_sandbox.Prelude.Text.{same_char}
use earth2_sandbox.Metrics.{backslash, quote, replace_char, escape_label_value}

abbrev line_feed : Char
line_feed = "\n"

-- what stands for a character that was escaped
abbrev pub unescaped : Char → Char
unescaped c = if same_char c 110 then line_feed else c

abbrev pub prepend : Char → Option (String × String) → Option (String × String)
prepend c none = none
prepend c (some (value, rest)) = some (String.◌∷◌ c value, rest)

-- A reader of the Prometheus text format inside a label value: the value up to the first quote that is
-- not escaped, and what comes after the quote.
unfoldable pub read_value : String → Option (String × String)
read_value String.[] = none
read_value (String.◌∷◌ c String.[]) = if same_char c 34 then some ("", "") else none
read_value (String.◌∷◌ c (String.◌∷◌ d text)) =
    let plain = read_value (String.◌∷◌ d text) in
    let escaped = read_value text in
    if same_char c 34
    then some ("", String.◌∷◌ d text)
    else if same_char c 92
    then prepend (unescaped d) escaped
    else prepend c plain

-- the value with a quote and more after it
abbrev pub quoted : String → String → String
quoted String.[] rest = String.◌∷◌ quote rest
quoted (String.◌∷◌ c text) rest = String.◌∷◌ c (quoted text rest)

char_of : (c d : Char) → same_char c (code d) ≡ true → c ≡ d
char_of c d h = codes_equal c d (ground (arith, h))

-- the three replacements, one after the other, on one character
escape_cons :
    (c : Char) (text : String)
    → escape_label_value (String.◌∷◌ c text) ≡ (
        if same_char c 92
        then String.◌∷◌ backslash (String.◌∷◌ backslash (escape_label_value text))
        else if same_char c 10
        then String.◌∷◌ backslash (String.◌∷◌ "n" (escape_label_value text))
        else if same_char c 34
        then String.◌∷◌ backslash (String.◌∷◌ quote (escape_label_value text))
        else String.◌∷◌ c (escape_label_value text))
unfolding escape_label_value
escape_cons c text = elim (Bool-cases (same_char c 92)) [
  | inl slash ↦ rw (slash, replace_char)
  | inr no_slash ↦ elim (Bool-cases (same_char c 10)) [
    | inl feed ↦ rw (no_slash, feed, replace_char)
    | inr no_feed ↦ elim (Bool-cases (same_char c 34)) [
      | inl quoting ↦ rw (no_slash, no_feed, quoting, replace_char)
      | inr plain ↦ rw (no_slash, no_feed, plain, replace_char)
    ]
  ]
]

read_plain :
    (c : Char) (text value rest : String)
    → same_char c 34 ≡ false
    → same_char c 92 ≡ false
    → read_value text ≡ some (value, rest)
    → read_value (String.◌∷◌ c text) ≡ some (String.◌∷◌ c value, rest)
unfolding read_value
read_plain c String.[] value rest h k e = absurd (ground (arith, e))
read_plain c (String.◌∷◌ d text) value rest h k e = rw (h, k, e)

read_escaped :
    (d : Char) (value rest : String)
    → read_value (quoted (escape_label_value value) rest) ≡ some (value, rest)
    → read_value (String.◌∷◌ backslash (String.◌∷◌ d (quoted (escape_label_value value) rest)))
      ≡ some (String.◌∷◌ (unescaped d) value, rest)
unfolding read_value
read_escaped d value rest e = rw e

read_end : (rest : String) → read_value (String.◌∷◌ quote rest) ≡ some ("", rest)
unfolding read_value
read_end String.[] = refl
read_end (String.◌∷◌ d text) = refl

-- A reader gets back the value that was written, whatever it holds, and stops at the quote that ends
-- it: no quote, backslash or line feed of a value ends a sample early.
pub read_value-escape_label_value :
    (value rest : String) → read_value (quoted (escape_label_value value) rest) ≡ some (value, rest)
read_value-escape_label_value String.[] rest = unfold escape_label_value in read_end rest
read_value-escape_label_value (String.◌∷◌ c text) rest =
    let later = read_value-escape_label_value text rest in
    elim (Bool-cases (same_char c 92)) [
      | inl slash ↦
          rw (escape_cons c text, slash)
            (read_escaped "\\" text rest later
              ∙ ap (λ d. some (String.◌∷◌ d text, rest)) (sym (char_of c "\\" slash)))
      | inr no_slash ↦ elim (Bool-cases (same_char c 10)) [
        | inl feed ↦
            rw (escape_cons c text, no_slash, feed)
              (read_escaped "n" text rest later
                ∙ ap (λ d. some (String.◌∷◌ d text, rest)) (sym (char_of c line_feed feed)))
        | inr no_feed ↦ elim (Bool-cases (same_char c 34)) [
          | inl quoting ↦
              rw (escape_cons c text, no_slash, no_feed, quoting)
                (read_escaped quote text rest later
                  ∙ ap (λ d. some (String.◌∷◌ d text, rest)) (sym (char_of c quote quoting)))
          | inr plain ↦
              rw (escape_cons c text, no_slash, no_feed, plain)
                (read_plain c (quoted (escape_label_value text) rest) text rest plain no_slash
                  later)
        ]
      ]
    ]
