-- ===== src/Tracing/Hex.antt =====
-- core/spakky-tracing/src/spakky/tracing/context.py: texts, as lists of code points, and hexadecimal
-- digits.
use Prim.Native.Nat.{◌/◌, ◌%◌}
use spakky_framework.Common.{
  ℕ, zero, suc, ◌+◌, ◌-◌, ◌*◌, Bool, true, false, ◌&&◌, ◌||◌, Option, none, some, List, [], ◌∷◌,
  ◌++◌, nat_eq, ltb, leb, if◌then◌else◌, reverse,
}

-- A character by its code point, and a text.
abbrev pub Text : Type 0
Text = List ℕ

-- The Boolean `==` of texts.
abbrev pub text_eq : Text → Text → Bool
text_eq [] [] = true
text_eq (c ∷ cs) (d ∷ ds) = nat_eq c d && text_eq cs ds
text_eq _ _ = false

-- `[0-9a-f]`
abbrev pub is_hex : ℕ → Bool
is_hex c = (leb 48 c && leb c 57) || (leb 97 c && leb c 102)

abbrev pub hex_digit : ℕ → ℕ
hex_digit n = if ltb n 10 then 48 + n else 87 + n

abbrev pub digit_value : ℕ → ℕ
digit_value c = if leb c 57 then c - 48 else c - 87

-- `int(digits, 16)`, where `n` stands for the digits before.
unfoldable pub int_from : ℕ → Text → ℕ
int_from n [] = n
int_from n (c ∷ cs) = int_from (n * 16 + digit_value c) cs

-- `format(n, "x")`, on fuel; `n` is enough.
unfoldable pub format_x : ℕ → ℕ → Text
format_x zero n = hex_digit (n % 16) ∷ []
format_x (suc fuel) n =
    let front = format_x fuel (n / 16) in
    if ltb n 16 then hex_digit n ∷ [] else front ++ hex_digit (n % 16) ∷ []

-- `format(n, "02x")`
unfoldable pub format_02x : ℕ → Text
unfolding format_x
format_02x n = if ltb n 16 then 48 ∷ format_x n n else format_x n n

-- str.isspace
abbrev pub is_space : ℕ → Bool
is_space c =
    (leb 9 c && leb c 13)
    || (leb 28 c && leb c 32)
    || nat_eq c 133
    || nat_eq c 160
    || nat_eq c 5760
    || (leb 8192 c && leb c 8202)
    || nat_eq c 8232
    || nat_eq c 8233
    || nat_eq c 8239
    || nat_eq c 8287
    || nat_eq c 12288

unfoldable pub strip_left : Text → Text
strip_left [] = []
strip_left (c ∷ cs) = let rest = strip_left cs in if is_space c then rest else c ∷ cs

-- `text.strip()`
unfoldable pub strip : Text → Text
unfolding strip_left
strip text = reverse (strip_left (reverse (strip_left text)))

-- The digits that `[0-9a-f]{n}` takes, and the rest.
unfoldable pub take_hex : ℕ → Text → Option (Text × Text)
take_hex zero text = some ([], text)
take_hex (suc n) [] = none
take_hex (suc n) (c ∷ cs) =
    let rest = take_hex n cs in
    if is_hex c then elim rest [ some (ds, after) ↦ some (c ∷ ds, after) | none ↦ none ] else none

-- The text after the character `c`.
unfoldable pub take_char : ℕ → Text → Option Text
take_char c [] = none
take_char c (d ∷ text) = if nat_eq d c then some text else none

-- `$`: the end of the text, or a newline there.
unfoldable pub take_end : Text → Option (Unit {0})
take_end [] = some tt
take_end (c ∷ []) = if nat_eq c 10 then some tt else none
take_end (c ∷ d ∷ text) = none
