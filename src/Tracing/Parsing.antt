-- ===== src/Tracing/Parsing.antt =====
-- core/spakky-tracing/src/spakky/tracing/context.py: what the parts of the pattern match, and the two
-- digits of the flags.
use Prim.Native.Nat.{◌/◌, ◌%◌}
use spakky_framework.Common.{
  ℕ, zero, suc, ◌<◌, ◌≡◌, refl, ap, true, false, inl, inr, Option, none, some, [], ◌∷◌, ◌++◌, ltb,
  length, All, Bool-cases, arith,
}
use spakky_framework.Tracing.Hex.{
  Text, is_hex, hex_digit, digit_value, int_from, format_x, format_02x, take_hex, is_space,
}

abbrev pub Hex : ℕ → Type 0
Hex c = is_hex c ≡ true

pub take_hex-append :
    (n : ℕ) (ds after : Text)
    → All Hex ds
    → length ds ≡ n
    → take_hex n (ds ++ after) ≡ some (ds, after)
unfolding take_hex
take_hex-append zero [] after _ _ = refl
take_hex-append zero (d ∷ ds) after _ h = absurd (omega (arith, h))
take_hex-append (suc n) [] after _ h = absurd (omega (arith, h))
take_hex-append (suc n) (d ∷ ds) after (p, ps) h =
    let rest = take_hex-append n ds after ps (omega (arith, h)) in rw (p, rest) refl

-- What is taken is so many digits.
abbrev pub Digits : ℕ → Option (Text × Text) → Type 0
Digits n none = Unit
Digits n (some (ds, after)) = All Hex ds × (length ds ≡ n)

Digits-cons :
    (n c : ℕ) (rest : Option (Text × Text))
    → Hex c
    → Digits n rest
    → Digits (suc n) (elim rest [ some (ds, after) ↦ some (c ∷ ds, after) | none ↦ none ])
Digits-cons n c none hex h = tt
Digits-cons n c (some (ds, after)) hex (hs, same) = ((hex, hs), ap suc same)

pub take_hex-Digits : (n : ℕ) (text : Text) → Digits n (take_hex n text)
unfolding take_hex
take_hex-Digits zero text = (tt, refl)
take_hex-Digits (suc n) [] = tt
take_hex-Digits (suc n) (c ∷ text) = elim (Bool-cases (is_hex c)) [
  | inl hex ↦ rw hex (Digits-cons n c (take_hex n text) hex (take_hex-Digits n text))
  | inr other ↦ rw other tt
]

pub hex_digit-Hex : (d : ℕ) → d < 16 → Hex (hex_digit d)
hex_digit-Hex d small = ground arith

pub digit_value-hex_digit : (d : ℕ) → d < 16 → digit_value (hex_digit d) ≡ d
digit_value-hex_digit d small = ground arith

pub hex_digit-not_space : (d : ℕ) → d < 16 → is_space (hex_digit d) ≡ false
hex_digit-not_space d small = ground arith

format_x-small : (fuel n : ℕ) → n < 16 → format_x fuel n ≡ hex_digit n ∷ []
unfolding format_x
format_x-small zero n small = ap (λ d. hex_digit d ∷ []) (omega (arith, small))
format_x-small (suc fuel) n small = let less : ltb n 16 ≡ true = ground arith in rw less refl

abbrev two : ℕ → Text
two n = hex_digit (n / 16) ∷ hex_digit (n % 16) ∷ []

small-two : (n : ℕ) → n < 16 → 48 ∷ hex_digit n ∷ [] ≡ two n
small-two n small =
    let front : 0 ≡ n / 16 = omega (arith, small) in
    let back : n ≡ n % 16 = omega (arith, small) in
    λ i. hex_digit (front i) ∷ hex_digit (back i) ∷ []

pub format_02x-digits :
    (n : ℕ) → n < 256 → format_02x n ≡ hex_digit (n / 16) ∷ hex_digit (n % 16) ∷ []
unfolding format_02x format_x
format_02x-digits zero small = refl
format_02x-digits (suc k) small = elim (Bool-cases (ltb (suc k) 16)) [
  | inl less ↦ let below : suc k < 16 = ground arith in rw less (small-two (suc k) below)
  | inr more ↦ rw (more, format_x-small k (suc k / 16) (omega (arith, small))) refl
]

-- `int(digits, 16)` of two digits stays in a byte.
pub int_from-less : (ds : Text) → All Hex ds → length ds ≡ 2 → int_from 0 ds < 256
unfolding int_from
int_from-less [] _ h = absurd (omega (arith, h))
int_from-less (c ∷ []) _ h = absurd (omega (arith, h))
int_from-less (c ∷ d ∷ []) (p, (q, _)) h =
    let first : digit_value c < 16 = ground arith in
    let second : digit_value d < 16 = ground arith in omega (arith, first, second)
int_from-less (c ∷ d ∷ e ∷ ds) _ h = absurd (omega (arith, h))
