-- ===== src/Text/Number.antt =====
-- `Number(text)` where an integer is wanted: the integer that the text denotes, or nothing for NaN,
-- a fraction or an infinity. Values are exact, so the rounding of a double is left out.
use dev_box.Prelude.{
  suc, ℕ, ◌+◌, ◌-◌, ◌*◌, ◌/◌, ◌%◌, ◌^◌, ◌&&◌, ◌||◌, [], ◌∷◌, ◌++◌, leb, ltb, ◌==◌, if◌then◌else◌,
  Option, none, some, length,
}
use dev_box.Prelude.Int.{ℤ, pos, negsuc}
use dev_box.Text.{Text, trim}
use dev_box.Text.Split.{is_digit, negative, positive}

-- The value of a digit in a radix of at most 16, and 99 for what is no digit.
abbrev pub digit_value : ℕ → ℕ
digit_value c =
    if is_digit c
    then c - b'0'
    else if leb b'a' c && leb c b'f'
    then c - b'a' + 10
    else if leb b'A' c && leb c b'F'
    then c - b'A' + 10
    else 99

-- Digits up to the end.
unfoldable pub read_radix : ℕ → ℕ → Text → Option ℕ
read_radix radix so_far [] = some so_far
read_radix radix so_far (c ∷ s) =
    let more = read_radix radix (so_far * radix + digit_value c) s in
    if ltb (digit_value c) radix then more else none

unfoldable pub some_digits : ℕ → Text → Option ℕ
unfolding read_radix
some_digits radix [] = none
some_digits radix (c ∷ s) = read_radix radix 0 (c ∷ s)

-- The leading decimal digits, and what is left.
unfoldable pub span_digits : Text → Text × Text
span_digits [] = ([], [])
span_digits (c ∷ s) =
    let (taken, left) = span_digits s in if is_digit c then (c ∷ taken, left) else ([], c ∷ s)

abbrev pub exact : ℕ → ℕ → Option ℕ
exact above below = if above % below == 0 then some (above / below) else none

abbrev pub scale_up : ℕ → ℕ → Option ℕ → Option ℕ
scale_up mantissa places none = none
scale_up mantissa places (some e) = exact (mantissa * 10 ^ e) (10 ^ places)

abbrev pub scale_down : ℕ → ℕ → Option ℕ → Option ℕ
scale_down mantissa places none = none
scale_down mantissa places (some e) = exact mantissa (10 ^ (places + e))

-- The exponent, with `mantissa` over ten to the number of its decimal places before it.
unfoldable pub read_exponent : ℕ → ℕ → Text → Option ℕ
unfolding some_digits
read_exponent mantissa places [] = exact mantissa (10 ^ places)
read_exponent mantissa places (c ∷ s) =
    if c == b'e' || c == b'E'
    then elim s [
      | [] ↦ none
      | d ∷ t ↦
          if d == b'-'
          then scale_down mantissa places (some_digits 10 t)
          else if d == b'+'
          then scale_up mantissa places (some_digits 10 t)
          else scale_up mantissa places (some_digits 10 (d ∷ t))
    ]
    else none

-- The digits behind the point.
unfoldable pub fraction : Text → Text × Text
unfolding span_digits
fraction [] = ([], [])
fraction (c ∷ s) = if c == b'.' then span_digits s else ([], c ∷ s)

unfoldable pub mantissa_then : Text → ℕ → Text → Option ℕ
unfolding some_digits read_exponent
mantissa_then all places rest = elim (some_digits 10 all) [
  | none ↦ none
  | some m ↦ read_exponent m places rest
]

unfoldable pub read_decimal : Text → Option ℕ
unfolding span_digits some_digits read_exponent
read_decimal s =
    let (whole, rest) = span_digits s in
    let (places, rest') = fraction rest in mantissa_then (whole ++ places) (length places) rest'

abbrev pub radix_of : ℕ → ℕ
radix_of c =
    if c == b'x' || c == b'X'
    then 16
    else if c == b'o' || c == b'O'
    then 8
    else if c == b'b' || c == b'B'
    then 2
    else 0

unfoldable pub read_unsigned : Text → Option ℕ
unfolding read_decimal some_digits
read_unsigned [] = none
read_unsigned (c ∷ []) = read_decimal (c ∷ [])
read_unsigned (c ∷ d ∷ s) =
    if c == b'0' && ltb 0 (radix_of d) then some_digits (radix_of d) s else read_decimal (c ∷ d ∷ s)

unfoldable pub read_trimmed : Text → Option ℤ
unfolding read_decimal some_digits
read_trimmed [] = some (pos 0)
read_trimmed (c ∷ s) =
    if c == b'-'
    then negative (read_decimal s)
    else if c == b'+'
    then positive (read_decimal s)
    else positive (read_unsigned (c ∷ s))

-- From this number on the value is Infinity, which is no integer.
abbrev pub finite : Option ℤ → Option ℤ
finite none = none
finite (some (pos n)) = if leb (2 ^ 1024 - 2 ^ 970) n then none else some (pos n)
finite (some (negsuc n)) = if leb (2 ^ 1024 - 2 ^ 970) (suc n) then none else some (negsuc n)

unfoldable pub to_integer : Text → Option ℤ
unfolding trim read_decimal some_digits
to_integer s = finite (read_trimmed (trim s))
