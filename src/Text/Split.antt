-- ===== src/Text/Split.antt =====
-- The string methods that take a text apart or read a number from it: `endsWith`, `slice(1)`,
-- `toLowerCase` (as far as a comparison with ASCII goes), `split` at one code unit, and `parseInt` with radix 10.
use dev_box.Prelude.{
  ℕ, zero, suc, ◌+◌, ◌-◌, ◌*◌, Bool, false, ◌&&◌, List, [], ◌∷◌, reverse, map, leb, ◌==◌,
  if◌then◌else◌, Option, none, some,
}
use dev_box.Prelude.Int.{ℤ, pos, negsuc}
use dev_box.Text.{Text, starts_with, trim_start, is_space}

-- text.endsWith(suffix)
unfoldable pub ends_with : Text → Text → Bool
unfolding starts_with
ends_with text suffix = starts_with (reverse text) (reverse suffix)

-- text.slice(1)
abbrev pub tail : Text → Text
tail [] = []
tail (_ ∷ s) = s

-- The ASCII capitals, and the Kelvin sign, which is the one other unit that becomes an ASCII letter.
abbrev pub lower_unit : ℕ → ℕ
lower_unit c = if leb b'A' c && leb c b'Z' then c + 32 else if c == 8490 then b'k' else c

-- text.toLowerCase()
unfoldable pub to_lower : Text → Text
to_lower s = map lower_unit s

abbrev pub onto_head : ℕ → List Text → List Text
onto_head c [] = (c ∷ []) ∷ []
onto_head c (part ∷ parts) = (c ∷ part) ∷ parts

-- text.split(separator)
unfoldable pub split : ℕ → Text → List Text
split separator [] = [] ∷ []
split separator (c ∷ s) =
    let parts = split separator s in if c == separator then [] ∷ parts else onto_head c parts

-- `\d`
abbrev pub is_digit : ℕ → Bool
is_digit c = leb b'0' c && leb c b'9'

abbrev pub push_digit : Option ℕ → ℕ → ℕ
push_digit none c = c - b'0'
push_digit (some n) c = n * 10 + (c - b'0')

-- The number that the leading digits spell; no digit at all leaves NaN (`none`).
unfoldable pub read_digits : Option ℕ → Text → Option ℕ
read_digits so_far [] = so_far
read_digits so_far (c ∷ s) =
    let more = read_digits (some (push_digit so_far c)) s in if is_digit c then more else so_far

abbrev pub positive : Option ℕ → Option ℤ
positive none = none
positive (some n) = some (pos n)

abbrev pub negative : Option ℕ → Option ℤ
negative none = none
negative (some zero) = some (pos 0)
negative (some (suc n)) = some (negsuc n)

abbrev pub read_signed : Text → Option ℤ
read_signed [] = none
read_signed (c ∷ s) =
    if c == b'-'
    then negative (read_digits none s)
    else if c == b'+'
    then positive (read_digits none s)
    else positive (read_digits none (c ∷ s))

-- parseInt(text, 10)
unfoldable pub parse_int : Text → Option ℤ
unfolding trim_start read_digits
parse_int s = read_signed (trim_start s)

-- What stands before the first `mark` (`indexOf` and `slice`), all where there is none; and what is
-- left, from the mark on.
unfoldable pub until : ℕ → Text → Text × Text
until mark [] = ([], [])
until mark (c ∷ s) =
    let (taken, left) = until mark s in if c == mark then ([], c ∷ s) else (c ∷ taken, left)

unfoldable pub starts_space : Text → Bool
unfolding is_space
starts_space [] = false
starts_space (c ∷ _) = is_space c

-- text.replace(/\s+/g, ' '): a run of spaces leaves its last place.
unfoldable pub squeeze : Text → Text
unfolding is_space
squeeze [] = []
squeeze (c ∷ s) =
    let more = squeeze s in
    if is_space c then if starts_space s then more else b' ' ∷ more else c ∷ more
