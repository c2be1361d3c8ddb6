-- ===== src/Text.antt =====
-- JavaScript strings as the code units that they hold, with the string methods that the sources
-- call: `===`, `startsWith`, `endsWith`, `indexOf`, `slice`, `trim`, `toLowerCase`, `split`, and a
-- number in a template literal.
pub mod Equality
pub mod Decimal
pub mod Split
pub mod Number
pub mod Until
use Prim.Native.Char.{code}
use Prim.Native.String.{String}
use dev_box.Prelude.{
  ℕ, zero, suc, ◌+◌, ◌-◌, Bool, true, false, ◌&&◌, ◌||◌, List, [], ◌∷◌, ◌++◌, reverse, leb, ltb,
  ◌==◌, if◌then◌else◌, Option, none, some,
}

abbrev pub Text : Type 0
Text = List ℕ

-- The code units of a literal (ASCII in the sources that are modelled).
abbrev pub codes : String → Text
codes String.[] = []
codes (String.◌∷◌ c s) = code c ∷ codes s

-- a === b
unfoldable pub text_eq : Text → Text → Bool
text_eq [] [] = true
text_eq [] (_ ∷ _) = false
text_eq (_ ∷ _) [] = false
text_eq (a ∷ s) (b ∷ t) = (a == b) && text_eq s t

-- A string in a condition: the empty one is false.
abbrev pub truthy : Text → Bool
truthy [] = false
truthy (_ ∷ _) = true

-- text.startsWith(prefix)
unfoldable pub starts_with : Text → Text → Bool
starts_with text [] = true
starts_with [] (_ ∷ _) = false
starts_with (c ∷ text) (p ∷ prefix) = (c == p) && starts_with text prefix

-- What `\s` and `trim` take for white space, line ends included.
unfoldable pub is_space : ℕ → Bool
is_space c =
    (leb 9 c && leb c 13)
    || c == 32
    || c == 0xa0
    || c == 0x1680
    || (leb 0x2000 c && leb c 0x200a)
    || c == 0x2028
    || c == 0x2029
    || c == 0x202f
    || c == 0x205f
    || c == 0x3000
    || c == 0xfeff

unfoldable pub trim_start : Text → Text
unfolding is_space
trim_start [] = []
trim_start (c ∷ s) = if is_space c then trim_start s else c ∷ s

unfoldable pub trim : Text → Text
unfolding trim_start
trim s = reverse (trim_start (reverse (trim_start s)))
