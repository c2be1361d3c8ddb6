-- ===== src/Text/Decimal/Reading.antt =====
-- The decimal digits of a number: what `parseInt` and `toLowerCase` make of them.
use dev_box.Prelude.{
  ℕ, zero, suc, ◌+◌, ◌-◌, ◌*◌, ◌/◌, ◌%◌, ◌<◌, ◌≤◌, ◌≡◌, refl, [], ◌∷◌, ◌++◌, arith, ltb, true,
  false, ◌==◌, ap, Bool-cases, inl, inr, length, length-append, All, All-append, some, ◌∙◌, sym,
}
use mathlib.Core.Path.{subst}
use dev_box.Prelude.Int.{pos}
use dev_box.Text.{Text, is_space, trim_start}
use dev_box.Text.Decimal.{digits, decimal, value_from, value_from-digits}
use dev_box.Text.Split.{is_digit, read_digits, parse_int}

abbrev pub IsDigit : ℕ → Type 0
IsDigit c = (b'0' ≤ c) × (c ≤ b'9')

digits-All : (fuel n : ℕ) → All IsDigit (digits fuel n)
unfolding digits
digits-All zero n = tt
digits-All (suc fuel) n = elim (Bool-cases (ltb n 10)) [
  | inl small ↦ rw small ((omega arith, ground arith), tt)
  | inr large ↦ rw large (
      All-append IsDigit (digits fuel (n / 10)) _ (digits-All fuel (n / 10))
        ((omega arith, omega arith), tt))
]

pub decimal-All : (n : ℕ) → All IsDigit (decimal n)
unfolding decimal
decimal-All n = digits-All (suc n) n

append-cons : (s : Text) (c : ℕ) → (d : ℕ) × (t : Text) × (s ++ c ∷ [] ≡ d ∷ t)
append-cons [] c = (c, [], refl)
append-cons (d ∷ s) c = (d, s ++ c ∷ [], refl)

-- There is a first digit.
pub decimal-cons : (n : ℕ) → (d : ℕ) × (t : Text) × (decimal n ≡ d ∷ t)
unfolding decimal digits
decimal-cons n = elim (Bool-cases (ltb n 10)) [
  | inl small ↦ rw small (b'0' + n, [], refl)
  | inr large ↦ rw large (append-cons (digits n (n / 10)) (b'0' + n % 10))
]

-- A digit more for each factor of ten.
length-digits-small : (fuel n : ℕ) → n < 10 → length (digits (suc fuel) n) ≡ 1
unfolding digits
length-digits-small fuel n h = let small : ltb n 10 ≡ true = ground arith in rw small refl

length-digits-next :
    (fuel n k : ℕ) → length (digits fuel (n / 10)) ≤ k → length (digits (suc fuel) n) ≤ suc k
unfolding digits
length-digits-next fuel n k h = elim (Bool-cases (ltb n 10)) [
  | inl small ↦ rw small (omega arith)
  | inr large ↦ rw (large, length-append) (omega (arith, h))
]

length-digits-hundred : (fuel n : ℕ) → n < 100 → length (digits (suc fuel) n) ≤ 2
unfolding digits
length-digits-hundred zero n h = length-digits-next zero n 1 (omega arith)
length-digits-hundred (suc fuel) n h =
    length-digits-next (suc fuel) n 1
      (omega (arith, length-digits-small fuel (n / 10) (omega arith)))

pub length-decimal : (n : ℕ) → n < 1000 → length (decimal n) ≤ 3
unfolding decimal digits
length-decimal zero h = omega arith
length-decimal (suc n) h =
    length-digits-next (suc n) (suc n) 2 (length-digits-hundred n (suc n / 10) (omega arith))

read_digits-value :
    (s : Text) (m : ℕ) → All IsDigit s → read_digits (some m) s ≡ some (value_from m s)
unfolding read_digits
read_digits-value [] m h = refl
read_digits-value (c ∷ s) m ((low, high), h) =
    let digit : is_digit c ≡ true = ground arith in
    rw digit (read_digits-value s (m * 10 + (c - b'0')) h)

-- A text that starts with a digit is read as it stands.
parse_int-digits :
    (c : ℕ) (s : Text) → All IsDigit (c ∷ s) → parse_int (c ∷ s) ≡ some (pos (value_from 0 (c ∷ s)))
unfolding parse_int trim_start is_space read_digits
parse_int-digits c s ((low, high), h) =
    let space : is_space c ≡ false = ground arith in
    let minus : (c == b'-') ≡ false = ground arith in
    let plus : (c == b'+') ≡ false = ground arith in
    let digit : is_digit c ≡ true = ground arith in
    rw (space, minus, plus, digit, read_digits-value s (c - b'0') h)
      (ap (λ k. some (pos (value_from k s))) (omega arith))

pub parse_int-decimal : (n : ℕ) → parse_int (decimal n) ≡ some (pos n)
unfolding decimal
parse_int-decimal n =
    let (c, s, e) = decimal-cons n in
    ap parse_int e
    ∙ parse_int-digits c s (subst (All IsDigit) e (decimal-All n))
    ∙ ap (λ t. some (pos (value_from 0 t))) (sym e)
    ∙ ap (λ k. some (pos k)) (value_from-digits (suc n) n (omega arith))
