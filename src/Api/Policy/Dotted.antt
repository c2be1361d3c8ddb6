-- ===== src/Api/Policy/Dotted.antt =====
-- A dotted address of four numbers, and what the request policy reads from it.
use dev_box.Prelude.{
  ℕ, ◌≤◌, ◌≡◌, refl, [], ◌∷◌, ◌++◌, arith, Bool, true, false, length, All, All-append, All-map,
  some, leb, ◌==◌,
}
use dev_box.Prelude.Int.{ℤ, pos}
use dev_box.Text.{Text}
use dev_box.Text.Decimal.{decimal}
use dev_box.Text.Decimal.Reading.{
  IsDigit, decimal-All, decimal-cons, length-decimal, parse_int-decimal,
}
use dev_box.Text.Split.{split, to_lower, lower_unit, is_digit}
use dev_box.Api.Policy.{is_ipv4, digit_group, all_digits, four_parts, out_of_range, ip_parts}

abbrev pub dotted : (a b c d : ℕ) → Text
dotted a b c d = decimal a ++ b'.' ∷ (decimal b ++ b'.' ∷ (decimal c ++ b'.' ∷ decimal d))

split-digits : (s : Text) → All IsDigit s → split b'.' s ≡ s ∷ []
unfolding split
split-digits [] h = refl
split-digits (c ∷ s) ((low, high), h) =
    let dot : (c == b'.') ≡ false = ground arith in rw (dot, split-digits s h) refl

split-digits_dot : (s t : Text) → All IsDigit s → split b'.' (s ++ b'.' ∷ t) ≡ s ∷ split b'.' t
unfolding split
split-digits_dot [] t h = refl
split-digits_dot (c ∷ s) t ((low, high), h) =
    let dot : (c == b'.') ≡ false = ground arith in rw (dot, split-digits_dot s t h) refl

pub split-dotted :
    (a b c d : ℕ) → split b'.' (dotted a b c d) ≡ decimal a ∷ decimal b ∷ decimal c ∷ decimal d ∷ []
split-dotted a b c d =
    rw
      (
        split-digits_dot (decimal a) (decimal b ++ b'.' ∷ (decimal c ++ b'.' ∷ decimal d))
            (decimal-All a),
        split-digits_dot (decimal b) (decimal c ++ b'.' ∷ decimal d) (decimal-All b),
        split-digits_dot (decimal c) (decimal d) (decimal-All c),
        split-digits (decimal d) (decimal-All d),
      )
      refl

ip_parts-dotted :
    (a b c d : ℕ)
    → ip_parts (dotted a b c d) ≡ some (pos a) ∷ some (pos b) ∷ some (pos c) ∷ some (pos d) ∷ []
ip_parts-dotted a b c d =
    rw
      (
        split-dotted a b c d,
        parse_int-decimal a,
        parse_int-decimal b,
        parse_int-decimal c,
        parse_int-decimal d,
      )
      refl

-- Nothing in an address is changed by `toLowerCase`.
to_lower-plain : (s : Text) → All (λ c. c ≤ b'9') s → to_lower s ≡ s
unfolding to_lower
to_lower-plain [] h = refl
to_lower-plain (c ∷ s) (low, h) =
    let same : lower_unit c ≡ c = ground arith in rw (same, to_lower-plain s h) refl

decimal-plain : (n : ℕ) → All (λ c. c ≤ b'9') (decimal n)
decimal-plain n = All-map (λ c digit. digit.1) (decimal n) (decimal-All n)

append_dot-plain :
    (n : ℕ) (t : Text) → All (λ c. c ≤ b'9') t → All (λ c. c ≤ b'9') (decimal n ++ b'.' ∷ t)
append_dot-plain n t h = All-append _ (decimal n) (b'.' ∷ t) (decimal-plain n) (omega arith, h)

pub to_lower-dotted : (a b c d : ℕ) → to_lower (dotted a b c d) ≡ dotted a b c d
to_lower-dotted a b c d =
    to_lower-plain (dotted a b c d)
      (append_dot-plain a _ (append_dot-plain b _ (append_dot-plain c _ (decimal-plain d))))

all_digits-All : (s : Text) → All IsDigit s → all_digits s ≡ true
all_digits-All [] h = refl
all_digits-All (c ∷ s) ((low, high), h) =
    let digit : is_digit c ≡ true = ground arith in rw (digit, all_digits-All s h) refl

digit_group-decimal : (n : ℕ) → n ≤ 255 → digit_group (decimal n) ≡ true
unfolding digit_group
digit_group-decimal n h =
    let (c, s, e) = decimal-cons n in
    let positive : leb 1 (length (decimal n)) ≡ true = rw e (ground arith) in
    let short : leb (length (decimal n)) 3 ≡ true =
      ground (arith, length-decimal n (omega arith)) in
    rw (positive, short, all_digits-All (decimal n) (decimal-All n)) refl

pub is_ipv4-dotted :
    (a b c d : ℕ) → a ≤ 255 → b ≤ 255 → c ≤ 255 → d ≤ 255 → is_ipv4 (dotted a b c d) ≡ true
unfolding is_ipv4
is_ipv4-dotted a b c d ha hb hc hd =
    rw
      (
        split-dotted a b c d,
        digit_group-decimal a ha,
        digit_group-decimal b hb,
        digit_group-decimal c hc,
        digit_group-decimal d hd,
      )
      refl

pub four_parts-dotted :
    (test : ℤ → ℤ → Bool) (a b c d : ℕ)
    → a ≤ 255
    → b ≤ 255
    → c ≤ 255
    → d ≤ 255
    → four_parts test (ip_parts (dotted a b c d)) ≡ test (pos a) (pos b)
four_parts-dotted test a b c d ha hb hc hd =
    let a_fits : out_of_range (some (pos a)) ≡ false = ground arith in
    let b_fits : out_of_range (some (pos b)) ≡ false = ground arith in
    let c_fits : out_of_range (some (pos c)) ≡ false = ground arith in
    let d_fits : out_of_range (some (pos d)) ≡ false = ground arith in
    rw (ip_parts-dotted a b c d, a_fits, b_fits, c_fits, d_fits) refl
