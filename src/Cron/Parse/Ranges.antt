-- ===== src/Cron/Parse/Ranges.antt =====
-- The range of a term: how it is read, and that it lies within the field.
use dev_box.Prelude.{
  ◌++◌, ◌==◌, refl, ap, sym, ℕ, ◌≤◌, ◌≡◌, ◌⊎◌, inl, inr, Bool, true, false, ◌||◌, List, [], ◌∷◌,
  arith, In, All, Bool-cases, Option-cases, Option, none, some, ltb, if◌then◌else◌, some_inj,
}
use mathlib.Core.Path.{subst}
use dev_box.Prelude.Int.{ℤ, pos, negsuc}
use dev_box.Text.{Text, codes, text_eq, trim}
use dev_box.Text.Number.{to_integer}
use dev_box.Text.Split.{to_lower, until, tail}
use dev_box.Text.Equality.{text_eq_sound}
use dev_box.Dict.{lookup}
use dev_box.Cron.Model.{Result, ok, err, ◌>>=◌, FieldSpec, reversed_range, field_number}
use dev_box.Cron.Parse.{in_range, read_token, read_value, split_range, read_range}
use dev_box.Text.Until.{until-cases}

-- What holds of a value that is returned.
abbrev pub Ensures {ℓ κ} : {A : Type ℓ} → (A → Type κ) → Result A → Type κ
Ensures P (ok a) = P a
Ensures P (err _) = Unit

pub Ensures-bind {ℓ κ ℓ' κ'} :
    {A : Type ℓ} {B : Type ℓ'} (P : A → Type κ) (Q : B → Type κ') (r : Result A) (f : A → Result B)
    → Ensures P r
    → ((a : A) → P a → Ensures Q (f a))
    → Ensures Q (r >>= f)
Ensures-bind P Q (ok a) f h k = k a h
Ensures-bind P Q (err _) f h k = tt

-- The same with what the first step returned.
pub Ensures-then {ℓ κ κ' ℓ'} :
    {A : Type ℓ} {B : Type ℓ'} (P : A → Type κ) (Q : B → Type κ') (r : Result A) (f : A → Result B)
    → Ensures P r
    → ((a : A) → r ≡ ok a → P a → Ensures Q (f a))
    → Ensures Q (r >>= f)
Ensures-then P Q (ok a) f h k = k a refl h
Ensures-then P Q (err _) f h k = tt

abbrev pub InRange : FieldSpec → ℕ → Type 0
InRange spec v = (spec.min ≤ v) × (v ≤ spec.max)

-- A field's range is not empty, its names are in it, and the days of the week begin at 0.
pub record IsSpec (spec : FieldSpec) : Type 0 where
  pub ordered : spec.min ≤ spec.max
  pub named : All (λ (entry : Text × ℕ). InRange spec entry.1) spec.names
  pub sunday : field_number spec.name ≡ 5 → spec.min ≡ 0

lookup-All :
    (P : ℕ → Type 0) (key : Text) (table : List (Text × ℕ)) (v : ℕ)
    → All (λ (entry : Text × ℕ). P entry.1) table
    → lookup key table ≡ some v
    → P v
unfolding lookup
lookup-All P key [] v h e = absurd (cc)
lookup-All P key ((k, w) ∷ table) v (h, hs) e = elim (Bool-cases (text_eq k key)) [
  | inl same ↦ subst P (some_inj w v (rw same at e)) h
  | inr other ↦ lookup-All P key table v hs (rw other at e)
]

in_range-InRange :
    (spec : FieldSpec) (token : Text) (value : Option ℤ)
    → Ensures (InRange spec) (in_range spec token value)
in_range-InRange spec token none = tt
in_range-InRange spec token (some (negsuc n)) = tt
in_range-InRange spec token (some (pos n)) = elim (Bool-cases (ltb n spec.min || ltb spec.max n)) [
  | inl h ↦ rw h tt
  | inr h ↦ rw h ((ground arith, ground arith))
]

read_token-InRange :
    (token : Text) (spec : FieldSpec) (source : Text)
    → IsSpec spec
    → Ensures (InRange spec) (read_token token spec source)
unfolding read_token
read_token-InRange [] spec source law = tt
read_token-InRange (c ∷ token) spec source law =
    elim (Option-cases (lookup (to_lower (c ∷ token)) spec.names)) [
      | inl e ↦ rw (e, Ensures) (in_range-InRange spec (c ∷ token) (to_integer (c ∷ token)))
      | inr (v, e) ↦ rw (e, Ensures) (lookup-All (InRange spec) _ spec.names v law.named e)
    ]

read_value-InRange :
    (text : Text) (spec : FieldSpec) (source : Text)
    → IsSpec spec
    → Ensures (InRange spec) (read_value text spec source)
unfolding read_value
read_value-InRange text spec source law = read_token-InRange (trim text) spec source law

-- The first and the last value that a range stands for: all of the field for a star; what stands
-- before and behind a dash, which may not be the first unit; one value alone, and from it to the end
-- of the field where a step follows.
pub data Ranges (spec : FieldSpec) (source : Text) : Bool → Text → ℕ → ℕ → Type 0 where
  star : {has_step : Bool} → Ranges spec source has_step (codes "*") spec.min spec.max
  between :
      {has_step : Bool} {start end : ℕ} (c : ℕ) (low high : Text)
      → ¬ In b'-' low
      → read_value (c ∷ low) spec source ≡ ok start
      → read_value high spec source ≡ ok end
      → Ranges spec source has_step (c ∷ (low ++ b'-' ∷ high)) start end
  onward :
      {start : ℕ} (text : Text)
      → ¬ In b'-' (tail text)
      → read_value text spec source ≡ ok start
      → Ranges spec source true text start spec.max
  single :
      {start : ℕ} (text : Text)
      → ¬ In b'-' (tail text)
      → read_value text spec source ≡ ok start
      → Ranges spec source false text start start

-- The ends of a range.
abbrev pub Bounds : FieldSpec → Text → Bool → Text → ℕ × ℕ → Type 0
Bounds spec source has_step text (start, end) =
    (spec.min ≤ start)
    × (start ≤ end)
    × (end ≤ spec.max)
    × Ranges spec source has_step text start end

-- The dash of a range stands behind its first unit.
split_range-cases :
    (text : Text)
    → ((split_range text ≡ none) × ¬ In b'-' (tail text))
      ⊎ ((c : ℕ) × (low : Text) × (high : Text) × (split_range text ≡ some (c ∷ low, high))
          × (text ≡ c ∷ (low ++ b'-' ∷ high))
          × ¬ In b'-' low)
unfolding split_range
split_range-cases [] = inl (refl, λ m. m)
split_range-cases (c ∷ s) = elim (until-cases b'-' s) [
  | inl (e, clear) ↦ elim (Bool-cases (c == b'-')) [
    | inl h ↦ rw (h, e) (inl (refl, clear))
    | inr h ↦ unfold until in rw (h, e) (inl (refl, clear))
  ]
  | inr (front, rest, e, whole, clear) ↦ elim (Bool-cases (c == b'-')) [
    | inl h ↦ rw (h, e) (inr (c, front, rest, refl, ap (λ t. c ∷ t) whole, clear))
    | inr h ↦ unfold until in rw (h, e) (inr (c, front, rest, refl, ap (λ t. c ∷ t) whole, clear))
  ]
]

ordered :
    (spec : FieldSpec) (source : Text) (has_step : Bool) (text range_part : Text) (start end : ℕ)
    → InRange spec start
    → InRange spec end
    → Ranges spec source has_step text start end
    → Ensures
        (Bounds spec source has_step text)
        (if ltb end start then err (reversed_range spec.name range_part) else ok (start, end))
ordered spec source has_step text range_part start end (low, _) (_, high) ranges =
    elim (Bool-cases (ltb end start)) [
      | inl h ↦ rw h tt
      | inr h ↦ rw h ((low, ground arith, high, ranges))
    ]

pub read_range-Bounds :
    (range_part : Text) (has_step : Bool) (spec : FieldSpec) (source : Text)
    → IsSpec spec
    → Ensures (Bounds spec source has_step range_part) (read_range range_part has_step spec source)
unfolding read_range
read_range-Bounds range_part has_step spec source law =
    elim (Bool-cases (text_eq range_part (codes "*"))) [
      | inl h ↦
          let e = text_eq_sound range_part (codes "*") h in
          rw h (
            (
              omega arith,
              law.ordered,
              omega arith,
              subst (λ t. Ranges spec source has_step t spec.min spec.max) (sym e) star,
            ))
      | inr h ↦ elim (split_range-cases range_part) [
        | inl (e, clear) ↦
            rw (h, e)
              (Ensures-then (InRange spec) (Bounds spec source has_step range_part)
                (read_value range_part spec source) _
                (read_value-InRange range_part spec source law)
                (λ start read low. to_end has_step clear start read low))
        | inr (c, front, back, e, whole, clear) ↦
            rw (h, e)
              (Ensures-then (InRange spec) (Bounds spec source has_step range_part)
                (read_value (c ∷ front) spec source) _
                (read_value-InRange (c ∷ front) spec source law)
                (λ start read low.
                  Ensures-then (InRange spec) (Bounds spec source has_step range_part)
                    (read_value back spec source) _ (read_value-InRange back spec source law)
                    (λ end read' high.
                      ordered spec source has_step range_part range_part start end low high (
                        subst (λ t. Ranges spec source has_step t start end) (sym whole)
                          (between c front back clear read read')))))
      ]
    ]
  where
    to_end :
        (has_step : Bool)
        → ¬ In b'-' (tail range_part)
        → (start : ℕ) → read_value range_part spec source ≡ ok start
        → InRange spec start
        → Bounds spec source has_step range_part (start, if has_step then spec.max else start)
    to_end true clear start read (low, high) =
        (low, high, omega arith, onward range_part clear read)
    to_end false clear start read (low, high) =
        (low, omega arith, high, single range_part clear read)
