-- ===== src/Cron/Parse/Terms.antt =====
-- A term of a field stands for the values of a range, a step apart.
use dev_box.Prelude.{
  ◌++◌, sym, ℕ, zero, suc, ◌+◌, ◌*◌, ◌≤◌, ◌<◌, ◌≡◌, ◌↔◌, ◌⊎◌, inl, inr, Bool, true, false, List, [],
  ◌∷◌, arith, In, Bool-cases, Option-cases, none, some, leb,
}
use mathlib.Core.Path.{subst}
use native.Mathlib.Nat.{suc-mul}
use dev_box.Prelude.Int.{ℤ, pos, negsuc}
use dev_box.Text.{Text}
use dev_box.Text.Number.{to_integer}
use dev_box.Text.Split.{until}
use dev_box.Cron.Model.{ok, err, FieldSpec, bad_step}
use dev_box.Cron.Parse.{
  spread, read_range, expand_range, read_step, step_of_value, expand_step, expand_parts,
  expand_term,
}
use dev_box.Text.Until.{until-cases}
use dev_box.Cron.Parse.Ranges.{Ensures, Ensures-bind, IsSpec, Ranges, Bounds, read_range-Bounds}

-- The loop over a range: every value a whole number of steps from the start, up to the end.
spread_iff :
    (fuel start end step x : ℕ)
    → 0 < step
    → end < start + fuel
    → In x (spread fuel start end step) ↔ ((k : ℕ) × (x ≡ start + k * step) × (x ≤ end))
unfolding spread
spread_iff zero start end step x h enough =
    (λ m. absurd m, λ (k, e, le). absurd (omega (arith, e, le, enough)))
spread_iff (suc fuel) start end step x h enough = elim (Bool-cases (leb start end)) [
  | inr none_left ↦
      let over : end < start = ground arith in
      rw none_left (λ m. absurd m, λ (k, e, le). absurd (omega (arith, e, le, over)))
  | inl some_left ↦
      let (to, from) = spread_iff fuel (start + step) end step x h (omega (arith, enough, h)) in
      let room : start ≤ end = ground arith in
      rw some_left (
        λ m. elim m [
          | inl e ↦ (0, omega (arith, e), omega (arith, e, room))
          | inr later ↦ let (k, e, le) = to later in (suc k, omega (arith, e, suc-mul k step), le)
        ],
        λ (k, e, le). first_or_later k e le from,
      )
]
  where
    first_or_later :
        (k : ℕ)
        → x ≡ start + k * step
        → x ≤ end
        → (((k : ℕ) × (x ≡ start + step + k * step) × (x ≤ end))
            → In x (spread fuel (start + step) end step))
        → (x ≡ start) ⊎ In x (spread fuel (start + step) end step)
    first_or_later zero e le from = inl (omega (arith, e))
    first_or_later (suc k) e le from = inr (from (k, omega (arith, e, suc-mul k step), le))

-- What a term asks for: a range alone, with the step 1; or a range and behind a slash the number of
-- the step.
pub data Asks (spec : FieldSpec) (source : Text) : Text → (start end step : ℕ) → Type 0 where
  alone :
      {start end : ℕ} (term : Text)
      → ¬ In b'/' term
      → Ranges spec source false term start end
      → Asks spec source term start end 1
  stepped :
      {start end step : ℕ} (range_part step_text : Text)
      → ¬ In b'/' range_part
      → to_integer step_text ≡ some (pos step)
      → Ranges spec source true range_part start end
      → Asks spec source (range_part ++ b'/' ∷ step_text) start end step

-- The values of a range within the field, a step apart.
pub record IsSpread (spec : FieldSpec) (source term : Text) (values : List ℕ) : Type 0 where
  pub start : ℕ
  pub end : ℕ
  pub step : ℕ
  pub asked : Asks spec source term start end step
  pub low : spec.min ≤ start
  pub ordered : start ≤ end
  pub high : end ≤ spec.max
  pub positive : 0 < step
  pub members : (x : ℕ) → In x values ↔ ((k : ℕ) × (x ≡ start + k * step) × (x ≤ end))

expand_range-IsSpread :
    (term range_part : Text) (has_step : Bool) (step : ℕ) (spec : FieldSpec) (source : Text)
    → IsSpec spec
    → 0 < step
    → ((start end : ℕ)
        → Ranges spec source has_step range_part start end
        → Asks spec source term start end step)
    → Ensures (IsSpread spec source term) (expand_range range_part has_step step spec source)
unfolding expand_range
expand_range-IsSpread term range_part has_step step spec source law positive asks =
    Ensures-bind (Bounds spec source has_step range_part) (IsSpread spec source term)
      (read_range range_part has_step spec source) _
      (read_range-Bounds range_part has_step spec source law)
      (λ (start, end) (low, ordered, high, ranges). record {
        start = start;
        end = end;
        step = step;
        asked = asks start end ranges;
        low = low;
        ordered = ordered;
        high = high;
        positive = positive;
        members = λ x. spread_iff (suc end) start end step x positive (omega arith);
      })

read_step-value :
    (spec : FieldSpec) (text : Text)
    → Ensures (λ n. (0 < n) × (to_integer text ≡ some (pos n))) (read_step spec text)
unfolding read_step
read_step-value spec text = elim (Option-cases (to_integer text)) [
  | inl e ↦ rw (e, Ensures) tt
  | inr (value, e) ↦ by_value value e
]
  where
    by_value :
        (value : ℤ)
        → to_integer text ≡ some value
        → Ensures
            (λ n. (0 < n) × (to_integer text ≡ some (pos n)))
            (elim (to_integer text) [
              | none ↦ err (bad_step spec.name text)
              | some v ↦ step_of_value spec text v
            ])
    by_value (negsuc n) e = rw (e, Ensures) tt
    by_value (pos zero) e = rw (e, Ensures) tt
    by_value (pos (suc n)) e =
        subst
          (λ o.
            Ensures (λ n'. (0 < n') × (to_integer text ≡ some (pos n')))
              (elim o [
                | none ↦ err (bad_step spec.name text)
                | some v ↦ step_of_value spec text v
              ]))
          (sym e) ((omega arith, e))

step_case :
    (term range_part : Text) (spec : FieldSpec) (source : Text) (step : ℕ)
    → IsSpec spec
    → 0 < step
    → ((start end : ℕ)
        → Ranges spec source true range_part start end
        → Asks spec source term start end step)
    → Ensures (IsSpread spec source term) (expand_step term range_part spec source step)
unfolding expand_step
step_case term [] spec source step law positive asks = tt
step_case term (c ∷ range_part) spec source step law positive asks =
    expand_range-IsSpread term (c ∷ range_part) true step spec source law positive asks

expand_alone :
    (term : Text) (spec : FieldSpec) (source : Text)
    → IsSpec spec
    → ¬ In b'/' term
    → Ensures (IsSpread spec source term) (expand_parts term (term, []) spec source)
unfolding expand_parts
expand_alone term spec source law clear =
    expand_range-IsSpread term term false 1 spec source law (omega arith)
      (λ start end ranges. alone term clear ranges)

expand_stepped :
    (term range_part step_text : Text) (spec : FieldSpec) (source : Text)
    → IsSpec spec
    → term ≡ range_part ++ b'/' ∷ step_text
    → ¬ In b'/' range_part
    → Ensures
        (IsSpread spec source term)
        (expand_parts term (range_part, b'/' ∷ step_text) spec source)
unfolding expand_parts
expand_stepped term range_part step_text spec source law whole clear =
    Ensures-bind (λ n. (0 < n) × (to_integer step_text ≡ some (pos n))) (IsSpread spec source term)
      (read_step spec step_text) _ (read_step-value spec step_text)
      (λ step (positive, value).
        step_case term range_part spec source step law positive (λ start end ranges.
          subst (λ t. Asks spec source t start end step) (sym whole)
            (stepped range_part step_text clear value ranges)))

-- What a term of a field stands for, where the code returns values for it: its range is a star for all
-- of the field, or two values, as `readValue` reads them, with a dash between them, or one such
-- value, which goes on to the end of the field where the term has a step; its step is the number
-- behind a slash, or 1 without one; and
-- the values returned are exactly those that lie within the range, which lies within the field, a
-- whole number of steps from its first one.
pub expand_term-IsSpread :
    (term : Text) (spec : FieldSpec) (source : Text) {values : List ℕ}
    → IsSpec spec
    → expand_term term spec source ≡ ok values
    → IsSpread spec source term values
unfolding expand_term
expand_term-IsSpread term spec source {values} law e =
    subst (Ensures (IsSpread spec source term)) e (by_parts (until-cases b'/' term))
  where
    by_parts :
        ((until b'/' term ≡ (term, [])) × ¬ In b'/' term)
          ⊎ ((front : Text) × (rest : Text) × (until b'/' term ≡ (front, b'/' ∷ rest))
              × (term ≡ front ++ b'/' ∷ rest)
              × ¬ In b'/' front)
        → Ensures (IsSpread spec source term) (expand_parts term (until b'/' term) spec source)
    by_parts (inl (e', clear)) = rw e' (expand_alone term spec source law clear)
    by_parts (inr (front, rest, e', whole, clear)) =
        rw e' (expand_stepped term front rest spec source law whole clear)
