-- ===== src/Cron/Parse.antt =====
-- `parseCron` and its helpers of apps/web/src/modules/cron/cron.ts, up to the descriptions.
pub mod Ranges
pub mod Terms
pub mod Values
pub mod Fields
pub mod Whole
use dev_box.Prelude.{
  ℕ, zero, suc, ◌+◌, ◌-◌, Bool, true, false, not, ◌&&◌, ◌||◌, List, [], ◌∷◌, ◌++◌, leb, ltb, ◌==◌,
  if◌then◌else◌, Option, none, some, length,
}
use dev_box.Prelude.Int.{ℤ, pos, negsuc, ltb_ℤ}
use dev_box.Text.{Text, codes, text_eq, trim}
use dev_box.Text.Number.{to_integer}
use dev_box.Text.Split.{split, until, to_lower, squeeze}
use dev_box.Dict.{lookup}
use dev_box.Cron.Model.{
  CronFieldName, second, minute, hour, day_of_month, month, day_of_week, CronField, ParsedCron,
  CronError, nothing_entered, too_long, reboot, field_count, empty_term, no_values, missing_value,
  bad_step, step_without_range, reversed_range, not_valid, out_of_range, Result, ok, err, ◌>>=◌,
  FieldSpec, five_field, six_field, shorthands, field_number,
}
use dev_box.Cron.Describe.{describe_field, describe_schedule, schedule_notes}

-- The numeric value, within the field's range.
abbrev pub in_range : FieldSpec → Text → Option ℤ → Result ℕ
in_range spec token none = err (not_valid spec.name token)
in_range spec token (some (negsuc n)) = err (out_of_range spec.name (negsuc n))
in_range spec token (some (pos n)) =
    if ltb n spec.min || ltb spec.max n then err (out_of_range spec.name (pos n)) else ok n

unfoldable pub read_token : Text → FieldSpec → Text → Result ℕ
unfolding lookup to_lower to_integer
read_token [] spec field_source = err (missing_value spec.name field_source)
read_token (c ∷ token) spec field_source = elim (lookup (to_lower (c ∷ token)) spec.names) [
  | some named ↦ ok named
  | none ↦ in_range spec (c ∷ token) (to_integer (c ∷ token))
]

unfoldable pub read_value : Text → FieldSpec → Text → Result ℕ
unfolding trim lookup to_lower to_integer
read_value text spec field_source = read_token (trim text) spec field_source

-- for (let v = start; v <= end; v += step); the fuel is `end + 1`, since a step is positive.
unfoldable pub spread : ℕ → ℕ → ℕ → ℕ → List ℕ
spread zero v end step = []
spread (suc fuel) v end step =
    let more = spread fuel (v + step) end step in if leb v end then v ∷ more else []

abbrev pub at_dash : Text → Text × Text → Option (Text × Text)
at_dash front (low, []) = none
at_dash front (low, _ ∷ high) = some (front ++ low, high)

-- The two sides of the dash, which is looked for from the second unit on where the first is one.
unfoldable pub split_range : Text → Option (Text × Text)
unfolding until
split_range [] = none
split_range (c ∷ s) =
    if c == b'-' then at_dash (c ∷ []) (until b'-' s) else at_dash [] (until b'-' (c ∷ s))

-- The first and the last value of a range.
unfoldable pub read_range : Text → Bool → FieldSpec → Text → Result (ℕ × ℕ)
unfolding text_eq split_range read_value
read_range range_part has_step spec source =
    if text_eq range_part (codes "*")
    then ok (spec.min, spec.max)
    else elim (split_range range_part) [
      | some (low, high) ↦ do
        start ← read_value low spec source
        end ← read_value high spec source
        if ltb end start then err (reversed_range spec.name range_part) else ok (start, end)
      | none ↦ do
        start ← read_value range_part spec source
        ok (start, if has_step then spec.max else start)
    ]

unfoldable pub expand_range : Text → Bool → ℕ → FieldSpec → Text → Result (List ℕ)
unfolding read_range spread
expand_range range_part has_step step spec source = do
  (start, end) ← read_range range_part has_step spec source
  ok (spread (suc end) start end step)

abbrev pub step_of_value : FieldSpec → Text → ℤ → Result ℕ
step_of_value spec text (pos (suc n)) = ok (suc n)
step_of_value spec text _ = err (bad_step spec.name text)

unfoldable pub read_step : FieldSpec → Text → Result ℕ
unfolding to_integer
read_step spec text = elim (to_integer text) [
  | none ↦ err (bad_step spec.name text)
  | some value ↦ step_of_value spec text value
]

-- A step has a range before it.
unfoldable pub expand_step : Text → Text → FieldSpec → Text → ℕ → Result (List ℕ)
unfolding read_range spread
expand_step term [] spec source step = err (step_without_range spec.name term)
expand_step term (c ∷ range_part) spec source step =
    expand_range (c ∷ range_part) true step spec source

unfoldable pub expand_parts : Text → Text × Text → FieldSpec → Text → Result (List ℕ)
unfolding read_range spread read_step
expand_parts term (range_part, []) spec source = expand_range term false 1 spec source
expand_parts term (range_part, _ ∷ step_text) spec source = do
  step ← read_step spec step_text
  expand_step term range_part spec source step

unfoldable pub expand_term : Text → FieldSpec → Text → Result (List ℕ)
unfolding until read_range spread read_step
expand_term term spec source = expand_parts term (until b'/' term) spec source

-- values.has(v)
abbrev pub has_value : ℕ → List ℕ → Bool
has_value v [] = false
has_value v (x ∷ values) = x == v || has_value v values

-- values.add(v)
abbrev pub add_value : ℕ → List ℕ → List ℕ
add_value v values = if has_value v values then values else values ++ v ∷ []

unfoldable pub add_values : List ℕ → List ℕ → List ℕ
add_values [] values = values
add_values (v ∷ more) values = add_values more (add_value v values)

-- values.delete(v)
unfoldable pub delete_value : ℕ → List ℕ → List ℕ
delete_value v [] = []
delete_value v (x ∷ values) = let more = delete_value v values in if x == v then more else x ∷ more

-- sort((a, b) => a - b)
unfoldable pub insert_sorted : ℕ → List ℕ → List ℕ
insert_sorted v [] = v ∷ []
insert_sorted v (x ∷ values) =
    let more = insert_sorted v values in if leb v x then v ∷ x ∷ values else x ∷ more

unfoldable pub sort_values : List ℕ → List ℕ
unfolding insert_sorted
sort_values [] = []
sort_values (v ∷ values) = insert_sorted v (sort_values values)

-- The loop over the terms of a field.
unfoldable pub parse_terms : List Text → FieldSpec → Text → List ℕ → Result (List ℕ)
unfolding expand_term add_values
parse_terms [] spec source values = ok values
parse_terms ([] ∷ terms) spec source values = err (empty_term spec.name source)
parse_terms ((c ∷ term) ∷ terms) spec source values = do
  expanded ← expand_term (c ∷ term) spec source
  parse_terms terms spec source (add_values expanded values)

-- 7 is Sunday too.
unfoldable pub fold_sunday : CronFieldName → List ℕ → List ℕ
unfolding delete_value
fold_sunday name values =
    if field_number name == 5 && has_value 7 values
    then add_value 0 (delete_value 7 values)
    else values

unfoldable pub finish_field : Text → FieldSpec → List ℕ → Result CronField
unfolding text_eq
finish_field source spec [] = err (no_values spec.name source)
finish_field source spec (v ∷ values) =
    let wildcard = text_eq source (codes "*") in
    ok (record {
      name = spec.name;
      source = source;
      values = v ∷ values;
      wildcard = wildcard;
      description = describe_field source spec.name (v ∷ values) wildcard;
    })

unfoldable pub parse_field : Text → FieldSpec → Result CronField
unfolding split parse_terms fold_sunday sort_values text_eq
parse_field source spec = do
  values ← parse_terms (split b',' source) spec source []
  finish_field source spec (sort_values (fold_sunday spec.name values))

-- specs.map((spec, i) => parseField(parts[i], spec)), for as many parts as specs.
unfoldable pub parse_fields : List FieldSpec → List Text → Result (List CronField)
unfolding parse_field
parse_fields [] parts = ok []
parse_fields (spec ∷ specs) [] = ok []
parse_fields (spec ∷ specs) (part ∷ parts) = do
  field ← parse_field part spec
  fields ← parse_fields specs parts
  ok (field ∷ fields)

abbrev pub or_else {ℓ} : {A : Type ℓ} → Option A → A → A
or_else none a = a
or_else (some a) _ = a

unfoldable pub normalize : Text → Text
unfolding lookup to_lower shorthands
normalize trimmed = or_else (lookup (to_lower trimmed) shorthands) trimmed

unfoldable pub specs_for : List Text → Result (List FieldSpec)
unfolding five_field six_field
specs_for parts =
    if length parts == 5
    then ok five_field
    else if length parts == 6
    then ok six_field
    else err (field_count (length parts))

unfoldable pub parse_normalized : Text → Result ParsedCron
unfolding split five_field six_field parse_fields
parse_normalized normalized = do
  let parts = split b' ' normalized
  specs ← specs_for parts
  fields ← parse_fields specs parts
  let seconds = length parts == 6
  ok (record {
    normalized = normalized;
    has_seconds = seconds;
    fields = fields;
    description = describe_schedule fields seconds;
    notes = schedule_notes fields;
  })

unfoldable pub parse_cron : Text → Result ParsedCron
unfolding trim squeeze text_eq to_lower normalize split five_field six_field parse_fields
parse_cron expression =
    let trimmed = squeeze (trim expression) in
    if leb (length trimmed) 0
    then err nothing_entered
    else if ltb 200 (length trimmed)
    then err too_long
    else if text_eq (to_lower trimmed) (codes "@reboot")
    then err reboot
    else parse_normalized (normalize trimmed)
