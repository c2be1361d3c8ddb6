-- ===== src/Cron/Tests.antt =====
-- Runs of the cron model, and its theorems at concrete schedules.
use dev_box.Prelude.{
  if◌then◌else◌, Bool, ◌<◌, Bool-cases, inl, inr, ltb, leb, ◌&&◌, true, false, ℕ, ◌+◌, ◌-◌, ◌*◌,
  ◌/◌, ◌%◌, ◌≡◌, ◌↔◌, ◌≤◌, refl, true, false, [], ◌∷◌, arith, In, All, length, take,
}
use dev_box.Text.Split.{starts_space, squeeze}
use dev_box.Text.{Text, codes, text_eq, is_space, trim_start, trim}
use dev_box.Text.Decimal.{decimal}
use dev_box.Text.Split.{split, until, to_lower}
use dev_box.Text.Number.{
  to_integer, read_decimal, read_trimmed, read_unsigned, some_digits, read_radix, span_digits,
  fraction, mantissa_then, read_exponent,
}
use dev_box.Dict.{lookup}
use dev_box.Cron.Model.{
  second, minute, hour, day_of_month, month, day_of_week, ParsedCron, Result, ok, err, FieldSpec,
  field_spec, month_names, day_names, five_field, six_field, shorthands, month_labels, day_labels,
}
use dev_box.Cron.Parse.{
  read_token, read_value, spread, split_range, read_range, expand_range, read_step, expand_step,
  expand_parts, expand_term, add_values, delete_value, insert_sorted, sort_values, parse_terms,
  fold_sunday, finish_field, parse_field, parse_fields, normalize, specs_for, parse_normalized,
  parse_cron,
}
use dev_box.Cron.Parse.Ranges.{IsSpec}
use dev_box.Cron.Parse.Terms.{IsSpread, expand_term-IsSpread}
use dev_box.Cron.Parse.Fields.{IsFieldOf, parse_field-IsFieldOf}
use dev_box.Cron.Parse.Whole.{HasFields, parse_cron-HasFields}
use dev_box.Cron.Parse.Values.{IsAscending}
use dev_box.Cron.Describe.{
  field_by_name, required, describe_field, describe_values, singular, plural, label, step_match,
  join, month_label, month_text, describe_schedule, describe_time, at_hours, comma_list, time_at,
  pad, describe_days, describe_months, day_text,
}
use dev_box.Cron.Schedule.{Calendar, matches, project, max_iterations, next_occurrences}
use dev_box.Cron.Schedule.Matches.{SecondIn, DayIn, matches_iff}
use dev_box.Cron.Schedule.Projection.{
  grid, matching, next_occurrences-take, Occurs, IsCalendar, next_occurrences-Occurs,
}

abbrev minutes : FieldSpec
minutes = field_spec minute 0 59 []

abbrev week_days : FieldSpec
unfolding day_names
week_days = field_spec day_of_week 0 7 day_names

minutes-IsSpec : IsSpec minutes
minutes-IsSpec = record { ordered = omega arith; named = tt; sunday = λ e. ground arith }

week_days-IsSpec : IsSpec week_days
unfolding day_names
week_days-IsSpec = record { ordered = omega arith; named = omega arith; sunday = λ e. refl }

quarter_hours : expand_term (codes "5/15") minutes (codes "5/15") ≡ ok (5 ∷ 20 ∷ 35 ∷ 50 ∷ [])
unfolding expand_term expand_parts expand_step expand_range read_range read_step read_value
    read_token split_range spread until text_eq trim trim_start is_space lookup to_integer
    read_trimmed read_unsigned read_decimal some_digits read_radix span_digits fraction
    mantissa_then read_exponent
quarter_hours = refl

expand_term-IsSpread_example :
    IsSpread minutes (codes "5/15") (codes "5/15") (5 ∷ 20 ∷ 35 ∷ 50 ∷ [])
expand_term-IsSpread_example =
    expand_term-IsSpread (codes "5/15") minutes (codes "5/15") minutes-IsSpec quarter_hours

abbrev value_or {ℓ} : {A : Type ℓ} → A → Result A → A
value_or a (ok b) = b
value_or a (err _) = a

-- Fridays to Sundays, written with a name and with 7.
abbrev weekend : Text
weekend = codes "fri-7"

weekend-parsed :
    parse_field weekend week_days
    ≡ ok (record {
      name = day_of_week;
      source = weekend;
      values = 0 ∷ 5 ∷ 6 ∷ [];
      wildcard = false;
      description = codes "At Sunday, Friday, Saturday.";
    })
unfolding month_names day_names five_field six_field shorthands expand_term expand_parts expand_step
    expand_range read_range read_step read_value read_token split_range spread until text_eq trim
    trim_start is_space lookup to_lower to_integer read_trimmed read_unsigned read_decimal
    some_digits read_radix span_digits fraction mantissa_then read_exponent split add_values
    delete_value insert_sorted sort_values parse_terms fold_sunday finish_field parse_field
    parse_fields starts_space squeeze normalize decimal describe_field describe_values singular
    plural label step_match join month_labels day_labels month_label month_text
weekend-parsed = refl

parse_field-IsFieldOf_example : IsFieldOf week_days weekend (record {
  name = day_of_week;
  source = weekend;
  values = 0 ∷ 5 ∷ 6 ∷ [];
  wildcard = false;
  description = codes "At Sunday, Friday, Saturday.";
})
parse_field-IsFieldOf_example =
    parse_field-IsFieldOf weekend week_days week_days-IsSpec weekend-parsed

abbrev nothing : ParsedCron
nothing = record { normalized = []; has_seconds = false; fields = []; description = []; notes = [] }

abbrev office : ParsedCron
office = value_or nothing (parse_cron (codes " 30 9  1 * 1-5 "))

office-parsed : parse_cron (codes " 30 9  1 * 1-5 ") ≡ ok office
unfolding parse_cron month_names day_names five_field six_field shorthands expand_term expand_parts
    expand_step expand_range read_range read_step read_value read_token split_range spread until
    text_eq trim trim_start is_space lookup to_lower to_integer read_trimmed read_unsigned
    read_decimal some_digits read_radix span_digits fraction mantissa_then read_exponent split
    add_values delete_value insert_sorted sort_values parse_terms fold_sunday finish_field
    parse_field parse_fields starts_space squeeze normalize decimal describe_field describe_values
    singular plural label step_match join month_labels day_labels month_label month_text
    parse_normalized specs_for
office-parsed = refl

parse_cron-HasFields_example :
    (office.normalized ≡ normalize (squeeze (trim (codes " 30 9  1 * 1-5 ")))) × HasFields office
parse_cron-HasFields_example = parse_cron-HasFields (codes " 30 9  1 * 1-5 ") office-parsed

office-described :
    office.description
    ≡ codes "At 09:30 on day-of-month 1 **or** on Monday, Tuesday, Wednesday, Thursday, Friday."
unfolding parse_cron month_names day_names five_field six_field shorthands expand_term expand_parts
    expand_step expand_range read_range read_step read_value read_token split_range spread until
    text_eq trim trim_start is_space lookup to_lower to_integer read_trimmed read_unsigned
    read_decimal some_digits read_radix span_digits fraction mantissa_then read_exponent split
    add_values delete_value insert_sorted sort_values parse_terms fold_sunday finish_field
    parse_field parse_fields starts_space squeeze normalize decimal describe_field describe_values
    singular plural label step_match join month_labels day_labels month_label month_text
    parse_normalized specs_for describe_schedule describe_time at_hours comma_list time_at pad
    describe_days describe_months day_text field_by_name required
office-described = refl

-- The calendar of UTC, by the day number's years of 400-year cycles that begin in March.
abbrev year_day : ℕ → ℕ
year_day days =
    let day = (days + 719468) % 146097 in
    let year = (day - day / 1460 + day / 36524 - day / 146096) / 365 in
    day - (365 * year + year / 4 - year / 100)

abbrev march_month : ℕ → ℕ
march_month days = (5 * year_day days + 2) / 153

abbrev utc : Calendar
utc = record {
  get_seconds = λ t. t / 1000 % 60;
  get_minutes = λ t. t / 60000 % 60;
  get_hours = λ t. t / 3600000 % 24;
  get_date = λ t. let d = t / 86400000 in year_day d - (153 * march_month d + 2) / 5 + 1;
  get_month = λ t. (march_month (t / 86400000) + 2) % 12;
  get_day = λ t. (t / 86400000 + 4) % 7;
  whole_second = λ t. t - t % 1000;
  whole_minute = λ t. t - t % 60000;
}

-- Clocks that are put back by an hour two hours after the start of 1970.
abbrev local : ℕ → ℕ
local t = if ltb t 7200000 then t else t - 3600000

abbrev repeated : ℕ → Bool
repeated t = leb 7200000 t && ltb t 10800000

abbrev autumn : Calendar
autumn = record utc {
  get_minutes = λ t. local t / 60000 % 60;
  get_hours = λ t. local t / 3600000 % 24;
  whole_second = λ t. if repeated t then t - 3600000 - t % 1000 else t - t % 1000;
  whole_minute = λ t. if repeated t then t - 3600000 - t % 60000 else t - t % 60000;
}

cleared_bounds :
    (t unit : ℕ)
    → 0 < unit
    → t % unit < unit
    → ((if repeated t then t - 3600000 - t % unit else t - t % unit) ≤ t)
      × (t < (if repeated t then t - 3600000 - t % unit else t - t % unit) + unit + 3600000)
cleared_bounds t unit pos' small = elim (Bool-cases (repeated t)) [
  | inl h ↦ rw h ((omega arith, omega (arith, small, pos')))
  | inr h ↦ rw h ((omega arith, omega (arith, small, pos')))
]

autumn-IsCalendar : IsCalendar autumn 3600000
autumn-IsCalendar = record {
  second_low = λ t. (cleared_bounds t 1000 (omega arith) (omega arith)).0;
  second_high = λ t. (cleared_bounds t 1000 (omega arith) (omega arith)).1;
  minute_low = λ t. (cleared_bounds t 60000 (omega arith) (omega arith)).0;
  minute_high = λ t. (cleared_bounds t 60000 (omega arith) (omega arith)).1;
}

-- The first two from the start of 1970, a Thursday: on the 1st, and on Friday the 2nd.
first_two : next_occurrences utc office 0 2 ≡ 34200000 ∷ 120600000 ∷ []
unfolding parse_cron month_names day_names five_field six_field shorthands expand_term expand_parts
    expand_step expand_range read_range read_step read_value read_token split_range spread until
    text_eq trim trim_start is_space lookup to_lower to_integer read_trimmed read_unsigned
    read_decimal some_digits read_radix span_digits fraction mantissa_then read_exponent split
    add_values delete_value insert_sorted sort_values parse_terms fold_sunday finish_field
    parse_field parse_fields starts_space squeeze normalize decimal describe_field describe_values
    singular plural label step_match join month_labels day_labels month_label month_text
    parse_normalized specs_for next_occurrences project matches max_iterations field_by_name
    required
first_two = refl

abbrev early : ParsedCron
early = value_or nothing (parse_cron (codes "1 1 * * *"))

-- At half past the first minute of the repeated hour, an occurrence an hour before the start is found.
an_hour_back : next_occurrences autumn early 7230000 1 ≡ 3660000 ∷ []
unfolding parse_cron month_names day_names five_field six_field shorthands expand_term expand_parts
    expand_step expand_range read_range read_step read_value read_token split_range spread until
    text_eq trim trim_start is_space lookup to_lower to_integer read_trimmed read_unsigned
    read_decimal some_digits read_radix span_digits fraction mantissa_then read_exponent split
    add_values delete_value insert_sorted sort_values parse_terms fold_sunday finish_field
    parse_field parse_fields starts_space squeeze normalize decimal describe_field describe_values
    singular plural label step_match join month_labels day_labels month_label month_text
    parse_normalized specs_for next_occurrences project matches max_iterations field_by_name
    required
an_hour_back = refl

next_occurrences-Occurs_example :
    let found = next_occurrences autumn office 0 2 in
    All (Occurs autumn 3600000 office 0) found × IsAscending found × (length found ≤ 2)
next_occurrences-Occurs_example =
    next_occurrences-Occurs autumn 3600000 office 0 2 autumn-IsCalendar

next_occurrences-take_example :
    (office.has_seconds ≡ true
      → next_occurrences utc office 0 2
        ≡ take 2 (matching utc office (grid 400000 (utc.whole_second 0 + 1000) 1000)))
    × (office.has_seconds ≡ false
        → next_occurrences utc office 0 2
          ≡ take 2 (matching utc office (grid 2108160 (utc.whole_minute 0 + 60000) 60000)))
next_occurrences-take_example = next_occurrences-take utc office 0 2

matches_iff_example : (matches utc office 34200000 ≡ true) ↔ (
    SecondIn office.has_seconds (field_by_name office.fields second) (utc.get_seconds 34200000)
    × In (utc.get_minutes 34200000) (required office.fields minute).values
    × In (utc.get_hours 34200000) (required office.fields hour).values
    × In (utc.get_month 34200000 + 1) (required office.fields month).values
    × DayIn
        (required office.fields day_of_month)
        (required office.fields day_of_week)
        (utc.get_date 34200000)
        (utc.get_day 34200000))
matches_iff_example = matches_iff utc office 34200000
