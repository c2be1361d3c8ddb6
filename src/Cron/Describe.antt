-- ===== src/Cron/Describe.antt =====
-- The wording of apps/web/src/modules/cron/cron.ts: a field, a schedule and its notes.
use dev_box.Prelude.{
  ℕ, zero, suc, ◌%◌, Bool, true, not, ◌&&◌, List, [], ◌∷◌, ◌++◌, map, ltb, ◌==◌, if◌then◌else◌,
  Option, none, some, length, get_elem?,
}
use dev_box.Text.{Text, codes}
use dev_box.Text.Decimal.{decimal}
use dev_box.Text.Split.{is_digit}
use dev_box.Cron.Model.{
  CronFieldName, second, minute, hour, day_of_month, month, day_of_week, CronField, field_number,
  month_labels, day_labels,
}

-- texts.join(separator)
unfoldable pub join : Text → List Text → Text
join separator [] = []
join separator (t ∷ []) = t
join separator (t ∷ u ∷ texts) = t ++ (separator ++ join separator (u ∷ texts))

-- FIELD_NOUN
unfoldable pub singular : CronFieldName → Text
singular second = codes "second"
singular minute = codes "minute"
singular hour = codes "hour"
singular day_of_month = codes "day of the month"
singular month = codes "month"
singular day_of_week = codes "day of the week"

unfoldable pub plural : CronFieldName → Text
plural second = codes "seconds"
plural minute = codes "minutes"
plural hour = codes "hours"
plural day_of_month = codes "days of the month"
plural month = codes "months"
plural day_of_week = codes "days of the week"

abbrev pub label_or : Option Text → Text → Text
label_or none text = text
label_or (some label) text = label

-- MONTH_LABELS[v - 1] has no item at -1.
unfoldable pub month_label : ℕ → Option Text
unfolding month_labels
month_label zero = none
month_label (suc v) = get_elem? month_labels v

unfoldable pub label : CronFieldName → ℕ → Text
unfolding month_labels day_labels decimal
label month v = label_or (month_label v) (decimal v)
label day_of_week v = label_or (get_elem? day_labels (v % 7)) (decimal v)
label _ v = decimal v

abbrev pub digits_only : Text → Bool
digits_only [] = true
digits_only (c ∷ s) = is_digit c && digits_only s

-- `/^\*\/(\d+)$/`, and its group.
unfoldable pub step_match : Text → Option Text
step_match (a ∷ b ∷ c ∷ s) =
    if a == b'*' && b == b'/' && digits_only (c ∷ s) then some (c ∷ s) else none
step_match _ = none

abbrev pub last_or : ℕ → List ℕ → ℕ
last_or v [] = v
last_or v (x ∷ values) = last_or x values

unfoldable pub describe_values : CronFieldName → List ℕ → Text
unfolding singular label decimal join
describe_values name [] = codes "At ."
describe_values name (v ∷ []) =
    codes "At " ++ (singular name ++ (codes " " ++ (label name v ++ codes ".")))
describe_values name (v ∷ w ∷ values) =
    if ltb 12 (length (v ∷ w ∷ values))
    then decimal (length (v ∷ w ∷ values))
      ++ (codes " values: "
          ++ (label name v
              ++ (codes " through " ++ (label name (last_or v (w ∷ values)) ++ codes "."))))
    else codes "At " ++ (join (codes ", ") (map (λ x. label name x) (v ∷ w ∷ values)) ++ codes ".")

unfoldable pub describe_field : Text → CronFieldName → List ℕ → Bool → Text
unfolding singular plural step_match label decimal join
describe_field source name values wildcard =
    if wildcard then codes "Every " ++ (singular name ++ codes ".") else elim (step_match source) [
      | some step ↦ codes "Every " ++ (step ++ (codes " " ++ (plural name ++ codes ".")))
      | none ↦ describe_values name values
    ]

-- fields.find((f) => f.name === name)
unfoldable pub field_by_name : List CronField → CronFieldName → Option CronField
field_by_name [] name = none
field_by_name (f ∷ fields) name =
    if field_number f.name == field_number name then some f else field_by_name fields name

-- A field that the code takes to be there; on a list without it, which no parsed expression has, the
-- source throws where this gives an empty wildcard.
abbrev pub absent : CronFieldName → CronField
absent name = record { name = name; source = []; values = []; wildcard = true; description = [] }

unfoldable pub required : List CronField → CronFieldName → CronField
unfolding field_by_name
required fields name = elim (field_by_name fields name) [ none ↦ absent name | some f ↦ f ]

-- String(value).padStart(2, '0')
unfoldable pub pad : ℕ → Text
unfolding decimal
pad value = if ltb value 10 then b'0' ∷ decimal value else decimal value

unfoldable pub comma_list : (ℕ → Text) → List ℕ → Text
unfolding join
comma_list show values = join (codes ", ") (map show values)

unfoldable pub time_at : ℕ → ℕ → Text
unfolding pad
time_at h m = pad h ++ (codes ":" ++ pad m)

-- Past every hour, and at given hours; a single time is a list of one.
unfoldable pub past_hours : List ℕ → Text
unfolding decimal join
past_hours (m ∷ []) = codes "At " ++ (decimal m ++ codes " minutes past every hour")
past_hours minutes = codes "At minutes " ++ (comma_list decimal minutes ++ codes " past every hour")

unfoldable pub at_hours : List ℕ → List ℕ → Text
unfolding decimal join pad
at_hours hours (m ∷ []) = codes "At " ++ comma_list (λ h. time_at h m) hours
at_hours hours minutes =
    codes "At minutes "
    ++ (comma_list decimal minutes ++ (codes " of hours " ++ comma_list pad hours))

-- The time of day, by the hours and the minutes and whether they are wildcards.
unfoldable pub describe_time : Bool → List ℕ → Bool → List ℕ → Text
unfolding decimal join pad
describe_time hour_wildcard hours minute_wildcard minutes =
    if hour_wildcard && minute_wildcard
    then codes "Every minute"
    else if hour_wildcard
    then past_hours minutes
    else at_hours hours minutes

unfoldable pub day_text : ℕ → Text
unfolding day_labels
day_text d = label_or (get_elem? day_labels d) []

unfoldable pub month_text : ℕ → Text
unfolding month_labels
month_text m = label_or (month_label m) []

unfoldable pub describe_days : CronField → CronField → List Text
unfolding decimal join day_labels
describe_days dom dow =
    if not dom.wildcard && not dow.wildcard
    then (codes "on day-of-month "
        ++ (comma_list decimal dom.values
            ++ (codes " **or** on " ++ comma_list day_text dow.values)))
      ∷ []
    else if not dom.wildcard
    then (codes "on day-of-month " ++ comma_list decimal dom.values) ∷ []
    else if not dow.wildcard
    then (codes "on " ++ comma_list day_text dow.values) ∷ []
    else []

unfoldable pub describe_months : CronField → List Text
unfolding join month_labels
describe_months m = if m.wildcard then [] else (codes "in " ++ comma_list month_text m.values) ∷ []

unfoldable pub describe_schedule : List CronField → Bool → Text
unfolding field_by_name describe_time describe_days describe_months join
describe_schedule fields has_seconds =
    let h = required fields hour in
    let m = required fields minute in
    join (codes " ") (
      describe_time h.wildcard h.values m.wildcard m.values
      ∷ (describe_days (required fields day_of_month) (required fields day_of_week)
          ++ describe_months (required fields month)))
    ++ codes "."

abbrev pub late_days : List ℕ → List ℕ
late_days [] = []
late_days (d ∷ values) = let more = late_days values in if ltb 28 d then d ∷ more else more

unfoldable pub late_note : List ℕ → List Text
unfolding decimal join
late_note [] = []
late_note (d ∷ values) =
    (codes "Day-of-month includes "
      ++ (comma_list decimal (d ∷ values)
          ++ (codes
                ", which does not occur in every month. The job simply will not run in months that "
              ++ codes "are too short.")))
    ∷ []

unfoldable pub schedule_notes : List CronField → List Text
unfolding field_by_name decimal join
schedule_notes fields =
    let dom = required fields day_of_month in
    let dow = required fields day_of_week in
    let m = required fields minute in
    let h = required fields hour in
    (if not dom.wildcard && not dow.wildcard
      then (codes "Day-of-month and day-of-week are both restricted. Cron treats these as OR, not "
          ++ codes "AND: the job runs when *either* matches, not only when both do.")
        ∷ []
      else [])
    ++ ((if not dom.wildcard then late_note (late_days dom.values) else [])
        ++ ((if m.wildcard && h.wildcard
              then codes "This runs every minute — 1,440 times a day. Confirm that is intended."
                ∷ []
              else [])
            ++ (codes
                  "Times are interpreted in the timezone of whatever runs the schedule, which is not "
                ++ codes "necessarily your local timezone.")
              ∷ []))
