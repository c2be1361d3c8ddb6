-- ===== src/Cron/Schedule.antt =====
-- `nextOccurrences` of apps/web/src/modules/cron/cron.ts. An instant is the milliseconds since 1970.
-- How an instant reads on the local calendar is the browser's `Date`, which is a parameter.
pub mod Matches
pub mod Projection
use dev_box.Prelude.{
  ℕ, zero, suc, ◌+◌, ◌-◌, ◌*◌, Bool, true, false, not, ◌&&◌, ◌||◌, List, [], ◌∷◌, ◌++◌, ltb, ◌==◌,
  if◌then◌else◌, Option, none, some, length,
}
use dev_box.Cron.Model.{
  CronFieldName, second, minute, hour, day_of_month, month, day_of_week, CronField, ParsedCron,
}
use dev_box.Cron.Parse.{has_value}
use dev_box.Cron.Describe.{field_by_name, required}

-- The methods of `Date` that are called: the getters, and `setMilliseconds(0)` without and with
-- `setSeconds(0)`.
pub record Calendar : Type 0 where
  pub get_seconds : ℕ → ℕ
  pub get_minutes : ℕ → ℕ
  pub get_hours : ℕ → ℕ
  pub get_date : ℕ → ℕ
  pub get_month : ℕ → ℕ
  pub get_day : ℕ → ℕ
  pub whole_second : ℕ → ℕ
  pub whole_minute : ℕ → ℕ

abbrev pub second_matches : Bool → Option CronField → ℕ → Bool
second_matches true (some f) s = has_value s f.values
second_matches _ _ s = true

-- The rule for the two day fields.
abbrev pub days_match : Bool → Bool → Bool → Bool → Bool
days_match dom_wildcard dow_wildcard dom_matches dow_matches =
    if dom_wildcard && dow_wildcard
    then true
    else if dom_wildcard
    then dow_matches
    else if dow_wildcard
    then dom_matches
    else dom_matches || dow_matches

unfoldable pub matches : Calendar → ParsedCron → ℕ → Bool
unfolding field_by_name
matches calendar parsed date =
    let dom = required parsed.fields day_of_month in
    let dow = required parsed.fields day_of_week in
    if not (
      second_matches parsed.has_seconds (field_by_name parsed.fields second)
        (calendar.get_seconds date))
    then false
    else if not (has_value (calendar.get_minutes date) (required parsed.fields minute).values)
    then false
    else if not (has_value (calendar.get_hours date) (required parsed.fields hour).values)
    then false
    else if not (has_value (calendar.get_month date + 1) (required parsed.fields month).values)
    then false
    else days_match dom.wildcard dow.wildcard (has_value (calendar.get_date date) dom.values)
        (has_value (calendar.get_day date) dow.values)

-- The `for` loop, with the iterations left.
unfoldable pub project : Calendar → ParsedCron → ℕ → (iterations cursor count : ℕ) → List ℕ → List ℕ
unfolding matches
project calendar parsed step zero cursor count results = results
project calendar parsed step (suc iterations) cursor count results =
    let found = if matches calendar parsed cursor then results ++ cursor ∷ [] else results in
    let more = project calendar parsed step iterations (cursor + step) count found in
    if ltb (length results) count then more else results

abbrev pub step_of : Bool → ℕ
step_of has_seconds = if has_seconds then 1000 else 60000

unfoldable pub max_iterations : Bool → ℕ
max_iterations has_seconds = if has_seconds then 400000 else 4 * 366 * 24 * 60

-- The first instant that is looked at.
abbrev pub first_cursor : Calendar → Bool → ℕ → ℕ
first_cursor calendar has_seconds start =
    (if has_seconds then calendar.whole_second start else calendar.whole_minute start)
    + step_of has_seconds

unfoldable pub next_occurrences : Calendar → ParsedCron → ℕ → ℕ → List ℕ
unfolding project max_iterations
next_occurrences calendar parsed start count =
    project calendar parsed (step_of parsed.has_seconds) (max_iterations parsed.has_seconds)
      (first_cursor calendar parsed.has_seconds start) count []
