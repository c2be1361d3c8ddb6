-- ===== src/Cron/Schedule/Matches.antt =====
-- When an instant matches a schedule.
use dev_box.Prelude.{
  ℕ, ◌+◌, Bool, true, false, not, ◌≡◌, ◌↔◌, ◌⊎◌, inl, inr, refl, arith, In, Bool-cases, Option,
  none, some, if◌then◌else◌,
}
use dev_box.Cron.Model.{
  second, minute, hour, day_of_month, month, day_of_week, CronField, ParsedCron,
}
use dev_box.Cron.Parse.{has_value}
use dev_box.Cron.Parse.Values.{has_value_iff}
use dev_box.Cron.Describe.{field_by_name, required}
use dev_box.Cron.Schedule.{Calendar, second_matches, days_match, matches}

-- A second is looked at in the form of six fields only.
abbrev pub SecondIn : Bool → Option CronField → ℕ → Type 0
SecondIn true (some f) s = In s f.values
SecondIn _ _ s = Unit

second_matches_iff :
    (seconds : Bool) (f : Option CronField) (s : ℕ)
    → (second_matches seconds f s ≡ true) ↔ SecondIn seconds f s
second_matches_iff true (some f) s = has_value_iff s f.values
second_matches_iff true none s = (λ h. tt, λ h. refl)
second_matches_iff false f s = (λ h. tt, λ h. refl)

-- The two day fields: a wildcard leaves the other one to decide; both restricted, one is enough.
abbrev pub DayIn : CronField → CronField → (date day : ℕ) → Type 0
DayIn dom dow date day =
    ((dom.wildcard ≡ true) × (dow.wildcard ≡ true))
    ⊎ ((dow.wildcard ≡ false) × In day dow.values)
    ⊎ ((dom.wildcard ≡ false) × In date dom.values)

days_match_iff :
    (dom dow : CronField) (date day : ℕ)
    → (days_match dom.wildcard dow.wildcard (has_value date dom.values) (has_value day dow.values)
        ≡ true)
      ↔ DayIn dom dow date day
days_match_iff dom dow date day =
    let (to, from) = has_value_iff date dom.values in
    let (to', from') = has_value_iff day dow.values in
    elim (Bool-cases dom.wildcard) [
      | inl h ↦ elim (Bool-cases dow.wildcard) [
        | inl h' ↦ rw (h, h') (λ e. inl (refl, refl), λ e. refl)
        | inr h' ↦ rw (h, h') (λ e. inr (inl (refl, to' e)), λ e. grind arith)
      ]
      | inr h ↦ elim (Bool-cases dow.wildcard) [
        | inl h' ↦ rw (h, h') (λ e. inr (inr (refl, to e)), λ e. grind arith)
        | inr h' ↦ rw (h, h') (λ e. grind arith, λ e. grind arith)
      ]
    ]

-- An instant matches exactly when its minute, its hour and its month are among the values of their
-- fields, and so is its second where the form has seconds, and the two day fields allow its day:
-- both are wildcards, or one that is restricted has it.
pub matches_iff :
    (calendar : Calendar) (parsed : ParsedCron) (date : ℕ)
    → (matches calendar parsed date ≡ true) ↔ (
        SecondIn parsed.has_seconds (field_by_name parsed.fields second) (calendar.get_seconds date)
        × In (calendar.get_minutes date) (required parsed.fields minute).values
        × In (calendar.get_hours date) (required parsed.fields hour).values
        × In (calendar.get_month date + 1) (required parsed.fields month).values
        × DayIn
            (required parsed.fields day_of_month)
            (required parsed.fields day_of_week)
            (calendar.get_date date)
            (calendar.get_day date))
unfolding matches
matches_iff calendar parsed date =
    let (a, a') =
      second_matches_iff parsed.has_seconds (field_by_name parsed.fields second)
        (calendar.get_seconds date) in
    let (b, b') =
      has_value_iff (calendar.get_minutes date) (required parsed.fields minute).values in
    let (c, c') = has_value_iff (calendar.get_hours date) (required parsed.fields hour).values in
    let (d, d') =
      has_value_iff (calendar.get_month date + 1) (required parsed.fields month).values in
    let (e, e') =
      days_match_iff (required parsed.fields day_of_month) (required parsed.fields day_of_week)
        (calendar.get_date date) (calendar.get_day date) in
    let (to, from) = guards _ _ _ _ _ in
    (
      λ h. let (h1, h2, h3, h4, h5) = to h in (a h1, b h2, c h3, d h4, e h5),
      λ (h1, h2, h3, h4, h5). from (a' h1, b' h2, c' h3, d' h4, e' h5),
    )
  where
    guards :
        (p q r s t : Bool)
        → ((if not p
              then false
              else if not q
              then false
              else if not r
              then false
              else if not s
              then false
              else t)
            ≡ true)
          ↔ ((p ≡ true) × (q ≡ true) × (r ≡ true) × (s ≡ true) × (t ≡ true))
    guards p q r s t = (λ h. ground arith, λ h. ground arith)
