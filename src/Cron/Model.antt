-- ===== src/Cron/Model.antt =====
-- The data of apps/web/src/modules/cron/cron.ts: fields, tables and errors.
use dev_box.Prelude.{ℕ, Bool, List, [], ◌∷◌}
use dev_box.Prelude.Int.{ℤ}
use dev_box.Text.{Text, codes}

pub data CronFieldName : Type 0 where
  second minute hour day_of_month month day_of_week : CronFieldName

-- The test `===` on names is one of these numbers.
abbrev pub field_number : CronFieldName → ℕ
field_number second = 0
field_number minute = 1
field_number hour = 2
field_number day_of_month = 3
field_number month = 4
field_number day_of_week = 5

pub record CronField : Type 0 where
  pub name : CronFieldName
  pub source : Text
  pub values : List ℕ
  pub wildcard : Bool
  pub description : Text

pub record ParsedCron : Type 0 where
  pub normalized : Text
  pub has_seconds : Bool
  pub fields : List CronField
  pub description : Text
  pub notes : List Text

-- The messages of `CronError`, each with what its text is made from.
pub data CronError : Type 0 where
  nothing_entered too_long reboot : CronError
  field_count : ℕ → CronError
  empty_term no_values missing_value : CronFieldName → Text → CronError
  bad_step : CronFieldName → Text → CronError
  step_without_range : CronFieldName → Text → CronError
  reversed_range : CronFieldName → Text → CronError
  not_valid : CronFieldName → Text → CronError
  out_of_range : CronFieldName → ℤ → CronError

-- What is thrown, or returned.
pub data Result {ℓ} (A : Type ℓ) : Type ℓ where
  err : CronError → Result A
  ok : A → Result A

infixl 5 ◌>>=◌
abbrev pub ◌>>=◌ {ℓ κ} : {A : Type ℓ} {B : Type κ} → Result A → (A → Result B) → Result B
err problem >>= next = err problem
ok value >>= next = next value

pub record FieldSpec : Type 0 where
  pub name : CronFieldName
  pub min : ℕ
  pub max : ℕ
  pub names : List (Text × ℕ)

unfoldable pub month_names : List (Text × ℕ)
month_names =
    (codes "jan", 1)
    ∷ (codes "feb", 2)
    ∷ (codes "mar", 3)
    ∷ (codes "apr", 4)
    ∷ (codes "may", 5)
    ∷ (codes "jun", 6)
    ∷ (codes "jul", 7)
    ∷ (codes "aug", 8)
    ∷ (codes "sep", 9)
    ∷ (codes "oct", 10)
    ∷ (codes "nov", 11)
    ∷ (codes "dec", 12)
    ∷ []

unfoldable pub day_names : List (Text × ℕ)
day_names =
    (codes "sun", 0)
    ∷ (codes "mon", 1)
    ∷ (codes "tue", 2)
    ∷ (codes "wed", 3)
    ∷ (codes "thu", 4)
    ∷ (codes "fri", 5)
    ∷ (codes "sat", 6)
    ∷ []

unfoldable pub month_labels : List Text
month_labels =
    codes "January"
    ∷ codes "February"
    ∷ codes "March"
    ∷ codes "April"
    ∷ codes "May"
    ∷ codes "June"
    ∷ codes "July"
    ∷ codes "August"
    ∷ codes "September"
    ∷ codes "October"
    ∷ codes "November"
    ∷ codes "December"
    ∷ []

unfoldable pub day_labels : List Text
day_labels =
    codes "Sunday"
    ∷ codes "Monday"
    ∷ codes "Tuesday"
    ∷ codes "Wednesday"
    ∷ codes "Thursday"
    ∷ codes "Friday"
    ∷ codes "Saturday"
    ∷ []

abbrev pub field_spec : CronFieldName → ℕ → ℕ → List (Text × ℕ) → FieldSpec
field_spec name min max names = record { name = name; min = min; max = max; names = names }

unfoldable pub five_field : List FieldSpec
unfolding month_names day_names
five_field =
    field_spec minute 0 59 []
    ∷ field_spec hour 0 23 []
    ∷ field_spec day_of_month 1 31 []
    ∷ field_spec month 1 12 month_names
    ∷ field_spec day_of_week 0 7 day_names
    ∷ []

unfoldable pub six_field : List FieldSpec
unfolding five_field
six_field = field_spec second 0 59 [] ∷ five_field

unfoldable pub shorthands : List (Text × Text)
shorthands =
    (codes "@yearly", codes "0 0 1 1 *")
    ∷ (codes "@annually", codes "0 0 1 1 *")
    ∷ (codes "@monthly", codes "0 0 1 * *")
    ∷ (codes "@weekly", codes "0 0 * * 0")
    ∷ (codes "@daily", codes "0 0 * * *")
    ∷ (codes "@midnight", codes "0 0 * * *")
    ∷ (codes "@hourly", codes "0 * * * *")
    ∷ []
