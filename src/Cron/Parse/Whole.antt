-- ===== src/Cron/Parse/Whole.antt =====
-- What a parsed expression holds.
use dev_box.Prelude.{
  ◌≡◌, ◌⊎◌, inl, inr, refl, true, false, List, [], ◌∷◌, arith, All, Bool-cases, sym, ap, ◌==◌,
  length, ltb, leb,
}
use mathlib.Core.Path.{subst}
use dev_box.Text.Split.{squeeze}
use dev_box.Text.{Text, codes, text_eq, trim}
use dev_box.Text.Split.{split, to_lower}
use dev_box.Cron.Model.{
  CronError, CronField, ParsedCron, field_count, ok, err, FieldSpec, five_field, six_field,
  month_names, day_names,
}
use dev_box.Cron.Parse.{
  parse_field, parse_fields, normalize, specs_for, parse_normalized, parse_cron,
}
use dev_box.Cron.Parse.Ranges.{IsSpec}
use dev_box.Cron.Parse.Fields.{IsFieldOf, parse_field-IsFieldOf, bind-eq-ok}

five_field-IsSpec : All IsSpec five_field
unfolding five_field month_names day_names
five_field-IsSpec = (
  record { ordered = omega arith; named = tt; sunday = λ e. ground arith },
  (
    record { ordered = omega arith; named = tt; sunday = λ e. ground arith },
    (
      record { ordered = omega arith; named = tt; sunday = λ e. ground arith },
      (
        record { ordered = omega arith; named = omega arith; sunday = λ e. ground arith },
        (record { ordered = omega arith; named = omega arith; sunday = λ e. refl }, tt),
      ),
    ),
  ),
)

six_field-IsSpec : All IsSpec six_field
unfolding six_field
six_field-IsSpec =
    (record { ordered = omega arith; named = tt; sunday = λ e. ground arith }, five_field-IsSpec)

-- Each field is parsed from its part by its specification.
abbrev pub AreFields : List FieldSpec → List Text → List CronField → Type 0
AreFields (spec ∷ specs) (part ∷ parts) (f ∷ fields) =
    IsFieldOf spec part f × AreFields specs parts fields
AreFields (spec ∷ specs) (part ∷ parts) [] = ⊥
AreFields _ _ fields = fields ≡ []

parse_fields-AreFields :
    (specs : List FieldSpec) (parts : List Text) (fields : List CronField)
    → All IsSpec specs
    → parse_fields specs parts ≡ ok fields
    → AreFields specs parts fields
unfolding parse_fields
parse_fields-AreFields [] parts fields law e = cc
parse_fields-AreFields (spec ∷ specs) [] fields law e = cc
parse_fields-AreFields (spec ∷ specs) (part ∷ parts) fields (law, laws) e =
    let (f, e', later) = bind-eq-ok (parse_field part spec) _ e in
    let (rest, e'', last) = bind-eq-ok (parse_fields specs parts) _ later in
    let same : f ∷ rest ≡ fields = cc in
    subst (AreFields (spec ∷ specs) (part ∷ parts)) same
      (parse_field-IsFieldOf part spec law e', parse_fields-AreFields specs parts rest laws e'')

ok_inj : {a b : ParsedCron} → ok a ≡ ok b → a ≡ b
ok_inj e = cc

refused : {problem : CronError} {parsed : ParsedCron} → err problem ≡ ok parsed → ⊥
refused e = cc

-- The two forms: five fields, and six with the seconds first.
abbrev pub HasFields : ParsedCron → Type 0
HasFields parsed =
    let parts = split b' ' parsed.normalized in
    ((length parts ≡ 5) × (parsed.has_seconds ≡ false) × AreFields five_field parts parsed.fields)
    ⊎ ((length parts ≡ 6) × (parsed.has_seconds ≡ true) × AreFields six_field parts parsed.fields)

parse_normalized_lem :
    (normalized : Text) (parsed : ParsedCron)
    → parse_normalized normalized ≡ ok parsed
    → (parsed.normalized ≡ normalized) × HasFields parsed
unfolding parse_normalized specs_for
parse_normalized_lem normalized parsed e =
    let parts = split b' ' normalized in
    elim (Bool-cases (length parts == 5)) [
      | inl five ↦
          let other : (length parts == 6) ≡ false = ground arith in
          let (fields, e', done) =
            bind-eq-ok (parse_fields five_field parts) _ (rw (five, other) at e) in
          let same = ok_inj done in
          (
            ap (λ (p : ParsedCron). p.normalized) (sym same),
            subst HasFields same (
                inl (
                  ground arith,
                  refl,
                  parse_fields-AreFields five_field parts fields five_field-IsSpec e',
                )),
          )
      | inr not_five ↦ elim (Bool-cases (length parts == 6)) [
        | inl six ↦
            let (fields, e', done) =
              bind-eq-ok (parse_fields six_field parts) _ (rw (not_five, six) at e) in
            let same = ok_inj done in
            (
              ap (λ (p : ParsedCron). p.normalized) (sym same),
              subst HasFields same (
                  inr (
                    ground arith,
                    refl,
                    parse_fields-AreFields six_field parts fields six_field-IsSpec e',
                  )),
            )
        | inr not_six ↦
            let wrong : err (field_count (length parts)) ≡ ok parsed =
              rw (not_five, not_six) at e in
            absurd (cc)
      ]
    ]

-- An accepted expression was put in its normal form, its shorthand replaced, and has the five fields
-- from the minute to the day of the week, or six with the second first, each parsed from its part.
pub parse_cron-HasFields :
    (expression : Text) {parsed : ParsedCron}
    → parse_cron expression ≡ ok parsed
    → (parsed.normalized ≡ normalize (squeeze (trim expression))) × HasFields parsed
unfolding parse_cron
parse_cron-HasFields expression {parsed} e =
    let trimmed = squeeze (trim expression) in
    elim (Bool-cases (leb (length trimmed) 0)) [
      | inl h ↦ absurd (refused (rw h at e))
      | inr h ↦ elim (Bool-cases (ltb 200 (length trimmed))) [
        | inl h' ↦ absurd (refused (rw (h, h') at e))
        | inr h' ↦ elim (Bool-cases (text_eq (to_lower trimmed) (codes "@reboot"))) [
          | inl h'' ↦ absurd (refused (rw (h, h', h'') at e))
          | inr h'' ↦ parse_normalized_lem (normalize trimmed) parsed (rw (h, h', h'') at e)
        ]
      ]
    ]
