-- ===== src/Cron/Parse/Fields.antt =====
-- What a parsed field holds.
use dev_box.Prelude.{
  ℕ, ◌≡◌, ◌≢◌, ◌↔◌, ◌⊎◌, inl, inr, refl, true, ◌&&◌, List, [], ◌∷◌, arith, In, Bool-cases, sym, ap,
  ◌∙◌, ◌==◌,
}
use mathlib.Core.Path.{subst}
use dev_box.Text.{Text, codes, text_eq}
use dev_box.Text.Equality.{text_eq_iff}
use dev_box.Text.Split.{split}
use dev_box.Cron.Model.{CronFieldName, CronField, Result, ok, err, ◌>>=◌, FieldSpec, field_number}
use dev_box.Cron.Parse.{
  expand_term, has_value, add_values, delete_value, sort_values, parse_terms, fold_sunday,
  finish_field, parse_field,
}
use dev_box.Cron.Parse.Values.{
  has_value_iff, IsAscending, IsDistinct, In-add_value, add_value-IsDistinct, In-add_values,
  add_values-IsDistinct, In-delete_value, delete_value-IsDistinct, In-sort_values,
  sort_values-IsAscending,
}
use dev_box.Cron.Parse.Ranges.{InRange, IsSpec}
use dev_box.Cron.Parse.Terms.{expand_term-IsSpread}

-- The value that was passed on by a computation that returns.
module _ {ℓ κ} {A : Type ℓ} {B : Type κ} where
  pub bind-eq-ok :
      (first : Result A) (next : A → Result B) {b : B}
      → (first >>= next) ≡ ok b
      → (value : A) × (first ≡ ok value) × (next value ≡ ok b)
  bind-eq-ok (err problem) next e = cc
  bind-eq-ok (ok value) next e = (value, refl, e)

-- A value that a term of the field stands for.
abbrev pub Stands : List Text → FieldSpec → Text → ℕ → Type 0
Stands terms spec source x =
    (term : Text) × (values : List ℕ) × (In term terms
      × ((expand_term term spec source ≡ ok values) × In x values))

module _ (spec : FieldSpec) (source : Text) where
  Stands-nil : (x : ℕ) → Stands [] spec source x → ⊥
  Stands-nil x (term, values, (m, h)) = m

  Stands-cons :
      (term : Text) (terms : List Text) (expanded : List ℕ) (x : ℕ)
      → expand_term term spec source ≡ ok expanded
      → Stands (term ∷ terms) spec source x ↔ (In x expanded ⊎ Stands terms spec source x)
  Stands-cons term terms expanded x e = (
    λ (t, values, (m, (e', h))). elim m [
      | inl same ↦
          inl (subst (In x) (ok_inj _ _ (sym e' ∙ ap (λ s. expand_term s spec source) same ∙ e)) h)
      | inr later ↦ inr (t, values, (later, (e', h)))
    ],
    λ h. elim h [
      | inl m ↦ (term, expanded, (inl refl, (e, m)))
      | inr (t, values, (m, (e', h'))) ↦ (t, values, (inr m, (e', h')))
    ],
  )
    where
      ok_inj : (a b : List ℕ) → ok a ≡ ok b → a ≡ b
      ok_inj a b p = cc

  -- The loop over the terms collects what they stand for.
  parse_terms_lem :
      (terms : List Text) (values result : List ℕ)
      → parse_terms terms spec source values ≡ ok result
      → (IsDistinct values → IsDistinct result)
        × ((x : ℕ) → In x result ↔ (Stands terms spec source x ⊎ In x values))
  unfolding parse_terms
  parse_terms_lem [] values result e =
      let same : values ≡ result = cc in
      (
        subst (λ l. IsDistinct values → IsDistinct l) same (λ h. h),
        λ x. (
          λ m. inr (subst (In x) (sym same) m),
          λ h. elim h [ inl s ↦ absurd (Stands-nil x s) | inr m ↦ subst (In x) same m ],
        ),
      )
  parse_terms_lem ([] ∷ terms) values result e = absurd (cc)
  parse_terms_lem ((c ∷ term) ∷ terms) values result e =
      let (expanded, e', later) = bind-eq-ok (expand_term (c ∷ term) spec source) _ e in
      let (distinct, members) = parse_terms_lem terms (add_values expanded values) result later in
      (
        λ h. distinct (add_values-IsDistinct expanded values h),
        λ x.
            let (to, from) = members x in
            let (to', from') = In-add_values x expanded values in
            let (split_up, joined) = Stands-cons (c ∷ term) terms expanded x e' in
            (
              λ m. elim (to m) [
                | inl s ↦ inl (joined (inr s))
                | inr old ↦ elim (to' old) [ inl n ↦ inl (joined (inl n)) | inr o ↦ inr o ]
              ],
              λ h. elim h [
                | inl s ↦ elim (split_up s) [
                  | inl n ↦ from (inr (from' (inl n)))
                  | inr s' ↦ from (inl s')
                ]
                | inr o ↦ from (inr (from' (inr o)))
              ],
            ),
      )

-- Sunday by its two numbers, in the field of week days.
abbrev pub Folds : CronFieldName → ℕ → ℕ → Type 0
Folds name y x =
    ((x ≡ y) × ((field_number name ≡ 5) → y ≢ 7)) ⊎ ((field_number name ≡ 5) × (y ≡ 7) × (x ≡ 0))

In-fold_sunday :
    (name : CronFieldName) (values : List ℕ) (x : ℕ)
    → In x (fold_sunday name values) ↔ ((y : ℕ) × (In y values × Folds name y x))
unfolding fold_sunday
In-fold_sunday name values x =
    let (to, from) = has_value_iff 7 values in
    elim (Bool-cases (field_number name == 5)) [
      | inr h ↦
          let other : field_number name ≢ 5 = ground arith in
          rw h (
            λ m. (x, (m, inl (refl, λ e. absurd (other e)))),
            λ (y, (m, f)). elim f [
              | inl (e, _) ↦ subst (λ z. In z values) (sym e) m
              | inr (e, _, _) ↦ absurd (other e)
            ],
          )
      | inl h ↦ elim (Bool-cases (has_value 7 values)) [
        | inr h' ↦
            rw (h, h')
              (
                λ m. (x, (m, inl (refl, λ _ e. cc (from (subst (λ z. In z values) e m), h')))),
                λ (y, (m, f)). elim f [
                  | inl (e, _) ↦ subst (λ z. In z values) (sym e) m
                  | inr (_, e, _) ↦ cc (from (subst (λ z. In z values) e m), h')
                ],
              )
        | inl h' ↦
            let week : field_number name ≡ 5 = ground arith in
            let (to_zero, from_zero) = In-add_value x 0 (delete_value 7 values) in
            let (to_rest, from_rest) = In-delete_value x 7 values in
            rw (h, h')
              (
                λ m. elim (to_zero m) [
                  | inl e ↦ (7, (to h', inr (week, refl, e)))
                  | inr old ↦ let (ne, m') = to_rest old in (x, (m', inl (refl, λ _. ne)))
                ],
                λ (y, (m, f)). elim f [
                  | inl (e, ne) ↦ from_zero (
                      inr (
                        from_rest (λ e'. ne week (sym e ∙ e'), subst (λ z. In z values) (sym e) m)))
                  | inr (_, _, e) ↦ from_zero (inl e)
                ],
              )
      ]
    ]

fold_sunday-IsDistinct :
    (name : CronFieldName) (values : List ℕ)
    → IsDistinct values
    → IsDistinct (fold_sunday name values)
unfolding fold_sunday
fold_sunday-IsDistinct name values h =
    elim (Bool-cases (field_number name == 5 && has_value 7 values)) [
      | inl e ↦
          rw e (add_value-IsDistinct 0 (delete_value 7 values) (delete_value-IsDistinct 7 values h))
      | inr e ↦ rw e h
    ]

-- A field as it is parsed from `source`.
pub record IsFieldOf (spec : FieldSpec) (source : Text) (f : CronField) : Type 0 where
  pub named : f.name ≡ spec.name
  pub written : f.source ≡ source
  pub ascending : IsAscending f.values
  pub some_value : f.values ≢ []
  pub within : (x : ℕ) → In x f.values → InRange spec x
  pub members :
      (x : ℕ)
      → In x f.values ↔ ((y : ℕ) × (Stands (split b',' source) spec source y × Folds spec.name y x))
  pub wild : (f.wildcard ≡ true) ↔ (source ≡ codes "*")

Stands-InRange :
    (terms : List Text) (spec : FieldSpec) (source : Text) (y : ℕ)
    → IsSpec spec
    → Stands terms spec source y
    → InRange spec y
Stands-InRange terms spec source y law (term, values, (m, (e, h))) =
    let ranged = expand_term-IsSpread term spec source law e in
    let (k, at_step, before) = (ranged.members y).0 h in
    (omega (arith, ranged.low, at_step), omega (arith, ranged.high, before))

Folds-InRange :
    (spec : FieldSpec) (y x : ℕ)
    → IsSpec spec
    → InRange spec y
    → Folds spec.name y x
    → InRange spec x
Folds-InRange spec y x law (low, high) (inl (e, _)) =
    (omega (arith, e, low), omega (arith, e, high))
Folds-InRange spec y x law (low, high) (inr (week, _, e)) =
    let zero_min = law.sunday week in (omega (arith, e, zero_min), omega (arith, e))

Stands-nil_right :
    (terms : List Text) (spec : FieldSpec) (source : Text) (y : ℕ)
    → Stands terms spec source y ⊎ In y []
    → Stands terms spec source y
Stands-nil_right terms spec source y (inl h) = h
Stands-nil_right terms spec source y (inr never) = absurd never

-- The last part of parseField.
finish_field_lem :
    (source : Text) (spec : FieldSpec) (values : List ℕ) (f : CronField)
    → finish_field source spec values ≡ ok f
    → (f.name ≡ spec.name)
      × (f.source ≡ source)
      × (f.values ≡ values)
      × (f.values ≢ [])
      × (f.wildcard ≡ text_eq source (codes "*"))
unfolding finish_field
finish_field_lem source spec [] f e = absurd (cc)
finish_field_lem source spec (v ∷ values) f e = (cc, cc, cc, λ e'. cc, cc)

-- A field that is accepted holds, in ascending order and each once, exactly the values that its terms
-- stand for, 7 in the days of the week read as 0. It is never empty, its values lie within the
-- field's range, and it is a wildcard exactly if it is written `*`.
pub parse_field-IsFieldOf :
    (source : Text) (spec : FieldSpec) {f : CronField}
    → IsSpec spec
    → parse_field source spec ≡ ok f
    → IsFieldOf spec source f
unfolding parse_field
parse_field-IsFieldOf source spec {f} law e =
    let terms = split b',' source in
    let (collected, e', finished) = bind-eq-ok (parse_terms terms spec source []) _ e in
    let (distinct, stand) = parse_terms_lem spec source terms [] collected e' in
    let folded = fold_sunday spec.name collected in
    let (named, written, same, some_value, wild) =
      finish_field_lem source spec (sort_values folded) f finished in
    let members : (x : ℕ)
        → In x f.values ↔ ((y : ℕ) × (Stands terms spec source y × Folds spec.name y x)) =
      λ x.
        let (to, from) = In-sort_values x folded in
        let (to', from') = In-fold_sunday spec.name collected x in
        (
          λ m.
              let (y, (h, folds)) = to' (to (subst (In x) same m)) in
              (y, (Stands-nil_right terms spec source y ((stand y).0 h), folds)),
          λ (y, (h, folds)).
              subst (In x) (sym same) (from (from' (y, ((stand y).1 (inl h), folds)))),
        ) in
    let (is_star, star) = text_eq_iff source (codes "*") in
    record {
      named = named;
      written = written;
      ascending = subst IsAscending (sym same) (
          sort_values-IsAscending folded
            (fold_sunday-IsDistinct spec.name collected (distinct tt)));
      some_value = some_value;
      within = λ x m.
          let (y, (h, folds)) = (members x).0 m in
          Folds-InRange spec y x law (Stands-InRange terms spec source y law h) folds;
      members = members;
      wild = (λ h. is_star (sym wild ∙ h), λ h. wild ∙ star h);
    }
