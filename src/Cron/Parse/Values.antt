-- ===== src/Cron/Parse/Values.antt =====
-- The set of a field's values as a list without repetitions, and its sorting.
use dev_box.Prelude.{
  ℕ, ◌<◌, ◌≡◌, ◌≢◌, ◌↔◌, ◌⊎◌, inl, inr, true, List, [], ◌∷◌, ◌++◌, arith, In, All, Bool-cases, leb,
  ◌==◌, In-append_left, In-append_right, In-append_cases, sym, All-map, ◌∙◌,
}
use mathlib.Core.Path.{subst}
use dev_box.Cron.Parse.{has_value, add_value, add_values, delete_value, insert_sorted, sort_values}

pub has_value_iff : (v : ℕ) (values : List ℕ) → (has_value v values ≡ true) ↔ In v values
has_value_iff v [] = (λ h. ground arith, λ h. absurd h)
has_value_iff v (x ∷ values) =
    let (to, from) = has_value_iff v values in (λ h. ground arith, λ h. ground arith)

-- Each value is before those behind it.
abbrev pub IsAscending : List ℕ → Type 0
IsAscending [] = Unit
IsAscending (t ∷ ts) = All (λ u. t < u) ts × IsAscending ts

abbrev pub IsDistinct : List ℕ → Type 0
IsDistinct [] = Unit
IsDistinct (x ∷ values) = ¬ In x values × IsDistinct values

In-append_last : (x v : ℕ) (values : List ℕ) → In x (values ++ v ∷ []) ↔ ((x ≡ v) ⊎ In x values)
In-append_last x v values = (
  λ m. elim (In-append_cases x values (v ∷ []) m) [
    | inl h ↦ inr h
    | inr h ↦ elim h [ inl e ↦ inl e | inr never ↦ absurd never ]
  ],
  λ m. elim m [
    | inl e ↦ In-append_right x values (v ∷ []) (inl e)
    | inr h ↦ In-append_left x values (v ∷ []) h
  ],
)

pub In-add_value : (x v : ℕ) (values : List ℕ) → In x (add_value v values) ↔ ((x ≡ v) ⊎ In x values)
In-add_value x v values =
    let (to, from) = has_value_iff v values in
    elim (Bool-cases (has_value v values)) [
      | inl h ↦ rw h (
        λ m. inr m,
        λ m. elim m [ inl e ↦ subst (λ y. In y values) (sym e) (to h) | inr old ↦ old ],
      )
      | inr h ↦ rw h (In-append_last x v values)
    ]

append_last-IsDistinct :
    (v : ℕ) (values : List ℕ) → IsDistinct values → ¬ In v values → IsDistinct (values ++ v ∷ [])
append_last-IsDistinct v [] h fresh = (λ m. m, tt)
append_last-IsDistinct v (x ∷ values) (new, h) fresh = (
  λ m. elim ((In-append_last x v values).0 m) [ inl e ↦ fresh (inl (sym e)) | inr old ↦ new old ],
  append_last-IsDistinct v values h (λ m. fresh (inr m)),
)

pub add_value-IsDistinct :
    (v : ℕ) (values : List ℕ) → IsDistinct values → IsDistinct (add_value v values)
add_value-IsDistinct v values h =
    let (to, from) = has_value_iff v values in
    elim (Bool-cases (has_value v values)) [
      | inl e ↦ rw e h
      | inr e ↦ rw e (append_last-IsDistinct v values h (λ m. cc (from m, e)))
    ]

pub In-add_values :
    (x : ℕ) (more values : List ℕ) → In x (add_values more values) ↔ (In x more ⊎ In x values)
unfolding add_values
In-add_values x [] values = (λ m. inr m, λ m. elim m [ inl never ↦ absurd never | inr old ↦ old ])
In-add_values x (v ∷ more) values =
    let (to, from) = In-add_values x more (add_value v values) in
    let (to', from') = In-add_value x v values in
    (
      λ m. elim (to m) [
        | inl h ↦ inl (inr h)
        | inr h ↦ elim (to' h) [ inl e ↦ inl (inl e) | inr old ↦ inr old ]
      ],
      λ m. elim m [
        | inl h ↦ elim h [ inl e ↦ from (inr (from' (inl e))) | inr h' ↦ from (inl h') ]
        | inr old ↦ from (inr (from' (inr old)))
      ],
    )

pub add_values-IsDistinct :
    (more values : List ℕ) → IsDistinct values → IsDistinct (add_values more values)
unfolding add_values
add_values-IsDistinct [] values h = h
add_values-IsDistinct (v ∷ more) values h =
    add_values-IsDistinct more (add_value v values) (add_value-IsDistinct v values h)

pub In-delete_value :
    (x v : ℕ) (values : List ℕ) → In x (delete_value v values) ↔ ((x ≢ v) × In x values)
unfolding delete_value
In-delete_value x v [] = (λ m. absurd m, λ m. m.1)
In-delete_value x v (y ∷ values) =
    let (to, from) = In-delete_value x v values in
    elim (Bool-cases (y == v)) [
      | inl h ↦
          let same : y ≡ v = ground arith in
          rw h (
            λ m. let (ne, old) = to m in (ne, inr old),
            λ (ne, m). elim m [ inl e ↦ absurd (ne (e ∙ same)) | inr old ↦ from (ne, old) ],
          )
      | inr h ↦
          let other : y ≢ v = ground arith in
          rw h (
            λ m. elim m [
              | inl e ↦ (λ e'. other (sym e ∙ e'), inl e)
              | inr old ↦ let (ne, old') = to old in (ne, inr old')
            ],
            λ (ne, m). elim m [ inl e ↦ inl e | inr old ↦ inr (from (ne, old)) ],
          )
    ]

pub delete_value-IsDistinct :
    (v : ℕ) (values : List ℕ) → IsDistinct values → IsDistinct (delete_value v values)
unfolding delete_value
delete_value-IsDistinct v [] h = tt
delete_value-IsDistinct v (y ∷ values) (new, h) =
    let rest = delete_value-IsDistinct v values h in
    elim (Bool-cases (y == v)) [
      | inl e ↦ rw e rest
      | inr e ↦ rw e ((λ m. new ((In-delete_value y v values).0 m).1, rest))
    ]

In-insert_sorted :
    (x v : ℕ) (values : List ℕ) → In x (insert_sorted v values) ↔ ((x ≡ v) ⊎ In x values)
unfolding insert_sorted
In-insert_sorted x v [] = (λ m. m, λ m. m)
In-insert_sorted x v (y ∷ values) =
    let (to, from) = In-insert_sorted x v values in
    elim (Bool-cases (leb v y)) [
      | inl h ↦ rw h (λ m. m, λ m. m)
      | inr h ↦ rw h (
        λ m. elim m [
          | inl e ↦ inr (inl e)
          | inr old ↦ elim (to old) [ inl e ↦ inl e | inr older ↦ inr (inr older) ]
        ],
        λ m. elim m [
          | inl e ↦ inr (from (inl e))
          | inr old ↦ elim old [ inl e ↦ inl e | inr older ↦ inr (from (inr older)) ]
        ],
      )
    ]

pub In-sort_values : (x : ℕ) (values : List ℕ) → In x (sort_values values) ↔ In x values
unfolding sort_values
In-sort_values x [] = (λ m. m, λ m. m)
In-sort_values x (v ∷ values) =
    let (to, from) = In-sort_values x values in
    let (to', from') = In-insert_sorted x v (sort_values values) in
    (
      λ m. elim (to' m) [ inl e ↦ inl e | inr old ↦ inr (to old) ],
      λ m. elim m [ inl e ↦ from' (inl e) | inr old ↦ from' (inr (from old)) ],
    )

All-insert_sorted :
    (P : ℕ → Type 0) (v : ℕ) (values : List ℕ) → P v → All P values → All P (insert_sorted v values)
unfolding insert_sorted
All-insert_sorted P v [] p h = (p, tt)
All-insert_sorted P v (y ∷ values) p (q, h) = elim (Bool-cases (leb v y)) [
  | inl e ↦ rw e ((p, (q, h)))
  | inr e ↦ rw e ((q, All-insert_sorted P v values p h))
]

All-weaken : (v w : ℕ) (values : List ℕ) → v < w → All (λ u. w < u) values → All (λ u. v < u) values
All-weaken v w values h = All-map (λ u lt. omega (arith, lt, h)) values

insert_sorted-IsAscending :
    (v : ℕ) (values : List ℕ)
    → IsAscending values
    → ¬ In v values
    → IsAscending (insert_sorted v values)
unfolding insert_sorted
insert_sorted-IsAscending v [] h fresh = (tt, tt)
insert_sorted-IsAscending v (y ∷ values) (below, h) fresh = elim (Bool-cases (leb v y)) [
  | inl e ↦
      let ne : v ≢ y = λ e'. fresh (inl e') in
      let lt : v < y = ground arith in rw e (((lt, All-weaken v y values lt below), (below, h)))
  | inr e ↦
      let lt : y < v = ground arith in
      rw e (
        (
          All-insert_sorted (λ u. y < u) v values lt below,
          insert_sorted-IsAscending v values h (λ m. fresh (inr m)),
        ))
]

pub sort_values-IsAscending :
    (values : List ℕ) → IsDistinct values → IsAscending (sort_values values)
unfolding sort_values
sort_values-IsAscending [] h = tt
sort_values-IsAscending (v ∷ values) (new, h) =
    insert_sorted-IsAscending v (sort_values values) (sort_values-IsAscending values h)
      (λ m. new ((In-sort_values v values).0 m))
