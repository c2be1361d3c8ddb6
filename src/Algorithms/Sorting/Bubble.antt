-- ===== src/Algorithms/Sorting/Bubble.antt =====
-- Bubble sort sorts.
use dev_box.Prelude.{
  ℕ, zero, suc, ◌+◌, ◌-◌, ◌<◌, ◌≤◌, ◌≡◌, ◌≢◌, inl, inr, refl, List, ◌∷◌, length, arith, Bool-cases,
  sym, ap, ◌∙◌, last?, last?-concat, some,
}
use mathlib.Core.Option
use mathlib.Core.Path.{subst}
use dev_box.Prelude.Int.{ℤ, ltb_ℤ, ◌≤ℤ◌}
use dev_box.Algorithms.Steps.{Step}
use dev_box.Algorithms.Heap.{at, swap}
use dev_box.Algorithms.Heap.Count.{
  count, count-swap, at-swap_left, at-swap_right, at-swap_ne, length-swap,
}
use dev_box.Algorithms.Heap.SiftUp.{eq_cases, le_trans, le_of}
use dev_box.Algorithms.Sorting.{
  bubble_pass, bubble_passes, bubble_sort_steps, bubble_start, bubble_end,
}

-- From `r` on, each item is at least all that stand before it.
abbrev pub SortedFrom : (r : ℕ) → List ℤ → Type 0
SortedFrom r arr = (p q : ℕ) → p < q → r ≤ q → q < length arr → at arr p ≤ℤ at arr q

-- The item at `j` is at least all that stand before it.
abbrev pub IsTop : (j : ℕ) → List ℤ → Type 0
IsTop j arr = (p : ℕ) → p < j → at arr p ≤ℤ at arr j

-- The same items.
abbrev pub SameItems : List ℤ → List ℤ → Type 0
SameItems before behind =
    (length behind ≡ length before) × ((x : ℤ) → count x behind ≡ count x before)

module _ (arr : List ℤ) (j : ℕ) (inside : j + 1 < length arr) where
  bubbled : List ℤ
  bubbled = swap j (j + 1) arr

  upper : at bubbled (j + 1) ≡ at arr j
  unfolding bubbled
  upper = at-swap_right arr j (j + 1) (omega (arith, inside)) inside (omega arith)

  lower : at bubbled j ≡ at arr (j + 1)
  unfolding bubbled
  lower = at-swap_left arr j (j + 1) (omega (arith, inside)) inside (omega arith)

  outside : (p : ℕ) → p ≢ j → p ≢ j + 1 → at bubbled p ≡ at arr p
  unfolding bubbled
  outside p h h' = at-swap_ne arr j (j + 1) p (λ e. h (sym e)) (λ e. h' (sym e))

  swap-SameItems : SameItems arr (swap j (j + 1) arr)
  swap-SameItems = (
    length-swap arr j (j + 1),
    count-swap arr j (j + 1) (omega (arith, inside)) inside (omega arith),
  )

  swap-IsTop : IsTop j arr → at arr (j + 1) ≤ℤ at arr j → IsTop (j + 1) (swap j (j + 1) arr)
  unfolding bubbled
  swap-IsTop top le p h = elim (eq_cases p j) [
    | inl e ↦ le_of _ _ _ _ (ap (at bubbled) e ∙ lower) upper le
    | inr ne ↦ le_of _ _ _ _ (outside p ne (omega (arith, h))) upper (top p (omega (arith, h, ne)))
  ]

  swap-SortedFrom : (r : ℕ) → j + 1 < r → SortedFrom r arr → SortedFrom r (swap j (j + 1) arr)
  unfolding bubbled
  swap-SortedFrom r behind sorted p q hp hq hl =
      let same = length-swap arr j (j + 1) in
      let last = outside q (omega (arith, hq, behind)) (omega (arith, hq, behind)) in
      let bound : (i : ℕ) → i < q → at arr i ≤ℤ at arr q =
        λ i hi. sorted i q hi hq (omega (arith, same, hl)) in
      elim (eq_cases p j) [
        | inl e ↦
            le_of _ _ _ _ (ap (at bubbled) e ∙ lower) last
              (bound (j + 1) (omega (arith, hq, behind)))
        | inr ne ↦ elim (eq_cases p (j + 1)) [
          | inl e ↦
              le_of _ _ _ _ (ap (at bubbled) e ∙ upper) last (bound j (omega (arith, hq, behind)))
          | inr ne' ↦ le_of _ _ _ _ (outside p ne ne') last (bound p hp)
        ]
      ]

-- What an inner loop leaves: one item more in its place.
abbrev pub Bubbles : (r : ℕ) → List ℤ → List ℤ → Type 0
Bubbles r before behind = SortedFrom r behind × SameItems before behind

bubble_pass-Bubbles :
    (rounds j : ℕ) (arr : List ℤ)
    → j + rounds < length arr
    → SortedFrom (suc (j + rounds)) arr
    → IsTop j arr
    → Bubbles (j + rounds) arr (bubble_pass rounds j arr).1
unfolding bubble_pass
bubble_pass-Bubbles zero j arr inside sorted top = (
  λ p q hp hq hl. elim (eq_cases q j) [
    | inl e ↦ subst (λ k. at arr p ≤ℤ at arr k) (sym e) (top p (omega (arith, e, hp)))
    | inr ne ↦ sorted p q hp (omega (arith, hq, ne)) hl
  ],
  (refl, λ x. refl),
)
bubble_pass-Bubbles (suc rounds) j arr inside sorted top =
    let room : j + 1 < length arr = omega (arith, inside) in
    let sum : (j + 1) + rounds ≡ j + suc rounds = omega arith in
    elim (Bool-cases (ltb_ℤ (at arr (j + 1)) (at arr j))) [
      | inl swaps ↦
          let moved = swap j (j + 1) arr in
          let (long, counts) = swap-SameItems arr j room in
          let (sorted', (long', counts')) =
            bubble_pass-Bubbles rounds (j + 1) moved (omega (arith, inside, long))
              (subst (λ k. SortedFrom (suc k) moved) (sym sum)
                (swap-SortedFrom arr j room (suc (j + suc rounds)) (omega arith) sorted))
              (swap-IsTop arr j room top (ground arith)) in
          rw swaps (
            (
              subst (λ k. SortedFrom k (bubble_pass rounds (j + 1) moved).1) sum sorted',
              (long' ∙ long, λ x. counts' x ∙ counts x),
            ))
      | inr stays ↦
          let le : at arr j ≤ℤ at arr (j + 1) = ground arith in
          let top' : IsTop (j + 1) arr = λ p h. elim (eq_cases p j) [
            | inl e ↦ subst (λ k. at arr k ≤ℤ at arr (j + 1)) (sym e) le
            | inr ne ↦
                le_trans (at arr p) (at arr j) (at arr (j + 1)) (top p (omega (arith, h, ne))) le
          ] in
          let (sorted', same) =
            bubble_pass-Bubbles rounds (j + 1) arr (omega (arith, inside))
              (subst (λ k. SortedFrom (suc k) arr) (sym sum) sorted) top' in
          rw stays
            ((subst (λ k. SortedFrom k (bubble_pass rounds (j + 1) arr).1) sum sorted', same))
    ]

bubble_passes-Bubbles :
    (rounds : ℕ) (arr : List ℤ)
    → rounds ≤ length arr - 1
    → SortedFrom (suc rounds) arr
    → Bubbles 1 arr (bubble_passes rounds arr).1
unfolding bubble_passes
bubble_passes-Bubbles zero arr h sorted = (sorted, (refl, λ x. refl))
bubble_passes-Bubbles (suc rounds) arr h sorted =
    let passed = (bubble_pass (suc rounds) 0 arr).1 in
    let sum : 0 + suc rounds ≡ suc rounds = omega arith in
    let (sorted', (long, counts)) =
      bubble_pass-Bubbles (suc rounds) 0 arr (omega (arith, h))
        (subst (λ k. SortedFrom (suc k) arr) (sym sum) sorted) (λ p hp. absurd (omega arith)) in
    let (sorted'', (long', counts')) =
      bubble_passes-Bubbles rounds passed (omega (arith, long, h))
        (subst (λ k. SortedFrom k passed) sum sorted') in
    (sorted'', (long' ∙ long, λ x. counts' x ∙ counts x))

-- The last step of a run shows the array sorted: no item is larger than a later one, and each value
-- stands in it as often as in the input.
pub bubble_sort_steps_lem :
    (input : List ℤ)
    → (arr : List ℤ) × (Option.map
          (λ (s : Step (List ℤ)). s.state)
          (last? (bubble_sort_steps input))
        ≡ some arr)
      × ((p q : ℕ) → p < q → q < length arr → at arr p ≤ℤ at arr q)
      × ((x : ℤ) → count x arr ≡ count x input)
unfolding bubble_sort_steps
bubble_sort_steps_lem input =
    let rounds = length input - 1 in
    let (sorted, (long, counts)) =
      bubble_passes-Bubbles rounds input (omega arith) (λ p q hp hq hl. absurd (omega arith)) in
    (
      (bubble_passes rounds input).1,
      ap (Option.map (λ (s : Step (List ℤ)). s.state)) (
          last?-concat (bubble_start input ∷ (bubble_passes rounds input).0)
            (bubble_end (bubble_passes rounds input).1)),
      λ p q hp hl. sorted p q hp (omega (arith, hp)) hl,
      counts,
    )
