-- ===== src/Algorithms/Heap/Extract/Largest.antt =====
-- The largest of an item and its children.
use dev_box.Prelude.{
  ℕ, ◌+◌, ◌*◌, ◌<◌, ◌≡◌, ◌⊎◌, inl, inr, refl, List, ltb, arith, Bool-cases, sym, ◌&&◌,
}
use mathlib.Core.Path.{subst}
use dev_box.Prelude.Int.{ℤ, ltb_ℤ, ◌≤ℤ◌}
use dev_box.Algorithms.Heap.{at, parent_of}
use dev_box.Algorithms.Heap.SiftUp.{eq_cases, le_trans}
use dev_box.Algorithms.Heap.Extract.{larger, largest}

-- One comparison: the child where it wins, and what the winner is not smaller than.
larger-cases :
    (heap : List ℤ) (size i j : ℕ)
    → ((larger heap size i j ≡ j) × (j < size) × (at heap i ≤ℤ at heap j))
      ⊎ ((larger heap size i j ≡ i) × (j < size → at heap j ≤ℤ at heap i))
larger-cases heap size i j = elim (Bool-cases (ltb j size && ltb_ℤ (at heap i) (at heap j))) [
  | inl h ↦ rw h (inl (refl, ground arith, ground arith))
  | inr h ↦ rw h (inr (refl, λ inside. ground arith))
]

-- The winner of the three: the item itself or one of its children in the heap, and no smaller than
-- any of them.
unfoldable pub Wins : List ℤ → (size i l : ℕ) → Type 0
Wins heap size i l =
    ((l ≡ i) ⊎ ((parent_of l ≡ i) × (i < l) × (l < size)))
    × (at heap i ≤ℤ at heap l)
    × ((j : ℕ) → 0 < j → j < size → parent_of j ≡ i → at heap j ≤ℤ at heap l)

child_cases : (i j : ℕ) → 0 < j → parent_of j ≡ i → (j ≡ 2 * i + 1) ⊎ (j ≡ 2 * i + 2)
child_cases i j h e = elim (eq_cases j (2 * i + 1)) [
  | inl e' ↦ inl e'
  | inr ne ↦ inr (omega (arith, h, e, ne))
]

module _ (heap : List ℤ) (size i : ℕ) where
  children :
      (l : ℕ)
      → (2 * i + 1 < size → at heap (2 * i + 1) ≤ℤ at heap l)
      → (2 * i + 2 < size → at heap (2 * i + 2) ≤ℤ at heap l)
      → (j : ℕ) → 0 < j
      → j < size
      → parent_of j ≡ i
      → at heap j ≤ℤ at heap l
  children l left right j h inside e = elim (child_cases i j h e) [
    | inl e' ↦ subst (λ k. at heap k ≤ℤ at heap l) (sym e') (left (omega (arith, inside, e')))
    | inr e' ↦ subst (λ k. at heap k ≤ℤ at heap l) (sym e') (right (omega (arith, inside, e')))
  ]

  pub largest-Wins : Wins heap size i (largest heap size i)
  unfolding Wins
  largest-Wins = elim (larger-cases heap size i (2 * i + 1)) [
    | inl (e, inside, le) ↦ elim (larger-cases heap size (2 * i + 1) (2 * i + 2)) [
      | inl (e', inside', le') ↦
          rw (e, e')
            ((
              inr (omega arith, omega arith, inside'),
              le_trans (at heap i) (at heap (2 * i + 1)) (at heap (2 * i + 2)) le le',
              children (2 * i + 2) (λ h. le') (λ h. omega arith),
            ))
      | inr (e', other) ↦
          rw (e, e')
            ((
              inr (omega arith, omega arith, inside),
              le,
              children (2 * i + 1) (λ h. omega arith) other,
            ))
    ]
    | inr (e, other) ↦ elim (larger-cases heap size i (2 * i + 2)) [
      | inl (e', inside', le') ↦
          rw (e, e')
            ((
              inr (omega arith, omega arith, inside'),
              le',
              children (2 * i + 2)
                  (λ h.
                    le_trans (at heap (2 * i + 1)) (at heap i) (at heap (2 * i + 2)) (other h) le')
                  (λ h. omega arith),
            ))
      | inr (e', other') ↦ rw (e, e') ((inl refl, omega arith, children i other other'))
    ]
  ]
