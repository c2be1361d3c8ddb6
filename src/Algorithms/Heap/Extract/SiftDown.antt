-- ===== src/Algorithms/Heap/Extract/SiftDown.antt =====
-- Sifting down: an item that its children may exceed finds its place, and the order holds again.
use dev_box.Prelude.{
  ℕ, zero, suc, ◌+◌, ◌<◌, ◌≤◌, ◌≡◌, ◌≢◌, inl, inr, refl, List, length, ◌==◌, arith, true, false,
  sym, ap, ◌∙◌,
}
use mathlib.Core.Path.{subst}
use dev_box.Prelude.Int.{ℤ, ◌≤ℤ◌}
use dev_box.Algorithms.Heap.{at, swap, parent_of}
use dev_box.Algorithms.Heap.Count.{at-swap_left, at-swap_right, at-swap_ne, length-swap}
use dev_box.Algorithms.Heap.SiftUp.{eq_cases, le_of}
use dev_box.Algorithms.Heap.Extract.Largest.{Wins, largest-Wins}
use dev_box.Algorithms.Heap.Extract.{largest, sift_down}

-- Of the first `size` items, none whose parent is at `low` or behind it is larger than its parent.
unfoldable pub IsHeapFrom : (low size : ℕ) → List ℤ → Type 0
IsHeapFrom low size heap =
    (i : ℕ) → 0 < i → i < size → low ≤ parent_of i → at heap i ≤ℤ at heap (parent_of i)

-- The same but for the children of `k`, which are not larger than its parent.
unfoldable pub IsHeapAround : (low size k : ℕ) → List ℤ → Type 0
IsHeapAround low size k heap =
    ((i : ℕ)
      → 0 < i
      → i < size
      → low ≤ parent_of i
      → parent_of i ≢ k
      → at heap i ≤ℤ at heap (parent_of i))
    × ((i : ℕ)
        → 0 < k
        → low ≤ parent_of k
        → 0 < i
        → i < size
        → parent_of i ≡ k
        → at heap i ≤ℤ at heap (parent_of k))

-- An exchange with the winner moves the exception down.
module _ (heap : List ℤ) (low size k l : ℕ) (fits : size ≤ length heap) (high : low ≤ k)
    (child : parent_of l ≡ k) (under : k < l) (inside : l < size)
    (wins : (j : ℕ) → 0 < j → j < size → parent_of j ≡ k → at heap j ≤ℤ at heap l)
    (le : at heap k ≤ℤ at heap l) (rule : IsHeapAround low size k heap) where
  sunk : List ℤ
  sunk = swap k l heap

  sunk_upper : at sunk k ≡ at heap l
  unfolding sunk
  sunk_upper =
      at-swap_left heap k l (omega (arith, fits, under, inside)) (omega (arith, fits, inside))
        (omega (arith, under))

  sunk_lower : at sunk l ≡ at heap k
  unfolding sunk
  sunk_lower =
      at-swap_right heap k l (omega (arith, fits, under, inside)) (omega (arith, fits, inside))
        (omega (arith, under))

  sunk_other : (i : ℕ) → i ≢ k → i ≢ l → at sunk i ≡ at heap i
  unfolding sunk
  sunk_other i h h' = at-swap_ne heap k l i (λ e. h (sym e)) (λ e. h' (sym e))

  sunk_edge :
      (i : ℕ)
      → 0 < i
      → i < size
      → low ≤ parent_of i
      → parent_of i ≢ l
      → at sunk i ≤ℤ at sunk (parent_of i)
  unfolding IsHeapAround
  sunk_edge i hi hs hlow hp = elim (eq_cases i l) [
    | inl e ↦
        subst (λ j. at sunk j ≤ℤ at sunk (parent_of j)) (sym e)
          (le_of _ _ _ _ sunk_lower (ap (at sunk) child ∙ sunk_upper) le)
    | inr nl ↦ elim (eq_cases i k) [
      | inl e ↦
          let positive : 0 < k = subst (λ j. 0 < j) e hi in
          let above : low ≤ parent_of k = subst (λ j. low ≤ parent_of j) e hlow in
          subst (λ j. at sunk j ≤ℤ at sunk (parent_of j)) (sym e)
            (le_of _ _ _ _ sunk_upper
              (sunk_other (parent_of k) (omega (arith, positive)) (omega (arith, under)))
              (rule.1 l positive above (omega (arith, under)) inside child))
      | inr nk ↦ elim (eq_cases (parent_of i) k) [
        | inl e ↦ le_of _ _ _ _ (sunk_other i nk nl) (ap (at sunk) e ∙ sunk_upper) (wins i hi hs e)
        | inr ne ↦
            le_of _ _ _ _ (sunk_other i nk nl) (sunk_other (parent_of i) ne hp)
              (rule.0 i hi hs hlow ne)
      ]
    ]
  ]

  sunk_under :
      (i : ℕ)
      → 0 < l
      → low ≤ parent_of l
      → 0 < i
      → i < size
      → parent_of i ≡ l
      → at sunk i ≤ℤ at sunk (parent_of l)
  unfolding IsHeapAround
  sunk_under i _ _ hi hs e =
      le_of _ _ _ _ (sunk_other i (omega (arith, e, under, hi)) (omega (arith, e, hi)))
        (ap (at sunk) child ∙ sunk_upper)
        (subst (λ j. at heap i ≤ℤ at heap j) e
          (rule.0 i hi hs (omega (arith, e, high, under)) (omega (arith, e, under))))

  sunk-IsHeapAround : IsHeapAround low size l (swap k l heap)
  unfolding IsHeapAround sunk
  sunk-IsHeapAround = (sunk_edge, sunk_under)

sift_down-zero : (size k : ℕ) (heap : List ℤ) → sift_down zero size k heap ≡ heap
unfolding sift_down
sift_down-zero size k heap = refl

module _ (fuel size k : ℕ) (heap : List ℤ) where
  sift_down-stays : largest heap size k ≡ k → sift_down (suc fuel) size k heap ≡ heap
  unfolding sift_down
  sift_down-stays e =
      let test : (largest heap size k == k) ≡ true = ground (arith, e) in rw test refl

  sift_down-moves :
      largest heap size k ≢ k
      → sift_down (suc fuel) size k heap
        ≡ sift_down fuel size (largest heap size k) (swap k (largest heap size k) heap)
  unfolding sift_down
  sift_down-moves ne =
      let test : (largest heap size k == k) ≡ false = ground (arith, ne) in rw test refl

-- A relation between the arrays before and behind that holds of one exchange holds of the loop.
pub sift_down-keeps :
    (R : List ℤ → List ℤ → Type 0) (size : ℕ)
    → ((heap : List ℤ) → R heap heap)
    → ((heap : List ℤ) (k l : ℕ) (end : List ℤ)
        → size ≤ length heap
        → k < l
        → l < size
        → R (swap k l heap) end
        → R heap end)
    → (fuel k : ℕ) (heap : List ℤ) → size ≤ length heap
    → R heap (sift_down fuel size k heap)
unfolding sift_down Wins
sift_down-keeps R size same exchange zero k heap fits = same heap
sift_down-keeps R size same exchange (suc fuel) k heap fits =
    let l = largest heap size k in
    elim (largest-Wins heap size k).0 [
      | inl e ↦ subst (R heap) (sym (sift_down-stays fuel size k heap e)) (same heap)
      | inr (_, under, inside) ↦
          subst (R heap) (sym (sift_down-moves fuel size k heap (omega (arith, under)))) (
            exchange heap k l _ fits under inside (
              sift_down-keeps R size same exchange fuel l (swap k l heap)
                (omega (arith, fits, length-swap heap k l))))
    ]

-- The loop restores the order, from any item on.
pub sift_down-IsHeapFrom :
    (fuel low size k : ℕ) (heap : List ℤ)
    → size ≤ length heap
    → low ≤ k
    → size ≤ k + fuel
    → IsHeapAround low size k heap
    → IsHeapFrom low size (sift_down fuel size k heap)
unfolding IsHeapFrom IsHeapAround Wins
sift_down-IsHeapFrom zero low size k heap fits high enough rule =
    subst (IsHeapFrom low size) (sym (sift_down-zero size k heap))
      (λ i hi hs hlow. rule.0 i hi hs hlow (omega (arith, hs, enough, hi)))
sift_down-IsHeapFrom (suc fuel) low size k heap fits high enough rule =
    let l = largest heap size k in
    let (place, le, wins) = largest-Wins heap size k in
    elim place [
      | inl e ↦
          subst (IsHeapFrom low size) (sym (sift_down-stays fuel size k heap e)) (λ i hi hs hlow.
            elim (eq_cases (parent_of i) k) [
              | inl p ↦ subst (λ j. at heap i ≤ℤ at heap j) (e ∙ sym p) (wins i hi hs p)
              | inr np ↦ rule.0 i hi hs hlow np
            ])
      | inr (child, under, inside) ↦
          subst (IsHeapFrom low size)
            (sym (sift_down-moves fuel size k heap (omega (arith, under))))
            (sift_down-IsHeapFrom fuel low size l (swap k l heap)
              (omega (arith, fits, length-swap heap k l)) (omega (arith, high, under))
              (omega (arith, enough, under))
              (sunk-IsHeapAround heap low size k l fits high child under inside wins le rule))
    ]
