-- ===== src/Algorithms/Heap/SiftUp.antt =====
-- Sifting an item up restores the heap property and keeps the items.
use dev_box.Prelude.{
  ℕ, zero, suc, ◌<◌, ◌≤◌, ◌≡◌, ◌≢◌, ◌⊎◌, inl, inr, refl, List, length, ◌==◌, arith, Bool-cases,
  true, false, sym, ap, ◌∙◌,
}
use mathlib.Core.Path.{subst}
use dev_box.Prelude.Int.{ℤ, leb_ℤ, ◌≤ℤ◌}
use dev_box.Algorithms.Heap.{at, swap, parent_of, sift_up}
use dev_box.Algorithms.Heap.Count.{
  count, count-swap, at-swap_left, at-swap_right, at-swap_ne, length-swap,
}

-- No item is larger than its parent.
abbrev pub IsHeap : List ℤ → Type 0
IsHeap heap = (i : ℕ) → 0 < i → i < length heap → at heap i ≤ℤ at heap (parent_of i)

-- The same but for the item at `k`, whose children are not larger than its parent.
unfoldable pub IsHeapBut : ℕ → List ℤ → Type 0
IsHeapBut k heap =
    ((i : ℕ) → 0 < i → i < length heap → i ≢ k → at heap i ≤ℤ at heap (parent_of i))
    × ((i : ℕ)
        → 0 < k
        → 0 < i
        → i < length heap
        → parent_of i ≡ k
        → at heap i ≤ℤ at heap (parent_of k))

pub eq_cases : (i j : ℕ) → (i ≡ j) ⊎ (i ≢ j)
eq_cases i j = elim (Bool-cases (i == j)) [
  | inl h ↦ inl (ground arith)
  | inr h ↦ inr (ground arith)
]

pub leb_ℤ_cases : (a b : ℤ) → ((leb_ℤ a b ≡ true) × (a ≤ℤ b)) ⊎ ((leb_ℤ a b ≡ false) × (b ≤ℤ a))
leb_ℤ_cases a b = elim (Bool-cases (leb_ℤ a b)) [
  | inl h ↦ inl (h, ground arith)
  | inr h ↦ inr (h, ground arith)
]

pub le_trans : (a b c : ℤ) → a ≤ℤ b → b ≤ℤ c → a ≤ℤ c
le_trans a b c h h' = omega arith

-- Both sides of an order replaced by equals.
pub le_of : (a a' b b' : ℤ) → a ≡ a' → b ≡ b' → a' ≤ℤ b' → a ≤ℤ b
le_of a a' b b' e e' h = subst (λ x. x ≤ℤ b) (sym e) (subst (λ y. a' ≤ℤ y) (sym e') h)

-- An exchange of an item with its smaller parent moves the exception up.
module _ (heap : List ℤ) (k : ℕ) (inside : k < length heap) (below : 0 < k)
    (smaller : at heap (parent_of k) ≤ℤ at heap k) (rule : IsHeapBut k heap) where
  raised : List ℤ
  raised = swap (parent_of k) k heap

  top : at raised (parent_of k) ≡ at heap k
  unfolding raised
  top =
      at-swap_left heap (parent_of k) k (omega (arith, inside, below)) inside (omega (arith, below))

  bottom : at raised k ≡ at heap (parent_of k)
  unfolding raised
  bottom =
      at-swap_right heap (parent_of k) k (omega (arith, inside, below)) inside
        (omega (arith, below))

  other : (i : ℕ) → i ≢ k → i ≢ parent_of k → at raised i ≡ at heap i
  unfolding raised
  other i h h' = at-swap_ne heap (parent_of k) k i (λ e. h' (sym e)) (λ e. h (sym e))

  -- Under the items that moved.
  edge :
      (i : ℕ) → 0 < i → i < length heap → i ≢ parent_of k → at raised i ≤ℤ at raised (parent_of i)
  unfolding IsHeapBut
  edge i hi hl hp = elim (eq_cases i k) [
    | inl e ↦
        subst (λ j. at raised j ≤ℤ at raised (parent_of j)) (sym e)
          (le_of _ _ _ _ bottom top smaller)
    | inr ne ↦ elim (eq_cases (parent_of i) (parent_of k)) [
      | inl e ↦ le_of _ (at heap i) _ (at heap k) (other i ne hp) (ap (at raised) e ∙ top) (
          le_trans (at heap i) (at heap (parent_of k)) (at heap k)
            (subst (λ j. at heap i ≤ℤ at heap j) e (rule.0 i hi hl ne)) smaller)
      | inr ne' ↦ elim (eq_cases (parent_of i) k) [
        | inl e ↦ le_of _ _ _ _ (other i ne hp) (ap (at raised) e ∙ bottom) (rule.1 i below hi hl e)
        | inr ne'' ↦
            le_of _ _ _ _ (other i ne hp) (other (parent_of i) ne'' ne') (rule.0 i hi hl ne)
      ]
    ]
  ]

  -- Around the parent's parent.
  over :
      (i : ℕ)
      → 0 < parent_of k
      → 0 < i
      → i < length heap
      → parent_of i ≡ parent_of k
      → at raised i ≤ℤ at raised (parent_of (parent_of k))
  unfolding IsHeapBut
  over i hp hi hl e =
      let above = other (parent_of (parent_of k)) (omega (arith, hp)) (omega (arith, hp)) in
      let up = rule.0 (parent_of k) hp (omega (arith, inside)) (omega (arith, below)) in
      elim (eq_cases i k) [
        | inl same ↦ le_of _ _ _ _ (ap (at raised) same ∙ bottom) above up
        | inr ne ↦ le_of _ _ _ _ (other i ne (omega (arith, hi, e))) above (
            le_trans (at heap i) (at heap (parent_of k)) (at heap (parent_of (parent_of k)))
              (subst (λ j. at heap i ≤ℤ at heap j) e (rule.0 i hi hl ne)) up)
      ]

  raised-IsHeapBut : IsHeapBut (parent_of k) (swap (parent_of k) k heap)
  unfolding IsHeapBut raised
  raised-IsHeapBut = rw (length-swap heap (parent_of k) k) (edge, over)

-- What `behind` makes of `before`: a max-heap of the same values.
unfoldable pub Raises : List ℤ → List ℤ → Type 0
Raises before behind =
    IsHeap behind × (length behind ≡ length before) × ((x : ℤ) → count x behind ≡ count x before)

-- No exception is left at the root, or at an item that is not larger than its parent.
settled :
    (heap : List ℤ) (k : ℕ)
    → IsHeapBut k heap
    → (0 < k → at heap k ≤ℤ at heap (parent_of k))
    → IsHeap heap
unfolding IsHeapBut
settled heap k rule last i hi hl = elim (eq_cases i k) [
  | inl e ↦ subst (λ j. at heap j ≤ℤ at heap (parent_of j)) (sym e) (last (subst (λ j. 0 < j) e hi))
  | inr ne ↦ rule.0 i hi hl ne
]

pub sift_up-Raises :
    (fuel k : ℕ) (heap : List ℤ)
    → k ≤ fuel
    → k < length heap
    → IsHeapBut k heap
    → Raises heap (sift_up fuel k heap).1
unfolding sift_up Raises
sift_up-Raises zero k heap enough inside rule =
    (settled heap k rule (λ h. absurd (omega arith)), refl, λ x. refl)
sift_up-Raises (suc fuel) k heap enough inside rule = elim (Bool-cases (k == 0)) [
  | inl root ↦ rw root ((settled heap k rule (λ h. absurd (ground arith)), refl, λ x. refl))
  | inr below ↦ elim (leb_ℤ_cases (at heap k) (at heap (parent_of k))) [
    | inl (yes_, le) ↦ rw (below, yes_) ((settled heap k rule (λ h. le), refl, λ x. refl))
    | inr (no_, ge) ↦
        let positive : 0 < k = ground arith in
        let moved = swap (parent_of k) k heap in
        let same = length-swap heap (parent_of k) k in
        let (heaps, long, counts) =
          sift_up-Raises fuel (parent_of k) moved (omega (arith, enough, positive))
            (omega (arith, same, inside)) (raised-IsHeapBut heap k inside positive ge rule) in
        rw (below, no_)
          ((
            heaps,
            long ∙ same,
            λ x.
                counts x
                ∙ count-swap heap (parent_of k) k (omega (arith, inside, positive)) inside
                    (omega (arith, positive)) x,
          ))
  ]
]
