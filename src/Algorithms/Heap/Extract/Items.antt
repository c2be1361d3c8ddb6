-- ===== src/Algorithms/Heap/Extract/Items.antt =====
-- Sifting down keeps the items, and the bounds on them.
use dev_box.Prelude.{
  ℕ, zero, suc, ◌+◌, ◌<◌, ◌≤◌, ◌≡◌, inl, inr, refl, List, [], ◌∷◌, length, ◌==◌, set, take, arith,
  Bool-cases, sym, ap, ◌∙◌, length-take,
}
use dev_box.Prelude.Int.{ℤ, ◌≤ℤ◌}
use dev_box.Algorithms.Heap.{at, swap}
use dev_box.Algorithms.Heap.Count.{
  hit, count, count-swap, at-swap_left, at-swap_right, at-swap_ne, length-swap,
}
use dev_box.Algorithms.Heap.SiftUp.{eq_cases, le_of}
use dev_box.Algorithms.Heap.Extract.{largest, sift_down, sift_steps}
use dev_box.Algorithms.Heap.Extract.SiftDown.{sift_down-keeps}

-- The narrated loop moves the items as the silent one does.
pub sift_steps-sift_down :
    (fuel size i : ℕ) (extracted heap : List ℤ)
    → (sift_steps fuel size i extracted heap).1 ≡ sift_down fuel size i heap
unfolding sift_steps sift_down
sift_steps-sift_down zero size i extracted heap = refl
sift_steps-sift_down (suc fuel) size i extracted heap =
    elim (Bool-cases (largest heap size i == i)) [
      | inl h ↦ rw h refl
      | inr h ↦ rw h (
          sift_steps-sift_down fuel size (largest heap size i) extracted
            (swap i (largest heap size i) heap))
    ]

pub at-take : (n : ℕ) (heap : List ℤ) (i : ℕ) → i < n → at (take n heap) i ≡ at heap i
at-take zero heap i h = absurd (omega arith)
at-take (suc n) [] i h = refl
at-take (suc n) (x ∷ heap) zero h = refl
at-take (suc n) (x ∷ heap) (suc i) h = at-take n heap i (omega arith)

pub take-set :
    (n : ℕ) (heap : List ℤ) (i : ℕ) (v : ℤ) → take n (set heap i v) ≡ set (take n heap) i v
take-set zero heap i v = refl
take-set (suc n) [] i v = refl
take-set (suc n) (x ∷ heap) zero v = refl
take-set (suc n) (x ∷ heap) (suc i) v = ap (λ t. x ∷ t) (take-set n heap i v)

take-swap :
    (n : ℕ) (heap : List ℤ) (k l : ℕ)
    → k < n
    → l < n
    → take n (swap k l heap) ≡ swap k l (take n heap)
unfolding swap
take-swap n heap k l hk hl =
    rw
      (
        take-set n (set heap k (at heap l)) l (at heap k),
        take-set n heap k (at heap l),
        at-take n heap k hk,
        at-take n heap l hl,
      )
      refl

pub count-take-suc :
    (x : ℤ) (n : ℕ) (heap : List ℤ)
    → n < length heap
    → count x (take (suc n) heap) ≡ count x (take n heap) + hit x (at heap n)
count-take-suc x n [] h = elim h [ ]
count-take-suc x zero (y ∷ heap) h = omega arith
count-take-suc x (suc n) (y ∷ heap) h = omega (arith, count-take-suc x n heap (omega arith))

-- Nothing in the heap is larger than `e`.
abbrev pub Under : (size : ℕ) → List ℤ → ℤ → Type 0
Under size heap e = (i : ℕ) → i < size → at heap i ≤ℤ e

-- The same items, and the same bounds on them.
abbrev pub Keeps : ℕ → List ℤ → List ℤ → Type 0
Keeps size before behind =
    (length behind ≡ length before)
    × ((x : ℤ) → count x (take size behind) ≡ count x (take size before))
    × ((e : ℤ) → Under size before e → Under size behind e)

swap-Under :
    (size : ℕ) (heap : List ℤ) (k l : ℕ) (e : ℤ)
    → size ≤ length heap
    → k < l
    → l < size
    → Under size heap e
    → Under size (swap k l heap) e
swap-Under size heap k l e fits under inside bound i hi = elim (eq_cases i k) [
  | inl same ↦
      le_of _ _ e e
        (ap (at (swap k l heap)) same
          ∙ at-swap_left heap k l (omega (arith, fits, under, inside)) (omega (arith, fits, inside))
              (omega (arith, under)))
        refl (bound l inside)
  | inr nk ↦ elim (eq_cases i l) [
    | inl same ↦
        le_of _ _ e e
          (ap (at (swap k l heap)) same
            ∙ at-swap_right heap k l (omega (arith, fits, under, inside))
                (omega (arith, fits, inside)) (omega (arith, under)))
          refl (bound k (omega (arith, under, inside)))
    | inr nl ↦
        le_of _ _ e e (at-swap_ne heap k l i (λ p. nk (sym p)) (λ p. nl (sym p))) refl (bound i hi)
  ]
]

pub sift_down-Keeps :
    (size fuel k : ℕ) (heap : List ℤ)
    → size ≤ length heap
    → Keeps size heap (sift_down fuel size k heap)
sift_down-Keeps size fuel k heap fits =
    sift_down-keeps (Keeps size) size (λ h. (refl, λ x. refl, λ e bound. bound))
      (λ h k l end fits' under inside rest. (
        rest.0 ∙ length-swap h k l,
        λ x.
            rest.1 x
            ∙ ap (count x) (take-swap size h k l (omega (arith, under, inside)) inside)
            ∙ count-swap (take size h) k l (omega (arith, under, inside, fits', length-take size h))
                (omega (arith, inside, fits', length-take size h)) (omega (arith, under)) x,
        λ e bound. rest.2 e (swap-Under size h k l e fits' under inside bound),
      ))
      fuel k heap fits
