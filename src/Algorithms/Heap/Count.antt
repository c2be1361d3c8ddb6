-- ===== src/Algorithms/Heap/Count.antt =====
-- How often a value stands in a list, and that an exchange leaves this as it is.
use dev_box.Prelude.{
  ℕ, zero, suc, ◌+◌, ◌<◌, ◌≡◌, ◌≢◌, List, [], ◌∷◌, ◌++◌, if◌then◌else◌, length, set, arith,
  get_or-set_self, get_or-set_ne, length-set, sym, ap, ◌∙◌,
}
use dev_box.Prelude.Int.{ℤ, pos, eqb_ℤ}
use dev_box.Algorithms.Heap.{at, swap}

abbrev pub hit : ℤ → ℤ → ℕ
hit x y = if eqb_ℤ x y then 1 else 0

abbrev pub count : ℤ → List ℤ → ℕ
count x [] = 0
count x (y ∷ ys) = hit x y + count x ys

pub count-append : (x : ℤ) (xs ys : List ℤ) → count x (xs ++ ys) ≡ count x xs + count x ys
count-append x [] ys = omega arith
count-append x (y ∷ xs) ys = omega (arith, count-append x xs ys)

pub count-set :
    (x : ℤ) (xs : List ℤ) (i : ℕ) (v : ℤ)
    → i < length xs
    → count x (set xs i v) + hit x (at xs i) ≡ count x xs + hit x v
count-set x [] i v h = elim h [ ]
count-set x (y ∷ xs) zero v h = omega arith
count-set x (y ∷ xs) (suc i) v h = omega (arith, count-set x xs i v (omega arith))

module _ (heap : List ℤ) (i j : ℕ) (hi : i < length heap) (hj : j < length heap) (ne : i ≢ j) where
  pub count-swap : (x : ℤ) → count x (swap i j heap) ≡ count x heap
  unfolding swap
  count-swap x =
      let first = count-set x heap i (at heap j) hi in
      let inner = length-set heap i (at heap j) in
      let second = count-set x (set heap i (at heap j)) j (at heap i) (omega (arith, inner, hj)) in
      let same = get_or-set_ne heap i j (at heap j) (pos 0) ne in
      omega (arith, first, ap (hit x) same, second)

  pub at-swap_left : at (swap i j heap) i ≡ at heap j
  unfolding swap
  at-swap_left =
      get_or-set_ne (set heap i (at heap j)) j i (at heap i) (pos 0) (λ e. ne (sym e))
      ∙ get_or-set_self heap i (at heap j) (pos 0) hi

  pub at-swap_right : at (swap i j heap) j ≡ at heap i
  unfolding swap
  at-swap_right =
      let inner = length-set heap i (at heap j) in
      get_or-set_self (set heap i (at heap j)) j (at heap i) (pos 0) (omega (arith, inner, hj))

pub at-swap_ne : (heap : List ℤ) (i j k : ℕ) → i ≢ k → j ≢ k → at (swap i j heap) k ≡ at heap k
unfolding swap
at-swap_ne heap i j k hi hj =
    get_or-set_ne (set heap i (at heap j)) j k (at heap i) (pos 0) hj
    ∙ get_or-set_ne heap i k (at heap j) (pos 0) hi

pub length-swap : (heap : List ℤ) (i j : ℕ) → length (swap i j heap) ≡ length heap
unfolding swap
length-swap heap i j =
    length-set (set heap i (at heap j)) j (at heap i) ∙ length-set heap i (at heap j)
