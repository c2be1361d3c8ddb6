-- ===== src/Algorithms/Heap/Extract/Order.antt =====
-- The order in the heap, when it is built and when its root is taken out.
use dev_box.Prelude.{
  ℕ, zero, suc, ◌+◌, ◌<◌, ◌≤◌, ◌≡◌, ◌≢◌, inl, inr, refl, List, [], ◌∷◌, ◌++◌, length, set, take,
  arith, sym, ap, ◌∙◌, length-take, All, All-append, get_or-set_self, get_or-set_ne,
}
use mathlib.Core.Path.{subst}
use dev_box.Prelude.Int.{ℤ, pos, ◌≤ℤ◌}
use dev_box.Algorithms.Heap.{at, parent_of}
use dev_box.Algorithms.Heap.Count.{hit, count, count-set}
use dev_box.Algorithms.Heap.SiftUp.{eq_cases, le_trans, le_of}
use dev_box.Algorithms.Heap.Extract.{sift_down, build}
use dev_box.Algorithms.Heap.Extract.SiftDown.{IsHeapFrom, IsHeapAround, sift_down-IsHeapFrom}
use dev_box.Algorithms.Heap.Extract.Items.{
  Under, Keeps, sift_down-Keeps, at-take, take-set, count-take-suc,
}

-- One more item, which may be smaller than its children.
next-IsHeapAround :
    (n size : ℕ) (heap : List ℤ) → IsHeapFrom (suc n) size heap → IsHeapAround n size n heap
unfolding IsHeapFrom IsHeapAround
next-IsHeapAround n size heap rule = (
  λ i hi hs hlow ne. rule i hi hs (omega (arith, hlow, ne)),
  λ i hn hlow hi hs e. absurd (omega (arith, hn, hlow)),
)

pub build-IsHeapFrom :
    (n : ℕ) (heap : List ℤ)
    → IsHeapFrom n (length heap) heap
    → IsHeapFrom 0 (length heap) (build n heap) × Keeps (length heap) heap (build n heap)
unfolding build
build-IsHeapFrom zero heap rule = (rule, (refl, λ x. refl, λ e bound. bound))
build-IsHeapFrom (suc n) heap rule =
    let sifted = sift_down (length heap) (length heap) n heap in
    let kept = sift_down-Keeps (length heap) (length heap) n heap (omega arith) in
    let sifted_rule =
      sift_down-IsHeapFrom (length heap) n (length heap) n heap (omega arith) (omega arith)
        (omega arith) (next-IsHeapAround n (length heap) heap rule) in
    let long = kept.0 in
    let (heaps, keeps) =
      build-IsHeapFrom n sifted (subst (λ m. IsHeapFrom n m sifted) (sym long) sifted_rule) in
    let keeps' : Keeps (length heap) sifted (build n sifted) =
      subst (λ m. Keeps m sifted (build n sifted)) long keeps in
    (
      subst (λ m. IsHeapFrom 0 m (build n sifted)) long heaps,
      (keeps'.0 ∙ long, λ x. keeps'.1 x ∙ kept.1 x, λ e bound. keeps'.2 e (kept.2 e bound)),
    )

pub root-Under :
    (fuel size : ℕ) (heap : List ℤ) (i : ℕ)
    → i ≤ fuel
    → IsHeapFrom 0 size heap
    → i < size
    → at heap i ≤ℤ at heap 0
unfolding IsHeapFrom
root-Under fuel size heap zero h rule inside = omega arith
root-Under zero size heap (suc i) h rule inside = absurd (omega arith)
root-Under (suc fuel) size heap (suc i) h rule inside =
    le_trans (at heap (suc i)) (at heap (parent_of (suc i))) (at heap 0)
      (rule (suc i) (omega arith) inside (omega arith))
      (root-Under fuel size heap (parent_of (suc i)) (omega (arith, h)) rule
        (omega (arith, inside)))

-- No value is larger than one that stands before it.
abbrev pub IsDescending : List ℤ → Type 0
IsDescending [] = Unit
IsDescending (x ∷ xs) = All (λ y. y ≤ℤ x) xs × IsDescending xs

pub IsDescending-append :
    (xs : List ℤ) (r : ℤ) → IsDescending xs → All (λ e. r ≤ℤ e) xs → IsDescending (xs ++ r ∷ [])
IsDescending-append [] r h bounds = (tt, tt)
IsDescending-append (x ∷ xs) r (hx, h) (bound, bounds) =
    (All-append (λ y. y ≤ℤ x) xs (r ∷ []) hx (bound, tt), IsDescending-append xs r h bounds)

-- The last item moved to the root, where it may be too small.
module _ (n : ℕ) (heap : List ℤ) (fits : suc n ≤ length heap) where
  moved_root : List ℤ
  moved_root = set heap 0 (at heap n)

  moved_at : (i : ℕ) → i ≢ 0 → at moved_root i ≡ at heap i
  unfolding moved_root
  moved_at i ne = get_or-set_ne heap 0 i (at heap n) (pos 0) (λ e. ne (sym e))

  moved_at_root : at moved_root 0 ≡ at heap n
  unfolding moved_root
  moved_at_root = get_or-set_self heap 0 (at heap n) (pos 0) (omega (arith, fits))

  pub moved-IsHeapAround : IsHeapFrom 0 (suc n) heap → IsHeapAround 0 n 0 (set heap 0 (at heap n))
  unfolding IsHeapFrom IsHeapAround moved_root
  moved-IsHeapAround rule = (
    λ i hi hs hlow ne.
        le_of _ _ _ _ (moved_at i (omega (arith, hi))) (moved_at (parent_of i) ne)
          (rule i hi (omega (arith, hs)) hlow),
    λ i h0 hlow hi hs e. absurd (omega (arith, h0)),
  )

  pub moved-Under : (e : ℤ) → Under (suc n) heap e → Under n (set heap 0 (at heap n)) e
  unfolding moved_root
  moved-Under e bound i hi = elim (eq_cases i 0) [
    | inl z ↦ le_of _ _ e e (ap (at moved_root) z ∙ moved_at_root) refl (bound n (omega arith))
    | inr ne ↦ le_of _ _ e e (moved_at i ne) refl (bound i (omega (arith, hi)))
  ]

  pub moved-count :
      (x : ℤ)
      → count x (take n (set heap 0 (at heap n))) + hit x (at heap 0) ≡ count x (take (suc n) heap)
  moved-count x = elim (eq_cases n 0) [
    | inl z ↦ only_root z
    | inr ne ↦
        let short = length-take n heap in
        let set_count = count-set x (take n heap) 0 (at heap n) (omega (arith, ne, fits, short)) in
        let first = at-take n heap 0 (omega (arith, ne)) in
        let last = count-take-suc x n heap (omega (arith, fits)) in
        let same = ap (count x) (take-set n heap 0 (at heap n)) in
        omega (arith, set_count, ap (hit x) first, last, same)
  ]
    where
      only_root :
          n ≡ 0
          → count x (take n (set heap 0 (at heap n))) + hit x (at heap 0)
            ≡ count x (take (suc n) heap)
      only_root z =
          let last = count-take-suc x n heap (omega (arith, fits)) in
          let empty : (k : ℕ) → k ≡ 0 → (h : List ℤ) → count x (take k h) ≡ 0 =
            λ k e h. subst (λ j. count x (take j h) ≡ 0) (sym e) refl in
          omega (
            arith,
            last,
            empty n z heap,
            empty n z (set heap 0 (at heap n)),
            ap (λ k. hit x (at heap k)) z,
          )
