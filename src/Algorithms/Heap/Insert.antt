-- ===== src/Algorithms/Heap/Insert.antt =====
-- The insertion run builds a max-heap of the values.
use dev_box.Prelude.{
  ℕ, zero, suc, ◌+◌, ◌<◌, ◌≤◌, ◌≡◌, refl, List, [], ◌∷◌, ◌++◌, length, arith, ap, length-append,
  last?, some, last?-concat, Option,
}
use mathlib.Core.Option
use dev_box.Prelude.Int.{ℤ, ◌≤ℤ◌}
use dev_box.Algorithms.Steps.{Step, done, assert_size-done, max_elements}
use dev_box.Algorithms.Heap.{
  HeapState, at, parent_of, sift_up, insert_values, heap_insert_steps, heap_start, heap_end,
}
use dev_box.Algorithms.Heap.Count.{count, count-append}
use dev_box.Algorithms.Heap.SiftUp.{IsHeap, IsHeapBut, Raises, le_trans, le_of, sift_up-Raises}

at-append : (heap : List ℤ) (v : ℤ) (i : ℕ) → i < length heap → at (heap ++ v ∷ []) i ≡ at heap i
at-append [] v i h = elim h [ ]
at-append (x ∷ heap) v zero h = refl
at-append (x ∷ heap) v (suc i) h = at-append heap v i (omega arith)

-- A value at the end is the one exception.
pushed-IsHeapBut : (heap : List ℤ) (v : ℤ) → IsHeap heap → IsHeapBut (length heap) (heap ++ v ∷ [])
unfolding IsHeapBut
pushed-IsHeapBut heap v rule =
    let long = length-append heap (v ∷ []) in
    (
      λ i hi hl ne.
          let inside : i < length heap = omega (arith, hl, ne, long) in
          le_of _ _ _ _ (at-append heap v i inside)
            (at-append heap v (parent_of i) (omega (arith, inside))) (rule i hi inside),
      λ i hk hi hl e. absurd (omega (arith, hi, hl, e, long)),
    )

insert_values-Raises :
    (vs heap : List ℤ)
    → IsHeap heap
    → IsHeap (insert_values heap vs).1
      × ((x : ℤ) → count x (insert_values heap vs).1 ≡ count x heap + count x vs)
unfolding insert_values Raises
insert_values-Raises [] heap rule = (rule, λ x. omega arith)
insert_values-Raises (v ∷ vs) heap rule =
    let pushed = heap ++ v ∷ [] in
    let (heaps, long, counts) =
      sift_up-Raises (length heap) (length heap) pushed (omega arith)
        (omega (arith, length-append heap (v ∷ []))) (pushed-IsHeapBut heap v rule) in
    let (heaps', counts') =
      insert_values-Raises vs (sift_up (length heap) (length heap) pushed).1 heaps in
    (heaps', λ x. omega (arith, counts' x, counts x, count-append x heap (v ∷ [])))

-- Every item is at most the root.
root-largest :
    (fuel : ℕ) (heap : List ℤ) (i : ℕ)
    → i ≤ fuel
    → IsHeap heap
    → i < length heap
    → at heap i ≤ℤ at heap 0
root-largest zero heap zero h rule inside = omega arith
root-largest zero heap (suc i) h rule inside = absurd (omega arith)
root-largest (suc fuel) heap zero h rule inside = omega arith
root-largest (suc fuel) heap (suc i) h rule inside =
    le_trans (at heap (suc i)) (at heap (parent_of (suc i))) (at heap 0)
      (rule (suc i) (omega arith) inside)
      (root-largest fuel heap (parent_of (suc i)) (omega (arith, h)) rule (omega (arith, inside)))

abbrev pub last_heap : List (Step HeapState) → Option (List ℤ)
last_heap steps = Option.map (λ (s : Step HeapState). s.state.heap) (last? steps)

-- The last step of an accepted insertion run shows an array in which no item is larger than its
-- parent and none is larger than the root, and which holds each value as often as it was given.
pub heap_insert_steps_lem :
    (values : List ℤ)
    → length values ≤ max_elements
    → (steps : List (Step HeapState)) × (heap : List ℤ) × (heap_insert_steps values ≡ done steps)
      × (last_heap steps ≡ some heap)
      × IsHeap heap
      × ((i : ℕ) → i < length heap → at heap i ≤ℤ at heap 0)
      × ((x : ℤ) → count x heap ≡ count x values)
unfolding heap_insert_steps
heap_insert_steps_lem values fits =
    let (heaps, counts) = insert_values-Raises values [] (λ i hi hl. absurd (omega arith)) in
    (
      _,
      (insert_values [] values).1,
      assert_size-done values "Heap input" _ fits,
      ap (Option.map (λ (s : Step HeapState). s.state.heap)) (
          last?-concat (heap_start ∷ (insert_values [] values).0)
            (heap_end (insert_values [] values).1)),
      heaps,
      λ i inside. root-largest i (insert_values [] values).1 i (omega arith) heaps inside,
      λ x. omega (arith, counts x),
    )
