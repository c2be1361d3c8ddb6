-- ===== src/Algorithms/Sorting/Tests.antt =====
-- Runs of the sorting visualizers, and the theorem about them at a concrete input.
use dev_box.Prelude.{ℕ, ◌≡◌, ◌<◌, refl, List, [], ◌∷◌, some, length, last?}
use mathlib.Core.Option
use dev_box.Prelude.Int.{ℤ, pos, negsuc, ◌≤ℤ◌}
use dev_box.Algorithms.Steps.{Step}
use dev_box.Algorithms.Heap.{at}
use dev_box.Algorithms.Heap.Count.{count}
use dev_box.Algorithms.Sorting.{bubble_passes, bubble_sort_steps}
use dev_box.Algorithms.Sorting.Bubble.{bubble_sort_steps_lem}

abbrev unsorted : List ℤ
unsorted = pos 5 ∷ negsuc 2 ∷ pos 8 ∷ pos 5 ∷ []

sorted : (bubble_passes 3 unsorted).1 ≡ negsuc 2 ∷ pos 5 ∷ pos 5 ∷ pos 8 ∷ []
unfolding bubble_passes
sorted = refl

bubble_sort_steps_lem_example :
    (arr : List ℤ) × (Option.map
        (λ (s : Step (List ℤ)). s.state)
        (last? (bubble_sort_steps unsorted))
      ≡ some arr)
    × ((p q : ℕ) → p < q → q < length arr → at arr p ≤ℤ at arr q)
    × ((x : ℤ) → count x arr ≡ count x unsorted)
bubble_sort_steps_lem_example = bubble_sort_steps_lem unsorted
