-- ===== src/Algorithms/Sorting.antt =====
-- bubbleSortSteps of apps/web/src/modules/learning/algorithms/sorting.ts.
pub mod Bubble
mod Tests
use dev_box.Prelude.{ℕ, zero, suc, ◌+◌, ◌-◌, List, [], ◌∷◌, ◌++◌, if◌then◌else◌, length, map}
use dev_box.Prelude.Int.{ℤ, ltb_ℤ}
use dev_box.Algorithms.Steps.{Piece, lit, num, nat, index, Step}
use dev_box.Algorithms.Heap.{at, swap}

abbrev pub sort_step : List ℤ → List Piece → List ℕ → Step (List ℤ)
sort_step arr explanation highlighted = record {
  state = arr;
  explanation = explanation;
  highlighted = map index highlighted;
}

comparing_step : List ℤ → ℕ → Step (List ℤ)
comparing_step arr j =
    sort_step arr
      (lit "Comparing arr["
        ∷ nat j
        ∷ lit "] ("
        ∷ num (at arr j)
        ∷ lit ") and arr["
        ∷ nat (j + 1)
        ∷ lit "] ("
        ∷ num (at arr (j + 1))
        ∷ lit ")"
        ∷ [])
      (j ∷ (j + 1) ∷ [])

exchanged_step : List ℤ → ℕ → Step (List ℤ)
exchanged_step arr j =
    sort_step arr (lit "Swapped: arr[" ∷ nat j ∷ lit "] > arr[" ∷ nat (j + 1) ∷ lit "]" ∷ [])
      (j ∷ (j + 1) ∷ [])

-- The steps of a loop, and the array behind it.
abbrev pub Sorting : Type 0
Sorting = List (Step (List ℤ)) × List ℤ

abbrev pub then_sorting : List (Step (List ℤ)) → Sorting → Sorting
then_sorting before sorting = (before ++ sorting.0, sorting.1)

-- The inner loop from `j` on, with `rounds` rounds left.
unfoldable pub bubble_pass : (rounds j : ℕ) → List ℤ → Sorting
unfolding swap comparing_step exchanged_step
bubble_pass zero j arr = ([], arr)
bubble_pass (suc rounds) j arr =
    let exchanged = swap j (j + 1) arr in
    let changed = bubble_pass rounds (j + 1) exchanged in
    let kept = bubble_pass rounds (j + 1) arr in
    if ltb_ℤ (at arr (j + 1)) (at arr j)
    then then_sorting (comparing_step arr j ∷ exchanged_step exchanged j ∷ []) changed
    else then_sorting (comparing_step arr j ∷ []) kept

-- The outer loop, where the next inner loop has `rounds` rounds: n - i - 1 of them.
unfoldable pub bubble_passes : (rounds : ℕ) → List ℤ → Sorting
unfolding bubble_pass
bubble_passes zero arr = ([], arr)
bubble_passes (suc rounds) arr =
    let (steps, arr') = bubble_pass (suc rounds) 0 arr in
    then_sorting steps (bubble_passes rounds arr')

abbrev pub bubble_start : List ℤ → Step (List ℤ)
bubble_start arr = sort_step arr (lit "Initial unsorted array" ∷ []) []

abbrev pub bubble_end : List ℤ → Step (List ℤ)
bubble_end arr = sort_step arr (lit "Array is sorted!" ∷ []) []

unfoldable pub bubble_sort_steps : List ℤ → List (Step (List ℤ))
unfolding bubble_passes
bubble_sort_steps input =
    let (steps, arr) = bubble_passes (length input - 1) input in
    bubble_start input ∷ steps ++ bubble_end arr ∷ []
