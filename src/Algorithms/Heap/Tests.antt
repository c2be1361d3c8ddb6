-- ===== src/Algorithms/Heap/Tests.antt =====
-- Runs of the heap visualizers, and the theorems about them at concrete inputs.
use dev_box.Prelude.{ℕ, ◌≡◌, ◌<◌, refl, List, [], ◌∷◌, arith, some, length}
use dev_box.Prelude.Int.{ℤ, pos, negsuc, ◌≤ℤ◌}
use dev_box.Algorithms.Steps.{Step, done}
use dev_box.Algorithms.Heap.{HeapState, at, heap_insert_steps}
use dev_box.Algorithms.Heap.Count.{count}
use dev_box.Algorithms.Heap.SiftUp.{IsHeap}
use dev_box.Algorithms.Heap.Insert.{last_heap, heap_insert_steps_lem}
use dev_box.Algorithms.Heap.Extract.{build, extract_all, heap_extract_steps}
use dev_box.Algorithms.Heap.Extract.Order.{IsDescending}
use dev_box.Algorithms.Heap.Extract.Runs.{last_extracted, heap_extract_steps_lem}

abbrev heap_values : List ℤ
heap_values = pos 5 ∷ negsuc 2 ∷ pos 8 ∷ pos 5 ∷ pos 1 ∷ []

heap_insert_steps_lem_example :
    (steps : List (Step HeapState)) × (heap : List ℤ) × (heap_insert_steps heap_values ≡ done steps)
    × (last_heap steps ≡ some heap)
    × IsHeap heap
    × ((i : ℕ) → i < length heap → at heap i ≤ℤ at heap 0)
    × ((x : ℤ) → count x heap ≡ count x heap_values)
heap_insert_steps_lem_example = heap_insert_steps_lem heap_values (omega arith)

built : build 2 heap_values ≡ pos 8 ∷ pos 5 ∷ pos 5 ∷ negsuc 2 ∷ pos 1 ∷ []
unfolding build
built = refl

taken_out :
    (extract_all 5 (build 2 heap_values) []).1 ≡ pos 8 ∷ pos 5 ∷ pos 5 ∷ pos 1 ∷ negsuc 2 ∷ []
unfolding build extract_all
taken_out = refl

heap_extract_steps_lem_example :
    (steps : List (Step HeapState)) × (extracted : List ℤ) × (heap_extract_steps heap_values
      ≡ done steps)
    × (last_extracted steps ≡ some extracted)
    × IsDescending extracted
    × ((x : ℤ) → count x extracted ≡ count x heap_values)
heap_extract_steps_lem_example = heap_extract_steps_lem heap_values (omega arith)
