-- ===== src/Algorithms/Heap/Extract.antt =====
-- heapExtractSteps of apps/web/src/modules/learning/algorithms/structures.ts.
pub mod Largest
pub mod SiftDown
pub mod Items
pub mod Order
pub mod Runs
use dev_box.Prelude.{
  ℕ, zero, suc, ◌+◌, ◌-◌, ◌*◌, ◌/◌, Bool, ◌&&◌, List, [], ◌∷◌, ◌++◌, if◌then◌else◌, length, ◌==◌,
  ltb, set, take, map,
}
use dev_box.Prelude.Int.{ℤ, ltb_ℤ}
use dev_box.Algorithms.Steps.{Piece, lit, num, nat, nums, index, Step, Run, assert_size}
use dev_box.Algorithms.Heap.{HeapState, at, swap, root_marks}

-- The child `j`, where it is in the heap and larger than the item at `i`.
abbrev pub larger : List ℤ → (size i j : ℕ) → ℕ
larger heap size i j = if ltb j size && ltb_ℤ (at heap i) (at heap j) then j else i

abbrev pub largest : List ℤ → (size i : ℕ) → ℕ
largest heap size i = larger heap size (larger heap size i (2 * i + 1)) (2 * i + 2)

-- siftDown. The index grows and stays below `size`, so that much fuel is enough.
unfoldable pub sift_down : (fuel size i : ℕ) → List ℤ → List ℤ
unfolding swap
sift_down zero size i heap = heap
sift_down (suc fuel) size i heap =
    let l = largest heap size i in
    let rest = sift_down fuel size l (swap i l heap) in if l == i then heap else rest

-- The items before `n`, from the last, sifted down.
unfoldable pub build : (n : ℕ) → List ℤ → List ℤ
unfolding sift_down
build zero heap = heap
build (suc n) heap = build n (sift_down (length heap) (length heap) n heap)

-- heap.slice(0, size), and the values that were taken out.
abbrev pub extract_step : List ℤ → ℕ → List ℕ → List ℤ → List Piece → List ℕ → Step HeapState
extract_step heap size comparing extracted explanation highlighted = record {
  state = record { heap = take size heap; comparing = comparing; extracted = extracted };
  explanation = explanation;
  highlighted = map index highlighted;
}

holds_step : List ℤ → ℕ → ℕ → List ℤ → Step HeapState
holds_step heap size i extracted =
    extract_step heap size (i ∷ []) extracted
      (num (at heap i)
        ∷ lit " is larger than both children, so the heap property holds again."
        ∷ [])
      (i ∷ [])

-- filter((i) => i < size)
abbrev pub below : ℕ → List ℕ → List ℕ
below size [] = []
below size (i ∷ is) = let more = below size is in if ltb i size then i ∷ more else more

raise_step : List ℤ → ℕ → ℕ → List ℤ → Step HeapState
raise_step heap size i extracted =
    let l = largest heap size i in
    let comparing = below size (i ∷ (2 * i + 1) ∷ (2 * i + 2) ∷ []) in
    extract_step heap size comparing extracted
      (num (at heap l)
        ∷ lit " at index "
        ∷ nat l
        ∷ lit " is the largest of the three; swap it up."
        ∷ [])
      comparing

-- The narrated `for (;;)` loop.
unfoldable pub sift_steps : (fuel size i : ℕ) → List ℤ → List ℤ → List (Step HeapState) × List ℤ
unfolding swap holds_step raise_step
sift_steps zero size i extracted heap = ([], heap)
sift_steps (suc fuel) size i extracted heap =
    let l = largest heap size i in
    let (steps, rest) = sift_steps fuel size l extracted (swap i l heap) in
    if l == i
    then (holds_step heap size i extracted ∷ [], heap)
    else (raise_step heap size i extracted ∷ steps, rest)

root_step : List ℤ → ℕ → List ℤ → Step HeapState
root_step heap size extracted =
    extract_step heap size (0 ∷ []) extracted
      (lit "The root " ∷ num (at heap 0) ∷ lit " is the largest remaining value; extract it." ∷ [])
      (0 ∷ [])

moved_step : List ℤ → ℕ → List ℤ → Step HeapState
moved_step heap size extracted =
    extract_step heap size (0 ∷ []) extracted
      (lit "Moved the last element " ∷ num (at heap 0) ∷ lit " to the root. Now sift it down." ∷ [])
      (0 ∷ [])

-- What follows the extraction of a root: nothing when the heap is empty.
unfoldable pub replace_root : (size : ℕ) → List ℤ → List ℤ → List (Step HeapState) × List ℤ
unfolding sift_steps moved_step
replace_root size extracted heap =
    let (steps, rest) = sift_steps size size 0 extracted heap in
    if size == 0 then ([], heap) else (moved_step heap size extracted ∷ steps, rest)

-- The `while` loop: its steps, and the values in the order of their extraction.
unfoldable pub extract_all : (size : ℕ) → List ℤ → List ℤ → List (Step HeapState) × List ℤ
unfolding replace_root root_step
extract_all zero heap extracted = ([], extracted)
extract_all (suc size) heap extracted =
    let extracted' = extracted ++ at heap 0 ∷ [] in
    let (steps, heap') = replace_root size extracted' (set heap 0 (at heap size)) in
    let (more, result) = extract_all size heap' extracted' in
    (root_step heap (suc size) extracted ∷ steps ++ more, result)

abbrev pub extract_start : List ℤ → Step HeapState
extract_start heap = record {
  state = record { heap = heap; comparing = []; extracted = [] };
  explanation = lit "Starting from a valid max-heap." ∷ [];
  highlighted = map index (root_marks heap);
}

abbrev pub extract_end : List ℤ → Step HeapState
extract_end extracted = record {
  state = record { heap = []; comparing = []; extracted = extracted };
  explanation = lit "Heap empty. Extracted in descending order: " ∷ nums extracted ∷ lit "." ∷ [];
  highlighted = [];
}

unfoldable pub heap_extract_steps : List ℤ → Run (List (Step HeapState))
unfolding assert_size build extract_all
heap_extract_steps values =
    let heap = build (length values / 2) values in
    let (steps, extracted) = extract_all (length heap) heap [] in
    assert_size values "Heap input" (extract_start heap ∷ steps ++ extract_end extracted ∷ [])
