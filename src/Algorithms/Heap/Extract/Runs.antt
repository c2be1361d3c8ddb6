-- ===== src/Algorithms/Heap/Extract/Runs.antt =====
-- What an extraction run takes out of the heap, in which order.
use dev_box.Prelude.{
  ℕ, zero, suc, ◌+◌, ◌/◌, ◌≤◌, ◌≡◌, refl, List, [], ◌∷◌, ◌++◌, length, ◌==◌, set, take, arith,
  false, sym, ap, length-set, All, All-append, All-map, last?, last?-concat, Option, some,
}
use mathlib.Core.Option
use mathlib.Core.Path.{subst}
use dev_box.Prelude.Int.{ℤ}
use dev_box.Algorithms.Steps.{Step, done, assert_size-done, max_elements}
use dev_box.Algorithms.Heap.{HeapState, at}
use dev_box.Algorithms.Heap.Count.{count, count-append}
use dev_box.Algorithms.Heap.Extract.{
  sift_down, build, replace_root, extract_all, heap_extract_steps, extract_start, extract_end,
}
use dev_box.Algorithms.Heap.Extract.SiftDown.{IsHeapFrom, sift_down-IsHeapFrom}
use dev_box.Algorithms.Heap.Extract.Items.{Under, sift_down-Keeps, sift_steps-sift_down}
use dev_box.Algorithms.Heap.Extract.Order.{
  build-IsHeapFrom, root-Under, IsDescending, IsDescending-append, moved-IsHeapAround, moved-Under,
  moved-count,
}

replace_root-sift_down :
    (size : ℕ) (extracted heap : List ℤ)
    → (replace_root size extracted heap).1 ≡ sift_down size size 0 heap
unfolding replace_root sift_down
replace_root-sift_down zero extracted heap = refl
replace_root-sift_down (suc size) extracted heap =
    let test : (suc size == 0) ≡ false = ground arith in
    rw test (sift_steps-sift_down (suc size) (suc size) 0 extracted heap)

extract_all_lem :
    (size : ℕ) (heap extracted : List ℤ)
    → size ≤ length heap
    → IsHeapFrom 0 size heap
    → IsDescending extracted
    → All (Under size heap) extracted
    → IsDescending (extract_all size heap extracted).1
      × ((x : ℤ)
          → count x (extract_all size heap extracted).1
            ≡ count x (take size heap) + count x extracted)
unfolding extract_all
extract_all_lem zero heap extracted fits rule sorted bounds = (sorted, λ x. omega arith)
extract_all_lem (suc n) heap extracted fits rule sorted bounds =
    let extracted' = extracted ++ at heap 0 ∷ [] in
    let moved = set heap 0 (at heap n) in
    let sifted = sift_down n n 0 moved in
    let same = replace_root-sift_down n extracted' moved in
    let room : n ≤ length moved = omega (arith, fits, length-set heap 0 (at heap n)) in
    let (long, counts, keeps) = sift_down-Keeps n n 0 moved room in
    let largest_root : Under (suc n) heap (at heap 0) =
      λ i inside. root-Under i (suc n) heap i (omega arith) rule inside in
    let lower : (e : ℤ) → Under (suc n) heap e → Under n sifted e =
      λ e bound. keeps e (moved-Under n heap fits e bound) in
    let sorted' =
      IsDescending-append extracted (at heap 0) sorted
        (All-map (λ e bound. bound 0 (omega arith)) extracted bounds) in
    let bounds' =
      All-append (Under n sifted) extracted (at heap 0 ∷ []) (All-map lower extracted bounds)
        (lower (at heap 0) largest_root, tt) in
    let (descends, sums) =
      extract_all_lem n sifted extracted' (omega (arith, long, room))
        (sift_down-IsHeapFrom n 0 n 0 moved room (omega arith) (omega arith)
          (moved-IsHeapAround n heap fits rule))
        sorted' bounds' in
    rw same (
      (
        descends,
        λ x. omega (
          arith,
          sums x,
          counts x,
          moved-count n heap fits x,
          count-append x extracted (at heap 0 ∷ []),
        ),
      ))

abbrev pub last_extracted : List (Step HeapState) → Option (List ℤ)
last_extracted steps = Option.map (λ (s : Step HeapState). s.state.extracted) (last? steps)

take_all : (heap : List ℤ) → take (length heap) heap ≡ heap
take_all [] = refl
take_all (x ∷ heap) = ap (λ t. x ∷ t) (take_all heap)

extracted_lem :
    (values : List ℤ)
    → let heap = build (length values / 2) values in
      IsDescending (extract_all (length heap) heap []).1
      × ((x : ℤ) → count x (extract_all (length heap) heap []).1 ≡ count x values)
unfolding IsHeapFrom
extracted_lem values =
    let heap = build (length values / 2) values in
    let (rule, (long, counts, _)) =
      build-IsHeapFrom (length values / 2) values
        (λ i hi hs hlow. absurd (omega (arith, hi, hs, hlow))) in
    let (descends, sums) =
      extract_all_lem (length heap) heap [] (omega arith)
        (subst (λ m. IsHeapFrom 0 m heap) (sym long) rule) tt tt in
    (
      descends,
      λ x.
          let whole = counts x in
          let all = ap (count x) (take_all values) in
          let part = ap (λ m. count x (take m heap)) long in
          omega (arith, sums x, whole, all, part),
    )

-- The last step of an accepted extraction run shows the values in descending order, each as often as
-- it was given.
pub heap_extract_steps_lem :
    (values : List ℤ)
    → length values ≤ max_elements
    → (steps : List (Step HeapState)) × (extracted : List ℤ) × (heap_extract_steps values
        ≡ done steps)
      × (last_extracted steps ≡ some extracted)
      × IsDescending extracted
      × ((x : ℤ) → count x extracted ≡ count x values)
unfolding heap_extract_steps
heap_extract_steps_lem values fits =
    let heap = build (length values / 2) values in
    let (descends, counts) = extracted_lem values in
    (
      _,
      (extract_all (length heap) heap []).1,
      assert_size-done values "Heap input" _ fits,
      ap (Option.map (λ (s : Step HeapState). s.state.extracted)) (
          last?-concat (extract_start heap ∷ (extract_all (length heap) heap []).0)
            (extract_end (extract_all (length heap) heap []).1)),
      descends,
      counts,
    )
