-- ===== src/Algorithms/Heap.antt =====
-- The max-heap of apps/web/src/modules/learning/algorithms/structures.ts.
pub mod Count
pub mod SiftUp
pub mod Insert
pub mod Extract
mod Tests
use dev_box.Prelude.{
  ℕ, zero, suc, ◌+◌, ◌-◌, ◌/◌, List, [], ◌∷◌, ◌++◌, if◌then◌else◌, length, ◌==◌, get_or, set, map,
}
use dev_box.Prelude.Int.{ℤ, pos, leb_ℤ}
use dev_box.Algorithms.Steps.{Piece, lit, num, nat, Mark, index, Step, Run, assert_size}

pub record HeapState : Type 0 where
  pub heap : List ℤ
  pub comparing : List ℕ
  pub extracted : List ℤ

-- heap[i], which is in bounds wherever it is read.
abbrev pub at : List ℤ → ℕ → ℤ
at heap i = get_or heap i (pos 0)

-- Exchanges two items.
unfoldable pub swap : ℕ → ℕ → List ℤ → List ℤ
swap i j heap = set (set heap i (at heap j)) j (at heap i)

abbrev pub parent_of : ℕ → ℕ
parent_of i = (i - 1) / 2

abbrev pub heap_step : List ℤ → List ℕ → List Piece → List ℕ → Step HeapState
heap_step heap comparing explanation highlighted = record {
  state = record { heap = heap; comparing = comparing; extracted = [] };
  explanation = explanation;
  highlighted = map index highlighted;
}

parent_step : List ℤ → ℕ → ℕ → Step HeapState
parent_step heap i parent =
    heap_step heap (i ∷ parent ∷ [])
      (lit "Comparing "
        ∷ num (at heap i)
        ∷ lit " at index "
        ∷ nat i
        ∷ lit " with its parent "
        ∷ num (at heap parent)
        ∷ lit " at index "
        ∷ nat parent
        ∷ lit "."
        ∷ [])
      (i ∷ parent ∷ [])

settled_step : List ℤ → ℕ → ℕ → Step HeapState
settled_step heap i parent =
    heap_step heap (i ∷ parent ∷ [])
      (lit "Parent "
        ∷ num (at heap parent)
        ∷ lit " is not smaller, so "
        ∷ num (at heap i)
        ∷ lit " has reached its place."
        ∷ [])
      (i ∷ [])

-- Behind the exchange.
swapped_step : List ℤ → ℕ → ℕ → Step HeapState
swapped_step heap i parent =
    heap_step heap (parent ∷ [])
      (lit "Swapped: "
        ∷ num (at heap parent)
        ∷ lit " moves up to index "
        ∷ nat parent
        ∷ lit "."
        ∷ [])
      (parent ∷ i ∷ [])

-- The steps of a phase, and the heap behind it.
abbrev pub Sifted : Type 0
Sifted = List (Step HeapState) × List ℤ

abbrev pub behind : List (Step HeapState) → Sifted → Sifted
behind before sifted = (before ++ sifted.0, sifted.1)

-- The `while` loop of `heapInsertSteps`. A parent's index is smaller, so the fuel `i` is enough.
unfoldable pub sift_up : ℕ → ℕ → List ℤ → Sifted
unfolding swap parent_step settled_step swapped_step
sift_up zero i heap = ([], heap)
sift_up (suc fuel) i heap =
    let parent = parent_of i in
    let raised = swap parent i heap in
    let rest = sift_up fuel parent raised in
    if i == 0
    then ([], heap)
    else if leb_ℤ (at heap i) (at heap parent)
    then (parent_step heap i parent ∷ settled_step heap i parent ∷ [], heap)
    else behind (parent_step heap i parent ∷ swapped_step raised i parent ∷ []) rest

inserted_step : List ℤ → ℤ → ℕ → Step HeapState
inserted_step heap v i =
    heap_step heap (i ∷ [])
      (lit "Inserted "
        ∷ num v
        ∷ lit " at the end, index "
        ∷ nat i
        ∷ lit ". The heap property may now be violated upwards."
        ∷ [])
      (i ∷ [])

-- The `for` loop: `heap.push(value)`, and the new last item sifted up.
unfoldable pub insert_values : List ℤ → List ℤ → Sifted
unfolding sift_up inserted_step
insert_values heap [] = ([], heap)
insert_values heap (v ∷ vs) =
    let pushed = heap ++ v ∷ [] in
    let (steps, raised) = sift_up (length heap) (length heap) pushed in
    behind (inserted_step pushed v (length heap) ∷ steps) (insert_values raised vs)

abbrev pub heap_start : Step HeapState
heap_start = heap_step [] [] (lit "Starting with an empty max-heap." ∷ []) []

-- heap[0] in a template literal
abbrev pub root_piece : List ℤ → Piece
root_piece [] = lit "undefined"
root_piece (v ∷ _) = num v

abbrev pub root_marks : List ℤ → List ℕ
root_marks [] = []
root_marks (_ ∷ _) = 0 ∷ []

abbrev pub heap_end : List ℤ → Step HeapState
heap_end heap =
    heap_step heap []
      (lit "Heap built. The largest value, " ∷ root_piece heap ∷ lit ", is at the root." ∷ [])
      (root_marks heap)

unfoldable pub heap_insert_steps : List ℤ → Run (List (Step HeapState))
unfolding assert_size insert_values
heap_insert_steps values =
    let (steps, heap) = insert_values [] values in
    assert_size values "Heap input" (heap_start ∷ steps ++ heap_end heap ∷ [])
