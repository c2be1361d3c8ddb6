-- ===== src/Algorithms/Bst.antt =====
-- The binary search tree of apps/web/src/modules/learning/algorithms/structures.ts.
pub mod Order
pub mod Runs
use dev_box.Prelude.{
  ℕ, ◌+◌, Bool, true, false, List, [], ◌∷◌, ◌++◌, map, if◌then◌else◌, length, ◌==◌,
}
use dev_box.Prelude.Int.{ℤ, ltb_ℤ, eqb_ℤ}
use dev_box.Algorithms.Steps.{Piece, lit, num, nat, nums, Mark, value, Step, Run, assert_size}

-- BstNode | null
pub data Tree : Type 0 where
  null : Tree
  node : ℤ → Tree → Tree → Tree

pub record BstState : Type 0 where
  pub root : Tree
  pub path : List ℤ
  pub traversal : List ℤ

-- The recursive `insert`.
unfoldable pub insert : Tree → ℤ → Tree
insert null v = node v null null
insert (node w l r) v =
    if ltb_ℤ v w
    then node w (insert l v) r
    else if ltb_ℤ w v
    then node w l (insert r v)
    else node w l r

unfoldable pub insert_all : Tree → List ℤ → Tree
unfolding insert
insert_all root [] = root
insert_all root (v ∷ vs) = insert_all (insert root v) vs

abbrev pub marks : List ℤ → List Mark
marks = map value

abbrev pub at_path : Tree → List ℤ → BstState
at_path root path = record { root = root; path = path; traversal = [] }

-- The steps of an insertion, and the tree that it leaves.
abbrev pub Walked : Type 0
Walked = List (Step BstState) × Tree

abbrev pub after : List (Step BstState) → Walked → Walked
after before walked = (before ++ walked.0, walked.1)

duplicate_step : ℤ → Tree → List ℤ → Step BstState
duplicate_step v root path = record {
  state = at_path root path;
  explanation =
      num v
      ∷ lit " is already in the tree. A binary search tree holds a set, so this insert is skipped."
      ∷ [];
  highlighted = marks path;
}

compare_step : ℤ → ℤ → Bool → Tree → List ℤ → Step BstState
compare_step v w go_left root path = record {
  state = at_path root path;
  explanation =
      num v
      ∷ lit " "
      ∷ lit (if go_left then "<" else ">")
      ∷ lit " "
      ∷ num w
      ∷ lit ", so go "
      ∷ lit (if go_left then "left" else "right")
      ∷ lit "."
      ∷ [];
  highlighted = marks path;
}

placed_step : ℤ → Bool → Tree → List ℤ → Step BstState
placed_step v go_left root path = record {
  state = at_path root path;
  explanation =
      lit "No "
      ∷ lit (if go_left then "left" else "right")
      ∷ lit " child, so "
      ∷ num v
      ∷ lit " is inserted here."
      ∷ [];
  highlighted = value v ∷ [];
}

-- The inner loop of `bstInsertSteps`. The cursor is a reference into `root`: `plug` is the tree
-- around it, so that a child written at the cursor changes the root. A missing child, on the side
-- `to_left` of its parent, is the place of the new node.
unfoldable pub insert_walk : ℤ → Tree → (Tree → Tree) → Bool → Tree → List ℤ → Walked
unfolding duplicate_step compare_step placed_step
insert_walk v root plug to_left null path =
    let root' = plug (node v null null) in
    (placed_step v to_left root' (path ++ v ∷ []) ∷ [], root')
insert_walk v root plug to_left (node w l r) path =
    let here = path ++ w ∷ [] in
    let left = insert_walk v root (λ t. plug (node w t r)) true l here in
    let right = insert_walk v root (λ t. plug (node w l t)) false r here in
    if eqb_ℤ v w
    then (duplicate_step v root here ∷ [], root)
    else after (compare_step v w (ltb_ℤ v w) root here ∷ []) (if ltb_ℤ v w then left else right)

-- One round of the outer loop.
unfoldable pub insert_round : Tree → ℤ → Walked
unfolding insert_walk
insert_round null v =
    let root = node v null null in
    (
      record {
        state = at_path root (v ∷ []);
        explanation = lit "The tree was empty, so " ∷ num v ∷ lit " becomes the root." ∷ [];
        highlighted = value v ∷ [];
      }
          ∷ [],
      root,
    )
insert_round (node w l r) v = insert_walk v (node w l r) (λ t. t) false (node w l r) []

unfoldable pub insert_rounds : Tree → List ℤ → Walked
unfolding insert_round
insert_rounds root [] = ([], root)
insert_rounds root (v ∷ vs) =
    let (steps, root') = insert_round root v in after steps (insert_rounds root' vs)

abbrev pub insert_start : Step BstState
insert_start = record {
  state = at_path null [];
  explanation = lit "Starting with an empty binary search tree." ∷ [];
  highlighted = [];
}

abbrev pub insert_end : Tree → Step BstState
insert_end root = record {
  state = at_path root [];
  explanation = lit "All values inserted. An in-order walk of this tree yields them sorted." ∷ [];
  highlighted = [];
}

unfoldable pub bst_insert_steps : List ℤ → Run (List (Step BstState))
unfolding assert_size insert_rounds
bst_insert_steps values =
    let (steps, root) = insert_rounds null values in
    assert_size values "Tree input" (insert_start ∷ steps ++ insert_end root ∷ [])

-- A step of the in-order walk, and the generator `walk`: its steps, and the traversal behind it.
abbrev pub Traversed : Type 0
Traversed = List (Step BstState) × List ℤ

walk_step : Tree → List ℤ → List ℤ → List Piece → List Mark → Step BstState
walk_step root path traversal explanation highlighted = record {
  state = record { root = root; path = path; traversal = traversal };
  explanation = explanation;
  highlighted = highlighted;
}

unfoldable pub walk : Tree → Tree → List ℤ → List ℤ → Traversed
unfolding walk_step
walk root null path traversal = ([], traversal)
walk root (node v l r) path traversal =
    let here = path ++ v ∷ [] in
    let to_left =
      walk_step root here traversal
        (lit "At " ∷ num v ∷ lit ": descend into the left subtree first." ∷ []) (marks here) in
    let (left_steps, before) = walk root l here traversal in
    let emitted = before ++ v ∷ [] in
    let emit =
      walk_step root here emitted
        (lit "Left subtree of " ∷ num v ∷ lit " is done, so emit " ∷ num v ∷ lit "." ∷ [])
        (value v ∷ []) in
    let to_right =
      walk_step root here emitted
        (lit "Now descend into the right subtree of " ∷ num v ∷ lit "." ∷ []) (marks here) in
    let (right_steps, end) = walk root r here emitted in
    (
      elim l [ null ↦ [] | node _ _ _ ↦ to_left ∷ left_steps ]
          ++ emit ∷ elim r [ null ↦ [] | node _ _ _ ↦ to_right ∷ right_steps ],
      end,
    )

abbrev pub walk_start : Tree → Step BstState
walk_start root = record {
  state = at_path root [];
  explanation = lit "Walking the tree in order: left subtree, then node, then right subtree." ∷ [];
  highlighted = [];
}

abbrev pub walk_end : Tree → List ℤ → Step BstState
walk_end root traversal = record {
  state = record { root = root; path = []; traversal = traversal };
  explanation =
      lit "Traversal complete: "
      ∷ nums traversal
      ∷ lit " — sorted, with no comparison sort involved."
      ∷ [];
  highlighted = [];
}

unfoldable pub bst_in_order_steps : List ℤ → Run (List (Step BstState))
unfolding assert_size insert_all walk
bst_in_order_steps values =
    let root = insert_all null values in
    let (steps, traversal) = walk root root [] [] in
    assert_size values "Tree input" (walk_start root ∷ steps ++ walk_end root traversal ∷ [])

unfoldable pub found_step : Tree → ℤ → List ℤ → Step BstState
found_step root target path = record {
  state = at_path root path;
  explanation =
      lit "Found "
      ∷ num target
      ∷ lit " after "
      ∷ nat (length path)
      ∷ lit " comparison"
      ∷ lit (if length path == 1 then "" else "s")
      ∷ lit "."
      ∷ [];
  highlighted = value target ∷ [];
}

unfoldable pub missing_step : Tree → ℤ → List ℤ → Step BstState
missing_step root target path = record {
  state = at_path root path;
  explanation = lit "Reached a missing child, so " ∷ num target ∷ lit " is not in the tree." ∷ [];
  highlighted = marks path;
}

discard_step : Tree → ℤ → ℤ → Bool → List ℤ → Step BstState
discard_step root target w go_left path = record {
  state = at_path root path;
  explanation =
      num target
      ∷ lit " "
      ∷ lit (if go_left then "<" else ">")
      ∷ lit " "
      ∷ num w
      ∷ lit ", so the "
      ∷ lit (if go_left then "right" else "left")
      ∷ lit " subtree cannot contain it. Go "
      ∷ lit (if go_left then "left" else "right")
      ∷ lit "."
      ∷ [];
  highlighted = marks path;
}

-- The `while` loop of `bstSearchSteps`, with the step behind it.
unfoldable pub search_walk : Tree → ℤ → Tree → List ℤ → List (Step BstState)
unfolding found_step missing_step discard_step
search_walk root target null path = missing_step root target path ∷ []
search_walk root target (node w l r) path =
    let here = path ++ w ∷ [] in
    let go_left = ltb_ℤ target w in
    let left = search_walk root target l here in
    let right = search_walk root target r here in
    if eqb_ℤ w target
    then found_step root target here ∷ []
    else discard_step root target w go_left here ∷ (if go_left then left else right)

abbrev pub search_start : Tree → ℤ → Step BstState
search_start root target = record {
  state = at_path root [];
  explanation =
      lit "Searching for " ∷ num target ∷ lit ". Each comparison discards one subtree." ∷ [];
  highlighted = [];
}

unfoldable pub bst_search_steps : List ℤ → ℤ → Run (List (Step BstState))
unfolding assert_size insert_all search_walk
bst_search_steps values target =
    let root = insert_all null values in
    assert_size values "Tree input" (search_start root target ∷ search_walk root target root [])
