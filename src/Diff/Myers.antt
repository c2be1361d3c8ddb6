-- ===== src/Diff/Myers.antt =====
-- `myersDiff`, `diffMiddle` and `backtrack` of apps/web/src/modules/diff/diff.ts. A diagonal k is its
-- index `offset + k`. A cell holds one more than the furthest x on its diagonal, so that the -1 of an
-- empty cell is 0. The trace is kept newest first.
pub mod Furthest
pub mod Rounds
pub mod Ending
pub mod Backtrack
pub mod Whole
use dev_box.Prelude.{
  ℕ, zero, suc, ◌+◌, ◌-◌, ◌*◌, Bool, true, false, not, ◌&&◌, ◌||◌, List, [], ◌∷◌, ◌++◌, reverse,
  if◌then◌else◌, Option, none, some, length, leb, ltb, ◌==◌, get_or, set, replicate, drop, take,
  min,
}
use dev_box.Text.{Text, text_eq}
use dev_box.Diff.Script.{ChangeKind, equal, insert, delete, EditOp, op_of, coalesce}

-- How far two lists agree from the start.
unfoldable pub agree : List Text → List Text → ℕ
unfolding text_eq
agree [] b = 0
agree (x ∷ a) [] = 0
agree (x ∷ a) (y ∷ b) = let more = agree a b in if text_eq x y then suc more else 0

abbrev pub Cells : Type 0
Cells = List ℕ

-- k === -d || (k !== d && v[offset + k - 1] < v[offset + k + 1])
unfoldable pub goes_down : (offset d : ℕ) → Cells → ℕ → Bool
goes_down offset d v i =
    i + d == offset || (not (i == offset + d) && ltb (get_or v (i - 1) 0) (get_or v (i + 1) 0))

-- Where round d starts on a diagonal; x - k is y, which is never negative.
unfoldable pub start_x : (offset d : ℕ) → Cells → ℕ → ℕ
unfolding goes_down
start_x offset d v i = if goes_down offset d v i then get_or v (i + 1) 0 - 1 else get_or v (i - 1) 0

module _ (a b : List Text) where
  -- The `while` loop along a diagonal.
  unfoldable pub slide : (offset i x : ℕ) → ℕ
  unfolding agree
  slide offset i x = x + agree (drop x a) (drop (x + offset - i) b)

  abbrev pub at_end : (offset i x : ℕ) → Bool
  at_end offset i x = leb (length a) x && leb (length b) (x + offset - i)

  -- The `for` loop over the diagonals of a round, from index `i` on with `left` of them left: whether
  -- the end was found, and the cells of the round.
  unfoldable pub diagonals : (offset d left i : ℕ) → Cells → Cells → Bool × Cells
  unfolding start_x slide
  diagonals offset d zero i v next = (false, next)
  diagonals offset d (suc left) i v next =
      let x = slide offset i (start_x offset d v i) in
      let next' = set next i (suc x) in
      let more = diagonals offset d left (i + 2) v next' in
      if at_end offset i x then (true, next') else more

  -- The rounds from d on: the round in which the end was found, and the cells before it and before
  -- all earlier rounds.
  unfoldable pub rounds : (offset fuel d : ℕ) → Cells → List Cells → Option (ℕ × List Cells)
  unfolding diagonals
  rounds offset zero d v trace = none
  rounds offset (suc fuel) d v trace =
      let (found, next) = diagonals offset d (suc d) (offset - d) v v in
      let more = rounds offset fuel (suc d) next (v ∷ trace) in
      if found then some (d, v ∷ trace) else more

-- Operations of count one, put before those that follow them.
abbrev pub push_ops : ℕ → ChangeKind → List EditOp → List EditOp
push_ops n kind ops = replicate n (op_of kind 1) ++ ops

-- The three loops behind the rounds.
unfoldable pub finish_back : (x y : ℕ) → List EditOp → List EditOp
finish_back x y ops =
    let t = min x y in push_ops (y - t) insert (push_ops (x - t) delete (push_ops t equal ops))

-- The loop of `backtrack` from round d on, with the operations found so far in their final order.
unfoldable pub walk_back : (offset d : ℕ) → List Cells → (x y : ℕ) → List EditOp → List EditOp
unfolding goes_down finish_back
walk_back offset zero trace x y ops = finish_back x y ops
walk_back offset (suc d) [] x y ops = ops
walk_back offset (suc d) (v ∷ trace) x y ops =
    let i = offset + x - y in
    let down = goes_down offset (suc d) v i in
    let previous = if down then i + 1 else i - 1 in
    let previous_x = get_or v previous 0 - 1 in
    let previous_y = previous_x + offset - previous in
    let t = min (x - previous_x) (y - previous_y) in
    let kept = push_ops t equal ops in
    if down
    then walk_back offset d trace (x - t) (y - t - 1) (push_ops 1 insert kept)
    else walk_back offset d trace (x - t - 1) (y - t) (push_ops 1 delete kept)

unfoldable pub no_cells : (size : ℕ) → Cells
no_cells size = set (replicate (2 * size + 1) 0) (size + 1) 1

unfoldable pub middle_script : List Text → List Text → Option (ℕ × List Cells) → List EditOp
unfolding walk_back coalesce
middle_script a b none = op_of delete (length a) ∷ op_of insert (length b) ∷ []
middle_script a b (some (found, trace)) =
    coalesce (walk_back (length a + length b) found trace (length a) (length b) [])

unfoldable pub diff_middle : List Text → List Text → List EditOp
unfolding rounds no_cells walk_back coalesce
diff_middle [] [] = []
diff_middle [] (y ∷ b) = op_of insert (length (y ∷ b)) ∷ []
diff_middle (x ∷ a) [] = op_of delete (length (x ∷ a)) ∷ []
diff_middle (x ∷ a) (y ∷ b) =
    let size = length (x ∷ a) + length (y ∷ b) in
    middle_script (x ∷ a) (y ∷ b) (rounds (x ∷ a) (y ∷ b) size (suc size) 0 (no_cells size) [])

abbrev pub equal_run : ℕ → List EditOp
equal_run zero = []
equal_run (suc n) = op_of equal (suc n) ∷ []

unfoldable pub myers_diff : List Text → List Text → List EditOp
unfolding agree diff_middle coalesce
myers_diff a b =
    let prefix = agree a b in
    let a' = drop prefix a in
    let b' = drop prefix b in
    let suffix = agree (reverse a') (reverse b') in
    let middle = diff_middle (take (length a' - suffix) a') (take (length b' - suffix) b') in
    coalesce (equal_run prefix ++ (middle ++ equal_run suffix))
