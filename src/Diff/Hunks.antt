-- ===== src/Diff/Hunks.antt =====
-- `Hunk`, `buildHunks` and `makeHunk` of apps/web/src/modules/diff/diff.ts. The bounds are indexes; the
-- test `index - context <= end + 1` is written without the difference, which may be negative there.
pub mod Cover
use dev_box.Prelude.{
  ℕ, zero, suc, ◌+◌, ◌-◌, Bool, true, false, not, List, [], ◌∷◌, if◌then◌else◌, Option, none, some,
  leb, min, length, take, drop, head_or,
}
use dev_box.Diff.Script.{ChangeKind, equal, insert, delete}
use dev_box.Diff.Lines.{DiffLine}

pub record Hunk : Type 0 where
  pub left_start : ℕ
  pub left_count : ℕ
  pub right_start : ℕ
  pub right_count : ℕ
  pub lines : List DiffLine

-- line.kind === 'equal'
abbrev pub is_equal : ChangeKind → Bool
is_equal equal = true
is_equal insert = false
is_equal delete = false

-- The numbers that are there.
abbrev pub known : List (Option ℕ) → List ℕ
known [] = []
known (none ∷ numbers) = known numbers
known (some n ∷ numbers) = n ∷ known numbers

abbrev pub left_numbers : List DiffLine → List (Option ℕ)
left_numbers [] = []
left_numbers (line ∷ lines) = line.left_number ∷ left_numbers lines

abbrev pub right_numbers : List DiffLine → List (Option ℕ)
right_numbers [] = []
right_numbers (line ∷ lines) = line.right_number ∷ right_numbers lines

unfoldable pub make_hunk : List DiffLine → (start end : ℕ) → Hunk
make_hunk lines start end =
    let slice = take (end + 1 - start) (drop start lines) in
    let left = known (left_numbers slice) in
    let right = known (right_numbers slice) in
    record {
      left_start = head_or left 0;
      left_count = length left;
      right_start = head_or right 0;
      right_count = length right;
      lines = slice;
    }

-- The indexes of the lines that are changed, from an index on.
unfoldable pub changed_indexes : ℕ → List DiffLine → List ℕ
changed_indexes i [] = []
changed_indexes i (line ∷ lines) =
    let rest = changed_indexes (suc i) lines in if is_equal line.kind then rest else i ∷ rest

module _ (lines : List DiffLine) (context : ℕ) where
  -- Math.min(lines.length - 1, index + context)
  abbrev pub last_around : ℕ → ℕ
  last_around index = min (length lines - 1) (index + context)

  -- The `for` loop over the changes, with the bounds of the hunk that is being built.
  unfoldable pub hunk_loop : (start end : ℕ) → List ℕ → List Hunk
  unfolding make_hunk
  hunk_loop start end [] = make_hunk lines start end ∷ []
  hunk_loop start end (index ∷ changes) =
      let wider = hunk_loop start (last_around index) changes in
      let behind = hunk_loop (index - context) (last_around index) changes in
      if leb index (end + 1 + context) then wider else make_hunk lines start end ∷ behind

  unfoldable pub hunks_of : List ℕ → List Hunk
  unfolding hunk_loop
  hunks_of [] = []
  hunks_of (index ∷ changes) = hunk_loop (index - context) (last_around index) changes

  unfoldable pub build_hunks : List Hunk
  unfolding changed_indexes hunks_of
  build_hunks = hunks_of (changed_indexes 0 lines)
