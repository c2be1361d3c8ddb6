-- ===== src/Diff/Unified.antt =====
-- `toUnifiedDiff` of apps/web/src/modules/diff/diff.ts.
use dev_box.Prelude.{ℕ, List, [], ◌∷◌, ◌++◌}
use dev_box.Text.{Text, codes}
use dev_box.Text.Decimal.{decimal}
use dev_box.Diff.Script.{ChangeKind, equal, insert, delete}
use dev_box.Diff.Lines.{DiffLine}
use dev_box.Diff.Hunks.{Hunk}
use dev_box.Diff.Compare.{DiffResult}

abbrev pub marker : ChangeKind → ℕ
marker insert = b'+'
marker delete = b'-'
marker equal = b' '

-- The header line of a hunk.
unfoldable pub hunk_header : Hunk → Text
unfolding decimal
hunk_header hunk =
    codes "@@ -"
    ++ decimal hunk.left_start
    ++ codes ","
    ++ decimal hunk.left_count
    ++ codes " +"
    ++ decimal hunk.right_start
    ++ codes ","
    ++ decimal hunk.right_count
    ++ codes " @@"

abbrev pub marked_lines : List DiffLine → List Text
marked_lines [] = []
marked_lines (line ∷ lines) = (marker line.kind ∷ line.text) ∷ marked_lines lines

unfoldable pub hunk_lines : List Hunk → List Text
unfolding hunk_header
hunk_lines [] = []
hunk_lines (hunk ∷ hunks) = hunk_header hunk ∷ (marked_lines hunk.lines ++ hunk_lines hunks)

-- out.join('\n')
abbrev pub join_lines : List Text → Text
join_lines [] = []
join_lines (line ∷ []) = line
join_lines (line ∷ next ∷ lines) = line ++ 10 ∷ join_lines (next ∷ lines)

unfoldable pub unified_of : List Hunk → (left_label right_label : Text) → Text
unfolding hunk_lines
unified_of [] left_label right_label = []
unified_of (hunk ∷ hunks) left_label right_label =
    join_lines
      ((codes "--- " ++ left_label) ∷ (codes "+++ " ++ right_label) ∷ hunk_lines (hunk ∷ hunks))

unfoldable pub to_unified_diff : DiffResult → (left_label right_label : Text) → Text
unfolding unified_of
to_unified_diff result left_label right_label = unified_of result.hunks left_label right_label
