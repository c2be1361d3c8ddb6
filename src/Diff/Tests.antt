-- ===== src/Diff/Tests.antt =====
-- Runs of the diff, and its theorems at concrete texts.
use dev_box.Prelude.{
  length, All, Bool, true, false, none, map, ℕ, ◌≤◌, some, none, map, arith, ◌≡◌, refl, List, [],
  ◌∷◌,
}
use dev_box.Diff.Lines.{DiffLine, script_lines, split_lines, unify_ends, line_of}
use dev_box.Text.Split.{split, to_lower}
use dev_box.Diff.Lines.Shown.{Shows, script_lines-Shows}
use dev_box.Diff.Hunks.{build_hunks}
use dev_box.Diff.Hunks.Cover.{Covered, build_hunks-Covered}
use dev_box.Text.Split.{starts_space}
use dev_box.Diff.Words.{annotate_word_changes}
use dev_box.Diff.Words.Joined.{WordsJoin, less_words, annotate_word_changes-WordsJoin}
use dev_box.Diff.Compare.{DiffOptions, Compared, compared, refused, diff_text}
use dev_box.Diff.Compare.Promise.{Honest, diff_text-Honest}
use dev_box.Diff.Unified.{to_unified_diff}
use dev_box.Text.{Text, codes, text_eq}
use dev_box.Diff.Script.{
  equal, insert, delete, op_of, coalesce, merge_ops, Edits, spelled_out, coalesce-spelled_out,
}
use dev_box.Diff.Myers.Ending.{rounds-some}
use dev_box.Diff.Myers.Whole.{myers_diff-Edits}
use dev_box.Diff.Myers.{
  Cells, agree, goes_down, start_x, slide, diagonals, rounds, finish_back, walk_back, no_cells,
  middle_script, diff_middle, myers_diff,
}

abbrev old_lines : List Text
old_lines = codes "a" ∷ codes "b" ∷ codes "c" ∷ codes "a" ∷ codes "b" ∷ codes "b" ∷ codes "a" ∷ []

abbrev new_lines : List Text
new_lines = codes "c" ∷ codes "b" ∷ codes "a" ∷ codes "b" ∷ codes "a" ∷ codes "c" ∷ []

script :
    myers_diff old_lines new_lines
    ≡ op_of delete 2
      ∷ op_of equal 1
      ∷ op_of insert 1
      ∷ op_of equal 2
      ∷ op_of delete 1
      ∷ op_of equal 1
      ∷ op_of insert 1
      ∷ []
unfolding middle_script agree goes_down start_x slide diagonals rounds finish_back walk_back
    no_cells diff_middle myers_diff coalesce merge_ops text_eq
script = refl

myers_diff-Edits_example : Edits (spelled_out (myers_diff old_lines new_lines)) old_lines new_lines
myers_diff-Edits_example = myers_diff-Edits old_lines new_lines

rounds-some_example :
    (d : ℕ) × (trace : List Cells) × (d ≤ 13)
    × (rounds old_lines new_lines 13 14 0 (no_cells 13) [] ≡ some (d, trace))
rounds-some_example = rounds-some old_lines new_lines (omega arith)

coalesce-spelled_out_example :
    spelled_out (coalesce (op_of delete 1 ∷ op_of insert 0 ∷ op_of delete 2 ∷ []))
    ≡ spelled_out (op_of delete 1 ∷ op_of insert 0 ∷ op_of delete 2 ∷ [])
coalesce-spelled_out_example =
    coalesce-spelled_out (op_of delete 1 ∷ op_of insert 0 ∷ op_of delete 2 ∷ [])

two_lines : split_lines (b'a' ∷ 13 ∷ 10 ∷ b'b' ∷ 13 ∷ []) ≡ codes "a" ∷ codes "b" ∷ []
unfolding split_lines split unify_ends
two_lines = refl

script_lines-Shows_example :
    Shows to_lower 0 0
      (script_lines old_lines new_lines
        (myers_diff (map to_lower old_lines) (map to_lower new_lines))
        0
        0)
      old_lines
      new_lines
script_lines-Shows_example = script_lines-Shows to_lower old_lines new_lines

abbrev shown : List DiffLine
shown =
    line_of equal (some 1) (some 1) (codes "a")
    ∷ line_of delete (some 2) none (codes "b")
    ∷ line_of equal (some 3) (some 2) (codes "c")
    ∷ line_of equal (some 4) (some 3) (codes "d")
    ∷ line_of equal (some 5) (some 4) (codes "e")
    ∷ line_of insert none (some 5) (codes "f")
    ∷ []

build_hunks-Covered_example : Covered shown 1 0 (build_hunks shown 1)
build_hunks-Covered_example = build_hunks-Covered shown 1

abbrev pair : List DiffLine
pair =
    line_of delete (some 1) none (codes "let a = 1")
    ∷ line_of insert none (some 1) (codes "let b = 1")
    ∷ []

annotate_word_changes-WordsJoin_example :
    (map less_words (annotate_word_changes pair) ≡ map less_words pair)
    × All WordsJoin (annotate_word_changes pair)
annotate_word_changes-WordsJoin_example = annotate_word_changes-WordsJoin pair (refl, (refl, tt))

abbrev plain_options : DiffOptions
plain_options = record { ignore_whitespace = true; ignore_case = false; context = none }

abbrev old_text : Text
old_text = codes "x\nlet  a = 1\ny"

abbrev new_text : Text
new_text = codes "x\nlet b = 1\ny\n"

diff_text-Honest_example :
    Honest length to_lower plain_options old_text new_text
      (diff_text length to_lower old_text new_text plain_options)
diff_text-Honest_example = diff_text-Honest length to_lower plain_options old_text new_text

abbrev unified : Compared → Text
unified (refused _) = []
unified (compared result) = to_unified_diff result (codes "a") (codes "b")

whole_diff :
    unified (diff_text length to_lower old_text new_text plain_options)
    ≡ codes "--- a\n+++ b\n@@ -1,3 +1,3 @@\n x\n-let  a = 1\n+let b = 1\n y"
unfolding to_unified_diff diff_text starts_space middle_script
whole_diff = refl

abbrev segments_of : List DiffLine → List Bool
segments_of [] = []
segments_of (line ∷ lines) = elim line.words [ none ↦ false | some _ ↦ true ] ∷ segments_of lines

last_of_two :
    segments_of (
      annotate_word_changes (
        line_of delete (some 1) none (codes "int a")
        ∷ line_of delete (some 2) none (codes "int b")
        ∷ line_of insert none (some 1) (codes "int c")
        ∷ []))
    ≡ false ∷ true ∷ true ∷ []
unfolding annotate_word_changes middle_script
last_of_two = refl
