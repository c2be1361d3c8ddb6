-- ===== src/Diff/Compare.antt =====
-- `diffText` of apps/web/src/modules/diff/diff.ts. The length of a text in UTF-8 (TextEncoder) and
-- toLowerCase are parameters; a thrown error is a case of the outcome.
pub mod Promise
use dev_box.Prelude.{
  ℕ, zero, suc, ◌+◌, ◌*◌, Bool, true, false, not, ◌&&◌, ◌||◌, List, [], ◌∷◌, ◌++◌, map,
  if◌then◌else◌, Option, none, some, ltb, ◌==◌, length,
}
use dev_box.Text.{Text, text_eq, trim}
use dev_box.Text.Split.{ends_with, squeeze}
use dev_box.Diff.Script.{ChangeKind}
use dev_box.Diff.Lines.{DiffLine, split_lines, script_lines}
use dev_box.Diff.Myers.{myers_diff}
use dev_box.Diff.Words.{annotate_word_changes, is_delete, is_insert}
use dev_box.Diff.Hunks.{Hunk, is_equal, build_hunks}

pub record DiffOptions : Type 0 where
  pub ignore_whitespace : Bool
  pub ignore_case : Bool
  pub context : Option ℕ

pub record Stats : Type 0 where
  pub added : ℕ
  pub removed : ℕ
  pub unchanged : ℕ

-- The notes, the first one with the options that it names.
pub data DiffNote : Type 0 where
  differ_only : (whitespace letter_case : Bool) → DiffNote
  trailing_newline : DiffNote

pub record DiffResult : Type 0 where
  pub lines : List DiffLine
  pub hunks : List Hunk
  pub stats : Stats
  pub identical : Bool
  pub notes : List DiffNote

pub data DiffError : Type 0 where
  too_large too_many_lines : DiffError

pub data Compared : Type 0 where
  compared : DiffResult → Compared
  refused : DiffError → Compared

unfoldable pub max_input_bytes : ℕ
max_input_bytes = 5 * 1024 * 1024

unfoldable pub max_lines : ℕ
max_lines = 50000

-- lines.filter((l) => ...).length
unfoldable pub count_lines : (ChangeKind → Bool) → List DiffLine → ℕ
count_lines test [] = 0
count_lines test (line ∷ lines) =
    let more = count_lines test lines in if test line.kind then suc more else more

abbrev pub context_of : Option ℕ → ℕ
context_of none = 3
context_of (some context) = context

unfoldable pub stats_of : List DiffLine → Stats
unfolding count_lines
stats_of lines = record {
  added = count_lines is_insert lines;
  removed = count_lines is_delete lines;
  unchanged = count_lines is_equal lines;
}

-- stats.added === 0 && stats.removed === 0
abbrev pub no_change : Stats → Bool
no_change stats = (stats.added == 0) && (stats.removed == 0)

-- a !== b
abbrev pub differ : Bool → Bool → Bool
differ a b = if a then not b else b

unfoldable pub notes_of : (left right : Text) → DiffOptions → Stats → List DiffNote
unfolding text_eq ends_with
notes_of left right options stats =
    let hidden =
      (options.ignore_whitespace || options.ignore_case)
      && (no_change stats && not (text_eq left right)) in
    let ends = differ (ends_with left (10 ∷ [])) (ends_with right (10 ∷ [])) in
    let first =
      if hidden then differ_only options.ignore_whitespace options.ignore_case ∷ [] else [] in
    let second = if ends then trailing_newline ∷ [] else [] in first ++ second

module _ (byte_length : Text → ℕ) (lower_case : Text → Text) where
  unfoldable pub normalize_line : DiffOptions → Text → Text
  unfolding trim squeeze
  normalize_line options line =
      let out = if options.ignore_whitespace then squeeze (trim line) else line in
      if options.ignore_case then lower_case out else out

  -- What stands behind the checks.
  unfoldable pub compare_lines :
      (left right : Text) → (left_lines right_lines : List Text) → DiffOptions → DiffResult
  unfolding normalize_line myers_diff script_lines annotate_word_changes stats_of notes_of
      build_hunks
  compare_lines left right left_lines right_lines options =
      let script =
        myers_diff (map (normalize_line options) left_lines)
          (map (normalize_line options) right_lines) in
      let lines = annotate_word_changes (script_lines left_lines right_lines script 0 0) in
      let stats = stats_of lines in
      record {
        lines = lines;
        hunks = build_hunks lines (context_of options.context);
        stats = stats;
        identical = no_change stats;
        notes = notes_of left right options stats;
      }

  unfoldable pub diff_text : (left right : Text) → DiffOptions → Compared
  unfolding max_input_bytes max_lines split_lines compare_lines
  diff_text left right options =
      let left_lines = split_lines left in
      let right_lines = split_lines right in
      if ltb max_input_bytes (byte_length left) || ltb max_input_bytes (byte_length right)
      then refused too_large
      else if ltb max_lines (length left_lines) || ltb max_lines (length right_lines)
      then refused too_many_lines
      else compared (compare_lines left right left_lines right_lines options)
