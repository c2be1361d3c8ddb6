-- ===== src/Diff/Lines.antt =====
-- `DiffLine`, `splitLines` and the loop of `diffText` over the edit script, of
-- apps/web/src/modules/diff/diff.ts.
pub mod Shown
pub mod Ends
use dev_box.Prelude.{
  ℕ, zero, suc, ◌+◌, Bool, true, false, ◌&&◌, List, [], ◌∷◌, ◌++◌, if◌then◌else◌, Option, none,
  some, ◌==◌, get_or,
}
use dev_box.Text.{Text}
use dev_box.Text.Split.{split}
use dev_box.Diff.Script.{ChangeKind, equal, insert, delete, EditOp}

pub record WordPart : Type 0 where
  pub kind : ChangeKind
  pub text : Text

pub record DiffLine : Type 0 where
  pub kind : ChangeKind
  pub left_number : Option ℕ
  pub right_number : Option ℕ
  pub text : Text
  pub words : Option (List WordPart)

abbrev pub line_of : ChangeKind → Option ℕ → Option ℕ → Text → DiffLine
line_of kind left right text = record {
  kind = kind;
  left_number = left;
  right_number = right;
  text = text;
  words = none;
}

-- text.replace(/\r\n?/g, '\n'), and whether the unit before was a carriage return.
unfoldable pub unify_ends : Bool → Text → Text
unify_ends after [] = []
unify_ends after (c ∷ s) =
    let next = unify_ends true s in
    let more = unify_ends false s in
    if c == 13 then 10 ∷ next else if after && c == 10 then more else c ∷ more

-- An empty line at the end is taken off.
abbrev pub pop_empty : List Text → List Text
pop_empty [] = []
pop_empty ([] ∷ []) = []
pop_empty ((c ∷ line) ∷ []) = (c ∷ line) ∷ []
pop_empty (line ∷ next ∷ lines) = line ∷ pop_empty (next ∷ lines)

unfoldable pub split_lines : Text → List Text
unfolding split unify_ends
split_lines [] = []
split_lines (c ∷ s) = pop_empty (split 10 (unify_ends false (c ∷ s)))

module _ (left right : List Text) where
  abbrev pub equal_lines : (count left_index right_index : ℕ) → List DiffLine
  equal_lines zero li ri = []
  equal_lines (suc n) li ri =
      line_of equal (some (suc li)) (some (suc ri)) (get_or left li [])
      ∷ equal_lines n (suc li) (suc ri)

  abbrev pub delete_lines : (count left_index : ℕ) → List DiffLine
  delete_lines zero li = []
  delete_lines (suc n) li =
      line_of delete (some (suc li)) none (get_or left li []) ∷ delete_lines n (suc li)

  abbrev pub insert_lines : (count right_index : ℕ) → List DiffLine
  insert_lines zero ri = []
  insert_lines (suc n) ri =
      line_of insert none (some (suc ri)) (get_or right ri []) ∷ insert_lines n (suc ri)

  -- One operation: the lines that it puts out, and both indexes behind it.
  abbrev pub op_lines : ChangeKind → (count li ri : ℕ) → List DiffLine × ℕ × ℕ
  op_lines equal n li ri = (equal_lines n li ri, li + n, ri + n)
  op_lines delete n li ri = (delete_lines n li, li + n, ri)
  op_lines insert n li ri = (insert_lines n ri, li, ri + n)

  -- The `for` loop over the script.
  unfoldable pub script_lines : List EditOp → (li ri : ℕ) → List DiffLine
  script_lines [] li ri = []
  script_lines (op ∷ ops) li ri =
      let (lines, li', ri') = op_lines op.kind op.count li ri in lines ++ script_lines ops li' ri'
