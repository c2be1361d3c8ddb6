-- ===== src/Diff/Lines/Shown.antt =====
-- What the lines of a diff show of both texts.
use dev_box.Prelude.{
  ℕ, zero, suc, ◌+◌, ◌≡◌, refl, List, [], ◌∷◌, ◌++◌, map, none, some, drop, get_or, replicate,
  arith, ap, sym, ◌∙◌,
}
use mathlib.Core.Path.{subst}
use dev_box.Text.{Text}
use dev_box.Diff.Script.{ChangeKind, equal, insert, delete, EditOp, Edits, spelled_out}
use dev_box.Diff.Lines.{
  DiffLine, line_of, op_lines, equal_lines, delete_lines, insert_lines, script_lines,
}
use dev_box.Diff.Myers.{myers_diff}
use dev_box.Diff.Myers.Whole.{myers_diff-Edits}

-- Lines that show both texts from the given line numbers on: a line that is deleted is the next one
-- of the left text, with its number there; one that is inserted is the next one of the right text;
-- any other is the next one of the left text with both numbers, and the same as the next one of
-- the right text once both are normalized.
pub data Shows (normalize : Text → Text)
    : (li ri : ℕ) → List DiffLine → (left right : List Text) → Type 0 where
  finished : {li ri : ℕ} → Shows normalize li ri [] [] []
  shared :
      {li ri : ℕ} {lines : List DiffLine} {left right : List Text} (l r : Text)
      → normalize l ≡ normalize r
      → Shows normalize (suc li) (suc ri) lines left right
      → Shows normalize li ri
          (line_of equal (some (suc li)) (some (suc ri)) l ∷ lines)
          (l ∷ left)
          (r ∷ right)
  deleted :
      {li ri : ℕ} {lines : List DiffLine} {left right : List Text} (l : Text)
      → Shows normalize (suc li) ri lines left right
      → Shows normalize li ri (line_of delete (some (suc li)) none l ∷ lines) (l ∷ left) right
  inserted :
      {li ri : ℕ} {lines : List DiffLine} {left right : List Text} (r : Text)
      → Shows normalize li (suc ri) lines left right
      → Shows normalize li ri (line_of insert none (some (suc ri)) r ∷ lines) left (r ∷ right)

-- The lines of a script that is spelled out.
abbrev unit_lines : (left right : List Text) → List ChangeKind → (li ri : ℕ) → List DiffLine
unit_lines left right [] li ri = []
unit_lines left right (equal ∷ script) li ri =
    line_of equal (some (suc li)) (some (suc ri)) (get_or left li [])
    ∷ unit_lines left right script (suc li) (suc ri)
unit_lines left right (delete ∷ script) li ri =
    line_of delete (some (suc li)) none (get_or left li [])
    ∷ unit_lines left right script (suc li) ri
unit_lines left right (insert ∷ script) li ri =
    line_of insert none (some (suc ri)) (get_or right ri [])
    ∷ unit_lines left right script li (suc ri)

module _ (left right : List Text) where
  unit_lines-equal :
      (n li ri : ℕ) (script : List ChangeKind)
      → unit_lines left right (replicate n equal ++ script) li ri
        ≡ equal_lines left right n li ri ++ unit_lines left right script (li + n) (ri + n)
  unit_lines-equal zero li ri script =
      let e : li ≡ li + 0 = omega arith in
      let f : ri ≡ ri + 0 = omega arith in
      ap (λ k. unit_lines left right script k ri) e ∙ ap (unit_lines left right script (li + 0)) f
  unit_lines-equal (suc n) li ri script =
      let e : suc li + n ≡ li + suc n = omega arith in
      let f : suc ri + n ≡ ri + suc n = omega arith in
      ap (λ lines. line_of equal (some (suc li)) (some (suc ri)) (get_or left li []) ∷ lines)
        (unit_lines-equal n (suc li) (suc ri) script
          ∙ ap
              (λ k.
                equal_lines left right n (suc li) (suc ri)
                ++ unit_lines left right script k (suc ri + n))
              e
          ∙ ap
              (λ k.
                equal_lines left right n (suc li) (suc ri)
                ++ unit_lines left right script (li + suc n) k)
              f)

  unit_lines-delete :
      (n li ri : ℕ) (script : List ChangeKind)
      → unit_lines left right (replicate n delete ++ script) li ri
        ≡ delete_lines left right n li ++ unit_lines left right script (li + n) ri
  unit_lines-delete zero li ri script =
      let e : li ≡ li + 0 = omega arith in ap (λ k. unit_lines left right script k ri) e
  unit_lines-delete (suc n) li ri script =
      let e : suc li + n ≡ li + suc n = omega arith in
      ap (λ lines. line_of delete (some (suc li)) none (get_or left li []) ∷ lines)
        (unit_lines-delete n (suc li) ri script
          ∙ ap (λ k. delete_lines left right n (suc li) ++ unit_lines left right script k ri) e)

  unit_lines-insert :
      (n li ri : ℕ) (script : List ChangeKind)
      → unit_lines left right (replicate n insert ++ script) li ri
        ≡ insert_lines left right n ri ++ unit_lines left right script li (ri + n)
  unit_lines-insert zero li ri script =
      let e : ri ≡ ri + 0 = omega arith in ap (unit_lines left right script li) e
  unit_lines-insert (suc n) li ri script =
      let e : suc ri + n ≡ ri + suc n = omega arith in
      ap (λ lines. line_of insert none (some (suc ri)) (get_or right ri []) ∷ lines)
        (unit_lines-insert n li (suc ri) script
          ∙ ap (λ k. insert_lines left right n (suc ri) ++ unit_lines left right script li k) e)

  op_lines-unit :
      (kind : ChangeKind) (n li ri : ℕ) (script : List ChangeKind)
      → unit_lines left right (replicate n kind ++ script) li ri
        ≡ (op_lines left right kind n li ri).0
          ++ unit_lines left right script
              (op_lines left right kind n li ri).1
              (op_lines left right kind n li ri).2
  op_lines-unit equal = unit_lines-equal
  op_lines-unit delete = unit_lines-delete
  op_lines-unit insert = unit_lines-insert

  script_lines-unit :
      (ops : List EditOp) (li ri : ℕ)
      → script_lines left right ops li ri ≡ unit_lines left right (spelled_out ops) li ri
  unfolding script_lines spelled_out
  script_lines-unit [] li ri = refl
  script_lines-unit (op ∷ ops) li ri =
      let (lines, li', ri') = op_lines left right op.kind op.count li ri in
      ap (λ rest. lines ++ rest) (script_lines-unit ops li' ri')
      ∙ sym (op_lines-unit op.kind op.count li ri (spelled_out ops))

-- The item that a suffix of a mapped list begins with.
drop-map :
    (normalize : Text → Text) (n : ℕ) (xs : List Text) (y : Text) (ys : List Text)
    → drop n (map normalize xs) ≡ y ∷ ys
    → (drop n xs ≡ get_or xs n [] ∷ drop (suc n) xs)
      × (normalize (get_or xs n []) ≡ y)
      × (drop (suc n) (map normalize xs) ≡ ys)
drop-map normalize zero [] y ys e = ground (arith, e)
drop-map normalize (suc n) [] y ys e = ground (arith, e)
drop-map normalize zero (x ∷ xs) y ys e = (refl, ground (arith, e), ground (arith, e))
drop-map normalize (suc n) (x ∷ xs) y ys e = drop-map normalize n xs y ys e

drop-map_nil :
    (normalize : Text → Text) (n : ℕ) (xs : List Text)
    → drop n (map normalize xs) ≡ []
    → drop n xs ≡ []
drop-map_nil normalize zero [] e = refl
drop-map_nil normalize (suc n) [] e = refl
drop-map_nil normalize zero (x ∷ xs) e = ground (arith, e)
drop-map_nil normalize (suc n) (x ∷ xs) e = drop-map_nil normalize n xs e

module _ (normalize : Text → Text) (left right : List Text) where
  unit_lines-Shows :
      (script : List ChangeKind) (li ri : ℕ)
      → Edits script (drop li (map normalize left)) (drop ri (map normalize right))
      → Shows normalize li ri (unit_lines left right script li ri) (drop li left) (drop ri right)
  unit_lines-Shows [] li ri (e, f) =
      subst (λ l. Shows normalize li ri [] l (drop ri right))
        (sym (drop-map_nil normalize li left e))
        (subst (Shows normalize li ri [] []) (sym (drop-map_nil normalize ri right f)) finished)
  unit_lines-Shows (equal ∷ script) li ri (x, xs, ys, e, f, rest) =
      let (at_l, same, next) = drop-map normalize li left x xs e in
      let (at_r, same', next') = drop-map normalize ri right x ys f in
      let lines = unit_lines left right (equal ∷ script) li ri in
      subst (λ l. Shows normalize li ri lines l (drop ri right)) (sym at_l)
        (subst (Shows normalize li ri lines (get_or left li [] ∷ drop (suc li) left)) (sym at_r) (
          shared (get_or left li []) (get_or right ri []) (same ∙ sym same') (
            unit_lines-Shows script (suc li) (suc ri) (
              subst (λ l. Edits script l (drop (suc ri) (map normalize right))) (sym next)
                (subst (Edits script xs) (sym next') rest)))))
  unit_lines-Shows (delete ∷ script) li ri (x, xs, e, rest) =
      let (at_l, _, next) = drop-map normalize li left x xs e in
      subst
        (λ l.
          Shows normalize li ri (unit_lines left right (delete ∷ script) li ri) l (drop ri right))
        (sym at_l)
        (deleted (get_or left li []) (
          unit_lines-Shows script (suc li) ri
            (subst (λ l. Edits script l (drop ri (map normalize right))) (sym next) rest)))
  unit_lines-Shows (insert ∷ script) li ri (y, ys, f, rest) =
      let (at_r, _, next) = drop-map normalize ri right y ys f in
      subst (Shows normalize li ri (unit_lines left right (insert ∷ script) li ri) (drop li left))
        (sym at_r)
        (inserted (get_or right ri []) (
          unit_lines-Shows script li (suc ri)
            (subst (Edits script (drop li (map normalize left))) (sym next) rest)))

  -- The lines that `diffText` puts out for the script of two lists of lines, for any way of
  -- normalizing a line for the comparison, show both lists from their first line to their last: each
  -- line of either list once, in order and with its number, as deleted, as inserted, or, where
  -- two of them are the same once they are normalized, as the line of the left list.
  pub script_lines-Shows :
      Shows normalize 0 0
        (script_lines left right (myers_diff (map normalize left) (map normalize right)) 0 0)
        left
        right
  script_lines-Shows =
      let ops = myers_diff (map normalize left) (map normalize right) in
      subst (λ lines. Shows normalize 0 0 lines left right)
        (sym (script_lines-unit left right ops 0 0))
        (unit_lines-Shows (spelled_out ops) 0 0
          (myers_diff-Edits (map normalize left) (map normalize right)))
