-- ===== src/Diff/Myers/Whole.antt =====
-- The whole script, with the common beginning and end put back.
use dev_box.Prelude.{
  ℕ, zero, suc, ◌+◌, ◌-◌, ◌≤◌, ◌≡◌, refl, List, [], ◌∷◌, ◌++◌, length, take, reverse, arith,
  Bool-cases, ap, sym, ◌∙◌, Option, none, some, drop, replicate, length-drop, drop-length,
  append-nil, append_assoc, take-append-drop, length-reverse, length-take, inl, inr,
}
use mathlib.Core.Path.{subst}
use mathlib.Core.List.{reverse-append, reverse-reverse}
use dev_box.Text.{Text, text_eq}
use dev_box.Text.Equality.{text_eq_sound}
use dev_box.Diff.Script.{
  ChangeKind, equal, insert, delete, EditOp, Edits, spelled_out, coalesce-spelled_out,
}
use dev_box.Diff.Myers.{Cells, agree, walk_back, middle_script, diff_middle, equal_run, myers_diff}
use dev_box.Diff.Myers.Furthest.{agree-le}
use dev_box.Diff.Myers.Ending.{Found, search-Found}
use dev_box.Diff.Myers.Backtrack.{agree-Edits, walk_back-Edits}

inserted-Edits : (b : List Text) → Edits (replicate (length b) insert) [] b
inserted-Edits [] = (refl, refl)
inserted-Edits (y ∷ b) = (y, b, refl, inserted-Edits b)

deleted-Edits :
    (a b : List Text) (script : List ChangeKind)
    → Edits script [] b
    → Edits (replicate (length a) delete ++ script) a b
deleted-Edits [] b script edits = edits
deleted-Edits (x ∷ a) b script edits = (x, a, refl, deleted-Edits a b script edits)

kept-Edits : (a : List Text) → Edits (replicate (length a) equal) a a
kept-Edits [] = (refl, refl)
kept-Edits (x ∷ a) = (x, a, a, refl, refl, kept-Edits a)

Edits-append :
    (script script' : List ChangeKind) (a b a' b' : List Text)
    → Edits script a b
    → Edits script' a' b'
    → Edits (script ++ script') (a ++ a') (b ++ b')
Edits-append [] script' a b a' b' (e, f) edits =
    subst (λ l. Edits script' (l ++ a') (b ++ b')) (sym e)
      (subst (λ l. Edits script' a' (l ++ b')) (sym f) edits)
Edits-append (equal ∷ script) script' a b a' b' (x, l, r, e, f, rest) edits = (
  x,
  l ++ a',
  r ++ b',
  ap (λ s. s ++ a') e,
  ap (λ s. s ++ b') f,
  Edits-append script script' l r a' b' rest edits,
)
Edits-append (insert ∷ script) script' a b a' b' (y, r, f, rest) edits =
    (y, r ++ b', ap (λ s. s ++ b') f, Edits-append script script' a r a' b' rest edits)
Edits-append (delete ∷ script) script' a b a' b' (x, l, e, rest) edits =
    (x, l ++ a', ap (λ s. s ++ a') e, Edits-append script script' l b a' b' rest edits)

spelled_out-append :
    (ops ops' : List EditOp) → spelled_out (ops ++ ops') ≡ spelled_out ops ++ spelled_out ops'
unfolding spelled_out
spelled_out-append [] ops' = refl
spelled_out-append (op ∷ ops) ops' =
    ap (λ l. replicate op.count op.kind ++ l) (spelled_out-append ops ops')
    ∙ sym (append_assoc (replicate op.count op.kind) (spelled_out ops) (spelled_out ops'))

spelled_out-equal_run : (n : ℕ) → spelled_out (equal_run n) ≡ replicate n equal
unfolding spelled_out
spelled_out-equal_run zero = refl
spelled_out-equal_run (suc n) = append-nil (replicate (suc n) equal)

take-agree : (a b : List Text) → take (agree a b) a ≡ take (agree a b) b
unfolding agree
take-agree [] [] = refl
take-agree [] (y ∷ b) = refl
take-agree (x ∷ a) [] = refl
take-agree (x ∷ a) (y ∷ b) = elim (Bool-cases (text_eq x y)) [
  | inl h ↦
      rw h
        (ap (λ z. z ∷ take (agree a b) a) (text_eq_sound x y h) ∙ ap (λ l. y ∷ l) (take-agree a b))
  | inr h ↦ rw h refl
]

take-append : (xs ys : List Text) → take (length xs) (xs ++ ys) ≡ xs
take-append [] ys = refl
take-append (x ∷ xs) ys = ap (λ l. x ∷ l) (take-append xs ys)

-- A list as what stands before its last items, and these.
split_end :
    (n : ℕ) (xs : List Text)
    → n ≤ length xs
    → xs ≡ take (length xs - n) xs ++ reverse (take n (reverse xs))
split_end n xs le =
    let front : List Text = reverse (drop n (reverse xs)) in
    let back : List Text = reverse (take n (reverse xs)) in
    let parts : xs ≡ front ++ back =
      sym (reverse-reverse xs)
      ∙ ap reverse (sym (take-append-drop n (reverse xs)))
      ∙ reverse-append (take n (reverse xs)) (drop n (reverse xs)) in
    let size : length front ≡ length xs - n =
      length-reverse (drop n (reverse xs))
      ∙ length-drop n (reverse xs)
      ∙ ap (λ k. k - n) (length-reverse xs) in
    let cut : take (length xs - n) xs ≡ front =
      ap (λ k. take k xs) (sym size) ∙ ap (take (length front)) parts ∙ take-append front back in
    parts ∙ ap (λ l. l ++ back) (sym cut)

middle_script-Edits :
    (a b : List Text) (result : Option (ℕ × List Cells))
    → Found a b result
    → Edits (spelled_out (middle_script a b result)) a b
unfolding spelled_out middle_script
middle_script-Edits a b none found = elim found [ ]
middle_script-Edits a b (some (d, trace)) (room, i, round, far, end, traced) =
    subst (λ script. Edits script a b)
      (sym
        (coalesce-spelled_out (walk_back (length a + length b) d trace (length a) (length b) [])))
      (walk_back-Edits a b d trace i (length a) (length b) [] room traced round (sym far)
        (omega (arith, end)) (omega arith) (omega arith) (drop-length a, drop-length b))

diff_middle-Edits : (a b : List Text) → Edits (spelled_out (diff_middle a b)) a b
unfolding diff_middle spelled_out
diff_middle-Edits [] [] = (refl, refl)
diff_middle-Edits [] (y ∷ b) =
    rw (append-nil (replicate (length b) insert)) (inserted-Edits (y ∷ b))
diff_middle-Edits (x ∷ a) [] = deleted-Edits (x ∷ a) [] [] (refl, refl)
diff_middle-Edits (x ∷ a) (y ∷ b) =
    middle_script-Edits (x ∷ a) (y ∷ b) _ (search-Found (x ∷ a) (y ∷ b) (omega arith))

-- A middle between a common beginning and a common end.
between-Edits :
    (a b : List Text) (n : ℕ) (ops : List EditOp)
    → n ≡ agree (reverse a) (reverse b)
    → Edits (spelled_out ops) (take (length a - n) a) (take (length b - n) b)
    → Edits (spelled_out (ops ++ equal_run n)) a b
between-Edits a b n ops same edits =
    let (left, right) = agree-le (reverse a) (reverse b) in
    let end : List Text = reverse (take n (reverse a)) in
    let end' : List Text = reverse (take n (reverse b)) in
    let ends_same : end ≡ end' = ap reverse (
      ap (λ k. take k (reverse a)) same
      ∙ take-agree (reverse a) (reverse b)
      ∙ ap (λ k. take k (reverse b)) (sym same)) in
    let le : n ≤ length a = omega (arith, same, left, length-reverse a) in
    let le' : n ≤ length b = omega (arith, same, right, length-reverse b) in
    let long : length end ≡ n =
      length-reverse (take n (reverse a))
      ∙ length-take n (reverse a)
      ∙ omega (arith, le, length-reverse a) in
    let spelled : spelled_out (ops ++ equal_run n)
        ≡ spelled_out ops ++ replicate (length end) equal =
      spelled_out-append ops (equal_run n)
      ∙ ap (λ l. spelled_out ops ++ l)
          (spelled_out-equal_run n ∙ ap (λ k. replicate k equal) (sym long)) in
    subst (λ script. Edits script a b) (sym spelled)
      (subst (λ l. Edits (spelled_out ops ++ replicate (length end) equal) l b)
        (sym (split_end n a le))
        (subst
          (λ l.
            Edits (spelled_out ops ++ replicate (length end) equal) (take (length a - n) a ++ end)
              l)
          (sym (split_end n b le' ∙ ap (λ l. take (length b - n) b ++ l) (sym ends_same)))
          (Edits-append (spelled_out ops) (replicate (length end) equal) (take (length a - n) a)
            (take (length b - n) b) end end edits (kept-Edits end))))

-- For all lists of lines, the script that `myersDiff` returns, read one operation after the other,
-- turns the first list into the second: it deletes exactly the lines of the first that it does not
-- keep, inserts exactly those of the second that it does not keep, and what it keeps is the same
-- line in both.
pub myers_diff-Edits : (a b : List Text) → Edits (spelled_out (myers_diff a b)) a b
unfolding myers_diff
myers_diff-Edits a b =
    let prefix = agree a b in
    let a' = drop prefix a in
    let b' = drop prefix b in
    let suffix = agree (reverse a') (reverse b') in
    let middle = diff_middle (take (length a' - suffix) a') (take (length b' - suffix) b') in
    let inner =
      between-Edits a' b' suffix middle refl
        (diff_middle-Edits (take (length a' - suffix) a') (take (length b' - suffix) b')) in
    let spelled =
      coalesce-spelled_out (equal_run prefix ++ (middle ++ equal_run suffix))
      ∙ spelled_out-append (equal_run prefix) (middle ++ equal_run suffix)
      ∙ ap (λ l. l ++ spelled_out (middle ++ equal_run suffix)) (spelled_out-equal_run prefix) in
    subst (λ script. Edits script a b) (sym spelled) (agree-Edits prefix a b _ (omega arith) inner)
