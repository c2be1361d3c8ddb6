-- ===== src/Diff/Words/Joined.antt =====
-- The word segments of a line, read in order, give the line.
use dev_box.Prelude.{
  ℕ, zero, suc, ◌+◌, ◌≡◌, ◌⊎◌, inl, inr, refl, List, [], ◌∷◌, ◌++◌, none, some, Bool-cases, map,
  take, drop, drop-add, replicate, ap, sym, ◌∙◌, append_assoc, All,
}
use mathlib.Core.Path.{subst}
use dev_box.Text.{Text, is_space}
use dev_box.Diff.Script.{ChangeKind, equal, insert, delete, EditOp, Edits, spelled_out}
use dev_box.Diff.Lines.{DiffLine, WordPart}
use dev_box.Diff.Myers.{myers_diff}
use dev_box.Diff.Myers.Whole.{myers_diff-Edits}
use dev_box.Diff.Words.{
  push_unit, tokenize_words, join, indexes_behind, put_parts, word_parts, is_pair, pair_parts,
  annotate_word_changes,
}

join-push_unit : (c : ℕ) (words : List Text) → join (push_unit c words) ≡ c ∷ join words
unfolding push_unit
join-push_unit c [] = refl
join-push_unit c ([] ∷ words) = refl
join-push_unit c ((d ∷ word) ∷ words) = elim (Bool-cases (is_space c)) [
  | inl h ↦ elim (Bool-cases (is_space d)) [ inl h' ↦ rw (h, h') refl | inr h' ↦ rw (h, h') refl ]
  | inr h ↦ elim (Bool-cases (is_space d)) [ inl h' ↦ rw (h, h') refl | inr h' ↦ rw (h, h') refl ]
]

join-tokenize_words : (s : Text) → join (tokenize_words s) ≡ s
unfolding tokenize_words
join-tokenize_words [] = refl
join-tokenize_words (c ∷ s) =
    join-push_unit c (tokenize_words s) ∙ ap (λ t. c ∷ t) (join-tokenize_words s)

join-take : (n : ℕ) (words : List Text) → join (take n words) ++ join (drop n words) ≡ join words
join-take zero words = refl
join-take (suc n) [] = refl
join-take (suc n) (word ∷ words) =
    append_assoc word (join (take n words)) (join (drop n words))
    ∙ ap (λ t. word ++ t) (join-take n words)

-- One operation taken off a script.
Edits-equal :
    (n : ℕ) (script : List ChangeKind) (xs ys : List Text)
    → Edits (replicate n equal ++ script) xs ys
    → (take n xs ≡ take n ys) × Edits script (drop n xs) (drop n ys)
Edits-equal zero script xs ys edits = (refl, edits)
Edits-equal (suc n) script xs ys (x, xs', ys', e, f, rest) =
    let (same, more) = Edits-equal n script xs' ys' rest in
    (
      ap (take (suc n)) e ∙ ap (λ l. x ∷ l) same ∙ sym (ap (take (suc n)) f),
      subst (λ l. Edits script (drop (suc n) l) (drop (suc n) ys)) (sym e)
          (subst (λ l. Edits script (drop n xs') (drop (suc n) l)) (sym f) more),
    )

Edits-delete :
    (n : ℕ) (script : List ChangeKind) (xs ys : List Text)
    → Edits (replicate n delete ++ script) xs ys
    → Edits script (drop n xs) ys
Edits-delete zero script xs ys edits = edits
Edits-delete (suc n) script xs ys (x, xs', e, rest) =
    subst (λ l. Edits script (drop (suc n) l) ys) (sym e) (Edits-delete n script xs' ys rest)

Edits-insert :
    (n : ℕ) (script : List ChangeKind) (xs ys : List Text)
    → Edits (replicate n insert ++ script) xs ys
    → Edits script xs (drop n ys)
Edits-insert zero script xs ys edits = edits
Edits-insert (suc n) script xs ys (y, ys', e, rest) =
    subst (λ l. Edits script xs (drop (suc n) l)) (sym e) (Edits-insert n script xs ys' rest)

-- The texts of segments in order.
abbrev pub parts_text : List WordPart → Text
parts_text [] = []
parts_text (part ∷ parts) = part.text ++ parts_text parts

module _ (left right : List Text) where
  abbrev Rebuilt : (li ri : ℕ) → List WordPart × List WordPart → Type 0
  Rebuilt li ri (lefts, rights) =
      (parts_text lefts ≡ join (drop li left)) × (parts_text rights ≡ join (drop ri right))

  next_left :
      (n li : ℕ) → join (take n (drop li left)) ++ join (drop (li + n) left) ≡ join (drop li left)
  next_left n li =
      ap (λ l. join (take n (drop li left)) ++ join l) (drop-add li n left)
      ∙ join-take n (drop li left)

  next_right :
      (n ri : ℕ)
      → join (take n (drop ri right)) ++ join (drop (ri + n) right) ≡ join (drop ri right)
  next_right n ri =
      ap (λ l. join (take n (drop ri right)) ++ join l) (drop-add ri n right)
      ∙ join-take n (drop ri right)

  put_parts-Rebuilt :
      (kind : ChangeKind) (n li ri : ℕ) (script : List ChangeKind)
      (rest : List WordPart × List WordPart)
      → Edits (replicate n kind ++ script) (drop li left) (drop ri right)
      → Rebuilt (indexes_behind kind n li ri).0 (indexes_behind kind n li ri).1 rest
      → Rebuilt li ri
          (put_parts kind (join (take n (drop li left))) (join (take n (drop ri right))) rest)
  put_parts-Rebuilt equal n li ri script (lefts, rights) edits (l, r) =
      let (same, _) = Edits-equal n script (drop li left) (drop ri right) edits in
      (
        ap (λ t. join (take n (drop li left)) ++ t) l ∙ next_left n li,
        ap (λ t. join (take n (drop li left)) ++ t) r
            ∙ ap (λ words. join words ++ join (drop (ri + n) right)) same
            ∙ next_right n ri,
      )
  put_parts-Rebuilt delete n li ri script (lefts, rights) edits (l, r) =
      (ap (λ t. join (take n (drop li left)) ++ t) l ∙ next_left n li, r)
  put_parts-Rebuilt insert n li ri script (lefts, rights) edits (l, r) =
      (l, ap (λ t. join (take n (drop ri right)) ++ t) r ∙ next_right n ri)

  Edits-behind :
      (kind : ChangeKind) (n li ri : ℕ) (script : List ChangeKind)
      → Edits (replicate n kind ++ script) (drop li left) (drop ri right)
      → Edits script
          (drop (indexes_behind kind n li ri).0 left)
          (drop (indexes_behind kind n li ri).1 right)
  Edits-behind equal n li ri script edits =
      let (_, more) = Edits-equal n script (drop li left) (drop ri right) edits in
      subst (λ l. Edits script l (drop (ri + n) right)) (sym (drop-add li n left))
        (subst (Edits script (drop n (drop li left))) (sym (drop-add ri n right)) more)
  Edits-behind delete n li ri script edits =
      subst (λ l. Edits script l (drop ri right)) (sym (drop-add li n left))
        (Edits-delete n script (drop li left) (drop ri right) edits)
  Edits-behind insert n li ri script edits =
      subst (Edits script (drop li left)) (sym (drop-add ri n right))
        (Edits-insert n script (drop li left) (drop ri right) edits)

  word_parts-Rebuilt :
      (ops : List EditOp) (li ri : ℕ)
      → Edits (spelled_out ops) (drop li left) (drop ri right)
      → Rebuilt li ri (word_parts left right ops li ri)
  unfolding word_parts spelled_out
  word_parts-Rebuilt [] li ri (e, f) = (sym (ap join e), sym (ap join f))
  word_parts-Rebuilt (op ∷ ops) li ri edits =
      let (li', ri') = indexes_behind op.kind op.count li ri in
      put_parts-Rebuilt op.kind op.count li ri (spelled_out ops) (word_parts left right ops li' ri')
        edits
        (word_parts-Rebuilt ops li' ri'
          (Edits-behind op.kind op.count li ri (spelled_out ops) edits))

-- The segments of a pair give its two lines.
pair_parts-text :
    (left right : Text)
    → (parts_text (pair_parts left right).0 ≡ left) × (parts_text (pair_parts left right).1 ≡ right)
unfolding pair_parts
pair_parts-text left right =
    let left_words = tokenize_words left in
    let right_words = tokenize_words right in
    let (l, r) =
      word_parts-Rebuilt left_words right_words (myers_diff left_words right_words) 0 0
        (myers_diff-Edits left_words right_words) in
    (l ∙ join-tokenize_words left, r ∙ join-tokenize_words right)

-- A line has no segments, or segments that give its text.
abbrev pub WordsJoin : DiffLine → Type 0
WordsJoin line =
    (line.words ≡ none)
    ⊎ ((parts : List WordPart) × (line.words ≡ some parts) × (parts_text parts ≡ line.text))

-- A line less its segments.
abbrev pub less_words : DiffLine → DiffLine
less_words line = record {
  kind = line.kind;
  left_number = line.left_number;
  right_number = line.right_number;
  text = line.text;
  words = none;
}

-- For all lines, `annotateWordChanges` changes nothing but the segments, and when no line has segments
-- before, then behind it each line either has none, or has segments whose texts, one after the other,
-- are the text of the line.
pub annotate_word_changes-WordsJoin :
    (lines : List DiffLine)
    → All (λ line. line.words ≡ none) lines
    → (map less_words (annotate_word_changes lines) ≡ map less_words lines)
      × All WordsJoin (annotate_word_changes lines)
unfolding annotate_word_changes
annotate_word_changes-WordsJoin [] h = (refl, tt)
annotate_word_changes-WordsJoin (line ∷ []) (h, _) = (refl, (inl h, tt))
annotate_word_changes-WordsJoin (left ∷ right ∷ lines) (h, (h', hs)) =
    let (l, r) = pair_parts-text left.text right.text in
    elim (Bool-cases (is_pair left right lines)) [
      | inl pair ↦
          let (same, joined) = annotate_word_changes-WordsJoin lines hs in
          rw pair (
            (
              ap (λ more. less_words left ∷ less_words right ∷ more) same,
              (inr (_, refl, l), (inr (_, refl, r), joined)),
            ))
      | inr alone ↦
          let (same, joined) = annotate_word_changes-WordsJoin (right ∷ lines) (h', hs) in
          rw alone ((ap (λ more. less_words left ∷ more) same, (inl h, joined)))
    ]
