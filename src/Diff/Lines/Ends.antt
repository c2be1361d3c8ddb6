-- ===== src/Diff/Lines/Ends.antt =====
-- What `splitLines` makes of a text.
use dev_box.Prelude.{
  ℕ, ◌≡◌, ◌≢◌, ◌⊎◌, refl, true, false, List, [], ◌∷◌, inl, inr, arith, ◌==◌, Bool-cases, ap, sym,
  ◌∙◌,
}
use mathlib.Core.Path.{subst}
use dev_box.Text.{Text}
use dev_box.Text.Split.{split, onto_head}
use dev_box.Diff.Lines.{unify_ends, pop_empty, split_lines}

-- A text does not go on with a line feed.
abbrev pub NoFeed : Text → Type 0
NoFeed [] = Unit
NoFeed (c ∷ _) = c ≢ 10

-- The lines of a text: each ends at a line feed, at a carriage return with a line feed, at a carriage
-- return alone, or at the end of the text, which ends no line where nothing stands behind the last
-- line end.
pub data HasLines : Text → List Text → Type 0 where
  finished : HasLines [] []
  last_unit : (c : ℕ) → c ≢ 10 → c ≢ 13 → HasLines (c ∷ []) ((c ∷ []) ∷ [])
  unit :
      {s line : Text} {lines : List Text} (c : ℕ)
      → c ≢ 10
      → c ≢ 13
      → HasLines s (line ∷ lines)
      → HasLines (c ∷ s) ((c ∷ line) ∷ lines)
  feed : {s : Text} {lines : List Text} → HasLines s lines → HasLines (10 ∷ s) ([] ∷ lines)
  both : {s : Text} {lines : List Text} → HasLines s lines → HasLines (13 ∷ 10 ∷ s) ([] ∷ lines)
  return_alone :
      {s : Text} {lines : List Text} → NoFeed s → HasLines s lines → HasLines (13 ∷ s) ([] ∷ lines)

split-nonempty : (s : Text) → (part : Text) × (parts : List Text) × (split 10 s ≡ part ∷ parts)
unfolding split
split-nonempty [] = ([], [], refl)
split-nonempty (c ∷ s) =
    let (part, parts, e) = split-nonempty s in
    elim (Bool-cases (c == 10)) [
      | inl h ↦ rw h ([], split 10 s, refl)
      | inr h ↦ rw (h, e) (c ∷ part, parts, refl)
    ]

lines_of : Text → List Text
unfolding split unify_ends
lines_of s = pop_empty (split 10 (unify_ends false s))

-- Behind a line end, an empty line stands before the others.
pop_empty-feed : (s : Text) → pop_empty ([] ∷ split 10 s) ≡ [] ∷ pop_empty (split 10 s)
pop_empty-feed s =
    let (part, parts, e) = split-nonempty s in
    ap (λ l. pop_empty ([] ∷ l)) e ∙ ap (λ l. [] ∷ pop_empty l) (sym e)

unify_ends-after : (s : Text) → NoFeed s → unify_ends true s ≡ unify_ends false s
unfolding unify_ends
unify_ends-after [] h = refl
unify_ends-after (c ∷ s) h = let other : (c == 10) ≡ false = ground (arith, h) in rw other refl

pop_empty-cons :
    (c : ℕ) (part : Text) (parts : List Text)
    → (pop_empty (part ∷ parts) ≡ [])
      ⊎ ((line : Text) × (lines : List Text) × (pop_empty (part ∷ parts) ≡ line ∷ lines)
          × (pop_empty ((c ∷ part) ∷ parts) ≡ (c ∷ line) ∷ lines))
pop_empty-cons c [] [] = inl refl
pop_empty-cons c (d ∷ part) [] = inr (d ∷ part, [], refl, refl)
pop_empty-cons c [] (next ∷ parts) = inr ([], pop_empty (next ∷ parts), refl, refl)
pop_empty-cons c (d ∷ part) (next ∷ parts) = inr (d ∷ part, pop_empty (next ∷ parts), refl, refl)

no_lines : (c : ℕ) (s : Text) (lines : List Text) → HasLines (c ∷ s) lines → lines ≢ []
no_lines c s lines (last_unit _ _ _) e = ground (arith, e)
no_lines c s lines (unit _ _ _ _) e = ground (arith, e)
no_lines c s lines (feed _) e = ground (arith, e)
no_lines c s lines (both _) e = ground (arith, e)
no_lines c s lines (return_alone _ _) e = ground (arith, e)

at_unit :
    (c d : ℕ) (s : Text)
    → c ≢ 10
    → c ≢ 13
    → HasLines (d ∷ s) (lines_of (d ∷ s))
    → HasLines (c ∷ d ∷ s) (lines_of (c ∷ d ∷ s))
unfolding lines_of split
at_unit c d s plain plain' lined =
    let test : (c == 13) ≡ false = ground (arith, plain') in
    let test' : (c == 10) ≡ false = ground (arith, plain) in
    let (part, parts, e) = split-nonempty (unify_ends false (d ∷ s)) in
    let whole : lines_of (c ∷ d ∷ s) ≡ pop_empty ((c ∷ part) ∷ parts) =
      unfold unify_ends in rw (test, test') (ap (λ l. pop_empty (onto_head c l)) e) in
    elim (pop_empty-cons c part parts) [
      | inl none' ↦ absurd (no_lines d s _ lined (ap pop_empty e ∙ none'))
      | inr (line, lines, at_d, at_c) ↦
          subst (HasLines (c ∷ d ∷ s)) (sym (whole ∙ at_c))
            (unit c plain plain' (subst (HasLines (d ∷ s)) (ap pop_empty e ∙ at_d) lined))
    ]

at_feed : (s : Text) → HasLines s (lines_of s) → HasLines (10 ∷ s) (lines_of (10 ∷ s))
unfolding lines_of split unify_ends
at_feed s lined = subst (HasLines (10 ∷ s)) (sym (pop_empty-feed (unify_ends false s))) (feed lined)

at_both : (s : Text) → HasLines s (lines_of s) → HasLines (13 ∷ 10 ∷ s) (lines_of (13 ∷ 10 ∷ s))
unfolding lines_of split unify_ends
at_both s lined =
    subst (HasLines (13 ∷ 10 ∷ s)) (sym (pop_empty-feed (unify_ends false s))) (both lined)

at_return : (s : Text) → NoFeed s → HasLines s (lines_of s) → HasLines (13 ∷ s) (lines_of (13 ∷ s))
unfolding lines_of split
at_return s lone lined =
    let whole : lines_of (13 ∷ s) ≡ [] ∷ lines_of s =
      unfold unify_ends in
      (pop_empty-feed (unify_ends true s)
        ∙ ap (λ t. [] ∷ pop_empty (split 10 t)) (unify_ends-after s lone)) in
    subst (HasLines (13 ∷ s)) (sym whole) (return_alone lone lined)

lines_of-HasLines : (s : Text) → HasLines s (lines_of s)
unfolding lines_of split unify_ends
lines_of-HasLines [] = finished
lines_of-HasLines (c ∷ []) = elim (Bool-cases (c == 13)) [
  | inl h ↦
      let e : c ≡ 13 = ground arith in
      subst (λ k. HasLines (k ∷ []) (lines_of (k ∷ []))) (sym e) (return_alone tt finished)
  | inr h ↦ elim (Bool-cases (c == 10)) [
    | inl h' ↦
        let e : c ≡ 10 = ground arith in
        subst (λ k. HasLines (k ∷ []) (lines_of (k ∷ []))) (sym e) (feed finished)
    | inr h' ↦ rw (h, h') (last_unit c (ground arith) (ground arith))
  ]
]
lines_of-HasLines (c ∷ d ∷ s) =
    let next = lines_of-HasLines (d ∷ s) in
    let behind = lines_of-HasLines s in
    elim (Bool-cases (c == 13)) [
      | inl h ↦
          let e : c ≡ 13 = ground arith in
          subst (λ k. HasLines (k ∷ d ∷ s) (lines_of (k ∷ d ∷ s))) (sym e)
            (elim (Bool-cases (d == 10)) [
              | inl h' ↦
                  let e' : d ≡ 10 = ground arith in
                  subst (λ k. HasLines (13 ∷ k ∷ s) (lines_of (13 ∷ k ∷ s))) (sym e')
                    (at_both s behind)
              | inr h' ↦ at_return (d ∷ s) (ground arith) next
            ])
      | inr h ↦ elim (Bool-cases (c == 10)) [
        | inl h' ↦
            let e : c ≡ 10 = ground arith in
            subst (λ k. HasLines (k ∷ d ∷ s) (lines_of (k ∷ d ∷ s))) (sym e) (at_feed (d ∷ s) next)
        | inr h' ↦ at_unit c d s (ground arith) (ground arith) next
      ]
    ]

pub split_lines-HasLines : (s : Text) → HasLines s (split_lines s)
unfolding split_lines lines_of
split_lines-HasLines [] = finished
split_lines-HasLines (c ∷ s) = lines_of-HasLines (c ∷ s)
