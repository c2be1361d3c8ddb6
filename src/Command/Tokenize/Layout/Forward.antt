-- ===== src/Command/Tokenize/Layout/Forward.antt =====
-- The same read from the left.
use dev_box.Prelude.{
  length-reverse, ℕ, ◌+◌, ◌≡◌, refl, List, [], ◌∷◌, ◌++◌, arith, length, ap, ◌∙◌, sym, append_assoc,
  append-nil, length-append, reverse, All, All-append,
}
use mathlib.Core.List.{reverse-append, reverse-reverse, reverse-cons}
use mathlib.Core.Path.{subst}
use dev_box.Text.{Text}
use dev_box.Command.Segments.{Token}
use dev_box.Command.Tokenize.{tokenize}
use dev_box.Command.Tokenize.Layout.{IsSpace, Laid, tokenize-Laid}

-- From position `i` on, a text is these tokens with white space around them, each at its bounds.
abbrev pub Covers : ℕ → List Token → Text → Type 0
Covers i [] text = All IsSpace text
Covers i (t ∷ tokens) text =
    (gap : Text) × (after : Text) × (text ≡ gap ++ (t.raw ++ after))
    × All IsSpace gap
    × (t.start ≡ i + length gap)
    × (t.end ≡ t.start + length t.raw)
    × Covers t.end tokens after

Covers-gap :
    (i j : ℕ) (gap : Text) (tokens : List Token) (text : Text)
    → All IsSpace gap
    → i + length gap ≡ j
    → Covers j tokens text
    → Covers i tokens (gap ++ text)
Covers-gap i j gap [] text spaces e h = All-append IsSpace gap text spaces h
Covers-gap i j gap (t ∷ tokens) text spaces e (gap', after, whole, spaces', first, last, h) = (
  gap ++ gap',
  after,
  ap (λ s. gap ++ s) whole ∙ sym (append_assoc gap gap' (t.raw ++ after)),
  All-append IsSpace gap gap' spaces spaces',
  omega (arith, first, e, length-append {0} gap gap'),
  last,
  h,
)

All-reverse : (s : Text) → All IsSpace s → All IsSpace (reverse s)
All-reverse [] h = tt
All-reverse (c ∷ s) (h, hs) =
    subst (All IsSpace) (sym (reverse-cons c s))
      (All-append IsSpace (reverse s) (c ∷ []) (All-reverse s hs) (h, tt))

-- A text of three parts, turned round before another.
turned_parts :
    (gap raw earlier rest : Text)
    → reverse (gap ++ (reverse raw ++ earlier)) ++ rest
      ≡ reverse earlier ++ (raw ++ (reverse gap ++ rest))
turned_parts gap raw earlier rest =
    ap (λ s. s ++ rest)
      (reverse-append gap (reverse raw ++ earlier)
        ∙ ap (λ s. s ++ reverse gap)
            (reverse-append (reverse raw) earlier
              ∙ ap (λ s. reverse earlier ++ s) (reverse-reverse raw)))
    ∙ append_assoc (reverse earlier ++ raw) (reverse gap) rest
    ∙ append_assoc (reverse earlier) raw (reverse gap ++ rest)

Laid-Covers :
    (tokens : List Token) (before : Text) (later : List Token) (rest : Text)
    → Laid before tokens
    → Covers (length before) later rest
    → Covers 0 (reverse tokens ++ later) (reverse before ++ rest)
unfolding Laid
Laid-Covers [] before later rest spaces h =
    Covers-gap 0 (length before) (reverse before) later rest (All-reverse before spaces)
      (omega (arith, length-reverse {0} before)) h
Laid-Covers (t ∷ tokens) before later rest (gap, earlier, e, spaces, first, last, laid) h =
    let middle =
      Covers-gap t.end (length before) (reverse gap) later rest (All-reverse gap spaces)
        (omega (
          arith,
          first,
          last,
          ap length e,
          length-append {0} gap (reverse t.raw ++ earlier),
          length-append {0} (reverse t.raw) earlier,
          length-reverse {0} gap,
          length-reverse {0} t.raw,
        ))
        h in
    let from_here : Covers (length earlier) (t ∷ later) (t.raw ++ (reverse gap ++ rest)) =
      ([], reverse gap ++ rest, refl, tt, omega (arith, first), last, middle) in
    let all =
      Laid-Covers tokens earlier (t ∷ later) (t.raw ++ (reverse gap ++ rest)) laid from_here in
    let texts = ap (λ s. reverse s ++ rest) e ∙ turned_parts gap t.raw earlier rest in
    let lists =
      ap (λ l. l ++ later) (reverse-cons t tokens) ∙ append_assoc (reverse tokens) (t ∷ []) later in
    subst (λ l. Covers 0 l (reverse before ++ rest)) (sym lists)
      (subst (Covers 0 (reverse tokens ++ t ∷ later)) (sym texts) all)

-- The tokens of a command line are the line, in order: it is their texts, as written, with only
-- white space before, between and behind them, and each token's bounds are where its text stands.
pub tokenize-Covers : (input : Text) → Covers 0 (tokenize input) input
tokenize-Covers input =
    let h = Laid-Covers (reverse (tokenize input)) (reverse input) [] [] (tokenize-Laid input) tt in
    subst (λ l. Covers 0 l input) (append-nil _ ∙ reverse-reverse (tokenize input))
      (subst (Covers 0 (reverse (reverse (tokenize input)) ++ []))
        (append-nil _ ∙ reverse-reverse input) h)
