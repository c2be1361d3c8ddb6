-- ===== src/Command/Tokenize/Words.antt =====
-- A word takes what it reads, as it is written, and stops only at a break.
use dev_box.Prelude.{
  Bool, ℕ, zero, suc, ◌≤◌, ◌≡◌, refl, [], ◌∷◌, ◌++◌, arith, Bool-cases, List-cases, true, false,
  inl, inr, length, ap, ◌∙◌, sym, append_assoc, ◌==◌, length-append,
}
use mathlib.Core.Path.{subst}
use dev_box.Text.{Text}
use dev_box.Text.Split.{until}
use dev_box.Text.Until.{until-append, until-stop, length-until}
use dev_box.Command.Tokenize.{
  read_double, Word, extend, read_single, read_unit, read_word, breaks, no_word,
}

-- The text read and the text left make up the text.
read_double-append : (s : Text) → (read_double s).0 ++ (read_double s).2 ≡ s
unfolding read_double
read_double-append [] = refl
read_double-append (c ∷ []) = elim (Bool-cases (c == b'"')) [
  | inl h ↦ rw h refl
  | inr h ↦ rw h refl
]
read_double-append (c ∷ d ∷ s) = elim (Bool-cases (c == b'"')) [
  | inl h ↦ rw h refl
  | inr h ↦ elim (Bool-cases (c == b'\\')) [
    | inl e ↦ rw (h, e) (ap (λ t. c ∷ d ∷ t) (read_double-append s))
    | inr e ↦ rw (h, e) (ap (λ t. c ∷ t) (read_double-append (d ∷ s)))
  ]
]

-- A round took `c` and perhaps more of `s`.
unfoldable pub Takes : Word → ℕ → Text → Word → Type 0
Takes w c s w' = (w'.raw ++ w'.rest ≡ w.raw ++ c ∷ s) × (length w'.rest ≤ length s)

extend-Takes :
    (w : Word) (raw value : Text) (quoted : Bool) (rest s : Text) (c : ℕ)
    → c ∷ raw ++ rest ≡ c ∷ s
    → length rest ≤ length s
    → Takes w c s (extend w (c ∷ raw) value quoted rest)
unfolding Takes
extend-Takes w raw value quoted rest s c e h =
    (append_assoc w.raw (c ∷ raw) rest ∙ ap (λ t. w.raw ++ t) e, h)

read_single-Takes : (w : Word) (s : Text) → Takes w b'\'' s (read_single w s)
unfolding read_single
read_single-Takes w s =
    let whole = until-append b'\'' s in
    let shorter = length-until b'\'' s in
    elim (List-cases (until b'\'' s).1) [
      | inl e ↦
          let whole' : (until b'\'' s).0 ++ [] ≡ s = rw e at whole in
          rw (e, read_single)
            (extend-Takes w (until b'\'' s).0 (until b'\'' s).0 true [] s b'\''
              (ap (λ t. b'\'' ∷ t) whole') (omega arith))
      | inr (q, rest, e) ↦
          let mark = until-stop b'\'' s q rest e in
          let whole' : (until b'\'' s).0 ++ q ∷ rest ≡ s = rw e at whole in
          let joined : ((until b'\'' s).0 ++ b'\'' ∷ []) ++ rest ≡ s =
            append_assoc (until b'\'' s).0 (b'\'' ∷ []) rest
            ∙ ap (λ m. (until b'\'' s).0 ++ m ∷ rest) (sym mark)
            ∙ whole' in
          rw (e, read_single)
            (extend-Takes w ((until b'\'' s).0 ++ b'\'' ∷ []) (until b'\'' s).0 true rest s b'\''
              (ap (λ t. b'\'' ∷ t) joined) (omega (arith, shorter, ap length e)))
    ]

length-read_double : (s : Text) → length (read_double s).2 ≤ length s
length-read_double s =
    omega (
      arith,
      ap length (read_double-append s),
      length-append {0} (read_double s).0 (read_double s).2,
    )

-- A round at a unit that is no quote.
plain_unit :
    (w : Word) (c : ℕ) (s : Text)
    → (c == b'\'') ≡ false
    → (c == b'"') ≡ false
    → Takes w c s (read_unit w c s)
unfolding read_unit
plain_unit w c [] h h' = rw (h, h') (extend-Takes w [] (c ∷ []) false [] [] c refl (omega arith))
plain_unit w c (d ∷ s) h h' = elim (Bool-cases (c == b'\\')) [
  | inl e ↦ rw (h, h', e) (extend-Takes w (d ∷ []) (d ∷ []) false s (d ∷ s) c refl (omega arith))
  | inr e ↦ rw (h, h', e) (extend-Takes w [] (c ∷ []) false (d ∷ s) (d ∷ s) c refl (omega arith))
]

read_unit-Takes : (w : Word) (c : ℕ) (s : Text) → Takes w c s (read_unit w c s)
unfolding read_unit
read_unit-Takes w c s = elim (Bool-cases (c == b'\'')) [
  | inl h ↦
      let quote : b'\'' ≡ c = ground arith in
      rw h (subst (λ q. Takes w q s (read_single w s)) quote (read_single-Takes w s))
  | inr h ↦ elim (Bool-cases (c == b'"')) [
    | inl h' ↦
        rw (h, h')
          (extend-Takes w (read_double s).0 (read_double s).1 true (read_double s).2 s c
            (ap (λ t. c ∷ t) (read_double-append s)) (length-read_double s))
    | inr h' ↦ plain_unit w c s h h'
  ]
]

read_unit_lem :
    (w : Word) (c : ℕ) (s : Text)
    → ((read_unit w c s).raw ++ (read_unit w c s).rest ≡ w.raw ++ c ∷ s)
      × (length (read_unit w c s).rest ≤ length s)
unfolding Takes
read_unit_lem w c s = read_unit-Takes w c s

breaks-nil : breaks [] ≡ true
unfolding breaks
breaks-nil = refl

-- Each round goes on where the last one stopped, and the last one stops at a break.
pub read_word_lem :
    (fuel : ℕ) (w : Word) (s : Text)
    → w.rest ≡ s
    → length s ≤ fuel
    → ((read_word fuel w s).raw ++ (read_word fuel w s).rest ≡ w.raw ++ s)
      × (breaks (read_word fuel w s).rest ≡ true)
      × (length (read_word fuel w s).rest ≤ length s)
unfolding read_word
read_word_lem fuel w [] e h =
    (ap (λ t. w.raw ++ t) e, ap breaks e ∙ breaks-nil, omega (arith, ap length e))
read_word_lem zero w (c ∷ s) e h = absurd (omega arith)
read_word_lem (suc fuel) w (c ∷ s) e h = elim (Bool-cases (breaks (c ∷ s))) [
  | inl stop ↦ rw stop ((ap (λ t. w.raw ++ t) e, ap breaks e ∙ stop, omega (arith, ap length e)))
  | inr go ↦
      let next = read_unit w c s in
      let (whole, shorter) = read_unit_lem w c s in
      let (whole', stop, shorter') =
        read_word_lem fuel next next.rest refl (omega (arith, shorter, h)) in
      rw go ((whole' ∙ whole, stop, omega (arith, shorter, shorter')))
]

-- The word loop ends by itself, at the end of the input or where a space, an operator or a
-- redirection begins, and the word's raw text is what it has read.
pub read_word-breaks :
    (s : Text)
    → let w = read_word (length s) (no_word s) s in (w.raw ++ w.rest ≡ s) × (breaks w.rest ≡ true)
read_word-breaks s =
    let (whole, stop, _) = read_word_lem (length s) (no_word s) s refl (omega arith) in
    (whole, stop)
