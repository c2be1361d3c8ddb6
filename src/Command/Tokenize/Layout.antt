-- ===== src/Command/Tokenize/Layout.antt =====
-- The tokens lie in the input, in order and apart only by white space.
pub mod Forward
use dev_box.Prelude.{
  length-reverse, ℕ, zero, suc, ◌+◌, ◌≤◌, ◌≡◌, ◌≢◌, refl, List, [], ◌∷◌, ◌++◌, arith, Bool,
  Bool-cases, List-cases, Option-cases, true, false, inl, inr, length, ap, ◌∙◌, sym, append_assoc,
  append-nil, ◌==◌, length-append, reverse, All, All-append, Option, none, some, drop, some_inj,
  ◌||◌, ◌&&◌, not,
}
use mathlib.Core.List.{reverse-append, reverse-reverse, reverse-cons}
use mathlib.Core.Path.{subst}
use dev_box.Text.{Text, codes, is_space, starts_with}
use dev_box.Command.Segments.{TokenKind, word, operator, redirection, comment, Token}
use dev_box.Command.Tokenize.{
  Word, read_word, breaks, no_word, match_prefix, operators, redirections, is_some, token_at,
  push_redirection, is_descriptor, after_digit, is_number, is_word, Position, move_past, push_word,
  next_token, tokenize_loop, tokenize, is_blank, starts_comment, is_assignment,
}
use dev_box.Command.Tokenize.Words.{read_word_lem}
use dev_box.Text.Until.{until-append, length-until}
use dev_box.Text.Split.{until}

abbrev pub IsSpace : ℕ → Type 0
IsSpace c = is_space c ≡ true

-- The tokens, newest first, in the text before a position, nearest first.
unfoldable pub Laid : Text → List Token → Type 0
Laid before [] = All IsSpace before
Laid before (t ∷ tokens) =
    (gap : Text) × (earlier : Text) × (before ≡ gap ++ (reverse t.raw ++ earlier))
    × All IsSpace gap
    × (t.start ≡ length earlier)
    × (t.end ≡ t.start + length t.raw)
    × Laid earlier tokens

-- A space is no token.
Laid-space :
    (c : ℕ) (before : Text) (tokens : List Token)
    → IsSpace c
    → Laid before tokens
    → Laid (c ∷ before) tokens
unfolding Laid
Laid-space c before [] h laid = (h, laid)
Laid-space c before (t ∷ tokens) h (gap, earlier, e, spaces, first, last, laid) =
    (c ∷ gap, earlier, ap (λ s. c ∷ s) e, (h, spaces), first, last, laid)

Laid-push :
    (kind : TokenKind) (raw value before : Text) (quoted : Bool) (tokens : List Token)
    → Laid before tokens
    → Laid (reverse raw ++ before) (token_at kind raw value quoted (length before) ∷ tokens)
unfolding Laid
Laid-push kind raw value before quoted tokens laid = ([], before, refl, tt, refl, refl, laid)

-- A token that ends at the position has nothing behind it.
no_gap :
    (gap raw earlier before : Text)
    → before ≡ gap ++ (raw ++ earlier)
    → length raw + length earlier ≡ length before
    → before ≡ raw ++ earlier
no_gap [] raw earlier before e h = e
no_gap (c ∷ gap) raw earlier before e h = absurd (
    omega (
      arith,
      h,
      ap length e,
      length-append {0} gap (raw ++ earlier),
      length-append {0} raw earlier,
    ))

ends_at : (prev : Token) (i : ℕ) → is_descriptor prev i ≡ true → prev.end ≡ i
unfolding is_descriptor
ends_at prev i h = ground arith

Laid-join :
    (before found : Text) (prev : Token) (tokens : List Token)
    → is_descriptor prev (length before) ≡ true
    → Laid before (prev ∷ tokens)
    → Laid
        (reverse found ++ before)
        (token_at redirection (prev.raw ++ found) (prev.raw ++ found) false prev.start ∷ tokens)
unfolding Laid
Laid-join before found prev tokens h (gap, earlier, e, spaces, first, last, laid) =
    let ends = ends_at prev (length before) h in
    let tight =
      no_gap gap (reverse prev.raw) earlier before e
        (omega (arith, ends, first, last, length-reverse {0} prev.raw)) in
    (
      [],
      earlier,
      ap (λ t. reverse found ++ t) tight
          ∙ sym (append_assoc (reverse found) (reverse prev.raw) earlier)
          ∙ ap (λ t. t ++ earlier) (sym (reverse-append prev.raw found)),
      tt,
      first,
      refl,
      laid,
    )

push_redirection-Laid :
    (before found : Text) (tokens : List Token)
    → Laid before tokens
    → Laid (reverse found ++ before) (push_redirection before found tokens)
unfolding push_redirection
push_redirection-Laid before found [] laid = Laid-push redirection found found before false [] laid
push_redirection-Laid before found (prev ∷ tokens) laid =
    elim (Bool-cases (
      after_digit before
      && not (starts_with found (codes "&"))
      && is_descriptor prev (length before))) [
        | inl h ↦ rw h (Laid-join before found prev tokens (ground arith) laid)
        | inr h ↦ rw h (Laid-push redirection found found before false (prev ∷ tokens) laid)
      ]

-- What a round makes of the input at a position.
unfoldable pub Advances : Text → ℕ → Text → Position → Type 0
Advances before c s p =
    (reverse p.before ++ p.rest ≡ reverse before ++ c ∷ s)
    × (length p.rest ≤ length s)
    × Laid p.before p.tokens

skip-Advances :
    (before : Text) (c : ℕ) (s : Text) (tokens : List Token)
    → IsSpace c
    → Laid before tokens
    → Advances before c s (record { before = c ∷ before; rest = s; tokens = tokens })
unfolding Advances
skip-Advances before c s tokens space laid = (
  ap (λ t. t ++ s) (reverse-cons c before) ∙ append_assoc (reverse before) (c ∷ []) s,
  omega arith,
  Laid-space c before tokens space laid,
)

move_past-Advances :
    (before : Text) (c : ℕ) (s taken rest : Text) (tokens : List Token)
    → taken ++ rest ≡ c ∷ s
    → length rest ≤ length s
    → Laid (reverse taken ++ before) tokens
    → Advances before c s (move_past taken rest tokens before)
unfolding Advances
move_past-Advances before c s taken rest tokens e shorter laid = (
  ap (λ t. t ++ rest)
        (reverse-append (reverse taken) before
          ∙ ap (λ t. reverse before ++ t) (reverse-reverse taken))
      ∙ append_assoc (reverse before) taken rest
      ∙ ap (λ t. reverse before ++ t) e,
  shorter,
  laid,
)

starts_with-drop : (s p : Text) → starts_with s p ≡ true → p ++ drop (length p) s ≡ s
unfolding starts_with
starts_with-drop s [] h = refl
starts_with-drop [] (p ∷ prefix) h = ground arith
starts_with-drop (c ∷ s) (p ∷ prefix) h = ground (arith, starts_with-drop s prefix)

-- A match is a candidate that the rest starts with.
match_prefix_lem :
    (rest : Text) (candidates : List Text) (found : Text)
    → All (λ t. 1 ≤ length t) candidates
    → match_prefix rest candidates ≡ some found
    → (found ++ drop (length found) rest ≡ rest) × (1 ≤ length found)
unfolding match_prefix
match_prefix_lem rest [] found long e = cc
match_prefix_lem rest (t ∷ ts) found (long, longs) e = elim (Bool-cases (starts_with rest t)) [
  | inl h ↦
      let same : t ≡ found = some_inj t found (rw h at e) in
      subst (λ f. (f ++ drop (length f) rest ≡ rest) × (1 ≤ length f)) same
        (starts_with-drop rest t h, long)
  | inr h ↦ match_prefix_lem rest ts found longs (rw h at e)
]

operators-long : All (λ t. 1 ≤ length t) operators
unfolding operators
operators-long = omega arith

redirections-long : All (λ t. 1 ≤ length t) redirections
unfolding redirections
redirections-long = omega arith

match-Advances :
    (before : Text) (c : ℕ) (s : Text) (candidates : List Text) (found : Text) (tokens : List Token)
    → All (λ t. 1 ≤ length t) candidates
    → match_prefix (c ∷ s) candidates ≡ some found
    → Laid (reverse found ++ before) tokens
    → Advances before c s (move_past found (drop (length found) (c ∷ s)) tokens before)
match-Advances before c s candidates found tokens long e laid =
    let (whole, some_unit) = match_prefix_lem (c ∷ s) candidates found long e in
    move_past-Advances before c s found (drop (length found) (c ∷ s)) tokens whole
      (omega
        (arith, ap length whole, some_unit, length-append {0} found (drop (length found) (c ∷ s))))
      laid

-- No word at a position where nothing else was found: a space.
or_false : (b : Bool) → (b || false || false) ≡ true → b ≡ true
or_false true h = refl
or_false false h = h

empty-IsSpace :
    (c : ℕ) (s : Text)
    → match_prefix (c ∷ s) redirections ≡ none
    → match_prefix (c ∷ s) operators ≡ none
    → breaks (c ∷ s) ≡ true
    → IsSpace c
unfolding breaks
empty-IsSpace c s no_redirection no_operator h =
    let h' = rw (no_redirection, no_operator) at h in or_false (is_space c) h'

push_word-Advances :
    (before : Text) (c : ℕ) (s : Text) (tokens : List Token)
    → match_prefix (c ∷ s) redirections ≡ none
    → match_prefix (c ∷ s) operators ≡ none
    → Laid before tokens
    → Advances before c s (push_word before c s tokens)
unfolding push_word
push_word-Advances before c s tokens no_redirection no_operator laid =
    let w = read_word (length (c ∷ s)) (no_word (c ∷ s)) (c ∷ s) in
    let (whole, stop, shorter) =
      read_word_lem (length (c ∷ s)) (no_word (c ∷ s)) (c ∷ s) refl (omega arith) in
    elim (List-cases w.raw) [
      | inl e ↦
          let rest : w.rest ≡ c ∷ s = ap (λ t. t ++ w.rest) (sym e) ∙ whole in
          rw (e, push_word)
            (skip-Advances before c s tokens
              (empty-IsSpace c s no_redirection no_operator
                (subst (λ t. breaks t ≡ true) rest stop))
              laid)
      | inr (d, raw, e) ↦
          rw (e, push_word)
            (move_past-Advances before c s w.raw w.rest _ whole
              (omega (arith, ap length whole, ap length e, length-append {0} w.raw w.rest))
              (Laid-push _ w.raw w.value before w.quoted tokens laid))
    ]

is_blank-IsSpace : (c : ℕ) → is_blank c ≡ true → IsSpace c
unfolding is_space
is_blank-IsSpace c h = ground arith

not_newline : (before : Text) (c : ℕ) → starts_comment before c ≡ true → (c == b'\n') ≡ false
not_newline [] c h = ground arith
not_newline (p ∷ _) c h = ground arith

length-comment :
    (before : Text) (c : ℕ) (s : Text)
    → starts_comment before c ≡ true
    → length (until b'\n' (c ∷ s)).1 ≤ length s
unfolding until
length-comment before c s h =
    let other : (c == b'\n') ≡ false = not_newline before c h in rw other (length-until b'\n' s)

-- A text and its rest, turned round.
turned : (before rest : Text) → reverse rest ++ before ≡ reverse (reverse before ++ rest)
turned before rest =
    ap (λ t. reverse rest ++ t) (sym (reverse-reverse before))
    ∙ sym (reverse-append (reverse before) rest)

Laid-nil : Laid [] []
unfolding Laid
Laid-nil = tt

next_token-Advances :
    (before : Text) (c : ℕ) (s : Text) (tokens : List Token)
    → Laid before tokens
    → Advances before c s (next_token before c s tokens)
unfolding next_token
next_token-Advances before c s tokens laid = elim (Bool-cases (is_blank c)) [
  | inl blank ↦ rw blank (skip-Advances before c s tokens (is_blank-IsSpace c blank) laid)
  | inr other ↦ elim (Bool-cases (starts_comment before c)) [
    | inl h ↦
        rw (other, h)
          (move_past-Advances before c s (until b'\n' (c ∷ s)).0 (until b'\n' (c ∷ s)).1 _
            (until-append b'\n' (c ∷ s)) (length-comment before c s h)
            (Laid-push comment (until b'\n' (c ∷ s)).0 _ before false tokens laid))
    | inr h ↦ elim (Option-cases (match_prefix (c ∷ s) redirections)) [
      | inr (found, e) ↦
          rw (other, h, e)
            (match-Advances before c s redirections found _ redirections-long e
              (push_redirection-Laid before found tokens laid))
      | inl no_redirection ↦ elim (Option-cases (match_prefix (c ∷ s) operators)) [
        | inr (found, e) ↦
            rw (other, h, no_redirection, e)
              (match-Advances before c s operators found _ operators-long e
                (Laid-push operator found found before false tokens laid))
        | inl no_operator ↦
            rw (other, h, no_redirection, no_operator)
              (push_word-Advances before c s tokens no_redirection no_operator laid)
      ]
    ]
  ]
]

-- The loop reads the whole input.
tokenize_loop-Laid :
    (fuel : ℕ) (before rest : Text) (tokens : List Token)
    → length rest ≤ fuel
    → Laid before tokens
    → let p = tokenize_loop fuel (record { before = before; rest = rest; tokens = tokens }) in
      Laid (reverse rest ++ before) p.tokens
unfolding tokenize_loop Advances
tokenize_loop-Laid zero before [] tokens enough laid = laid
tokenize_loop-Laid zero before (c ∷ s) tokens enough laid = absurd (omega arith)
tokenize_loop-Laid (suc fuel) before [] tokens enough laid = laid
tokenize_loop-Laid (suc fuel) before (c ∷ s) tokens enough laid =
    let p = next_token before c s tokens in
    let (whole, shorter, laid') = next_token-Advances before c s tokens laid in
    let done =
      tokenize_loop-Laid fuel p.before p.rest p.tokens (omega (arith, shorter, enough)) laid' in
    let same : reverse p.rest ++ p.before ≡ reverse (c ∷ s) ++ before =
      turned p.before p.rest ∙ ap reverse whole ∙ sym (turned before (c ∷ s)) in
    subst (λ t. Laid t (tokenize_loop fuel p).tokens) same done

-- The tokens of an input, newest first, lie in it.
pub tokenize-Laid : (input : Text) → Laid (reverse input) (reverse (tokenize input))
unfolding tokenize
tokenize-Laid input =
    let p = tokenize_loop (length input) (record { before = []; rest = input; tokens = [] }) in
    subst (Laid (reverse input)) (sym (reverse-reverse p.tokens)) (
      subst (λ t. Laid t p.tokens) (append-nil (reverse input))
        (tokenize_loop-Laid (length input) [] input [] (omega arith) Laid-nil))
