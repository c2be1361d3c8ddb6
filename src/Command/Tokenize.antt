-- ===== src/Command/Tokenize.antt =====
-- `tokenize` of apps/web/src/modules/command/tokenize.ts. The input at a position is what stands
-- before it, nearest first, and what is left to read; the tokens found are kept newest first.
pub mod Words
pub mod Layout
use dev_box.Prelude.{
  ℕ, zero, suc, ◌+◌, Bool, true, false, not, ◌&&◌, ◌||◌, List, [], ◌∷◌, ◌++◌, reverse,
  if◌then◌else◌, Option, none, some, length, leb, ◌==◌, drop,
}
use dev_box.Text.{Text, codes, starts_with, is_space, trim_start}
use dev_box.Text.Split.{is_digit, tail, until}
use dev_box.Command.Segments.{TokenKind, word, operator, redirection, assignment, comment, Token}

-- OPERATORS
unfoldable pub operators : List Text
operators =
    codes "&&"
    ∷ codes "||"
    ∷ codes "|&"
    ∷ codes "|"
    ∷ codes ";;"
    ∷ codes ";"
    ∷ codes "&"
    ∷ (b'\n' ∷ [])
    ∷ []

-- REDIRECTIONS
unfoldable pub redirections : List Text
redirections =
    codes "&>>"
    ∷ codes "&>"
    ∷ codes ">>"
    ∷ codes "<<<"
    ∷ codes "<<"
    ∷ codes ">|"
    ∷ codes ">"
    ∷ codes "<"
    ∷ codes "2>>"
    ∷ codes "2>"
    ∷ []

-- The first candidate that the rest of the input starts with.
unfoldable pub match_prefix : Text → List Text → Option Text
unfolding starts_with
match_prefix rest [] = none
match_prefix rest (candidate ∷ candidates) =
    if starts_with rest candidate then some candidate else match_prefix rest candidates

abbrev pub is_some {ℓ} : {A : Type ℓ} → Option A → Bool
is_some none = false
is_some (some _) = true

-- Where a word stops.
unfoldable pub breaks : Text → Bool
unfolding is_space match_prefix operators redirections
breaks [] = true
breaks (c ∷ rest) =
    is_space c
    || is_some (match_prefix (c ∷ rest) operators)
    || is_some (match_prefix (c ∷ rest) redirections)

-- What a double quote encloses: as written, without its escapes, and what is left behind it.
unfoldable pub read_double : Text → Text × Text × Text
read_double [] = ([], [], [])
read_double (c ∷ []) = if c == b'"' then (c ∷ [], [], []) else (c ∷ [], c ∷ [], [])
read_double (c ∷ d ∷ s) =
    let (skip_raw, skip_value, skip_rest) = read_double s in
    let (raw, value, rest) = read_double (d ∷ s) in
    if c == b'"'
    then (c ∷ [], [], d ∷ s)
    else if c == b'\\'
    then (c ∷ d ∷ skip_raw, d ∷ skip_value, skip_rest)
    else (c ∷ raw, c ∷ value, rest)

-- The variables of the word loop.
pub record Word : Type 0 where
  pub raw : Text
  pub value : Text
  pub quoted : Bool
  pub rest : Text

abbrev pub extend : Word → Text → Text → Bool → Text → Word
extend w raw value quoted rest = record {
  raw = w.raw ++ raw;
  value = w.value ++ value;
  quoted = w.quoted || quoted;
  rest = rest;
}

-- Behind an opening single quote.
unfoldable pub read_single : Word → Text → Word
unfolding until
read_single w s =
    let (inner, left) = until b'\'' s in
    elim left [
      | [] ↦ extend w (b'\'' ∷ inner) inner true []
      | _ ∷ rest ↦ extend w (b'\'' ∷ (inner ++ b'\'' ∷ [])) inner true rest
    ]

-- One round of the word loop, at a unit that is no break.
unfoldable pub read_unit : Word → ℕ → Text → Word
unfolding read_single read_double
read_unit w c s =
    let (double_raw, double_value, double_rest) = read_double s in
    if c == b'\''
    then read_single w s
    else if c == b'"'
    then extend w (c ∷ double_raw) double_value true double_rest
    else elim s [
      | [] ↦ extend w (c ∷ []) (c ∷ []) false []
      | d ∷ rest ↦
          if c == b'\\'
          then extend w (c ∷ d ∷ []) (d ∷ []) false rest
          else extend w (c ∷ []) (c ∷ []) false (d ∷ rest)
    ]

-- Each round takes a unit, so the length of the rest is enough fuel.
unfoldable pub read_word : ℕ → Word → Text → Word
unfolding breaks read_unit
read_word fuel w [] = w
read_word zero w (c ∷ s) = w
read_word (suc fuel) w (c ∷ s) =
    let next = read_unit w c s in
    let more = read_word fuel next next.rest in if breaks (c ∷ s) then w else more

abbrev pub is_letter : ℕ → Bool
is_letter c = (leb b'A' c && leb c b'Z') || (leb b'a' c && leb c b'z')

abbrev pub name_then_equals : Text → Bool
name_then_equals [] = false
name_then_equals (c ∷ s) =
    c == b'=' || ((is_letter c || is_digit c || c == b'_') && name_then_equals s)

-- ASSIGNMENT_RE.test(raw)
unfoldable pub is_assignment : Text → Bool
is_assignment [] = false
is_assignment (c ∷ s) = (is_letter c || c == b'_') && name_then_equals s

abbrev pub token_at : TokenKind → Text → Text → Bool → ℕ → Token
token_at kind raw value quoted start = record {
  kind = kind;
  raw = raw;
  value = value;
  quoted = quoted;
  start = start;
  end = start + length raw;
}

-- `/^\d+$/`
abbrev pub all_digits : Text → Bool
all_digits [] = true
all_digits (c ∷ s) = is_digit c && all_digits s

abbrev pub is_number : Text → Bool
is_number [] = false
is_number (c ∷ s) = all_digits (c ∷ s)

abbrev pub is_word : TokenKind → Bool
is_word word = true
is_word _ = false

-- A file descriptor that ends where the redirection begins.
unfoldable pub is_descriptor : Token → ℕ → Bool
is_descriptor token i = is_word token.kind && is_number token.raw && token.end == i

abbrev pub after_digit : Text → Bool
after_digit [] = false
after_digit (c ∷ _) = is_digit c

-- The redirection, joined to the descriptor before it where there is one.
unfoldable pub push_redirection : Text → Text → List Token → List Token
unfolding is_descriptor starts_with
push_redirection before found [] = token_at redirection found found false (length before) ∷ []
push_redirection before found (prev ∷ tokens) =
    let joined = prev.raw ++ found in
    if after_digit before
      && not (starts_with found (codes "&"))
      && is_descriptor prev (length before)
    then token_at redirection joined joined false prev.start ∷ tokens
    else token_at redirection found found false (length before) ∷ prev ∷ tokens

abbrev pub starts_comment : Text → ℕ → Bool
starts_comment [] c = c == b'#'
starts_comment (p ∷ _) c = c == b'#' && is_space p

-- c === ' ' || c === '\t' || c === '\r'
abbrev pub is_blank : ℕ → Bool
is_blank c = c == b' ' || c == b'\t' || c == b'\r'

pub record Position : Type 0 where
  pub before : Text
  pub rest : Text
  pub tokens : List Token

abbrev pub move_past : Text → Text → List Token → Text → Position
move_past taken rest tokens before = record {
  before = reverse taken ++ before;
  rest = rest;
  tokens = tokens;
}

abbrev pub no_word : Text → Word
no_word rest = record { raw = []; value = []; quoted = false; rest = rest }

-- The word at a position, or one unit skipped where there is none.
unfoldable pub push_word : Text → ℕ → Text → List Token → Position
unfolding read_word is_assignment
push_word before c s tokens =
    let w = read_word (length (c ∷ s)) (no_word (c ∷ s)) (c ∷ s) in
    let kind = if not w.quoted && is_assignment w.raw then assignment else word in
    elim w.raw [
      | [] ↦ record { before = c ∷ before; rest = s; tokens = tokens }
      | _ ∷ _ ↦
          move_past w.raw w.rest (token_at kind w.raw w.value w.quoted (length before) ∷ tokens)
            before
    ]

-- One round of `tokenize`, at the unit `c`.
unfoldable pub next_token : Text → ℕ → Text → List Token → Position
unfolding is_space trim_start until match_prefix operators redirections push_redirection push_word
next_token before c s tokens =
    let (line, left) = until b'\n' (c ∷ s) in
    if is_blank c
    then record { before = c ∷ before; rest = s; tokens = tokens }
    else if starts_comment before c
    then move_past line left
        (token_at comment line (trim_start (tail line)) false (length before) ∷ tokens) before
    else elim (match_prefix (c ∷ s) redirections) [
      | some found ↦
          move_past found (drop (length found) (c ∷ s)) (push_redirection before found tokens)
            before
      | none ↦ elim (match_prefix (c ∷ s) operators) [
        | some found ↦
            move_past found (drop (length found) (c ∷ s))
              (token_at operator found found false (length before) ∷ tokens) before
        | none ↦ push_word before c s tokens
      ]
    ]

-- Each round takes a unit.
unfoldable pub tokenize_loop : ℕ → Position → Position
unfolding next_token
tokenize_loop zero p = p
tokenize_loop (suc fuel) p = elim p.rest [
  | [] ↦ p
  | c ∷ s ↦ tokenize_loop fuel (next_token p.before c s p.tokens)
]

unfoldable pub tokenize : Text → List Token
unfolding tokenize_loop
tokenize input =
    reverse
      (tokenize_loop (length input) (record { before = []; rest = input; tokens = [] })).tokens
