-- ===== src/Command/Segments.antt =====
-- The tokens of apps/web/src/modules/command/tokenize.ts, and `segment`, which splits them at the
-- operators.
use dev_box.Prelude.{
  ℕ, Bool, true, false, List, [], ◌∷◌, ◌++◌, if◌then◌else◌, Option, none, some, ◌≡◌, refl, ◌⊎◌, inl,
  inr, Bool-cases, append_assoc, ap, ◌∙◌, arith, sym,
}
use dev_box.Text.{Text}

pub data TokenKind : Type 0 where
  word operator redirection assignment comment : TokenKind

pub record Token : Type 0 where
  pub kind : TokenKind
  pub raw : Text
  pub value : Text
  pub quoted : Bool
  pub start : ℕ
  pub end : ℕ

pub record Segment : Type 0 where
  pub tokens : List Token
  pub preceded_by : Option Text

-- token.kind === 'operator'
abbrev pub is_operator : TokenKind → Bool
is_operator operator = true
is_operator _ = false

-- segments.push(current), at an operator and behind the loop; `current` is extended else.
unfoldable pub segment_loop : List Token → Segment → List Segment
segment_loop [] current = current ∷ []
segment_loop (token ∷ rest) current =
    let next = segment_loop rest (record { tokens = []; preceded_by = some token.value }) in
    let same =
      segment_loop rest
        (record { tokens = current.tokens ++ token ∷ []; preceded_by = current.preceded_by }) in
    if is_operator token.kind then current ∷ next else same

-- s.tokens.length > 0 || s.precededBy !== undefined
abbrev pub is_kept : List Token → Option Text → Bool
is_kept [] none = false
is_kept [] (some _) = true
is_kept (_ ∷ _) _ = true

unfoldable pub kept : List Segment → List Segment
kept [] = []
kept (s ∷ segments) =
    let more = kept segments in if is_kept s.tokens s.preceded_by then s ∷ more else more

unfoldable pub segment : List Token → List Segment
unfolding segment_loop kept
segment tokens = kept (segment_loop tokens (record { tokens = []; preceded_by = none }))

-- A command line as a reader of the segments meets it: the value of an operator, or another token.
abbrev pub Met : Type 0
Met = Text ⊎ Token

abbrev pub met_in : List Token → List Met
met_in [] = []
met_in (token ∷ rest) =
    let more = met_in rest in
    if is_operator token.kind then inl token.value ∷ more else inr token ∷ more

abbrev pub held : List Token → List Met
held [] = []
held (token ∷ rest) = inr token ∷ held rest

abbrev pub introduced : Option Text → List Met
introduced none = []
introduced (some t) = inl t ∷ []

-- A segment's operator, then its tokens.
abbrev pub read_segments : List Segment → List Met
read_segments [] = []
read_segments (s ∷ segments) = (introduced s.preceded_by ++ held s.tokens) ++ read_segments segments

held-append : (xs ys : List Token) → held (xs ++ ys) ≡ held xs ++ held ys
held-append [] ys = refl
held-append (x ∷ xs) ys = ap (λ l. inr x ∷ l) (held-append xs ys)

held_next :
    (before : List Met) (xs : List Token) (x : Token) (more : List Met)
    → (before ++ held (xs ++ x ∷ [])) ++ more ≡ (before ++ held xs) ++ inr x ∷ more
held_next before xs x more =
    ap (λ l. (before ++ l) ++ more) (held-append xs (x ∷ []))
    ∙ ap (λ l. l ++ more) (sym (append_assoc before (held xs) (inr x ∷ [])))
    ∙ append_assoc (before ++ held xs) (inr x ∷ []) more

segment_loop-met_in :
    (tokens : List Token) (current : Segment)
    → read_segments (segment_loop tokens current)
      ≡ (introduced current.preceded_by ++ held current.tokens) ++ met_in tokens
unfolding segment_loop
segment_loop-met_in [] current = refl
segment_loop-met_in (token ∷ rest) current = elim (Bool-cases (is_operator token.kind)) [
  | inl h ↦ rw h (
      ap (λ l. (introduced current.preceded_by ++ held current.tokens) ++ l)
        (segment_loop-met_in rest _))
  | inr h ↦ rw h (
      segment_loop-met_in rest _
      ∙ held_next (introduced current.preceded_by) current.tokens token (met_in rest))
]

dropped : (s : List Token) (p : Option Text) → is_kept s p ≡ false → introduced p ++ held s ≡ []
dropped [] none h = refl
dropped [] (some t) h = ground arith
dropped (x ∷ s) p h = ground arith

kept-read_segments :
    (segments : List Segment) → read_segments (kept segments) ≡ read_segments segments
unfolding kept
kept-read_segments [] = refl
kept-read_segments (s ∷ segments) = elim (Bool-cases (is_kept s.tokens s.preceded_by)) [
  | inl h ↦
      rw h
        (ap (λ l. (introduced s.preceded_by ++ held s.tokens) ++ l) (kept-read_segments segments))
  | inr h ↦ rw h (
      kept-read_segments segments
      ∙ ap (λ l. l ++ read_segments segments) (sym (dropped s.tokens s.preceded_by h)))
]

-- Read in order, each segment's operator and then its tokens, the segments give the command line
-- back: every token once and in its place, an operator by its value.
pub segment_lem : (tokens : List Token) → read_segments (segment tokens) ≡ met_in tokens
unfolding segment
segment_lem tokens =
    let fresh : Segment = record { tokens = []; preceded_by = none } in
    kept-read_segments (segment_loop tokens fresh) ∙ segment_loop-met_in tokens fresh
