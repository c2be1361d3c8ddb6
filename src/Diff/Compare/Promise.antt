-- ===== src/Diff/Compare/Promise.antt =====
-- What `diffText` promises of its result.
use dev_box.Prelude.{
  suc, ◌↔◌, if◌then◌else◌, Option, none, some, ℕ, ◌+◌, ◌≡◌, ◌≤◌, ◌<◌, ◌⊎◌, inl, inr, refl, Bool,
  true, false, ◌&&◌, ◌||◌, List, [], ◌∷◌, map, none, length, ltb, ◌==◌, Bool-cases, All, arith, sym,
  ◌∙◌,
}
use mathlib.Core.Path.{subst}
use dev_box.Text.{Text, trim}
use dev_box.Diff.Script.{ChangeKind, equal, insert, delete}
use dev_box.Diff.Lines.Ends.{HasLines, split_lines-HasLines}
use dev_box.Text.Split.{squeeze}
use dev_box.Diff.Lines.{DiffLine, split_lines, script_lines}
use dev_box.Diff.Lines.Shown.{Shows, finished, shared, deleted, inserted, script_lines-Shows}
use dev_box.Diff.Myers.{myers_diff}
use dev_box.Diff.Words.{annotate_word_changes, is_delete, is_insert}
use dev_box.Diff.Words.Joined.{WordsJoin, less_words, annotate_word_changes-WordsJoin}
use dev_box.Diff.Hunks.{is_equal, build_hunks}
use dev_box.Diff.Hunks.Cover.{Covered, build_hunks-Covered}
use dev_box.Diff.Compare.{
  DiffOptions, DiffResult, too_large, too_many_lines, Compared, compared, refused, max_input_bytes,
  max_lines, count_lines, context_of, stats_of, normalize_line, compare_lines, diff_text,
}

module _ (normalize : Text → Text) where
  -- Lines that show two texts have no segments.
  Shows-less_words :
      (li ri : ℕ) (lines : List DiffLine) (left right : List Text)
      → Shows normalize li ri lines left right
      → All (λ line. line.words ≡ none) lines × (map less_words lines ≡ lines)
  Shows-less_words li ri lines left right finished = (tt, refl)
  Shows-less_words li ri lines left right (shared l r e shows) =
      let (words, same) = Shows-less_words _ _ _ _ _ shows in ((refl, words), rw same refl)
  Shows-less_words li ri lines left right (deleted l shows) =
      let (words, same) = Shows-less_words _ _ _ _ _ shows in ((refl, words), rw same refl)
  Shows-less_words li ri lines left right (inserted r shows) =
      let (words, same) = Shows-less_words _ _ _ _ _ shows in ((refl, words), rw same refl)

  -- The counts add up to the lengths of both texts.
  Shows-count :
      (li ri : ℕ) (lines : List DiffLine) (left right : List Text)
      → Shows normalize li ri lines left right
      → (count_lines is_delete lines + count_lines is_equal lines ≡ length left)
        × (count_lines is_insert lines + count_lines is_equal lines ≡ length right)
  unfolding count_lines
  Shows-count li ri lines left right finished = (omega arith, omega arith)
  Shows-count li ri lines left right (shared l r e shows) =
      let (ls, rs) = Shows-count _ _ _ _ _ shows in (omega (arith, ls), omega (arith, rs))
  Shows-count li ri lines left right (deleted l shows) =
      let (ls, rs) = Shows-count _ _ _ _ _ shows in (omega (arith, ls), omega (arith, rs))
  Shows-count li ri lines left right (inserted r shows) =
      let (ls, rs) = Shows-count _ _ _ _ _ shows in (omega (arith, ls), omega (arith, rs))

  -- Where nothing is deleted or inserted, both texts are the same once they are normalized.
  Shows-same :
      (li ri : ℕ) (lines : List DiffLine) (left right : List Text)
      → Shows normalize li ri lines left right
      → count_lines is_delete lines ≡ 0
      → count_lines is_insert lines ≡ 0
      → map normalize left ≡ map normalize right
  unfolding count_lines
  Shows-same li ri lines left right finished d i = refl
  Shows-same li ri lines left right (shared l r e shows) d i =
      let same = Shows-same _ _ _ _ _ shows d i in rw (e, same) refl
  Shows-same li ri lines left right (deleted l shows) d i = absurd (omega (arith, d))
  Shows-same li ri lines left right (inserted r shows) d i = absurd (omega (arith, i))

both_zero : (a b : ℕ) → ((a == 0) && (b == 0)) ≡ true → (a ≡ 0) × (b ≡ 0)
both_zero a b h = (ground arith, ground arith)

count_lines-less_words :
    (test : ChangeKind → Bool) (lines : List DiffLine)
    → count_lines test (map less_words lines) ≡ count_lines test lines
unfolding count_lines
count_lines-less_words test [] = refl
count_lines-less_words test (line ∷ lines) = rw (count_lines-less_words test lines)

-- A line as it is compared: with its white space trimmed and each run of it made one space, and in
-- lower case, as far as the options say.
abbrev pub normal : (Text → Text) → (ignore_whitespace ignore_case : Bool) → Text → Text
normal lower_case false false line = line
normal lower_case false true line = lower_case line
normal lower_case true false line = squeeze (trim line)
normal lower_case true true line = lower_case (squeeze (trim line))

abbrev weight : ChangeKind → ℕ
weight equal = 1
weight insert = 0
weight delete = 0

-- How many lines are unchanged.
abbrev pub equal_count : List DiffLine → ℕ
equal_count [] = 0
equal_count (line ∷ lines) = weight line.kind + equal_count lines

count_lines-equal : (lines : List DiffLine) → count_lines is_equal lines ≡ equal_count lines
unfolding count_lines
count_lines-equal [] = refl
count_lines-equal (line ∷ lines) = by_kind line.kind (count_lines-equal lines)
  where
    by_kind :
        (kind : ChangeKind) {m n : ℕ}
        → m ≡ n
        → (if is_equal kind then suc m else m) ≡ weight kind + n
    by_kind equal e = omega (arith, e)
    by_kind insert e = omega (arith, e)
    by_kind delete e = omega (arith, e)

-- The context that an option asks for, which is 3 lines where there is none.
abbrev pub Around : Option ℕ → (ℕ → Type 0) → Type 0
Around none P = P 3
Around (some context) P = P context

-- What is promised of a result, for two lists of lines and how they are compared: the lines show both
-- lists; a line's segments give its text; the counts are those of the lines; texts are called
-- identical exactly when nothing is added or removed, and are then the same as they are compared;
-- and the hunks hold every change with its context.
abbrev pub Promised :
    (Text → Text) → Option ℕ → (left_lines right_lines : List Text) → DiffResult → Type 0
Promised compared_as context left_lines right_lines result =
    Shows compared_as 0 0 (map less_words result.lines) left_lines right_lines
    × All WordsJoin result.lines
    × (result.stats.unchanged ≡ equal_count result.lines)
    × (result.stats.removed + result.stats.unchanged ≡ length left_lines)
    × (result.stats.added + result.stats.unchanged ≡ length right_lines)
    × ((result.identical ≡ true) ↔ ((result.stats.added ≡ 0) × (result.stats.removed ≡ 0)))
    × (result.identical ≡ true → map compared_as left_lines ≡ map compared_as right_lines)
    × Around context (λ around. Covered result.lines around 0 result.hunks)

around :
    (context : Option ℕ) (lines : List DiffLine)
    → Around context (λ k. Covered lines k 0 (build_hunks lines (context_of context)))
around none lines = build_hunks-Covered lines 3
around (some context) lines = build_hunks-Covered lines context

both_zero_iff : (a b : ℕ) → (((a == 0) && (b == 0)) ≡ true) ↔ ((a ≡ 0) × (b ≡ 0))
both_zero_iff a b = (both_zero a b, λ (e, f). ground (arith, e, f))

module _ (byte_length : Text → ℕ) (lower_case : Text → Text) (options : DiffOptions) where
  compare_lines-Promised :
      (left right : Text) (left_lines right_lines : List Text)
      → Promised
          (normalize_line byte_length lower_case options)
          options.context
          left_lines
          right_lines
          (compare_lines byte_length lower_case left right left_lines right_lines options)
  unfolding compare_lines stats_of
  compare_lines-Promised left right left_lines right_lines =
      let normalize = normalize_line byte_length lower_case options in
      let script = myers_diff (map normalize left_lines) (map normalize right_lines) in
      let plain = script_lines left_lines right_lines script 0 0 in
      let shows = script_lines-Shows normalize left_lines right_lines in
      let (wordless, same) = Shows-less_words normalize 0 0 plain left_lines right_lines shows in
      let (kept_lines, joined) = annotate_word_changes-WordsJoin plain wordless in
      let lines = annotate_word_changes plain in
      let shown : Shows normalize 0 0 (map less_words lines) left_lines right_lines =
        subst (λ l. Shows normalize 0 0 l left_lines right_lines) (sym (kept_lines ∙ same)) shows in
      let (ls, rs) =
        Shows-count normalize 0 0 (map less_words lines) left_lines right_lines shown in
      let deletes = count_lines-less_words is_delete lines in
      let inserts = count_lines-less_words is_insert lines in
      let equals = count_lines-less_words is_equal lines in
      (
        shown,
        joined,
        count_lines-equal lines,
        omega (arith, ls, deletes, equals),
        omega (arith, rs, inserts, equals),
        both_zero_iff (count_lines is_insert lines) (count_lines is_delete lines),
        λ identical.
            let (none_added, none_removed) =
              both_zero (count_lines is_insert lines) (count_lines is_delete lines) identical in
            Shows-same normalize 0 0 (map less_words lines) left_lines right_lines shown
              (deletes ∙ none_removed) (inserts ∙ none_added),
        around options.context lines,
      )

  -- What is promised of the outcome: an error only beyond the limits, and a result only within them.
  abbrev pub Honest : (left right : Text) → Compared → Type 0
  Honest left right (refused too_large) =
      (5242880 < byte_length left) ⊎ (5242880 < byte_length right)
  Honest left right (refused too_many_lines) =
      (left_lines : List Text) × (right_lines : List Text) × HasLines left left_lines
      × HasLines right right_lines
      × ((50000 < length left_lines) ⊎ (50000 < length right_lines))
  Honest left right (compared result) =
      (byte_length left ≤ 5242880)
      × (byte_length right ≤ 5242880)
      × (left_lines : List Text) × (right_lines : List Text) × HasLines left left_lines
      × HasLines right right_lines
      × (length left_lines ≤ 50000)
      × (length right_lines ≤ 50000)
      × Promised (normal lower_case options.ignore_whitespace options.ignore_case) options.context
          left_lines right_lines result

  normalize_line-normal :
      (λ line. normalize_line byte_length lower_case options line)
      ≡ normal lower_case options.ignore_whitespace options.ignore_case
  unfolding normalize_line
  normalize_line-normal = by_options options.ignore_whitespace options.ignore_case
    where
      by_options :
          (whitespace letter_case : Bool)
          → (λ (line : Text).
              (if letter_case
                then lower_case (if whitespace then squeeze (trim line) else line)
                else (if whitespace then squeeze (trim line) else line)))
            ≡ normal lower_case whitespace letter_case
      by_options false false = refl
      by_options false true = refl
      by_options true false = refl
      by_options true true = refl

  over : (limit a b : ℕ) → (ltb limit a || ltb limit b) ≡ true → (limit < a) ⊎ (limit < b)
  over limit a b h = elim (Bool-cases (ltb limit a)) [
    | inl first ↦ inl (ground arith)
    | inr not_first ↦ inr (ground arith)
  ]

  under : (limit a b : ℕ) → (ltb limit a || ltb limit b) ≡ false → (a ≤ limit) × (b ≤ limit)
  under limit a b h = (ground arith, ground arith)

  -- For all texts and options, and whatever the length of a text in bytes and its lower case are:
  -- `diffText` refuses texts of more than 5,242,880 bytes, or of more than 50,000 lines, and no others.
  -- Of any other two texts it returns a result whose lines show the lines of both, each once, in
  -- order and with its number, and paired as unchanged only where they are the same as the options
  -- say; whose segments give their lines; whose counts are those of its lines; which is
  -- called identical exactly when nothing is added or removed, and then the texts are the same as the
  -- options say; and whose hunks hold every change with its context, which is 3 lines by default.
  pub diff_text-Honest :
      (left right : Text) → Honest left right (diff_text byte_length lower_case left right options)
  unfolding diff_text max_input_bytes max_lines
  diff_text-Honest left right =
      let bytes = ltb 5242880 (byte_length left) || ltb 5242880 (byte_length right) in
      let left_lines = split_lines left in
      let right_lines = split_lines right in
      let many = ltb 50000 (length left_lines) || ltb 50000 (length right_lines) in
      elim (Bool-cases bytes) [
        | inl h ↦ rw h (over 5242880 (byte_length left) (byte_length right) h)
        | inr h ↦ elim (Bool-cases many) [
          | inl h' ↦
              rw (h, h')
                ((
                  left_lines,
                  right_lines,
                  split_lines-HasLines left,
                  split_lines-HasLines right,
                  over 50000 (length left_lines) (length right_lines) h',
                ))
          | inr h' ↦
              let (bl, br) = under 5242880 (byte_length left) (byte_length right) h in
              let (ml, mr) = under 50000 (length left_lines) (length right_lines) h' in
              let promised =
                subst
                  (λ f. Promised f options.context left_lines right_lines (
                    compare_lines byte_length lower_case left right left_lines right_lines options))
                  normalize_line-normal
                  (compare_lines-Promised left right left_lines right_lines) in
              rw (h, h')
                ((
                  bl,
                  br,
                  left_lines,
                  right_lines,
                  split_lines-HasLines left,
                  split_lines-HasLines right,
                  ml,
                  mr,
                  promised,
                ))
        ]
      ]
