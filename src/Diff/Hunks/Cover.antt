-- ===== src/Diff/Hunks/Cover.antt =====
-- The hunks of a diff hold every change with its context, in order and apart.
use dev_box.Prelude.{
  ◌++◌, Option, none, min, take, take-append-drop, length-take, head_or, ℕ, zero, suc, ◌+◌, ◌-◌,
  ◌≤◌, ◌<◌, ◌≡◌, ◌≢◌, inl, inr, refl, true, false, List, [], ◌∷◌, some, leb, length, drop, ◌==◌,
  Bool-cases, arith, ap, sym, ◌∙◌, get_elem?, length-drop,
}
use mathlib.Core.Path.{subst}
use dev_box.Diff.Lines.{DiffLine}
use dev_box.Diff.Hunks.{
  Hunk, is_equal, known, left_numbers, right_numbers, make_hunk, changed_indexes, last_around,
  hunk_loop, hunks_of, build_hunks,
}

get_elem?-drop :
    (n : ℕ) (lines : List DiffLine) (line : DiffLine) (rest : List DiffLine)
    → drop n lines ≡ line ∷ rest
    → (get_elem? lines n ≡ some line) × (drop (suc n) lines ≡ rest)
get_elem?-drop zero [] line rest e = ground (arith, e)
get_elem?-drop (suc n) [] line rest e = ground (arith, e)
get_elem?-drop zero (x ∷ lines) line rest e = (ground (arith, e), ground (arith, e))
get_elem?-drop (suc n) (x ∷ lines) line rest e = get_elem?-drop n lines line rest e

get_elem?-in :
    (n : ℕ) (lines : List DiffLine) (line : DiffLine)
    → get_elem? lines n ≡ some line
    → n < length lines
get_elem?-in n [] line e = ground (arith, e)
get_elem?-in zero (x ∷ lines) line e = omega arith
get_elem?-in (suc n) (x ∷ lines) line e = omega (arith, get_elem?-in n lines line e)

-- The numbers that some lines have.
abbrev pub numbers : (DiffLine → Option ℕ) → List DiffLine → List ℕ
numbers number [] = []
numbers number (line ∷ lines) = elim (number line) [
  | some n ↦ n ∷ numbers number lines
  | none ↦ numbers number lines
]

abbrev pub first_or_zero : List ℕ → ℕ
first_or_zero [] = 0
first_or_zero (n ∷ _) = n

head_or-first : (ns : List ℕ) → head_or ns 0 ≡ first_or_zero ns
head_or-first [] = refl
head_or-first (n ∷ ns) = refl

known-cons :
    (number : Option ℕ) (found : List (Option ℕ)) (ns : List ℕ)
    → known found ≡ ns
    → known (number ∷ found) ≡ elim number [ some n ↦ n ∷ ns | none ↦ ns ]
known-cons none found ns e = e
known-cons (some n) found ns e = ap (λ l. n ∷ l) e

left_numbers-numbers :
    (lines : List DiffLine) → known (left_numbers lines) ≡ numbers (λ line. line.left_number) lines
left_numbers-numbers [] = refl
left_numbers-numbers (line ∷ lines) =
    known-cons line.left_number (left_numbers lines) _ (left_numbers-numbers lines)

right_numbers-numbers :
    (lines : List DiffLine)
    → known (right_numbers lines) ≡ numbers (λ line. line.right_number) lines
right_numbers-numbers [] = refl
right_numbers-numbers (line ∷ lines) =
    known-cons line.right_number (right_numbers lines) _ (right_numbers-numbers lines)

module _ (lines : List DiffLine) where
  -- The line at an index is deleted or inserted.
  abbrev pub IsChanged : ℕ → Type 0
  IsChanged i = (line : DiffLine) × (get_elem? lines i ≡ some line) × (is_equal line.kind ≡ false)

  abbrev pub NoChange : (from to : ℕ) → Type 0
  NoChange from to = (i : ℕ) → from ≤ i → i < to → ¬ IsChanged i

  -- The changes from an index on, in order.
  abbrev pub Changes : ℕ → List ℕ → Type 0
  Changes from [] = (i : ℕ) → from ≤ i → ¬ IsChanged i
  Changes from (index ∷ changes) =
      (from ≤ index) × IsChanged index × NoChange from index × Changes (suc index) changes

  here_or_later :
      (from i : ℕ) → ¬ IsChanged from → from ≤ i → (suc from ≤ i → ¬ IsChanged i) → ¬ IsChanged i
  here_or_later from i same le later = elim (Bool-cases (i == from)) [
    | inl e ↦ let at_i : i ≡ from = ground arith in subst (λ k. ¬ IsChanged k) (sym at_i) same
    | inr e ↦ let ne : i ≢ from = ground arith in later (omega (arith, le, ne))
  ]

  Changes-skip :
      (from : ℕ) (changes : List ℕ)
      → ¬ IsChanged from
      → Changes (suc from) changes
      → Changes from changes
  Changes-skip from [] same none_left = λ i le. here_or_later from i same le (none_left i)
  Changes-skip from (index ∷ changes) same (le, changed, before, behind) = (
    omega (arith, le),
    changed,
    λ i low high. here_or_later from i same low (λ low'. before i low' high),
    behind,
  )

  changed_indexes-Changes :
      (from : ℕ) (rest : List DiffLine)
      → drop from lines ≡ rest
      → Changes from (changed_indexes from rest)
  unfolding changed_indexes
  changed_indexes-Changes from [] e = λ i le (line, at_i, _).
      omega (arith, ap length e, length-drop from lines, get_elem?-in i lines line at_i, le)
  changed_indexes-Changes from (line ∷ rest) e =
      let (at_from, next) = get_elem?-drop from lines line rest e in
      let more = changed_indexes-Changes (suc from) rest next in
      elim (Bool-cases (is_equal line.kind)) [
        | inl h ↦ rw h (
            Changes-skip from _
              (λ (line', at_from', changed).
                same_line line line' (sym at_from ∙ at_from') h changed)
              more)
        | inr h ↦ rw h (
            (
              omega arith,
              (line, at_from, h),
              λ i low high. absurd (omega (arith, low, high)),
              more,
            ))
      ]
    where
      same_line :
          (line line' : DiffLine)
          → some line ≡ some line'
          → is_equal line.kind ≡ true
          → is_equal line'.kind ≡ false
          → ⊥
      same_line line line' e h h' = ground (arith, e, h, h')

  module _ (context : ℕ) where
    -- A hunk holds the lines from an index up to another one, and counts those of them that have a
    -- number on either side, with the first of these numbers, or 0 where there is none.
    pub record Holds (from to : ℕ) (h : Hunk) : Type 0 where
      pub before : List DiffLine
      pub after : List DiffLine
      pub parts : lines ≡ before ++ (h.lines ++ after)
      pub begins : length before ≡ from
      pub ends : length before + length h.lines ≡ to
      pub left_counted : h.left_count ≡ length (numbers (λ line. line.left_number) h.lines)
      pub left_first : h.left_start ≡ first_or_zero (numbers (λ line. line.left_number) h.lines)
      pub right_counted : h.right_count ≡ length (numbers (λ line. line.right_number) h.lines)
      pub right_first : h.right_start ≡ first_or_zero (numbers (λ line. line.right_number) h.lines)

    -- The index behind the last line that is at most `context` lines behind a line.
    abbrev pub behind_context : ℕ → ℕ
    behind_context last = min (length lines) (last + context + 1)

    -- Hunks in order from an index on: there is no change outside of them, each holds the lines from
    -- `context` lines before its first change to `context` lines behind its last one, as far as
    -- there are any, and there is a line between two hunks.
    pub data Covered : ℕ → List Hunk → Type 0 where
      rest : {from : ℕ} → ((i : ℕ) → from ≤ i → ¬ IsChanged i) → Covered from []
      hunk :
          {from : ℕ} {hunks : List Hunk} (h : Hunk) (first last : ℕ)
          → from ≤ first - context
          → first ≤ last
          → IsChanged first
          → IsChanged last
          → NoChange from first
          → NoChange (suc last) (behind_context last + 1)
          → Holds (first - context) (behind_context last) h
          → Covered (behind_context last + 1) hunks
          → Covered from (h ∷ hunks)

    make_hunk-Holds :
        (from end : ℕ)
        → from ≤ end
        → end < length lines
        → Holds from (end + 1) (make_hunk lines from end)
    unfolding make_hunk
    make_hunk-Holds from end le inside =
        let n = end + 1 - from in
        let slice = take n (drop from lines) in
        let whole : lines ≡ take from lines ++ (slice ++ drop n (drop from lines)) =
          sym (take-append-drop from lines)
          ∙ ap (λ l. take from lines ++ l) (sym (take-append-drop n (drop from lines))) in
        let begin : length (take from lines) ≡ from =
          length-take {0} from lines ∙ omega (arith, le, inside) in
        let long : length slice ≡ n =
          length-take {0} n (drop from lines)
          ∙ omega (arith, length-drop {0} from lines, le, inside) in
        let left = left_numbers-numbers slice in
        let right = right_numbers-numbers slice in
        record {
          before = take from lines;
          after = drop n (drop from lines);
          parts = whole;
          begins = begin;
          ends = omega (arith, begin, long, le);
          left_counted = ap length left;
          left_first = head_or-first (known (left_numbers slice)) ∙ ap first_or_zero left;
          right_counted = ap length right;
          right_first = head_or-first (known (right_numbers slice)) ∙ ap first_or_zero right;
        }

    at_last : (i : ℕ) → IsChanged i → (i ≤ last_around lines context i) × (i < length lines)
    at_last i (line, e, _) =
        (omega (arith, get_elem?-in i lines line e), get_elem?-in i lines line e)

    -- The hunk from the first to the last one of some changes.
    hunk_of :
        (from first last : ℕ) (hunks : List Hunk)
        → from ≤ first - context
        → first ≤ last
        → IsChanged first
        → IsChanged last
        → NoChange from first
        → NoChange (suc last) (last_around lines context last + 2)
        → Covered (last_around lines context last + 2) hunks
        → Covered from (make_hunk lines (first - context) (last_around lines context last) ∷ hunks)
    hunk_of from first last hunks room le changed changed' before between covered =
        let end = last_around lines context last in
        let (reach, inside) = at_last last changed' in
        let same : end + 1 ≡ behind_context last = omega (arith, inside) in
        let same' : end + 2 ≡ behind_context last + 1 = omega (arith, same) in
        hunk (make_hunk lines (first - context) end) first last room le changed changed' before
          (subst (NoChange (suc last)) same' between)
          (subst (λ to. Holds (first - context) to (make_hunk lines (first - context) end)) same
            (make_hunk-Holds (first - context) end (omega (arith, reach, le))
              (omega (arith, inside))))
          (subst (λ k. Covered k hunks) same' covered)

    hunk_loop-Covered :
        (from first last : ℕ) (changes : List ℕ)
        → from ≤ first - context
        → first ≤ last
        → IsChanged first
        → IsChanged last
        → NoChange from first
        → Changes (suc last) changes
        → Covered from
            (hunk_loop lines context (first - context) (last_around lines context last) changes)
    unfolding hunk_loop
    hunk_loop-Covered from first last [] room le changed changed' before none_left =
        hunk_of from first last [] room le changed changed' before (λ i low high. none_left i low)
          (rest (λ i low. none_left i (omega (arith, low, (at_last last changed').0))))
    hunk_loop-Covered from first last (index ∷ changes) room le changed changed' before
          (later, changed_here, between, behind) =
        let end = last_around lines context last in
        elim (Bool-cases (leb index (end + 1 + context))) [
          | inl h ↦ rw h (
              hunk_loop-Covered from first index changes room (omega (arith, le, later)) changed
                changed_here before behind)
          | inr h ↦
              let far : end + 2 ≤ index - context = ground arith in
              rw h (
                hunk_of from first last _ room le changed changed' before
                  (λ i low high. between i low (omega (arith, high, far)))
                  (hunk_loop-Covered (end + 2) index index changes far (omega arith) changed_here
                    changed_here
                    (λ i low high. between i (omega (arith, low, (at_last last changed').0)) high)
                    behind))
        ]

    hunks_of-Covered :
        (changes : List ℕ) → Changes 0 changes → Covered 0 (hunks_of lines context changes)
    unfolding hunks_of
    hunks_of-Covered [] none_left = rest none_left
    hunks_of-Covered (index ∷ changes) (_, changed, before, behind) =
        hunk_loop-Covered 0 index index changes (omega arith) (omega arith) changed changed before
          behind

    -- For all lines and every number of context lines, the hunks of `buildHunks` hold each change in
    -- order: each holds exactly the lines from its context before its first change to its context
    -- behind its last one, as far as there are any, counts those of them that have a number on each
    -- side and begins at the first of these numbers, and between two hunks there is at least one
    -- line, none of them changed.
    pub build_hunks-Covered : Covered 0 (build_hunks lines context)
    unfolding build_hunks
    build_hunks-Covered = hunks_of-Covered _ (changed_indexes-Changes 0 lines refl)
