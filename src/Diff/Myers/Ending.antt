-- ===== src/Diff/Myers/Ending.antt =====
-- The search ends within as many rounds as both lists have entries, at their common end.
use dev_box.Prelude.{
  ℕ, zero, suc, ◌+◌, ◌-◌, ◌*◌, ◌≤◌, ◌<◌, ◌≡◌, ◌≢◌, inl, inr, refl, Bool, true, false, List, [], ◌∷◌,
  length, if◌then◌else◌, ◌==◌, arith, Bool-cases, ap, sym, ◌∙◌, Option, none, some, get_or,
  replicate, get_or-set_self, length-set, length-replicate,
}
use mathlib.Core.Path.{subst}
use dev_box.Text.{Text}
use dev_box.Diff.Myers.{Cells, rounds, no_cells}
use dev_box.Diff.Myers.Furthest.Ends.{Unfinished, first_end}
use dev_box.Diff.Myers.Furthest.{InRound, size, furthest, further_than_above, further_than_before}
use dev_box.Diff.Myers.Rounds.{Level, Level-Computes, Leaves, diagonals-Leaves, TraceOf}

module _ (a b : List Text) where
  -- Going right along the top and then down reaches the end in `size` rounds.
  right_then_down : (t : ℕ) → t ≤ length a → t ≤ furthest a b t (size a b + t)
  right_then_down zero h = omega arith
  right_then_down (suc t) h =
      let back : size a b + suc t - 1 ≡ size a b + t = omega arith in
      let more =
        further_than_before a b t (size a b + suc t) (omega (arith, h))
          (suc t, omega arith, omega arith) (t, omega arith, omega arith) in
      omega (arith, more, right_then_down t (omega (arith, h)), ap (furthest a b t) back)

  down_to_end :
      (t i : ℕ)
      → t ≤ length b
      → i + t ≡ size a b + length a
      → length a ≤ furthest a b (length a + t) i
  down_to_end zero i h e =
      let at_top : i ≡ size a b + length a = omega (arith, e) in
      let rounds_right : length a + 0 ≡ length a = omega arith in
      omega (
        arith,
        right_then_down (length a) (omega arith),
        ap (furthest a b (length a)) at_top,
        ap (λ d. furthest a b d i) rounds_right,
      )
  down_to_end (suc t) i h e =
      let round : InRound (size a b) (suc (length a + t)) i =
        (length a, omega (arith, e), omega arith) in
      let above : InRound (size a b) (length a + t) (i + 1) =
        (length a, omega (arith, e), omega arith) in
      let more = further_than_above a b (length a + t) i (omega (arith, h)) round above in
      let next : length a + suc t ≡ suc (length a + t) = omega arith in
      omega (
        arith,
        more,
        down_to_end t (i + 1) (omega (arith, h)) (omega (arith, e)),
        ap (λ d. furthest a b d i) next,
      )

  pub ends_in_time : ((d : ℕ) → d ≤ size a b → Unfinished a b d) → ⊥
  ends_in_time unfinished =
      let far = down_to_end (length b) (length a + length a) (omega arith) (omega arith) in
      unfinished (size a b) (omega arith) (length a + length a) (length a, omega arith, omega arith)
        (far, omega (arith, far))

  -- What the search answers: the round in which a furthest point is the end of both lists.
  abbrev pub Found : Option (ℕ × List Cells) → Type 0
  Found none = ⊥
  Found (some (d, trace)) =
      (d ≤ size a b)
      × (i : ℕ) × InRound (size a b) d i
      × (furthest a b d i ≡ length a)
      × (i + length b ≡ size a b + length a)
      × TraceOf a b (suc d) trace

  Unfinished-suc :
      (d : ℕ)
      → ((e : ℕ) → e < d → Unfinished a b e)
      → Unfinished a b d
      → (e : ℕ) → e < suc d
      → Unfinished a b e
  Unfinished-suc d earlier here e le = elim (Bool-cases (e == d)) [
    | inl h ↦ let same : e ≡ d = ground arith in subst (Unfinished a b) (sym same) here
    | inr h ↦ let ne : e ≢ d = ground arith in earlier e (omega (arith, le, ne))
  ]

  rounds-Found :
      (fuel d : ℕ) (v : Cells) (trace : List Cells)
      → d + fuel ≡ suc (size a b)
      → length v ≡ 2 * size a b + 1
      → Level a b d v
      → TraceOf a b d trace
      → ((e : ℕ) → e < d → Unfinished a b e)
      → Found (rounds a b (size a b) fuel d v trace)
  unfolding rounds Level
  rounds-Found zero d v trace sum long level traced earlier =
      ends_in_time (λ e le. earlier e (omega (arith, sum, le)))
  rounds-Found (suc fuel) d v trace sum long level traced earlier =
      let room : d ≤ size a b = omega (arith, sum) in
      let left =
        diagonals-Leaves a b d (suc d) (size a b - d) 0 v v room (Level-Computes a b d v room level)
          (omega (arith, room)) (omega arith) long in
      by_found room _ _ left (λ next long' level' earlier'.
        rounds-Found fuel (suc d) next (v ∷ trace) (omega (arith, sum)) long' level' (level, traced)
          earlier')
    where
      by_found :
          d ≤ size a b
          → (found : Bool) (next : Cells) → Leaves a b d (size a b - d) v (found, next)
          → ((cells : Cells)
              → length cells ≡ 2 * size a b + 1
              → ((i : ℕ) → InRound (size a b) d i → get_or cells i 0 ≡ suc (furthest a b d i))
              → ((e : ℕ) → e < suc d → Unfinished a b e)
              → Found (rounds a b (size a b) fuel (suc d) cells (v ∷ trace)))
          → Found (
              if found
              then some (d, v ∷ trace)
              else rounds a b (size a b) fuel (suc d) next (v ∷ trace))
      by_found room true next (i, round, ends) rest =
          let (far, end) = first_end a b d i room earlier round ends in
          (room, i, round, far, end, (level, traced))
      by_found room false next (ends, written, kept, longer) rest =
          rest next (longer ∙ long) (λ i h. written i h (first_diagonal i h))
            (Unfinished-suc d earlier (λ i h. ends i h (first_diagonal i h)))
        where
          first_diagonal : (i : ℕ) → InRound (size a b) d i → size a b - d ≤ i
          first_diagonal i (j, e, le) = omega (arith, e)

  -- The search always finds the end.
  pub search-Found :
      1 ≤ size a b → Found (rounds a b (size a b) (suc (size a b)) 0 (no_cells (size a b)) [])
  unfolding Level no_cells
  search-Found some_line =
      let cells : List ℕ = replicate (2 * size a b + 1) 0 in
      let long : length cells ≡ 2 * size a b + 1 = length-replicate (2 * size a b + 1) 0 in
      rounds-Found (suc (size a b)) 0 (no_cells (size a b)) [] (omega arith)
        (length-set cells (size a b + 1) 1 ∙ long)
        (get_or-set_self cells (size a b + 1) 1 0 (omega (arith, long, some_line))) tt
        (λ e le. absurd (omega (arith, le)))

  any_answer :
      (answer : Option (ℕ × List Cells))
      → Found answer
      → (d : ℕ) × (trace : List Cells) × (d ≤ size a b) × (answer ≡ some (d, trace))
  any_answer none found = elim found [ ]
  any_answer (some (d, trace)) found = (d, trace, found.0, refl)

  -- For lists with at least one line together, the search of `diffMiddle` finds the end, in a round
  -- whose number is at most that of the lines of both: the answer after the search that deletes
  -- and inserts everything is never used.
  pub rounds-some :
      1 ≤ size a b
      → (d : ℕ) × (trace : List Cells) × (d ≤ size a b)
        × (rounds a b (size a b) (suc (size a b)) 0 (no_cells (size a b)) [] ≡ some (d, trace))
  rounds-some some_line = any_answer _ (search-Found some_line)
