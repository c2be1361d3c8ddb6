-- ===== src/Diff/Myers/Rounds.antt =====
-- The cells of the search hold its furthest points, and the search ends.
use dev_box.Prelude.{
  ℕ, zero, suc, ◌+◌, ◌-◌, ◌*◌, ◌≤◌, ◌<◌, ◌≡◌, ◌≢◌, ◌⊎◌, inl, inr, refl, Bool, true, false, List, [],
  ◌∷◌, length, ltb, ◌==◌, arith, Bool-cases, ap, sym, ◌∙◌, get_or, set, get_or-set_self,
  get_or-set_ne, length-set,
}
use mathlib.Core.Path.{subst}
use dev_box.Text.{Text}
use dev_box.Diff.Myers.{Cells, slide, goes_down, start_x, at_end, diagonals}
use dev_box.Diff.Myers.Furthest.Ends.{AtEnd}
use dev_box.Diff.Myers.Furthest.{origin, InRound, size, furthest, furthest-low}

module _ (a b : List Text) where
  -- The cells before a round.
  unfoldable pub Level : ℕ → Cells → Type 0
  Level zero v = get_or v (size a b + 1) 0 ≡ 1
  Level (suc d) v = (i : ℕ) → InRound (size a b) d i → get_or v i 0 ≡ suc (furthest a b d i)

  -- How a point of a round is read from the cells before it.
  abbrev pub Reads : ℕ → Cells → ℕ → Type 0
  Reads d v i =
      ((goes_down (size a b) (suc d) v i ≡ true)
        × InRound (size a b) d (i + 1)
        × (start_x (size a b) (suc d) v i ≡ furthest a b d (i + 1))
        × (origin (size a b) (suc d) (furthest a b d) i ≡ furthest a b d (i + 1))
        × (get_or v (i + 1) 0 ≡ suc (furthest a b d (i + 1))))
      ⊎ ((goes_down (size a b) (suc d) v i ≡ false)
          × InRound (size a b) d (i - 1)
          × (start_x (size a b) (suc d) v i ≡ suc (furthest a b d (i - 1)))
          × (origin (size a b) (suc d) (furthest a b d) i ≡ suc (furthest a b d (i - 1)))
          × (get_or v (i - 1) 0 ≡ suc (furthest a b d (i - 1))))

  pub Level-Reads :
      (d : ℕ) (v : Cells) (i : ℕ)
      → suc d ≤ size a b
      → Level (suc d) v
      → InRound (size a b) (suc d) i
      → Reads d v i
  unfolding Level goes_down start_x origin
  Level-Reads d v i room level (j, e, le) = elim (Bool-cases (i + suc d == size a b)) [
    | inl left ↦
        let edge : i + suc d ≡ size a b = ground arith in
        let above : InRound (size a b) d (i + 1) = (0, omega (arith, edge), omega arith) in
        let cell = level (i + 1) above in
        rw left (inl (refl, above, omega (arith, cell), refl, cell))
    | inr not_left ↦
        let ne : i + suc d ≢ size a b = ground arith in
        let under : InRound (size a b) d (i - 1) =
          (j - 1, omega (arith, e, room, ne), omega (arith, le)) in
        let cell = level (i - 1) under in
        elim (Bool-cases (i == size a b + suc d)) [
          | inl right ↦ rw (not_left, right) (inr (refl, under, cell, refl, cell))
          | inr not_right ↦
              let ne' : i ≢ size a b + suc d = ground arith in
              let above : InRound (size a b) d (i + 1) =
                (j, omega (arith, e), omega (arith, e, le, ne')) in
              let cell' = level (i + 1) above in
              elim (Bool-cases (ltb (furthest a b d (i - 1)) (furthest a b d (i + 1)))) [
                | inl further ↦
                    let test : ltb (get_or v (i - 1) 0) (get_or v (i + 1) 0) ≡ true =
                      ground (arith, cell, cell') in
                    rw (not_left, not_right, further, test)
                      (inl (refl, above, omega (arith, cell'), refl, cell'))
                | inr nearer ↦
                    let test : ltb (get_or v (i - 1) 0) (get_or v (i + 1) 0) ≡ false =
                      ground (arith, cell, cell') in
                    rw (not_left, not_right, nearer, test) (inr (refl, under, cell, refl, cell))
              ]
        ]
  ]

  start_x-origin :
      (d : ℕ) (v : Cells) (i : ℕ)
      → suc d ≤ size a b
      → Level (suc d) v
      → InRound (size a b) (suc d) i
      → start_x (size a b) (suc d) v i ≡ origin (size a b) (suc d) (furthest a b d) i
  start_x-origin d v i room level round = elim (Level-Reads d v i room level round) [
    | inl (_, _, e, e', _) ↦ e ∙ sym e'
    | inr (_, _, e, e', _) ↦ e ∙ sym e'
  ]

  -- A round computes the furthest points from the cells before it.
  abbrev pub Computes : ℕ → Cells → Type 0
  Computes d v =
      (i : ℕ)
      → InRound (size a b) d i
      → slide a b (size a b) i (start_x (size a b) d v i) ≡ furthest a b d i

  pub Level-Computes : (d : ℕ) (v : Cells) → d ≤ size a b → Level d v → Computes d v
  unfolding Level start_x goes_down furthest
  Level-Computes zero v room level i (j, e, le) =
      let middle : i ≡ size a b = omega (arith, e, le) in
      let test : (i + 0 == size a b) ≡ true = ground (arith, middle) in
      let start : get_or v (i + 1) 0 - 1 ≡ 0 =
        omega (arith, level, ap (λ k. get_or v (k + 1) 0) middle) in
      rw (test, start) refl
  Level-Computes (suc d) v room level i round =
      ap (slide a b (size a b) i) (start_x-origin d v i room level round)

  -- The end test of the code is the one on the furthest point.
  at_end_iff :
      (i x : ℕ)
      → i ≤ x + size a b
      → ((at_end a b (size a b) i x ≡ true) → (length a ≤ x) × (length b + i ≤ x + size a b))
        × ((at_end a b (size a b) i x ≡ false) → ¬ ((length a ≤ x) × (length b + i ≤ x + size a b)))
  at_end_iff i x low = (λ h. ground arith, λ h (left, right). ground arith)

  -- What a round leaves, from a diagonal on: an end that was found, or no end and the cells written.
  abbrev pub Leaves : (d i : ℕ) → Cells → Bool × Cells → Type 0
  Leaves d i next (true, cells) = (k : ℕ) × InRound (size a b) d k × AtEnd a b d k
  Leaves d i next (false, cells) =
      ((k : ℕ) → InRound (size a b) d k → i ≤ k → ¬ AtEnd a b d k)
      × ((k : ℕ) → InRound (size a b) d k → i ≤ k → get_or cells k 0 ≡ suc (furthest a b d k))
      × ((k : ℕ) → k < i → get_or cells k 0 ≡ get_or next k 0)
      × (length cells ≡ length next)

  -- The first diagonal joined to those behind it.
  Leaves-cons :
      (d i j x : ℕ) (next : Cells) (result : Bool × Cells)
      → d ≤ size a b
      → i + d ≡ size a b + 2 * j
      → j ≤ d
      → x ≡ furthest a b d i
      → length next ≡ 2 * size a b + 1
      → ¬ AtEnd a b d i
      → Leaves d (i + 2) (set next i (suc x)) result
      → Leaves d i next result
  Leaves-cons d i j x next (true, cells) room e le same long no_end h = h
  Leaves-cons d i j x next (false, cells) room e le same long no_end (ends, written, kept, longer) =
      (
        λ k round above. elim (here_or_later k round above) [
          | inl at_i ↦ λ h. no_end (subst (AtEnd a b d) at_i h)
          | inr later ↦ ends k round later
        ],
        λ k round above. elim (here_or_later k round above) [
          | inl at_i ↦
              ap (λ m. get_or cells m 0) at_i
              ∙ kept i (omega arith)
              ∙ get_or-set_self next i (suc x) 0 (omega (arith, e, le, room, long))
              ∙ ap suc same
              ∙ ap (λ m. suc (furthest a b d m)) (sym at_i)
          | inr later ↦ written k round later
        ],
        λ k under.
            kept k (omega (arith, under)) ∙ get_or-set_ne next i k (suc x) 0 (omega (arith, under)),
        longer ∙ length-set next i (suc x),
      )
    where
      here_or_later : (k : ℕ) → InRound (size a b) d k → i ≤ k → (k ≡ i) ⊎ (i + 2 ≤ k)
      here_or_later k (j', e', le') above = elim (Bool-cases (k == i)) [
        | inl h ↦ inl (ground arith)
        | inr h ↦ let ne : k ≢ i = ground arith in inr (omega (arith, e, e', above, ne))
      ]

  pub diagonals-Leaves :
      (d left i j : ℕ) (v next : Cells)
      → d ≤ size a b
      → Computes d v
      → i + d ≡ size a b + 2 * j
      → j + left ≡ suc d
      → length next ≡ 2 * size a b + 1
      → Leaves d i next (diagonals a b (size a b) d left i v next)
  unfolding diagonals
  diagonals-Leaves d zero i j v next room computes e sum long = (
    λ k (j', e', le') above. absurd (omega (arith, e, sum, e', le', above)),
    λ k (j', e', le') above. absurd (omega (arith, e, sum, e', le', above)),
    λ k under. refl,
    refl,
  )
  diagonals-Leaves d (suc left) i j v next room computes e sum long =
      let x = slide a b (size a b) i (start_x (size a b) d v i) in
      let le : j ≤ d = omega (arith, sum) in
      let same = computes i (j, e, le) in
      let low = furthest-low a b d i room (j, e, le) in
      let (ended, not_ended) = at_end_iff i x (omega (arith, low, same)) in
      elim (Bool-cases (at_end a b (size a b) i x)) [
        | inl h ↦
            let (l, r) = ended h in
            rw h ((i, (j, e, le), (omega (arith, l, same), omega (arith, r, same))))
        | inr h ↦
            let rest =
              diagonals-Leaves d left (i + 2) (suc j) v (set next i (suc x)) room computes
                (omega (arith, e)) (omega (arith, sum)) (length-set next i (suc x) ∙ long) in
            rw h (
              Leaves-cons d i j x next _ room e le same long
                (λ (l, r). not_ended h (omega (arith, l, same), omega (arith, r, same))) rest)
      ]

  -- The cells before a round and before all earlier ones.
  abbrev pub TraceOf : ℕ → List Cells → Type 0
  TraceOf zero [] = Unit
  TraceOf zero (_ ∷ _) = ⊥
  TraceOf (suc d) [] = ⊥
  TraceOf (suc d) (v ∷ trace) = Level d v × TraceOf d trace
