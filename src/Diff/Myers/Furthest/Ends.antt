-- ===== src/Diff/Myers/Furthest/Ends.antt =====
-- Why the first furthest point that is past both ends is the common end.
use dev_box.Prelude.{
  ℕ, zero, suc, ◌+◌, ◌-◌, ◌≤◌, ◌<◌, ◌≡◌, inl, inr, refl, List, length, ltb, arith, Bool-cases, ap,
  sym, ltb→lt,
}
use mathlib.Core.Path.{subst}
use dev_box.Text.{Text}
use dev_box.Diff.Myers.Furthest.{
  InRound, size, furthest, slide-cases, comes, furthest-cases, further_than_above,
  further_than_before,
}

module _ (a b : List Text) where
  -- One round on, on the diagonal before, a point is as far.
  one_before :
      (d i x : ℕ)
      → suc (suc d) ≤ size a b
      → InRound (size a b) d i
      → x ≤ furthest a b d i
      → InRound (size a b) (suc d) (i - 1) × (x ≤ furthest a b (suc d) (i - 1)) × (1 ≤ i)
  one_before d i x room (j, e, le) near =
      let round : InRound (size a b) (suc d) (i - 1) =
        (j, omega (arith, e, room), omega (arith, le)) in
      let back : i - 1 + 1 ≡ i = omega (arith, e, room) in
      let more =
        further_than_above a b d (i - 1) (omega (arith, room)) round
          (subst (InRound (size a b) d) (sym back) (j, e, le)) in
      (round, omega (arith, near, more, ap (furthest a b d) back), omega (arith, e, room))

  -- One round on, on the next diagonal, a point is a step further.
  one_above :
      (d i x : ℕ)
      → suc (suc d) ≤ size a b
      → InRound (size a b) d i
      → x ≤ furthest a b d i
      → InRound (size a b) (suc d) (i + 1) × (suc x ≤ furthest a b (suc d) (i + 1))
  one_above d i x room (j, e, le) near =
      let round : InRound (size a b) (suc d) (i + 1) =
        (suc j, omega (arith, e), omega (arith, le)) in
      let back : i + 1 - 1 ≡ i = omega arith in
      let more =
        further_than_before a b d (i + 1) (omega (arith, room)) round
          (subst (InRound (size a b) d) (sym back) (j, e, le)) in
      (round, omega (arith, near, more, ap (furthest a b d) back))

  -- A point past the end of the left list: the round before was as far on the diagonal before.
  past_left :
      (d i : ℕ)
      → d ≤ size a b
      → InRound (size a b) d i
      → length a < furthest a b d i
      → (d' : ℕ) × (d ≡ suc d')
        × InRound (size a b) d' (i - 1)
        × (furthest a b d i ≤ suc (furthest a b d' (i - 1)))
        × (1 ≤ i)
  unfolding furthest
  past_left zero i room (j, e, le) past =
      let (_, cases) = slide-cases a b i zero (omega (arith, e, le)) in
      absurd (elim cases [
        | inl same ↦ omega (arith, same, past)
        | inr (inside, _) ↦ omega (arith, inside, past)
      ])
  past_left (suc d) i room round past =
      let (_, cases) = furthest-cases a b d i room round in
      elim cases [
        | inr (inside, _) ↦ absurd (omega (arith, inside, past))
        | inl same ↦ elim (comes a b d i room round) [
          | inr (under, e, _) ↦ (
            d,
            refl,
            under,
            omega (arith, same, e),
            omega (arith, round.1, round.2, under.1, room),
          )
          | inl (above, e, _) ↦
              let (d', e', round', near, _) =
                past_left d (i + 1) (omega (arith, room)) above (omega (arith, e, same, past)) in
              let back : i + 1 - 1 ≡ i = omega arith in
              let at_i = subst (InRound (size a b) d') back round' in
              let (under, far, one) =
                one_before d' i (furthest a b (suc d) i - 1) (omega (arith, room, e')) at_i
                  (omega (arith, same, e, near, ap (furthest a b d') back)) in
              (
                d,
                refl,
                subst (λ k. InRound (size a b) k (i - 1)) (sym e') under,
                omega (arith, far, ap (λ k. furthest a b k (i - 1)) e'),
                one,
              )
        ]
      ]

  -- A point past the end of the right list: the round before was as far on the next diagonal.
  past_right :
      (d i : ℕ)
      → d ≤ size a b
      → InRound (size a b) d i
      → length b + i < furthest a b d i + size a b
      → (d' : ℕ) × (d ≡ suc d')
        × InRound (size a b) d' (i + 1)
        × (furthest a b d i ≤ furthest a b d' (i + 1))
  unfolding furthest
  past_right zero i room (j, e, le) past =
      let (_, cases) = slide-cases a b i zero (omega (arith, e, le)) in
      absurd (elim cases [
        | inl same ↦ omega (arith, same, past, e, le)
        | inr (_, inside) ↦ omega (arith, inside, past)
      ])
  past_right (suc d) i room round past =
      let (_, cases) = furthest-cases a b d i room round in
      elim cases [
        | inr (_, inside) ↦ absurd (omega (arith, inside, past))
        | inl same ↦ elim (comes a b d i room round) [
          | inl (above, e, _) ↦ (d, refl, above, omega (arith, same, e))
          | inr (under, e, _) ↦
              let one : 1 ≤ i = omega (arith, room, under.1, under.2, round.1, round.2) in
              let (d', e', round', near) =
                past_right d (i - 1) (omega (arith, room)) under
                  (omega (arith, e, same, past, one)) in
              let back : i - 1 + 1 ≡ i = omega (arith, one) in
              let at_i = subst (InRound (size a b) d') back round' in
              let (above, far) =
                one_above d' i (furthest a b d (i - 1)) (omega (arith, room, e')) at_i
                  (omega (arith, near, ap (furthest a b d') back)) in
              (
                d,
                refl,
                subst (λ k. InRound (size a b) k (i + 1)) (sym e') above,
                omega (arith, same, e, far, ap (λ k. furthest a b k (i + 1)) e'),
              )
        ]
      ]

  -- Past both ends, on a diagonal.
  abbrev pub AtEnd : (d i : ℕ) → Type 0
  AtEnd d i = (length a ≤ furthest a b d i) × (length b + i ≤ furthest a b d i + size a b)

  abbrev pub Unfinished : (d : ℕ) → Type 0
  Unfinished d = (i : ℕ) → InRound (size a b) d i → ¬ AtEnd d i

  -- The first point past both ends is the end of both lists.
  pub first_end :
      (d i : ℕ)
      → d ≤ size a b
      → ((e : ℕ) → e < d → Unfinished e)
      → InRound (size a b) d i
      → AtEnd d i
      → (furthest a b d i ≡ length a) × (i + length b ≡ size a b + length a)
  first_end d i room earlier round (left, right) =
      elim (Bool-cases (ltb (length a) (furthest a b d i))) [
        | inl h ↦
            let (d', e, under, near, one) = past_left d i room round (ground arith) in
            absurd (
              earlier d' (omega (arith, e)) (i - 1) under
                (omega (arith, near, left, ltb→lt _ _ h), omega (arith, near, right, one)))
        | inr h ↦ elim (Bool-cases (ltb (length b + i) (furthest a b d i + size a b))) [
          | inl h' ↦
              let (d', e, above, near) = past_right d i room round (ground arith) in
              absurd (
                earlier d' (omega (arith, e)) (i + 1) above
                  (omega (arith, near, left), omega (arith, near, right, ltb→lt _ _ h')))
          | inr h' ↦ (ground arith, ground arith)
        ]
      ]
