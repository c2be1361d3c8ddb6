-- ===== src/Diff/Myers/Furthest.antt =====
-- The furthest points of Myers' search as a recursion on the round.
pub mod Ends
use dev_box.Prelude.{
  ℕ, zero, suc, ◌+◌, ◌-◌, ◌*◌, ◌≤◌, ◌<◌, ◌≡◌, ◌≢◌, ◌⊎◌, inl, inr, refl, not, ◌&&◌, ◌||◌, List, [],
  ◌∷◌, length, drop, length-drop, ltb, ◌==◌, if◌then◌else◌, arith, Bool-cases, ap, sym, ltb→lt,
}
use mathlib.Core.Path.{subst}
use dev_box.Text.{Text, text_eq}
use dev_box.Diff.Myers.{agree, slide}

pub agree-le : (a b : List Text) → (agree a b ≤ length a) × (agree a b ≤ length b)
unfolding agree
agree-le [] b = (omega arith, omega arith)
agree-le (x ∷ a) [] = (omega arith, omega arith)
agree-le (x ∷ a) (y ∷ b) =
    let (left, right) = agree-le a b in
    elim (Bool-cases (text_eq x y)) [
      | inl h ↦ rw h ((omega (arith, left), omega (arith, right)))
      | inr h ↦ rw h ((omega arith, omega arith))
    ]

-- Where a round starts on a diagonal, by the furthest points of the round before.
unfoldable pub origin : (offset d : ℕ) → (ℕ → ℕ) → ℕ → ℕ
origin offset d before i =
    if i + d == offset || (not (i == offset + d) && ltb (before (i - 1)) (before (i + 1)))
    then before (i + 1)
    else suc (before (i - 1))

-- The diagonals of a round.
abbrev pub InRound : (offset d i : ℕ) → Type 0
InRound offset d i = (j : ℕ) × (i + d ≡ offset + 2 * j) × (j ≤ d)

-- A point of a round comes down from the next diagonal or to the right from the one before, from
-- the one that is further.
abbrev pub Comes : (offset d : ℕ) → (ℕ → ℕ) → ℕ → ℕ → Type 0
Comes offset d before i x =
    (InRound offset d (i + 1)
      × (x ≡ before (i + 1))
      × (InRound offset d (i - 1) → suc (before (i - 1)) ≤ x))
    ⊎ (InRound offset d (i - 1)
        × (x ≡ suc (before (i - 1)))
        × (InRound offset d (i + 1) → before (i + 1) ≤ x))

origin-Comes :
    (offset d : ℕ) (before : ℕ → ℕ) (i : ℕ)
    → suc d ≤ offset
    → InRound offset (suc d) i
    → Comes offset d before i (origin offset (suc d) before i)
unfolding origin
origin-Comes offset d before i room (j, e, le) = elim (Bool-cases (i + suc d == offset)) [
  | inl left ↦
      let edge : i + suc d ≡ offset = ground arith in
      rw left (
        inl (
          (0, omega (arith, edge), omega arith),
          refl,
          λ (j', e', le'). absurd (omega (arith, edge, e')),
        ))
  | inr not_left ↦
      let ne : i + suc d ≢ offset = ground arith in
      elim (Bool-cases (i == offset + suc d)) [
        | inl right ↦
            let edge : i ≡ offset + suc d = ground arith in
            rw (not_left, right)
              (inr (
                (d, omega (arith, edge), omega arith),
                refl,
                λ (j', e', le'). absurd (omega (arith, edge, e', le')),
              ))
        | inr not_right ↦
            let ne' : i ≢ offset + suc d = ground arith in
            elim (Bool-cases (ltb (before (i - 1)) (before (i + 1)))) [
              | inl further ↦
                  rw (not_left, not_right, further)
                    (inl
                      ((j, omega (arith, e), omega (arith, e, le, ne')), refl, λ _. ground arith))
              | inr nearer ↦
                  rw (not_left, not_right, nearer)
                    (inr (
                      (j - 1, omega (arith, e, room, ne), omega (arith, le)),
                      refl,
                      λ _. ground arith,
                    ))
            ]
      ]
]

module _ (a b : List Text) where
  abbrev pub size : ℕ
  size = length a + length b

  -- The furthest x of a round on a diagonal.
  unfoldable pub furthest : (d i : ℕ) → ℕ
  unfolding slide origin
  furthest zero i = slide a b size i 0
  furthest (suc d) i = slide a b size i (origin size (suc d) (furthest d) i)

  pub slide-cases :
      (i x : ℕ)
      → i ≤ x + size
      → (x ≤ slide a b size i x)
        × ((slide a b size i x ≡ x)
            ⊎ ((slide a b size i x ≤ length a) × (slide a b size i x + size ≤ length b + i)))
  unfolding slide
  slide-cases i x low =
      let run = agree (drop x a) (drop (x + size - i) b) in
      let (left, right) = agree-le (drop x a) (drop (x + size - i) b) in
      let rest = length-drop {0} x a in
      let rest' = length-drop {0} (x + size - i) b in
      (omega arith, by_run run (omega (arith, left, rest)) (omega (arith, right, rest')))
    where
      by_run :
          (run : ℕ)
          → run ≤ length a - x
          → run ≤ length b - (x + size - i)
          → (x + run ≡ x) ⊎ ((x + run ≤ length a) × (x + run + size ≤ length b + i))
      by_run zero h h' = inl (omega arith)
      by_run (suc run) h h' = inr (omega (arith, h), omega (arith, h', low))

  -- The y of a point that comes from a round is not negative.
  Comes-low :
      (d i x : ℕ) (before : ℕ → ℕ)
      → ((k : ℕ) → InRound size d k → k ≤ before k + size)
      → Comes size d before i x
      → i ≤ x + size
  Comes-low d i x before low (inl (above, e, _)) = omega (arith, e, low (i + 1) above)
  Comes-low d i x before low (inr (under, e, _)) = omega (arith, e, low (i - 1) under)

  -- The y of each furthest point is not negative.
  pub furthest-low : (d i : ℕ) → d ≤ size → InRound size d i → i ≤ furthest d i + size
  unfolding furthest
  furthest-low zero i room (j, e, le) =
      let low : i ≤ zero + size = omega (arith, e, le) in
      let (more, _) = slide-cases i zero low in omega (arith, more, low)
  furthest-low (suc d) i room round =
      let low =
        Comes-low d i (origin size (suc d) (furthest d) i) (furthest d)
          (λ k h. furthest-low d k (omega (arith, room)) h)
          (origin-Comes size d (furthest d) i room round) in
      let (more, _) = slide-cases i (origin size (suc d) (furthest d) i) low in
      omega (arith, more, low)

  module _ (d i : ℕ) (room : suc d ≤ size) (round : InRound size (suc d) i) where
    abbrev pub first : ℕ
    first = origin size (suc d) (furthest d) i

    pub comes : Comes size d (furthest d) i first
    comes = origin-Comes size d (furthest d) i room round

    pub first-low : i ≤ first + size
    first-low =
        Comes-low d i first (furthest d) (λ k h. furthest-low d k (omega (arith, room)) h) comes

    -- Either the point lies within both lists, or it is where its round started.
    pub furthest-cases :
        (first ≤ furthest (suc d) i)
        × ((furthest (suc d) i ≡ first)
            ⊎ ((furthest (suc d) i ≤ length a) × (furthest (suc d) i + size ≤ length b + i)))
    unfolding furthest
    furthest-cases = slide-cases i first first-low

    -- A round is no nearer than a step from each neighbour of the round before.
    pub further_than_above : InRound size d (i + 1) → furthest d (i + 1) ≤ furthest (suc d) i
    further_than_above above =
        let (more, _) = furthest-cases in
        elim comes [
          | inl (_, e, _) ↦ omega (arith, e, more)
          | inr (_, _, le) ↦ omega (arith, le above, more)
        ]

    pub further_than_before : InRound size d (i - 1) → suc (furthest d (i - 1)) ≤ furthest (suc d) i
    further_than_before under =
        let (more, _) = furthest-cases in
        elim comes [
          | inl (_, _, le) ↦ omega (arith, le under, more)
          | inr (_, e, _) ↦ omega (arith, e, more)
        ]
