-- ===== src/Cron/Schedule/Projection.antt =====
-- The search finds the first matching instants of its grid, and the grid bounds it.
use dev_box.Prelude.{
  ℕ, zero, suc, ◌+◌, ◌-◌, ◌*◌, ◌≤◌, ◌<◌, ◌≡◌, refl, Bool, true, false, List, [], ◌∷◌, ◌++◌, arith,
  Bool-cases, inl, inr, length, length-append, take, All, All-map, append_assoc, append-nil, ltb,
  ap, ◌∙◌, sym, if◌then◌else◌, length-take,
}
use native.Mathlib.Nat.{suc-mul}
use dev_box.Cron.Model.{ParsedCron}
use dev_box.Cron.Parse.Values.{IsAscending}
use dev_box.Cron.Schedule.{
  Calendar, matches, project, step_of, max_iterations, first_cursor, next_occurrences,
}

-- The instants that are looked at.
unfoldable pub grid : (iterations cursor step : ℕ) → List ℕ
grid zero cursor step = []
grid (suc n) cursor step = cursor ∷ grid n (cursor + step) step

-- Those that match.
unfoldable pub matching : Calendar → ParsedCron → List ℕ → List ℕ
matching calendar parsed [] = []
matching calendar parsed (t ∷ ts) =
    let more = matching calendar parsed ts in if matches calendar parsed t then t ∷ more else more

take-nil : (n : ℕ) → ◌≡◌ {A = List ℕ} (take n []) []
take-nil zero = refl
take-nil (suc n) = refl

take_all : (n : ℕ) (results found : List ℕ) → n ≡ 0 → results ≡ results ++ take n found
take_all n results found e = sym (append-nil results) ∙ ap (λ k. results ++ take k found) (sym e)

module _ (calendar : Calendar) (parsed : ParsedCron) (step : ℕ) where
  project-take :
      (n cursor count : ℕ) (results : List ℕ)
      → project calendar parsed step n cursor count results
        ≡ results ++ take (count - length results) (matching calendar parsed (grid n cursor step))
  unfolding project matching grid
  project-take zero cursor count results =
      sym (append-nil results) ∙ ap (λ l. results ++ l) (sym (take-nil (count - length results)))
  project-take (suc n) cursor count results = elim (Bool-cases (ltb (length results) count)) [
    | inr full ↦ rw full (take_all (count - length results) results _ (ground arith))
    | inl room ↦ elim (Bool-cases (matches calendar parsed cursor)) [
      | inr no_match ↦ rw (room, no_match) (project-take n (cursor + step) count results)
      | inl match ↦
          let left : count - length results ≡ suc (count - length (results ++ cursor ∷ [])) =
            ground (arith, length-append results (cursor ∷ [])) in
          rw (room, match, left)
            (project-take n (cursor + step) count (results ++ cursor ∷ [])
              ∙ append_assoc results (cursor ∷ []) _)
    ]
  ]

module _ (calendar : Calendar) (parsed : ParsedCron) (start count : ℕ) where
  -- The projection by the code's own first instant, steps and bound.
  projected :
      next_occurrences calendar parsed start count
      ≡ take count (
          matching calendar parsed (
            grid
              (max_iterations parsed.has_seconds)
              (first_cursor calendar parsed.has_seconds start)
              (step_of parsed.has_seconds)))
  unfolding next_occurrences
  projected =
      project-take calendar parsed (step_of parsed.has_seconds) (max_iterations parsed.has_seconds)
        (first_cursor calendar parsed.has_seconds start) count []
      ∙ ap
          (λ k. take k (
            matching calendar parsed (
              grid (max_iterations parsed.has_seconds)
                (first_cursor calendar parsed.has_seconds start) (step_of parsed.has_seconds))))
          (omega arith)

  -- The projection is the first `count` of the instants that match among those looked at. With a field
  -- for the seconds these are 400,000 instants a second apart, the first of them a second behind what
  -- clearing the milliseconds of the start gives; without it, the minutes of four years of 366 days,
  -- the first of them a minute behind what clearing the seconds and milliseconds gives.
  pub next_occurrences-take :
      (parsed.has_seconds ≡ true
        → next_occurrences calendar parsed start count
          ≡ take count
              (matching calendar parsed (grid 400000 (calendar.whole_second start + 1000) 1000)))
      × (parsed.has_seconds ≡ false
          → next_occurrences calendar parsed start count
            ≡ take count (
                matching calendar parsed
                  (grid 2108160 (calendar.whole_minute start + 60000) 60000)))
  unfolding max_iterations
  next_occurrences-take = (
    λ e.
        projected
        ∙ ap
            (λ seconds. take count (
              matching calendar parsed (
                grid (max_iterations seconds) (first_cursor calendar seconds start)
                  (step_of seconds))))
            e,
    λ e.
        projected
        ∙ ap
            (λ seconds. take count (
              matching calendar parsed (
                grid (max_iterations seconds) (first_cursor calendar seconds start)
                  (step_of seconds))))
            e,
  )

module _ (P : ℕ → Type 0) where
  All-take : (n : ℕ) (ts : List ℕ) → All P ts → All P (take n ts)
  All-take zero ts h = tt
  All-take (suc n) [] h = tt
  All-take (suc n) (t ∷ ts) (h, hs) = (h, All-take n ts hs)

  All-matching :
      (calendar : Calendar) (parsed : ParsedCron) (ts : List ℕ)
      → All P ts
      → All P (matching calendar parsed ts)
  unfolding matching
  All-matching calendar parsed [] h = tt
  All-matching calendar parsed (t ∷ ts) (h, hs) = elim (Bool-cases (matches calendar parsed t)) [
    | inl e ↦ rw e ((h, All-matching calendar parsed ts hs))
    | inr e ↦ rw e (All-matching calendar parsed ts hs)
  ]

take-IsAscending : (n : ℕ) (ts : List ℕ) → IsAscending ts → IsAscending (take n ts)
take-IsAscending zero ts h = tt
take-IsAscending (suc n) [] h = tt
take-IsAscending (suc n) (t ∷ ts) (h, hs) = (All-take (λ u. t < u) n ts h, take-IsAscending n ts hs)

module _ (calendar : Calendar) (parsed : ParsedCron) where
  matching-IsAscending : (ts : List ℕ) → IsAscending ts → IsAscending (matching calendar parsed ts)
  unfolding matching
  matching-IsAscending [] h = tt
  matching-IsAscending (t ∷ ts) (h, hs) = elim (Bool-cases (matches calendar parsed t)) [
    | inl e ↦ rw e ((All-matching (λ u. t < u) calendar parsed ts h, matching-IsAscending ts hs))
    | inr e ↦ rw e (matching-IsAscending ts hs)
  ]

  matching-matches :
      (ts : List ℕ) → All (λ t. matches calendar parsed t ≡ true) (matching calendar parsed ts)
  unfolding matching
  matching-matches [] = tt
  matching-matches (t ∷ ts) = elim (Bool-cases (matches calendar parsed t)) [
    | inl e ↦ rw e ((e, matching-matches ts))
    | inr e ↦ rw e (matching-matches ts)
  ]

-- The grid lies from its first instant on, and within its steps.
grid-bounds :
    (n cursor step : ℕ)
    → All (λ t. (cursor ≤ t) × (t + step ≤ cursor + n * step)) (grid n cursor step)
unfolding grid
grid-bounds zero cursor step = tt
grid-bounds (suc n) cursor step = (
  (omega arith, omega (arith, suc-mul n step)),
  All-map (λ t (low, high). (omega (arith, low), omega (arith, high, suc-mul n step)))
      (grid n (cursor + step) step) (grid-bounds n (cursor + step) step),
)

grid-IsAscending : (n cursor step : ℕ) → 0 < step → IsAscending (grid n cursor step)
unfolding grid
grid-IsAscending zero cursor step h = tt
grid-IsAscending (suc n) cursor step h = (
  All-map (λ t (low, high). omega (arith, low, h)) (grid n (cursor + step) step)
      (grid-bounds n (cursor + step) step),
  grid-IsAscending n (cursor + step) step h,
)

-- What the two clearing methods of a calendar do: they go back to the whole second or minute, and, where
-- the local time of an instant has been read before, to the first of the two readings. `lag` is
-- the longest time by which clocks are put back (0 on a calendar that never does). The offsets of
-- the calendar change at whole minutes.
pub record IsCalendar (calendar : Calendar) (lag : ℕ) : Type 0 where
  pub second_low : (t : ℕ) → calendar.whole_second t ≤ t
  pub second_high : (t : ℕ) → t < calendar.whole_second t + 1000 + lag
  pub minute_low : (t : ℕ) → calendar.whole_minute t ≤ t
  pub minute_high : (t : ℕ) → t < calendar.whole_minute t + 60000 + lag

-- An occurrence: it matches, is behind the start less `lag`, and is at most 400,000 seconds or four
-- years of 366 days behind the start.
abbrev pub Occurs : Calendar → (lag : ℕ) → ParsedCron → ℕ → ℕ → Type 0
Occurs calendar lag parsed start t =
    (matches calendar parsed t ≡ true)
    × (start < t + lag)
    × (t ≤ start + (if parsed.has_seconds then 400000000 else 126489600000))

reach :
    (seconds : Bool)
    → max_iterations seconds * step_of seconds ≡ (if seconds then 400000000 else 126489600000)
unfolding max_iterations
reach true = refl
reach false = refl

first_cursor-bounds :
    (calendar : Calendar) (lag : ℕ) (seconds : Bool) (start : ℕ)
    → IsCalendar calendar lag
    → (start < first_cursor calendar seconds start + lag)
      × (first_cursor calendar seconds start ≤ start + step_of seconds)
first_cursor-bounds calendar lag true start law =
    (omega (arith, law.second_high start), omega (arith, law.second_low start))
first_cursor-bounds calendar lag false start law =
    (omega (arith, law.minute_high start), omega (arith, law.minute_low start))

step-pos : (seconds : Bool) → 0 < step_of seconds
step-pos true = omega arith
step-pos false = omega arith

All-both :
    (P Q R : ℕ → Type 0)
    → ((t : ℕ) → P t → Q t → R t)
    → (ts : List ℕ) → All P ts
    → All Q ts
    → All R ts
All-both P Q R f [] h h' = tt
All-both P Q R f (t ∷ ts) (p, h) (q, h') = (f t p q, All-both P Q R f ts h h')

-- On a calendar whose clearing methods go back to the whole second and minute, and at most by `lag`
-- further where clocks were put back: at most `count` instants are projected, each is before the
-- next, and each matches, is at most 400,000 seconds (with a field for the seconds) or four years
-- of 366 days (without it) behind the start, and is behind the start less `lag`, so strictly
-- behind the start where clocks are never put back.
pub next_occurrences-Occurs :
    (calendar : Calendar) (lag : ℕ) (parsed : ParsedCron) (start count : ℕ)
    → IsCalendar calendar lag
    → let found = next_occurrences calendar parsed start count in
      All (Occurs calendar lag parsed start) found × IsAscending found × (length found ≤ count)
next_occurrences-Occurs calendar lag parsed start count law =
    let step = step_of parsed.has_seconds in
    let first = first_cursor calendar parsed.has_seconds start in
    let n = max_iterations parsed.has_seconds in
    let seen = grid n first step in
    let (behind, near) = first_cursor-bounds calendar lag parsed.has_seconds start law in
    let bounds = All-take (Occurs calendar lag parsed start) count (matching calendar parsed seen) (
      All-both _ _ (Occurs calendar lag parsed start)
        (λ t m (low, high).
          (m, omega (arith, behind, low), omega (arith, near, high, reach parsed.has_seconds)))
        (matching calendar parsed seen) (matching-matches calendar parsed seen)
        (All-matching (λ t. (first ≤ t) × (t + step ≤ first + n * step)) calendar parsed seen
          (grid-bounds n first step))) in
    let ascends =
      take-IsAscending count (matching calendar parsed seen)
        (matching-IsAscending calendar parsed seen (grid-IsAscending n first step (step-pos _))) in
    rw (projected calendar parsed start count)
      ((bounds, ascends, omega (arith, length-take {0} count (matching calendar parsed seen))))
