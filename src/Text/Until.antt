-- ===== src/Text/Until.antt =====
-- What `until` splits a text into.
use dev_box.Prelude.{
  ◌≢◌, ◌⊎◌, In, ℕ, ◌≤◌, ◌≡◌, refl, [], ◌∷◌, ◌++◌, arith, Bool-cases, inl, inr, length, ap, ◌==◌,
  length-append,
}
use dev_box.Text.{Text}
use dev_box.Text.Split.{until}

pub until-append : (mark : ℕ) (s : Text) → (until mark s).0 ++ (until mark s).1 ≡ s
unfolding until
until-append mark [] = refl
until-append mark (c ∷ s) = elim (Bool-cases (c == mark)) [
  | inl h ↦ rw h refl
  | inr h ↦ rw h (ap (λ t. c ∷ t) (until-append mark s))
]

-- What is left starts with the mark, or is empty.
pub until-stop : (mark : ℕ) (s : Text) (c : ℕ) (t : Text) → (until mark s).1 ≡ c ∷ t → c ≡ mark
unfolding until
until-stop mark [] c t e = cc
until-stop mark (d ∷ s) c t e = elim (Bool-cases (d == mark)) [
  | inl h ↦ let e' : d ∷ s ≡ c ∷ t = rw h at e in ground arith
  | inr h ↦ let e' : (until mark s).1 ≡ c ∷ t = rw h at e in until-stop mark s c t e'
]

pub length-until : (mark : ℕ) (s : Text) → length (until mark s).1 ≤ length s
length-until mark s =
    omega
      (arith, ap length (until-append mark s), length-append {0} (until mark s).0 (until mark s).1)

-- What `until` gives: what stands before the first mark, and the mark with what is behind it.
pub until-cases :
    (mark : ℕ) (s : Text)
    → ((until mark s ≡ (s, [])) × ¬ In mark s)
      ⊎ ((front : Text) × (rest : Text) × (until mark s ≡ (front, mark ∷ rest))
          × (s ≡ front ++ mark ∷ rest)
          × ¬ In mark front)
unfolding until
until-cases mark [] = inl (refl, λ m. m)
until-cases mark (c ∷ s) = elim (Bool-cases (c == mark)) [
  | inl h ↦
      let e : c ≡ mark = ground arith in
      rw h (inr ([], s, ap (λ k. ([], k ∷ s)) e, ap (λ k. k ∷ s) e, λ m. m))
  | inr h ↦
      let ne : mark ≢ c = ground arith in
      elim (until-cases mark s) [
        | inl (e, clear) ↦
            rw (h, e) (inl (refl, λ m. elim m [ inl same ↦ ne same | inr later ↦ clear later ]))
        | inr (front, rest, e, whole, clear) ↦
            rw (h, e)
              (inr (
                c ∷ front,
                rest,
                refl,
                ap (λ t. c ∷ t) whole,
                λ m. elim m [ inl same ↦ ne same | inr later ↦ clear later ],
              ))
      ]
]
