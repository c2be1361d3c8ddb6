-- ===== src/Diff/Myers/Backtrack.antt =====
-- The walk back over the cells of the search gives a script from one list to the other.
use dev_box.Prelude.{
  ℕ, zero, suc, ◌+◌, ◌-◌, ◌≤◌, ◌<◌, ◌≡◌, inl, inr, refl, true, false, List, [], ◌∷◌, ◌++◌, length,
  min, arith, Bool-cases, ap, sym, ◌∙◌, get_or, drop, replicate, drop-add, drop-cons,
}
use mathlib.Core.Path.{subst}
use dev_box.Text.{Text, text_eq}
use dev_box.Text.Equality.{text_eq_sound}
use dev_box.Diff.Script.{ChangeKind, equal, insert, delete, EditOp, Edits, spelled_out}
use dev_box.Diff.Myers.{Cells, agree, slide, goes_down, finish_back, walk_back, push_ops}
use dev_box.Diff.Myers.Furthest.{origin, InRound, size, furthest, furthest-low}
use dev_box.Diff.Myers.Rounds.{Level-Reads, TraceOf}

push_ops-spelled_out :
    (n : ℕ) (kind : ChangeKind) (ops : List EditOp)
    → spelled_out (push_ops n kind ops) ≡ replicate n kind ++ spelled_out ops
unfolding spelled_out
push_ops-spelled_out zero kind ops = refl
push_ops-spelled_out (suc n) kind ops = ap (λ l. kind ∷ l) (push_ops-spelled_out n kind ops)

-- Items that agree from the start can be kept.
pub agree-Edits :
    (t : ℕ) (a b : List Text) (script : List ChangeKind)
    → t ≤ agree a b
    → Edits script (drop t a) (drop t b)
    → Edits (replicate t equal ++ script) a b
unfolding agree
agree-Edits zero a b script le edits = edits
agree-Edits (suc t) [] b script le edits = absurd (omega (arith, le))
agree-Edits (suc t) (x ∷ a) [] script le edits = absurd (omega (arith, le))
agree-Edits (suc t) (x ∷ a) (y ∷ b) script le edits = elim (Bool-cases (text_eq x y)) [
  | inl h ↦
      let le' : suc t ≤ suc (agree a b) = rw h at le in
      (
        x,
        a,
        b,
        refl,
        ap (λ z. z ∷ b) (sym (text_eq_sound x y h)),
        agree-Edits t a b script (omega (arith, le')) edits,
      )
  | inr h ↦ let le' : suc t ≤ 0 = rw h at le in absurd (omega (arith, le'))
]

-- A step of the walk on a diagonal that was reached from the next one, and one from the one before.
module _ (offset d x y i far t : ℕ) (v : Cells) (trace : List Cells) (ops : List EditOp) where
  down_step :
      offset + x - y ≡ i
      → goes_down offset (suc d) v i ≡ true
      → get_or v (i + 1) 0 - 1 ≡ far
      → min (x - far) (y - (far + offset - (i + 1))) ≡ t
      → walk_back offset (suc d) (v ∷ trace) x y ops
        ≡ walk_back offset d trace (x - t) (y - t - 1) (push_ops 1 insert (push_ops t equal ops))
  unfolding walk_back
  down_step at_i down cell run = rw (at_i, down, cell, run) refl

  right_step :
      offset + x - y ≡ i
      → goes_down offset (suc d) v i ≡ false
      → get_or v (i - 1) 0 - 1 ≡ far
      → min (x - far) (y - (far + offset - (i - 1))) ≡ t
      → walk_back offset (suc d) (v ∷ trace) x y ops
        ≡ walk_back offset d trace (x - t - 1) (y - t) (push_ops 1 delete (push_ops t equal ops))
  unfolding walk_back
  right_step at_i right cell run = rw (at_i, right, cell, run) refl

module _ (a b : List Text) where
  kept_back :
      (x y x' y' : ℕ) (ops : List EditOp)
      → x' ≡ x + agree (drop x a) (drop y b)
      → y' ≡ y + agree (drop x a) (drop y b)
      → Edits (spelled_out ops) (drop x' a) (drop y' b)
      → Edits (spelled_out (push_ops (agree (drop x a) (drop y b)) equal ops)) (drop x a) (drop y b)
  kept_back x y x' y' ops ex ey edits =
      let run = agree (drop x a) (drop y b) in
      let at_x : drop x' a ≡ drop run (drop x a) = ap (λ k. drop k a) ex ∙ drop-add x run a in
      let at_y : drop y' b ≡ drop run (drop y b) = ap (λ k. drop k b) ey ∙ drop-add y run b in
      subst (λ script. Edits script (drop x a) (drop y b))
        (sym (push_ops-spelled_out run equal ops))
        (agree-Edits run (drop x a) (drop y b) (spelled_out ops) (omega arith) (
          subst (λ l. Edits (spelled_out ops) l (drop run (drop y b))) at_x
            (subst (λ l. Edits (spelled_out ops) (drop x' a) l) at_y edits)))

  inserted_back :
      (x y : ℕ) (ops : List EditOp)
      → y < length b
      → Edits (spelled_out ops) (drop x a) (drop (suc y) b)
      → Edits (spelled_out (push_ops 1 insert ops)) (drop x a) (drop y b)
  unfolding spelled_out
  inserted_back x y ops inside edits =
      let (line, e) = drop-cons y b inside in (line, drop (suc y) b, e, edits)

  deleted_back :
      (x y : ℕ) (ops : List EditOp)
      → x < length a
      → Edits (spelled_out ops) (drop (suc x) a) (drop y b)
      → Edits (spelled_out (push_ops 1 delete ops)) (drop x a) (drop y b)
  unfolding spelled_out
  deleted_back x y ops inside edits =
      let (line, e) = drop-cons x a inside in (line, drop (suc x) a, e, edits)

  -- A furthest point by the point where its round started.
  furthest-run :
      (d i start : ℕ)
      → origin (size a b) (suc d) (furthest a b d) i ≡ start
      → furthest a b (suc d) i ≡ start + agree (drop start a) (drop (start + size a b - i) b)
  unfolding furthest slide
  furthest-run d i start e = rw e refl

  moved :
      (x y x' y' : ℕ) (script : List ChangeKind)
      → x ≡ x'
      → y ≡ y'
      → Edits script (drop x a) (drop y b)
      → Edits script (drop x' a) (drop y' b)
  moved x y x' y' script ex ey edits =
      subst (λ k. Edits script (drop k a) (drop y' b)) ex
        (subst (λ k. Edits script (drop x a) (drop k b)) ey edits)

  pub walk_back-Edits :
      (d : ℕ) (trace : List Cells) (i x y : ℕ) (ops : List EditOp)
      → d ≤ size a b
      → TraceOf a b (suc d) trace
      → InRound (size a b) d i
      → x ≡ furthest a b d i
      → x + size a b ≡ y + i
      → x ≤ length a
      → y ≤ length b
      → Edits (spelled_out ops) (drop x a) (drop y b)
      → Edits (spelled_out (walk_back (size a b) d trace x y ops)) a b
  unfolding walk_back furthest slide finish_back
  walk_back-Edits zero trace i x y ops room traced (j, e, le) far end lx ly edits =
      let middle : i ≡ size a b = omega (arith, e, le) in
      let square : y ≡ x = omega (arith, end, middle) in
      let start : 0 + size a b - i ≡ 0 = omega (arith, middle) in
      let reach : x ≡ agree a b = far ∙ rw start (omega arith) in
      let nothing : x - x ≡ 0 = omega arith in
      let whole : min x x ≡ x = omega arith in
      rw (square, whole, nothing, reach)
        (kept_back 0 0 x y ops (omega (arith, reach)) (omega (arith, reach, square)) edits)
  walk_back-Edits (suc d) [] i x y ops room traced round far end lx ly edits = elim traced [ ]
  walk_back-Edits (suc d) (v ∷ trace) i x y ops room (level, traced) round far end lx ly edits =
      let at_i : size a b + x - y ≡ i = omega (arith, end) in
      elim (Level-Reads a b d v i room level round) [
        | inl (down, above, _, start, cell) ↦
            let f = furthest a b d (i + 1) in
            let q = f + size a b - i in
            let run = agree (drop f a) (drop q b) in
            let low = furthest-low a b d (i + 1) (omega (arith, room)) above in
            let ex : x ≡ f + run = far ∙ furthest-run d i f start in
            let ey : y ≡ q + run = omega (arith, ex, end, low) in
            let kept = kept_back f q x y ops ex ey edits in
            rw
              (down_step (size a b) d x y i f run v trace ops at_i down (omega (arith, cell))
                (omega (arith, ex, ey, low)))
              (walk_back-Edits d trace (i + 1) (x - run) (y - run - 1) _ (omega (arith, room))
                traced above (omega (arith, ex)) (omega (arith, ex, ey, low)) (omega (arith, lx))
                (omega (arith, ly))
                (inserted_back (x - run) (y - run - 1) _ (omega (arith, ly, ey, low)) (
                  moved f q (x - run) (suc (y - run - 1)) _ (omega (arith, ex))
                    (omega (arith, ey, low)) kept)))
        | inr (right, under, _, start, cell) ↦
            let f = furthest a b d (i - 1) in
            let one : 1 ≤ i = omega (arith, room, under.1, under.2, round.1, round.2) in
            let q = suc f + size a b - i in
            let run = agree (drop (suc f) a) (drop q b) in
            let low = furthest-low a b d (i - 1) (omega (arith, room)) under in
            let ex : x ≡ suc f + run = far ∙ furthest-run d i (suc f) start in
            let ey : y ≡ q + run = omega (arith, ex, end, low) in
            let kept = kept_back (suc f) q x y ops ex ey edits in
            rw
              (right_step (size a b) d x y i f run v trace ops at_i right (omega (arith, cell))
                (omega (arith, ex, ey, low, one)))
              (walk_back-Edits d trace (i - 1) (x - run - 1) (y - run) _ (omega (arith, room))
                traced under (omega (arith, ex)) (omega (arith, ex, ey, low, one))
                (omega (arith, lx)) (omega (arith, ly))
                (deleted_back (x - run - 1) (y - run) _ (omega (arith, lx, ex)) (
                  moved (suc f) q (suc (x - run - 1)) (y - run) _ (omega (arith, ex))
                    (omega (arith, ey)) kept)))
      ]
