-- ===== src/Diff/Script.antt =====
-- Edit scripts, and what it means that one turns a list into another.
use dev_box.Prelude.{
  ℕ, zero, suc, ◌+◌, ◌≡◌, List, [], ◌∷◌, ◌++◌, if◌then◌else◌, ◌==◌, refl, ap, Bool-cases, inl, inr,
  arith, replicate, ◌∙◌, sym, append_assoc,
}

pub data ChangeKind : Type 0 where
  equal insert delete : ChangeKind

pub record EditOp : Type 0 where
  pub kind : ChangeKind
  pub count : ℕ

abbrev pub op_of : ChangeKind → ℕ → EditOp
op_of kind count = record { kind = kind; count = count }

-- a.kind === b.kind
abbrev pub kind_number : ChangeKind → ℕ
kind_number equal = 0
kind_number insert = 1
kind_number delete = 2

-- The loop of `coalesce` with the last operation that was put out; what stands before it is out.
unfoldable pub merge_ops : EditOp → List EditOp → List EditOp
merge_ops last [] = last ∷ []
merge_ops last (op ∷ ops) =
    let dropped = merge_ops last ops in
    let merged = merge_ops (op_of last.kind (last.count + op.count)) ops in
    let separate = merge_ops op ops in
    if op.count == 0
    then dropped
    else if kind_number last.kind == kind_number op.kind
    then merged
    else last ∷ separate

unfoldable pub coalesce : List EditOp → List EditOp
unfolding merge_ops
coalesce [] = []
coalesce (op ∷ ops) = let rest = coalesce ops in if op.count == 0 then rest else merge_ops op ops

module _ {A : Type 0} where
  -- The script turns the first list into the second, and what it keeps is the same in both.
  abbrev pub Edits : List ChangeKind → List A → List A → Type 0
  Edits [] xs ys = (xs ≡ []) × (ys ≡ [])
  Edits (equal ∷ script) xs ys =
      (x : A) × (xs' : List A) × (ys' : List A) × (xs ≡ x ∷ xs')
      × (ys ≡ x ∷ ys')
      × Edits script xs' ys'
  Edits (insert ∷ script) xs ys = (y : A) × (ys' : List A) × (ys ≡ y ∷ ys') × Edits script xs ys'
  Edits (delete ∷ script) xs ys = (x : A) × (xs' : List A) × (xs ≡ x ∷ xs') × Edits script xs' ys

-- The operations one by one.
unfoldable pub spelled_out : List EditOp → List ChangeKind
spelled_out [] = []
spelled_out (op ∷ ops) = replicate op.count op.kind ++ spelled_out ops

replicate-add :
    (m n : ℕ) (kind : ChangeKind) → replicate (m + n) kind ≡ replicate m kind ++ replicate n kind
replicate-add zero n kind = let e : zero + n ≡ n = omega arith in ap (λ k. replicate k kind) e
replicate-add (suc m) n kind =
    let e : suc m + n ≡ suc (m + n) = omega arith in
    ap (λ k. replicate k kind) e ∙ ap (λ l. kind ∷ l) (replicate-add m n kind)

kind_number_inj : (a b : ChangeKind) → kind_number a ≡ kind_number b → a ≡ b
kind_number_inj equal equal e = refl
kind_number_inj insert insert e = refl
kind_number_inj delete delete e = refl
kind_number_inj equal insert e = absurd (omega (arith, e))
kind_number_inj equal delete e = absurd (omega (arith, e))
kind_number_inj insert equal e = absurd (omega (arith, e))
kind_number_inj insert delete e = absurd (omega (arith, e))
kind_number_inj delete equal e = absurd (omega (arith, e))
kind_number_inj delete insert e = absurd (omega (arith, e))

skip_nothing :
    (before : List ChangeKind) (op : EditOp) (ops : List EditOp)
    → op.count ≡ 0
    → before ++ spelled_out ops ≡ before ++ (replicate op.count op.kind ++ spelled_out ops)
skip_nothing before op ops e = ap (λ k. before ++ (replicate k op.kind ++ spelled_out ops)) (sym e)

merge_ops-spelled_out :
    (last : EditOp) (ops : List EditOp)
    → spelled_out (merge_ops last ops) ≡ replicate last.count last.kind ++ spelled_out ops
unfolding merge_ops spelled_out
merge_ops-spelled_out last [] = refl
merge_ops-spelled_out last (op ∷ ops) = elim (Bool-cases (op.count == 0)) [
  | inl h ↦ rw h (
      merge_ops-spelled_out last ops
      ∙ skip_nothing (replicate last.count last.kind) op ops (ground arith))
  | inr h ↦ elim (Bool-cases (kind_number last.kind == kind_number op.kind)) [
    | inl h' ↦
        let same = kind_number_inj last.kind op.kind (ground arith) in
        rw (h, h')
          (merge_ops-spelled_out (op_of last.kind (last.count + op.count)) ops
            ∙ ap (λ l. l ++ spelled_out ops) (replicate-add last.count op.count last.kind)
            ∙ append_assoc (replicate last.count last.kind) (replicate op.count last.kind)
                (spelled_out ops)
            ∙ ap (λ k. replicate last.count last.kind ++ (replicate op.count k ++ spelled_out ops))
                same)
    | inr h' ↦
        rw (h, h') (ap (λ l. replicate last.count last.kind ++ l) (merge_ops-spelled_out op ops))
  ]
]

-- Merging neighbours and dropping empty operations changes nothing of what a script does.
pub coalesce-spelled_out : (ops : List EditOp) → spelled_out (coalesce ops) ≡ spelled_out ops
unfolding coalesce spelled_out
coalesce-spelled_out [] = refl
coalesce-spelled_out (op ∷ ops) = elim (Bool-cases (op.count == 0)) [
  | inl h ↦ rw h (coalesce-spelled_out ops ∙ skip_nothing [] op ops (ground arith))
  | inr h ↦ rw h (merge_ops-spelled_out op ops)
]
